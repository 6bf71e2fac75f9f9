-- ===== src/Operation/Run.antt =====
-- Running an operation against a client.
use kiro_usage_pipeline.Base.{Bool, ◌↔◌, true, false, ◌≡◌, List, [], ◌∷◌, Text}
use kiro_usage_pipeline.Value.{Fields}
use kiro_usage_pipeline.Errors.{AwsException}
use kiro_usage_pipeline.Gateway
use kiro_usage_pipeline.Gateway.{Client, call}
use kiro_usage_pipeline.Operation.{
  OpResult, Reply, response, gateway_error, Op, done, raises, request, answer,
}

pub data Outcome : Type 0 where
  returned : OpResult → Outcome
  raised : Text → Outcome

-- The outcome, and the requests sent, in order.
pub record Execution : Type 0 where
  pub outcome : Outcome
  pub sent : List (Text × Fields)

abbrev pub log : Text × Fields → Execution → Execution
log r e = record { outcome = e.outcome; sent = r ∷ e.sent }

unfoldable pub run : Client → Op → Execution
run c (done r) = record { outcome = returned r; sent = [] }
run c (raises t) = record { outcome = raised t; sent = [] }
run c (request name kwargs next) =
    log (name, kwargs)
      (elim (call c name kwargs) [
        | Gateway.response d ↦ run c (next (response d))
        | Gateway.aws_error e ↦ run c (next (gateway_error e))
        | Gateway.raises t ↦ record { outcome = raised t; sent = [] }
      ])

-- The operation returned, and said that it succeeded.
abbrev pub Succeeds : Execution → Type 0
Succeeds e = elim (e.outcome) [ returned r ↦ r.ok ≡ true | raised _ ↦ ⊥ ]

-- The client answers with a response that satisfies a predicate.
abbrev pub RespondsWith : (Fields → Type 0) → Gateway.Reply → Type 0
RespondsWith P (Gateway.response d) = P d
RespondsWith P (Gateway.aws_error _) = ⊥
RespondsWith P (Gateway.raises _) = ⊥

pub RespondsWith-map_iff :
    {P Q : Fields → Type 0} (reply : Gateway.Reply)
    → ((d : Fields) → P d ↔ Q d)
    → RespondsWith P reply ↔ RespondsWith Q reply
RespondsWith-map_iff (Gateway.response d) h = h d
RespondsWith-map_iff (Gateway.aws_error _) h = (λ x. x, λ x. x)
RespondsWith-map_iff (Gateway.raises _) h = (λ x. x, λ x. x)

request-Succeeds_iff :
    (c : Client) (name : Text) (kwargs : Fields) (next : Reply → Op)
    → ((e : AwsException) → Succeeds (run c (next (gateway_error e))) → ⊥)
    → Succeeds (run c (request name kwargs next))
      ↔ RespondsWith (λ d. Succeeds (run c (next (response d)))) (call c name kwargs)
unfolding run
request-Succeeds_iff c name kwargs next h =
    elim (call c name kwargs)
      as (λ reply.
        Succeeds (
          log (name, kwargs)
            (elim reply [
              | Gateway.response d ↦ run c (next (response d))
              | Gateway.aws_error e ↦ run c (next (gateway_error e))
              | Gateway.raises t ↦ record { outcome = raised t; sent = [] }
            ]))
        ↔ RespondsWith (λ d. Succeeds (run c (next (response d)))) reply) [
          | Gateway.response d ↦ (λ x. x, λ x. x)
          | Gateway.aws_error e ↦ (h e, λ x. absurd x)
          | Gateway.raises t ↦ (λ x. x, λ x. x)
        ]

-- A request whose failures are not ok succeeds as its continuation does on the response.
pub run-request-Succeeds_iff :
    {P : Fields → Type 0} (c : Client) (name : Text) (kwargs : Fields) (next : Reply → Op)
    → ((e : AwsException) → Succeeds (run c (next (gateway_error e))) → ⊥)
    → ((d : Fields) → Succeeds (run c (next (response d))) ↔ P d)
    → Succeeds (run c (request name kwargs next)) ↔ RespondsWith P (call c name kwargs)
run-request-Succeeds_iff c name kwargs next h k =
    let sent = request-Succeeds_iff c name kwargs next h in
    let read = RespondsWith-map_iff (call c name kwargs) k in
    (λ x. read.0 (sent.0 x), λ x. sent.1 (read.1 x))

-- Success fails on a refusal.
pub run-FailsOnRefusal :
    (c : Client)
    → ((message : Text) → Succeeds (run c (answer false message)) → ⊥)
      × ((message : Text) → Succeeds (run c (raises message)) → ⊥)
unfolding run
run-FailsOnRefusal c = (λ _ x. absurd cc, λ _ x. x)

-- A reply that the operation sees; an exception that is no failure of AWS never comes to it.
abbrev pub IsHandled : Gateway.Reply → Type 0
IsHandled (Gateway.response _) = Unit
IsHandled (Gateway.aws_error _) = Unit
IsHandled (Gateway.raises _) = ⊥

-- The operation returned a result.
abbrev pub IsReturned : Execution → Type 0
IsReturned e = elim (e.outcome) [ returned _ ↦ Unit | raised _ ↦ ⊥ ]

pub run-request-IsReturned :
    (c : Client) (name : Text) (kwargs : Fields) (next : Reply → Op)
    → IsHandled (call c name kwargs)
    → ((reply : Reply) → IsReturned (run c (next reply)))
    → IsReturned (run c (request name kwargs next))
unfolding run
run-request-IsReturned c name kwargs next handled h =
    elim (call c name kwargs)
        as (λ reply.
          IsHandled reply
          → IsReturned (
              log (name, kwargs)
                (elim reply [
                  | Gateway.response d ↦ run c (next (response d))
                  | Gateway.aws_error e ↦ run c (next (gateway_error e))
                  | Gateway.raises t ↦ record { outcome = raised t; sent = [] }
                ]))) [
                  | Gateway.response d ↦ λ _. h (response d)
                  | Gateway.aws_error e ↦ λ _. h (gateway_error e)
                  | Gateway.raises t ↦ λ x. absurd x
                ]
      handled

-- As `IsHandled`, with a response that satisfies a predicate.
abbrev pub IsHandledWith : (Fields → Type 0) → Gateway.Reply → Type 0
IsHandledWith P (Gateway.response d) = P d
IsHandledWith P (Gateway.aws_error _) = Unit
IsHandledWith P (Gateway.raises _) = ⊥

pub run-request-IsReturned_with :
    {P : Fields → Type 0} (c : Client) (name : Text) (kwargs : Fields) (next : Reply → Op)
    → IsHandledWith P (call c name kwargs)
    → ((d : Fields) → P d → IsReturned (run c (next (response d))))
    → ((e : AwsException) → IsReturned (run c (next (gateway_error e))))
    → IsReturned (run c (request name kwargs next))
unfolding run
run-request-IsReturned_with {P} c name kwargs next handled h k =
    elim (call c name kwargs)
        as (λ reply.
          IsHandledWith P reply
          → IsReturned (
              log (name, kwargs)
                (elim reply [
                  | Gateway.response d ↦ run c (next (response d))
                  | Gateway.aws_error e ↦ run c (next (gateway_error e))
                  | Gateway.raises t ↦ record { outcome = raised t; sent = [] }
                ]))) [
                  | Gateway.response d ↦ λ x. h d x
                  | Gateway.aws_error e ↦ λ _. k e
                  | Gateway.raises t ↦ λ x. absurd x
                ]
      handled

pub run-answer-IsReturned :
    (c : Client) (ok : Bool) (text : Text) → IsReturned (run c (answer ok text))
unfolding run
run-answer-IsReturned c ok text = tt
