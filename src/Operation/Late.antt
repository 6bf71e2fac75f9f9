-- ===== src/Operation/Late.antt =====
-- Running an operation as di_gateway.py (.pi/skills/aws-observability/scripts) does: each request asks
-- for the client, which is built late and kept. How a client answers is a parameter, `methods`.
use kiro_usage_pipeline.Base.{
  ℕ, ◌+◌, true, false, none, some, [], ◌++◌, Text, lit, contains, text_eq, Bool-cases, ◌≡◌, inl,
  inr, refl, sym, ap, ◌∙◌, arith, if◌then◌else◌,
}
use kiro_usage_pipeline.Value.{Fields}
use kiro_usage_pipeline.Value.Show.{repr_text}
use kiro_usage_pipeline.Gateway
use kiro_usage_pipeline.Gateway.{Client, Method, allowed_operations, bind_method, disallowed, call}
use kiro_usage_pipeline.Gateway.Allowed.{call_allowed}
use kiro_usage_pipeline.Operation.{Reply, response, gateway_error, Op, done, raises, request}
use kiro_usage_pipeline.Operation.Run.{Execution, returned, raised, log, run}
use kiro_usage_pipeline.Clients
use kiro_usage_pipeline.Clients.{
  Environ, Sdk, Cache, Obtained, runtime_error, min_di_operation, upgrade_message, build_client,
  checked, obtained, get_application_signals_client,
}

-- What follows a reply, by what follows where it is none that raises.
abbrev after_reply : (Reply → Execution) → Gateway.Reply → Execution
after_reply f (Gateway.response d) = f (response d)
after_reply f (Gateway.aws_error e) = f (gateway_error e)
after_reply f (Gateway.raises t) = record { outcome = raised t; sent = [] }

after_reply-same :
    (f g : Reply → Execution) (r : Gateway.Reply)
    → ((x : Reply) → f x ≡ g x)
    → after_reply f r ≡ after_reply g r
after_reply-same f g (Gateway.response d) h = h (response d)
after_reply-same f g (Gateway.aws_error e) h = h (gateway_error e)
after_reply-same f g (Gateway.raises t) h = refl

run-request :
    (c : Client) (name : Text) (kwargs : Fields) (next : Reply → Op)
    → run c (request name kwargs next)
      ≡ log (name, kwargs) (after_reply (λ x. run c (next x)) (call c name kwargs))
unfolding run
run-request c name kwargs next = go (call c name kwargs)
  where
    go :
        (r : Gateway.Reply)
        → log
            (name, kwargs)
            (elim r [
              | Gateway.response d ↦ run c (next (response d))
              | Gateway.aws_error e ↦ run c (next (gateway_error e))
              | Gateway.raises t ↦ record { outcome = raised t; sent = [] }
            ])
          ≡ log (name, kwargs) (after_reply (λ x. run c (next x)) r)
    go (Gateway.response d) = refl
    go (Gateway.aws_error e) = refl
    go (Gateway.raises t) = refl

module _ {C : Type 0} (sdk : Sdk C) (methods : C → Client) (environ : Environ) where
  abbrev pub call_obtained : Obtained C → Text → Fields → Gateway.Reply
  call_obtained (Clients.client c) name kwargs = call (methods c) name kwargs
  call_obtained (runtime_error e) name kwargs = Gateway.raises e

  -- `_call`
  unfoldable pub call_late : Cache C → Text → Fields → Gateway.Reply × Cache C
  call_late cache name kwargs =
      let (o, after) = get_application_signals_client sdk environ cache in
      if contains allowed_operations name
      then (call_obtained o name kwargs, after)
      else (disallowed name, cache)

  unfoldable pub run_late : Cache C → Op → Execution
  run_late cache (done r) = record { outcome = returned r; sent = [] }
  run_late cache (raises t) = record { outcome = raised t; sent = [] }
  run_late cache (request name kwargs next) =
      let (reply, after) = call_late cache name kwargs in
      log (name, kwargs) (after_reply (λ x. run_late after (next x)) reply)

  -- A client whose methods all raise the text that asks for an upgrade.
  abbrev pub outdated : Method
  outdated _ = Gateway.raises upgrade_message

  abbrev pub outdated_client : Client
  outdated_client = record {
    create_instrumentation_configuration = outdated;
    list_instrumentation_configurations = outdated;
    get_instrumentation_configuration = outdated;
    delete_instrumentation_configuration = outdated;
    batch_delete_instrumentation_configurations = outdated;
    get_instrumentation_configuration_status = outdated;
  }

  -- The client that the environment gives.
  abbrev pub fixed_client : Client
  fixed_client =
      let c = build_client sdk (lit "application-signals") environ in
      if sdk.supports c min_di_operation then methods c else outdated_client

  call-outdated :
      (name : Text) (kwargs : Fields)
      → contains allowed_operations name ≡ true
      → call outdated_client name kwargs ≡ Gateway.raises upgrade_message
  unfolding call bind_method
  call-outdated name kwargs h = ground arith

  abbrev kept : C → ℕ → Cache C
  kept c builds = record { client = some c; builds = builds }

  abbrev fresh : ℕ → Cache C
  fresh builds = record { client = none; builds = builds }

  abbrev late_client : C
  late_client = build_client sdk (lit "application-signals") environ

  call_late-kept :
      (c : C) (builds : ℕ) (name : Text) (kwargs : Fields)
      → call_late (kept c builds) name kwargs ≡ (call (methods c) name kwargs, kept c builds)
  unfolding call_late get_application_signals_client
  call_late-kept c builds name kwargs = elim (Bool-cases (contains allowed_operations name)) [
    | inl e ↦ rw e refl
    | inr e ↦ rw (e, (call_allowed (methods c) name kwargs).1 e) refl
  ]

  run_late-kept : (c : C) (builds : ℕ) (op : Op) → run_late (kept c builds) op ≡ run (methods c) op
  unfolding run_late run
  run_late-kept c builds (done r) = refl
  run_late-kept c builds (raises t) = refl
  run_late-kept c builds (request name kwargs next) =
      ap (λ p. log (name, kwargs) (after_reply (λ x. run_late p.1 (next x)) p.0))
        (call_late-kept c builds name kwargs)
      ∙ ap (log (name, kwargs)) (
          after_reply-same (λ x. run_late (kept c builds) (next x)) (λ x. run (methods c) (next x))
            (call (methods c) name kwargs) (λ x. run_late-kept c builds (next x)))
      ∙ sym (run-request (methods c) name kwargs next)

  call_late-disallowed :
      (builds : ℕ) (name : Text) (kwargs : Fields)
      → contains allowed_operations name ≡ false
      → call_late (fresh builds) name kwargs ≡ (disallowed name, fresh builds)
  unfolding call_late
  call_late-disallowed builds name kwargs e = rw e refl

  call_late-supported :
      (builds : ℕ) (name : Text) (kwargs : Fields)
      → contains allowed_operations name ≡ true
      → sdk.supports late_client min_di_operation ≡ true
      → call_late (fresh builds) name kwargs
        ≡ (call (methods late_client) name kwargs, kept late_client (builds + 1))
  unfolding call_late get_application_signals_client
  call_late-supported builds name kwargs e f = rw (e, f) refl

  call_late-outdated :
      (builds : ℕ) (name : Text) (kwargs : Fields)
      → contains allowed_operations name ≡ true
      → sdk.supports late_client min_di_operation ≡ false
      → call_late (fresh builds) name kwargs ≡ (Gateway.raises upgrade_message, fresh (builds + 1))
  unfolding call_late get_application_signals_client
  call_late-outdated builds name kwargs e f = rw (e, f) refl

  -- A request that raises at once, whatever follows.
  run_late-raises :
      (c : Client) (cache after : Cache C) (name t : Text) (kwargs : Fields) (next : Reply → Op)
      → call_late cache name kwargs ≡ (Gateway.raises t, after)
      → call c name kwargs ≡ Gateway.raises t
      → run_late cache (request name kwargs next) ≡ run c (request name kwargs next)
  unfolding run_late
  run_late-raises c cache after name t kwargs next e f =
      ap (λ p. log (name, kwargs) (after_reply (λ x. run_late p.1 (next x)) p.0)) e
      ∙ ap (λ r. log (name, kwargs) (after_reply (λ x. run c (next x)) r)) (sym f)
      ∙ sym (run-request c name kwargs next)

  run_late-supported :
      (builds : ℕ) (op : Op)
      → sdk.supports late_client min_di_operation ≡ true
      → run_late (fresh builds) op ≡ run (methods late_client) op
  unfolding run_late run
  run_late-supported builds (done r) f = refl
  run_late-supported builds (raises t) f = refl
  run_late-supported builds (request name kwargs next) f =
      elim (Bool-cases (contains allowed_operations name)) [
        | inl e ↦
            ap (λ p. log (name, kwargs) (after_reply (λ x. run_late p.1 (next x)) p.0))
              (call_late-supported builds name kwargs e f)
            ∙ ap (log (name, kwargs)) (
                after_reply-same (λ x. run_late (kept late_client (builds + 1)) (next x))
                  (λ x. run (methods late_client) (next x)) (call (methods late_client) name kwargs)
                  (λ x. run_late-kept late_client (builds + 1) (next x)))
            ∙ sym (run-request (methods late_client) name kwargs next)
        | inr e ↦
            run_late-raises (methods late_client) (fresh builds) (fresh builds) name
              (lit "Disallowed application-signals operation: " ++ repr_text name) kwargs next
              (call_late-disallowed builds name kwargs e)
              ((call_allowed (methods late_client) name kwargs).1 e)
      ]

  run_late-outdated :
      (builds : ℕ) (op : Op)
      → sdk.supports late_client min_di_operation ≡ false
      → run_late (fresh builds) op ≡ run outdated_client op
  unfolding run_late run
  run_late-outdated builds (done r) f = refl
  run_late-outdated builds (raises t) f = refl
  run_late-outdated builds (request name kwargs next) f =
      elim (Bool-cases (contains allowed_operations name)) [
        | inl e ↦
            run_late-raises outdated_client (fresh builds) (fresh (builds + 1)) name upgrade_message
              kwargs next (call_late-outdated builds name kwargs e f) (call-outdated name kwargs e)
        | inr e ↦
            run_late-raises outdated_client (fresh builds) (fresh builds) name
              (lit "Disallowed application-signals operation: " ++ repr_text name) kwargs next
              (call_late-disallowed builds name kwargs e)
              ((call_allowed outdated_client name kwargs).1 e)
      ]

  -- Running an operation with a client that is built at the first request and kept is running it
  -- against the client that the environment gives, which raises the text that asks for an upgrade at
  -- every request where its model lacks the operation that is needed.
  pub run_late-run : (builds : ℕ) (op : Op) → run_late (fresh builds) op ≡ run fixed_client op
  run_late-run builds op = elim (Bool-cases (sdk.supports late_client min_di_operation)) [
    | inl f ↦ rw f (run_late-supported builds op f)
    | inr f ↦ rw f (run_late-outdated builds op f)
  ]
