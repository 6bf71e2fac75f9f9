-- ===== src/Crud/Queries/Guards.antt =====
-- What list and get request, and when.
use mathlib.Core.Path.{subst}
use kiro_usage_pipeline.Base.{
  true, Option, none, some, [], ◌∷◌, ◌≡◌, ◌≢◌, ◌⊎◌, ◌↔◌, sym, refl, arith, Text, lit, text_eq, ℤ,
  pos, nat_eq, negsuc, if◌then◌else◌,
}
use kiro_usage_pipeline.Value.{Value, null, int, str, Fields}
use kiro_usage_pipeline.Value.Dict.{get_or_null, get-insert_if, get-field, get-end}
use kiro_usage_pipeline.Validation.{fold_word}
use kiro_usage_pipeline.Location.Lookup.{IsFindable}
use kiro_usage_pipeline.Crud.{Target}
use kiro_usage_pipeline.Crud.Guards.{
  Sends, Sends-FailsOnRefusal, IsTypeWord, Requests, with_type_iff, with_type_holds, lookup_iff,
  target_location, with_target_identifier,
}
use kiro_usage_pipeline.Crud.Queries.{
  Page, is_default, list_kwargs, send_list, list_instrumentations, send_get, find_and_get,
  get_instrumentation,
}

-- A text argument in a request: left out where it is missing or blank.
abbrev pub optional_text : Option Text → Value
optional_text none = null
optional_text (some []) = null
optional_text (some (c ∷ s)) = str (c ∷ s)

-- The page in a request: its size is left out where it is the default, 100.
abbrev pub IsPage : Page → Text → Fields → Type 0
IsPage p name d =
    (name ≡ lit "list_instrumentation_configurations")
    × (get_or_null (lit "Service") d ≡ str p.service)
    × (get_or_null (lit "Environment") d ≡ str p.environment)
    × (get_or_null (lit "InstrumentationType") d ≡ str (fold_word p.instrumentation_type))
    × (get_or_null (lit "SyncedAt") d ≡ optional_text p.synced_at)
    × (get_or_null (lit "NextToken") d ≡ optional_text p.next_token)
    × (((p.max_results ≢ pos 100) × (get_or_null (lit "MaxResults") d ≡ int p.max_results))
        ⊎ ((p.max_results ≡ pos 100) × (get_or_null (lit "MaxResults") d ≡ null)))

ruleset get_laws = (get-insert_if, get-field, get-end)

sent_size :
    (p : Page) (word : Text)
    → get_or_null (lit "MaxResults") (list_kwargs word p)
      ≡ (if is_default p.max_results then null else int p.max_results)
unfolding list_kwargs lit text_eq
sent_size p word = simp get_laws (ground arith)

is_default_iff : (n : ℤ) → (is_default n ≡ true) ↔ (n ≡ pos 100)
unfolding is_default
is_default_iff (pos n) = ground arith
is_default_iff (negsuc n) = (λ h. absurd cc, λ h. absurd cc)

send_list-IsPage : (p : Page) → Requests (IsPage p) (send_list p (fold_word p.instrumentation_type))
unfolding send_list list_kwargs lit text_eq
send_list-IsPage p = (
  refl,
  simp get_laws,
  simp get_laws,
  simp get_laws,
  simp get_laws (ground arith),
  simp get_laws (ground arith),
  ground (arith, sent_size p (fold_word p.instrumentation_type), is_default_iff p.max_results),
)

send_get-Sends : (t : Target) (word : Text) → Sends (send_get t word (target_location t))
unfolding send_get
send_get-Sends t word = subst Sends (sym (with_target_identifier t _)) tt

find_and_get-Sends_iff :
    (t : Target) (word : Text) → Sends (find_and_get t word) ↔ IsFindable t.location_hash t.location
unfolding find_and_get
find_and_get-Sends_iff t word =
    let found = lookup_iff Sends Sends-FailsOnRefusal _ t (send_get t word) in
    (λ h. (found.0 h).0, λ f. found.1 (f, send_get-Sends t word))

-- The request that a list call sends, if it sends one, is the list operation on the service, the
-- environment and the type given, with the cursor and the token that are not blank, and with the
-- size of the page unless that is 100.
pub list_instrumentations-IsPage : (p : Page) → Requests (IsPage p) (list_instrumentations p)
unfolding list_instrumentations
list_instrumentations-IsPage p =
    with_type_holds (Requests (IsPage p)) (λ _. tt) p.instrumentation_type (send_list p)
      (send_list-IsPage p)

-- The configuration is asked for exactly when the type is BREAKPOINT or PROBE and a hash or a
-- language and a file path are given.
pub get_instrumentation-Sends_iff :
    (t : Target)
    → Sends (get_instrumentation t)
      ↔ (IsTypeWord (fold_word t.instrumentation_type) × IsFindable t.location_hash t.location)
unfolding get_instrumentation
get_instrumentation-Sends_iff t =
    let word = fold_word t.instrumentation_type in
    let typing = with_type_iff Sends Sends-FailsOnRefusal t.instrumentation_type (find_and_get t) in
    let found = find_and_get-Sends_iff t word in
    (λ h. let (w, s) = typing.0 h in (w, found.0 s), λ (w, f). typing.1 (w, found.1 f))
