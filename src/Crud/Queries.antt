-- ===== src/Crud/Queries.antt =====
-- di_crud_tools.py: `list_instrumentations` and `get_instrumentation`.
pub mod Guards
use kiro_usage_pipeline.Base.{
  Bool, true, false, not, Option, none, some, [], ◌∷◌, ◌++◌, Text, lit, ℤ, pos, negsuc, ◌==◌,
  nat_eq, if◌then◌else◌,
}
use kiro_usage_pipeline.Value.{Value, str, int, dict, Fields, end, field, truthy, as_dict}
use kiro_usage_pipeline.Value.Dict.{get_or, insert_if}
use kiro_usage_pipeline.Validation.{or_blank, is_missing}
use kiro_usage_pipeline.Location.{Location, describe}
use kiro_usage_pipeline.Errors.{Prose}
use kiro_usage_pipeline.Gateway.{render_error}
use kiro_usage_pipeline.Operation.{
  Reply, response, gateway_error, Op, raises, request, answer, answer_rendered,
}
use kiro_usage_pipeline.Crud.{
  Target, render_location_identifier_help, lookup, with_type, with_identifier, target_kwargs,
  attempted_target,
}
use kiro_usage_pipeline.Crud.Rendering.Configurations.{
  render_list_instrumentations_output, render_get_instrumentation_output,
}

pub record Page : Type 0 where
  pub service : Text
  pub environment : Text
  pub instrumentation_type : Option Text
  pub synced_at : Option Text
  pub max_results : ℤ
  pub next_token : Option Text

unfoldable pub is_default : ℤ → Bool
is_default (pos n) = n == 100
is_default (negsuc _) = false

-- The keyword arguments: an optional one is set when it is given and not the default.
unfoldable pub list_kwargs : Text → Page → Fields
unfolding is_default
list_kwargs normalized_type p =
    insert_if (not (is_missing p.next_token)) (lit "NextToken") (str (or_blank p.next_token)) (
      insert_if (not (is_default p.max_results)) (lit "MaxResults") (int p.max_results) (
        insert_if (not (is_missing p.synced_at)) (lit "SyncedAt") (str (or_blank p.synced_at)) (
          field (lit "Service") (str p.service) (
            field (lit "Environment") (str p.environment)
              (field (lit "InstrumentationType") (str normalized_type) end)))))

unfoldable pub list_prose : Text → Page → Prose
list_prose normalized_type p = record {
  action = lit "list instrumentations";
  attempted_label = lit "ATTEMPTED PARAMETERS:";
  attempted =
      (lit "Service", str p.service)
      ∷ (lit "Environment", str p.environment)
      ∷ (lit "InstrumentationType", str normalized_type)
      ∷ [];
  possible_causes = [];
  troubleshooting = [];
  trailer = [];
}

listed : Page → Text → Reply → Op
listed p normalized_type (response d) =
    answer_rendered true
      (render_list_instrumentations_output d normalized_type p.service p.environment)
listed p normalized_type (gateway_error e) =
    answer false (render_error e (list_prose normalized_type p))

send_list : Page → Text → Op
unfolding listed
send_list p normalized_type =
    request (lit "list_instrumentation_configurations") (list_kwargs normalized_type p)
      (listed p normalized_type)

unfoldable pub list_instrumentations : Page → Op
unfolding send_list
list_instrumentations p = with_type p.instrumentation_type (send_list p)

unfoldable pub get_prose : Target → Location → Prose
get_prose t location = record {
  action = lit "get instrumentation";
  attempted_label = lit "ATTEMPTED TO RETRIEVE:";
  attempted = attempted_target t location;
  possible_causes =
      lit "Instrumentation doesn't exist at this location"
      ∷ lit "Location parameters don't match exactly"
      ∷ lit "Wrong service or environment identifier"
      ∷ [];
  troubleshooting = lit "Use list_instrumentations to see all active instrumentations" ∷ [];
  trailer = [];
}

-- A configuration that is not a dict has no `get`.
configured : Target → Value → Op
configured t config = elim (as_dict config) [
  | none ↦ raises (lit "AttributeError")
  | some d ↦ answer_rendered true (render_get_instrumentation_output d t.service t.environment)
]

got : Target → Location → Reply → Op
unfolding configured
got t location (response d) =
    let config = get_or (lit "Configuration") (dict end) d in
    if truthy config
    then configured t config
    else answer false (lit "No instrumentation found for " ++ describe location)
got t location (gateway_error e) = answer false (render_error e (get_prose t location))

send_get : Target → Text → Location → Op
unfolding got
send_get t normalized_type location = with_identifier location (λ identifier.
    request (lit "get_instrumentation_configuration") (target_kwargs normalized_type t identifier)
      (got t location))

find_and_get : Target → Text → Op
unfolding send_get
find_and_get t normalized_type =
    lookup (render_location_identifier_help (lit "get")) t (send_get t normalized_type)

unfoldable pub get_instrumentation : Target → Op
unfolding find_and_get
get_instrumentation t = with_type t.instrumentation_type (find_and_get t)
