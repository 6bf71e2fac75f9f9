-- ===== src/Crud/Removal.antt =====
-- di_crud_tools.py: `delete_instrumentation` and the two batch deletions.
pub mod Shapes
pub mod Batch
pub mod Single
pub mod Targets
pub mod Totality
use kiro_usage_pipeline.Base.{
  ℕ, Bool, true, false, not, ◌&&◌, Option, none, some, List, [], ◌∷◌, ◌++◌, Text, lit, concat, ltb,
  length, strip, is_empty, pos, if◌then◌else◌,
}
use kiro_usage_pipeline.Value.{Value, str, int, list, dict, Fields, end, field, truthy}
use kiro_usage_pipeline.Value.Dict.{get_or_null}
use kiro_usage_pipeline.Location.{Location, describe}
use kiro_usage_pipeline.Errors.{Prose}
use kiro_usage_pipeline.Gateway.{render_error}
use kiro_usage_pipeline.Operation.{
  Reply, response, gateway_error, Op, request, answer, answer_rendered,
}
use kiro_usage_pipeline.Crud.{
  Target, render_location_identifier_help, lookup, with_type, with_identifier, target_kwargs,
  attempted_target,
}
use kiro_usage_pipeline.Crud.Rendering.Deletions.{format_batch_delete_response}
use kiro_usage_pipeline.Crud.Create.{text_items}

unfoldable pub delete_prose : Text → Target → Location → Prose
delete_prose normalized_type t location = record {
  action = concat (lit "delete " ∷ normalized_type ∷ lit " instrumentation" ∷ []);
  attempted_label = lit "ATTEMPTED TO DELETE:";
  attempted = attempted_target t location;
  possible_causes =
      lit "Instrumentation doesn't exist at this location"
      ∷ lit "Location parameters don't match exactly"
      ∷ lit "Wrong service or environment identifier"
      ∷ lit "Already deleted"
      ∷ [];
  troubleshooting = lit "Use list_instrumentations to see exact configuration details" ∷ [];
  trailer = [];
}

unfoldable pub deleted_message : Text → Target → Location → Text
deleted_message normalized_type t location = concat (
    lit "Successfully deleted "
    ∷ normalized_type
    ∷ lit " instrumentation\n\nTarget: "
    ∷ describe location
    ∷ lit "\nService: "
    ∷ t.service
    ∷ lit "\nEnvironment: "
    ∷ t.environment
    ∷ lit "\n\nTIP: Use list_instrumentations to verify removal."
    ∷ [])

deleted : Target → Text → Location → Reply → Op
deleted t normalized_type location (response _) =
    answer true (deleted_message normalized_type t location)
deleted t normalized_type location (gateway_error e) =
    answer false (render_error e (delete_prose normalized_type t location))

send_delete : Target → Text → Location → Op
unfolding deleted
send_delete t normalized_type location = with_identifier location (λ identifier.
    request (lit "delete_instrumentation_configuration")
      (target_kwargs normalized_type t identifier) (deleted t normalized_type location))

find_and_delete : Target → Text → Op
unfolding send_delete
find_and_delete t normalized_type =
    lookup (render_location_identifier_help (lit "delete")) t (send_delete t normalized_type)

unfoldable pub delete_instrumentation : Target → Op
unfolding find_and_delete
delete_instrumentation t = with_type t.instrumentation_type (find_and_delete t)

-- A batch deletion is called with a target, and succeeds when the response has no `Errors`.
unfoldable pub batch_kwargs : Fields → Fields
batch_kwargs target = field (lit "DeletionTarget") (dict target) end

unfoldable pub has_errors : Fields → Bool
has_errors d = truthy (get_or_null (lit "Errors") d)

-- The shape of both batch deletions: the summary of a response, the prose of a failure.
batch_replied : (Fields → Option Text) → Prose → Reply → Op
batch_replied summary p (response d) = answer_rendered (not (has_errors d)) (summary d)
batch_replied summary p (gateway_error e) = answer false (render_error e p)

unfoldable pub batch_delete : Fields → (Fields → Option Text) → Prose → Op
unfolding batch_replied
batch_delete target summary p =
    request (lit "batch_delete_instrumentation_configurations") (batch_kwargs target)
      (batch_replied summary p)

unfoldable pub scope_target : Text → Text → Text → Fields
scope_target normalized_type service environment =
    field (lit "Scope")
      (dict (
        field (lit "Service") (str service) (
          field (lit "Environment") (str environment)
            (field (lit "InstrumentationType") (str normalized_type) end))))
      end

unfoldable pub scope_prose : Text → Text → Text → Prose
scope_prose normalized_type service environment = record {
  action = lit "batch delete instrumentation configurations (scope mode)";
  attempted_label = lit "ATTEMPTED PARAMETERS:";
  attempted =
      (lit "Service", str service)
      ∷ (lit "Environment", str environment)
      ∷ (lit "InstrumentationType", str normalized_type)
      ∷ [];
  possible_causes = [];
  troubleshooting = [];
  trailer = [];
}

delete_scope : Text → Text → Text → Op
delete_scope service environment normalized_type =
    batch_delete (scope_target normalized_type service environment)
      (λ d. format_batch_delete_response (lit "Scope") d normalized_type service environment)
      (scope_prose normalized_type service environment)

unfoldable pub batch_delete_instrumentations_by_scope : Text → Text → Option Text → Op
unfolding delete_scope
batch_delete_instrumentations_by_scope service environment instrumentation_type =
    with_type instrumentation_type (delete_scope service environment)

unfoldable pub arns_target : Text → List Text → Fields
arns_target normalized_type resource_arns =
    field (lit "ResourceArns")
      (dict (
        field (lit "ResourceArns") (list (text_items resource_arns))
          (field (lit "InstrumentationType") (str normalized_type) end)))
      end

unfoldable pub arns_prose : Text → List Text → Prose
arns_prose normalized_type resource_arns = record {
  action = lit "batch delete instrumentation configurations (resource ARN mode)";
  attempted_label = lit "ATTEMPTED PARAMETERS:";
  attempted =
      (lit "InstrumentationType", str normalized_type)
      ∷ (lit "ResourceArnCount", int (pos (length resource_arns)))
      ∷ [];
  possible_causes = [];
  troubleshooting = [];
  trailer = [];
}

unfoldable pub has_blank : List Text → Bool
has_blank [] = false
has_blank (arn ∷ arns) = let rest = has_blank arns in if is_empty (strip arn) then true else rest

-- The checks on the list of ARNs, in order.
unfoldable pub arns_error : List Text → Option Text
arns_error [] = some (lit "ERROR: resource_arns must contain at least one ARN.")
arns_error (arn ∷ arns) =
    if ltb 50 (length (arn ∷ arns))
    then some (lit "ERROR: resource_arns can include at most 50 ARNs per request.")
    else if has_blank (arn ∷ arns)
    then some (lit "ERROR: resource_arns must contain non-empty ARN strings only.")
    else none

checked_arns : List Text → Text → Op
checked_arns resource_arns normalized_type = elim (arns_error resource_arns) [
  | some message ↦ answer false message
  | none ↦
      batch_delete (arns_target normalized_type resource_arns)
        (λ d. format_batch_delete_response (lit "ResourceArns") d normalized_type [] [])
        (arns_prose normalized_type resource_arns)
]

unfoldable pub batch_delete_instrumentations_by_arns : List Text → Option Text → Op
unfolding checked_arns
batch_delete_instrumentations_by_arns resource_arns instrumentation_type =
    with_type instrumentation_type (checked_arns resource_arns)
