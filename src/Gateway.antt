-- ===== src/Gateway.antt =====
-- di_gateway.py and di_result.py (.pi/skills/aws-observability/scripts): the one place that calls
-- the application-signals client. The client is a parameter: six methods from keyword arguments
-- to a response, a botocore exception, or any other exception.
pub mod Allowed
pub mod Failures
use kiro_usage_pipeline.Base.{
  Bool, true, false, ◌||◌, ◌&&◌, not, Option, none, some, List, [], ◌∷◌, ◌++◌, Text, lit, ◌==◌,
  contains, text_eq, if◌then◌else◌,
}
use kiro_usage_pipeline.Value.{Value, Fields}
use kiro_usage_pipeline.Value.Show.{repr_text}
use kiro_usage_pipeline.Errors.{
  Kind, client_error, AwsException, Prose, render_client_error, translate_aws_error,
}

pub data Reply : Type 0 where
  response : Fields → Reply
  aws_error : AwsException → Reply
  raises : Text → Reply

abbrev pub Method : Type 0
Method = Fields → Reply

pub record Client : Type 0 where
  pub create_instrumentation_configuration : Method
  pub list_instrumentation_configurations : Method
  pub get_instrumentation_configuration : Method
  pub delete_instrumentation_configuration : Method
  pub batch_delete_instrumentation_configurations : Method
  pub get_instrumentation_configuration_status : Method

abbrev pub allowed_operations : List Text
allowed_operations =
    lit "create_instrumentation_configuration"
    ∷ lit "list_instrumentation_configurations"
    ∷ lit "get_instrumentation_configuration"
    ∷ lit "delete_instrumentation_configuration"
    ∷ lit "batch_delete_instrumentation_configurations"
    ∷ lit "get_instrumentation_configuration_status"
    ∷ []

-- `none` is the `ValueError` at the end.
unfoldable pub bind_method : Client → Text → Option Method
bind_method c name =
    if name == lit "create_instrumentation_configuration"
    then some c.create_instrumentation_configuration
    else if name == lit "list_instrumentation_configurations"
    then some c.list_instrumentation_configurations
    else if name == lit "get_instrumentation_configuration"
    then some c.get_instrumentation_configuration
    else if name == lit "delete_instrumentation_configuration"
    then some c.delete_instrumentation_configuration
    else if name == lit "batch_delete_instrumentation_configurations"
    then some c.batch_delete_instrumentation_configurations
    else if name == lit "get_instrumentation_configuration_status"
    then some c.get_instrumentation_configuration_status
    else none

abbrev pub disallowed : Text → Reply
disallowed name = raises (lit "Disallowed application-signals operation: " ++ repr_text name)

-- Of the replies `aws_error` is a `GatewayError` for the caller; what else is raised propagates.
unfoldable pub call : Client → Text → Fields → Reply
call c name kwargs =
    if contains allowed_operations name
    then elim (bind_method c name) [ none ↦ disallowed name | some method ↦ method kwargs ]
    else disallowed name

abbrev is_empty {ℓ} : {A : Type ℓ} → List A → Bool
is_empty [] = true
is_empty (_ ∷ _) = false

abbrev is_tailored : Prose → Bool
is_tailored p = not (is_empty p.possible_causes && is_empty p.troubleshooting && is_empty p.trailer)

abbrev tailored : Kind → Option Value
tailored (client_error r) = some r
tailored _ = none

unfoldable pub render_error : AwsException → Prose → Text
render_error exc p = elim (tailored exc.kind) [
  | none ↦ translate_aws_error exc p.action p.attempted
  | some r ↦
      if is_tailored p
      then render_client_error r exc.text p
      else translate_aws_error exc p.action p.attempted
]
