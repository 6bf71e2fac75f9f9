-- ===== src/Errors.antt =====
-- di_error_translation.py (.pi/skills/aws-observability/scripts): failures as text.
pub mod Layout
use kiro_usage_pipeline.Base.{
  ℕ, zero, suc, ◌+◌, Bool, true, false, ◌||◌, Option, none, some, List, [], ◌∷◌, ◌++◌, Text, lit,
  concat, join, rstrip, show_nat, if◌then◌else◌,
}
use kiro_usage_pipeline.Value.{Value, Fields, end, as_dict, truthy, is_none, is_empty_str}
use kiro_usage_pipeline.Value.Dict.{get_or_null}
use kiro_usage_pipeline.Value.Show.{show}

-- The exceptions of botocore that the scripts tell apart. A `ClientError` keeps the response.
pub data Kind : Type 0 where
  client_error : Value → Kind
  endpoint_connection read_timeout connect_timeout : Kind
  no_credentials partial_credentials : Kind
  other : Kind

-- An exception and its `str`.
pub record AwsException : Type 0 where
  pub kind : Kind
  pub text : Text

abbrev pub Context : Type 0
Context = List (Text × Value)

block_lines : Context → List Text
block_lines [] = []
block_lines ((key, value) ∷ more) =
    let rest = block_lines more in
    if is_none value || is_empty_str value
    then rest
    else concat (lit "- " ∷ key ∷ lit ": " ∷ show value ∷ []) ∷ rest

with_label : Text → List Text → Text
with_label label [] = []
with_label label (l ∷ ls) =
    concat (lit "\n" ∷ label ∷ lit "\n" ∷ join (lit "\n") (l ∷ ls) ∷ lit "\n" ∷ [])

unfoldable pub format_block : Text → Context → Text
unfolding block_lines with_label
format_block label context = with_label label (block_lines context)

abbrev pub format_attempted_block : Context → Text
format_attempted_block context = format_block (lit "ATTEMPTED PARAMETERS:") context

numbered_lines : ℕ → List Text → List Text
numbered_lines n [] = []
numbered_lines n (t ∷ ts) = concat (show_nat n ∷ lit ". " ∷ t ∷ []) ∷ numbered_lines (n + 1) ts

unfoldable pub format_numbered_section : Text → List Text → Text
unfolding numbered_lines with_label
format_numbered_section label items = with_label label (numbered_lines 1 items)

-- `v or default`, as text.
abbrev or_show : Value → Text → Text
or_show v default = if truthy v then show v else default

abbrev or_empty : Option Fields → Fields
or_empty none = end
or_empty (some d) = d

-- The `Error` part of the response: botocore builds a `ClientError` only from one that is a dict.
abbrev error_part : Value → Fields
error_part response = or_empty (as_dict (get_or_null (lit "Error") (or_empty (as_dict response))))

unfoldable pub client_error_body : Value → Text → Text × Text
client_error_body response text =
    let error = error_part response in
    (
      or_show (get_or_null (lit "Code") error) (lit "ClientError"),
      or_show (get_or_null (lit "Message") error) text,
    )

-- What the operations pass for a failure.
pub record Prose : Type 0 where
  pub action : Text
  pub attempted_label : Text
  pub attempted : Context
  pub possible_causes : List Text
  pub troubleshooting : List Text
  pub trailer : Text

abbrev with_trailer : Text → Text → Text
with_trailer body [] = body
with_trailer body (c ∷ s) = concat (body ∷ lit "\n\n" ∷ (c ∷ s) ∷ [])

unfoldable pub render_client_error : Value → Text → Prose → Text
unfolding client_error_body format_block format_numbered_section
render_client_error response text p =
    let (code, message) = client_error_body response text in
    with_trailer
      (rstrip (
        concat (
          (lit "Failed to " ++ (p.action ++ lit "\n"))
          ∷ concat (lit "\nError: " ∷ code ∷ lit " - " ∷ message ∷ lit "\n" ∷ [])
          ∷ format_block p.attempted_label p.attempted
          ∷ format_numbered_section (lit "POSSIBLE CAUSES:") p.possible_causes
          ∷ format_numbered_section (lit "TROUBLESHOOTING:") p.troubleshooting
          ∷ [])))
      p.trailer

abbrev client_advice : Text
client_advice =
    lit
      "\nPOSSIBLE CAUSES:\n1. Invalid input parameters (validation error)\n2. Resource not found, already exists, or scoped to a different account\n3. Insufficient IAM permissions\n4. Service-side throttling or transient error\n\nTROUBLESHOOTING:\n1. Re-read the error message above for the specific failure cause\n2. Verify service, environment, and instrumentation_type identifiers\n3. Verify credentials map to an account/region with access\n"

abbrev endpoint_advice : Text
endpoint_advice =
    lit
      "\nTROUBLESHOOTING:\n1. Check network connectivity to the AWS endpoint\n2. Verify AWS region resolution (AWS_REGION env var or profile)\n"

abbrev timeout_advice : Text
timeout_advice =
    lit
      "\nTROUBLESHOOTING:\n1. Retry the request — the AWS endpoint did not respond within the socket timeout\n2. Check network connectivity\n"

abbrev credentials_advice : Text
credentials_advice =
    lit
      "\nTROUBLESHOOTING:\n1. Verify AWS credentials: aws configure list\n2. Set AWS_PROFILE or supply credentials via env vars\n"

abbrev failure : Text → Text → Text → Text → Text → Text
failure action name message attempted advice = concat (
    lit "Failed to "
    ∷ action
    ∷ lit "\n\nError: "
    ∷ name
    ∷ lit " - "
    ∷ message
    ∷ lit "\n"
    ∷ attempted
    ∷ advice
    ∷ [])

unfoldable pub translate_aws_error : AwsException → Text → Context → Text
unfolding format_block client_error_body
translate_aws_error exc action context =
    let attempted = format_attempted_block context in
    elim (exc.kind) [
      | client_error response ↦
          let (code, message) = client_error_body response exc.text in
          failure action code message attempted client_advice
      | endpoint_connection ↦
          failure action (lit "EndpointConnectionError") exc.text attempted endpoint_advice
      | read_timeout ↦ failure action (lit "TimeoutError") exc.text attempted timeout_advice
      | connect_timeout ↦ failure action (lit "TimeoutError") exc.text attempted timeout_advice
      | no_credentials ↦
          failure action (lit "NoCredentialsError") exc.text attempted credentials_advice
      | partial_credentials ↦
          failure action (lit "PartialCredentialsError") exc.text attempted credentials_advice
      | other ↦ concat (
          lit "Failed to "
          ∷ action
          ∷ lit "\n\nUnexpected error: "
          ∷ exc.text
          ∷ lit "\n"
          ∷ attempted
          ∷ [])
    ]
