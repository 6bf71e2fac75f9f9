-- ===== src/Crud/Rendering/Configurations.antt =====
-- di_crud_rendering.py: the texts of the list and get operations.
use kiro_usage_pipeline.Base.{
  ◌>>=◌, ℕ, ◌+◌, Option, none, some, List, [], ◌∷◌, ◌++◌, map, length, Text, lit, concat, join,
  show_nat, if◌then◌else◌,
}
use kiro_usage_pipeline.Value.{Value, str, dict, Items, Fields, end, items, truthy, is_none}
use kiro_usage_pipeline.Value.Dict.{get_or, get_or_null}
use kiro_usage_pipeline.Value.Show.{show}
use kiro_usage_pipeline.Location.Response.{location_from_response}
use kiro_usage_pipeline.Location.Block.{render_location_block}
use kiro_usage_pipeline.Capture.{CaptureLimits, is_empty, Capture, code, unknown}
use kiro_usage_pipeline.Capture.Response.{capture_from_response}
use kiro_usage_pipeline.Crud.Rendering.{format_timestamp, list_items, dicts, enabled, limit_lines}

-- A name list of a response: omitted, empty, or names.
names_setting : Text → Option Items → Text
names_setting label none = concat (lit "- " ∷ label ∷ lit ": (not set)\n" ∷ [])
names_setting label (some vs) = filled (items vs)
  where
    filled : List Value → Text
    filled [] = concat (lit "- " ∷ label ∷ lit ": (empty list)\n" ∷ [])
    filled (n ∷ ns) =
        concat (lit "- " ∷ label ∷ lit ": " ∷ join (lit ", ") (map show (n ∷ ns)) ∷ lit "\n" ∷ [])

short_limit : Text → Value → List Text
short_limit label v = if is_none v then [] else concat (label ∷ lit "=" ∷ show v ∷ []) ∷ []

short_limits : CaptureLimits → Text
unfolding short_limit
short_limits l = line (
    short_limit (lit "MaxHits") l.max_hits
    ++ (short_limit (lit "MaxStringLen") l.max_string_length
        ++ short_limit (lit "MaxCollWidth") l.max_collection_width))
  where
    line : List Text → Text
    line [] = []
    line (s ∷ ss) = concat (lit "- Limits: " ∷ join (lit ", ") (s ∷ ss) ∷ lit "\n" ∷ [])

unparsed : Text
unparsed = lit "- Capture payload could not be parsed.\n"

capture_settings : Capture → Text
unfolding names_setting short_limits unparsed
capture_settings (code c) = concat (
    lit "- Return: "
    ∷ enabled c.capture_return
    ∷ lit "\n- Stack Traces: "
    ∷ enabled c.capture_stack_trace
    ∷ lit "\n"
    ∷ names_setting (lit "Arguments") c.capture_arguments
    ∷ names_setting (lit "Locals") c.capture_locals
    ∷ (if is_empty c.limits then [] else short_limits c.limits)
    ∷ [])
capture_settings (unknown _) = unparsed

capture_configuration : Capture → Text
unfolding names_setting unparsed
capture_configuration (code c) = concat (
    lit "- Return Values: "
    ∷ enabled c.capture_return
    ∷ lit "\n- Stack Traces: "
    ∷ enabled c.capture_stack_trace
    ∷ lit "\n"
    ∷ names_setting (lit "Arguments") c.capture_arguments
    ∷ names_setting (lit "Local Variables") c.capture_locals
    ∷ (if is_empty c.limits then [] else lit "\nCAPTURE LIMITS:\n" ++ limit_lines c.limits)
    ∷ [])
capture_configuration (unknown _) = unparsed

-- `config.get(k, {})` for the location and the capture of a configuration.
abbrev part_of : Text → Fields → Value
part_of k config = get_or k (dict end) config

abbrev text_or_na : Text → Fields → Text
text_or_na k config = show (get_or k (str (lit "N/A")) config)

abbrev pub hash_of : Fields → Option Text
hash_of config =
    let v = get_or_null (lit "LocationHash") config in if truthy v then some (show v) else none

block_of : Fields → Option Text
block_of config =
    render_location_block (location_from_response (part_of (lit "Location") config))
      (hash_of config)

abbrev rule : Text
rule = lit "============================================================"

entry : ℕ → Fields → Option Text
unfolding block_of capture_settings
entry n config = do
  capture ← capture_from_response (part_of (lit "CaptureConfiguration") config)
  block ← block_of config
  some (
      concat (
        rule
        ∷ lit "\nINSTRUMENTATION #"
        ∷ show_nat n
        ∷ lit "\n"
        ∷ rule
        ∷ lit "\nLOCATION:\n"
        ∷ block
        ∷ lit "\nCAPTURE SETTINGS:\n"
        ∷ capture_settings capture
        ∷ lit "\nTIMING:\n- Created: "
        ∷ format_timestamp (get_or_null (lit "CreatedAt") config) (lit "N/A")
        ∷ lit "\n- Expires: "
        ∷ format_timestamp (get_or_null (lit "ExpiresAt") config) (lit "Never")
        ∷ lit "\n\nDescription: "
        ∷ text_or_na (lit "Description") config
        ∷ lit "\nARN: "
        ∷ text_or_na (lit "ARN") config
        ∷ lit "\n\n"
        ∷ []))

entries : ℕ → List Fields → Option Text
unfolding entry
entries n [] = some []
entries n (c ∷ cs) = do first ← entry n c; rest ← entries (n + 1) cs; some (first ++ rest)

unfoldable pub page_line : Value → Text
page_line token =
    if truthy token
    then concat (
        lit "\nPAGINATION: More results available. Use next_token=\""
        ∷ show token
        ∷ lit "\" to retrieve next page."
        ∷ [])
    else []

unfoldable pub render_list_instrumentations_output : Fields → Text → Text → Text → Option Text
unfolding entries page_line
render_list_instrumentations_output response normalized_type service environment =
    elim (dicts (get_or_null (lit "LatestConfigurations") response)) [
      | [] ↦ some (
          concat (
            lit "No active "
            ∷ normalized_type
            ∷ lit " instrumentations found\n\nService: "
            ∷ service
            ∷ lit "\nEnvironment: "
            ∷ environment
            ∷ lit "\n\nTIP: Use create_instrumentation to add instrumentations."
            ∷ []))
      | c ∷ cs ↦ (do
        body ← entries 1 (c ∷ cs)
        some (
            concat (
              lit "Active "
              ∷ normalized_type
              ∷ lit " Instrumentations ("
              ∷ show_nat (length (c ∷ cs))
              ∷ lit " found)\n\nService: "
              ∷ service
              ∷ lit "\nEnvironment: "
              ∷ environment
              ∷ lit "\nSynced At: "
              ∷ format_timestamp (get_or_null (lit "SyncedAt") response) (lit "N/A")
              ∷ lit "\n\n"
              ∷ body
              ∷ page_line (get_or_null (lit "NextToken") response)
              ∷ [])))
    ]

filter_groups : ℕ → List Value → Text
filter_groups n [] = []
filter_groups n (g ∷ gs) =
    concat
      (lit "  Group " ∷ show_nat n ∷ lit ": " ∷ show g ∷ lit "\n" ∷ filter_groups (n + 1) gs ∷ [])

filters_section : Value → Text
unfolding filter_groups
filters_section v =
    if truthy v
    then concat (
        lit "\nATTRIBUTE FILTERS: "
        ∷ show_nat (length (list_items v))
        ∷ lit " filter group(s)\n"
        ∷ filter_groups 1 (list_items v)
        ∷ [])
    else []

unfoldable pub render_get_instrumentation_output : Fields → Text → Text → Option Text
unfolding block_of capture_configuration filters_section
render_get_instrumentation_output config service environment = do
  capture ← capture_from_response (part_of (lit "CaptureConfiguration") config)
  block ← block_of config
  some (
      concat (
        lit "INSTRUMENTATION CONFIGURATION\n\nTYPE: "
        ∷ text_or_na (lit "InstrumentationType") config
        ∷ lit "\nSERVICE: "
        ∷ service
        ∷ lit "\nENVIRONMENT: "
        ∷ environment
        ∷ lit "\nSIGNAL TYPE: "
        ∷ show (get_or (lit "SignalType") (str (lit "SNAPSHOT")) config)
        ∷ lit "\n\nLOCATION:\n"
        ∷ block
        ∷ lit "\nCAPTURE CONFIGURATION:\n"
        ∷ capture_configuration capture
        ∷ filters_section (get_or_null (lit "AttributeFilters") config)
        ∷ lit "\nMETADATA:\n- Description: "
        ∷ text_or_na (lit "Description") config
        ∷ lit "\n- Created: "
        ∷ format_timestamp (get_or_null (lit "CreatedAt") config) (lit "N/A")
        ∷ lit "\n- Expires: "
        ∷ format_timestamp (get_or_null (lit "ExpiresAt") config) (lit "Never")
        ∷ lit "\n- ARN: "
        ∷ text_or_na (lit "ARN") config
        ∷ lit "\n"
        ∷ []))
