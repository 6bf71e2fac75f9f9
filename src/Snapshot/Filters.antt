-- ===== src/Snapshot/Filters.antt =====
-- di_snapshot_tools.py (.pi/skills/aws-observability/scripts): `_build_base_filters`.
pub mod Literals
use kiro_usage_pipeline.Base.{List, [], ◌∷◌, ◌++◌, Text, lit}
use kiro_usage_pipeline.Snapshot.Escape.{escape_logs_insights_string}

abbrev pub hash_clause : Text
hash_clause = lit "attributes.aws.di.location_hash = "

abbrev pub service_clause : Text
service_clause = lit " and (resource.attributes.service.name = "

abbrev pub environment_clause : Text
environment_clause =
    lit
      "      or not ispresent(resource.attributes.service.name)) and (resource.attributes.deployment.environment = "

abbrev pub name_clause : Text
name_clause = lit "      or resource.attributes.deployment.environment.name = "

abbrev pub last_clause : Text
last_clause = lit "      or not ispresent(resource.attributes.deployment.environment))"

-- `"{escaped}"` in front of what follows.
abbrev pub literal : Text → Text → Text
literal value rest = b'"' ∷ (escape_logs_insights_string value ++ (b'"' ∷ rest))

unfoldable pub build_base_filters : Text → Text → Text → Text
build_base_filters location_hash service_name environment =
    hash_clause
    ++ literal location_hash (
        service_clause
        ++ literal service_name (
            environment_clause
            ++ literal environment (name_clause ++ literal environment last_clause)))
