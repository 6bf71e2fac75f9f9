-- ===== src/Clients.antt =====
-- di_session.py, di_logs_client.py and di_app_signals_client.py (.pi/skills/aws-observability/scripts):
-- the clients, which are built late and kept. boto3 is a parameter: `make` builds a client for a
-- service, a profile and a region, and `supports` tests its model for the oldest operation that is
-- needed. The state is the module's variable, with a count of the clients that were built.
pub mod Kept
pub mod Flags
use kiro_usage_pipeline.Base.{
  ℕ, ◌+◌, Bool, true, false, Option, none, some, List, [], ◌∷◌, Text, lit, concat, contains, ◌==◌,
  text_eq, if◌then◌else◌,
}
use kiro_usage_pipeline.Value.Show.{repr_text}
use kiro_usage_pipeline.Region.{resolve_region}

abbrev pub Environ : Type 0
Environ = Text → Option Text

pub record Sdk (C : Type 0) : Type 0 where
  pub make : Text → Option Text → Text → C
  pub supports : C → Text → Bool

pub record Cache (C : Type 0) : Type 0 where
  pub client : Option C
  pub builds : ℕ

-- What looking a name up on the proxy comes to: the method of a client, or an `AttributeError`.
pub data Attribute (C : Type 0) : Type 0 where
  start_query : C → Attribute C
  get_query_results : C → Attribute C
  attribute_error : Text → Attribute C

abbrev pub allowed_logs_operations : List Text
allowed_logs_operations = lit "start_query" ∷ lit "get_query_results" ∷ []

abbrev pub disallowed : Text → Text
disallowed name = concat (
    lit "Disallowed CloudWatch Logs operation: "
    ∷ repr_text name
    ∷ lit " (allowed: ['get_query_results', 'start_query'])"
    ∷ [])

abbrev pub min_di_operation : Text
min_di_operation = lit "CreateInstrumentationConfiguration"

abbrev pub upgrade_message : Text
upgrade_message =
    lit
      "The installed AWS SDK does not expose the Dynamic Instrumentation operations (missing 'CreateInstrumentationConfiguration' on the application-signals model). Upgrade to boto3/botocore >= 1.43.35: pip install --upgrade 'boto3>=1.43.35'."

-- A client, or a `RuntimeError`.
pub data Obtained (C : Type 0) : Type 0 where
  client : C → Obtained C
  runtime_error : Text → Obtained C

module _ {C : Type 0} (sdk : Sdk C) where
  unfoldable pub build_client : Text → Environ → C
  build_client service environ =
      sdk.make service (environ (lit "AWS_PROFILE")) (resolve_region environ none)

  -- The client that is kept, or a new one.
  abbrev pub kept_or_built : Environ → Option C → ℕ → C × Cache C
  kept_or_built environ (some c) builds = (c, record { client = some c; builds = builds })
  kept_or_built environ none builds =
      let c = build_client (lit "logs") environ in
      (c, record { client = some c; builds = builds + 1 })

  abbrev pub method_of : Text → C → Attribute C
  method_of name c =
      if name == lit "start_query"
      then start_query c
      else if name == lit "get_query_results"
      then get_query_results c
      else attribute_error (disallowed name)

  -- `logs_client.<name>`
  unfoldable pub get_attribute : Text → Environ → Cache C → Attribute C × Cache C
  get_attribute name environ cache =
      let (c, cache') = kept_or_built environ cache.client cache.builds in
      if contains allowed_logs_operations name
      then (method_of name c, cache')
      else (attribute_error (disallowed name), cache)

  abbrev pub checked : C → ℕ → Obtained C × Cache C
  checked c builds =
      if sdk.supports c min_di_operation
      then (client c, record { client = some c; builds = builds })
      else (runtime_error upgrade_message, record { client = none; builds = builds })

  abbrev pub obtained : Environ → Option C → ℕ → Obtained C × Cache C
  obtained environ (some c) builds = (client c, record { client = some c; builds = builds })
  obtained environ none builds =
      checked (build_client (lit "application-signals") environ) (builds + 1)

  unfoldable pub get_application_signals_client : Environ → Cache C → Obtained C × Cache C
  get_application_signals_client environ cache = obtained environ cache.client cache.builds
