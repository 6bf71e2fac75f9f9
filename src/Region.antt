-- ===== src/Region.antt =====
-- di_region.py and di_constants.py (.pi/skills/aws-observability/scripts): the region policy and
-- the log group's name. The environment is a function, `none` for a variable that is not set.
use kiro_usage_pipeline.Base.{
  Option, none, some, [], ◌∷◌, ◌++◌, ◌≡◌, ◌≢◌, refl, arith, Text, lit, text_eq, ◌==◌, if◌then◌else◌,
}

abbrev pub default_region : Text
default_region = lit "us-east-1"

-- `x or y`, where `x` may be `None` or blank.
abbrev pub or_text : Option Text → Text → Text
or_text none d = d
or_text (some []) d = d
or_text (some (c ∷ s)) d = c ∷ s

unfoldable pub resolve_region : (Text → Option Text) → Option Text → Text
resolve_region environ explicit = or_text explicit (
    or_text (environ (lit "AWS_REGION"))
      (or_text (environ (lit "AWS_DEFAULT_REGION")) default_region))

-- `SNAPSHOT_LOG_GROUP_TEMPLATE.format(service_name=…)`
unfoldable pub resolve_snapshot_log_group : Text → Text
resolve_snapshot_log_group service_name = lit "/aws/service-events/" ++ service_name

-- The region that the entry scripts set for a `--region` flag: a flag that is not blank is put
-- into AWS_REGION before the client is built.
unfoldable pub set_region : Option Text → (Text → Option Text) → Text → Option Text
set_region none environ = environ
set_region (some []) environ = environ
set_region (some (c ∷ s)) environ = λ k. if k == lit "AWS_REGION" then some (c ∷ s) else environ k

-- The flag, handed over in the environment, wins as an explicit argument does: a client that
-- resolves its region with no argument after the flag is set gets the same region. It is never
-- blank.
pub resolve_region-set_region :
    (environ : Text → Option Text) (flag : Option Text)
    → (resolve_region (set_region flag environ) none ≡ resolve_region environ flag)
      × (resolve_region environ flag ≢ [])
unfolding resolve_region set_region lit text_eq
resolve_region-set_region environ none = (refl, ground arith)
resolve_region-set_region environ (some []) = (refl, ground arith)
resolve_region-set_region environ (some (c ∷ s)) = (refl, ground arith)
