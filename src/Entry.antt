-- ===== src/Entry.antt =====
-- What the entry scripts di_instrumentation.py and di_snapshots.py
-- (.pi/skills/aws-observability/scripts) share: the arguments that argparse hands over, the payload,
-- the environment, and how a run ends. Texts that argparse and Python's exceptions word themselves
-- are left out or are parameters.
pub mod Contract
pub mod Output
pub mod Success
pub mod Instrumentation
pub mod Snapshots
use kiro_usage_pipeline.Base.{
  ℕ, Bool, true, false, Option, none, some, List, [], ◌∷◌, ◌++◌, Text, lit, concat, ◌==◌, text_eq,
  if◌then◌else◌,
}
use kiro_usage_pipeline.Value.{Value, null, bool, int, float, str, time, list, dict, Fields}
use kiro_usage_pipeline.Region.{set_region}
use kiro_usage_pipeline.Json.Read.{loads}

-- The options of both scripts; `out` is that of di_snapshots.py.
pub record Args : Type 0 where
  pub op : Option Text
  pub json_payload : Option Text
  pub json_file : Option Text
  pub out : Option Text
  pub region : Option Text
  pub profile : Option Text
  pub print_contract : Bool

-- `Path(f).read_text("utf-8")`
pub data FileRead : Type 0 where
  contents : Text → FileRead
  os_error : Text → FileRead
  undecodable : FileRead

-- The standard input, the files that are read, and the umask.
pub record World : Type 0 where
  pub stdin : Text
  pub read_text : Text → FileRead
  pub masked : ℕ → ℕ

-- What `ap.error` reports.
pub data UsageError : Type 0 where
  no_op : UsageError
  two_sources : UsageError
  no_arguments : UsageError
  unreadable : Text → UsageError
  not_json : UsageError
  not_an_object : UsageError

-- What a step of the script comes to: a value, a usage error, or an exception that it lets pass.
pub data Step {ℓ} (A : Type ℓ) : Type ℓ where
  ok : A → Step A
  usage : UsageError → Step A
  crash : Step A

infixl 5 ◌>>=◌
abbrev pub ◌>>=◌ {ℓ κ} : {A : Type ℓ} {B : Type κ} → Step A → (A → Step B) → Step B
ok a >>= f = f a
usage e >>= f = usage e
crash >>= f = crash

abbrev pub of_file : FileRead → Step Text
of_file (contents s) = ok s
of_file (os_error e) = usage (unreadable e)
of_file undecodable = crash

-- The text of the arguments, from the one source that is given.
unfoldable pub raw_payload : World → Option Text → Option Text → Step Text
raw_payload w none none = usage no_arguments
raw_payload w (some _) (some _) = usage two_sources
raw_payload w (some s) none = if s == lit "-" then ok w.stdin else ok s
raw_payload w none (some f) = if f == lit "-" then ok w.stdin else of_file (w.read_text f)

abbrev pub as_payload : Option Value → Step Fields
as_payload none = usage not_json
as_payload (some (dict d)) = ok d
as_payload (some null) = usage not_an_object
as_payload (some (bool _)) = usage not_an_object
as_payload (some (int _)) = usage not_an_object
as_payload (some (float _)) = usage not_an_object
as_payload (some (str _)) = usage not_an_object
as_payload (some (time _)) = usage not_an_object
as_payload (some (list _)) = usage not_an_object

unfoldable pub read_payload : (Text → Text) → World → Option Text → Option Text → Step Fields
read_payload float_repr w json_text json_file = do
  raw ← raw_payload w json_text json_file
  as_payload (loads float_repr raw)

-- `if args.profile: os.environ["AWS_PROFILE"] = args.profile`
unfoldable pub set_profile : Option Text → (Text → Option Text) → Text → Option Text
set_profile none environ = environ
set_profile (some []) environ = environ
set_profile (some (c ∷ s)) environ = λ k. if k == lit "AWS_PROFILE" then some (c ∷ s) else environ k

abbrev pub prepared : Args → (Text → Option Text) → Text → Option Text
prepared args environ = set_profile args.profile (set_region args.region environ)

-- How a tool ends.
pub data ToolRun (A : Type 0) : Type 0 where
  answered : A → ToolRun A
  type_error : Text → ToolRun A
  runtime_error : Text → ToolRun A
  other_error : ToolRun A

-- The exit code and what was printed.
pub record Ended : Type 0 where
  pub code : ℕ
  pub stdout : Text
  pub stderr : Text

abbrev pub line : Text → Text
line s = s ++ (10 ∷ [])

abbrev pub type_error_text : Text → Text → Text
type_error_text op exc =
    line (concat (lit "ERROR: invalid arguments for op '" ∷ op ∷ lit "': " ∷ exc ∷ []))
