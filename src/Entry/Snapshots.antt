-- ===== src/Entry/Snapshots.antt =====
-- di_snapshots.py (.pi/skills/aws-observability/scripts): the entry script of the two operations on
-- snapshots. The tools are a parameter, as in Entry/Instrumentation; they answer with a text.
pub mod Codes
pub mod Arguments
pub mod Wired
use kiro_usage_pipeline.Base.{
  ℕ, zero, suc, pos, Bool, true, false, Option, none, some, List, [], ◌∷◌, ◌++◌, Text, lit, concat,
  ◌==◌, text_eq, if◌then◌else◌,
}
use kiro_usage_pipeline.Value.{
  Value, null, bool, int, str, list, dict, nil, cons, Fields, end, field,
}
use kiro_usage_pipeline.Value.Dict.{of_entries, insert}
use kiro_usage_pipeline.Json.Write.{dumps}
use kiro_usage_pipeline.Snapshot.Tools.{is_failure}
use kiro_usage_pipeline.Entry.{
  Args, World, UsageError, no_op, Step, ok, usage, crash, ◌>>=◌, read_payload, prepared, ToolRun,
  answered, type_error, runtime_error, other_error, Ended, line, type_error_text,
}
use kiro_usage_pipeline.Entry.Contract.{Param, needed, optional, binds, ops_contract}
use kiro_usage_pipeline.Entry.Output.{Files, write_out}

pub data Tool : Type 0 where
  sample : Tool
  search : Tool

abbrev pub signature : Tool → List Param
signature sample =
    needed (lit "service")
    ∷ needed (lit "environment")
    ∷ needed (lit "location_hash")
    ∷ needed (lit "status_timestamp")
    ∷ optional (lit "max_timeout") (int (pos 30))
    ∷ optional (lit "include_raw") (bool false)
    ∷ []
signature search =
    needed (lit "service")
    ∷ needed (lit "environment")
    ∷ needed (lit "location_hash")
    ∷ needed (lit "status_timestamp")
    ∷ optional (lit "limit") (int (pos 10))
    ∷ optional (lit "max_timeout") (int (pos 30))
    ∷ optional (lit "custom_filters") null
    ∷ optional (lit "start_time") null
    ∷ optional (lit "end_time") null
    ∷ []

-- `_OPS`, in its order, with the dispatch table.
abbrev pub ops : List (Text × Tool)
ops = (lit "sample", sample) ∷ (lit "search", search) ∷ []

abbrev pub find_tool : List (Text × Tool) → Text → Option Tool
find_tool [] op = none
find_tool ((name, tool) ∷ rest) op = if op == name then some tool else find_tool rest op

-- `none` is a `KeyError`, which argparse rules out.
unfoldable pub resolve_tool : Text → Option Tool
resolve_tool op = find_tool ops op

-- `_ARG_HINTS`
abbrev pub arg_hints : Fields
arg_hints = of_entries (
    (
      lit "service",
      dict (
          of_entries (
            (
              lit "note",
              str (lit "service identifier; di_instrumentation.py uses the same key `service`"),
            )
            ∷ [])),
    )
    ∷ (
      lit "custom_filters",
      dict (
          of_entries (
            (lit "type", str (lit "array of strings"))
            ∷ (
              lit "note",
              str (
                  lit
                    "JSON array of raw Logs Insights filter fragments, appended with `and`, e.g. [\"@message like /ORD-123/\"]. A single bare string is also accepted and treated as a one-element list."),
            )
            ∷ [])),
    )
    ∷ (
      lit "start_time",
      dict (
          of_entries (
            (
              lit "note",
              str (
                  lit
                    "optional ISO 8601 lower bound; pass with end_time to override the status_timestamp-anchored window and sweep a wider span (both or neither)"),
            )
            ∷ [])),
    )
    ∷ (
      lit "end_time",
      dict (
          of_entries (
            (
              lit "note",
              str (lit "optional ISO 8601 upper bound; see start_time (both or neither)"),
            )
            ∷ [])),
    )
    ∷ [])

unfoldable pub contract : Fields
contract = of_entries (
    (lit "surface", str (lit "public CloudWatch Logs Insights (/aws/service-events/{service})"))
    ∷ (
      lit "encoding",
      str (lit "python3 scripts/di_snapshots.py <op> --json '{<args>}' [--out FILE]"),
    )
    ∷ (
      lit "region",
      str (
          lit
            "pass --region, or set AWS_REGION/AWS_DEFAULT_REGION (default us-east-1); use the same region the breakpoint was created in"),
    )
    ∷ (lit "ops", dict (ops_contract arg_hints signature ops end))
    ∷ [])

pub record Tools : Type 0 where
  pub call : Tool → Fields → (Text → Option Text) → ToolRun Text
  pub binding_error : Tool → Fields → Text

abbrev pub of_contract : Files → Option Text → Step (Ended × Files)
of_contract fs none = crash
of_contract fs (some s) = ok (record { code = 0; stdout = line s; stderr = [] }, fs)

abbrev pub announced : ℕ → Text → Option Files → Step (Ended × Files)
announced code path none = crash
announced code path (some fs) = ok (
  record {
    code = code;
    stdout = line (concat (lit "wrote result to " ∷ path ∷ lit " (0600)" ∷ []));
    stderr = [];
  },
  fs,
)

abbrev pub code_of : Bool → ℕ
code_of failed = if failed then 1 else 0

-- `if args.out: … else: print(result)`
abbrev pub deliver : (ℕ → ℕ) → ℕ → Option Text → Text → Files → Step (Ended × Files)
deliver masked code none result fs =
    ok (record { code = code; stdout = line result; stderr = [] }, fs)
deliver masked code (some []) result fs =
    ok (record { code = code; stdout = line result; stderr = [] }, fs)
deliver masked code (some (c ∷ path)) result fs =
    announced code (c ∷ path) (write_out masked (c ∷ path) result fs)

module _ (float_repr : Text → Text) (tools : Tools) (w : World) where
  abbrev pub run_tool : Tool → Fields → (Text → Option Text) → ToolRun Text
  run_tool tool payload environ =
      if binds (signature tool) payload
      then tools.call tool payload environ
      else type_error (tools.binding_error tool payload)

  abbrev pub finish : Text → Option Text → Files → ToolRun Text → Step (Ended × Files)
  finish op out fs (answered result) =
      deliver w.masked (code_of (is_failure float_repr result)) out result fs
  finish op out fs (type_error exc) =
      ok (record { code = 2; stdout = []; stderr = type_error_text op exc }, fs)
  finish op out fs (runtime_error _) = crash
  finish op out fs other_error = crash

  abbrev pub run_op :
      Text
      → Option Text
      → Files
      → Option Tool
      → Fields
      → (Text → Option Text)
      → Step (Ended × Files)
  run_op op out fs none payload environ = crash
  run_op op out fs (some tool) payload environ = finish op out fs (run_tool tool payload environ)

  abbrev pub with_op : Args → (Text → Option Text) → Files → Option Text → Step (Ended × Files)
  with_op args environ fs none = usage no_op
  with_op args environ fs (some []) = usage no_op
  with_op args environ fs (some (c ∷ op)) = do
    payload ← read_payload float_repr w args.json_payload args.json_file
    run_op (c ∷ op) args.out fs (resolve_tool (c ∷ op)) payload (prepared args environ)

  unfoldable pub main : Args → (Text → Option Text) → Files → Step (Ended × Files)
  main args environ fs =
      if args.print_contract
      then of_contract fs (dumps (dict contract))
      else with_op args environ fs args.op
