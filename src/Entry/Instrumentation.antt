-- ===== src/Entry/Instrumentation.antt =====
-- di_instrumentation.py (.pi/skills/aws-observability/scripts): the entry script of the eight
-- operations on instrumentations. The tools are a parameter: what a call with keyword arguments that
-- bind comes to, in an environment, and the words of the `TypeError` of one that does not.
pub mod Codes
use kiro_usage_pipeline.Base.{
  ℕ, zero, suc, pos, Bool, true, false, Option, none, some, List, [], ◌∷◌, ◌++◌, Text, lit, concat,
  ◌==◌, text_eq, if◌then◌else◌,
}
use kiro_usage_pipeline.Value.{
  Value, null, bool, int, str, list, dict, nil, cons, Fields, end, field,
}
use kiro_usage_pipeline.Value.Dict.{of_entries, insert}
use kiro_usage_pipeline.Json.Write.{dumps}
use kiro_usage_pipeline.Operation.{OpResult}
use kiro_usage_pipeline.Entry.{
  Args, World, UsageError, no_op, Step, ok, usage, crash, ◌>>=◌, read_payload, prepared, ToolRun,
  answered, type_error, runtime_error, other_error, Ended, line, type_error_text,
}
use kiro_usage_pipeline.Entry.Contract.{Param, needed, optional, binds, ops_contract}

pub data Tool : Type 0 where
  create : Tool
  list_all : Tool
  get_one : Tool
  delete : Tool
  batch_delete_by_scope : Tool
  batch_delete_by_arns : Tool
  get_status : Tool
  check_status : Tool

abbrev pub signature : Tool → List Param
signature create =
    needed (lit "instrumentation_type")
    ∷ needed (lit "service")
    ∷ needed (lit "environment")
    ∷ optional (lit "language") null
    ∷ optional (lit "file_path") null
    ∷ optional (lit "code_unit") null
    ∷ optional (lit "class_name") null
    ∷ optional (lit "method_name") null
    ∷ optional (lit "line_number") null
    ∷ optional (lit "capture_arguments") null
    ∷ optional (lit "capture_return") null
    ∷ optional (lit "capture_stack_trace") null
    ∷ optional (lit "capture_locals") null
    ∷ optional (lit "max_hits") null
    ∷ optional (lit "max_string_length") null
    ∷ optional (lit "max_collection_width") null
    ∷ optional (lit "max_collection_depth") null
    ∷ optional (lit "max_stack_frames") null
    ∷ optional (lit "max_stack_trace_size") null
    ∷ optional (lit "max_object_depth") null
    ∷ optional (lit "max_fields_per_object") null
    ∷ optional (lit "attribute_filters") null
    ∷ optional (lit "description") (str (lit "dynamic instrumentation"))
    ∷ optional (lit "ttl_hours") null
    ∷ []
signature list_all =
    needed (lit "service")
    ∷ needed (lit "environment")
    ∷ needed (lit "instrumentation_type")
    ∷ optional (lit "synced_at") null
    ∷ optional (lit "max_results") (int (pos 100))
    ∷ optional (lit "next_token") null
    ∷ []
signature get_one =
    needed (lit "service")
    ∷ needed (lit "environment")
    ∷ needed (lit "instrumentation_type")
    ∷ optional (lit "location_hash") null
    ∷ optional (lit "language") null
    ∷ optional (lit "file_path") null
    ∷ optional (lit "code_unit") null
    ∷ optional (lit "class_name") null
    ∷ optional (lit "method_name") null
    ∷ optional (lit "line_number") null
    ∷ []
signature delete =
    needed (lit "service")
    ∷ needed (lit "environment")
    ∷ needed (lit "instrumentation_type")
    ∷ optional (lit "location_hash") null
    ∷ optional (lit "language") null
    ∷ optional (lit "file_path") null
    ∷ optional (lit "code_unit") null
    ∷ optional (lit "class_name") null
    ∷ optional (lit "method_name") null
    ∷ optional (lit "line_number") null
    ∷ []
signature batch_delete_by_scope =
    needed (lit "service") ∷ needed (lit "environment") ∷ needed (lit "instrumentation_type") ∷ []
signature batch_delete_by_arns =
    needed (lit "resource_arns") ∷ needed (lit "instrumentation_type") ∷ []
signature get_status =
    needed (lit "service")
    ∷ needed (lit "environment")
    ∷ needed (lit "instrumentation_type")
    ∷ optional (lit "location_hash") null
    ∷ optional (lit "language") null
    ∷ optional (lit "file_path") null
    ∷ optional (lit "code_unit") null
    ∷ optional (lit "class_name") null
    ∷ optional (lit "method_name") null
    ∷ optional (lit "line_number") null
    ∷ optional (lit "status") null
    ∷ optional (lit "start_time") null
    ∷ optional (lit "end_time") null
    ∷ optional (lit "max_results") (int (pos 100))
    ∷ optional (lit "next_token") null
    ∷ optional (lit "signal_type") (str (lit "SNAPSHOT"))
    ∷ []
signature check_status =
    needed (lit "service")
    ∷ needed (lit "environment")
    ∷ needed (lit "instrumentation_type")
    ∷ needed (lit "location_hash")
    ∷ needed (lit "start_time")
    ∷ needed (lit "end_time")
    ∷ optional (lit "signal_type") (str (lit "SNAPSHOT"))
    ∷ []

-- `_OPS`, in its order, with the dispatch table.
abbrev pub ops : List (Text × Tool)
ops =
    (lit "create", create)
    ∷ (lit "list", list_all)
    ∷ (lit "get", get_one)
    ∷ (lit "delete", delete)
    ∷ (lit "batch-delete-by-scope", batch_delete_by_scope)
    ∷ (lit "batch-delete-by-arns", batch_delete_by_arns)
    ∷ (lit "get-status", get_status)
    ∷ (lit "check-status", check_status)
    ∷ []

abbrev pub find_tool : List (Text × Tool) → Text → Option Tool
find_tool [] op = none
find_tool ((name, tool) ∷ rest) op = if op == name then some tool else find_tool rest op

-- `none` is a `KeyError`, which argparse rules out.
unfoldable pub resolve_tool : Text → Option Tool
resolve_tool op = find_tool ops op

-- `_ARG_HINTS`
abbrev pub arg_hints : Fields
arg_hints = of_entries (
    (
      lit "instrumentation_type",
      dict (
          of_entries (
            (lit "enum", list (cons (str (lit "BREAKPOINT")) (cons (str (lit "PROBE")) nil)))
            ∷ (
              lit "note",
              str (lit "required on every op; must match how the breakpoint was created"),
            )
            ∷ [])),
    )
    ∷ (
      lit "service",
      dict (
          of_entries (
            (
              lit "note",
              str (lit "service identifier; di_snapshots.py uses the same key `service`"),
            )
            ∷ [])),
    )
    ∷ [])

unfoldable pub contract : Fields
contract = of_entries (
    (lit "api_version", str (lit "2024-04-15"))
    ∷ (lit "encoding", str (lit "python3 scripts/di_instrumentation.py <op> --json-file args.json"))
    ∷ (
      lit "region",
      str (
          lit
            "pass --region, or set AWS_REGION/AWS_DEFAULT_REGION (default us-east-1); use the region your instrumented service runs in"),
    )
    ∷ (lit "ops", dict (ops_contract arg_hints signature ops end))
    ∷ [])

pub record Tools : Type 0 where
  pub call : Tool → Fields → (Text → Option Text) → ToolRun OpResult
  pub binding_error : Tool → Fields → Text

abbrev pub of_contract : Option Text → Step Ended
of_contract none = crash
of_contract (some s) = ok (record { code = 0; stdout = line s; stderr = [] })

abbrev pub finish : Text → ToolRun OpResult → Step Ended
finish op (answered r) =
    ok (record { code = if r.ok then 0 else 1; stdout = line r.text; stderr = [] })
finish op (type_error exc) = ok (record { code = 2; stdout = []; stderr = type_error_text op exc })
finish op (runtime_error exc) =
    ok (record { code = 1; stdout = []; stderr = line (lit "ERROR: " ++ exc) })
finish op other_error = crash

module _ (float_repr : Text → Text) (tools : Tools) (w : World) where
  -- `fn(**payload)`
  abbrev pub run_tool : Tool → Fields → (Text → Option Text) → ToolRun OpResult
  run_tool tool payload environ =
      if binds (signature tool) payload
      then tools.call tool payload environ
      else type_error (tools.binding_error tool payload)

  abbrev pub run_op : Text → Option Tool → Fields → (Text → Option Text) → Step Ended
  run_op op none payload environ = crash
  run_op op (some tool) payload environ = finish op (run_tool tool payload environ)

  abbrev pub with_op : Args → (Text → Option Text) → Option Text → Step Ended
  with_op args environ none = usage no_op
  with_op args environ (some []) = usage no_op
  with_op args environ (some (c ∷ op)) = do
    payload ← read_payload float_repr w args.json_payload args.json_file
    run_op (c ∷ op) (resolve_tool (c ∷ op)) payload (prepared args environ)

  unfoldable pub main : Args → (Text → Option Text) → Step Ended
  main args environ =
      if args.print_contract
      then of_contract (dumps (dict contract))
      else with_op args environ args.op
