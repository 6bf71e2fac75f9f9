-- ===== src/Entry/Instrumentation/Codes.antt =====
-- When di_instrumentation.py exits with 0, and what its contract says of a call.
use mathlib.Core.Path.{subst}
use kiro_usage_pipeline.Base.{
  ℕ, true, false, Option, none, some, Text, lit, nat_eq, text_eq, sym, [], ◌∷◌, ◌≡◌, ◌↔◌, ◌⊎◌, inl,
  inr, refl, arith,
}
use kiro_usage_pipeline.Value.{Fields, dict}
use kiro_usage_pipeline.Value.Dict.{get, get_fields, insert}
use kiro_usage_pipeline.Json.Write.{dumps, is_serializable}
use kiro_usage_pipeline.Operation.{OpResult}
use kiro_usage_pipeline.Entry.{
  Args, World, ok, read_payload, prepared, ToolRun, answered, type_error, runtime_error,
  other_error, Ended,
}
use kiro_usage_pipeline.Entry.Success.{Succeeds, bind-Succeeds, choice, if-answered}
use kiro_usage_pipeline.Entry.Contract.{binds, describe, describe_all, ops_contract}
use kiro_usage_pipeline.Entry.Contract.Binding.{accepts, accepts-describe_all}
use kiro_usage_pipeline.Entry.Instrumentation.{
  Tool, create, list_all, get_one, delete, batch_delete_by_scope, batch_delete_by_arns, get_status,
  check_status, signature, resolve_tool, arg_hints, contract, Tools, of_contract, finish, run_tool,
  run_op, with_op, main,
}

abbrev pub exit_code : Ended → ℕ
exit_code e = e.code

finish-Succeeds :
    (op : Text) (t : ToolRun OpResult)
    → Succeeds exit_code (finish op t) ↔ ((r : OpResult) × (t ≡ answered r) × (r.ok ≡ true))
finish-Succeeds op (answered r) = (λ h. (r, refl, ground arith), λ (s, same, h). ground arith)
finish-Succeeds op (type_error e) = (λ h. absurd (ground arith), λ (r, same, h). absurd cc)
finish-Succeeds op (runtime_error e) = (λ h. absurd (ground arith), λ (r, same, h). absurd cc)
finish-Succeeds op other_error = (λ h. absurd h, λ (r, same, h). absurd cc)

module _ (float_repr : Text → Text) (tools : Tools) (w : World) where
  -- The tool is called with a payload that binds, and its result is good.
  abbrev pub Answers : Tool → Fields → (Text → Option Text) → Type 0
  Answers tool payload environ =
      (r : OpResult) × (binds (signature tool) payload ≡ true)
      × (tools.call tool payload environ ≡ answered r)
      × (r.ok ≡ true)

  run_tool-Succeeds :
      (op : Text) (tool : Tool) (payload : Fields) (environ : Text → Option Text)
      → Succeeds exit_code (finish op (run_tool float_repr tools w tool payload environ))
        ↔ Answers tool payload environ
  run_tool-Succeeds op tool payload environ =
      let finished = finish-Succeeds op (run_tool float_repr tools w tool payload environ) in
      let called = λ (r : OpResult).
        if-answered (binds (signature tool) payload) (tools.call tool payload environ)
          (tools.binding_error tool payload) r in
      (
        λ h.
            let (r, same, good) = finished.0 h in
            let (bound, answer) = (called r).0 same in (r, bound, answer, good),
        λ (r, bound, answer, good). finished.1 (r, (called r).1 (bound, answer), good),
      )

  run_op-Succeeds :
      (op : Text) (o : Option Tool) (payload : Fields) (environ : Text → Option Text)
      → Succeeds exit_code (run_op float_repr tools w op o payload environ)
        ↔ ((tool : Tool) × (o ≡ some tool) × Answers tool payload environ)
  run_op-Succeeds op none payload environ = (λ h. absurd h, λ (t, same, h). absurd cc)
  run_op-Succeeds op (some tool) payload environ =
      let (to, from) = run_tool-Succeeds op tool payload environ in
      (
        λ h. (tool, refl, to h),
        λ (t, same, h). from (subst (λ x. Answers x payload environ) (cc) h),
      )

  -- An operation is named, its arguments can be read, and its tool answers with a good result, in the
  -- environment that the flags prepare.
  abbrev pub IsServed : Args → (Text → Option Text) → Type 0
  IsServed args environ =
      (op : Text) × (payload : Fields) × (tool : Tool) × (args.op ≡ some op)
      × (read_payload float_repr w args.json_payload args.json_file ≡ ok payload)
      × (resolve_tool op ≡ some tool)
      × Answers tool payload (prepared args environ)

  nameless : resolve_tool [] ≡ none
  unfolding resolve_tool lit text_eq nat_eq
  nameless = refl

  with_op-Succeeds :
      (args : Args) (environ : Text → Option Text) (o : Option Text)
      → args.op ≡ o
      → Succeeds exit_code (with_op float_repr tools w args environ o) ↔ IsServed args environ
  with_op-Succeeds args environ none e = (λ h. absurd h, λ (op, _, _, same, _, _, _). absurd cc)
  with_op-Succeeds args environ (some []) e = (
    λ h. absurd h,
    λ (op, payload, tool, named, read, found, answers).
        let blank : op ≡ [] = cc in
        let lost : resolve_tool op ≡ none =
          subst (λ x. resolve_tool x ≡ none) (sym blank) nameless in
        absurd cc,
  )
  with_op-Succeeds args environ (some (c ∷ op)) e =
      let bound =
        bind-Succeeds exit_code (read_payload float_repr w args.json_payload args.json_file)
          (λ payload.
            run_op float_repr tools w (c ∷ op) (resolve_tool (c ∷ op)) payload
              (prepared args environ)) in
      (
        λ h.
            let (payload, read, ran) = bound.0 h in
            let (tool, found, answers) =
              (run_op-Succeeds (c ∷ op) (resolve_tool (c ∷ op)) payload (prepared args environ)).0
                ran in
            (c ∷ op, payload, tool, e, read, found, answers),
        λ (op', payload, tool, named, read, found, answers). bound.1 (
          payload,
          read,
          (run_op-Succeeds (c ∷ op) (resolve_tool (c ∷ op)) payload (prepared args environ)).1
              (tool, subst (λ x. resolve_tool x ≡ some tool) (cc) found, answers),
        ),
      )

  contract_written : Succeeds exit_code (of_contract (dumps (dict contract)))
  unfolding dumps is_serializable contract ops_contract describe_all describe insert get lit text_eq
      nat_eq
  contract_written = refl

  -- The script exits with 0 exactly when it prints the contract, or an operation is named, its
  -- arguments are read as an object that binds, and the tool answers with a good result in the
  -- environment that the flags prepare.
  pub main-Succeeds_iff :
      (args : Args) (environ : Text → Option Text)
      → Succeeds exit_code (main float_repr tools w args environ)
        ↔ ((args.print_contract ≡ true) ⊎ ((args.print_contract ≡ false) × IsServed args environ))
  unfolding main
  main-Succeeds_iff args environ =
      let (to, from) = with_op-Succeeds args environ args.op refl in
      let chosen =
        choice exit_code (of_contract (dumps (dict contract)))
          (with_op float_repr tools w args environ args.op) contract_written args.print_contract in
      (
        λ h. elim (chosen.0 h) [ inl p ↦ inl p | inr (p, s) ↦ inr (p, to s) ],
        λ h. elim h [ inl p ↦ chosen.1 (inl p) | inr (p, s) ↦ chosen.1 (inr (p, from s)) ],
      )

-- The name of a tool among the operations.
abbrev pub name_of : Tool → Text
name_of create = lit "create"
name_of list_all = lit "list"
name_of get_one = lit "get"
name_of delete = lit "delete"
name_of batch_delete_by_scope = lit "batch-delete-by-scope"
name_of batch_delete_by_arns = lit "batch-delete-by-arns"
name_of get_status = lit "get-status"
name_of check_status = lit "check-status"

-- The arguments of an operation in a contract.
abbrev pub args_of : Fields → Text → Fields
args_of d op = get_fields (lit "args") (get_fields op (get_fields (lit "ops") d))

-- Every tool is found under its name, and its call binds exactly the payloads that the printed
-- contract allows: their keys are all arguments there, and those that are required are given.
pub contract-binds :
    (tool : Tool) (payload : Fields)
    → (resolve_tool (name_of tool) ≡ some tool)
      × (accepts (args_of contract (name_of tool)) payload ≡ binds (signature tool) payload)
unfolding resolve_tool contract ops_contract insert get lit text_eq nat_eq
contract-binds create payload =
    (refl, accepts-describe_all arg_hints (signature create) payload refl)
contract-binds list_all payload =
    (refl, accepts-describe_all arg_hints (signature list_all) payload refl)
contract-binds get_one payload =
    (refl, accepts-describe_all arg_hints (signature get_one) payload refl)
contract-binds delete payload =
    (refl, accepts-describe_all arg_hints (signature delete) payload refl)
contract-binds batch_delete_by_scope payload =
    (refl, accepts-describe_all arg_hints (signature batch_delete_by_scope) payload refl)
contract-binds batch_delete_by_arns payload =
    (refl, accepts-describe_all arg_hints (signature batch_delete_by_arns) payload refl)
contract-binds get_status payload =
    (refl, accepts-describe_all arg_hints (signature get_status) payload refl)
contract-binds check_status payload =
    (refl, accepts-describe_all arg_hints (signature check_status) payload refl)
