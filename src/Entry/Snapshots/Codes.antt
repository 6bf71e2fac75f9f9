-- ===== src/Entry/Snapshots/Codes.antt =====
-- When di_snapshots.py exits with 0, and what its contract says of a call.
use mathlib.Core.Path.{subst}
use kiro_usage_pipeline.Base.{
  ℕ, Bool, true, false, Option, none, some, [], ◌∷◌, Text, lit, nat_eq, text_eq, sym, ◌≡◌, ◌↔◌, ◌⊎◌,
  inl, inr, refl, arith,
}
use kiro_usage_pipeline.Value.{Fields, dict}
use kiro_usage_pipeline.Value.Dict.{get, get_fields, insert}
use kiro_usage_pipeline.Json.Write.{dumps, is_serializable}
use kiro_usage_pipeline.Snapshot.Tools.{is_failure}
use kiro_usage_pipeline.Entry.Output.{Files, write_out}
use kiro_usage_pipeline.Entry.{
  Args, World, ok, read_payload, prepared, ToolRun, answered, type_error, runtime_error,
  other_error, Ended,
}
use kiro_usage_pipeline.Entry.Success.{Succeeds, bind-Succeeds, choice, if-answered}
use kiro_usage_pipeline.Entry.Contract.{binds, describe, describe_all, ops_contract}
use kiro_usage_pipeline.Entry.Contract.Binding.{accepts, accepts-describe_all}
use kiro_usage_pipeline.Entry.Snapshots.{
  Tool, sample, search, signature, resolve_tool, arg_hints, contract, Tools, of_contract, code_of,
  announced, deliver, finish, run_tool, run_op, with_op, main,
}

abbrev pub exit_code : Ended × Files → ℕ
exit_code e = e.0.code

module _ (float_repr : Text → Text) (tools : Tools) (w : World) where
  -- The result is printed, or its file can be written.
  abbrev pub IsDelivered : Option Text → Text → Files → Type 0
  IsDelivered none result fs = Unit
  IsDelivered (some []) result fs = Unit
  IsDelivered (some (c ∷ path)) result fs =
      (fs' : Files) × (write_out w.masked (c ∷ path) result fs ≡ some fs')

  announced-Succeeds :
      (code : ℕ) (path : Text) (o : Option Files)
      → Succeeds exit_code (announced code path o) ↔ ((fs' : Files) × (o ≡ some fs') × (code ≡ 0))
  announced-Succeeds code path none = (λ h. absurd h, λ (fs', same, _). absurd cc)
  announced-Succeeds code path (some fs) = (λ h. (fs, refl, h), λ (fs', same, h). h)

  deliver-Succeeds :
      (code : ℕ) (out : Option Text) (result : Text) (fs : Files)
      → Succeeds exit_code (deliver w.masked code out result fs)
        ↔ ((code ≡ 0) × IsDelivered out result fs)
  deliver-Succeeds code none result fs = (λ h. (h, tt), λ (h, _). h)
  deliver-Succeeds code (some []) result fs = (λ h. (h, tt), λ (h, _). h)
  deliver-Succeeds code (some (c ∷ path)) result fs =
      let (to, from) =
        announced-Succeeds code (c ∷ path) (write_out w.masked (c ∷ path) result fs) in
      (
        λ h. let (fs', same, none_failed) = to h in (none_failed, (fs', same)),
        λ (none_failed, (fs', same)). from (fs', same, none_failed),
      )

  failure_code : (b : Bool) → (code_of b ≡ 0) ↔ (b ≡ false)
  failure_code b = ground arith

  finish-Succeeds :
      (op : Text) (out : Option Text) (fs : Files) (t : ToolRun Text)
      → Succeeds exit_code (finish float_repr tools w op out fs t) ↔ (
          (result : Text) × (t ≡ answered result)
          × (is_failure float_repr result ≡ false)
          × IsDelivered out result fs)
  finish-Succeeds op out fs (answered result) =
      let failed = is_failure float_repr result in
      let (to, from) = deliver-Succeeds (code_of failed) out result fs in
      (
        λ h. let (code, sent) = to h in (result, refl, (failure_code failed).0 code, sent),
        λ (other, same, good, sent).
            subst (λ x. Succeeds exit_code (finish float_repr tools w op out fs (answered x))) (cc)
              ((deliver-Succeeds (code_of (is_failure float_repr other)) out other fs).1
                ((failure_code (is_failure float_repr other)).1 good, sent)),
      )
  finish-Succeeds op out fs (type_error e) =
      (λ h. absurd (ground arith), λ (r, same, _, _). absurd cc)
  finish-Succeeds op out fs (runtime_error e) = (λ h. absurd h, λ (r, same, _, _). absurd cc)
  finish-Succeeds op out fs other_error = (λ h. absurd h, λ (r, same, _, _). absurd cc)

  -- The tool is called with a payload that binds, and its text is no failure and is delivered.
  abbrev pub Answers : Args → Files → Tool → Fields → (Text → Option Text) → Type 0
  Answers args fs tool payload environ =
      (result : Text) × (binds (signature tool) payload ≡ true)
      × (tools.call tool payload environ ≡ answered result)
      × (is_failure float_repr result ≡ false)
      × IsDelivered args.out result fs

  run_tool-Succeeds :
      (args : Args) (fs : Files) (op : Text) (tool : Tool) (payload : Fields)
      (environ : Text → Option Text)
      → Succeeds exit_code (
          finish float_repr tools w op args.out fs
            (run_tool float_repr tools w tool payload environ))
        ↔ Answers args fs tool payload environ
  run_tool-Succeeds args fs op tool payload environ =
      let finished =
        finish-Succeeds op args.out fs (run_tool float_repr tools w tool payload environ) in
      let called = λ (r : Text).
        if-answered (binds (signature tool) payload) (tools.call tool payload environ)
          (tools.binding_error tool payload) r in
      (
        λ h.
            let (r, same, good, sent) = finished.0 h in
            let (bound, answer) = (called r).0 same in (r, bound, answer, good, sent),
        λ (r, bound, answer, good, sent). finished.1 (r, (called r).1 (bound, answer), good, sent),
      )

  run_op-Succeeds :
      (args : Args) (fs : Files) (op : Text) (o : Option Tool) (payload : Fields)
      (environ : Text → Option Text)
      → Succeeds exit_code (run_op float_repr tools w op args.out fs o payload environ)
        ↔ ((tool : Tool) × (o ≡ some tool) × Answers args fs tool payload environ)
  run_op-Succeeds args fs op none payload environ = (λ h. absurd h, λ (t, same, h). absurd cc)
  run_op-Succeeds args fs op (some tool) payload environ =
      let (to, from) = run_tool-Succeeds args fs op tool payload environ in
      (
        λ h. (tool, refl, to h),
        λ (t, same, h). from (subst (λ x. Answers args fs x payload environ) (cc) h),
      )

  -- An operation is named, its arguments can be read, and its tool answers with a text that is no
  -- failure and can be delivered.
  abbrev pub IsServed : Args → (Text → Option Text) → Files → Type 0
  IsServed args environ fs =
      (op : Text) × (payload : Fields) × (tool : Tool) × (args.op ≡ some op)
      × (read_payload float_repr w args.json_payload args.json_file ≡ ok payload)
      × (resolve_tool op ≡ some tool)
      × Answers args fs tool payload (prepared args environ)

  nameless : resolve_tool [] ≡ none
  unfolding resolve_tool lit text_eq nat_eq
  nameless = refl

  with_op-Succeeds :
      (args : Args) (environ : Text → Option Text) (fs : Files) (o : Option Text)
      → args.op ≡ o
      → Succeeds exit_code (with_op float_repr tools w args environ fs o) ↔ IsServed args environ fs
  with_op-Succeeds args environ fs none e = (λ h. absurd h, λ (op, _, _, same, _, _, _). absurd cc)
  with_op-Succeeds args environ fs (some []) e = (
    λ h. absurd h,
    λ (op, payload, tool, named, read, found, answers).
        let blank : op ≡ [] = cc in
        let lost : resolve_tool op ≡ none =
          subst (λ x. resolve_tool x ≡ none) (sym blank) nameless in
        absurd cc,
  )
  with_op-Succeeds args environ fs (some (c ∷ op)) e =
      let bound =
        bind-Succeeds exit_code (read_payload float_repr w args.json_payload args.json_file)
          (λ payload.
            run_op float_repr tools w (c ∷ op) args.out fs (resolve_tool (c ∷ op)) payload
              (prepared args environ)) in
      (
        λ h.
            let (payload, read, ran) = bound.0 h in
            let (tool, found, answers) =
              (run_op-Succeeds args fs (c ∷ op) (resolve_tool (c ∷ op)) payload
                  (prepared args environ)).0
                ran in
            (c ∷ op, payload, tool, e, read, found, answers),
        λ (op', payload, tool, named, read, found, answers). bound.1 (
          payload,
          read,
          (run_op-Succeeds args fs (c ∷ op) (resolve_tool (c ∷ op)) payload
                (prepared args environ)).1
              (tool, subst (λ x. resolve_tool x ≡ some tool) (cc) found, answers),
        ),
      )

  contract_written : (fs : Files) → Succeeds exit_code (of_contract fs (dumps (dict contract)))
  unfolding dumps is_serializable contract ops_contract describe_all describe insert get lit text_eq
      nat_eq
  contract_written fs = refl

  -- The script exits with 0 exactly when it prints the contract, or an operation is named, its
  -- arguments are read as an object that binds, and the tool answers, in the environment
  -- that the flags prepare, with a text that is no failure and can be delivered.
  pub snapshot_main-Succeeds_iff :
      (args : Args) (environ : Text → Option Text) (fs : Files)
      → Succeeds exit_code (main float_repr tools w args environ fs) ↔ (
          (args.print_contract ≡ true) ⊎ ((args.print_contract ≡ false) × IsServed args environ fs))
  unfolding main
  snapshot_main-Succeeds_iff args environ fs =
      let (to, from) = with_op-Succeeds args environ fs args.op refl in
      let chosen =
        choice exit_code (of_contract fs (dumps (dict contract)))
          (with_op float_repr tools w args environ fs args.op) (contract_written fs)
          args.print_contract in
      (
        λ h. elim (chosen.0 h) [ inl p ↦ inl p | inr (p, s) ↦ inr (p, to s) ],
        λ h. elim h [ inl p ↦ chosen.1 (inl p) | inr (p, s) ↦ chosen.1 (inr (p, from s)) ],
      )

-- The name of a tool among the operations.
abbrev pub name_of : Tool → Text
name_of sample = lit "sample"
name_of search = lit "search"

-- The arguments of an operation in a contract.
abbrev pub args_of : Fields → Text → Fields
args_of d op = get_fields (lit "args") (get_fields op (get_fields (lit "ops") d))

-- Every tool is found under its name, and its call binds exactly the payloads that the printed
-- contract allows: their keys are all arguments there, and those that are required are given.
pub snapshot_contract-binds :
    (tool : Tool) (payload : Fields)
    → (resolve_tool (name_of tool) ≡ some tool)
      × (accepts (args_of contract (name_of tool)) payload ≡ binds (signature tool) payload)
unfolding resolve_tool contract ops_contract insert get lit text_eq nat_eq
snapshot_contract-binds sample payload =
    (refl, accepts-describe_all arg_hints (signature sample) payload refl)
snapshot_contract-binds search payload =
    (refl, accepts-describe_all arg_hints (signature search) payload refl)
