-- ===== src/Entry/Snapshots/Wired.antt =====
-- di_snapshots.py with the two operations of di_snapshot_tools.py
-- (.pi/skills/aws-observability/scripts) as its tools. What a call comes to where an argument has
-- another type than the annotation's, or where the operation raises, is a parameter.
use mathlib.Core.Path.{subst}
use kiro_usage_pipeline.Base.{
  ℕ, Bool, true, false, not, Option, none, some, [], Text, lit, text_eq, nat_eq, ◌==◌, ◌≡◌, refl,
  sym, ap, ◌∙◌,
}
use kiro_usage_pipeline.Value.{dict, Fields}
use kiro_usage_pipeline.Status.Timestamp.{Fromisoformat}
use kiro_usage_pipeline.Json.Pieces.{IsReadable}
use kiro_usage_pipeline.Json.Write.{dumps}
use kiro_usage_pipeline.Snapshot.Query.{QueryResult, Logs, execute_cloudwatch_query}
use kiro_usage_pipeline.Snapshot.Search.{SnapshotQuery, asks, Search, filter_list, search_request}
use kiro_usage_pipeline.Snapshot.Rendering.{search_output}
use kiro_usage_pipeline.Snapshot.Tools.{
  Outcome, returned, raised, exhausted, SampleCall, subject, window, is_failure,
  search_snapshots_for_status_event, get_sample_snapshot_for_breakpoint,
}
use kiro_usage_pipeline.Snapshot.Tools.Exit.{Exits, search_snapshots_for_status_event-Exits}
use kiro_usage_pipeline.Entry.{
  Args, World, Step, ok, read_payload, prepared, ToolRun, answered, Ended, line,
}
use kiro_usage_pipeline.Entry.Snapshots.Arguments.{search_of, sample_of}
use kiro_usage_pipeline.Entry.Contract.{binds}
use kiro_usage_pipeline.Entry.Output.{Files}
use kiro_usage_pipeline.Entry.Snapshots.{
  Tool, sample, search, signature, resolve_tool, Tools, code_of, run_tool, finish, run_op, main,
}

abbrev pub Environ : Type 0
Environ = Text → Option Text

-- The service, as the client of an environment reaches it, and what is beyond the model.
pub record Surroundings : Type 0 where
  pub logs : Environ → Logs
  pub beyond : Tool → Fields → Environ → ToolRun Text
  pub binding_error : Tool → Fields → Text

abbrev pub tool_run : ToolRun Text → Outcome → ToolRun Text
tool_run other (returned text) = answered text
tool_run other raised = other
tool_run other exhausted = other

resolve_tool-search : resolve_tool (lit "search") ≡ some search
unfolding resolve_tool lit text_eq nat_eq
resolve_tool-search = refl

module _ (float_repr : Text → Text) (fromisoformat : Fromisoformat) (s : Surroundings) where
  abbrev pub run_search : Logs → ToolRun Text → Option (Search × ℕ) → ToolRun Text
  run_search logs other none = other
  run_search logs other (some (q, max_timeout)) =
      tool_run other (search_snapshots_for_status_event float_repr logs max_timeout fromisoformat q)

  abbrev pub run_sample : Logs → ToolRun Text → Option (SampleCall × ℕ) → ToolRun Text
  run_sample logs other none = other
  run_sample logs other (some (c, max_timeout)) =
      tool_run other
        (get_sample_snapshot_for_breakpoint float_repr logs max_timeout fromisoformat c)

  abbrev pub call_tool : Tool → Fields → Environ → ToolRun Text
  call_tool sample payload environ =
      run_sample (s.logs environ) (s.beyond sample payload environ) (sample_of payload)
  call_tool search payload environ =
      run_search (s.logs environ) (s.beyond search payload environ) (search_of payload)

  abbrev pub wired : Tools
  wired = record { call = call_tool; binding_error = s.binding_error }

  -- The text of the dict is printed, with the exit code of a failure or of none.
  abbrev pub Prints : Fields → Bool → Files → Step (Ended × Files) → Type 0
  Prints d failed fs run =
      (text : Text) × (dumps (dict d) ≡ some text)
      × (is_failure float_repr text ≡ failed)
      × (run ≡ ok (record { code = code_of failed; stdout = line text; stderr = [] }, fs))

  module _ (w : World) where
    finish-Prints :
        (d : Fields) (op : Text) (failed : Bool) (fs : Files) (text : Text) (t : ToolRun Text)
        → dumps (dict d) ≡ some text
        → t ≡ answered text
        → is_failure float_repr text ≡ failed
        → Prints d failed fs (finish float_repr wired w op none fs t)
    finish-Prints d op failed fs text t dumped answer known = (
      text,
      dumped,
      known,
      ap (finish float_repr wired w op none fs) answer
          ∙ ap (λ b. ok (record { code = code_of b; stdout = line text; stderr = [] }, fs)) known,
    )

    search-Prints :
        (op : Text) (fs : Files) (payload : Fields) (environ : Environ) (q : Search)
        (max_timeout : ℕ) (failed : Bool) (d : Fields)
        → binds (signature search) payload ≡ true
        → search_of payload ≡ some (q, max_timeout)
        → Exits float_repr d
            (search_snapshots_for_status_event float_repr
              (s.logs environ)
              max_timeout
              fromisoformat
              q)
            failed
        → Prints d failed fs (run_op float_repr wired w op none fs (some search) payload environ)
    search-Prints op fs payload environ q max_timeout failed d bound given
          (text, dumped, same, known) =
        finish-Prints d op failed fs text (run_tool float_repr wired w search payload environ)
          dumped
          (rw bound (
            ap (run_search (s.logs environ) (s.beyond search payload environ)) given
            ∙ ap (tool_run (s.beyond search payload environ)) same))
          known

    main-search :
        (args : Args) (environ : Environ) (fs : Files) (payload : Fields)
        → args.print_contract ≡ false
        → args.op ≡ some (lit "search")
        → args.out ≡ none
        → read_payload float_repr w args.json_payload args.json_file ≡ ok payload
        → main float_repr wired w args environ fs
          ≡ run_op float_repr wired w
              (lit "search")
              none
              fs
              (some search)
              payload
              (prepared args environ)
    unfolding main lit
    main-search args environ fs payload plain named printed read =
        rw (plain, named, printed, read, resolve_tool-search) refl

    -- A search that is read from the arguments of the script prints the JSON text of its output on a
    -- line and gives the exit code 0 where its query is complete and 1 where it ends in another way,
    -- provided that the query is sent, that it ends, and that there is an output that can be read
    -- back.
    pub search_main-Prints :
        (args : Args) (environ : Environ) (fs : Files) (payload : Fields) (q : Search)
        (max_timeout : ℕ) (a : SnapshotQuery) (r : QueryResult) (d : Fields)
        → args.print_contract ≡ false
        → args.op ≡ some (lit "search")
        → args.out ≡ none
        → read_payload float_repr w args.json_payload args.json_file ≡ ok payload
        → binds (signature search) payload ≡ true
        → search_of payload ≡ some (q, max_timeout)
        → search_request fromisoformat q ≡ asks a
        → execute_cloudwatch_query (s.logs (prepared args environ)) a.sent max_timeout ≡ some r
        → search_output float_repr
            (subject q.service q.environment q.location_hash a)
            (filter_list q.custom_filters)
            (window a)
            r
          ≡ some d
        → IsReadable float_repr (dict d)
        → Prints d (not (r.status == lit "Complete")) fs (main float_repr wired w args environ fs)
    search_main-Prints args environ fs payload q max_timeout a r d plain named printed read bound
          given asked ended output readable =
        subst (Prints d (not (r.status == lit "Complete")) fs)
          (sym (main-search args environ fs payload plain named printed read))
          (search-Prints (lit "search") fs payload (prepared args environ) q max_timeout
            (not (r.status == lit "Complete")) d bound given
            (search_snapshots_for_status_event-Exits float_repr (s.logs (prepared args environ))
              max_timeout fromisoformat q a r d asked ended output readable))
