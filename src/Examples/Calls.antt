-- ===== src/Examples/Calls.antt =====
-- The theorems on whole calls at concrete inputs.
use kiro_usage_pipeline.Base.{◌≡◌, false, none, some, [], ◌∷◌, arith, lit, text_eq, nat_eq, pos}
use kiro_usage_pipeline.Value.Dict.{get}
use kiro_usage_pipeline.Gateway.{Client}
use kiro_usage_pipeline.Clients.{Sdk}
use kiro_usage_pipeline.Operation.Late.{fixed_client, run_late, run_late-run}
use kiro_usage_pipeline.Operation.Run.{run, IsReturned}
use kiro_usage_pipeline.Crud.Guards.{Requests}
use kiro_usage_pipeline.Crud.Create.{create_instrumentation}
use kiro_usage_pipeline.Crud.Create.Totality.{create_instrumentation-IsReturned}
use kiro_usage_pipeline.Crud.Queries.{Page, list_instrumentations}
use kiro_usage_pipeline.Crud.Queries.Guards.{IsPage, list_instrumentations-IsPage}
use kiro_usage_pipeline.Crud.Removal.{
  delete_instrumentation, batch_delete_instrumentations_by_scope,
  batch_delete_instrumentations_by_arns,
}
use kiro_usage_pipeline.Crud.Removal.Totality.{deletions-AreReturned}
use kiro_usage_pipeline.Examples.Operations.{quiet, deleting, watch_handler, by_hash}

create_instrumentation-IsReturned_example :
    IsReturned (run quiet (create_instrumentation 0 watch_handler))
create_instrumentation-IsReturned_example =
    create_instrumentation-IsReturned quiet 0 watch_handler (λ _. tt) tt (omega arith)

deletions-AreReturned_example :
    IsReturned (run deleting (delete_instrumentation by_hash))
    × IsReturned (
        run deleting
          (batch_delete_instrumentations_by_scope (lit "orders") (lit "prod") (some (lit "PROBE"))))
    × IsReturned (
        run deleting
          (batch_delete_instrumentations_by_arns (lit "arn:1" ∷ []) (some (lit "PROBE"))))
unfolding get lit text_eq nat_eq
deletions-AreReturned_example =
    deletions-AreReturned deleting (λ _. (tt, (tt, tt))) by_hash (lit "orders") (lit "prod")
      (lit "arn:1" ∷ []) (some (lit "PROBE"))

abbrev second_page : Page
second_page = record {
  service = lit "orders";
  environment = lit "prod";
  instrumentation_type = some (lit "probe");
  synced_at = none;
  max_results = pos 20;
  next_token = some (lit "t-1");
}

list_instrumentations-IsPage_example :
    Requests (IsPage second_page) (list_instrumentations second_page)
list_instrumentations-IsPage_example = list_instrumentations-IsPage second_page

-- An SDK whose clients all answer alike and whose model is too old.
abbrev old_sdk : Sdk Client
old_sdk = record { make = λ service profile region. quiet; supports = λ c operation. false }

run_late-run_example :
    run_late old_sdk
      (λ c. c)
      (λ name. none)
      (record { client = none; builds = 0 })
      (create_instrumentation 0 watch_handler)
    ≡ run (fixed_client old_sdk (λ c. c) (λ name. none)) (create_instrumentation 0 watch_handler)
run_late-run_example =
    run_late-run old_sdk (λ c. c) (λ name. none) 0 (create_instrumentation 0 watch_handler)
