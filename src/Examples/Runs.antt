-- ===== src/Examples/Runs.antt =====
-- The theorems on the two entry scripts and on the clients at concrete inputs.
use kiro_usage_pipeline.Base.{
  true, false, none, some, List, [], ◌∷◌, ◌≡◌, inr, refl, Text, lit, nat_eq, text_eq, ◌==◌, lstrip,
  strip, upper, is_space, starts_with,
}
use kiro_usage_pipeline.Value.{str, Fields, end, field}
use kiro_usage_pipeline.Value.Show.{show}
use kiro_usage_pipeline.Value.Dict.{get, insert}
use kiro_usage_pipeline.Clients.{Environ, Sdk, min_di_operation, build_client}
use kiro_usage_pipeline.Clients.Kept.{
  Lookup, lookups, first_client, answers, holding, lookups-first_client,
}
use kiro_usage_pipeline.Clients.Flags.{asked_profile, build_client-prepared}
use kiro_usage_pipeline.Entry.{
  Args, World, undecodable, ok, answered, prepared, raw_payload, read_payload,
}
use kiro_usage_pipeline.Json.Read.{loads, run, step, on_mark, is_atom_char}
use kiro_usage_pipeline.Entry.Contract.{binds, all_known, all_given}
use kiro_usage_pipeline.Entry.Success.{Succeeds}
use kiro_usage_pipeline.Entry.Instrumentation
use kiro_usage_pipeline.Entry.Instrumentation.{resolve_tool}
use kiro_usage_pipeline.Entry.Contract.Binding.{accepts}
use kiro_usage_pipeline.Entry.Instrumentation.Codes.{main-Succeeds_iff, contract-binds}
use kiro_usage_pipeline.Entry.Snapshots
use kiro_usage_pipeline.Entry.Snapshots.Codes.{snapshot_main-Succeeds_iff, snapshot_contract-binds}
use kiro_usage_pipeline.Snapshot.Tools.{is_failure, has_failed_status}
use kiro_usage_pipeline.Region.{resolve_region}
use kiro_usage_pipeline.Entry.Output.{
  Files, regular, open_file, set_node, owner_only, write_out, write_states, IsWritten,
  write_states-IsWritten,
}

-- Clients that are their service and their region.
abbrev named_clients : Sdk (Text × Text)
named_clients = record {
  make = λ service profile region. (service, region);
  supports = λ c operation. operation == min_di_operation;
}

abbrev pub blank_environ : Environ
blank_environ _ = none

abbrev two_lookups : List Lookup
two_lookups = (lit "delete_log_group", blank_environ) ∷ (lit "start_query", blank_environ) ∷ []

lookups-first_client_example : lookups named_clients two_lookups (holding named_clients none) ≡ (
  answers named_clients (first_client named_clients two_lookups) two_lookups,
  holding named_clients (first_client named_clients two_lookups),
)
lookups-first_client_example = lookups-first_client named_clients two_lookups

abbrev search_args : Args
search_args = record {
  op = some (lit "search");
  json_payload = some (lit "-");
  json_file = none;
  out = some (lit "out.json");
  region = some (lit "eu-west-1");
  profile = none;
  print_contract = false;
}

build_client-prepared_example :
    build_client named_clients (lit "logs") (prepared search_args blank_environ)
    ≡ named_clients.make
        (lit "logs")
        (asked_profile none none)
        (resolve_region blank_environ (some (lit "eu-west-1")))
build_client-prepared_example =
    build_client-prepared named_clients (lit "logs") blank_environ search_args

-- A file that others may read.
abbrev pub open_to_all : Files
open_to_all _ = regular 420 (lit "old")

write_states-IsWritten_example :
    IsWritten
      (lit "out.json")
      (lit "{}")
      open_to_all
      (write_states (λ m. m) (lit "out.json") (lit "{}") open_to_all)
write_states-IsWritten_example =
    write_states-IsWritten (λ m. m) (lit "out.json") (lit "{}") open_to_all

-- A payload on the standard input.
abbrev pub some_world : World
some_world = record { stdin = lit "[1]"; read_text = λ _. undecodable; masked = λ m. m }

abbrev get_payload : Fields
get_payload = field (lit "service") (str (lit "a")) (
    field (lit "environment") (str (lit "b"))
      (field (lit "instrumentation_type") (str (lit "PROBE")) end))

abbrev get_args : Args
get_args = record {
  op = some (lit "get");
  json_payload =
      some
        (lit "{\"service\": \"a\", \"environment\": \"b\", \"instrumentation_type\": \"PROBE\"}");
  json_file = none;
  out = none;
  region = none;
  profile = none;
  print_contract = false;
}

-- Tools that answer with success.
abbrev ready_tools : Instrumentation.Tools
ready_tools = record {
  call = λ tool payload environ. answered (record { ok = true; text = lit "done" });
  binding_error = λ tool payload. lit "bad";
}

get_payload-read :
    read_payload
      (λ t. t)
      some_world
      (some
        (lit "{\"service\": \"a\", \"environment\": \"b\", \"instrumentation_type\": \"PROBE\"}"))
      none
    ≡ ok get_payload
unfolding read_payload raw_payload loads run step on_mark is_atom_char insert lit text_eq nat_eq
get_payload-read = refl

main-Succeeds_iff_example :
    Succeeds Instrumentation.Codes.exit_code
      (Instrumentation.main (λ t. t) ready_tools some_world get_args blank_environ)
unfolding resolve_tool binds all_known all_given get lit text_eq nat_eq
main-Succeeds_iff_example =
    (main-Succeeds_iff (λ t. t) ready_tools some_world get_args blank_environ).1 (
      inr (
        refl,
        (
          lit "get",
          get_payload,
          Instrumentation.get_one,
          refl,
          get_payload-read,
          refl,
          (record { ok = true; text = lit "done" }, refl, refl, refl),
        ),
      ))

contract-binds_example :
    (Instrumentation.resolve_tool (lit "get") ≡ some Instrumentation.get_one)
    × (accepts (Instrumentation.Codes.args_of Instrumentation.contract (lit "get")) get_payload
        ≡ binds (Instrumentation.signature Instrumentation.get_one) get_payload)
contract-binds_example = contract-binds Instrumentation.get_one get_payload

abbrev silent_tools : Snapshots.Tools
silent_tools = record {
  call = λ tool payload environ. answered (lit "{}");
  binding_error = λ tool payload. lit "bad";
}

abbrev sample_payload : Fields
sample_payload = field (lit "service") (str (lit "a")) (
    field (lit "environment") (str (lit "b")) (
      field (lit "location_hash") (str (lit "c"))
        (field (lit "status_timestamp") (str (lit "d")) end)))

abbrev sample_args : Args
sample_args = record {
  op = some (lit "sample");
  json_payload = some (
      lit
        "{\"service\": \"a\", \"environment\": \"b\", \"location_hash\": \"c\", \"status_timestamp\": \"d\"}");
  json_file = none;
  out = some (lit "out.json");
  region = none;
  profile = none;
  print_contract = false;
}

sample_payload-read :
    read_payload (λ t. t) some_world sample_args.json_payload none ≡ ok sample_payload
unfolding read_payload raw_payload loads run step on_mark is_atom_char insert lit text_eq nat_eq
sample_payload-read = refl

snapshot_main-Succeeds_iff_example :
    Succeeds Snapshots.Codes.exit_code
      (Snapshots.main (λ t. t) silent_tools some_world sample_args blank_environ open_to_all)
unfolding Snapshots.resolve_tool binds all_known all_given get lit text_eq nat_eq is_failure
    has_failed_status starts_with lstrip is_space loads run step on_mark is_atom_char write_out
    write_states open_file show strip upper
snapshot_main-Succeeds_iff_example =
    (snapshot_main-Succeeds_iff (λ t. t) silent_tools some_world sample_args blank_environ
        open_to_all).1
      (inr (
        refl,
        (
          lit "sample",
          sample_payload,
          Snapshots.sample,
          refl,
          sample_payload-read,
          refl,
          (
            lit "{}",
            refl,
            refl,
            refl,
            (set_node (lit "out.json") (regular owner_only (lit "{}")) open_to_all, refl),
          ),
        ),
      ))
