-- ===== src/Lib.antt =====
-- Dynamic instrumentation for AWS Application Signals: the host scripts of the aws-observability
-- skill, .pi/skills/aws-observability/scripts/di_*.py; and two small scripts of another skill.
--
-- An agent calls an operation (create, list, get, delete, batch delete, status, snapshots). The
-- operation checks its inputs, turns them into a location and a capture, sends a request through
-- the gateway, and answers with a flag and a text. A consolidated status check puts up to three
-- queries together; the snapshot tools build a Logs Insights query and poll for its result.
--
-- - Base: texts as lists of code points with the methods of `str` that the scripts call, Boolean
--   tests, integers. Value: Python values and dicts, in insertion order; Value/Time and Value/Show
--   are `strftime` and `str` on them. Instants are microseconds from the start of the year 1.
-- - Decimals: `str.isdigit` and `int` of a text, on the digits of Unicode.
-- - Validation (di_validation.py): the checks of inputs; Validation/Location is
--   `_validate_location_inputs`.
-- - Location (di_location.py): code, hash and unknown locations; Location/Inputs has the parsers of
--   inputs, Location/Response that of responses, Location/Block the rendering.
-- - Capture (di_capture.py): what is captured; Capture/Response parses a response.
-- - Region (di_region.py, di_constants.py): the region policy and the log group.
-- - Errors (di_error_translation.py): exceptions as texts.
-- - Gateway (di_gateway.py): the allowlist, the dispatch and the failures of the client. The client
--   is a parameter: six functions from keyword arguments to a reply.
-- - Operation (di_result.py): an operation is an answer, an exception that it lets pass, or a request
--   with what follows the reply. Operation/Run runs one against a client and keeps the requests
--   sent, Operation/Late with the client that is built at the first request.
-- - Crud (di_crud_tools.py): Crud/Create, Crud/Queries and Crud/Removal are the operations;
--   Crud/Rendering (di_crud_rendering.py, di_formatting.py) their texts.
-- - Status/Assessment (di_status_assessment.py): the order and the windows of the status queries.
--   Status/History and Status/Consolidated (di_status_tools.py) are the two operations, with
--   Status/Timestamp for the times; Status/Rendering (di_status_rendering.py) has their texts.
--   `datetime.fromisoformat` is a parameter.
-- - Json: Python's `json` as the scripts use it. Json/Write is `json.dumps` with an indent of two,
--   Json/Read `json.loads` as a machine that reads characters, and Json/RoundTrip puts them together.
--   How a float prints is a parameter; the limits of Python on digits and nesting are left out.
-- - Snapshot/Escape, Snapshot/Preview and Snapshot/Fields (di_snapshot_parsing.py): escaping, the
--   preview of a captured value, the summary of a snapshot. Snapshot/Filters, Snapshot/Limits,
--   Snapshot/Search and Snapshot/Tools (di_snapshot_tools.py): the shared filter, the limit, the two
--   operations up to the query that they send, and as a whole. Snapshot/Query
--   (di_snapshot_queries.py): the polling loop. Snapshot/Rendering (di_snapshot_rendering.py): the
--   texts. The service and the clock are parameters.
-- - Entry (di_instrumentation.py, di_snapshots.py): what the two entry scripts share, with
--   Entry/Contract for the signatures and the printed contract, Entry/Output for `_write_out`, and
--   Entry/Instrumentation and Entry/Snapshots for the scripts. The tools are a parameter;
--   Entry/Snapshots/Wired puts the two snapshot operations there.
-- - Clients (di_session.py, di_logs_client.py, di_app_signals_client.py): the clients that are built
--   late and kept. boto3 is a parameter.
-- - Uploads (.pi/skills/processing-s3-uploads-with-step-functions/scripts/lambda_function.py and
--   fargate_processor.py): the guards of two scripts that download an object, and their files.
-- - Examples: the theorems at concrete inputs.
--
-- The polling loop runs on fuel: one round for each second of the timeout and one for the last test.
-- That is enough when a sleep of one second takes at least a second and the clock is not set back.
-- Grouping the digits of a number by threes has as many rounds as the number, more than its groups.
-- All other recursions are on the structure of their data.
--
-- Responses have the shape that the API documents where a rendering goes into them: lists of dicts,
-- and lists of texts for names. The answer to a batch deletion has any shape. Where a value of another
-- type would raise, the model either says so (`none`, or an `Op` that raises) or the file's comment
-- names the assumption. The limit of a search is a Python value of any type; the bound on the count
-- of digits that `int` reads is left out.
--
-- Line numbers that stand for one number, such as 1 and 01, are sorted in the order of a Python set;
-- the model takes the order of the dict. Digits are those of Unicode 14.
--
-- Not modelled: argparse, whose result is an argument of the entry scripts, and the words of its
-- messages and of Python's exceptions; boto3, botocore and S3, which are parameters; the sample
-- handler of the aws-serverless skill, which is decorators of a library. The other skills are
-- documents, and KiroInfra is infrastructure in another language.
pub mod Base
pub mod Decimals
pub mod Value
pub mod Validation
pub mod Location
pub mod Capture
pub mod Region
pub mod Clients
pub mod Errors
pub mod Gateway
pub mod Operation
pub mod Crud
pub mod Status
pub mod Json
pub mod Snapshot
pub mod Entry
pub mod Uploads
pub mod Examples
