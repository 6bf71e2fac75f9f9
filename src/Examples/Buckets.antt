-- ===== src/Examples/Buckets.antt =====
-- The theorems on the upload scripts at concrete inputs.
use kiro_usage_pipeline.Base.{
  Bool, true, false, not, none, some, Text, ◌==◌, ◌≡◌, lit, pos, nat_eq, text_eq,
}
use kiro_usage_pipeline.Value.{Value, int, str, dict, end, field}
use kiro_usage_pipeline.Uploads.{request, task, parts, S3, lambda_handler}
use kiro_usage_pipeline.Uploads.Requests.{
  upload, upload_of_request, limited, oversize, request-task, IsConfined, task-IsConfined,
}
use kiro_usage_pipeline.Uploads.Disks.{IsClean, lambda_handler-IsClean}

-- An object in a folder of a bucket.
abbrev arrived : Value
arrived = dict (
    field (lit "detail")
      (dict (
        field (lit "bucket") (dict (field (lit "name") (str (lit "logs")) end)) (
          field (lit "object")
            (dict (
              field (lit "key") (str (lit "2025/02/a.csv"))
                (field (lit "size") (int (pos 12)) end)))
            end)))
      end)

-- A store whose downloads break off and leave a part behind.
abbrev broken : S3
broken u path before = record { left = some 4; raised = true }

request-task_example :
    upload_of_request (request (λ r. false) arrived)
    ≡ limited (oversize (λ r. false) (parts arrived)) (upload (task arrived))
request-task_example = request-task (λ r. false) arrived

task-IsConfined_example : IsConfined (upload (task arrived))
task-IsConfined_example = task-IsConfined arrived

-- Files can be removed, but for one.
abbrev removable : Text → Bool
removable path = not (path == lit "/tmp/b.csv")

lambda_handler-IsClean_example :
    IsClean broken removable
      (request (λ r. false) arrived)
      (λ p. none)
      (lambda_handler broken removable (λ r. false) arrived (λ p. none))
lambda_handler-IsClean_example =
    lambda_handler-IsClean broken removable (λ r. false) arrived (λ p. none)
