-- ===== src/Uploads.antt =====
-- lambda_function.py and fargate_processor.py
-- (.pi/skills/processing-s3-uploads-with-step-functions/scripts): which object of S3 an event asks
-- for, and what the scripts leave on the disk. S3 is a parameter, as are the comparison of a float
-- with the limit on the size and the paths at which a file can be removed. What is printed for the log is left out.
pub mod Requests
pub mod Disks
use kiro_usage_pipeline.Base.{
  ℕ, ◌*◌, Bool, true, false, ◌&&◌, ◌||◌, not, Option, none, some, [], ◌∷◌, ◌++◌, Text, lit, ltb,
  ◌==◌, nat_eq, text_eq, contains, has_substring, length, pos, negsuc, ◌>>=◌, if◌then◌else◌,
}
use kiro_usage_pipeline.Value.{
  Value, null, bool, int, float, str, time, list, dict, Fields, end, truthy, as_dict, Items, nil,
  cons,
}
use kiro_usage_pipeline.Value.Dict.{get_or, get_or_null, of_entries}
use kiro_usage_pipeline.Json.Read.{loads}

-- What the guards make of an event: its object, an error with a text, or another exception.
pub data Guarded (A : Type 0) : Type 0 where
  accepted : A → Guarded A
  invalid : Text → Guarded A
  raises : Guarded A

pub record Upload : Type 0 where
  pub bucket : Value
  pub key : Text

-- The bucket and the object of the event's detail; `none` is an `AttributeError`.
unfoldable pub parts : Value → Option (Fields × Fields)
parts event = do
  e ← as_dict event
  detail ← as_dict (get_or (lit "detail") (dict end) e)
  bucket ← as_dict (get_or (lit "bucket") (dict end) detail)
  object ← as_dict (get_or (lit "object") (dict end) detail)
  some (bucket, object)

abbrev pub bucket_name : Fields × Fields → Value
bucket_name p = get_or_null (lit "name") p.0

abbrev pub key_of : Fields × Fields → Value
key_of p = get_or_null (lit "key") p.1

abbrev pub size_of : Fields × Fields → Value
size_of p = get_or (lit "size") (int (pos 0)) p.1

abbrev pub max_key_length : ℕ
max_key_length = 1024

abbrev pub max_size : ℕ
max_size = 512 * 1024 * 1024

abbrev pub invalid_path : {A : Type 0} → Guarded A
invalid_path = invalid (lit "Invalid S3 path")

-- fargate_processor.py
abbrev pub with_task_key : Value → Value → Guarded Upload
with_task_key bucket (str key) =
    if has_substring key (lit "/..") || ltb max_key_length (length key)
    then invalid (lit "Error: Invalid S3 key")
    else accepted (record { bucket = bucket; key = key })
with_task_key bucket _ = invalid (lit "Error: Invalid S3 key")

abbrev pub checked_task : Option (Fields × Fields) → Guarded Upload
checked_task none = raises
checked_task (some p) =
    if truthy (bucket_name p) && truthy (key_of p)
    then with_task_key (bucket_name p) (key_of p)
    else invalid (lit "Error: No bucket or key in event")

unfoldable pub task : Value → Guarded Upload
task event = checked_task (parts event)

-- lambda_function.py
module _ (float_exceeds : Text → Bool) where
  -- `size > 512 * 1024 * 1024`, where `none` is a `TypeError`.
  unfoldable pub is_over : Value → Option Bool
  is_over (bool _) = some false
  is_over (int (pos n)) = some (ltb max_size n)
  is_over (int (negsuc _)) = some false
  is_over (float r) = some (float_exceeds r)
  is_over _ = none

  abbrev pub with_size : Value → Text → Value → Option Bool → Guarded (Upload × Value)
  with_size bucket key size none = raises
  with_size bucket key size (some true) = invalid (lit "File too large for Lambda processing")
  with_size bucket key size (some false) = accepted (record { bucket = bucket; key = key }, size)

  abbrev pub with_key : Value → Value → Value → Guarded (Upload × Value)
  with_key bucket size (str key) =
      if has_substring key (lit "/..")
      then invalid_path
      else if ltb max_key_length (length key)
      then invalid (lit "S3 key exceeds maximum length")
      else with_size bucket key size (is_over size)
  with_key bucket size _ = invalid_path

  abbrev pub checked_event : Option (Fields × Fields) → Guarded (Upload × Value)
  checked_event none = raises
  checked_event (some p) =
      if truthy (bucket_name p) && truthy (key_of p)
      then with_key (bucket_name p) (size_of p) (key_of p)
      else invalid_path

  unfoldable pub request : Value → Guarded (Upload × Value)
  request event = checked_event (parts event)

-- `os.path.basename`
unfoldable pub basename : Text → Text
unfolding nat_eq
basename [] = []
basename (c ∷ s) =
    let rest = basename s in if contains s b'/' then rest else if c == b'/' then s else c ∷ s

unfoldable pub local_path : Text → Text
local_path key = lit "/tmp/" ++ basename key

-- The sizes of the files on the disk.
abbrev pub Disk : Type 0
Disk = Text → Option ℕ

abbrev pub set_file : Text → Option ℕ → Disk → Disk
set_file path size disk p = if p == path then size else disk p

-- What a download leaves at its path, and whether it raised.
pub record Download : Type 0 where
  pub left : Option ℕ
  pub raised : Bool

-- `download_file`, with what is at the path before.
abbrev pub S3 : Type 0
S3 = Upload → Text → Option ℕ → Download

-- The size of what was downloaded; `none` is an exception, of the download or of `getsize`.
abbrev pub downloaded_size : Download → Option ℕ
downloaded_size d = if d.raised then none else d.left

abbrev pub metadata : Upload → Value → ℕ → Fields
metadata u size on_disk = of_entries (
    (lit "bucket", u.bucket)
    ∷ (lit "key", str u.key)
    ∷ (lit "size_bytes", size)
    ∷ (lit "local_path", str (local_path u.key))
    ∷ (lit "file_size_on_disk", int (pos on_disk))
    ∷ [])

pub data Handled : Type 0 where
  returned : Fields → Handled
  value_error : Text → Handled
  other_error : Handled

abbrev pub response : Upload → Value → Option ℕ → Handled
response u size none = other_error
response u size (some on_disk) = returned (
    of_entries
      ((lit "statusCode", int (pos 200)) ∷ (lit "body", dict (metadata u size on_disk)) ∷ []))

-- What `os.remove` leaves of a file: an `OSError` is swallowed, and the file stays.
abbrev pub after_remove : Bool → Option ℕ → Option ℕ
after_remove true left = none
after_remove false left = left

-- `removes` tells the paths at which `os.remove` works.
module _ (s3 : S3) (removes : Text → Bool) where
  -- The file is removed on every way out.
  abbrev pub handled : Guarded (Upload × Value) → Disk → Handled × Disk
  handled (accepted (u, size)) disk =
      let path = local_path u.key in
      let d = s3 u path (disk path) in
      (
        response u size (downloaded_size d),
        set_file path (after_remove (removes path) d.left) (set_file path d.left disk),
      )
  handled (invalid message) disk = (value_error message, disk)
  handled raises disk = (other_error, disk)

  unfoldable pub lambda_handler : (Text → Bool) → Value → Disk → Handled × Disk
  lambda_handler float_exceeds event disk = handled (request float_exceeds event) disk

module _ (s3 : S3) where
  abbrev pub exit_of : Option ℕ → ℕ
  exit_of none = 1
  exit_of (some _) = 0

  -- The exit code of fargate_processor.py, where an exception that is let pass is 1.
  abbrev pub processed : Guarded Upload → Disk → ℕ × Disk
  processed (accepted u) disk =
      let path = local_path u.key in
      let d = s3 u path (disk path) in (exit_of (downloaded_size d), set_file path d.left disk)
  processed (invalid _) disk = (1, disk)
  processed raises disk = (1, disk)

  abbrev pub task_event : Option Text → Text
  task_event none = lit "{}"
  task_event (some s) = s

  abbrev pub checked_read : Option Value → Guarded Upload
  checked_read none = raises
  checked_read (some event) = task event

  -- `TASK_EVENT` is the environment's.
  unfoldable pub fargate_main : (Text → Text) → Option Text → Disk → ℕ × Disk
  fargate_main float_repr variable disk =
      processed (checked_read (loads float_repr (task_event variable))) disk
