-- ===== src/Uploads/Disks.antt =====
-- What the two scripts leave on the disk.
use kiro_usage_pipeline.Base.{
  ℕ, Bool, true, false, ◌⊎◌, inl, inr, Option, none, some, Text, text_eq, ◌≡◌, ◌≢◌, refl, ◌∙◌,
  arith,
}
use kiro_usage_pipeline.Value.{Value}
use kiro_usage_pipeline.Uploads.{
  Guarded, accepted, invalid, raises, Upload, request, local_path, Disk, set_file, S3,
  downloaded_size, after_remove, response, Handled, returned, value_error, other_error, handled,
  lambda_handler,
}

set_file-same : (path : Text) (size : Option ℕ) (disk : Disk) → set_file path size disk path ≡ size
unfolding text_eq
set_file-same path size disk = ground arith

set_file-other :
    (path p : Text) (size : Option ℕ) (disk : Disk) → p ≢ path → set_file path size disk p ≡ disk p
unfolding text_eq
set_file-other path p size disk h = ground arith

-- The answer is that of the download.
abbrev pub Answers : Handled → Option ℕ → Type 0
Answers (returned _) o = o ≢ none
Answers (value_error _) o = ⊥
Answers other_error o = o ≡ none

module _ (s3 : S3) (removes : Text → Bool) where
  -- Of what was accepted, no file is left where it can be removed, and what the download left where
  -- it cannot; the other files are as before, and there is an answer exactly where the download
  -- gave a file. For all else nothing has changed and there is no answer.
  abbrev pub IsClean : Guarded (Upload × Value) → Disk → Handled × Disk → Type 0
  IsClean (accepted (u, size)) disk (h, after) =
      (((removes (local_path u.key) ≡ true) × (after (local_path u.key) ≡ none))
        ⊎ ((removes (local_path u.key) ≡ false)
            × (after (local_path u.key)
                ≡ (s3 u (local_path u.key) (disk (local_path u.key))).left)))
      × ((p : Text) → p ≢ local_path u.key → after p ≡ disk p)
      × Answers h (downloaded_size (s3 u (local_path u.key) (disk (local_path u.key))))
  IsClean (invalid message) disk (h, after) =
      (h ≡ value_error message) × ((p : Text) → after p ≡ disk p)
  IsClean raises disk (h, after) = (h ≡ other_error) × ((p : Text) → after p ≡ disk p)

  response-Answers : (u : Upload) (size : Value) (o : Option ℕ) → Answers (response u size o) o
  response-Answers u size none = refl
  response-Answers u size (some n) = λ e. absurd cc

  removed :
      (path : Text) (b : Bool) (left : Option ℕ) (disk : Disk)
      → removes path ≡ b
      → ((removes path ≡ true) × (set_file path (after_remove b left) disk path ≡ none))
        ⊎ ((removes path ≡ false) × (set_file path (after_remove b left) disk path ≡ left))
  removed path true left disk e = inl (e, set_file-same path none disk)
  removed path false left disk e = inr (e, set_file-same path left disk)

  handled-IsClean :
      (r : Guarded (Upload × Value)) (disk : Disk) → IsClean r disk (handled s3 removes r disk)
  handled-IsClean (accepted (u, size)) disk =
      let path = local_path u.key in
      let d = s3 u path (disk path) in
      let final = after_remove (removes path) d.left in
      (
        removed path (removes path) d.left (set_file path d.left disk) refl,
        λ p h.
            set_file-other path p final (set_file path d.left disk) h
            ∙ set_file-other path p d.left disk h,
        response-Answers u size (downloaded_size d),
      )
  handled-IsClean (invalid message) disk = (refl, λ p. refl)
  handled-IsClean raises disk = (refl, λ p. refl)

  -- Whatever the download leaves and whether or not it raises, the function leaves no file of it
  -- where `os.remove` works, and what the download left where it fails; either way it touches no
  -- other file and answers exactly where the download gave a file. Where the event is refused, the
  -- disk is as before.
  pub lambda_handler-IsClean :
      (float_exceeds : Text → Bool) (event : Value) (disk : Disk)
      → IsClean
          (request float_exceeds event)
          disk
          (lambda_handler s3 removes float_exceeds event disk)
  unfolding lambda_handler
  lambda_handler-IsClean float_exceeds event disk =
      handled-IsClean (request float_exceeds event) disk
