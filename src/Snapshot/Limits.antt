-- ===== src/Snapshot/Limits.antt =====
-- The limit of a search (`limit` in di_snapshot_tools.py, .pi/skills/aws-observability/scripts) and
-- what `int` makes of it.
use kiro_usage_pipeline.Base.{Bool, true, false, Option, none, some, Text, ℤ, pos}
use kiro_usage_pipeline.Decimals.{int_of_text}

-- A Python value: a finite float is given by its whole part, and `unlike` is a value that is no
-- number and no text.
pub data Limit : Type 0 where
  whole : ℤ → Limit
  truth : Bool → Limit
  finite : ℤ → Limit
  infinite : Limit
  nan : Limit
  written : Text → Limit
  unlike : Limit

-- What `int` gives: a number, a `ValueError` or `TypeError`, or an `OverflowError`.
pub data Converted : Type 0 where
  converted : ℤ → Converted
  unconverted : Converted
  overflows : Converted

abbrev of_text : Option ℤ → Converted
of_text none = unconverted
of_text (some n) = converted n

unfoldable pub to_int : Limit → Converted
to_int (whole n) = converted n
to_int (truth true) = converted (pos 1)
to_int (truth false) = converted (pos 0)
to_int (finite n) = converted n
to_int infinite = overflows
to_int nan = unconverted
to_int (written s) = of_text (int_of_text s)
to_int unlike = unconverted
