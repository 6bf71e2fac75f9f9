-- ===== src/Snapshot/Fields/Contents.antt =====
-- Which lines a summary lists, and when there is none.
use kiro_usage_pipeline.Base.{
  Bool, true, false, ◌&&◌, ◌||◌, not, Option, none, some, List, [], ◌∷◌, ◌++◌, Text, lit, ◌==◌,
  nat_eq, text_eq, contains, ◌≡◌, refl, ◌∙◌, ap, arith,
}
use kiro_usage_pipeline.Value.{
  Value, null, bool, int, float, str, time, list, dict, Fields, end, field, is_none,
}
use kiro_usage_pipeline.Value.Dict.{get, get_or_null, get_fields, insert, insert_if, keys}
use kiro_usage_pipeline.Snapshot.Fields.{
  distinct, Lines, no_lines, is_full, add_line, collect_lines, line_numbers, lines_of, snapshot_of,
  texts, summarised, parse_snapshot_fields,
}
use kiro_usage_pipeline.Snapshot.Fields.Ordering.{
  IsOrdered, IsDistinct, IsSortedOf, sorted_numbers-IsSortedOf,
}

contains-append :
    (xs ys : List Text) (a : Text) → contains (xs ++ ys) a ≡ (contains xs a || contains ys a)
contains-append [] ys a = refl
contains-append (x ∷ xs) ys a = ground (arith, contains-append xs ys a)

keys-insert :
    (k a : Text) (v : Value) (d : Fields)
    → contains (keys (insert k v d)) a ≡ (a == k || contains (keys d) a)
unfolding keys insert text_eq
keys-insert k a v end = refl
keys-insert k a v (field j w d) = ground (arith, keys-insert k a v d)

keys-insert_if :
    (b : Bool) (k a : Text) (v : Value) (d : Fields)
    → contains (keys (insert_if b k v d)) a ≡ ((b && a == k) || contains (keys d) a)
unfolding insert_if
keys-insert_if true k a v d = keys-insert k a v d
keys-insert_if false k a v d = refl

or_swap : (x y z : Bool) → (x || (y || z)) ≡ ((y || x) || z)
or_swap true true z = refl
or_swap true false z = refl
or_swap false true z = refl
or_swap false false z = refl

or_regroup :
    (b c d f e w x y z : Bool)
    → (((b && e) || w) || ((c && e) || x) || ((d && e) || y) || ((f && e) || z))
      ≡ (((b || c || d || f) && e) || (w || x || y || z))
or_regroup b c d f true w x y z = ground arith
or_regroup b c d f false w x y z = ground arith

-- Something was captured on the line: locals, arguments, a return value or a throwable.
abbrev pub has_content : Value → Bool
has_content (dict capture) =
    is_full (get_fields (lit "locals") capture)
    || is_full (get_fields (lit "arguments") capture)
    || not (is_none (get_or_null (lit "return_value") capture))
    || is_full (get_fields (lit "throwable") capture)
has_content _ = false

-- The line has an entry with content.
abbrev pub has_line : Fields → Text → Bool
has_line end a = false
has_line (field ln v d) a = (has_content v && a == ln) || has_line d a

abbrev is_listed : Lines → Text → Bool
is_listed lines a =
    contains (keys lines.locals) a
    || contains (keys lines.arguments) a
    || contains (keys lines.return_values) a
    || contains (keys lines.throwables) a

add_line-listed :
    (ln a : Text) (capture : Fields) (lines : Lines)
    → is_listed (add_line ln capture lines) a
      ≡ ((has_content (dict capture) && a == ln) || is_listed lines a)
unfolding add_line
add_line-listed ln a capture lines =
    rw
      (
        keys-insert_if (is_full (get_fields (lit "locals") capture)) ln a _ lines.locals,
        keys-insert_if (is_full (get_fields (lit "arguments") capture)) ln a _ lines.arguments,
        keys-insert_if (not (is_none (get_or_null (lit "return_value") capture))) ln a _
            lines.return_values,
        keys-insert_if (is_full (get_fields (lit "throwable") capture)) ln a _ lines.throwables,
      )
      (or_regroup (is_full (get_fields (lit "locals") capture))
        (is_full (get_fields (lit "arguments") capture))
        (not (is_none (get_or_null (lit "return_value") capture)))
        (is_full (get_fields (lit "throwable") capture)) (a == ln) (contains (keys lines.locals) a)
        (contains (keys lines.arguments) a) (contains (keys lines.return_values) a)
        (contains (keys lines.throwables) a))

collect_lines-listed :
    (d : Fields) (a : Text) (lines : Lines)
    → is_listed (collect_lines d lines) a ≡ (has_line d a || is_listed lines a)
unfolding collect_lines
collect_lines-listed end a lines = refl
collect_lines-listed (field ln (dict capture) d) a lines =
    collect_lines-listed d a (add_line ln capture lines)
    ∙ ap (λ b. has_line d a || b) (add_line-listed ln a capture lines)
    ∙ or_swap (has_line d a) (has_content (dict capture) && a == ln) (is_listed lines a)
collect_lines-listed (field ln null d) a lines = collect_lines-listed d a lines
collect_lines-listed (field ln (bool _) d) a lines = collect_lines-listed d a lines
collect_lines-listed (field ln (int _) d) a lines = collect_lines-listed d a lines
collect_lines-listed (field ln (float _) d) a lines = collect_lines-listed d a lines
collect_lines-listed (field ln (str _) d) a lines = collect_lines-listed d a lines
collect_lines-listed (field ln (time _) d) a lines = collect_lines-listed d a lines
collect_lines-listed (field ln (list _) d) a lines = collect_lines-listed d a lines

-- The keys of the four dicts, in one list.
abbrev pub all_keys : Lines → List Text
all_keys lines =
    keys lines.locals
    ++ (keys lines.arguments ++ (keys lines.return_values ++ keys lines.throwables))

or_assoc : (w x y z : Bool) → (w || (x || (y || z))) ≡ (w || x || y || z)
or_assoc w x y z = ground arith

contains-all_keys : (lines : Lines) (a : Text) → contains (all_keys lines) a ≡ is_listed lines a
contains-all_keys lines a =
    rw
      (
        contains-append (keys lines.locals) _ a,
        contains-append (keys lines.arguments) _ a,
        contains-append (keys lines.return_values) _ a,
      )
      (or_assoc (contains (keys lines.locals) a) (contains (keys lines.arguments) a)
        (contains (keys lines.return_values) a) (contains (keys lines.throwables) a))

abbrev pub captured_lines : Fields → Fields
captured_lines snapshot_data =
    get_fields (lit "lines") (get_fields (lit "captures") (get_fields (lit "body") snapshot_data))

or_nothing : (b : Bool) → (b || false) ≡ b
or_nothing true = refl
or_nothing false = refl

pub contains-lines_of :
    (snapshot_data : Fields) (a : Text)
    → contains (all_keys (lines_of snapshot_data)) a ≡ has_line (captured_lines snapshot_data) a
unfolding keys
contains-lines_of snapshot_data a =
    contains-all_keys (lines_of snapshot_data) a
    ∙ collect_lines-listed (captured_lines snapshot_data) a no_lines
    ∙ or_nothing (has_line (captured_lines snapshot_data) a)

-- Numbers that list the lines with content, in order and without repetition.
abbrev pub ListsLines : Fields → List Text → Type 0
ListsLines snapshot_data ns =
    IsOrdered ns
    × IsDistinct ns
    × ((a : Text) → contains ns a ≡ has_line (captured_lines snapshot_data) a)

abbrev Numbers : Fields → Option (List Text) → Type 0
Numbers snapshot_data none = Unit
Numbers snapshot_data (some ns) = ListsLines snapshot_data ns

from_keys :
    (snapshot_data : Fields) (o : Option (List Text))
    → IsSortedOf (all_keys (lines_of snapshot_data)) o
    → Numbers snapshot_data o
from_keys snapshot_data none h = tt
from_keys snapshot_data (some ns) (ordered, distinct, same) =
    (ordered, distinct, λ a. same a ∙ contains-lines_of snapshot_data a)

line_numbers-Numbers :
    (snapshot_data : Fields) → Numbers snapshot_data (line_numbers (lines_of snapshot_data))
line_numbers-Numbers snapshot_data =
    from_keys snapshot_data (line_numbers (lines_of snapshot_data))
      (sorted_numbers-IsSortedOf (all_keys (lines_of snapshot_data)))

-- A summary with these line numbers.
abbrev pub Lists : Fields → Option Fields → Type 0
Lists snapshot_data none = Unit
Lists snapshot_data (some d) =
    (ns : List Text) × (get (lit "line_numbers") d ≡ some (list (texts ns)))
    × ListsLines snapshot_data ns

summarised-Lists :
    (result snapshot_data : Fields) (lines : Lines) (o : Option (List Text))
    → Numbers snapshot_data o
    → Lists snapshot_data (summarised result snapshot_data lines o)
unfolding get lit text_eq nat_eq
summarised-Lists result snapshot_data lines none h = tt
summarised-Lists result snapshot_data lines (some ns) h = (ns, refl, h)

-- The line numbers of a summary are those of the captured lines with locals, arguments, a return
-- value or a throwable, each once, and in the order of `_line_key`.
pub parse_snapshot_fields-Lists :
    (float_repr : Text → Text) (result : Fields)
    → Lists (snapshot_of float_repr result) (parse_snapshot_fields float_repr result)
unfolding parse_snapshot_fields
parse_snapshot_fields-Lists float_repr result =
    let snapshot_data = snapshot_of float_repr result in
    summarised-Lists result snapshot_data (lines_of snapshot_data)
      (line_numbers (lines_of snapshot_data)) (line_numbers-Numbers snapshot_data)
