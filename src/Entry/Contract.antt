-- ===== src/Entry/Contract.antt =====
-- The signatures of the operations, what a call by keyword arguments binds, and the contract that is
-- printed from them.
pub mod Binding
use kiro_usage_pipeline.Base.{
  ℕ, Bool, true, false, ◌&&◌, Option, none, some, List, [], ◌∷◌, ◌++◌, Text, lit, contains, map,
  ◌==◌, text_eq, if◌then◌else◌,
}
use kiro_usage_pipeline.Value.{Value, null, bool, dict, Fields, end, field, is_none}
use kiro_usage_pipeline.Value.Dict.{get, has, insert, keys}

-- A parameter and its default, `none` for one that has to be given.
pub record Param : Type 0 where
  pub name : Text
  pub default : Option Value

abbrev pub needed : Text → Param
needed name = record { name = name; default = none }

abbrev pub optional : Text → Value → Param
optional name v = record { name = name; default = some v }

abbrev pub names : List Param → List Text
names [] = []
names (p ∷ ps) = p.name ∷ names ps

abbrev pub is_needed : Option Value → Bool
is_needed none = true
is_needed (some _) = false

-- The keys of a payload are all parameters.
unfoldable pub all_known : List Param → Fields → Bool
all_known ps end = true
all_known ps (field k v d) = contains (names ps) k && all_known ps d

-- The parameters that have to be given are.
unfoldable pub all_given : List Param → Fields → Bool
all_given [] d = true
all_given (p ∷ ps) d = (if is_needed p.default then has p.name d else true) && all_given ps d

-- `fn(**payload)` binds; if it does not, it raises a `TypeError`.
unfoldable pub binds : List Param → Fields → Bool
binds ps d = all_known ps d && all_given ps d

-- `d.update(e)`
abbrev pub update : Fields → Fields → Fields
update d end = d
update d (field k v e) = update (insert k v d) e

abbrev pub with_default : Option Value → Fields → Fields
with_default none d = d
with_default (some v) d = if is_none v then d else insert (lit "default") v d

abbrev pub hint_of : Option Value → Fields
hint_of (some (dict d)) = d
hint_of _ = end

-- What the contract says of one argument.
unfoldable pub describe : Fields → Param → Fields
describe hints p =
    update (with_default p.default (field (lit "required") (bool (is_needed p.default)) end))
      (hint_of (get p.name hints))

unfoldable pub describe_all : Fields → List Param → Fields → Fields
describe_all hints [] d = d
describe_all hints (p ∷ ps) d = describe_all hints ps (insert p.name (dict (describe hints p)) d)

abbrev pub op_contract : Fields → List Param → Value
op_contract hints ps = dict (field (lit "args") (dict (describe_all hints ps end)) end)

module _ {Tool : Type 0} (hints : Fields) (signature : Tool → List Param) where
  -- The `ops` of the contract.
  unfoldable pub ops_contract : List (Text × Tool) → Fields → Fields
  ops_contract [] d = d
  ops_contract ((op, tool) ∷ ops) d =
      ops_contract ops (insert op (op_contract hints (signature tool)) d)
