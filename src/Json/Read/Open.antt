-- ===== src/Json/Read/Open.antt =====
-- What the values that are open in a JSON text expect next.
use kiro_usage_pipeline.Base.{Option, none, some, Text, nat_eq, text_eq}
use kiro_usage_pipeline.Value.{Value, str, list, dict, Items, nil, cons, Fields, end}
use kiro_usage_pipeline.Value.Dict.{insert}

-- The lists and dicts that are open: the items before, or the entries before and the key.
pub data Stack : Type 0 where
  bottom : Stack
  in_list : Items → Stack → Stack
  in_dict : Fields → Text → Stack → Stack

pub data Parser : Type 0 where
  value_due : Stack → Parser
  list_opened : Stack → Parser
  dict_opened : Stack → Parser
  key_due : Fields → Stack → Parser
  colon_due : Fields → Text → Stack → Parser
  item_done : Items → Stack → Parser
  entry_done : Fields → Stack → Parser
  finished : Value → Parser
  bad : Parser

abbrev pub snoc : Items → Value → Items
snoc nil v = cons v nil
snoc (cons w vs) v = cons w (snoc vs v)

abbrev pub complete : Value → Stack → Parser
complete v bottom = finished v
complete v (in_list vs st) = item_done (snoc vs v) st
complete v (in_dict d k st) = entry_done (insert k v d) st

-- Where a value may begin, what is open around it.
abbrev pub context : Parser → Option Stack
context (value_due st) = some st
context (list_opened st) = some (in_list nil st)
context _ = none

abbrev pub complete_at : Value → Option Stack → Parser
complete_at v none = bad
complete_at v (some st) = complete v st

abbrev pub on_value : Value → Parser → Parser
on_value v p = complete_at v (context p)

abbrev pub on_text : Text → Parser → Parser
on_text s (dict_opened st) = colon_due end s st
on_text s (key_due d st) = colon_due d s st
on_text s p = on_value (str s) p

abbrev pub list_at : Option Stack → Parser
list_at none = bad
list_at (some st) = list_opened st

abbrev pub dict_at : Option Stack → Parser
dict_at none = bad
dict_at (some st) = dict_opened st

abbrev pub open_list : Parser → Parser
open_list p = list_at (context p)

abbrev pub open_dict : Parser → Parser
open_dict p = dict_at (context p)

abbrev pub close_list : Parser → Parser
close_list (list_opened st) = complete (list nil) st
close_list (item_done vs st) = complete (list vs) st
close_list _ = bad

abbrev pub close_dict : Parser → Parser
close_dict (dict_opened st) = complete (dict end) st
close_dict (entry_done d st) = complete (dict d) st
close_dict _ = bad

abbrev pub on_colon : Parser → Parser
on_colon (colon_due d k st) = value_due (in_dict d k st)
on_colon _ = bad

abbrev pub on_comma : Parser → Parser
on_comma (item_done vs st) = value_due (in_list vs st)
on_comma (entry_done d st) = key_due d st
on_comma _ = bad
