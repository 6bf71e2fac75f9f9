-- ===== src/Entry/Output.antt =====
-- `_write_out` of di_snapshots.py (.pi/skills/aws-observability/scripts), on the files as the operating
-- system keeps them: a path is free, a regular file with its mode, or a symbolic link. Links in the
-- folders before the last name, short writes and texts with no encoding are left out.
use mathlib.Core.Path.{subst}
use kiro_usage_pipeline.Base.{
  ℕ, Option, none, some, [], ◌++◌, Text, ◌==◌, text_eq, ◌≡◌, ◌≢◌, ◌⊎◌, inl, inr, refl, sym, arith,
  if◌then◌else◌,
}

-- The permission bits are a number, 0600 being 384.
pub data Node : Type 0 where
  missing : Node
  regular : ℕ → Text → Node
  link : Text → Node

abbrev pub Files : Type 0
Files = Text → Node

abbrev pub owner_only : ℕ
owner_only = 384

abbrev pub set_node : Text → Node → Files → Files
set_node path node fs p = if p == path then node else fs p

-- `os.open` with O_WRONLY, O_CREAT, O_TRUNC and O_NOFOLLOW; `none` is an `OSError`. A file that is
-- there keeps its mode, and a new one gets the mode less the bits of the umask: those that `masked`
-- leaves.
unfoldable pub open_file : (ℕ → ℕ) → Text → Node → Option Node
open_file masked path missing = some (regular (masked owner_only) [])
open_file masked path (regular mode _) = some (regular mode [])
open_file masked path (link _) = none

-- `os.fchmod` and `os.write` on the file that was opened.
abbrev pub chmod_node : ℕ → Node → Node
chmod_node mode (regular _ text) = regular mode text
chmod_node mode node = node

abbrev pub append_node : Text → Node → Node
append_node text (regular mode before) = regular mode (before ++ text)
append_node text node = node

-- The files after the file is opened, after its mode is set, and after the text is written.
pub record States : Type 0 where
  pub opened : Files
  pub restricted : Files
  pub complete : Files

abbrev pub states_from : Text → Text → Files → Option Node → Option States
states_from path text fs none = none
states_from path text fs (some node) =
    let private = chmod_node owner_only node in
    some (record {
      opened = set_node path node fs;
      restricted = set_node path private fs;
      complete = set_node path (append_node text private) fs;
    })

module _ (masked : ℕ → ℕ) where
  unfoldable pub write_states : Text → Text → Files → Option States
  write_states path text fs = states_from path text fs (open_file masked path (fs path))

  abbrev pub last_state : Option States → Option Files
  last_state none = none
  last_state (some s) = some s.complete

  unfoldable pub write_out : Text → Text → Files → Option Files
  write_out path text fs = last_state (write_states path text fs)

-- Nothing is in the file, or only its owner reads it.
abbrev pub IsPrivate : Node → Type 0
IsPrivate missing = Unit
IsPrivate (regular mode text) = (text ≡ []) ⊎ (mode ≡ owner_only)
IsPrivate (link _) = ⊥

abbrev pub IsWritten : Text → Text → Files → Option States → Type 0
IsWritten path text fs none = (target : Text) × (fs path ≡ link target)
IsWritten path text fs (some s) =
    IsPrivate (s.opened path)
    × IsPrivate (s.restricted path)
    × (s.complete path ≡ regular owner_only text)
    × ((p : Text) → p ≢ path → s.complete p ≡ fs p)

set_node-same : (path : Text) (node : Node) (fs : Files) → set_node path node fs path ≡ node
unfolding text_eq
set_node-same path node fs = ground arith

set_node-other :
    (path p : Text) (node : Node) (fs : Files) → p ≢ path → set_node path node fs p ≡ fs p
unfolding text_eq
set_node-other path p node fs h = ground arith

opened_states :
    (path text : Text) (fs : Files) (mode : ℕ)
    → IsWritten path text fs (states_from path text fs (some (regular mode [])))
opened_states path text fs mode = (
  subst IsPrivate (sym (set_node-same path (regular mode []) fs)) (inl refl),
  subst IsPrivate (sym (set_node-same path (regular owner_only []) fs)) (inr refl),
  set_node-same path (regular owner_only text) fs,
  λ p h. set_node-other path p (regular owner_only text) fs h,
)

node_states :
    (masked : ℕ → ℕ) (path text : Text) (fs : Files) (node : Node)
    → fs path ≡ node
    → IsWritten path text fs (states_from path text fs (open_file masked path node))
unfolding open_file
node_states masked path text fs missing e = opened_states path text fs (masked owner_only)
node_states masked path text fs (regular mode _) e = opened_states path text fs mode
node_states masked path text fs (link target) e = (target, e)

-- Writing a result fails exactly when the path is a link, which is not followed. Else the file holds
-- the text and only its owner has access, at no moment was any of the text in a file with another
-- mode, and no other path has changed.
pub write_states-IsWritten :
    (masked : ℕ → ℕ) (path text : Text) (fs : Files)
    → IsWritten path text fs (write_states masked path text fs)
unfolding write_states
write_states-IsWritten masked path text fs = node_states masked path text fs (fs path) refl
