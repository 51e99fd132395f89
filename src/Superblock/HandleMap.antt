-- ===== src/Superblock/HandleMap.antt =====
-- mountpoint-s3-fs/src/superblock/handles_map.rs: `InodeHandleMap`, the open readers and writers of inodes.
--
-- The outer map is a function of the inode number; the readers of an inode are an association list. Each
-- operation holds the lock for its whole run, so it is one step; the inode is locked by the caller.
pub mod Exclusive
mod Tests
use mountpoint_s.Prelude.{
  ℕ, List, [], ◌∷◌, Bool, true, false, ◌&&◌, ◌||◌, not, Option, none, some, ◌==◌, if◌then◌else◌,
}

pub data HandleState : Type 0 where
  active inactive : HandleState

pub record InodeHandles : Type 0 where
  pub readers : List (ℕ × HandleState)
  pub writer : Option (ℕ × HandleState)

pub data SetWriterError : Type 0 where
  active_readers active_writer : SetWriterError

abbrev pub HandleMap : Type 0
HandleMap = ℕ → Option InodeHandles

abbrev pub is_active : HandleState → Bool
is_active active = true
is_active inactive = false

-- The calls of `HashMap` on the readers.
abbrev pub insert : List (ℕ × HandleState) → ℕ → HandleState → List (ℕ × HandleState)
insert [] fh state = (fh, state) ∷ []
insert ((k, s) ∷ readers) fh state =
    if k == fh then (fh, state) ∷ readers else (k, s) ∷ insert readers fh state

abbrev pub remove : List (ℕ × HandleState) → ℕ → List (ℕ × HandleState)
remove [] fh = []
remove ((k, s) ∷ readers) fh = if k == fh then readers else (k, s) ∷ remove readers fh

abbrev pub contains : List (ℕ × HandleState) → ℕ → Bool
contains [] fh = false
contains ((k, s) ∷ readers) fh = k == fh || contains readers fh

abbrev pub any_active : List (ℕ × HandleState) → Bool
any_active [] = false
any_active ((k, s) ∷ readers) = is_active s || any_active readers

abbrev pub writer_active : Option (ℕ × HandleState) → Bool
writer_active none = false
writer_active (some (fh, s)) = is_active s

abbrev pub is_writer : Option (ℕ × HandleState) → ℕ → Bool
is_writer none fh = false
is_writer (some (w, s)) fh = fh == w

abbrev pub no_handles : InodeHandles
no_handles = record { readers = []; writer = none }

abbrev pub has_readers : List (ℕ × HandleState) → Bool
has_readers [] = false
has_readers (r ∷ readers) = true

abbrev pub has_writer : Option (ℕ × HandleState) → Bool
has_writer none = false
has_writer (some w) = true

-- `InodeHandles::is_empty`
abbrev pub is_empty : InodeHandles → Bool
is_empty e = not (has_readers e.readers) && not (has_writer e.writer)

abbrev pub or_default : Option InodeHandles → InodeHandles
or_default none = no_handles
or_default (some e) = e

-- The map with the entry of one inode replaced.
unfoldable pub update : HandleMap → ℕ → Option InodeHandles → HandleMap
update m ino e k = if k == ino then e else m k

-- The effect of each operation on the entry of its inode, and its result.
unfoldable pub try_add_reader : Option InodeHandles → ℕ → Option InodeHandles × Bool
try_add_reader entry fh =
    let e = or_default entry in
    if writer_active e.writer
    then (some e, false)
    else (some (record { readers = insert e.readers fh active; writer = none }), true)

unfoldable pub deactivate_reader : Option InodeHandles → ℕ → Option InodeHandles
deactivate_reader none fh = none
deactivate_reader (some e) fh =
    if contains e.readers fh
    then some (record e { readers = insert e.readers fh inactive })
    else some e

unfoldable pub try_activate_reader : Option InodeHandles → ℕ → Option InodeHandles × Bool
try_activate_reader none fh = (none, false)
try_activate_reader (some e) fh =
    if contains e.readers fh
    then (some (record e { readers = insert e.readers fh active }), true)
    else (some e, false)

-- An entry with nothing in it is taken out of the map.
abbrev pub or_removed : InodeHandles → Option InodeHandles
or_removed e = if is_empty e then none else some e

unfoldable pub remove_reader : Option InodeHandles → ℕ → Option InodeHandles
remove_reader none fh = none
remove_reader (some e) fh = or_removed (record e { readers = remove e.readers fh })

unfoldable pub set_writer : Option InodeHandles → ℕ → Option InodeHandles × Option SetWriterError
set_writer entry fh =
    let e = or_default entry in
    if any_active e.readers
    then (some e, some active_readers)
    else if writer_active e.writer
    then (some e, some active_writer)
    else (some (record { readers = []; writer = some (fh, active) }), none)

abbrev set_state : Option InodeHandles → ℕ → HandleState → Option InodeHandles × Bool
set_state none fh state = (none, false)
set_state (some e) fh state =
    if is_writer e.writer fh
    then (some (record e { writer = some (fh, state) }), true)
    else (some e, false)

unfoldable pub try_activate_writer : Option InodeHandles → ℕ → Option InodeHandles × Bool
try_activate_writer entry fh = set_state entry fh active

unfoldable pub try_deactivate_writer : Option InodeHandles → ℕ → Option InodeHandles × Bool
try_deactivate_writer entry fh = set_state entry fh inactive

unfoldable pub try_remove_writer : Option InodeHandles → ℕ → Option InodeHandles × Bool
try_remove_writer none fh = (none, false)
try_remove_writer (some e) fh =
    if is_writer e.writer fh
    then (or_removed (record e { writer = none }), true)
    else (some e, false)

unfoldable pub remove_inode : Option InodeHandles → Option InodeHandles × Bool
remove_inode none = (none, false)
remove_inode (some e) = (none, true)

-- The operations as data: each is for an inode and a file handle.
pub data Operation : Type 0 where
  add_reader pause_reader resume_reader drop_reader : Operation
  write resume_writer pause_writer drop_writer drop_inode : Operation

abbrev pub step : Operation → Option InodeHandles → ℕ → Option InodeHandles
step add_reader e fh = (try_add_reader e fh).0
step pause_reader e fh = deactivate_reader e fh
step resume_reader e fh = (try_activate_reader e fh).0
step drop_reader e fh = remove_reader e fh
step write e fh = (set_writer e fh).0
step resume_writer e fh = (try_activate_writer e fh).0
step pause_writer e fh = (try_deactivate_writer e fh).0
step drop_writer e fh = (try_remove_writer e fh).0
step drop_inode e fh = (remove_inode e).0

-- A run of operations, the first one first.
abbrev pub run : List (Operation × ℕ × ℕ) → HandleMap → HandleMap
run [] m = m
run ((o, ino, fh) ∷ os) m = run os (update m ino (step o (m ino) fh))
