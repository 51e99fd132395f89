-- ===== src/Superblock/HandleMap/Exclusive.antt =====
-- No inode has a reader beside a writer, and no entry stays in the map without a handle.
use mathlib.Core.Bool.{true≢false, false≢true}
use mountpoint_s.Prelude.{
  ℕ, sym, ap, ◌∙◌, ◌≡◌, ◌⊎◌, ◌||◌, inl, inr, refl, List, [], ◌∷◌, true, false, Option, none, some,
  arith, ◌==◌, Bool-cases,
}
use mountpoint_s.Superblock.HandleMap.{
  HandleState, is_active, active, inactive, InodeHandles, insert, remove, update, Operation, run,
  step, HandleMap, try_add_reader, deactivate_reader, try_activate_reader, remove_reader,
  set_writer, try_activate_writer, try_deactivate_writer, try_remove_writer, writer_active,
  any_active, contains, has_readers, has_writer, or_removed, remove_inode, SetWriterError,
}

-- An inode has readers and no writer, or a writer and no readers, or it is not in the map.
abbrev pub IsExclusive : Option InodeHandles → Type 0
IsExclusive none = Unit
IsExclusive (some e) =
    ((has_readers e.readers ≡ true) × (has_writer e.writer ≡ false))
    ⊎ ((has_readers e.readers ≡ false) × (has_writer e.writer ≡ true))

has_readers-insert :
    (rs : List (ℕ × HandleState)) (fh : ℕ) (s : HandleState) → has_readers (insert rs fh s) ≡ true
has_readers-insert [] fh s = refl
has_readers-insert ((k, t) ∷ rs) fh s = ground arith

has_readers-contains :
    (rs : List (ℕ × HandleState)) (fh : ℕ) → contains rs fh ≡ true → has_readers rs ≡ true
has_readers-contains [] fh h = h
has_readers-contains (r ∷ rs) fh h = refl

or_removed-IsExclusive :
    (e : InodeHandles)
    → (has_readers e.readers ≡ false) ⊎ (has_writer e.writer ≡ false)
    → IsExclusive (or_removed e)
or_removed-IsExclusive e h = ground arith

has_readers-remove :
    (rs : List (ℕ × HandleState)) (fh : ℕ)
    → has_readers rs ≡ false
    → has_readers (remove rs fh) ≡ false
has_readers-remove [] fh h = refl
has_readers-remove (r ∷ rs) fh h = ground arith

step-IsExclusive :
    (o : Operation) (e : Option InodeHandles) (fh : ℕ) → IsExclusive e → IsExclusive (step o e fh)
unfolding try_add_reader deactivate_reader try_activate_reader remove_reader set_writer
    try_activate_writer try_deactivate_writer try_remove_writer remove_inode
step-IsExclusive Operation.add_reader none fh v = ground arith
step-IsExclusive Operation.add_reader (some e) fh v =
    ground (arith, has_readers-insert e.readers fh active)
step-IsExclusive Operation.pause_reader none fh v = v
step-IsExclusive Operation.pause_reader (some e) fh v =
    ground (arith, has_readers-insert e.readers fh inactive, has_readers-contains e.readers fh)
step-IsExclusive Operation.resume_reader none fh v = v
step-IsExclusive Operation.resume_reader (some e) fh v =
    ground (arith, has_readers-insert e.readers fh active, has_readers-contains e.readers fh)
step-IsExclusive Operation.drop_reader none fh v = v
step-IsExclusive Operation.drop_reader (some e) fh v =
    or_removed-IsExclusive (record e { readers = remove e.readers fh })
      (ground (arith, has_readers-remove e.readers fh))
step-IsExclusive Operation.write none fh v = ground arith
step-IsExclusive Operation.write (some e) fh v = ground arith
step-IsExclusive Operation.resume_writer none fh v = v
step-IsExclusive Operation.resume_writer (some e) fh v = ground arith
step-IsExclusive Operation.pause_writer none fh v = v
step-IsExclusive Operation.pause_writer (some e) fh v = ground arith
step-IsExclusive Operation.drop_writer none fh v = v
step-IsExclusive Operation.drop_writer (some e) fh v = ground arith
step-IsExclusive Operation.drop_inode none fh v = v
step-IsExclusive Operation.drop_inode (some e) fh v = tt

update-IsExclusive :
    (m : HandleMap) (ino : ℕ) (e : Option InodeHandles)
    → ((k : ℕ) → IsExclusive (m k))
    → IsExclusive e
    → (k : ℕ) → IsExclusive (update m ino e k)
unfolding update
update-IsExclusive m ino e v w k = elim (Bool-cases (k == ino)) [
  | inl same ↦ rw same w
  | inr other ↦ rw other (v k)
]

-- Whatever operations are run, for whatever inodes and file handles, from the empty map: each inode that is
-- in the map has readers and no writer, or a writer and no readers.
pub run-IsExclusive :
    (os : List (Operation × ℕ × ℕ)) (ino : ℕ) → IsExclusive (run os (λ k. none) ino)
run-IsExclusive os ino = kept os (λ k. none) (λ k. tt) ino
  where
    kept :
        (os : List (Operation × ℕ × ℕ)) (m : HandleMap)
        → ((k : ℕ) → IsExclusive (m k))
        → (k : ℕ) → IsExclusive (run os m k)
    kept [] m v k = v k
    kept ((o, ino, fh) ∷ os) m v k =
        kept os (update m ino (step o (m ino) fh))
          (update-IsExclusive m ino (step o (m ino) fh) v (step-IsExclusive o (m ino) fh (v ino))) k

-- A reader of the list has a state.
abbrev Listed : List (ℕ × HandleState) → ℕ → HandleState → Type 0
Listed [] fh s = ⊥
Listed (r ∷ rs) fh s = (r ≡ (fh, s)) ⊎ Listed rs fh s

-- The inode has a reader in a state, or it has a writer in one.
abbrev Reads : Option InodeHandles → ℕ → HandleState → Type 0
Reads none fh s = ⊥
Reads (some e) fh s = Listed e.readers fh s

abbrev Writes : Option InodeHandles → ℕ → HandleState → Type 0
Writes none fh s = ⊥
Writes (some e) fh s = e.writer ≡ some (fh, s)

any_active-Listed :
    (rs : List (ℕ × HandleState)) → any_active rs ≡ true → (fh : ℕ) × Listed rs fh active
any_active-Listed [] h = absurd (false≢true h)
any_active-Listed ((k, active) ∷ rs) h = (k, inl refl)
any_active-Listed ((k, inactive) ∷ rs) h = let (fh, l) = any_active-Listed rs h in (fh, inr l)

Listed-any_active :
    (rs : List (ℕ × HandleState)) (fh : ℕ) → Listed rs fh active → any_active rs ≡ true
Listed-any_active [] fh l = absurd l
Listed-any_active ((k, s) ∷ rs) fh (inl e) = ap (λ t. is_active t.1 || any_active rs) e
Listed-any_active ((k, active) ∷ rs) fh (inr l) = refl
Listed-any_active ((k, inactive) ∷ rs) fh (inr l) = Listed-any_active rs fh l

writer_active-Writes :
    (w : Option (ℕ × HandleState)) → writer_active w ≡ true → (fh : ℕ) × (w ≡ some (fh, active))
writer_active-Writes none h = absurd (false≢true h)
writer_active-Writes (some (fh, active)) h = (fh, refl)
writer_active-Writes (some (fh, inactive)) h = absurd (false≢true h)

-- What a call of `set_writer` leaves, and what it answers.
abbrev pub Answered : Option InodeHandles → ℕ → Option InodeHandles × Option SetWriterError → Type 0
Answered e fh (e', none) =
    ((k : ℕ) → Reads e k active → ⊥)
    × ((k : ℕ) → Writes e k active → ⊥)
    × ((k : ℕ) (s : HandleState) → Reads e' k s → ⊥)
    × Writes e' fh active
    × ((k : ℕ) → try_add_reader e' k ≡ (e', false))
    × ((k : ℕ) → set_writer e' k ≡ (e', some SetWriterError.active_writer))
Answered e fh (e', some SetWriterError.active_readers) = (e' ≡ e) × (k : ℕ) × Reads e k active
Answered e fh (e', some SetWriterError.active_writer) =
    (e' ≡ e) × ((k : ℕ) → Reads e k active → ⊥) × (k : ℕ) × Writes e k active

-- For any inode, also one that is not in the map: a writer is let in exactly if no reader and no writer
-- of the inode is active. Then it is the only handle of the inode, it is active, and as long as the
-- entry stays like this no reader and no other writer is let in. If not, the entry is left as it was, and
-- the error names a kind of handle that is active: readers if there is an active one, else the writer.
pub set_writer_alone : (e : Option InodeHandles) (fh : ℕ) → Answered e fh (set_writer e fh)
unfolding set_writer try_add_reader
set_writer_alone none fh = (λ k r. r, λ k w. w, λ k s r. r, refl, λ k. refl, λ k. refl)
set_writer_alone (some e) fh = elim (Bool-cases (any_active e.readers)) [
  | inl reading ↦ let (k, l) = any_active-Listed e.readers reading in rw reading (refl, k, l)
  | inr idle ↦
      let no_reader : (k : ℕ) → Listed e.readers k active → ⊥ =
        λ k l. true≢false (sym (Listed-any_active e.readers k l) ∙ idle) in
      elim (Bool-cases (writer_active e.writer)) [
        | inl writing ↦
            let (k, w) = writer_active-Writes e.writer writing in
            rw (idle, writing) (refl, no_reader, k, w)
        | inr free ↦
            rw (idle, free)
              (
                no_reader,
                λ k w. true≢false (sym (ap writer_active w) ∙ free),
                λ k s r. r,
                refl,
                λ k. refl,
                λ k. refl,
              )
      ]
]
