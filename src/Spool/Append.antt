-- ===== src/Spool/Append.antt =====
-- `ReadingSpool.append`: what the file holds afterwards, and the count that it returns.
use printer_nanny.Common.{
  ℕ, ◌-◌, ◌≤◌, ◌≡◌, refl, ap, true, false, none, some, List, [], ◌∷◌, ◌++◌, length, length-append,
  length-drop, drop, arith, inl, inr, ◌⊎◌,
}
use mathlib.Core.List.{append-nil}
use printer_nanny.Spool.{
  Line, Faults, File, readings_of, read_all, rewrite, lines_of, overflow, append,
}

-- The disk refuses nothing.
abbrev pub IsWorking : Faults → Type 0
IsWorking io =
    (io.readable ≡ true) × (io.folder_made ≡ true) × (io.removable ≡ true) × (io.writable ≡ true)

module _ {A : Type 0} where
  readings_of-lines_of : (rs : List A) → readings_of (lines_of rs) ≡ rs
  unfolding readings_of lines_of
  readings_of-lines_of [] = refl
  readings_of-lines_of (r ∷ rs) = ap (λ xs. r ∷ xs) (readings_of-lines_of rs)

  -- The readings that lie in the file, as a call that can read it sees them.
  abbrev pub stored : File A → List A
  stored none = []
  stored (some lines) = readings_of lines

  -- A write replaces the contents or leaves the file as it was.
  pub rewrite_result :
      (io : Faults) (file : File A) (rs : List A)
      → (stored (rewrite io file rs).0 ≡ rs) ⊎ ((rewrite io file rs).0 ≡ file)
  unfolding rewrite
  rewrite_result io file [] = ground arith
  rewrite_result io file (r ∷ rs) = ground (arith, readings_of-lines_of (r ∷ rs))

  -- A write of some readings says truly whether it replaced the contents.
  rewrite_says :
      (io : Faults) (file : File A) (r : A) (rs : List A)
      → ((stored (rewrite io file (r ∷ rs)).0 ≡ r ∷ rs) × ((rewrite io file (r ∷ rs)).1 ≡ true))
        ⊎ (((rewrite io file (r ∷ rs)).0 ≡ file) × ((rewrite io file (r ∷ rs)).1 ≡ false))
  unfolding rewrite
  rewrite_says io file r rs = ground (arith, readings_of-lines_of (r ∷ rs))

  pub rewrite_working :
      (io : Faults) (file : File A) (rs : List A)
      → IsWorking io
      → (stored (rewrite io file rs).0 ≡ rs) × ((rewrite io file rs).1 ≡ true)
  unfolding rewrite
  rewrite_working io file [] h = ground arith
  rewrite_working io file (r ∷ rs) h = ground (arith, readings_of-lines_of (r ∷ rs))

  pub read_all-stored :
      (io : Faults) (file : File A) → io.readable ≡ true → read_all io file ≡ stored file
  unfolding read_all
  read_all-stored io none h = refl
  read_all-stored io (some lines) h = rw h

  overflow_lem : (cap : ℕ) (rs : List A) → overflow cap rs ≡ length rs - cap
  unfolding overflow
  overflow_lem cap rs = ground arith

  drop-overflow-le : (cap : ℕ) (rs : List A) → length (drop (overflow cap rs) rs) ≤ cap
  drop-overflow-le cap rs = rw (length-drop, overflow_lem) (omega arith)

  -- The spool never holds more than its cap, whatever the disk refuses.
  pub append_bounded :
      (cap : ℕ) (io : Faults) (file : File A) (batch : List A)
      → length (stored file) ≤ cap
      → length (stored (append cap io file batch).0) ≤ cap
  unfolding append
  append_bounded cap io file [] h = h
  append_bounded cap io file (r ∷ batch) h =
      let combined = read_all io file ++ (r ∷ batch) in
      elim (rewrite_result io file (drop (overflow cap combined) combined)) [
        | inl written ↦ rw written (drop-overflow-le cap combined)
        | inr same ↦ rw same h
      ]

  -- On a disk that works, an append keeps the newest: the file holds what it held and then the
  -- batch, less the oldest readings over the cap, whose number is what it returns.
  pub append_keeps_newest :
      (cap : ℕ) (io : Faults) (file : File A) (batch : List A)
      → IsWorking io
      → length (stored file) ≤ cap
      → let combined = stored file ++ batch in
        (stored (append cap io file batch).0 ≡ drop (length combined - cap) combined)
        × ((append cap io file batch).1 ≡ length combined - cap)
  unfolding append
  append_keeps_newest cap io file [] h le =
      let fits : length (stored file) - cap ≡ 0 = omega arith in rw (append-nil, fits) (refl, refl)
  append_keeps_newest cap io file (r ∷ batch) h le =
      let combined = stored file ++ (r ∷ batch) in
      let written = rewrite_working io file (drop (length combined - cap) combined) h in
      rw (read_all-stored io file h.0, overflow_lem, written.1) (written.0, refl)

  nonempty : (rs : List A) → 1 ≤ length rs → (r : A) × (rest : List A) × (rs ≡ r ∷ rest)
  nonempty [] h = elim h [ ]
  nonempty (r ∷ rs) h = (r, rs, refl)

  rewrite_says_nonempty :
      (io : Faults) (file : File A) (rs : List A)
      → 1 ≤ length rs
      → ((stored (rewrite io file rs).0 ≡ rs) × ((rewrite io file rs).1 ≡ true))
        ⊎ (((rewrite io file rs).0 ≡ file) × ((rewrite io file rs).1 ≡ false))
  rewrite_says_nonempty io file rs h =
      let (r, rest, e) = nonempty rs h in rw e (rewrite_says io file r rest)

  -- Whatever the disk refuses, an append is all or nothing, and says which: it stores what it could
  -- read and the batch, less the oldest over the cap, and returns their number; or it leaves the
  -- file alone and returns the whole batch's.
  pub append_all_or_nothing :
      (cap : ℕ) (io : Faults) (file : File A) (r : A) (batch : List A)
      → 1 ≤ cap
      → let combined = read_all io file ++ (r ∷ batch) in
        let (file', lost) = append cap io file (r ∷ batch) in
        ((stored file' ≡ drop (length combined - cap) combined) × (lost ≡ length combined - cap))
        ⊎ ((file' ≡ file) × (lost ≡ length (r ∷ batch)))
  unfolding append
  append_all_or_nothing cap io file r batch pos =
      let combined = read_all io file ++ (r ∷ batch) in
      let some_left : 1 ≤ length (drop (length combined - cap) combined) =
        rw length-drop (omega (arith, length-append (read_all io file) (r ∷ batch))) in
      rw overflow_lem
        (elim (rewrite_says_nonempty io file (drop (length combined - cap) combined) some_left) [
          | inl (written, said) ↦ rw said (inl (written, refl))
          | inr (same, said) ↦ rw said (inr (same, refl))
        ])

  read_all-unreadable : (io : Faults) (file : File A) → io.readable ≡ false → read_all io file ≡ []
  unfolding read_all
  read_all-unreadable io none h = refl
  read_all-unreadable io (some lines) h = rw h

  rewrite_writes :
      (io : Faults) (file : File A) (r : A) (rs : List A)
      → io.folder_made ≡ true
      → io.writable ≡ true
      → (stored (rewrite io file (r ∷ rs)).0 ≡ r ∷ rs) × ((rewrite io file (r ∷ rs)).1 ≡ true)
  unfolding rewrite
  rewrite_writes io file r rs h k = ground (arith, readings_of-lines_of (r ∷ rs))

  -- An append that cannot read the spool but can write it discards what the spool held: the file
  -- then holds the batch alone, and no loss is reported.
  pub unreadable_spool_is_lost :
      (cap : ℕ) (io : Faults) (lines : List (Line A)) (r : A) (batch : List A)
      → io.readable ≡ false
      → io.folder_made ≡ true
      → io.writable ≡ true
      → length (r ∷ batch) ≤ cap
      → (stored (append cap io (some lines) (r ∷ batch)).0 ≡ r ∷ batch)
        × ((append cap io (some lines) (r ∷ batch)).1 ≡ 0)
  unfolding append
  unreadable_spool_is_lost cap io lines r batch un made wr fits =
      let none_over : overflow cap (r ∷ batch) ≡ 0 = rw overflow_lem (omega arith) in
      let written = rewrite_writes io (some lines) r batch made wr in
      rw (read_all-unreadable io (some lines) un, none_over, written.1) (written.0, refl)
