-- ===== src/Spool/Drain.antt =====
-- `ReadingSpool.drain`: what central took, and what stays in the file.
use printer_nanny.Common.{
  ℕ, zero, suc, ◌+◌, ◌≤◌, ◌≡◌, ◌∙◌, sym, refl, ap, Bool, true, List, [], ◌∷◌, ◌++◌, length,
  length-append, length-drop, length-take, take, drop, arith, ltb, Bool-cases, if◌then◌else◌, inl,
  inr, ◌⊎◌, ltb→lt, lt→ltb,
}
use native.Mathlib.Nat.{zero-add, add-zero, suc-add}
use mathlib.Core.List.{append-nil, append_assoc}
use printer_nanny.Spool.{Faults, File, rewrite, send_batches, drain}
use printer_nanny.Spool.Append.{IsWorking, stored, rewrite_working, rewrite_result, read_all-stored}

module _ {A : Type 0} where
  drop-drop : (m n : ℕ) (xs : List A) → drop m (drop n xs) ≡ drop (n + m) xs
  drop-drop m zero xs = rw zero-add
  drop-drop zero (suc n) [] = rw add-zero
  drop-drop (suc m) (suc n) [] = rw suc-add
  drop-drop m (suc n) (x ∷ xs) = rw suc-add (drop-drop m n xs)

  take-then_rest : (n : ℕ) (xs : List A) → take n xs ++ drop (length (take n xs)) xs ≡ xs
  take-then_rest zero xs = refl
  take-then_rest (suc n) [] = refl
  take-then_rest (suc n) (x ∷ xs) = ap (λ ys. x ∷ ys) (take-then_rest n xs)

  -- One batch further.
  next_batch :
      (n sent : ℕ) (pending : List A)
      → take n (drop sent pending) ++ drop (sent + length (take n (drop sent pending))) pending
        ≡ drop sent pending
  next_batch n sent pending =
      rw (← drop-drop (length (take n (drop sent pending))) sent pending)
        (take-then_rest n (drop sent pending))

  batch-le :
      (n sent : ℕ) (pending : List A)
      → sent ≤ length pending
      → sent + length (take n (drop sent pending)) ≤ length pending
  batch-le n sent pending le = rw (length-take, length-drop) (omega arith)

  -- What the loop acknowledges is the stretch of the pending readings from where it began to the
  -- number that it returns.
  send_batches-acked :
      (fuel : ℕ) (accepts : ℕ → Bool) (n k : ℕ) (pending : List A) (sent : ℕ)
      → sent ≤ length pending
      → let (sent', acked) = send_batches fuel accepts n k pending sent in
        (acked ++ drop sent' pending ≡ drop sent pending)
        × (sent' ≡ sent + length acked)
        × (sent' ≤ length pending)
  unfolding send_batches
  send_batches-acked zero accepts n k pending sent le = (refl, omega arith, le)
  send_batches-acked (suc fuel) accepts n k pending sent le =
      elim (Bool-cases (ltb sent (length pending))) [
        | inr done ↦ rw (done, send_batches) (refl, omega arith, le)
        | inl more ↦ elim (Bool-cases (accepts k)) [
          | inr fails ↦ rw (more, fails, send_batches) (refl, omega arith, le)
          | inl taken ↦
              let batch = take n (drop sent pending) in
              let (parts, count, bound) =
                send_batches-acked fuel accepts n (suc k) pending (sent + length batch)
                  (batch-le n sent pending le) in
              rw (more, taken, send_batches)
                (
                  rw (append_assoc, parts) (next_batch n sent pending),
                  rw length-append (omega (arith, count)),
                  bound,
                )
        ]
      ]

  -- With a batch size of at least one, as much fuel as readings are left sends them all, if central
  -- accepts every batch.
  send_batches-all :
      (fuel : ℕ) (accepts : ℕ → Bool) (n k : ℕ) (pending : List A) (sent : ℕ)
      → ((i : ℕ) → accepts i ≡ true)
      → 1 ≤ n
      → sent ≤ length pending
      → length pending ≤ sent + fuel
      → (send_batches fuel accepts n k pending sent).0 ≡ length pending
  unfolding send_batches
  send_batches-all zero accepts n k pending sent ok pos le fuel_left = omega arith
  send_batches-all (suc fuel) accepts n k pending sent ok pos le fuel_left =
      elim (Bool-cases (ltb sent (length pending))) [
        | inr done ↦ rw (done, send_batches) (ground arith)
        | inl more ↦
            let batch = take n (drop sent pending) in
            let grows : 1 ≤ length batch =
              rw (length-take, length-drop) (omega (arith, ltb→lt sent (length pending) more)) in
            rw (more, ok k, send_batches)
              (send_batches-all fuel accepts n (suc k) pending (sent + length batch) ok pos
                (batch-le n sent pending le) (omega arith))
      ]

  abbrev file_after : Faults → File A → List A → ℕ → File A
  file_after io file pending sent =
      if ltb 0 sent then (rewrite io file (drop sent pending)).0 else file

  -- The `finally` block, after some of what the file holds was acknowledged.
  file_after_lem :
      (io : Faults) (file : File A) (sent : ℕ) (acked : List A)
      → acked ++ drop sent (stored file) ≡ stored file
      → ((acked ++ stored (file_after io file (stored file) sent) ≡ stored file)
          ⊎ (file_after io file (stored file) sent ≡ file))
        × (IsWorking io → acked ++ stored (file_after io file (stored file) sent) ≡ stored file)
  file_after_lem io file zero acked parts = (inr refl, λ works. parts)
  file_after_lem io file (suc sent) acked parts =
      let positive : ltb 0 (suc sent) ≡ true = lt→ltb 0 (suc sent) (omega arith) in
      (
        elim (rewrite_result io file (drop (suc sent) (stored file))) [
          | inl written ↦ inl (rw (positive, written) parts)
          | inr same ↦ inr (rw (positive, same))
        ],
        λ works.
            rw (positive, (rewrite_working io file (drop (suc sent) (stored file)) works).0) parts,
      )

  -- A drain loses nothing: what central acknowledged, in order, and what is left in the file are
  -- together what the file held, as it held them. The count is that of what was acknowledged. Only
  -- where the disk fails may the file keep readings that were taken already.
  pub drain_loses_nothing :
      (io : Faults) (accepts : ℕ → Bool) (n : ℕ) (file : File A)
      → io.readable ≡ true
      → let (file', sent, acked) = drain io accepts n file in
        (sent ≡ length acked)
        × (((acked ++ stored file' ≡ stored file) ⊎ (file' ≡ file))
            × (IsWorking io → acked ++ stored file' ≡ stored file))
  unfolding drain
  drain_loses_nothing io accepts n file readable =
      let (parts, count, bound) =
        send_batches-acked (length (stored file)) accepts n 0 (stored file) 0 (omega arith) in
      let loop = send_batches (length (stored file)) accepts n 0 (stored file) 0 in
      rw (read_all-stored io file readable)
        (count ∙ zero-add (length loop.1), file_after_lem io file loop.0 loop.1 parts)

  drain-total :
      (io : Faults) (accepts : ℕ → Bool) (n : ℕ) (file : File A)
      → io.readable ≡ true
      → ((i : ℕ) → accepts i ≡ true)
      → 1 ≤ n
      → (drain io accepts n file).1 ≡ length (stored file)
  unfolding drain
  drain-total io accepts n file readable ok pos = rw (read_all-stored io file readable) (
      send_batches-all (length (stored file)) accepts n 0 (stored file) 0 ok pos (omega arith)
        (omega arith))

  nil_of_length : (xs : List A) → length xs ≡ 0 → xs ≡ []
  nil_of_length [] h = refl
  nil_of_length (x ∷ xs) h = absurd (omega arith)

  -- While central accepts every batch, a drain of a working spool ends with nothing left.
  pub drain_completes :
      (io : Faults) (accepts : ℕ → Bool) (n : ℕ) (file : File A)
      → IsWorking io
      → ((i : ℕ) → accepts i ≡ true)
      → 1 ≤ n
      → let (file', sent, acked) = drain io accepts n file in
        (stored file' ≡ []) × (acked ≡ stored file) × (sent ≡ length (stored file))
  drain_completes io accepts n file works ok pos =
      let (count, (_, whole)) = drain_loses_nothing io accepts n file works.0 in
      let (file', sent, acked) = drain io accepts n file in
      let total = drain-total io accepts n file works.0 ok pos in
      let empty : stored file' ≡ [] = nil_of_length (stored file') (
        omega (arith, ap length (whole works), length-append acked (stored file'), count, total)) in
      (empty, sym (append-nil acked) ∙ (rw empty at (whole works)), total)
