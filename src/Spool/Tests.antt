-- ===== src/Spool/Tests.antt =====
-- Runs of the spool, and its theorems at concrete files.
use printer_nanny.Common.{
  ℕ, ◌≡◌, refl, true, false, some, List, [], ◌∷◌, ◌++◌, length, arith, ltb, ◌⊎◌,
}
use printer_nanny.Spool.{
  Line, reading, torn, blank, Faults, readings_of, lines_of, read_all, rewrite, overflow, append,
  send_batches, drain,
}
use printer_nanny.Spool.Append.{IsWorking, stored}
use printer_nanny.Spool.Drain.{drain_loses_nothing, drain_completes}

abbrev working : Faults
working = record { readable = true; folder_made = true; removable = true; writable = true }

abbrev unreadable : Faults
unreadable = record working { readable = false }

abbrev full_disk : Faults
full_disk = record working { writable = false }

-- A torn last line, as after a kill.
abbrev lines : List (Line ℕ)
lines = reading 1 ∷ blank ∷ reading 2 ∷ reading 3 ∷ torn ∷ []

append-run : append 4 working (some lines) (8 ∷ 9 ∷ []) ≡ (some (lines_of (2 ∷ 3 ∷ 8 ∷ 9 ∷ [])), 1)
unfolding append read_all readings_of overflow rewrite
append-run = refl

-- Central takes two batches of one and then goes away.
drain-run : drain working (λ k. ltb k 2) 1 (some lines) ≡ (some (lines_of (3 ∷ [])), 2, 1 ∷ 2 ∷ [])
unfolding drain send_batches read_all readings_of rewrite
drain-run = refl

drain_loses_nothing_example :
    let (file', sent, acked) = drain working (λ k. ltb k 2) 1 (some lines) in
    (sent ≡ length acked)
    × (((acked ++ stored file' ≡ stored (some lines)) ⊎ (file' ≡ some lines))
        × (IsWorking working → acked ++ stored file' ≡ stored (some lines)))
drain_loses_nothing_example = drain_loses_nothing working (λ k. ltb k 2) 1 (some lines) refl

drain_completes_example :
    let (file', sent, acked) = drain working (λ k. true) 2 (some lines) in
    (stored file' ≡ []) × (acked ≡ stored (some lines)) × (sent ≡ length (stored (some lines)))
drain_completes_example =
    drain_completes working (λ k. true) 2 (some lines) (refl, refl, refl, refl) (λ i. refl)
      (omega arith)
