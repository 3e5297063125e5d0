-- ===== src/Spool.antt =====
-- agent/printer_nanny_agent/spool.py: `ReadingSpool`, the agent's durable queue of readings. The
-- file is a list of lines; the operating system's refusals of one call are its `Faults`. JSON
-- encodes and decodes a reading faithfully, and a line that it cannot decode is `torn`.
pub mod Append
pub mod Drain
mod Tests
use printer_nanny.Common.{
  ℕ, zero, suc, ◌+◌, ◌-◌, max, Bool, true, false, not, Option, none, some, List, [], ◌∷◌, ◌++◌,
  length, take, drop, ltb, leb, if◌then◌else◌,
}

pub data Line (A : Type 0) : Type 0 where
  reading : A → Line A
  torn : Line A
  blank : Line A

-- What the disk lets one call do: read the file, make the folder, remove the file, replace it.
pub record Faults : Type 0 where
  pub readable : Bool
  pub folder_made : Bool
  pub removable : Bool
  pub writable : Bool

-- A missing file is `none`.
abbrev pub File : Type 0 → Type 0
File A = Option (List (Line A))

-- `max_readings` as the constructor keeps it.
abbrev pub cap_of : ℕ → ℕ
cap_of max_readings = max 1 max_readings

module _ {A : Type 0} where
  -- The lines that parse, in file order.
  pub readings_of : List (Line A) → List A
  readings_of [] = []
  readings_of (reading r ∷ lines) = r ∷ readings_of lines
  readings_of (torn ∷ lines) = readings_of lines
  readings_of (blank ∷ lines) = readings_of lines

  -- One line for each reading.
  pub lines_of : List A → List (Line A)
  lines_of [] = []
  lines_of (r ∷ rs) = reading r ∷ lines_of rs

  unfoldable pub read_all : Faults → File A → List A
  unfolding readings_of
  read_all io none = []
  read_all io (some lines) = if io.readable then readings_of lines else []

  -- The file after `_rewrite`, and whether it reports success. An empty spool removes the file.
  unfoldable pub rewrite : Faults → File A → List A → File A × Bool
  rewrite io file [] =
      if not io.folder_made
      then (file, false)
      else if io.removable
      then (none, true)
      else (file, true)
  rewrite io file (r ∷ readings) =
      if not io.folder_made
      then (file, false)
      else if io.writable
      then (some (lines_of (r ∷ readings)), true)
      else (file, false)

  -- How many of the oldest readings are dropped to keep the cap.
  unfoldable pub overflow : ℕ → List A → ℕ
  overflow cap combined = if ltb cap (length combined) then length combined - cap else 0

  -- The file after it, and the number of readings that did not make it in.
  unfoldable pub append : ℕ → Faults → File A → List A → File A × ℕ
  append cap io file [] = (file, 0)
  append cap io file (r ∷ batch) =
      let combined = read_all io file ++ (r ∷ batch) in
      let dropped = overflow cap combined in
      let (file', stored) = rewrite io file (drop dropped combined) in
      (file', if stored then dropped else length (r ∷ batch))

  -- The loop of `drain`: `accepts k` says whether the k-th call of `send` returns. The result is
  -- the number sent, and what was acknowledged, in order.
  unfoldable pub send_batches : ℕ → (ℕ → Bool) → ℕ → ℕ → List A → ℕ → ℕ × List A
  send_batches zero accepts batch_size k pending sent = (sent, [])
  send_batches (suc fuel) accepts batch_size k pending sent = elim (ltb sent (length pending)) [
    | false ↦ (sent, [])
    | true ↦ elim (accepts k) [
      | false ↦ (sent, [])
      | true ↦
          let batch = take batch_size (drop sent pending) in
          let (sent', later) =
            send_batches fuel accepts batch_size (suc k) pending (sent + length batch) in
          (sent', batch ++ later)
    ]
  ]

  -- The file after `drain`, the number that it counts as sent, and what central acknowledged. It
  -- raises where a send did; the `finally` block has run then too.
  unfoldable pub drain : Faults → (ℕ → Bool) → ℕ → File A → File A × ℕ × List A
  drain io accepts batch_size file =
      let pending = read_all io file in
      let (sent, acked) = send_batches (length pending) accepts batch_size 0 pending 0 in
      (if ltb 0 sent then (rewrite io file (drop sent pending)).0 else file, sent, acked)
