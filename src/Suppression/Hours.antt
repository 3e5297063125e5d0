-- ===== src/Suppression/Hours.antt =====
-- When a recurring window is active, and when it ends.
use printer_nanny.Common.{
  ℕ, ◌+◌, ◌-◌, ◌*◌, ◌/◌, ◌%◌, ◌≤◌, ◌<◌, ◌≡◌, ◌≢◌, sym, ap, ◌∙◌, true, Option, none, some, arith,
  leb, if◌then◌else◌, Bool-cases, inl, inr, ◌⊎◌,
}
use printer_nanny.Suppression.{
  Window, Zone, weekday_allowed, local_end_to_utc, hours_end, quiet_hours_end, maintenance_end,
  minutes_per_day, active_end, stored_hours_end, window_end, SuppressionKind, Printer,
}

abbrev pub minute_of : ℕ → ℕ
minute_of local = (local % 86400) / 60

-- No transition of the zone lies between `now` and the end of the next day: local seconds that are
-- ahead are as many seconds of UTC ahead.
abbrev pub IsSteady : Zone → ℕ → Type 0
IsSteady z now = (k : ℕ) → k ≤ 172800 → z.utc (z.local now + k) ≡ now + k

-- A window that wraps past midnight is active at a minute before its end exactly when its weekday
-- mask admits the day before, and at a minute from its start on exactly when the mask admits today.
pub wrapped_mask :
    (w : Window) (start end now : ℕ) (z : Zone)
    → end ≤ start
    → (minute_of (z.local now) < end
        → ((hours_end w start end now z ≢ none → weekday_allowed w (z.local now / 86400 - 1) ≡ true)
            × (weekday_allowed w (z.local now / 86400 - 1) ≡ true
                → hours_end w start end now z ≢ none)))
      × (start ≤ minute_of (z.local now)
          → ((hours_end w start end now z ≢ none → weekday_allowed w (z.local now / 86400) ≡ true)
              × (weekday_allowed w (z.local now / 86400) ≡ true
                  → hours_end w start end now z ≢ none)))
unfolding hours_end
wrapped_mask w start end now z wraps = (
  λ early. (λ active. ground arith, λ allowed. ground arith),
  λ late. (λ active. ground arith, λ allowed. ground arith),
)

at_steady :
    (z : Zone) (now l : ℕ)
    → IsSteady z now
    → z.local now < l
    → l ≤ z.local now + 86400
    → (now < z.utc l) × (z.utc l ≤ now + 86400)
at_steady z now l steady low high =
    let k = l - z.local now in
    let at = steady k (omega arith) in
    let back : z.local now + k ≡ l = omega arith in
    let same : z.utc l ≡ now + k = ap z.utc (sym back) ∙ at in (omega arith, omega arith)

-- The wall clock's end of an active window is ahead of now's wall clock.
IsAhead : Zone → ℕ → ℕ → Type 0
IsAhead z now e = (l : ℕ) × (z.utc l ≡ e) × (z.local now < l) × (l ≤ z.local now + 86400)

end_local :
    (day m now e : ℕ) (z : Zone)
    → m ≤ 1440
    → z.local now < day * 86400 + m * 60
    → day * 86400 + m * 60 ≤ z.local now + 86400
    → local_end_to_utc day m z ≡ e
    → IsAhead z now e
unfolding local_end_to_utc IsAhead
end_local day m now e z hm low high h = elim (Bool-cases (leb minutes_per_day m)) [
  | inl t ↦
      ((day + 1) * 86400 + (m - minutes_per_day) * 60, ground arith, ground arith, ground arith)
  | inr f ↦ (day * 86400 + m * 60, ground arith, low, high)
]

hours_end-day :
    (w : Window) (start end now : ℕ) (z : Zone) (e : ℕ)
    → hours_end w start end now z ≡ some e
    → ((local_end_to_utc (z.local now / 86400) end z ≡ e) × (minute_of (z.local now) < end))
      ⊎ ((local_end_to_utc (z.local now / 86400 + 1) end z ≡ e)
          × (start ≤ minute_of (z.local now))
          × (end ≤ start))
unfolding hours_end
hours_end-day w start end now z e h = ground arith

hours_end-IsAhead :
    (w : Window) (start end now : ℕ) (z : Zone) (e : ℕ)
    → start < 1440
    → end ≤ 1440
    → hours_end w start end now z ≡ some e
    → IsAhead z now e
hours_end-IsAhead w start end now z e hs he h = elim (hours_end-day w start end now z e h) [
  | inl (at, m) ↦ end_local (z.local now / 86400) end now e z he (omega arith) (omega arith) at
  | inr (at, m, n) ↦
      end_local (z.local now / 86400 + 1) end now e z he (omega arith) (omega arith) at
]

stored_hours_end-IsAhead :
    (w : Window) (s t : Option ℕ) (now : ℕ) (z : Zone) (e : ℕ)
    → stored_hours_end w s t now z ≡ some e
    → IsAhead z now e
stored_hours_end-IsAhead w none t now z e h = ground arith
stored_hours_end-IsAhead w (some s) none now z e h = ground arith
stored_hours_end-IsAhead w (some s) (some t) now z e h =
    hours_end-IsAhead w (s % 1440) (if leb t 1440 then t else t % 1440) now z e (omega arith)
      (ground arith) h

window_end_ahead :
    (k : SuppressionKind) (w : Window) (now : ℕ) (z : Zone) (e : ℕ)
    → IsSteady z now
    → window_end k w now z ≡ some e
    → (now < e) × (k ≡ SuppressionKind.quiet_hours → e ≤ now + 86400)
unfolding quiet_hours_end maintenance_end IsAhead
window_end_ahead SuppressionKind.quiet_hours w now z e steady h =
    let (l, at, low, high) = stored_hours_end-IsAhead w w.start_minute w.end_minute now z e h in
    let (a, b) = at_steady z now l steady low high in (rw (← at) a, λ k. rw (← at) b)
window_end_ahead SuppressionKind.maintenance w now z e steady h = (ground arith, λ k. ground arith)

active_end-window :
    (w : Window) (p : Option Printer) (now : ℕ) (z : Zone) (e : ℕ)
    → active_end w p now z ≡ some e
    → window_end w.kind w now z ≡ some e
unfolding active_end
active_end-window w p now z e h = ground arith

-- An active window's end is ahead of now, a day at most for quiet hours.
pub active_end_ahead :
    (w : Window) (p : Option Printer) (now : ℕ) (z : Zone) (e : ℕ)
    → IsSteady z now
    → active_end w p now z ≡ some e
    → (now < e) × (w.kind ≡ SuppressionKind.quiet_hours → e ≤ now + 86400)
active_end_ahead w p now z e steady h =
    window_end_ahead w.kind w now z e steady (active_end-window w p now z e h)
