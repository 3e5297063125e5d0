-- ===== src/Alerts/Feed.antt =====
-- central/events/emit.py: what a subscriber has been told of an alert.
use mathlib.Core.Path.{subst}
use printer_nanny.Common.{
  ℕ, suc, ◌≡◌, ◌≢◌, ◌<◌, refl, arith, Bool, true, false, Option, none, some, List, [], ◌∷◌, ◌==◌,
  if◌then◌else◌, ==-false, ==-refl,
}
use printer_nanny.Alerts.{
  Transition, alert_opened, alert_resolved, same_transition, was_emitted, emit,
}

-- The last transition of an alert: whether it opened it, and its flap count.
abbrev pub told : ℕ → List Transition → Option (Bool × ℕ)
told i [] = none
told i (alert_opened j n ∷ outbox) = if j == i then some (true, n) else told i outbox
told i (alert_resolved j n ∷ outbox) = if j == i then some (false, n) else told i outbox

-- A subscriber's view of an alert is its state, and no key of a later transition is spent.
pub record IsTold (i : ℕ) (live : Bool) (n : ℕ) (outbox : List Transition) : Type 0 where
  pub last : told i outbox ≡ some (live, n)
  pub ahead_opened : (m : ℕ) → n < m → was_emitted (alert_opened i m) outbox ≡ false
  pub ahead_resolved : (m : ℕ) → n < m → was_emitted (alert_resolved i m) outbox ≡ false
  pub unresolved : live ≡ true → was_emitted (alert_resolved i n) outbox ≡ false

pub record IsUnheard (i : ℕ) (outbox : List Transition) : Type 0 where
  pub never_opened : (m : ℕ) → was_emitted (alert_opened i m) outbox ≡ false
  pub never_resolved : (m : ℕ) → was_emitted (alert_resolved i m) outbox ≡ false

pub emit-new :
    (t : Transition) (outbox : List Transition)
    → was_emitted t outbox ≡ false
    → emit t outbox ≡ t ∷ outbox
unfolding emit
emit-new t outbox h = rw h refl

pub IsTold-opened :
    (i n : ℕ) (outbox : List Transition)
    → ((m : ℕ) → n < m → was_emitted (alert_opened i m) outbox ≡ false)
    → ((m : ℕ) → n < suc m → was_emitted (alert_resolved i m) outbox ≡ false)
    → IsTold i true n (alert_opened i n ∷ outbox)
unfolding was_emitted same_transition
IsTold-opened i n outbox opened resolved = record {
  last = rw (==-refl i) refl;
  ahead_opened = λ m lt. ground (arith, opened m lt);
  ahead_resolved = λ m lt. resolved m (omega (arith, lt));
  unresolved = λ h. resolved n (omega arith);
}

pub IsTold-resolved :
    (i n : ℕ) (outbox : List Transition)
    → IsTold i true n outbox
    → IsTold i false n (alert_resolved i n ∷ outbox)
unfolding was_emitted same_transition
IsTold-resolved i n outbox t = record {
  last = rw (==-refl i) refl;
  ahead_opened = λ m lt. t.ahead_opened m lt;
  ahead_resolved = λ m lt. ground (arith, t.ahead_resolved m lt);
  unresolved = λ h. ground (arith, h);
}

-- A transition of one alert tells nothing of another.
abbrev pub subject : Transition → ℕ
subject (alert_opened j n) = j
subject (alert_resolved j n) = j

pub IsTold-other :
    (t : Transition) (i n : ℕ) (live : Bool) (outbox : List Transition)
    → subject t ≢ i
    → IsTold i live n outbox
    → IsTold i live n (t ∷ outbox)
unfolding was_emitted same_transition
IsTold-other (alert_opened j k) i n live outbox other t = record {
  last = rw (==-false j i other) t.last;
  ahead_opened = λ m lt. rw (==-false j i other) (t.ahead_opened m lt);
  ahead_resolved = t.ahead_resolved;
  unresolved = t.unresolved;
}
IsTold-other (alert_resolved j k) i n live outbox other t = record {
  last = rw (==-false j i other) t.last;
  ahead_opened = t.ahead_opened;
  ahead_resolved = λ m lt. rw (==-false j i other) (t.ahead_resolved m lt);
  unresolved = λ h. rw (==-false j i other) (t.unresolved h);
}

pub IsUnheard-other :
    (t : Transition) (i : ℕ) (outbox : List Transition)
    → subject t ≢ i
    → IsUnheard i outbox
    → IsUnheard i (t ∷ outbox)
unfolding was_emitted same_transition
IsUnheard-other (alert_opened j k) i outbox other u = record {
  never_opened = λ m. rw (==-false j i other) (u.never_opened m);
  never_resolved = u.never_resolved;
}
IsUnheard-other (alert_resolved j k) i outbox other u = record {
  never_opened = u.never_opened;
  never_resolved = λ m. rw (==-false j i other) (u.never_resolved m);
}

pub IsTold-at :
    (outbox : List Transition) {i j m n : ℕ} {l k : Bool}
    → i ≡ j
    → l ≡ k
    → m ≡ n
    → IsTold i l m outbox
    → IsTold j k n outbox
IsTold-at outbox {i} {j} {m} {n} {l} {k} is it too t =
    subst (λ z. IsTold z k n outbox) is
      (subst (λ z. IsTold i z n outbox) it (subst (λ z. IsTold i l z outbox) too t))
