-- ===== src/Suppression/Muting.antt =====
-- The windows that cover a printer now and that a severity does not break through.
use printer_nanny.Common.{
  ℕ, ◌≡◌, ◌⊎◌, inl, inr, refl, true, false, Option, none, some, List, [], ◌∷◌, All, Any, sym,
  Bool-cases, Option-cases, arith,
}
use mathlib.Core.Path.{subst}
use printer_nanny.Suppression.{EventSeverity, Window, Printer, Zone, active_end, active_windows}
use printer_nanny.Suppression.Decide.{candidates, breaks_through}

-- The window covers the printer now until `e`, and the severity does not break through it.
abbrev pub Mutes : Option Printer → Option EventSeverity → ℕ → Zone → Window → ℕ → Type 0
Mutes p severity now z w e = (active_end w p now z ≡ some e) × (breaks_through w severity ≡ false)

module _ (p : Option Printer) (severity : Option EventSeverity) (now : ℕ) (z : Zone) where
  -- The windows that mute the message, with their ends.
  abbrev pub muting : List Window → List (Window × ℕ)
  muting windows = candidates severity (active_windows windows p now z)

  muting-inactive :
      (w : Window) (windows : List Window)
      → active_end w p now z ≡ none
      → muting (w ∷ windows) ≡ muting windows
  unfolding active_windows candidates
  muting-inactive w windows h = rw h refl

  muting-broken :
      (w : Window) (windows : List Window) (e : ℕ)
      → active_end w p now z ≡ some e
      → breaks_through w severity ≡ true
      → muting (w ∷ windows) ≡ muting windows
  unfolding active_windows candidates
  muting-broken w windows e h b = rw (h, b) refl

  muting-mutes :
      (w : Window) (windows : List Window) (e : ℕ)
      → active_end w p now z ≡ some e
      → breaks_through w severity ≡ false
      → muting (w ∷ windows) ≡ (w, e) ∷ muting windows
  unfolding active_windows candidates
  muting-mutes w windows e h b = rw (h, b) refl

  muting-cases :
      (w : Window) (windows : List Window)
      → ((muting (w ∷ windows) ≡ muting windows) × ((e : ℕ) → ¬ Mutes p severity now z w e))
        ⊎ ((e : ℕ) × Mutes p severity now z w e × (muting (w ∷ windows) ≡ (w, e) ∷ muting windows))
  muting-cases w windows = elim (Option-cases (active_end w p now z)) [
    | inl h ↦ inl (muting-inactive w windows h, λ e m. ground arith)
    | inr (e, h) ↦ elim (Bool-cases (breaks_through w severity)) [
      | inl b ↦ inl (muting-broken w windows e h b, λ x m. ground arith)
      | inr b ↦ inr (e, (h, b), muting-mutes w windows e h b)
    ]
  ]

  -- What holds of every muting window and end.
  abbrev pub Whenever : (Window × ℕ → Type 0) → Window → Type 0
  Whenever P w = (e : ℕ) → Mutes p severity now z w e → P (w, e)

  -- The window mutes the message, and `P` holds of it.
  abbrev pub Muting : (Window × ℕ → Type 0) → Window → Type 0
  Muting P w = (e : ℕ) × Mutes p severity now z w e × P (w, e)

  same_end :
      (w : Window) (a b : ℕ) → Mutes p severity now z w a → Mutes p severity now z w b → a ≡ b
  same_end w a b m n = ground arith

  pub muting-All :
      (P : Window × ℕ → Type 0) (windows : List Window)
      → All P (muting windows)
      → All (Whenever P) windows
  muting-All P [] h = tt
  muting-All P (w ∷ windows) h = elim (muting-cases w windows) [
    | inl (same, none_mutes) ↦
        (λ e m. absurd (none_mutes e m), muting-All P windows (subst (All P) same h))
    | inr (e, m, same) ↦
        let both = subst (All P) same h in
        (λ x n. subst (λ y. P (w, y)) (same_end w e x m n) both.0, muting-All P windows both.1)
  ]

  pub All-muting :
      (P : Window × ℕ → Type 0) (windows : List Window)
      → All (Whenever P) windows
      → All P (muting windows)
  unfolding candidates active_windows
  All-muting P [] h = tt
  All-muting P (w ∷ windows) h = elim (muting-cases w windows) [
    | inl (same, none_mutes) ↦ subst (All P) (sym same) (All-muting P windows h.1)
    | inr (e, m, same) ↦ subst (All P) (sym same) (h.0 e m, All-muting P windows h.1)
  ]

  pub muting-Any :
      (P : Window × ℕ → Type 0) (windows : List Window)
      → Any P (muting windows)
      → Any (Muting P) windows
  unfolding candidates active_windows
  muting-Any P [] h = h
  muting-Any P (w ∷ windows) h = elim (muting-cases w windows) [
    | inl (same, none_mutes) ↦ inr (muting-Any P windows (subst (Any P) same h))
    | inr (e, m, same) ↦ elim (subst (Any P) same h) [
      | inl x ↦ inl (e, m, x)
      | inr rest ↦ inr (muting-Any P windows rest)
    ]
  ]

  pub Any-muting :
      (P : Window × ℕ → Type 0) (windows : List Window)
      → Any (Muting P) windows
      → Any P (muting windows)
  unfolding candidates active_windows
  Any-muting P [] h = h
  Any-muting P (w ∷ windows) (inl (x, n, px)) = elim (muting-cases w windows) [
    | inl (same, none_mutes) ↦ absurd (none_mutes x n)
    | inr (e, m, same) ↦
        subst (Any P) (sym same) (inl (subst (λ y. P (w, y)) (same_end w x e n m) px))
  ]
  Any-muting P (w ∷ windows) (inr h) = elim (muting-cases w windows) [
    | inl (same, none_mutes) ↦ subst (Any P) (sym same) (Any-muting P windows h)
    | inr (e, m, same) ↦ subst (Any P) (sym same) (inr (Any-muting P windows h))
  ]
