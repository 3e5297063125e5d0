-- ===== src/Throttle/Budget.antt =====
-- How many guesses a window of time allows, over whole sequences of sign-ins.
use printer_nanny.Common.{
  ℕ, ◌+◌, ◌-◌, ◌*◌, ◌≤◌, ◌<◌, ◌≡◌, refl, sym, ap, ◌∙◌, String, Bool, true, not, Option, none, some,
  List, [], ◌∷◌, ◌++◌, select, str_eq, Bool-cases, Option-cases, inl, inr, ◌⊎◌, ltb, arith, eq_iff,
}
use printer_nanny.Throttle.{
  Scope, user, ip, LoginAttempt, Policy, Throttled, prune_margin, is_failure, count_of, refuse,
  threshold_of, check, is_outdated, record_failure, prune_attempts,
}

count-append :
    (xs ys : List LoginAttempt) (s : Scope) (k : String) (since : ℕ)
    → count_of (xs ++ ys) s k since ≡ count_of xs s k since + count_of ys s k since
unfolding count_of
count-append [] ys s k since = omega arith
count-append (x ∷ xs) ys s k since = ground (arith, count-append xs ys s k since)

-- A deletion that keeps every row that counts changes no count.
count-kept :
    (keep : LoginAttempt → Bool) (rows : List LoginAttempt) (s : Scope) (k : String) (since : ℕ)
    → ((a : LoginAttempt) → is_failure s k since a ≡ true → keep a ≡ true)
    → count_of (select keep rows) s k since ≡ count_of rows s k since
unfolding count_of
count-kept keep [] s k since h = refl
count-kept keep (a ∷ rows) s k since h = elim (Bool-cases (keep a)) [
  | inl y ↦ ground (arith, count-kept keep rows s k since h)
  | inr n ↦ elim (Bool-cases (is_failure s k since a)) [
    | inl f ↦ cc (h a f, n)
    | inr f ↦ rw (n, f) (count-kept keep rows s k since h)
  ]
]

-- A later start counts no more.
count_mono :
    (rows : List LoginAttempt) (s : Scope) (k : String) (since later : ℕ)
    → since ≤ later
    → count_of rows s k later ≤ count_of rows s k since
unfolding count_of
count_mono [] s k since later h = omega arith
count_mono (a ∷ rows) s k since later h = ground (arith, count_mono rows s k since later h)

abbrev pub added : String → String → ℕ → List LoginAttempt
added key source now =
    record { scope = user; key = key; ts = now }
    ∷ record { scope = ip; key = source; ts = now }
    ∷ []

-- Pruning at an instant changes no count of failures since any later instant than two windows
-- before it, and so none that a decision from then on reads.
pub prune-count :
    (rows : List LoginAttempt) (policy : Policy) (now since : ℕ) (s : Scope) (k : String)
    → now - policy.window * 2 ≤ since
    → count_of (prune_attempts rows policy now).0 s k since ≡ count_of rows s k since
unfolding prune_attempts
prune-count rows policy now since s k h =
    count-kept (λ a. not (ltb a.ts (now - policy.window * prune_margin))) rows s k since
      (λ a f. ground arith)

module _ (normalise_username : String → String) where
  record-count :
      (rows : List LoginAttempt) (username source : String) (policy : Policy) (now since : ℕ)
      (s : Scope) (k : String)
      → policy.enabled ≡ true
      → now - policy.window * 2 ≤ since
      → count_of (record_failure normalise_username rows username source policy now).0 s k since
        ≡ count_of (rows ++ added (normalise_username username) source now) s k since
  unfolding record_failure
  record-count rows username source policy now since s k on h = rw on (
      count-kept
        (λ a. not (
          is_outdated normalise_username (normalise_username username) source
            (now - policy.window * prune_margin) a))
        (rows ++ added (normalise_username username) source now) s k since (λ a f. ground arith))

-- A wrong guess, for a username, from a source, at an instant.
pub record Guess : Type 0 where
  pub username : String
  pub source : String
  pub at : ℕ

-- The table of failures, and the log of all guesses that were let through to the password.
pub record Ledger : Type 0 where
  pub rows : List LoginAttempt
  pub log : List LoginAttempt

abbrev pub no_attempts : Ledger
no_attempts = record { rows = []; log = [] }

module _ (normalise_username : String → String) (policy : Policy) where
  abbrev pub after_check : Option Throttled → Ledger → Guess → Ledger
  after_check (some t) l g = l
  after_check none l g = record {
    rows = (record_failure normalise_username l.rows g.username g.source policy g.at).0;
    log = l.log ++ added (normalise_username g.username) g.source g.at;
  }

  -- The sign-in route at a wrong password.
  unfoldable pub wrong_guess : Ledger → Guess → Ledger
  wrong_guess l g =
      after_check (check normalise_username l.rows g.username g.source policy g.at) l g

  unfoldable pub wrong_guesses : Ledger → List Guess → Ledger
  wrong_guesses l [] = l
  wrong_guesses l (g ∷ guesses) = wrong_guesses (wrong_guess l g) guesses

  -- The table counts as the log does, and no bucket has had more guesses than its budget.
  pub record IsWithin (now : ℕ) (l : Ledger) : Type 0 where
    pub agrees :
        (s : Scope) (k : String) (since : ℕ)
        → now - policy.window * 2 ≤ since
        → count_of l.rows s k since ≡ count_of l.log s k since
    pub within :
        (s : Scope) (k : String) → count_of l.log s k (now - policy.window) ≤ threshold_of policy s

  later-IsWithin : (now at : ℕ) (l : Ledger) → now ≤ at → IsWithin now l → IsWithin at l
  later-IsWithin now at l h w = record {
    agrees = λ s k since low. w.agrees s k since (omega arith);
    within = λ s k.
        let mono = count_mono l.log s k (now - policy.window) (at - policy.window) (omega arith) in
        omega (arith, w.within s k);
  }

  added-count :
      (key source : String) (at : ℕ) (s : Scope) (k : String) (since : ℕ)
      → (count_of (added key source at) s k since ≡ 0)
        ⊎ ((count_of (added key source at) s k since ≤ 1)
            × (((s ≡ user) × (k ≡ key)) ⊎ ((s ≡ ip) × (k ≡ source))))
  unfolding count_of
  added-count key source at user k since = elim (Bool-cases (str_eq key k)) [
    | inl y ↦ inr (ground arith, inl (refl, sym ((eq_iff key k).0 y)))
    | inr n ↦ inl (ground arith)
  ]
  added-count key source at ip k since = elim (Bool-cases (str_eq source k)) [
    | inl y ↦ inr (ground arith, inr (refl, sym ((eq_iff source k).0 y)))
    | inr n ↦ inl (ground arith)
  ]

  check-budget :
      (rows : List LoginAttempt) (username source : String) (now : ℕ)
      → policy.enabled ≡ true
      → check normalise_username rows username source policy now ≡ none
      → (count_of rows user (normalise_username username) (now - policy.window)
          < policy.user_threshold)
        × (count_of rows ip source (now - policy.window) < policy.ip_threshold)
  unfolding check refuse
  check-budget rows username source now on h = ground arith

  -- One more in a bucket that has room.
  budget_left :
      (l : Ledger) (key source : String) (at : ℕ)
      → count_of l.log user key (at - policy.window) < policy.user_threshold
      → count_of l.log ip source (at - policy.window) < policy.ip_threshold
      → ((s : Scope) (k : String) → count_of l.log s k (at - policy.window) ≤ threshold_of policy s)
      → (s : Scope) (k : String)
      → count_of (l.log ++ added key source at) s k (at - policy.window) ≤ threshold_of policy s
  budget_left l key source at hu hi within s k =
      let since = at - policy.window in
      let sum = count-append l.log (added key source at) s k since in
      elim (added-count key source at s k since) [
        | inl none_added ↦ omega (arith, within s k, sum, none_added)
        | inr (one, inl (es, ek)) ↦
            let room : count_of l.log s k since < threshold_of policy s = rw (es, ek) hu in
            omega (arith, room, sum, one)
        | inr (one, inr (es, ek)) ↦
            let room : count_of l.log s k since < threshold_of policy s = rw (es, ek) hi in
            omega (arith, room, sum, one)
      ]

  wrong_guess-IsWithin :
      (now : ℕ) (l : Ledger) (g : Guess)
      → policy.enabled ≡ true
      → now ≤ g.at
      → IsWithin now l
      → IsWithin g.at (wrong_guess l g)
  unfolding wrong_guess
  wrong_guess-IsWithin now l g on h w =
      let w' = later-IsWithin now g.at l h w in
      elim (Option-cases (check normalise_username l.rows g.username g.source policy g.at)) [
        | inr (t, refused) ↦ rw refused w'
        | inl passed ↦ rw passed (record {
          agrees = λ s k since low.
              let new = added (normalise_username g.username) g.source g.at in
              record-count normalise_username l.rows g.username g.source policy g.at since s k on
                low
              ∙ count-append l.rows new s k since
              ∙ ap (λ n. n + count_of new s k since) (w'.agrees s k since low)
              ∙ sym (count-append l.log new s k since);
          within =
              let (hu, hi) = check-budget l.rows g.username g.source g.at on passed in
              budget_left l (normalise_username g.username) g.source g.at
                (omega (
                  arith,
                  hu,
                  w'.agrees user (normalise_username g.username) (g.at - policy.window)
                      (omega arith),
                ))
                (omega (arith, hi, w'.agrees ip g.source (g.at - policy.window) (omega arith)))
                w'.within;
        })
      ]

  -- The instants of the guesses do not go back.
  abbrev pub IsChronological : ℕ → List Guess → Type 0
  IsChronological from [] = Unit
  IsChronological from (g ∷ guesses) = (from ≤ g.at) × IsChronological g.at guesses

  abbrev pub last_instant : ℕ → List Guess → ℕ
  last_instant from [] = from
  last_instant from (g ∷ guesses) = last_instant g.at guesses

  wrong_guesses-IsWithin :
      (now : ℕ) (l : Ledger) (guesses : List Guess)
      → policy.enabled ≡ true
      → IsChronological now guesses
      → IsWithin now l
      → IsWithin (last_instant now guesses) (wrong_guesses l guesses)
  unfolding wrong_guesses
  wrong_guesses-IsWithin now l [] on order w = w
  wrong_guesses-IsWithin now l (g ∷ guesses) on order w =
      wrong_guesses-IsWithin g.at (wrong_guess l g) guesses on order.1
        (wrong_guess-IsWithin now l g on order.0 w)

  no_attempts-IsWithin : IsWithin 0 no_attempts
  unfolding count_of
  no_attempts-IsWithin = record { agrees = λ s k since low. refl; within = λ s k. omega arith }

  -- The throttle rations guesses. With the throttle switched on, and whatever usernames and sources
  -- are tried in whatever order of time: of the wrong guesses that were let through to the
  -- password, no more than the threshold fall in the window that ends at the last attempt, for each
  -- username and for each source; and the table, pruned as it is, counts them all.
  pub wrong_guesses_rationed :
      (guesses : List Guess)
      → policy.enabled ≡ true
      → IsChronological 0 guesses
      → IsWithin (last_instant 0 guesses) (wrong_guesses no_attempts guesses)
  wrong_guesses_rationed guesses on order =
      wrong_guesses-IsWithin 0 no_attempts guesses on order no_attempts-IsWithin
