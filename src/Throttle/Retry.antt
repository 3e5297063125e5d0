-- ===== src/Throttle/Retry.antt =====
-- When a throttled sign-in is let through again.
use printer_nanny.Common.{
  ℕ, ◌+◌, ◌-◌, ◌≤◌, ◌<◌, ◌≡◌, ◌≢◌, refl, sym, ap, ◌∙◌, max, String, Bool, true, false, not, Option,
  none, some, List, [], ◌∷◌, map, length, drop, select, Bool-cases, inl, inr, ◌⊎◌, ltb, arith,
}
use printer_nanny.Throttle.Instants.{
  count_from-sort, length-sort, sort_ts-Ascends, place_within, at_place, count_of-later, length-map,
}
use printer_nanny.Throttle.{
  Scope, user, ip, LoginAttempt, Policy, Throttled, is_failure, count_of, sort_ts, first_of,
  oldest_from, wait_from, retry_after, refuse, threshold_of, check, is_cleared, clear,
}

abbrev hint_of : Option Throttled → ℕ
hint_of none = 0
hint_of (some t) = t.retry_after_seconds

not_later : (now later : ℕ) → now ≤ later → (later ≡ now) ⊎ (now < later)
not_later now later h = ground arith

-- What is refused has its bucket full, and the other way round.
refuse-none :
    (rows : List LoginAttempt) (s : Scope) (k : String) (policy : Policy) (at : ℕ)
    → (count_of rows s k (at - policy.window) < threshold_of policy s
        → refuse rows s k policy at ≡ none)
      × (threshold_of policy s ≤ count_of rows s k (at - policy.window)
          → refuse rows s k policy at ≢ none)
unfolding refuse
refuse-none rows s k policy at = (λ l. ground arith, λ l e. ground arith)

module _ (rows : List LoginAttempt) (s : Scope) (k : String) (policy : Policy) (now : ℕ) where
  abbrev start : ℕ
  start = now - policy.window

  abbrev failures : ℕ
  failures = count_of rows s k start

  abbrev instants : List ℕ
  instants = map (λ a. a.ts) (select (is_failure s k start) rows)

  instants-length : length (sort_ts instants) ≡ failures
  unfolding count_of
  instants-length = length-sort instants ∙ length-map (select (is_failure s k start) rows)

  -- The failure whose leaving the window makes room.
  blocking :
      1 ≤ threshold_of policy s
      → threshold_of policy s ≤ failures
      → (t : ℕ) × (first_of (drop (failures - threshold_of policy s) (sort_ts instants)) ≡ some t)
  blocking pos full =
      place_within (failures - threshold_of policy s) (sort_ts instants)
        (omega (arith, instants-length))

  count-blocked :
      (t later : ℕ)
      → 1 ≤ threshold_of policy s
      → threshold_of policy s ≤ failures
      → start ≤ later
      → first_of (drop (failures - threshold_of policy s) (sort_ts instants)) ≡ some t
      → (t < later → count_of rows s k later < threshold_of policy s)
        × (later ≤ t → threshold_of policy s ≤ count_of rows s k later)
  count-blocked t later pos full h at =
      let (gone, still) =
        at_place 0 (failures - threshold_of policy s) t later (sort_ts instants)
          (sort_ts-Ascends instants) at in
      let same = count_of-later rows s k start later h ∙ sym (count_from-sort later instants) in
      (
        λ l. omega (arith, gone l, same, instants-length),
        λ l. omega (arith, still l, same, instants-length),
      )

  refused_full :
      (t : Throttled) → refuse rows s k policy now ≡ some t → threshold_of policy s ≤ failures
  unfolding refuse
  refused_full t h = ground arith

  refused_hint :
      ltb failures (threshold_of policy s) ≡ false
      → hint_of (refuse rows s k policy now)
        ≡ wait_from policy now (oldest_from rows s k start (failures - threshold_of policy s))
  unfolding refuse retry_after
  refused_hint full = rw (refuse, full) refl

  refused_wait :
      (t : Throttled) (oldest : ℕ)
      → first_of (drop (failures - threshold_of policy s) (sort_ts instants)) ≡ some oldest
      → refuse rows s k policy now ≡ some t
      → t.retry_after_seconds ≡ max 1 (oldest + policy.window - now)
  unfolding refuse retry_after
  refused_wait t oldest at h =
      let hint : hint_of (refuse rows s k policy now) ≡ t.retry_after_seconds = ap hint_of h in
      let full : ltb failures (threshold_of policy s) ≡ false =
        let f = refused_full t h in ground arith in
      sym hint ∙ refused_hint full ∙ ap (wait_from policy now) at

  -- The hint of a refusal, for a bucket to which nothing is added: whoever comes back more than the
  -- hinted seconds later is let through, and whoever comes back before they have passed is refused.
  pub retry_after_lem :
      (t : Throttled) (later : ℕ)
      → 1 ≤ threshold_of policy s
      → policy.window ≤ now
      → now ≤ later
      → refuse rows s k policy now ≡ some t
      → (now + t.retry_after_seconds < later → refuse rows s k policy later ≡ none)
        × (later < now + t.retry_after_seconds → refuse rows s k policy later ≢ none)
  unfolding refuse
  retry_after_lem t later pos past order h =
      let full = refused_full t h in
      let (oldest, at) = blocking pos full in
      let wait = refused_wait t oldest at h in
      let (gone, still) = count-blocked oldest (later - policy.window) pos full (omega arith) at in
      let (open_again, shut) = refuse-none rows s k policy later in
      (
        λ l. open_again (gone (omega (arith, wait))),
        λ l. elim (not_later now later order) [
          | inl same ↦ shut (rw same full)
          | inr after ↦ shut (still (omega (arith, wait)))
        ],
      )

cleared-count :
    (gone : LoginAttempt → Bool) (rows : List LoginAttempt) (s : Scope) (k : String) (since : ℕ)
    → ((a : LoginAttempt) → is_failure s k since a ≡ true → gone a ≡ true)
    → count_of (select (λ a. not (gone a)) rows) s k since ≡ 0
unfolding count_of
cleared-count gone [] s k since h = refl
cleared-count gone (a ∷ rows) s k since h = elim (Bool-cases (gone a)) [
  | inl y ↦ rw (y) (cleared-count gone rows s k since h)
  | inr n ↦ elim (Bool-cases (is_failure s k since a)) [
    | inl f ↦ cc (h a f, n)
    | inr f ↦ rw (n, f) (cleared-count gone rows s k since h)
  ]
]

-- A proven password opens both buckets: after `clear` for a username and a source, a check of the
-- two passes at any instant, where the thresholds are at least 1 as the settings make them.
pub clear_opens :
    (normalise_username : String → String) (rows : List LoginAttempt) (username source : String)
    (policy : Policy) (now : ℕ)
    → 1 ≤ policy.user_threshold
    → 1 ≤ policy.ip_threshold
    → check normalise_username
        (clear normalise_username rows (some username) (some source)).0
        username
        source
        policy
        now
      ≡ none
unfolding check clear
clear_opens f rows username source policy now hu hi =
    let since = now - policy.window in
    let gone = is_cleared f (some username) (some source) in
    let left = select (λ a. not (gone a)) rows in
    let by_user = cleared-count gone rows user (f username) since (λ a h. ground arith) in
    let by_ip = cleared-count gone rows ip source since (λ a h. ground arith) in
    let u = (refuse-none left user (f username) policy now).0 (omega arith) in
    let i = (refuse-none left ip source policy now).0 (omega arith) in rw (u, i) (ground arith)
