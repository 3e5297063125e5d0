-- ===== src/Throttle.antt =====
-- central/ratelimit.py: the throttle of sign-in attempts. The table's rows stand in any order. The
-- key of a username, `normalise_username`, is an argument: nothing here depends on what it folds
-- together.
pub mod Budget
pub mod Instants
pub mod Retry
mod Tests
use printer_nanny.Common.{
  ℕ, zero, suc, ◌+◌, ◌-◌, ◌*◌, max, String, Bool, true, false, ◌&&◌, ◌||◌, not, Option, none, some,
  List, [], ◌∷◌, ◌++◌, map, length, drop, select, str_eq, ltb, leb, ◌==◌, if◌then◌else◌,
}

pub data Scope : Type 0 where
  user ip : Scope

pub record LoginAttempt : Type 0 where
  pub scope : Scope
  pub key : String
  pub ts : ℕ

-- `window` is in seconds.
pub record Policy : Type 0 where
  pub enabled : Bool
  pub user_threshold : ℕ
  pub ip_threshold : ℕ
  pub window : ℕ

pub record Throttled : Type 0 where
  pub scope : Scope
  pub failures : ℕ
  pub retry_after_seconds : ℕ

abbrev pub prune_margin : ℕ
prune_margin = 2

abbrev pub is_scope : Scope → Scope → Bool
is_scope user user = true
is_scope ip ip = true
is_scope user ip = false
is_scope ip user = false

-- The row is in the bucket of the scope and the key.
abbrev pub in_bucket : Scope → String → LoginAttempt → Bool
in_bucket scope key a = is_scope a.scope scope && str_eq a.key key

abbrev pub is_failure : Scope → String → ℕ → LoginAttempt → Bool
is_failure scope key since a = leb since a.ts && in_bucket scope key a

-- One scope's entry of `_counts`.
unfoldable pub count_of : List LoginAttempt → Scope → String → ℕ → ℕ
count_of rows scope key since = length (select (is_failure scope key since) rows)

-- `ORDER BY ts`
unfoldable pub insert_ts : ℕ → List ℕ → List ℕ
insert_ts t [] = t ∷ []
insert_ts t (u ∷ ts) = let rest = insert_ts t ts in if leb t u then t ∷ u ∷ ts else u ∷ rest

unfoldable pub sort_ts : List ℕ → List ℕ
sort_ts [] = []
sort_ts (t ∷ ts) = insert_ts t (sort_ts ts)

abbrev pub first_of : List ℕ → Option ℕ
first_of [] = none
first_of (t ∷ ts) = some t

-- `OFFSET n LIMIT 1`
abbrev pub oldest_from : List LoginAttempt → Scope → String → ℕ → ℕ → Option ℕ
oldest_from rows scope key since offset =
    first_of (drop offset (sort_ts (map (λ a. a.ts) (select (is_failure scope key since) rows))))

abbrev pub wait_from : Policy → ℕ → Option ℕ → ℕ
wait_from policy now none = policy.window
wait_from policy now (some oldest) = max 1 (oldest + policy.window - now)

unfoldable pub retry_after : List LoginAttempt → Scope → String → ℕ → ℕ → Policy → ℕ → ℕ
retry_after rows scope key threshold failures policy now =
    wait_from policy now (oldest_from rows scope key (now - policy.window) (failures - threshold))

abbrev pub threshold_of : Policy → Scope → ℕ
threshold_of policy user = policy.user_threshold
threshold_of policy ip = policy.ip_threshold

-- One turn of the loop of `check`.
unfoldable pub refuse : List LoginAttempt → Scope → String → Policy → ℕ → Option Throttled
refuse rows scope key policy now =
    let failures = count_of rows scope key (now - policy.window) in
    if ltb failures (threshold_of policy scope)
    then none
    else some (record {
      scope = scope;
      failures = failures;
      retry_after_seconds =
          retry_after rows scope key (threshold_of policy scope) failures policy now;
    })

abbrev pub or_next : Option Throttled → Option Throttled → Option Throttled
or_next none next = next
or_next (some t) next = some t

module _ (normalise_username : String → String) where
  unfoldable pub check : List LoginAttempt → String → String → Policy → ℕ → Option Throttled
  check rows username source policy now =
      if not policy.enabled
      then none
      else or_next (refuse rows user (normalise_username username) policy now)
          (refuse rows ip source policy now)

  -- A row of one of the two buckets that is older than the instant.
  abbrev pub is_outdated : String → String → ℕ → LoginAttempt → Bool
  is_outdated key source cutoff a =
      ltb a.ts cutoff && (in_bucket user key a || in_bucket ip source a)

  abbrev pub just_filled : List LoginAttempt → String → String → Policy → ℕ → Option Scope
  just_filled rows key source policy since =
      if count_of rows user key since == policy.user_threshold
      then some user
      else if count_of rows ip source since == policy.ip_threshold
      then some ip
      else none

  -- The table after it, and the scope that has just filled.
  unfoldable pub record_failure :
      List LoginAttempt → String → String → Policy → ℕ → List LoginAttempt × Option Scope
  record_failure rows username source policy now =
      let key = normalise_username username in
      if not policy.enabled
      then (rows, none)
      else let added =
          rows
          ++ (record { scope = user; key = key; ts = now }
              ∷ record { scope = ip; key = source; ts = now }
              ∷ []) in
        let left =
          select (λ a. not (is_outdated key source (now - policy.window * prune_margin) a)) added in
        (left, just_filled left key source policy (now - policy.window))

  abbrev pub is_cleared : Option String → Option String → LoginAttempt → Bool
  is_cleared none none a = false
  is_cleared (some username) none a = in_bucket user (normalise_username username) a
  is_cleared none (some source) a = in_bucket ip source a
  is_cleared (some username) (some source) a =
      in_bucket user (normalise_username username) a || in_bucket ip source a

  -- The table after it, and the number of rows removed.
  unfoldable pub clear : List LoginAttempt → Option String → Option String → List LoginAttempt × ℕ
  clear rows username source = (
    select (λ a. not (is_cleared username source a)) rows,
    length (select (is_cleared username source) rows),
  )

-- `prune` with the worker's arguments: a policy, and no explicit instant.
unfoldable pub prune_attempts : List LoginAttempt → Policy → ℕ → List LoginAttempt × ℕ
prune_attempts rows policy now =
    let older_than = now - policy.window * prune_margin in
    (select (λ a. not (ltb a.ts older_than)) rows, length (select (λ a. ltb a.ts older_than) rows))
