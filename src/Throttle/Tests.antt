-- ===== src/Throttle/Tests.antt =====
-- Runs of the throttle, and its theorems at concrete attempts.
use printer_nanny.Common.{ℕ, ◌≡◌, refl, String, true, some, List, [], ◌∷◌, arith}
use printer_nanny.Throttle.{
  user, LoginAttempt, Policy, Throttled, count_of, refuse, check, record_failure, insert_ts,
  sort_ts, retry_after,
}
use printer_nanny.Throttle.Budget.{
  Guess, wrong_guess, wrong_guesses, IsWithin, no_attempts, wrong_guesses_rationed,
}

-- Two guesses for a username, five from a source, in 900 seconds.
abbrev policy : Policy
policy = record { enabled = true; user_threshold = 2; ip_threshold = 5; window = 900 }

abbrev key : String → String
key username = username

abbrev failure : ℕ → LoginAttempt
failure ts = record { scope = user; key = "admin"; ts = ts }

abbrev rows : List LoginAttempt
rows = failure 10300 ∷ failure 10100 ∷ []

abbrev guess : ℕ → Guess
guess at = record { username = "admin"; source = "10.0.0.1"; at = at }

-- The third guess is not let through.
guesses_run :
    count_of
      (wrong_guesses key policy no_attempts (guess 10000 ∷ guess 10001 ∷ guess 10002 ∷ [])).log
      user
      "admin"
      9102
    ≡ 2
unfolding count_of wrong_guesses wrong_guess check refuse record_failure
guesses_run = refl

abbrev refusal : Throttled
refusal = record { scope = user; failures = 2; retry_after_seconds = 600 }

refused_run : refuse rows user "admin" policy 10400 ≡ some refusal
unfolding refuse count_of retry_after sort_ts insert_ts
refused_run = refl

wrong_guesses_rationed_example :
    IsWithin key policy 10002
      (wrong_guesses key policy no_attempts (guess 10000 ∷ guess 10001 ∷ guess 10002 ∷ []))
wrong_guesses_rationed_example =
    wrong_guesses_rationed key policy (guess 10000 ∷ guess 10001 ∷ guess 10002 ∷ []) refl
      (ground arith)
