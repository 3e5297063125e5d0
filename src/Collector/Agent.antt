-- ===== src/Collector/Agent.antt =====
-- agent/printer_nanny_agent/runner.py: `CollectorLeases`, the grants as the agent enforces them on
-- itself. Its instants are those of the agent's own monotonic clock.
use printer_nanny.Common.{
  ℕ, ◌+◌, String, Bool, true, false, not, Option, none, some, List, [], ◌∷◌, ltb, str_eq,
  if◌then◌else◌,
}

-- `_until`: a deadline for each CIDR that is held.
abbrev pub CollectorLeases : Type 0
CollectorLeases = List (String × ℕ)

-- The dict that `record` stores in place of the old one.
unfoldable pub record_grant : List String → ℕ → ℕ → CollectorLeases
record_grant [] ttl_seconds anchor = []
record_grant (c ∷ cidrs) ttl_seconds anchor =
    (c, anchor + ttl_seconds) ∷ record_grant cidrs ttl_seconds anchor

unfoldable pub deadline : CollectorLeases → String → Option ℕ
deadline [] cidr = none
deadline ((c, until) ∷ leases) cidr = if str_eq c cidr then some until else deadline leases cidr

unfoldable pub holds : CollectorLeases → String → ℕ → Bool
unfolding deadline
holds leases cidr now = elim (deadline leases cidr) [ none ↦ false | some until ↦ ltb now until ]

-- `_may_collect`: may this subnet be swept right now? `leased` is what central said of it.
unfoldable pub may_sweep : Bool → String → Option CollectorLeases → ℕ → Bool
unfolding holds
may_sweep leased cidr leases now =
    if not leased then true else elim leases [ none ↦ false | some l ↦ holds l cidr now ]
