-- ===== src/Collector.antt =====
-- central/collector.py: the leased `subnets` row, and the questions that are answered by reading
-- it. A datetime is a number of seconds of central's clock; `_aware` reads a naive datetime as UTC,
-- and all of them are UTC here, so it is the identity. A nullable column is an `Option`.
pub mod Lease
pub mod Worker
pub mod Operator
pub mod Agent
pub mod System
pub mod Ordering
pub mod Safety
pub mod Handover
pub mod Handback
mod Tests
use printer_nanny.Common.{
  ℕ, String, Bool, true, false, ◌&&◌, not, Option, none, some, List, [], ◌∷◌, leb, ◌==◌, is_some_of,
  is_none, if◌then◌else◌,
}

pub record Subnet : Type 0 where
  pub id : ℕ
  pub cidr : String
  pub agent_id : Option ℕ
  pub standby_agent_id : Option ℕ
  pub collector_agent_id : Option ℕ
  pub collector_lease_expires_at : Option ℕ
  pub collector_since : Option ℕ
  pub collector_prev_agent_id : Option ℕ
  pub collector_prev_until : Option ℕ

unfoldable pub is_redundant : Subnet → Bool
is_redundant s = not (is_none s.standby_agent_id)

-- Is a nullable instant absent, or not after `now`?
abbrev pub has_passed : Option ℕ → ℕ → Bool
has_passed none now = true
has_passed (some e) now = leb e now

-- A set of at most two ids: the primary's, then the standby's if that is another one.
unfoldable pub eligible_agent_ids : Subnet → List ℕ
eligible_agent_ids s = elim s.agent_id [
  | none ↦ elim s.standby_agent_id [ none ↦ [] | some b ↦ b ∷ [] ]
  | some a ↦ elim s.standby_agent_id [
    | none ↦ a ∷ []
    | some b ↦ if a == b then a ∷ [] else a ∷ b ∷ []
  ]
]

pub data HolderState : Type 0 where
  unleased held lapsed released : HolderState

unfoldable pub holder_state : Subnet → ℕ → HolderState
unfolding is_redundant
holder_state s now =
    if not (is_redundant s)
    then unleased
    else if is_none s.collector_agent_id
    then released
    else if has_passed s.collector_lease_expires_at now
    then lapsed
    else held

unfoldable pub may_collect : Option Subnet → ℕ → Bool
unfolding is_redundant
may_collect none agent_id = true
may_collect (some s) agent_id =
    if not (is_redundant s) then true else is_some_of s.collector_agent_id agent_id

-- Is the reading's instant there, and not after an instant that is there?
abbrev pub stamped_by : Option ℕ → Option ℕ → Bool
stamped_by none until = false
stamped_by (some ts) none = false
stamped_by (some ts) (some until) = leb ts until

-- The second argument of a `None` subnet is never reached: `may_collect` accepts it.
unfoldable pub admits : Option Subnet → ℕ → Option ℕ → Bool
unfolding may_collect
admits none agent_id ts = true
admits (some s) agent_id ts =
    if may_collect (some s) agent_id
    then true
    else is_some_of s.collector_prev_agent_id agent_id && stamped_by ts s.collector_prev_until
