-- ===== src/Notify/Wanted.antt =====
-- central/channels/delivery.py: `retry_due`, the rows whose key no enabled channel has.
use mathlib.Core.Path.{subst}
use printer_nanny.Common.{
  everything-All, ◌≡◌, ◌≢◌, inl, inr, refl, sym, ap, ◌∙◌, String, Bool, true, false, ◌||◌, none,
  List, [], ◌∷◌, map, All, Bool-cases, false-ne-true, str_eq, eq_iff, arith,
}
use printer_nanny.Notify.{
  Channel, ChannelKey, unrouted_key, withheld_key, channel_key, NotificationDelivery,
}
use printer_nanny.Notify.Owed.{has_name}
use printer_nanny.Notify.Retry.{find_channel, is_wanted}

-- No enabled channel has the row's key, and it is not owed.
abbrev pub NoDestination : List Channel → NotificationDelivery → Type 0
NoDestination channels d = (d.key ≢ unrouted_key) × All (λ c. d.key ≢ channel_key c.name) channels

key_name : ChannelKey → String → String
key_name (channel_key name) other = name
key_name unrouted_key other = other
key_name withheld_key other = other

or-left : (a b : Bool) → (a || b) ≡ false → a ≡ false
or-left true b h = absurd (false-ne-true (sym h))
or-left false b h = refl

unlisted :
    (name : String) (channels : List Channel)
    → has_name name (map (λ c. c.name) channels) ≡ false
    → All (λ c. channel_key name ≢ channel_key c.name) channels
unfolding has_name key_name
unlisted name [] h = tt
unlisted name (c ∷ channels) h =
    let e = (eq_iff name c.name).1 in
    (
      λ same. false-ne-true (
          sym (or-left (str_eq name c.name) (has_name name (map (λ c. c.name) channels)) h)
          ∙ e (ap (λ k. key_name k "") same)),
      unlisted name channels (ground arith),
    )

pub unwanted-NoDestination :
    (key : ChannelKey) (channels : List Channel) (d : NotificationDelivery)
    → d.key ≡ key
    → is_wanted channels key ≡ false
    → NoDestination channels d
unfolding is_wanted
unwanted-NoDestination unrouted_key channels d e h = ground arith
unwanted-NoDestination withheld_key channels d e h =
    subst (λ k. (k ≢ unrouted_key) × All (λ c. k ≢ channel_key c.name) channels) (sym e)
      (λ s. ground arith, everything-All _ channels (λ c s. ground arith))
unwanted-NoDestination (channel_key name) channels d e h =
    subst (λ k. (k ≢ unrouted_key) × All (λ c. k ≢ channel_key c.name) channels) (sym e)
      (λ s. ground arith, unlisted name channels h)

pub found_channel :
    (name : String) (channels : List Channel)
    → find_channel name channels ≡ none
    → has_name name (map (λ c. c.name) channels) ≡ false
unfolding find_channel has_name
found_channel name [] h = refl
found_channel name (c ∷ channels) h = elim (Bool-cases (str_eq c.name name)) [
  | inl y ↦ ground arith
  | inr n ↦
      let ih = found_channel name channels (ground arith) in
      elim (Bool-cases (str_eq name c.name)) [
        | inl y ↦
            absurd (false-ne-true (sym n ∙ (eq_iff c.name name).1 (sym ((eq_iff name c.name).0 y))))
        | inr m ↦ rw (m, ih) refl
      ]
]
