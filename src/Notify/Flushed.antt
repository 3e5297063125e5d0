-- ===== src/Notify/Flushed.antt =====
-- central/channels/delivery.py: `flush_deferred`, through the groups and their digests.
use printer_nanny.Common.{ℕ, ◌⊎◌, List, In}
use printer_nanny.Notify.{Channel, NotificationDelivery, Alert, Db}
use printer_nanny.Notify.Deferred.{Group}
use printer_nanny.Notify.Rows.{IsDistinct}
use printer_nanny.Notify.Grouped.{IsHeld}
use printer_nanny.Notify.Digests.{Settled, IsCarrying}

module _ (channels : List Channel) (alerts : List Alert)
    (table held : List NotificationDelivery) where
  module _ (d : NotificationDelivery) (distinct : IsDistinct table) (at : In d table)
      (now : ℕ) where
    abbrev Carrying : Type 0 → Db → Db → Type 0
    Carrying = IsCarrying channels alerts table held d distinct at

    -- In the first loop the row is closed, or it is still to come, or it stands in a group.
    abbrev Progress : Db → List Group → List NotificationDelivery → Type 0
    Progress db groups rows =
        Settled channels alerts table held d db
        ⊎ (In d db.deliveries × (In d rows ⊎ IsHeld d groups))
