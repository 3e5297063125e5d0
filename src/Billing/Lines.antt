-- ===== src/Billing/Lines.antt =====
-- The lines and the disclosures of an invoice.
use printer_nanny.Common.{
  ℕ, zero, suc, ◌+◌, ◌<◌, ◌≡◌, ◌≢◌, refl, true, Option, none, some, List, [], ◌∷◌, ◌++◌, All,
  All-append, Any, arith,
}
use printer_nanny.Billing.{
  Reading, MeterClass, mono, color, BillingRateCard, BilledPrinter, or_zero,
}
use printer_nanny.Billing.Meters.{period_meters}
use printer_nanny.Billing.Pricing.{tiered_cost, round_money}
use printer_nanny.Billing.Classes.{printed, classify-IsClassified}
use printer_nanny.Billing.Invoicing.{
  UnbilledReason, classify, InvoiceLine, UnbilledPrinter, line_of, disclosed, bill_printers,
  is_billed, Books, tiers_of, base_of,
}

abbrev pub sum_line_pages : List InvoiceLine → ℕ
sum_line_pages [] = 0
sum_line_pages (l ∷ lines) = l.pages + sum_line_pages lines

abbrev pub sum_unbilled_pages : List UnbilledPrinter → ℕ
sum_unbilled_pages [] = 0
sum_unbilled_pages (u ∷ unbilled) = u.pages + sum_unbilled_pages unbilled

-- The pages that the printers are known to have printed in the period.
abbrev pub sum_printed : List Reading → ℕ → ℕ → List BilledPrinter → ℕ
sum_printed readings start end [] = 0
sum_printed readings start end (p ∷ printers) =
    printed (period_meters readings p.id start end) + sum_printed readings start end printers

line_of-pages :
    (card : BillingRateCard) (printer_id : ℕ) (kind : MeterClass) (pages : Option ℕ)
    (lines : List InvoiceLine)
    → sum_line_pages (line_of card printer_id kind pages ++ lines)
      ≡ or_zero pages + sum_line_pages lines
line_of-pages card printer_id kind none lines = omega arith
line_of-pages card printer_id kind (some zero) lines = omega arith
line_of-pages card printer_id kind (some (suc n)) lines = omega arith

disclosed-pages :
    (printer_id surplus : ℕ) (reason : Option UnbilledReason) (unbilled : List UnbilledPrinter)
    → (0 < surplus → reason ≢ none)
    → sum_unbilled_pages (disclosed printer_id surplus reason ++ unbilled)
      ≡ surplus + sum_unbilled_pages unbilled
disclosed-pages printer_id zero none unbilled h = omega arith
disclosed-pages printer_id (suc n) none unbilled h = absurd (h (omega arith) refl)
disclosed-pages printer_id surplus (some why) unbilled h = refl

module _ (readings : List Reading) (card : BillingRateCard) (start end : ℕ) where
  pub bill_printers-pages :
      (printers : List BilledPrinter)
      → let (lines, unbilled) = bill_printers readings card start end printers in
        sum_line_pages lines + sum_unbilled_pages unbilled ≡ sum_printed readings start end printers
  unfolding bill_printers
  bill_printers-pages [] = refl
  bill_printers-pages (p ∷ printers) =
      let meters = period_meters readings p.id start end in
      let c = classify meters card.unsplit_policy in
      let sound = classify-IsClassified meters card.unsplit_policy in
      let (lines, unbilled) = bill_printers readings card start end printers in
      rw
        (
          line_of-pages card p.id mono c.billed_mono
              (line_of card p.id color c.billed_color ++ lines),
          line_of-pages card p.id color c.billed_color lines,
          disclosed-pages p.id c.surplus c.reason unbilled sound.surplus_disclosed,
        )
        (omega (arith, sound.accounts, bill_printers-pages printers))

-- The printer is one of the client's approved printers.
abbrev pub IsOwn : Books → ℕ → ℕ → Type 0
IsOwn books client_id printer_id =
    Any (λ p. (p.id ≡ printer_id) × (is_billed client_id p ≡ true)) books.printers

line_of-All :
    (P : ℕ → Type 0) (card : BillingRateCard) (printer_id : ℕ) (kind : MeterClass)
    (pages : Option ℕ)
    → P printer_id
    → All (λ l. P l.printer_id) (line_of card printer_id kind pages)
line_of-All P card printer_id kind none h = tt
line_of-All P card printer_id kind (some zero) h = tt
line_of-All P card printer_id kind (some (suc n)) h = (h, tt)

disclosed-All :
    (P : ℕ → Type 0) (printer_id surplus : ℕ) (reason : Option UnbilledReason)
    → P printer_id
    → All (λ u. P u.printer_id) (disclosed printer_id surplus reason)
disclosed-All P printer_id surplus none h = tt
disclosed-All P printer_id surplus (some why) h = (h, tt)

module _ (P : ℕ → Type 0) (readings : List Reading) (card : BillingRateCard) (start end : ℕ) where
  pub bill_printers-All :
      (printers : List BilledPrinter)
      → All (λ p. P p.id) printers
      → let (lines, unbilled) = bill_printers readings card start end printers in
        All (λ l. P l.printer_id) lines × All (λ u. P u.printer_id) unbilled
  unfolding bill_printers
  bill_printers-All [] h = (tt, tt)
  bill_printers-All (p ∷ printers) h =
      let c = classify (period_meters readings p.id start end) card.unsplit_policy in
      let (lines, unbilled) = bill_printers readings card start end printers in
      let (ih, ih') = bill_printers-All printers h.1 in
      (
        All-append (λ l. P l.printer_id) (line_of card p.id mono c.billed_mono)
            (line_of card p.id color c.billed_color ++ lines)
            (line_of-All P card p.id mono c.billed_mono h.0)
            (All-append (λ l. P l.printer_id) (line_of card p.id color c.billed_color) lines
              (line_of-All P card p.id color c.billed_color h.0) ih),
        All-append (λ u. P u.printer_id) (disclosed p.id c.surplus c.reason) unbilled
            (disclosed-All P p.id c.surplus c.reason h.0) ih',
      )

-- Every line is priced by the card: its pages through the bands of its class, rounded once.
abbrev pub IsPriced : BillingRateCard → InvoiceLine → Type 0
IsPriced card l =
    l.amount ≡ round_money (tiered_cost l.pages (tiers_of l.kind card.tiers) (base_of l.kind card))

line_of-IsPriced :
    (card : BillingRateCard) (printer_id : ℕ) (kind : MeterClass) (pages : Option ℕ)
    → All (IsPriced card) (line_of card printer_id kind pages)
line_of-IsPriced card printer_id kind none = tt
line_of-IsPriced card printer_id kind (some zero) = tt
line_of-IsPriced card printer_id kind (some (suc n)) = (refl, tt)

pub bill_printers-IsPriced :
    (readings : List Reading) (card : BillingRateCard) (start end : ℕ)
    (printers : List BilledPrinter)
    → All (IsPriced card) (bill_printers readings card start end printers).0
unfolding bill_printers
bill_printers-IsPriced readings card start end [] = tt
bill_printers-IsPriced readings card start end (p ∷ printers) =
    let c = classify (period_meters readings p.id start end) card.unsplit_policy in
    let lines = (bill_printers readings card start end printers).0 in
    All-append (IsPriced card) (line_of card p.id mono c.billed_mono)
      (line_of card p.id color c.billed_color ++ lines)
      (line_of-IsPriced card p.id mono c.billed_mono)
      (All-append (IsPriced card) (line_of card p.id color c.billed_color) lines
        (line_of-IsPriced card p.id color c.billed_color)
        (bill_printers-IsPriced readings card start end printers))
