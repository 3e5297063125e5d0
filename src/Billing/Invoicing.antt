-- ===== src/Billing/Invoicing.antt =====
-- central/billing.py: `_classify` and `build_invoice`. Labels, addresses and names that an invoice
-- repeats for its reader are not modelled, nor the instant at which it was made.
use printer_nanny.Common.{
  zero, suc, ℕ, ◌+◌, ◌-◌, Bool, true, false, ◌&&◌, not, Option, none, some, List, [], ◌∷◌, ◌++◌,
  length, select, ltb, leb, ◌==◌, if◌then◌else◌, is_some_of,
}
use printer_nanny.Billing.{
  Reading, MeterClass, mono, color, UnsplitPolicy, exclude, bill_as_mono, BillingRateTier,
  BillingRateCard, BilledPrinter, or_zero,
}
use printer_nanny.Billing.Meters.{PeriodMeters, period_meters}
use printer_nanny.Billing.Pricing.{tiered_cost, round_money}

-- Why pages are not billed.
pub data UnbilledReason : Type 0 where
  total_exceeds_split no_color_meter no_mono_meter no_readings no_split : UnbilledReason

pub record Classified : Type 0 where
  pub billed_mono : Option ℕ
  pub billed_color : Option ℕ
  pub surplus : ℕ
  pub reason : Option UnbilledReason

abbrev pub with_surplus : Option ℕ → Option ℕ → ℕ → UnbilledReason → Classified
with_surplus m c surplus why = record {
  billed_mono = m;
  billed_color = c;
  surplus = surplus;
  reason = if ltb 0 surplus then some why else none;
}

abbrev pub classify_unsplit : Option ℕ → UnsplitPolicy → Classified
classify_unsplit none policy = record {
  billed_mono = none;
  billed_color = none;
  surplus = 0;
  reason = some no_readings;
}
classify_unsplit (some zero) policy = record {
  billed_mono = none;
  billed_color = none;
  surplus = 0;
  reason = none;
}
classify_unsplit (some (suc n)) bill_as_mono = record {
  billed_mono = some (suc n);
  billed_color = none;
  surplus = 0;
  reason = none;
}
classify_unsplit (some (suc n)) exclude = record {
  billed_mono = none;
  billed_color = none;
  surplus = suc n;
  reason = some no_split;
}

abbrev pub classify_meters : Option ℕ → Option ℕ → Option ℕ → UnsplitPolicy → Classified
classify_meters total (some m) (some c) policy =
    with_surplus (some m) (some c) (or_zero total - m - c) total_exceeds_split
classify_meters total (some m) none policy =
    with_surplus (some m) none (or_zero total - m) no_color_meter
classify_meters total none (some c) policy =
    with_surplus none (some c) (or_zero total - c) no_mono_meter
classify_meters total none none policy = classify_unsplit total policy

unfoldable pub classify : PeriodMeters → UnsplitPolicy → Classified
classify meters policy = classify_meters meters.pages meters.mono meters.color policy

pub record InvoiceLine : Type 0 where
  pub printer_id : ℕ
  pub kind : MeterClass
  pub pages : ℕ
  pub amount : ℕ

pub record UnbilledPrinter : Type 0 where
  pub printer_id : ℕ
  pub pages : ℕ
  pub reason : UnbilledReason

abbrev pub is_class : MeterClass → MeterClass → Bool
is_class mono mono = true
is_class color color = true
is_class mono color = false
is_class color mono = false

abbrev pub tiers_of : MeterClass → List BillingRateTier → List BillingRateTier
tiers_of k tiers = select (λ t. is_class t.kind k) tiers

abbrev pub base_of : MeterClass → BillingRateCard → ℕ
base_of mono card = card.mono_rate
base_of color card = card.color_rate

-- No line for an unknown meter, and none for 0 pages.
abbrev pub line_of : BillingRateCard → ℕ → MeterClass → Option ℕ → List InvoiceLine
line_of card printer_id kind none = []
line_of card printer_id kind (some zero) = []
line_of card printer_id kind (some (suc n)) =
    record {
      printer_id = printer_id;
      kind = kind;
      pages = suc n;
      amount = round_money (tiered_cost (suc n) (tiers_of kind card.tiers) (base_of kind card));
    }
    ∷ []

abbrev pub disclosed : ℕ → ℕ → Option UnbilledReason → List UnbilledPrinter
disclosed printer_id surplus none = []
disclosed printer_id surplus (some why) =
    record { printer_id = printer_id; pages = surplus; reason = why } ∷ []

-- The loop over the printers.
unfoldable pub bill_printers :
    List Reading
    → BillingRateCard
    → ℕ
    → ℕ
    → List BilledPrinter
    → List InvoiceLine × List UnbilledPrinter
bill_printers readings card start end [] = ([], [])
bill_printers readings card start end (p ∷ printers) =
    let c = classify (period_meters readings p.id start end) card.unsplit_policy in
    let (lines, unbilled) = bill_printers readings card start end printers in
    (
      line_of card p.id mono c.billed_mono ++ (line_of card p.id color c.billed_color ++ lines),
      disclosed p.id c.surplus c.reason ++ unbilled,
    )

-- The client's approved printers.
abbrev pub is_billed : ℕ → BilledPrinter → Bool
is_billed client_id p = is_some_of p.client_id client_id && p.approved

abbrev pub billed_printers : ℕ → List BilledPrinter → List BilledPrinter
billed_printers client_id printers = select (is_billed client_id) printers

unfoldable pub sum_amounts : List InvoiceLine → ℕ
sum_amounts [] = 0
sum_amounts (l ∷ lines) = l.amount + sum_amounts lines

pub record Invoice : Type 0 where
  pub client_id : ℕ
  pub period_start : ℕ
  pub period_end : ℕ
  pub rate_card_id : ℕ
  pub lines : List InvoiceLine
  pub unbilled : List UnbilledPrinter
  pub metered_subtotal : ℕ
  pub minimum_charge : Option ℕ
  pub minimum_adjustment : ℕ
  pub total : ℕ
  pub printer_count : ℕ

-- The first four raise a `BillingError`, the last a `TenancyError`.
pub data Built : Type 0 where
  period_ends_first no_such_client no_rate_card other_tenant : Built
  built : Invoice → Built

pub record Books : Type 0 where
  pub clients : List ℕ
  pub rate_cards : List BillingRateCard
  pub printers : List BilledPrinter
  pub readings : List Reading

abbrev pub is_client : ℕ → List ℕ → Bool
is_client c [] = false
is_client c (x ∷ clients) = let rest = is_client c clients in if x == c then true else rest

unfoldable pub active_rate_card : List BillingRateCard → ℕ → Option BillingRateCard
active_rate_card [] client_id = none
active_rate_card (k ∷ cards) client_id =
    let rest = active_rate_card cards client_id in
    if (k.client_id == client_id) && k.active then some k else rest

-- What the subtotal lacks to the minimum.
abbrev pub adjustment_of : Option ℕ → ℕ → ℕ
adjustment_of none subtotal = 0
adjustment_of (some least) subtotal = if ltb subtotal least then least - subtotal else 0

unfoldable pub price_invoice : Books → ℕ → ℕ → ℕ → BillingRateCard → Invoice
price_invoice books client_id start end card =
    let printers = billed_printers client_id books.printers in
    let (lines, unbilled) = bill_printers books.readings card start end printers in
    record {
      client_id = client_id;
      period_start = start;
      period_end = end;
      rate_card_id = card.id;
      lines = lines;
      unbilled = unbilled;
      metered_subtotal = sum_amounts lines;
      minimum_charge = card.minimum_charge;
      minimum_adjustment = adjustment_of card.minimum_charge (sum_amounts lines);
      total = sum_amounts lines + adjustment_of card.minimum_charge (sum_amounts lines);
      printer_count = length printers;
    }

abbrev pub by_active_card : Books → ℕ → ℕ → ℕ → Option BillingRateCard → Built
by_active_card books client_id start end none = no_rate_card
by_active_card books client_id start end (some card) =
    built (price_invoice books client_id start end card)

abbrev pub with_card : Books → ℕ → ℕ → ℕ → Option BillingRateCard → Built
with_card books client_id start end none =
    by_active_card books client_id start end (active_rate_card books.rate_cards client_id)
with_card books client_id start end (some card) =
    if not (card.client_id == client_id)
    then other_tenant
    else built (price_invoice books client_id start end card)

unfoldable pub build_invoice : Books → ℕ → ℕ → ℕ → Option BillingRateCard → Built
build_invoice books client_id start end card =
    if leb end start
    then period_ends_first
    else if not (is_client client_id books.clients)
    then no_such_client
    else with_card books client_id start end card
