-- ===== src/Billing/Accounts.antt =====
-- What an invoice accounts for: every page, to the right customer.
use printer_nanny.Common.{
  In, ◌≤◌, ◌≢◌, ◌⊎◌, false, ℕ, ◌+◌, ◌<◌, ◌≡◌, max, true, Option, none, some, List, All,
}
use printer_nanny.Billing.{BillingRateCard, or_zero}
use printer_nanny.Billing.Lines.{sum_line_pages, sum_unbilled_pages, sum_printed, IsOwn, IsPriced}
use printer_nanny.Billing.Invoicing.{
  period_ends_first, no_such_client, no_rate_card, other_tenant, billed_printers, sum_amounts,
  Invoice, Built, built, Books,
}

-- An invoice of the client by one of the client's cards.
pub record IsAccounted (books : Books) (client_id start end : ℕ) (card : BillingRateCard)
    (i : Invoice) : Type 0 where
  pub own_card : (card.client_id ≡ client_id) × (card.id ≡ i.rate_card_id)
  pub own_lines : All (λ l. IsOwn books client_id l.printer_id) i.lines
  pub own_unbilled : All (λ u. IsOwn books client_id u.printer_id) i.unbilled
  pub priced : All (IsPriced card) i.lines
  pub pages :
      sum_line_pages i.lines + sum_unbilled_pages i.unbilled
      ≡ sum_printed books.readings start end (billed_printers client_id books.printers)
  pub subtotal : i.metered_subtotal ≡ sum_amounts i.lines
  pub total : i.total ≡ max i.metered_subtotal (or_zero card.minimum_charge)

-- The card that the invoice is to be priced by: the given one, or, where none is given, an active
-- one of the client in the table.
abbrev pub IsChosen : Books → ℕ → Option BillingRateCard → BillingRateCard → Type 0
IsChosen books client_id card k =
    (card ≡ some k)
    ⊎ ((card ≡ none) × In k books.rate_cards × (k.client_id ≡ client_id) × (k.active ≡ true))

-- That card accounts for the invoice.
abbrev pub HasCard : Books → ℕ → ℕ → ℕ → Option BillingRateCard → Invoice → Type 0
HasCard books client_id start end card i =
    (k : BillingRateCard) × IsChosen books client_id card k
    × IsAccounted books client_id start end k i

-- No card of the client is active.
abbrev pub NoActive : ℕ → List BillingRateCard → Type 0
NoActive client_id cards = All (λ k. k.client_id ≡ client_id → k.active ≡ false) cards

-- What `build_invoice` may give: a refusal with its cause, or an invoice that is accounted for.
abbrev pub IsAnswered : Books → ℕ → ℕ → ℕ → Option BillingRateCard → Built → Type 0
IsAnswered books client_id start end card b =
    ((b ≡ period_ends_first) × (end ≤ start))
    ⊎ (((b ≡ no_such_client) × All (λ x. x ≢ client_id) books.clients)
        ⊎ (((b ≡ no_rate_card) × (card ≡ none) × NoActive client_id books.rate_cards)
            ⊎ (((b ≡ other_tenant)
                  × ((k : BillingRateCard) × (card ≡ some k) × (k.client_id ≢ client_id)))
                ⊎ ((i : Invoice) × (b ≡ built i)
                    × HasCard books client_id start end card i
                    × (start < end)))))
