-- ===== src/Connect/Recon.antt =====
-- GET /reconcile of supabase/functions/stripe-connect/index.ts, past its guard: the payouts that the
-- database has as paid against the transfers that Stripe lists, page by page.
-- The reading of a date, the totals of the database and Stripe's listing are an environment; the
-- listing does not change while it is paged. The loop runs on fuel, one page for each unit.
pub mod Whole
use luma_line.Prelude.{
  ℕ, zero, suc, ◌+◌, ◌≤◌, ◌≡◌, ◌↔◌, refl, sym, ap, ◌∙◌, String, Bool, true, false, not, ◌&&◌,
  Option, none, some, List, [], ◌∷◌, ◌++◌, if◌then◌else◌, truthy, starts_with, ◌&◌, select, length,
  ℤ, pos, ◌+ℤ◌, ◌-ℤ◌, eqb_ℤ, sum_ℤ, +ℤ_assoc, +ℤ_zero, +ℤ_comm, Bool-cases, inl, inr, arith,
}
use luma_line.Prelude.Effects.{Fault, Outcome, ok, thrown}
use luma_line.Cycle.Settle.{stripe_missing, stripe_not_test}
use luma_line.Reconcile.{floor_seconds}
use luma_line.Payout.{
  Transfer, is_lumaline, net_micros, sum_lumaline_transfers_micros, sum_from, sum_from-select,
}
use luma_line.Payout.Paging.{Page, cursor_after, is_last, Lists, last_page, next_page}

pub record TransferTotal : Type 0 where
  pub total_micros : ℤ
  pub count : ℕ

-- The transfers of a list that are LumaLine's.
abbrev pub lumaline : List Transfer → List Transfer
lumaline = select is_lumaline

abbrev pub add_page : TransferTotal → List Transfer → TransferTotal
add_page total ts = record {
  total_micros = total.total_micros +ℤ sum_lumaline_transfers_micros ts;
  count = total.count + length (lumaline ts);
}

module _ (list_transfers : Option String → Outcome Page) where
  abbrev pub after_transfers :
      TransferTotal
      → Outcome Page
      → (TransferTotal → Option String → Option (Outcome TransferTotal))
      → Option (Outcome TransferTotal)
  after_transfers total (thrown e) next = some (thrown e)
  after_transfers total (ok page) next =
      let rest = next (add_page total page.listed) (cursor_after page.listed) in
      if is_last page then some (ok (add_page total page.listed)) else rest

  -- `none` is a loop that has run out of fuel.
  unfoldable pub sum_transfer_pages :
      ℕ → TransferTotal → Option String → Option (Outcome TransferTotal)
  unfolding cursor_after sum_lumaline_transfers_micros
  sum_transfer_pages zero total cursor = none
  sum_transfer_pages (suc fuel) total cursor =
      after_transfers total (list_transfers cursor) (λ t c. sum_transfer_pages fuel t c)

-- The totals of the database; a column that is missing counts as 0.
pub record PayoutTotals : Type 0 where
  pub payout_debits_micros : Option ℤ
  pub payout_count : Option ℕ

pub record ReconBackend : Type 0 where
  pub stripe_key : String
  pub assert_test : Bool
  pub date_ms : String → Option ℤ
  pub recon_totals : ℤ → ℤ → Outcome (Option PayoutTotals)
  pub list_transfers : ℤ → ℤ → Option String → Outcome Page

pub record PayoutReport : Type 0 where
  pub is_ok : Bool
  pub db_total_micros : ℤ
  pub stripe_total_micros : ℤ
  pub discrepancy_micros : ℤ
  pub db_count : ℕ
  pub stripe_count : ℕ

pub data ReconReply : Type 0 where
  json_err : String → ReconReply
  payout_report : PayoutReport → ReconReply

abbrev pub debits : PayoutTotals → ℤ
debits db = elim db.payout_debits_micros [ none ↦ pos 0 | some n ↦ n ]

abbrev pub payouts : PayoutTotals → ℕ
payouts db = elim db.payout_count [ none ↦ 0 | some n ↦ n ]

unfoldable pub payout_report_of : PayoutTotals → TransferTotal → PayoutReport
payout_report_of db total =
    let discrepancy = debits db -ℤ total.total_micros in
    record {
      is_ok = eqb_ℤ discrepancy (pos 0);
      db_total_micros = debits db;
      stripe_total_micros = total.total_micros;
      discrepancy_micros = discrepancy;
      db_count = payouts db;
      stripe_count = total.count;
    }

abbrev pub nothing_yet : TransferTotal
nothing_yet = record { total_micros = pos 0; count = 0 }

abbrev pub recon_replied :
    PayoutTotals → Option (Outcome TransferTotal) → Option (Outcome ReconReply)
recon_replied db none = none
recon_replied db (some (thrown e)) =
    some (ok (json_err ("Stripe transfers.list error: " & e.message)))
recon_replied db (some (ok total)) = some (ok (payout_report (payout_report_of db total)))

module _ (b : ReconBackend) where
  -- `getStripe()`; `none` is a client.
  unfoldable pub recon_client : Option Fault
  recon_client =
      if not (truthy b.stripe_key)
      then some stripe_missing
      else if b.assert_test && not (starts_with b.stripe_key "sk_test_")
      then some stripe_not_test
      else none

  abbrev pub unless_error : Option Fault → Option (Outcome ReconReply) → Option (Outcome ReconReply)
  unless_error none reply = reply
  unless_error (some e) reply = some (ok (json_err e.message))

  unfoldable pub with_payout_totals :
      ℕ → ℤ → ℤ → Outcome (Option PayoutTotals) → Option (Outcome ReconReply)
  unfolding recon_client sum_transfer_pages payout_report_of
  with_payout_totals fuel from to (thrown e) = some (thrown e)
  with_payout_totals fuel from to (ok none) = some (ok (json_err "DB payout reconcile failed"))
  with_payout_totals fuel from to (ok (some db)) = unless_error recon_client (
      recon_replied db (
        sum_transfer_pages (b.list_transfers (floor_seconds from) (floor_seconds to)) fuel
          nothing_yet none))

  abbrev pub with_recon_dates : ℕ → Option ℤ → Option ℤ → Option (Outcome ReconReply)
  with_recon_dates fuel (some from) (some to) =
      with_payout_totals fuel from to (b.recon_totals from to)
  with_recon_dates fuel none to = some (ok (json_err "Invalid date — use ISO 8601"))
  with_recon_dates fuel (some from) none = some (ok (json_err "Invalid date — use ISO 8601"))

  abbrev pub no_dates : Option (Outcome ReconReply)
  no_dates = some (ok (json_err "Missing required query params: from, to (ISO 8601)"))

  -- `none` only when the fuel runs out.
  unfoldable pub payout_reconcile : ℕ → Option String → Option String → Option (Outcome ReconReply)
  unfolding with_payout_totals
  payout_reconcile fuel none to = no_dates
  payout_reconcile fuel (some from) none = no_dates
  payout_reconcile fuel (some from) (some to) =
      if truthy from && truthy to
      then with_recon_dates fuel (b.date_ms from) (b.date_ms to)
      else no_dates
