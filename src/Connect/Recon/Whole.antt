-- ===== src/Connect/Recon/Whole.antt =====
-- The paged sum of GET /reconcile of supabase/functions/stripe-connect/index.ts covers the listing.
use luma_line.Prelude.{
  ℕ, zero, suc, ◌+◌, ◌≤◌, ◌≡◌, ◌↔◌, refl, sym, ap, ◌∙◌, String, true, ◌&&◌, Option, none, some,
  List, [], ◌∷◌, ◌++◌, truthy, length, ℤ, pos, ◌+ℤ◌, sum_ℤ, +ℤ_assoc, Bool-cases, inl, inr, arith,
}
use luma_line.Prelude.Effects.{Outcome, ok}
use luma_line.Reconcile.{floor_seconds}
use luma_line.Reconcile.Complete.{eqb_minus, zero_sum}
use luma_line.Payout.{
  Transfer, is_lumaline, net_micros, sum_lumaline_transfers_micros, sum_from-select,
}
use luma_line.Payout.Paging.{Page, Lists, last_page, next_page}
use luma_line.Connect.Recon.{
  TransferTotal, lumaline, add_page, sum_transfer_pages, PayoutTotals, ReconBackend, PayoutReport,
  payout_report, debits, payout_report_of, nothing_yet, recon_client, with_payout_totals,
  payout_reconcile,
}

page_sum : (xs : List Transfer) → sum_lumaline_transfers_micros xs ≡ sum_ℤ net_micros (lumaline xs)
unfolding sum_lumaline_transfers_micros
page_sum xs = sum_from-select (pos 0) xs ∙ zero_sum (sum_ℤ net_micros (lumaline xs))

sum_append :
    (xs ys : List Transfer)
    → sum_ℤ net_micros (lumaline (xs ++ ys))
      ≡ (sum_ℤ net_micros (lumaline xs) +ℤ sum_ℤ net_micros (lumaline ys))
sum_append [] ys = sym (zero_sum (sum_ℤ net_micros (lumaline ys)))
sum_append (x ∷ xs) ys = elim (Bool-cases (is_lumaline x)) [
  | inl e ↦ rw e (
      ap (λ n. net_micros x +ℤ n) (sum_append xs ys)
      ∙ sym (
          +ℤ_assoc (net_micros x) (sum_ℤ net_micros (lumaline xs))
            (sum_ℤ net_micros (lumaline ys))))
  | inr n ↦ rw n (sum_append xs ys)
]

count_append :
    (xs ys : List Transfer)
    → length (lumaline (xs ++ ys)) ≡ length (lumaline xs) + length (lumaline ys)
count_append [] ys = omega arith
count_append (x ∷ xs) ys = ground (arith, count_append xs ys)

-- What a total comes to after a listing.
abbrev IsAfter : TransferTotal → List Transfer → Option (Outcome TransferTotal) → Type 0
IsAfter total all o =
    (t : TransferTotal) × (o ≡ some (ok t))
    × (t.total_micros ≡ (total.total_micros +ℤ sum_ℤ net_micros (lumaline all)))
    × (t.count ≡ total.count + length (lumaline all))

module _ (list_transfers : Option String → Outcome Page) (pages : Option String → Page)
    (answers : (c : Option String) → list_transfers c ≡ ok (pages c)) where
  pages-IsAfter :
      (fuel : ℕ) (total : TransferTotal)
      → {cursor : Option String} {all : List Transfer} {n : ℕ} → n ≤ fuel
      → Lists pages cursor all n
      → IsAfter total all (sum_transfer_pages list_transfers fuel total cursor)
  unfolding sum_transfer_pages
  pages-IsAfter zero total f (last_page l) = absurd (omega arith)
  pages-IsAfter zero total f (next_page l n) = absurd (omega arith)
  pages-IsAfter (suc fuel) total {cursor} f (last_page l) = (
    add_page total (pages cursor).listed,
    rw (answers cursor, l) refl,
    ap (λ n. total.total_micros +ℤ n) (page_sum (pages cursor).listed),
    refl,
  )
  pages-IsAfter (suc fuel) total {cursor} f (next_page {rest} l n) =
      let xs = (pages cursor).listed in
      let (t, e, sum, count) = pages-IsAfter fuel (add_page total xs) (omega arith) n in
      (
        t,
        rw (answers cursor, l) e,
        sum
            ∙ (ap (λ m. (total.total_micros +ℤ m) +ℤ sum_ℤ net_micros (lumaline rest)) (page_sum xs)
                ∙ (+ℤ_assoc total.total_micros (sum_ℤ net_micros (lumaline xs))
                      (sum_ℤ net_micros (lumaline rest))
                    ∙ ap (λ m. total.total_micros +ℤ m) (sym (sum_append xs rest)))),
        omega (arith, count, count_append xs rest),
      )

-- With a client, a period of two dates that can be read and the database's totals, the route answers
-- a report, if Stripe answers every page of the period's listing and there is as much fuel as it has
-- pages. The report is ok exactly when the database's total equals what was not reversed of
-- LumaLine's transfers in the whole listing, 10000 micros for each cent, and it counts them.
pub payout_reconcile_iff :
    (b : ReconBackend) (fuel : ℕ) (from to : String) (from_ms to_ms : ℤ) (db : PayoutTotals)
    (pages : Option String → Page)
    → {all : List Transfer} {n : ℕ} → n ≤ fuel
    → (truthy from && truthy to) ≡ true
    → b.date_ms from ≡ some from_ms
    → b.date_ms to ≡ some to_ms
    → b.recon_totals from_ms to_ms ≡ ok (some db)
    → recon_client b ≡ none
    → ((c : Option String)
        → b.list_transfers (floor_seconds from_ms) (floor_seconds to_ms) c ≡ ok (pages c))
    → Lists pages none all n
    → (r : PayoutReport) × (payout_reconcile b fuel (some from) (some to)
        ≡ some (ok (payout_report r)))
      × ((r.is_ok ≡ true) ↔ (debits db ≡ sum_ℤ net_micros (lumaline all)))
      × (r.stripe_count ≡ length (lumaline all))
unfolding payout_reconcile with_payout_totals payout_report_of
payout_reconcile_iff b fuel from to from_ms to_ms db pages {all} f given d e totals client answers
      listed =
    let (t, whole, sum, count) =
      pages-IsAfter (b.list_transfers (floor_seconds from_ms) (floor_seconds to_ms)) pages answers
        fuel nothing_yet f listed in
    (
      payout_report_of db t,
      rw (given, d, e, totals, client, whole) refl,
      rw (sum, zero_sum (sum_ℤ net_micros (lumaline all)))
          (eqb_minus (debits db) (sum_ℤ net_micros (lumaline all))),
      count ∙ omega arith,
    )
