-- ===== src/Reconcile/Complete.antt =====
-- The paged sum of GET /reconcile (supabase/functions/billing/index.ts) covers the whole listing.
use luma_line.Prelude.{
  ℕ, zero, suc, ◌+◌, ◌≤◌, ◌≡◌, ◌↔◌, refl, sym, ap, ◌∙◌, String, true, false, ◌&&◌, Option, none,
  some, List, [], ◌∷◌, ◌++◌, if◌then◌else◌, Bool-cases, inl, inr, truthy, select, length, ℤ, pos,
  ◌+ℤ◌, ◌-ℤ◌, -ℤ_parts, eq_of_parts, eqb_ℤ, sum_ℤ, +ℤ_assoc, +ℤ_zero, +ℤ_comm, arith,
}
use luma_line.Prelude.Effects.{Outcome, ok}
use luma_line.Reconcile.{
  ListedIntent, IntentPage, is_collected, intent_micros, StripeTotal, count_intent, count_page,
  last_id, sent, goes_on, sum_pages, Recon, ReconcileBackend, Report, report, or_zero_total,
  floor_seconds, start, report_of, client_error, with_totals, reconcile,
}

-- The LumaLine intents of a listing that succeeded.
abbrev pub collected : List ListedIntent → List ListedIntent
collected pis = select is_collected pis

count_page-append :
    (t : StripeTotal) (xs ys : List ListedIntent)
    → count_page t (xs ++ ys) ≡ count_page (count_page t xs) ys
unfolding count_page
count_page-append t [] ys = refl
count_page-append t (x ∷ xs) ys = count_page-append (count_intent t x) xs ys

-- One intent counts if it was collected.
intent_sum :
    (t : StripeTotal) (x : ListedIntent) (ys : List ListedIntent)
    → ((count_intent t x).total_micros +ℤ sum_ℤ intent_micros ys)
      ≡ (t.total_micros +ℤ sum_ℤ intent_micros (if is_collected x then x ∷ ys else ys))
intent_sum t x ys = elim (Bool-cases (is_collected x)) [
  | inl e ↦ rw e (+ℤ_assoc t.total_micros (intent_micros x) (sum_ℤ intent_micros ys))
  | inr e ↦ rw e refl
]

intent_count :
    (t : StripeTotal) (x : ListedIntent) (ys : List ListedIntent)
    → (count_intent t x).count + length ys
      ≡ t.count + length (if is_collected x then x ∷ ys else ys)
intent_count t x ys = elim (Bool-cases (is_collected x)) [
  | inl e ↦ rw e (omega arith)
  | inr e ↦ rw e refl
]

count_page-sum :
    (t : StripeTotal) (xs : List ListedIntent)
    → (count_page t xs).total_micros ≡ t.total_micros +ℤ sum_ℤ intent_micros (collected xs)
unfolding count_page
count_page-sum t [] = sym (+ℤ_zero t.total_micros)
count_page-sum t (x ∷ xs) = count_page-sum (count_intent t x) xs ∙ intent_sum t x (collected xs)

count_page-count :
    (t : StripeTotal) (xs : List ListedIntent)
    → (count_page t xs).count ≡ t.count + length (collected xs)
unfolding count_page
count_page-count t [] = omega arith
count_page-count t (x ∷ xs) =
    count_page-count (count_intent t x) xs ∙ intent_count t x (collected xs)

module _ (list_intents : Option String → Outcome IntentPage) where
  -- The listing from a cursor on, page by page: a page that goes on sets the cursor from which the
  -- next ones are listed.
  pub data Pages : Option String → List ListedIntent → ℕ → Type 0 where
    last_page :
        {cursor : Option String} {page : IntentPage}
        → list_intents (sent cursor) ≡ ok page
        → goes_on page ≡ false
        → Pages cursor page.listed 1
    next_page :
        {cursor : Option String} {page : IntentPage} {rest : List ListedIntent} {pages : ℕ}
        → list_intents (sent cursor) ≡ ok page
        → goes_on page ≡ true
        → Pages (last_id page.listed) rest pages
        → Pages cursor (page.listed ++ rest) (suc pages)

  pub sum_pages-count_page :
      (fuel : ℕ) (t : StripeTotal)
      → {cursor : Option String} {all : List ListedIntent} {pages : ℕ} → pages ≤ fuel
      → Pages cursor all pages
      → sum_pages list_intents fuel t cursor ≡ some (ok (count_page t all))
  unfolding sum_pages
  sum_pages-count_page zero t f (last_page l g) = ground arith
  sum_pages-count_page zero t f (next_page l g n) = ground arith
  sum_pages-count_page (suc fuel) t f (last_page l g) = rw (l, g) refl
  sum_pages-count_page (suc fuel) t f (next_page {page} {rest} l g n) =
      rw (l, g)
        (sum_pages-count_page fuel (count_page t page.listed) (omega arith) n
          ∙ ap (λ u. some (ok u)) (sym (count_page-append t page.listed rest)))

pub zero_sum : (n : ℤ) → (pos 0 +ℤ n) ≡ n
zero_sum n = +ℤ_comm (pos 0) n ∙ +ℤ_zero n

pub eqb_minus : (a b : ℤ) → (eqb_ℤ (a -ℤ b) (pos 0) ≡ true) ↔ (a ≡ b)
eqb_minus a b =
    (λ h. eq_of_parts a b (ground (arith, -ℤ_parts a b)), λ e. rw e (ground (arith, -ℤ_parts b b)))

-- With a client, a period of two dates that can be read and the database's totals, the route answers
-- a report, if it has as much fuel as Stripe's listing of that period has pages. The report is ok
-- exactly when the database's total is 10000 micros for each cent of the succeeded LumaLine intents
-- of the whole listing, and it counts those intents.
pub reconcile_iff :
    (b : ReconcileBackend) (fuel : ℕ) (from to : String) (from_ms to_ms : ℤ) (db : Option Recon)
    → {all : List ListedIntent} {pages : ℕ} → pages ≤ fuel
    → (truthy from && truthy to) ≡ true
    → b.date_ms from ≡ some from_ms
    → b.date_ms to ≡ some to_ms
    → b.recon_totals (b.iso from_ms) (b.iso to_ms) ≡ ok (some db)
    → client_error b ≡ none
    → Pages (b.list_intents (floor_seconds from_ms) (floor_seconds to_ms)) none all pages
    → (r : Report) × (reconcile b fuel (some from) (some to) ≡ some (ok (report r)))
      × ((r.is_ok ≡ true) ↔ (or_zero_total db ≡ sum_ℤ intent_micros (collected all)))
      × (r.stripe_count ≡ length (collected all))
unfolding reconcile with_totals report_of
reconcile_iff b fuel from to from_ms to_ms db {all} f given e i totals client listed = (
  report_of db (count_page start all),
  rw
      (
        given,
        e,
        i,
        totals,
        client,
        sum_pages-count_page (b.list_intents (floor_seconds from_ms) (floor_seconds to_ms)) fuel
            start f listed,
      )
      refl,
  rw (count_page-sum start all, zero_sum (sum_ℤ intent_micros (collected all)))
      (eqb_minus (or_zero_total db) (sum_ℤ intent_micros (collected all))),
  count_page-count start all ∙ omega arith,
)
