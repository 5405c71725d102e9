-- ===== src/Reconcile.antt =====
-- The route GET /reconcile of supabase/functions/billing/index.ts, past its guard: the cleared ledger
-- against the PaymentIntents that Stripe lists, page by page.
-- The reading of a date, the totals of the database and Stripe's listing are an environment; the
-- listing does not change while it is paged. The loop runs on fuel, one page for each unit.
pub mod Complete
use luma_line.Prelude.{
  ℕ, zero, suc, ◌+◌, ◌≤◌, ◌≡◌, refl, sym, ap, ◌∙◌, String, Bool, true, false, not, ◌&&◌, Option,
  none, some, List, [], ◌∷◌, ◌++◌, if◌then◌else◌, str_eq, starts_with, truthy, ◌&◌, ◌/◌, select,
  length, length-append, ℤ, pos, negsuc, ◌+ℤ◌, ◌-ℤ◌, scale, eqb_ℤ, sum_ℤ, +ℤ_assoc, +ℤ_zero, arith,
}
use mathlib.Core.Option as Option
use luma_line.Prelude.Effects.{Fault, Outcome, ok, thrown}
use luma_line.Cycle.Settle.{stripe_missing, stripe_not_test}
use luma_line.Cycle.Tables.{is_text}

pub record ListedIntent : Type 0 where
  pub id : String
  pub source : Option String
  pub status : String
  pub amount : ℤ

pub record IntentPage : Type 0 where
  pub listed : List ListedIntent
  pub has_more : Bool

-- A succeeded intent of LumaLine's.
abbrev pub is_collected : ListedIntent → Bool
is_collected pi = is_text pi.source "lumaline" && str_eq pi.status "succeeded"

-- `pi.amount * 10000`
abbrev pub intent_micros : ListedIntent → ℤ
intent_micros pi = scale 10000 pi.amount

pub record StripeTotal : Type 0 where
  pub total_micros : ℤ
  pub count : ℕ

abbrev pub count_intent : StripeTotal → ListedIntent → StripeTotal
count_intent t pi =
    if is_collected pi
    then record { total_micros = t.total_micros +ℤ intent_micros pi; count = t.count + 1 }
    else t

unfoldable pub count_page : StripeTotal → List ListedIntent → StripeTotal
count_page t [] = t
count_page t (pi ∷ pis) = count_page (count_intent t pi) pis

unfoldable pub last_id : List ListedIntent → Option String
last_id [] = none
last_id (pi ∷ []) = some pi.id
last_id (pi ∷ (qi ∷ pis)) = last_id (qi ∷ pis)

-- `starting_after` is sent if it is truthy.
abbrev pub sent : Option String → Option String
sent none = none
sent (some id) = if truthy id then some id else none

abbrev pub goes_on : IntentPage → Bool
goes_on p = elim p.listed [ [] ↦ false | pi ∷ pis ↦ p.has_more ]

module _ (list_intents : Option String → Outcome IntentPage) where
  abbrev after_page :
      StripeTotal
      → Outcome IntentPage
      → (StripeTotal → Option String → Option (Outcome StripeTotal))
      → Option (Outcome StripeTotal)
  after_page t (thrown e) next = some (thrown e)
  after_page t (ok page) next =
      let rest = next (count_page t page.listed) (last_id page.listed) in
      if goes_on page then rest else some (ok (count_page t page.listed))

  -- `none` is a loop that has run out of fuel.
  unfoldable pub sum_pages : ℕ → StripeTotal → Option String → Option (Outcome StripeTotal)
  unfolding count_page last_id
  sum_pages zero t cursor = none
  sum_pages (suc fuel) t cursor =
      after_page t (list_intents (sent cursor)) (λ t cursor. sum_pages fuel t cursor)

-- The total of the database; a column or a row that is missing counts as 0.
pub record Recon : Type 0 where
  pub total_micros : Option ℤ
  pub entry_count : Option ℕ

pub record ReconcileBackend : Type 0 where
  pub stripe_key : String
  pub assert_test : Bool
  pub date_ms : String → Option ℤ
  pub iso : ℤ → String
  pub recon_totals : String → String → Outcome (Option (Option Recon))
  pub list_intents : ℤ → ℤ → Option String → Outcome IntentPage

pub record Report : Type 0 where
  pub is_ok : Bool
  pub db_total_micros : ℤ
  pub stripe_total_micros : ℤ
  pub discrepancy_micros : ℤ
  pub db_count : ℕ
  pub stripe_count : ℕ

pub data ReconcileReply : Type 0 where
  json_err : String → ℕ → ReconcileReply
  query_failed : ReconcileReply
  report : Report → ReconcileReply

abbrev pub or_zero_total : Option Recon → ℤ
or_zero_total none = pos 0
or_zero_total (some r) = elim r.total_micros [ none ↦ pos 0 | some n ↦ n ]

abbrev pub or_zero_count : Option Recon → ℕ
or_zero_count none = 0
or_zero_count (some r) = elim r.entry_count [ none ↦ 0 | some n ↦ n ]

-- `Math.floor(ms / 1000)`
abbrev pub floor_seconds : ℤ → ℤ
floor_seconds (pos n) = pos (n / 1000)
floor_seconds (negsuc n) = negsuc (n / 1000)

abbrev pub start : StripeTotal
start = record { total_micros = pos 0; count = 0 }

unfoldable pub report_of : Option Recon → StripeTotal → Report
report_of db t =
    let discrepancy = or_zero_total db -ℤ t.total_micros in
    record {
      is_ok = eqb_ℤ discrepancy (pos 0);
      db_total_micros = or_zero_total db;
      stripe_total_micros = t.total_micros;
      discrepancy_micros = discrepancy;
      db_count = or_zero_count db;
      stripe_count = t.count;
    }

abbrev pub replied : Option Recon → Outcome StripeTotal → ReconcileReply
replied db (thrown e) = json_err ("Stripe error: " & e.message) 502
replied db (ok t) = report (report_of db t)

module _ (b : ReconcileBackend) where
  -- `getStripe()`; `none` is a client.
  unfoldable pub client_error : Option Fault
  client_error =
      if not (truthy b.stripe_key)
      then some stripe_missing
      else if b.assert_test && not (starts_with b.stripe_key "sk_test_")
      then some stripe_not_test
      else none

  abbrev pub or_error : Option Fault → Option ReconcileReply → Option ReconcileReply
  or_error none reply = reply
  or_error (some e) reply = some (json_err e.message 503)

  unfoldable pub with_totals :
      ℕ → ℤ → ℤ → Outcome (Option (Option Recon)) → Option (Outcome ReconcileReply)
  unfolding client_error sum_pages report_of
  with_totals fuel from to (thrown e) = some (thrown e)
  with_totals fuel from to (ok none) = some (ok query_failed)
  with_totals fuel from to (ok (some db)) = Option.map ok (
      or_error client_error (
        Option.map (replied db)
          (sum_pages (b.list_intents (floor_seconds from) (floor_seconds to)) fuel start none)))

  abbrev pub with_dates : ℕ → Option ℤ → Option ℤ → Option (Outcome ReconcileReply)
  with_dates fuel (some from) (some to) =
      with_totals fuel from to (b.recon_totals (b.iso from) (b.iso to))
  with_dates fuel none to =
      some (ok (json_err "Invalid date — use ISO 8601 (e.g. 2026-06-01T00:00:00Z)" 400))
  with_dates fuel (some from) none =
      some (ok (json_err "Invalid date — use ISO 8601 (e.g. 2026-06-01T00:00:00Z)" 400))

  abbrev pub no_period : Option (Outcome ReconcileReply)
  no_period = some (ok (json_err "Missing required query params: from, to (ISO 8601)" 400))

  -- `none` only when the fuel runs out.
  unfoldable pub reconcile : ℕ → Option String → Option String → Option (Outcome ReconcileReply)
  unfolding with_totals
  reconcile fuel none to = no_period
  reconcile fuel (some from) none = no_period
  reconcile fuel (some from) (some to) =
      if truthy from && truthy to
      then with_dates fuel (b.date_ms from) (b.date_ms to)
      else no_period
