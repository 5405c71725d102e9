-- ===== src/Cycle/Settle.antt =====
-- How a reserved batch is settled, on a PaymentIntent or on the prepay balance:
-- `settleReservedBatch`, `resolveCustomerAndPm` and `settlePrepayBatch` of
-- supabase/functions/billing/index.ts.
use luma_line.Prelude.{
  String, Bool, false, not, ◌&&◌, ◌||◌, Option, none, some, List, [], ◌∷◌, map, if◌then◌else◌,
  starts_with, truthy, ℤ, pos, ltb_ℤ, sum_ℤ, floor_cents,
}
use luma_line.Prelude.Effects.{Fault, Action, pure, throw, catch, ◌>>=◌, ◌>>◌}
use luma_line.Billing.Settle.{batch_idempotency_key, should_adopt_pi}
use luma_line.Billing.Method.{
  Choice, pm, skip_no_payment_method, is_live_key, choose_payment_method,
}
use luma_line.Cycle.{
  ChargeRow, IntentRequest, Intent, DrawReply, Books, Backend, svc_write, outside,
}
use luma_line.Cycle.Tables.{
  is_text, group_id, reselect_by_batch, release_batch, mark_pending_charged,
  mark_pending_charged_balance, mark_pending_failed, pause_advertiser_line_items,
}

pub record BatchAdvertiser : Type 0 where
  pub advertiser_id : String
  pub advertiser_name : Option String
  pub stripe_customer_id : Option String
  pub is_house : Bool
  pub billing_mode : String

pub data ResultStatus : Type 0 where
  succeeded skipped failed : ResultStatus

-- What the run reports of a batch; the sums and counts that it repeats are left out.
pub record BatchResult : Type 0 where
  pub advertiser_id : String
  pub status : ResultStatus
  pub reason : Option String
  pub batch_id : Option String
  pub stripe_id : Option String
  pub settled_via : Option String

abbrev pub report : String → ResultStatus → Option String → Option String → BatchResult
report advertiser status reason batch = record {
  advertiser_id = advertiser;
  status = status;
  reason = reason;
  batch_id = batch;
  stripe_id = none;
  settled_via = none;
}

abbrev pub row_micros : ChargeRow → ℤ
row_micros r = r.amount_micros

-- The cents of a set of rows: the floor of the sum.
abbrev pub batch_cents : List ChargeRow → ℤ
batch_cents rows = floor_cents (sum_ℤ row_micros rows)

abbrev pub impressions_of : List ChargeRow → List String
impressions_of [] = []
impressions_of (r ∷ rows) = elim r.impression_id [
  | none ↦ impressions_of rows
  | some id ↦ if truthy id then id ∷ impressions_of rows else impressions_of rows
]

abbrev pub first_adopted : List Intent → Option String
first_adopted [] = none
first_adopted (pi ∷ pis) =
    let rest = first_adopted pis in if should_adopt_pi pi.status then some pi.id else rest

pub data Resolved : Type 0 where
  with_method : String → String → Resolved
  no_method : Resolved
  failed_with : String → Resolved

abbrev pub stripe_missing : Fault
stripe_missing = record { decline = false; message = "STRIPE_SECRET_KEY is not configured" }

abbrev pub stripe_not_test : Fault
stripe_not_test = record { decline = false; message = "STRIPE_SECRET_KEY must be a test key" }

module _ {W : Type 0} (b : Backend W) where
  -- `getStripe()`; the client that it keeps depends on the key alone.
  unfoldable pub get_stripe : Action (Books W) (Unit {0})
  get_stripe =
      if not (truthy b.stripe_key)
      then throw stripe_missing
      else if b.assert_test && not (starts_with b.stripe_key "sk_test_")
      then throw stripe_not_test
      else pure tt

  abbrev pub create_customer : String → String → Action (Books W) String
  create_customer name advertiser = do
    id ← outside (b.create_customer name advertiser)
    svc_write b (λ s. record s { customers = (advertiser, id) ∷ s.customers })
    pure id

  unfoldable pub get_or_create_stripe_customer :
      String → String → Option String → Action (Books W) String
  unfolding svc_write
  get_or_create_stripe_customer advertiser name none = create_customer name advertiser
  get_or_create_stripe_customer advertiser name (some id) =
      if truthy id then pure id else create_customer name advertiser

  unfoldable pub resolve_payment_method : String → Action (Books W) Choice
  resolve_payment_method customer = do
    default ← outside (b.default_method customer)
    attached ← outside (b.card_methods customer)
    pure
        (choose_payment_method (is_live_key (some b.stripe_key)) default (some (map some attached)))

  abbrev pub resolved : String → Choice → Resolved
  resolved customer (pm id) = with_method customer id
  resolved customer skip_no_payment_method = no_method

  abbrev pub text_or_empty : Option String → String
  text_or_empty none = ""
  text_or_empty (some t) = t

  unfoldable pub resolve_customer_and_pm : BatchAdvertiser → Action (Books W) Resolved
  unfolding get_stripe get_or_create_stripe_customer resolve_payment_method
  resolve_customer_and_pm adv =
      catch
        (do
          get_stripe
          customer ←
              get_or_create_stripe_customer adv.advertiser_id (text_or_empty adv.advertiser_name)
                adv.stripe_customer_id
          choice ← resolve_payment_method customer
          pure (resolved customer choice))
        (λ (e : Fault). pure (failed_with e.message))

  -- The PaymentIntent that already carries the batch, if the search finds one.
  unfoldable pub adopt_intent : String → Action (Books W) (Option String)
  adopt_intent batch =
      catch (do found ← outside (b.search_intents batch); pure (first_adopted found))
        (λ (e : Fault). pure none)

  abbrev pub request_of : String → ℤ → String → String → IntentRequest
  request_of batch cents customer method = record {
    key = batch_idempotency_key batch;
    batch_id = batch;
    amount = cents;
    customer = customer;
    payment_method = method;
  }

  -- `paymentIntents.create`; the request is noted before Stripe answers.
  unfoldable pub create_intent : IntentRequest → Action (Books W) String
  create_intent r s = outside (b.create_intent r) (record s { intents = r ∷ s.intents })

  unfoldable pub intent_for : IntentRequest → Option String → Action (Books W) String
  unfolding create_intent
  intent_for r (some id) = pure id
  intent_for r none = create_intent r

  abbrev pub stamp_all : String → List String → List (String × String) → List (String × String)
  stamp_all intent [] stamps = stamps
  stamp_all intent (i ∷ is) stamps = (i, intent) ∷ stamp_all intent is stamps

  unfoldable pub stamp_impressions : List String → String → Action (Books W) (Unit {0})
  unfolding svc_write
  stamp_impressions [] intent = pure tt
  stamp_impressions (i ∷ is) intent = do
    svc_write b (λ s. record s { stamps = stamp_all intent (i ∷ is) s.stamps })
    pure tt

  unfoldable pub charge_intent :
      String → BatchAdvertiser → String → String → List ChargeRow → Action (Books W) BatchResult
  unfolding get_stripe adopt_intent intent_for mark_pending_charged stamp_impressions
  charge_intent batch adv customer method rows = do
    get_stripe
    adopted ← adopt_intent batch
    intent ← intent_for (request_of batch (batch_cents rows) customer method) adopted
    mark_pending_charged b (map group_id rows) intent customer
    stamp_impressions (impressions_of rows) intent
    pure (record (report adv.advertiser_id succeeded none (some batch)) { stripe_id = some intent })

  -- Only a decline fails the rows for good; any other error leaves them pending.
  unfoldable pub charge_failed :
      String → BatchAdvertiser → List ChargeRow → Fault → Action (Books W) BatchResult
  unfolding mark_pending_failed pause_advertiser_line_items
  charge_failed batch adv rows e =
      if e.decline
      then (do
        mark_pending_failed b (map group_id rows) e.message
        pause_advertiser_line_items b adv.advertiser_id
        pure (report adv.advertiser_id failed (some e.message) (some batch)))
      else pure (report adv.advertiser_id failed (some e.message) (some batch))

  unfoldable pub released :
      String → BatchAdvertiser → List ChargeRow → String → Action (Books W) BatchResult
  released batch adv rows reason = do
    release_batch b (map group_id rows)
    pure (report adv.advertiser_id skipped (some reason) (some batch))

  abbrev pub nothing_pending : String → BatchAdvertiser → BatchResult
  nothing_pending batch adv = report adv.advertiser_id skipped (some "nothing_pending") (some batch)

  unfoldable pub settle_rows :
      String → BatchAdvertiser → String → String → List ChargeRow → Action (Books W) BatchResult
  unfolding release_batch charge_intent charge_failed
  settle_rows batch adv customer method [] = pure (nothing_pending batch adv)
  settle_rows batch adv customer method (r ∷ rows) =
      if adv.is_house
      then released batch adv (r ∷ rows) "house_advertiser"
      else if ltb_ℤ (batch_cents (r ∷ rows)) (pos 50)
      then released batch adv (r ∷ rows) "below_stripe_minimum"
      else catch (charge_intent batch adv customer method (r ∷ rows))
          (charge_failed batch adv (r ∷ rows))

  unfoldable pub settle_reserved_batch :
      String → BatchAdvertiser → String → String → Action (Books W) BatchResult
  unfolding reselect_by_batch settle_rows
  settle_reserved_batch batch adv customer method = do
    rows ← reselect_by_batch b batch
    settle_rows batch adv customer method rows

  abbrev pub is_drawn : DrawReply → Bool
  is_drawn d = d.is_ok && (d.drawn || is_text d.reason "duplicate")

  abbrev pub or_draw_down_failed : Option String → String
  or_draw_down_failed none = "draw_down_failed"
  or_draw_down_failed (some reason) = reason

  abbrev pub duplicate_reason : Option String → Option String
  duplicate_reason reason = if is_text reason "duplicate" then reason else none

  unfoldable pub prepay_outcome :
      String → BatchAdvertiser → List ChargeRow → DrawReply → Action (Books W) BatchResult
  unfolding mark_pending_charged_balance pause_advertiser_line_items
  prepay_outcome batch adv rows d =
      if is_drawn d
      then (do
        mark_pending_charged_balance b (map group_id rows)
        pure (record (report adv.advertiser_id succeeded (duplicate_reason d.reason) (some batch)) {
          settled_via = some "balance";
        }))
      else if is_text d.reason "insufficient_balance"
      then (do
        pause_advertiser_line_items b adv.advertiser_id
        pure (report adv.advertiser_id skipped (some "insufficient_balance") (some batch)))
      else pure
          (report adv.advertiser_id skipped (some (or_draw_down_failed d.reason)) (some batch))

  unfoldable pub settle_prepay_rows :
      String → BatchAdvertiser → List ChargeRow → Action (Books W) BatchResult
  unfolding release_batch prepay_outcome
  settle_prepay_rows batch adv [] = pure (nothing_pending batch adv)
  settle_prepay_rows batch adv (r ∷ rows) =
      if adv.is_house then released batch adv (r ∷ rows) "house_advertiser" else (do
        d ← outside (b.draw_down adv.advertiser_id batch (sum_ℤ row_micros (r ∷ rows)))
        prepay_outcome batch adv (r ∷ rows) d)

  unfoldable pub settle_prepay_batch : String → BatchAdvertiser → Action (Books W) BatchResult
  unfolding reselect_by_batch settle_prepay_rows
  settle_prepay_batch batch adv = do
    rows ← reselect_by_batch b batch
    settle_prepay_rows batch adv rows
