-- ===== src/Tests/Cycle.antt =====
-- Runs of the billing cycle at concrete inputs (supabase/functions/billing/index.ts).
use luma_line.Billing.Charges.{Pending, Plan, Action as PlanAction, charge, draw_prepay}
use luma_line.Cycle.Settle.{BatchResult, ResultStatus, report}
use luma_line.Cycle.Preview.{
  lived, billing_response, preview, total, draw_plans, billing_response-total,
}
use luma_line.Prelude.{
  ℕ, zero, suc, String, true, none, some, [], ◌∷◌, ◌≡◌, refl, ℤ, pos, All, inl, arith, trim, map,
  length, ◌+◌, false, List, floor_cents, ◌+ℤ◌,
}
use luma_line.Prelude.Effects.{Outcome, ok, thrown, after, handled, ended}
use luma_line.Prelude.JsMap.{set}
use luma_line.Billing.Method.{choose_payment_method, is_live_key}
use luma_line.Cycle.Tables.{change_rows}
use luma_line.Billing.Settle.{batch_idempotency_key, choose_settle_route}
use luma_line.Cycle.{
  ChargeStatus, pending, succeeded, ChargeRow, IntentRequest, Books, Backend, applied,
  network_error,
}
use luma_line.Cycle.Charge.{charge_run}
use luma_line.Cycle.Settled.{Has, charge_runs, charge_runs-settled}
use luma_line.Cycle.Asked.{IsPayable, charge_runs-IsPayable}
use luma_line.Cycle.Locked.{IsBalanced, charge_run-IsBalanced}
use luma_line.Cycle.Frozen.{IsFor}
use luma_line.Cycle.Frozen.Amount.{charge_runs-IsFor}
use luma_line.Cycle.Rows.{pending_of}

abbrev row : String → ℤ → ChargeStatus → ChargeRow
row group micros status = record {
  entry_group_id = group;
  advertiser_id = "a1";
  impression_id = some "i1";
  amount_micros = micros;
  amount_cents = pos 0;
  status = status;
  charge_batch_id = some "b1";
  settle_mode = some "postpay";
  stripe_charge_id = none;
  stripe_customer_id = none;
  failure_reason = none;
  settled_via = none;
}

-- The intent of the first request is lost on the way back; later ones arrive.
abbrev late : ℕ → Outcome String × ℕ
late zero = (thrown network_error, 1)
late (suc w) = (ok "pi_1", suc w)

abbrev demo : Backend ℕ
demo = record {
  stripe_key = "sk_test_1";
  assert_test = true;
  fate = λ w. (applied, w);
  uuid = λ w. ("b2", w);
  uncharged = λ w. (ok (some []), w);
  advertiser = λ a w. (ok none, w);
  campaigns = λ a w. (ok none, w);
  acquire_lock = λ w. (ok (some "lock"), w);
  draw_down = λ a batch sum w. (ok (record { is_ok = true; drawn = true; reason = none }), w);
  create_customer = λ name a w. (ok "cus_1", w);
  default_method = λ c w. (ok (some "pm_1"), w);
  card_methods = λ c w. (ok [], w);
  search_intents = λ batch w. (ok [], w);
  create_intent = λ r w. late w;
}

abbrev start : Books ℕ
start = record {
  rows =
      row "g0" (pos 700000) succeeded
      ∷ row "g1" (pos 600000) pending
      ∷ row "g2" (pos 19999) pending
      ∷ [];
  stamps = [];
  paused = [];
  customers = [];
  intents = [];
  locks = [];
  world = 0;
}

charge_runs-settled_example :
    Has (row "g0" (pos 700000) succeeded) (charge_runs (demo ∷ demo ∷ []) start).rows
charge_runs-settled_example =
    charge_runs-settled (demo ∷ demo ∷ []) start (row "g0" (pos 700000) succeeded) refl (inl refl)

charge_runs-IsPayable_example : All IsPayable (charge_runs (demo ∷ demo ∷ []) start).intents
charge_runs-IsPayable_example = charge_runs-IsPayable (demo ∷ demo ∷ []) start tt

charge_run-IsBalanced_example :
    IsBalanced [] (charge_run demo start).0 (charge_run demo start).1.locks
charge_run-IsBalanced_example = charge_run-IsBalanced demo start (λ w. refl)

charge_runs-IsFor_example :
    All (IsFor "b1" (pending_of "b1" start.rows)) (charge_runs (demo ∷ demo ∷ []) start).intents
charge_runs-IsFor_example =
    charge_runs-IsFor "b1" refl (demo ∷ demo ∷ []) ((λ w. refl), ((λ w. refl), tt)) start
      (omega arith) (refl, (refl, (refl, tt))) tt

-- The first run asks for 61 cents and does not see the answer; the second asks again, with the same
-- key, and settles both rows.
abbrev asked : IntentRequest
asked = record {
  key = "lumaline_agg_b1";
  batch_id = "b1";
  amount = pos 61;
  customer = "cus_1";
  payment_method = "pm_1";
}

recovered : (charge_runs (demo ∷ demo ∷ []) start).intents ≡ asked ∷ asked ∷ []
unfolding charge_run after ended set choose_settle_route handled choose_payment_method trim
    is_live_key floor_cents ◌+ℤ◌ change_rows batch_idempotency_key
recovered = refl

abbrev due : Pending
due = record {
  advertiser_id = "a2";
  advertiser_name = none;
  is_house = false;
  billing_mode = "prepay";
  stripe_customer_id = none;
  groups =
      record {
        entry_group_id = "g3";
        amount_micros = pos 9;
        impression_id = none;
        publisher_id = none;
      }
      ∷ [];
  sum_micros = pos 9;
}

abbrev plan : PlanAction → Plan
plan action = record {
  pending = due;
  entry_group_ids = "g3" ∷ [];
  sum_cents = pos 0;
  action = action;
}

abbrev plans : List Plan
plans = plan draw_prepay ∷ plan charge ∷ []

abbrev result : BatchResult
result = report "a1" ResultStatus.failed (some "card_declined") (some "b1")

billing_response-total_example :
    (total (billing_response (map lived (result ∷ []))).counts
      ≡ (billing_response (map lived (result ∷ []))).processed)
    × (total (billing_response (preview plans)).counts + length (draw_plans plans)
        ≡ (billing_response (preview plans)).processed)
billing_response-total_example = billing_response-total (result ∷ []) plans

-- Two results, and one in the counts.
preview_short :
    (total (billing_response (preview plans)).counts ≡ 1)
    × ((billing_response (preview plans)).processed ≡ 2)
unfolding billing_response preview
preview_short = (omega arith, omega arith)
