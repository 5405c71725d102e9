-- ===== src/Tests/Money.antt =====
-- Charges, balances, clawbacks and payouts on concrete inputs.
use luma_line.Prelude.{
  ◌≡◌, trim, ◌≢◌, ◌↔◌, ◌⊎◌, refl, String, true, false, Option, none, some, List, [], ◌∷◌, arith,
  truthy, ℤ, pos, ◌-ℤ◌, ◌≤ℤ◌, ◌<ℤ◌, sum_ℤ, floor_cents,
}
use luma_line.Prelude.JsMap.{get}
use luma_line.Billing.Charges.{
  Row, Charge, by_advertiser, plan_advertiser_charges, partition_pending_by_batch,
}
use luma_line.Billing.Charges.Grouped.{
  own_rows, due, by_advertiser-due, batch_rows, batch_of, partition_batch, row_micros,
}
use luma_line.Billing.Charges.Conserved.{plan_micros, plan_cents, plans_conserve}
use luma_line.Billing.Settle.{DrawDown, plan_advertiser_draw_down, draw_down_all_or_nothing}
use luma_line.Billing.Method.{
  choose_payment_method, pm, IsSource, default_id, attached_ids, test_fallback_pm,
  choose_payment_method_sound, is_live_key,
}
use luma_line.Advertiser.{ChargebackSplit, plan_chargeback_split}
use luma_line.Clawback.{
  ClawbackInput, ClawbackDecision, manual_clawback_allowed, manual_clawback_iff, reverse, no_op,
  IsOpen, IsPositive,
}
use luma_line.Payout.{Transfer, TransferError}
use luma_line.Payout.Paging.{
  Page, find_in, find_transfer_id, cursor_after, next_page, last_page, find_transfer_id_complete,
}

abbrev row : String → String → ℤ → Row
row id mode micros = record {
  advertiser_id = id;
  advertiser_name = none;
  is_house = false;
  stripe_customer_id = none;
  billing_mode = some mode;
  entry_group_id = "g";
  amount_micros = some micros;
  impression_id = none;
  publisher_id = none;
}

abbrev rows : List Row
rows =
    row "a" "postpay" (pos 15_000) ∷ row "b" "prepay" (pos 70) ∷ row "a" "prepay" (pos 9_999) ∷ []

by_advertiser-due_example : get (by_advertiser rows) "a" ≡ due (own_rows "a" rows)
by_advertiser-due_example = by_advertiser-due rows "a"

plans_conserve_example :
    (sum_ℤ plan_micros (plan_advertiser_charges (pos 50) rows) ≡ sum_ℤ row_micros rows)
    × (sum_ℤ plan_cents (plan_advertiser_charges (pos 50) rows)
        ≤ℤ floor_cents (sum_ℤ row_micros rows))
plans_conserve_example = plans_conserve (pos 50) rows

abbrev charges : List Charge
charges =
    record { charge_batch_id = some "k"; advertiser_id = "a"; amount_micros = none }
    ∷ record { charge_batch_id = none; advertiser_id = "b"; amount_micros = none }
    ∷ []

partition_batch_example :
    get (partition_pending_by_batch charges) "k" ≡ batch_of (batch_rows "k" charges)
partition_batch_example = partition_batch charges "k"

abbrev drawn : DrawDown
drawn = plan_advertiser_draw_down (some (pos 9)) (some (pos 4)) (some (pos 5))

draw_down_all_or_nothing_example :
    ((drawn.draw ≡ true) ↔ ((pos 0 <ℤ pos 5) × (pos 5 ≤ℤ pos 9)))
    × (((drawn.draw ≡ true) × (drawn.amount_micros ≡ pos 5))
        ⊎ ((drawn.draw ≡ false) × (drawn.amount_micros ≡ pos 0)))
    × (pos 0 ≤ℤ (pos 9 -ℤ drawn.amount_micros))
    × ((drawn.reserved_underflow ≡ true) ↔ ((pos 0 <ℤ pos 5) × (pos 4 <ℤ pos 5)))
draw_down_all_or_nothing_example = draw_down_all_or_nothing (pos 9) (pos 4) (pos 5) (omega arith)

abbrev frozen : String
frozen = "prepay"

chooses : choose_payment_method true none (some (none ∷ some " pm_1 " ∷ [])) ≡ pm "pm_1"
unfolding choose_payment_method attached_ids trim
chooses = refl

choose_payment_method_sound_example :
    IsSource true (default_id none) (attached_ids (none ∷ some " pm_1 " ∷ [])) "pm_1"
    × (true ≡ true → "pm_1" ≢ test_fallback_pm)
    × (truthy "pm_1" ≡ true)
choose_payment_method_sound_example =
    choose_payment_method_sound true none (none ∷ some " pm_1 " ∷ []) "pm_1" chooses

live_keys : is_live_key (some "rk_live_x") ≡ true
unfolding is_live_key
live_keys = refl

abbrev split : ChargebackSplit
split = plan_chargeback_split (some (pos 9)) (some (pos 4))

abbrev impression : ClawbackInput
impression = record {
  state = "cleared";
  active_payout = false;
  window_has_succeeded_cpc_charge = false;
  existing_review = false;
  earning_already_paid = true;
  gross = some (pos 5);
}

abbrev decision : ClawbackDecision
decision = manual_clawback_allowed impression

manual_clawback_iff_example :
    ((decision.effect ≡ reverse) ↔ (
      IsOpen impression × (impression.earning_already_paid ≡ false) × IsPositive impression.gross))
    × ((decision.effect ≡ no_op) ↔ (IsOpen impression × (¬ IsPositive impression.gross)))
    × ((decision.allowed ≡ true) ↔ ((decision.effect ≡ reverse) ⊎ (decision.effect ≡ no_op)))
manual_clawback_iff_example = manual_clawback_iff impression

abbrev transfer : String → String → Transfer
transfer id payout = record {
  id = id;
  amount = some (pos 7);
  amount_reversed = some (pos 7);
  source = some "lumaline";
  payout_id = some payout;
}

abbrev lost : TransferError
lost = record { type = "StripeConnectionError"; raw_type = ""; code = "" }

-- Two pages of a transfer each.
abbrev pages : Option String → Page
pages none = record { listed = transfer "t1" "p1" ∷ []; has_more = true }
pages (some id) = record { listed = transfer "t2" "p2" ∷ []; has_more = false }

find_transfer_id_complete_example :
    find_transfer_id pages 5 "p2" none
    ≡ some (find_in "p2" (transfer "t1" "p1" ∷ (transfer "t2" "p2" ∷ [])))
unfolding cursor_after
find_transfer_id_complete_example =
    find_transfer_id_complete pages "p2" 5 (omega arith) (next_page refl (last_page refl))
