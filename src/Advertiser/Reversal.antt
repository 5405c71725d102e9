-- ===== src/Advertiser/Reversal.antt =====
-- Deposits and their reversals: the event decisions of
-- supabase/functions/_shared/advertiser-logic.mjs.
use luma_line.Prelude.{
  String, Bool, true, false, ◌||◌, Option, none, some, if◌then◌else◌, str_eq, ℤ, pos, ◌-ℤ◌, max_ℤ,
  or_zero,
}
use luma_line.Advertiser.{cents_to_micros}

-- The `payment_intent` of an object: a text, an object with its id, or anything else.
pub data IntentField : Type 0 where
  id_text : String → IntentField
  expanded : Option String → IntentField
  other_field : IntentField

-- What the decisions read of a Stripe event: its type and, of its object, the id, the payment
-- status, the payment intent and the two amounts in cents.
pub record DepositEvent : Type 0 where
  pub type : Option String
  pub id : Option String
  pub payment_status : Option String
  pub payment_intent : IntentField
  pub amount : Option ℤ
  pub amount_refunded : Option ℤ

unfoldable pub pi_id_of : IntentField → Option String
pi_id_of (id_text id) = some id
pi_id_of (expanded id) = id
pi_id_of other_field = none

pub data DepositReason : Type 0 where
  session_not_paid session_paid not_a_credit_trigger : DepositReason

pub record DepositDecision : Type 0 where
  pub credit : Bool
  pub session_id : Option String
  pub pi_id : Option String
  pub reason : DepositReason

-- A strict equality with a text.
abbrev pub is : Option String → String → Bool
is none t = false
is (some s) t = str_eq s t

unfoldable pub evaluate_deposit_event : DepositEvent → DepositDecision
unfolding pi_id_of
evaluate_deposit_event e =
    if is e.type "checkout.session.completed"
    then (if is e.payment_status "paid"
        then record {
          credit = true;
          session_id = e.id;
          pi_id = pi_id_of e.payment_intent;
          reason = session_paid;
        }
        else record {
          credit = false;
          session_id = e.id;
          pi_id = pi_id_of e.payment_intent;
          reason = session_not_paid;
        })
    else record {
      credit = false;
      session_id = none;
      pi_id = pi_id_of e.payment_intent;
      reason = not_a_credit_trigger;
    }

unfoldable pub is_advertiser_dispute_event : Option String → Bool
is_advertiser_dispute_event type =
    is type "charge.dispute.funds_withdrawn"
    || is type "charge.dispute.created"
    || is type "charge.refunded"

unfoldable pub is_advertiser_refund_event : Option String → Bool
is_advertiser_refund_event type = is type "charge.refunded"

unfoldable pub reversal_target_micros : DepositEvent → ℤ
reversal_target_micros e =
    if is e.type "charge.refunded"
    then cents_to_micros (or_zero e.amount_refunded)
    else cents_to_micros (or_zero e.amount)

unfoldable pub reversal_delta_micros : Option ℤ → Option ℤ → ℤ
reversal_delta_micros target already = max_ℤ (pos 0) (or_zero target -ℤ or_zero already)

pub data RefundBranch : Type 0 where
  stripe_refund balance_clawback : RefundBranch

unfoldable pub refund_branch : Option String → RefundBranch
refund_branch settled_via = if is settled_via "balance" then balance_clawback else stripe_refund
