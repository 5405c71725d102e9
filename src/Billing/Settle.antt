-- ===== src/Billing/Settle.antt =====
-- How a batch is settled: `microsToCents`, `batchIdempotencyKey`, `shouldAdoptPi`,
-- `chooseSettleRoute` and `planAdvertiserDrawDown` of
-- supabase/functions/_shared/billing-logic.mjs.
use luma_line.Prelude.{
  ◌≡◌, ◌↔◌, ◌⊎◌, inl, inr, String, Bool, true, false, ◌||◌, Option, none, some, arith,
  if◌then◌else◌, str_eq, eq_iff, ◌&◌, ℤ, pos, ◌-ℤ◌, ◌≤ℤ◌, ◌<ℤ◌, ltb_ℤ, leb_ℤ, or_zero, -ℤ_parts,
}

unfoldable pub batch_idempotency_key : String → String
batch_idempotency_key batch_id = "lumaline_agg_" & batch_id

unfoldable pub should_adopt_pi : String → Bool
should_adopt_pi status =
    str_eq status "succeeded" || str_eq status "processing" || str_eq status "requires_capture"

pub data Route : Type 0 where
  postpay prepay : Route

-- `none` is a value that is no string.
unfoldable pub current_route : Option String → Route
current_route none = postpay
current_route (some mode) = if str_eq mode "prepay" then prepay else postpay

unfoldable pub choose_settle_route : Option String → Option String → Route
unfolding current_route
choose_settle_route none current = current_route current
choose_settle_route (some frozen) current =
    if str_eq frozen "postpay"
    then postpay
    else if str_eq frozen "prepay"
    then prepay
    else current_route current

pub data DrawReason : Type 0 where
  ok insufficient_balance nothing_to_draw : DrawReason

pub record DrawDown : Type 0 where
  pub draw : Bool
  pub reason : DrawReason
  pub reserved_underflow : Bool
  pub amount_micros : ℤ

abbrev pub no_draw : DrawReason → Bool → DrawDown
no_draw why underflow = record {
  draw = false;
  reason = why;
  reserved_underflow = underflow;
  amount_micros = pos 0;
}

unfoldable pub plan_advertiser_draw_down : Option ℤ → Option ℤ → Option ℤ → DrawDown
plan_advertiser_draw_down balance_micros reserved_micros sum_micros =
    let bal = or_zero balance_micros in
    let res = or_zero reserved_micros in
    let sum = or_zero sum_micros in
    if leb_ℤ sum (pos 0)
    then no_draw nothing_to_draw false
    else if ltb_ℤ bal sum
    then no_draw insufficient_balance (ltb_ℤ res sum)
    else record {
      draw = true;
      reason = ok;
      reserved_underflow = ltb_ℤ res sum;
      amount_micros = sum;
    }

-- A draw-down is all or nothing: it draws exactly when the sum is positive and the balance covers
-- it, and then draws the whole sum; otherwise it draws 0. Either way the balance that is left is
-- no lower than 0 if it was not, and a reserve below a positive sum is always flagged.
pub draw_down_all_or_nothing :
    (bal res sum : ℤ)
    → pos 0 ≤ℤ bal
    → let d = plan_advertiser_draw_down (some bal) (some res) (some sum) in
      ((d.draw ≡ true) ↔ ((pos 0 <ℤ sum) × (sum ≤ℤ bal)))
      × (((d.draw ≡ true) × (d.amount_micros ≡ sum))
          ⊎ ((d.draw ≡ false) × (d.amount_micros ≡ pos 0)))
      × (pos 0 ≤ℤ (bal -ℤ d.amount_micros))
      × ((d.reserved_underflow ≡ true) ↔ ((pos 0 <ℤ sum) × (res <ℤ sum)))
unfolding plan_advertiser_draw_down
draw_down_all_or_nothing bal res sum h =
    let p = -ℤ_parts bal sum in
    let q = -ℤ_parts bal (pos 0) in (ground arith, ground arith, ground arith, ground arith)

-- A batch whose rows were frozen as 'postpay' or 'prepay' when it was reserved settles that way
-- whatever the advertiser's billing mode has become, also when it was changed in between.
pub settle_route_frozen :
    (frozen : String) (before after : Option String)
    → (frozen ≡ "postpay") ⊎ (frozen ≡ "prepay")
    → (choose_settle_route (some frozen) before ≡ choose_settle_route (some frozen) after)
      × ((choose_settle_route (some frozen) after ≡ prepay) ↔ (frozen ≡ "prepay"))
unfolding choose_settle_route current_route
settle_route_frozen frozen before after (inl e) = rw e (ground (arith, eq_iff "postpay" "prepay"))
settle_route_frozen frozen before after (inr e) = rw e (ground arith)
