-- ===== src/Advertiser.antt =====
-- The money decisions of the advertiser's prepay balance,
-- supabase/functions/_shared/advertiser-logic.mjs. Cents and micros are integers; an amount that
-- JavaScript reads as no number is `none`.
pub mod Reversal
pub mod Content
use luma_line.Prelude.{
  ℕ, ◌+◌, ◌*◌, ◌/◌, ◌≤◌, ◌≡◌, refl, String, Bool, true, false, Option, none, some, arith,
  if◌then◌else◌, str_eq, ◌||◌, ◌&&◌, ℤ, pos, pos_part, neg_part, eq_of_parts, scale, ◌+ℤ◌, ◌-ℤ◌,
  ◌≤ℤ◌, ◌<ℤ◌, ltb_ℤ, eqb_ℤ, or_zero, min_ℤ, max_ℤ, floor_cents, floor_cents_parts, +ℤ_parts,
  -ℤ_parts,
}

-- `Math.round` is idle on whole cents.
unfoldable pub cents_to_micros : ℤ → ℤ
unfolding scale
cents_to_micros cents = scale 10000 cents

-- `Math.round(micros / 10000)`: halves go up.
unfoldable pub micros_to_cents : ℤ → ℤ
micros_to_cents micros = floor_cents (micros +ℤ pos 5000)

unfoldable pub available_micros : Option ℤ → Option ℤ → ℤ
available_micros balance reserved = or_zero balance -ℤ or_zero reserved

-- A dwell and a bid are no negative numbers: `ceil(dwellMs / 1000) * bid`.
unfoldable pub reserve_estimate_micros : ℕ → ℕ → ℕ
reserve_estimate_micros dwell_ms cpva_bid_micros = (dwell_ms + 999) / 1000 * cpva_bid_micros

pub record ChargebackSplit : Type 0 where
  pub reclaim_micros : ℤ
  pub bad_debt_micros : ℤ
  pub new_balance_micros : ℤ

unfoldable pub plan_chargeback_split : Option ℤ → Option ℤ → ChargebackSplit
plan_chargeback_split dispute_micros balance_micros =
    let r = or_zero dispute_micros in
    let bal = or_zero balance_micros in
    record {
      reclaim_micros = min_ℤ r bal;
      bad_debt_micros = max_ℤ (pos 0) (r -ℤ bal);
      new_balance_micros = max_ℤ (pos 0) (bal -ℤ r);
    }

-- The cents of an amount survive the way through micros and back.
pub micros_to_cents-cents_to_micros : (cents : ℤ) → micros_to_cents (cents_to_micros cents) ≡ cents
unfolding micros_to_cents cents_to_micros scale
micros_to_cents-cents_to_micros cents =
    let m = cents_to_micros cents in
    let p = +ℤ_parts m (pos 5000) in
    let (lo, hi) = floor_cents_parts (m +ℤ pos 5000) in
    eq_of_parts (floor_cents (m +ℤ pos 5000)) cents (ground arith)

-- A dispute of no less than 0 against a balance of no less than 0 is split without loss: what is
-- reclaimed and the bad debt add up to the dispute, what is reclaimed and the new balance add up
-- to the old one, none of the three is below 0, and a balance is left only where there is no bad
-- debt.
pub chargeback_split_exact :
    (dispute balance : ℤ)
    → pos 0 ≤ℤ dispute
    → pos 0 ≤ℤ balance
    → let s = plan_chargeback_split (some dispute) (some balance) in
      ((s.reclaim_micros +ℤ s.bad_debt_micros) ≡ dispute)
      × ((s.reclaim_micros +ℤ s.new_balance_micros) ≡ balance)
      × (pos 0 ≤ℤ s.reclaim_micros)
      × (pos 0 ≤ℤ s.bad_debt_micros)
      × (pos 0 ≤ℤ s.new_balance_micros)
      × (pos 0 <ℤ s.new_balance_micros → s.bad_debt_micros ≡ pos 0)
unfolding plan_chargeback_split ◌+ℤ◌ ◌-ℤ◌
chargeback_split_exact dispute balance d b =
    (ground arith, ground arith, ground arith, ground arith, ground arith, ground arith)

unfoldable pub chargeback_legs_sum_to_zero : Option ℤ → Option ℤ → Bool
unfolding plan_chargeback_split
chargeback_legs_sum_to_zero dispute_micros balance_micros =
    let s = plan_chargeback_split dispute_micros balance_micros in
    eqb_ℤ (((pos 0 -ℤ or_zero dispute_micros) +ℤ s.reclaim_micros) +ℤ s.bad_debt_micros) (pos 0)
