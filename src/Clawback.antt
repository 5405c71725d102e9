-- ===== src/Clawback.antt =====
-- The refusals of a manual clawback, supabase/functions/_shared/manual-clawback-logic.mjs.
use luma_line.Prelude.{
  ◌≡◌, ◌↔◌, ◌⊎◌, inl, inr, Bool-cases, String, Bool, true, false, not, ◌||◌, Option, none, some,
  arith, if◌then◌else◌, str_eq, eq_iff, ℤ, pos, ◌<ℤ◌, leb_ℤ,
}

pub record ClawbackInput : Type 0 where
  pub state : String
  pub active_payout : Bool
  pub window_has_succeeded_cpc_charge : Bool
  pub existing_review : Bool
  pub earning_already_paid : Bool
  pub gross : Option ℤ

pub data Effect : Type 0 where
  refuse no_op reverse : Effect

pub data ClawbackReason : Type 0 where
  already_clawed_back payout_active cpc_charge_present_no_refund_path review_exists no_op_gross_zero
        earning_already_paid ok :
      ClawbackReason

pub record ClawbackDecision : Type 0 where
  pub allowed : Bool
  pub effect : Effect
  pub reason : ClawbackReason

abbrev pub refused : ClawbackReason → ClawbackDecision
refused why = record { allowed = false; effect = refuse; reason = why }

abbrev pub is_clawbackable : String → Bool
is_clawbackable state = str_eq state "provisional" || str_eq state "cleared"

-- `!Number.isFinite(g) || g <= 0`; `none` is a gross that is no finite number.
abbrev pub is_zero_gross : Option ℤ → Bool
is_zero_gross none = true
is_zero_gross (some g) = leb_ℤ g (pos 0)

unfoldable pub manual_clawback_allowed : ClawbackInput → ClawbackDecision
manual_clawback_allowed i =
    if not (is_clawbackable i.state)
    then refused already_clawed_back
    else if i.active_payout
    then refused payout_active
    else if i.window_has_succeeded_cpc_charge
    then refused cpc_charge_present_no_refund_path
    else if i.existing_review
    then refused review_exists
    else if is_zero_gross i.gross
    then record { allowed = true; effect = no_op; reason = no_op_gross_zero }
    else if i.earning_already_paid
    then refused earning_already_paid
    else record { allowed = true; effect = reverse; reason = ok }

-- The gross is a finite number above 0.
abbrev pub IsPositive : Option ℤ → Type 0
IsPositive none = ⊥
IsPositive (some g) = pos 0 <ℤ g

-- What must hold of an impression before its gross counts.
abbrev pub IsOpen : ClawbackInput → Type 0
IsOpen i =
    ((i.state ≡ "provisional") ⊎ (i.state ≡ "cleared"))
    × (i.active_payout ≡ false)
    × (i.window_has_succeeded_cpc_charge ≡ false)
    × (i.existing_review ≡ false)

IsPositive-iff : (g : Option ℤ) → (is_zero_gross g ≡ false) ↔ IsPositive g
IsPositive-iff none = (λ h. ground arith, λ h. absurd h)
IsPositive-iff (some g) = (λ h. ground arith, λ h. ground arith)

-- Money is reversed exactly when the impression is provisional or cleared, neither a payout, a CPC
-- charge nor a review stands in the way, its earning is not paid yet, and its gross is a finite
-- number above 0. A clawback is allowed without reversing money exactly when the same holds of the
-- impression and its gross is not such a number, whether the earning is paid or not. It is allowed
-- in these two cases only.
pub manual_clawback_iff :
    (i : ClawbackInput)
    → let d = manual_clawback_allowed i in
      ((d.effect ≡ reverse) ↔ (IsOpen i × (i.earning_already_paid ≡ false) × IsPositive i.gross))
      × ((d.effect ≡ no_op) ↔ (IsOpen i × (¬ IsPositive i.gross)))
      × ((d.allowed ≡ true) ↔ ((d.effect ≡ reverse) ⊎ (d.effect ≡ no_op)))
unfolding manual_clawback_allowed
manual_clawback_iff i =
    let p = eq_iff i.state "provisional" in
    let c = eq_iff i.state "cleared" in
    let g = IsPositive-iff i.gross in
    elim (Bool-cases (is_zero_gross i.gross)) [
      | inl z ↦ rw z (
        ground (arith, p, c, g),
        (
          (λ e. (ground (arith, p, c), (λ q. absurd (ground (arith, g.1 q))))),
          (λ (o, n). ground (arith, p, c, o)),
        ),
        ground arith,
      )
      | inr z ↦ rw z (
        ground (arith, p, c, g),
        ((λ e. absurd (ground arith)), (λ (o, n). absurd (n (g.0 z)))),
        ground arith,
      )
    ]
