-- ===== src/Ops/Transparency/Identity.antt =====
-- The accrual identity of the transparency report, scripts/ops/lib/transparency.mjs.
use luma_line.Prelude.{
  ℕ, ◌≡◌, ◌↔◌, ◌⊎◌, refl, subst, ap, ◌∙◌, sym, inl, inr, Bool, true, false, ◌&&◌, List, [], ◌∷◌,
  arith, All, str_eq, select, Bool-cases, ℤ, pos, pos_part, neg_part, ◌-ℤ◌, ◌+ℤ◌, eqb_ℤ, sum_ℤ,
  +ℤ_parts, -ℤ_parts, eq_of_parts, +ℤ_assoc, +ℤ_zero, +ℤ_comm,
}
use luma_line.Ops.Transparency.{
  LedgerRow, ReportInput, is_accrual, leg, row_amount, ledger_sum, reconcile, build_report,
}

-- An accrual that cleared.
abbrev pub is_cleared_accrual : LedgerRow → Bool
is_cleared_accrual r = str_eq r.state "cleared" && is_accrual r

-- An accrual is booked on the advertiser's, the publisher's and the platform's accounts only.
abbrev pub IsAccrualLeg : LedgerRow → Type 0
IsAccrualLeg r =
    is_cleared_accrual r ≡ true
    → (r.account ≡ "advertiser_billing")
      ⊎ ((r.account ≡ "publisher_earnings") ⊎ (r.account ≡ "platform_revenue"))

abbrev three : List LedgerRow → ℤ
three rows =
    (ledger_sum rows (leg "advertiser_billing" "cleared")
      +ℤ ledger_sum rows (leg "publisher_earnings" "cleared"))
    +ℤ ledger_sum rows (leg "platform_revenue" "cleared")

abbrev all_legs : List LedgerRow → ℤ
all_legs rows = sum_ℤ row_amount (select is_cleared_accrual rows)

in_first : (x a b c : ℤ) → (((x +ℤ a) +ℤ b) +ℤ c) ≡ (x +ℤ ((a +ℤ b) +ℤ c))
in_first x a b c = ap (λ z. z +ℤ c) (+ℤ_assoc x a b) ∙ +ℤ_assoc x (a +ℤ b) c

in_second : (x a b c : ℤ) → ((a +ℤ (x +ℤ b)) +ℤ c) ≡ (x +ℤ ((a +ℤ b) +ℤ c))
in_second x a b c =
    ap (λ z. z +ℤ c) (sym (+ℤ_assoc a x b) ∙ ap (λ z. z +ℤ b) (+ℤ_comm a x)) ∙ in_first x a b c

in_third : (x a b c : ℤ) → ((a +ℤ b) +ℤ (x +ℤ c)) ≡ (x +ℤ ((a +ℤ b) +ℤ c))
in_third x a b c =
    sym (+ℤ_assoc (a +ℤ b) x c) ∙ (ap (λ z. z +ℤ c) (+ℤ_comm (a +ℤ b) x) ∙ +ℤ_assoc x (a +ℤ b) c)

three_legs : (rows : List LedgerRow) → All IsAccrualLeg rows → three rows ≡ all_legs rows
unfolding ledger_sum
three_legs [] h = ap (λ z. z +ℤ pos 0) (+ℤ_zero (pos 0)) ∙ +ℤ_zero (pos 0)
three_legs (r ∷ rows) h =
    let ih = three_legs rows h.1 in
    let x = r.amount_micros in
    let a = ledger_sum rows (leg "advertiser_billing" "cleared") in
    let b = ledger_sum rows (leg "publisher_earnings" "cleared") in
    let c = ledger_sum rows (leg "platform_revenue" "cleared") in
    elim (Bool-cases (is_cleared_accrual r)) [
      | inr e ↦
          let l1 : leg "advertiser_billing" "cleared" r ≡ false = ground arith in
          let l2 : leg "publisher_earnings" "cleared" r ≡ false = ground arith in
          let l3 : leg "platform_revenue" "cleared" r ≡ false = ground arith in
          rw (l1, l2, l3, e) ih
      | inl e ↦ elim (h.0 e) [
        | inl acc ↦
            let l1 : leg "advertiser_billing" "cleared" r ≡ true = rw acc e in
            let l2 : leg "publisher_earnings" "cleared" r ≡ false = rw acc refl in
            let l3 : leg "platform_revenue" "cleared" r ≡ false = rw acc refl in
            rw (l1, l2, l3, e) (in_first x a b c ∙ ap (λ z. x +ℤ z) ih)
        | inr (inl acc) ↦
            let l1 : leg "advertiser_billing" "cleared" r ≡ false = rw acc refl in
            let l2 : leg "publisher_earnings" "cleared" r ≡ true = rw acc e in
            let l3 : leg "platform_revenue" "cleared" r ≡ false = rw acc refl in
            rw (l1, l2, l3, e) (in_second x a b c ∙ ap (λ z. x +ℤ z) ih)
        | inr (inr acc) ↦
            let l1 : leg "advertiser_billing" "cleared" r ≡ false = rw acc refl in
            let l2 : leg "publisher_earnings" "cleared" r ≡ false = rw acc refl in
            let l3 : leg "platform_revenue" "cleared" r ≡ true = rw acc e in
            rw (l1, l2, l3, e) (in_third x a b c ∙ ap (λ z. x +ℤ z) ih)
      ]
    ]

identity_sum :
    (a b c : ℤ) → (eqb_ℤ a ((pos 0 -ℤ b) +ℤ (pos 0 -ℤ c)) ≡ true) ↔ (((a +ℤ b) +ℤ c) ≡ pos 0)
identity_sum a b c =
    let p = -ℤ_parts (pos 0) b in
    let q = -ℤ_parts (pos 0) c in
    let s = +ℤ_parts (pos 0 -ℤ b) (pos 0 -ℤ c) in
    let u = +ℤ_parts a b in
    let v = +ℤ_parts (a +ℤ b) c in
    (
      (λ e. eq_of_parts ((a +ℤ b) +ℤ c) (pos 0) (ground arith)),
      (λ e.
          let x : pos_part ((a +ℤ b) +ℤ c) ≡ 0 = ap pos_part e in
          let y : neg_part ((a +ℤ b) +ℤ c) ≡ 0 = ap neg_part e in ground arith),
    )

-- For a ledger that books its cleared accruals on the three accounts only, the report's identity of
-- the cleared gross with the two shares holds exactly when the cleared accruals sum to 0.
pub accrual_identity_iff :
    (ratio : ℤ → ℤ → ℕ → ℤ) (i : ReportInput)
    → All IsAccrualLeg i.ledger
    → ((build_report ratio i).reconciliation.accrual_identity_ok ≡ true)
      ↔ (sum_ℤ row_amount (select is_cleared_accrual i.ledger) ≡ pos 0)
unfolding build_report reconcile
accrual_identity_iff ratio i h =
    subst (λ z. ((build_report ratio i).reconciliation.accrual_identity_ok ≡ true) ↔ (z ≡ pos 0))
      (three_legs i.ledger h)
      (identity_sum (ledger_sum i.ledger (leg "advertiser_billing" "cleared"))
        (ledger_sum i.ledger (leg "publisher_earnings" "cleared"))
        (ledger_sum i.ledger (leg "platform_revenue" "cleared")))
