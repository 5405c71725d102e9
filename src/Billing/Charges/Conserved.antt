-- ===== src/Billing/Charges/Conserved.antt =====
-- The money of a plan of charges, against the rows it is made of
-- (supabase/functions/_shared/billing-logic.mjs).
use luma_line.Prelude.{
  ◌≡◌, refl, subst, ap, ◌∙◌, sym, inl, inr, String, Option, none, some, List, [], ◌∷◌, map, str_eq,
  Bool-cases, arith, ℤ, pos, ◌+ℤ◌, ◌≤ℤ◌, sum_ℤ, floor_cents, floor_cents-superadditive, +ℤ_parts,
  +ℤ_assoc, +ℤ_zero, +ℤ_comm, +ℤ_swap, +ℤ_under, +ℤ_cancel,
}
use luma_line.Prelude.JsMap.{JsMap, get, set, entry, group_rows}
use luma_line.Billing.Charges.{
  Row, Pending, Plan, start_pending, add_row, by_advertiser, plan_of, plan_advertiser_charges,
}
use luma_line.Billing.Charges.Grouped.{row_micros}

abbrev total : JsMap Pending → ℤ
total m = sum_ℤ (λ (e : String × Pending). e.1.sum_micros) m

abbrev stored : Option Pending → ℤ
stored none = pos 0
stored (some p) = p.sum_micros

total-set :
    (m : JsMap Pending) (k : String) (p : Pending)
    → (total (set m k p) +ℤ stored (get m k)) ≡ (total m +ℤ p.sum_micros)
unfolding get set
total-set [] k p = +ℤ_zero (p.sum_micros +ℤ pos 0) ∙ +ℤ_comm p.sum_micros (pos 0)
total-set ((j, q) ∷ m) k p = elim (Bool-cases (str_eq j k)) [
  | inl e ↦ rw e (+ℤ_swap p.sum_micros (total m) q.sum_micros)
  | inr e ↦ rw e (
      +ℤ_under q.sum_micros (total m) (total (set m k p)) (stored (get m k)) p.sum_micros
        (total-set m k p))
]

entry-stored :
    (r : Row) (o : Option Pending)
    → (entry (λ (r : Row). r.advertiser_id) start_pending add_row r o).sum_micros ≡ stored o
unfolding start_pending
entry-stored r none = refl
entry-stored r (some p) = refl

total-group_rows :
    (m : JsMap Pending) (rows : List Row)
    → total (group_rows (λ (r : Row). r.advertiser_id) start_pending add_row m rows)
      ≡ (total m +ℤ sum_ℤ row_micros rows)
unfolding group_rows add_row
total-group_rows m [] = sym (+ℤ_zero (total m))
total-group_rows m (r ∷ rows) =
    let o = get m r.advertiser_id in
    let p = add_row r (entry (λ (r : Row). r.advertiser_id) start_pending add_row r o) in
    let s = total-set m r.advertiser_id p in
    let more : total (set m r.advertiser_id p) ≡ (total m +ℤ row_micros r) =
      +ℤ_cancel (total m) (total (set m r.advertiser_id p)) (stored o) (row_micros r)
        (s ∙ ap (λ x. total m +ℤ (x +ℤ row_micros r)) (entry-stored r o)) in
    total-group_rows (set m r.advertiser_id p) rows
    ∙ ap (λ x. x +ℤ sum_ℤ row_micros rows) more
    ∙ +ℤ_assoc (total m) (row_micros r) (sum_ℤ row_micros rows)

abbrev pub plan_micros : Plan → ℤ
plan_micros p = p.pending.sum_micros

plans_total :
    (min_cents : ℤ) (m : JsMap Pending)
    → sum_ℤ plan_micros (map (λ (e : String × Pending). plan_of min_cents e.1) m) ≡ total m
unfolding plan_of
plans_total min_cents [] = refl
plans_total min_cents (e ∷ m) = ap (λ x. e.1.sum_micros +ℤ x) (plans_total min_cents m)

abbrev pub plan_cents : Plan → ℤ
plan_cents p = p.sum_cents

cents_total :
    (min_cents : ℤ) (m : JsMap Pending)
    → sum_ℤ plan_cents (map (λ (e : String × Pending). plan_of min_cents e.1) m)
      ≤ℤ floor_cents (total m)
unfolding plan_of floor_cents
cents_total min_cents [] = ground arith
cents_total min_cents (e ∷ m) =
    let rest = sum_ℤ plan_cents (map (λ (e : String × Pending). plan_of min_cents e.1) m) in
    let h = cents_total min_cents m in
    let s = floor_cents-superadditive e.1.sum_micros (total m) in
    let p = +ℤ_parts (floor_cents e.1.sum_micros) rest in
    let q = +ℤ_parts (floor_cents e.1.sum_micros) (floor_cents (total m)) in omega arith

-- No micro is lost or counted twice: the plans' sums add up to the rows' amounts. The whole cents
-- of the plans together never exceed those of that total, so rounding down each plan cannot charge
-- more than was cleared.
pub plans_conserve :
    (min_cents : ℤ) (rows : List Row)
    → let plans = plan_advertiser_charges min_cents rows in
      (sum_ℤ plan_micros plans ≡ sum_ℤ row_micros rows)
      × (sum_ℤ plan_cents plans ≤ℤ floor_cents (sum_ℤ row_micros rows))
unfolding plan_advertiser_charges by_advertiser
plans_conserve min_cents rows =
    let all : total (by_advertiser rows) ≡ sum_ℤ row_micros rows =
      total-group_rows [] rows
      ∙ (+ℤ_comm (pos 0) (sum_ℤ row_micros rows) ∙ +ℤ_zero (sum_ℤ row_micros rows)) in
    (
      plans_total min_cents (by_advertiser rows) ∙ all,
      subst
          (λ t.
            sum_ℤ plan_cents
              (map (λ (e : String × Pending). plan_of min_cents e.1) (by_advertiser rows))
            ≤ℤ floor_cents t)
          all (cents_total min_cents (by_advertiser rows)),
    )
