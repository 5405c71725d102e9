-- ===== src/Monitor/Stalled.antt =====
-- The check on stalled billing, supabase/functions/_shared/monitor-logic.mjs.
use luma_line.Prelude.{
  ℕ, ◌+◌, ◌≡◌, refl, subst, ap, ◌∙◌, sym, inl, inr, String, Bool, true, false, ◌&&◌, Option, none,
  some, List, [], ◌∷◌, map, select, length, ◌&◌, arith, if◌then◌else◌, str_eq, eq_iff, truthy,
  Bool-cases, ℤ, pos, ◌+ℤ◌, or_zero, sum_ℤ, +ℤ_assoc, +ℤ_zero,
}
use mathlib.Core.Path.{ap₂}
use luma_line.Prelude.JsMap.{JsMap, get, has, gather, group_rows, get-group_rows}
use luma_line.Monitor.{CheckResult, conclude}
use luma_line.Monitor.Payouts.{alert_of}

-- A row of uncharged groups; an advertiser that is null or empty is "".
pub record UnchargedRow : Type 0 where
  pub advertiser_id : String
  pub advertiser_name : Option String
  pub amount_micros : Option ℤ

pub record Debt : Type 0 where
  pub name : Option String
  pub groups : ℕ
  pub micros : ℤ

-- `pausedByAdv`, from the advertisers of the paused line items.
unfoldable pub paused_by_adv : List String → JsMap ℕ
unfolding group_rows
paused_by_adv advs = group_rows (λ (a : String). a) (λ a. 0) (λ a n. n + 1) [] (select truthy advs)

-- The rows that the loop does not pass over.
unfoldable pub is_stalled : JsMap ℕ → UnchargedRow → Bool
unfolding has
is_stalled paused r = truthy r.advertiser_id && has paused r.advertiser_id

abbrev pub start_debt : UnchargedRow → Debt
start_debt r = record { name = r.advertiser_name; groups = 0; micros = pos 0 }

abbrev pub add_debt : UnchargedRow → Debt → Debt
add_debt r d = record d { groups = d.groups + 1; micros = d.micros +ℤ or_zero r.amount_micros }

abbrev adv_of : UnchargedRow → String
adv_of r = r.advertiser_id

unfoldable pub debt_by_adv : JsMap ℕ → List UnchargedRow → JsMap Debt
unfolding is_stalled group_rows
debt_by_adv paused rows = group_rows adv_of start_debt add_debt [] (select (is_stalled paused) rows)

unfoldable pub eval_billing_stalled : List UnchargedRow → List String → CheckResult
unfolding debt_by_adv paused_by_adv conclude
eval_billing_stalled rows paused = conclude "billing_stalled" (
    map (λ (e : String × Debt). alert_of "billing_stalled" ("adv:" & e.0))
      (debt_by_adv (paused_by_adv paused) rows))

abbrev pub own_debt : String → List UnchargedRow → List UnchargedRow
own_debt id rows = select (λ (r : UnchargedRow). str_eq r.advertiser_id id) rows

abbrev pub row_debt : UnchargedRow → ℤ
row_debt r = or_zero r.amount_micros

abbrev more_debt : Debt → List UnchargedRow → Debt
more_debt d rs = record d { groups = d.groups + length rs; micros = d.micros +ℤ sum_ℤ row_debt rs }

-- The debt of an advertiser with these rows.
abbrev pub debt_of : List UnchargedRow → Option Debt
debt_of [] = none
debt_of (r ∷ rs) = some (more_debt (start_debt r) (r ∷ rs))

abbrev with_debt : Debt → ℕ → ℤ → Debt
with_debt d n z = record d { groups = n; micros = z }

more_debt_nil : (d : Debt) → more_debt d [] ≡ d
more_debt_nil d = ap₂ (with_debt d) (omega arith) (+ℤ_zero d.micros)

more_debt_cons :
    (d : Debt) (r : UnchargedRow) (rs : List UnchargedRow)
    → more_debt (add_debt r d) rs ≡ more_debt d (r ∷ rs)
more_debt_cons d r rs =
    ap₂ (with_debt d) (omega arith) (+ℤ_assoc d.micros (row_debt r) (sum_ℤ row_debt rs))

gather_debt :
    (id : String) (d : Debt) (rows : List UnchargedRow)
    → gather adv_of start_debt add_debt id (some d) rows ≡ some (more_debt d (own_debt id rows))
unfolding gather
gather_debt id d [] = ap some (sym (more_debt_nil d))
gather_debt id d (r ∷ rows) = elim (Bool-cases (str_eq r.advertiser_id id)) [
  | inl e ↦
      rw e (gather_debt id (add_debt r d) rows ∙ ap some (more_debt_cons d r (own_debt id rows)))
  | inr e ↦ rw e (gather_debt id d rows)
]

gather_debts :
    (id : String) (rows : List UnchargedRow)
    → gather adv_of start_debt add_debt id none rows ≡ debt_of (own_debt id rows)
unfolding gather
gather_debts id [] = refl
gather_debts id (r ∷ rows) = elim (Bool-cases (str_eq r.advertiser_id id)) [
  | inl e ↦ rw e (
      gather_debt id (add_debt r (start_debt r)) rows
      ∙ ap some (more_debt_cons (start_debt r) r (own_debt id rows)))
  | inr e ↦ rw e (gather_debts id rows)
]

own_debt-paused :
    (paused : JsMap ℕ) (id : String) (rows : List UnchargedRow)
    → own_debt id (select (is_stalled paused) rows)
      ≡ (if truthy id && has paused id then own_debt id rows else [])
unfolding is_stalled
own_debt-paused paused id [] = elim (Bool-cases (truthy id && has paused id)) [
  | inl e ↦ rw e refl
  | inr e ↦ rw e refl
]
own_debt-paused paused id (r ∷ rows) =
    let rest = own_debt-paused paused id rows in
    elim (Bool-cases (str_eq r.advertiser_id id)) [
      | inl e ↦
          let same : r.advertiser_id ≡ id = (eq_iff r.advertiser_id id).0 e in
          elim (Bool-cases (truthy id && has paused id)) [
            | inl s ↦
                let q : is_stalled paused r ≡ true =
                  subst (λ a. (truthy a && has paused a) ≡ true) (sym same) s in
                rw (q, e, s) (ap (λ xs. r ∷ xs) (rw s at rest))
            | inr s ↦
                let q : is_stalled paused r ≡ false =
                  subst (λ a. (truthy a && has paused a) ≡ false) (sym same) s in
                rw (q, s) (rw s at rest)
          ]
      | inr e ↦ elim (Bool-cases (is_stalled paused r)) [
        | inl s ↦ rw (is_stalled, s, e) rest
        | inr s ↦ rw (is_stalled, s, e) rest
      ]
    ]

-- An advertiser owes what the check reports exactly if it has a paused line item: then its debt
-- counts every uncharged row with its id, unreadable ones included, and sums the readable amounts;
-- without a paused item, or without a row, it is not reported.
pub stalled_debt :
    (rows : List UnchargedRow) (paused : JsMap ℕ) (id : String)
    → get (debt_by_adv paused rows) id
      ≡ debt_of (if truthy id && has paused id then own_debt id rows else [])
unfolding debt_by_adv get
stalled_debt rows paused id =
    get-group_rows adv_of start_debt add_debt id [] (select (is_stalled paused) rows)
    ∙ gather_debts id (select (is_stalled paused) rows)
    ∙ ap debt_of (own_debt-paused paused id rows)
