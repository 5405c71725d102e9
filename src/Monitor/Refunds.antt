-- ===== src/Monitor/Refunds.antt =====
-- The check on reversed charges that were not refunded,
-- supabase/functions/_shared/monitor-logic.mjs.
use luma_line.Prelude.{
  ℕ, ◌≡◌, inl, inr, refl, ap, ◌∙◌, sym, String, Bool, true, false, not, ◌||◌, ◌&&◌, Option, none,
  some, List, [], ◌∷◌, ◌++◌, map, select, any, ◌&◌, if◌then◌else◌, str_eq, eq_iff, truthy,
  Bool-cases, Option-cases, ℤ,
}
use luma_line.Prelude.JsMap.{JsMap, get, set, has, has-set}
use luma_line.Monitor.{Alert, CheckResult, or_unknown, conclude, conclude_alerts}
use luma_line.Monitor.Payouts.{alert_of, is_older}

-- A review of a clawback; `reviewed_ms` is `Date.parse` of `reviewed_at`, and an impression that
-- is null or empty is "".
pub record Review : Type 0 where
  pub id : Option String
  pub impression_id : String
  pub reviewed_ms : Option ℕ
  pub refund_queued : Bool
  pub status : String

pub record ChargeRow : Type 0 where
  pub id : Option String
  pub impression_id : String
  pub amount_cents : Option ℤ
  pub status : String

abbrev pub grace_ms : ℕ
grace_ms = 3_600_000

-- The succeeded charges by their impression; the first wins.
unfoldable pub index_succeeded : JsMap ChargeRow → List ChargeRow → JsMap ChargeRow
unfolding has set
index_succeeded m [] = m
index_succeeded m (c ∷ cs) =
    index_succeeded
      (if not (str_eq c.status "succeeded")
        then m
        else if not (truthy c.impression_id) || has m c.impression_id
        then m
        else set m c.impression_id c)
      cs

unfoldable pub review_alert : JsMap ChargeRow → ℕ → ℕ → Review → List Alert
unfolding get
review_alert charges now grace r =
    if not (str_eq r.status "approved")
    then []
    else if r.refund_queued
    then []
    else if not (truthy r.impression_id)
    then []
    else elim (get charges r.impression_id) [
      | none ↦ []
      | some c ↦
          if is_older r.reviewed_ms now grace
          then alert_of "reversed_charge_unrefunded" ("review:" & or_unknown r.id) ∷ []
          else []
    ]

-- The loop over the reviews.
unfoldable pub review_alerts : JsMap ChargeRow → ℕ → ℕ → List Review → List Alert
unfolding review_alert
review_alerts charges now grace [] = []
review_alerts charges now grace (r ∷ rs) =
    review_alert charges now grace r ++ review_alerts charges now grace rs

unfoldable pub eval_reversed_charge_unrefunded : List Review → List ChargeRow → ℕ → ℕ → CheckResult
unfolding index_succeeded review_alerts conclude
eval_reversed_charge_unrefunded reviews charges now grace =
    conclude "reversed_charge_unrefunded"
      (review_alerts (index_succeeded [] charges) now grace reviews)

abbrev pub unrefunded_alert : Review → Alert
unrefunded_alert r = alert_of "reversed_charge_unrefunded" ("review:" & or_unknown r.id)

-- A succeeded charge of the impression.
abbrev pub pays : String → ChargeRow → Bool
pays imp c = str_eq c.status "succeeded" && str_eq c.impression_id imp

-- A review whose reversal left cash behind: approved, not queued for refund, of an impression that
-- a succeeded charge paid, and past the grace or of unreadable date.
abbrev pub is_unrefunded : List ChargeRow → ℕ → ℕ → Review → Bool
is_unrefunded charges now grace r =
    str_eq r.status "approved"
    && not r.refund_queued
    && truthy r.impression_id
    && any (pays r.impression_id) charges
    && is_older r.reviewed_ms now grace

||-false : (b : Bool) → (b || false) ≡ b
||-false true = refl
||-false false = refl

||-assoc : (a b c : Bool) → ((a || b) || c) ≡ (a || (b || c))
||-assoc true b c = refl
||-assoc false b c = refl

has-step :
    (m : JsMap ChargeRow) (c : ChargeRow) (imp : String)
    → truthy imp ≡ true
    → has
        (if not (str_eq c.status "succeeded")
          then m
          else if not (truthy c.impression_id) || has m c.impression_id
          then m
          else set m c.impression_id c)
        imp
      ≡ (has m imp || pays imp c)
unfolding has
has-step m c imp t = elim (Bool-cases (str_eq c.status "succeeded")) [
  | inr s ↦ rw (s, ||-false (has m imp)) refl
  | inl s ↦ elim (Bool-cases (str_eq c.impression_id imp)) [
    | inl e ↦
        let same : c.impression_id ≡ imp = (eq_iff c.impression_id imp).0 e in
        rw (s, same)
          (elim (Bool-cases (has m imp)) [
            | inl h ↦ rw (t, h, h) refl
            | inr h ↦
                let q : str_eq imp imp ≡ true = (eq_iff imp imp).1 refl in
                rw (t, h, has-set m imp imp (record c { impression_id = imp }), q) refl
          ])
    | inr e ↦ elim (Bool-cases (not (truthy c.impression_id) || has m c.impression_id)) [
      | inl h ↦ rw (s, e, h, ||-false (has m imp)) refl
      | inr h ↦ rw (s, h, has-set m c.impression_id imp c, e, ||-false (has m imp)) refl
    ]
  ]
]

has-index_succeeded :
    (cs : List ChargeRow) (imp : String)
    → truthy imp ≡ true
    → (m : JsMap ChargeRow) → has (index_succeeded m cs) imp ≡ (has m imp || any (pays imp) cs)
unfolding index_succeeded
has-index_succeeded [] imp t m = sym (||-false (has m imp))
has-index_succeeded (c ∷ cs) imp t m =
    has-index_succeeded cs imp t _
    ∙ ap (λ b. b || any (pays imp) cs) (has-step m c imp t)
    ∙ ||-assoc (has m imp) (pays imp c) (any (pays imp) cs)

review_alert-is_unrefunded :
    (charges : List ChargeRow) (now grace : ℕ) (r : Review)
    → review_alert (index_succeeded [] charges) now grace r
      ≡ (if is_unrefunded charges now grace r then unrefunded_alert r ∷ [] else [])
unfolding review_alert has
review_alert-is_unrefunded charges now grace r = elim (Bool-cases (str_eq r.status "approved")) [
  | inr a ↦ rw (a) refl
  | inl a ↦ elim (Bool-cases r.refund_queued) [
    | inl q ↦ rw (a, q) refl
    | inr q ↦ elim (Bool-cases (truthy r.impression_id)) [
      | inr t ↦ rw (a, q, t) refl
      | inl t ↦
          let found = has-index_succeeded charges r.impression_id t [] in
          elim (Option-cases (get (index_succeeded [] charges) r.impression_id)) [
            | inl g ↦
                let none_pays : false ≡ any (pays r.impression_id) charges = rw (has, g) at found in
                rw (a, q, t, g, ← none_pays) refl
            | inr (c, g) ↦
                let one_pays : true ≡ any (pays r.impression_id) charges = rw (has, g) at found in
                rw (a, q, t, g, ← one_pays) refl
          ]
    ]
  ]
]

review_alerts-select :
    (charges : List ChargeRow) (now grace : ℕ) (rs : List Review)
    → review_alerts (index_succeeded [] charges) now grace rs
      ≡ map unrefunded_alert (select (is_unrefunded charges now grace) rs)
unfolding review_alerts
review_alerts-select charges now grace [] = refl
review_alerts-select charges now grace (r ∷ rs) =
    ap (λ xs. xs ++ review_alerts (index_succeeded [] charges) now grace rs)
      (review_alert-is_unrefunded charges now grace r)
    ∙ elim (Bool-cases (is_unrefunded charges now grace r)) [
      | inl e ↦
          rw e (ap (λ xs. unrefunded_alert r ∷ xs) (review_alerts-select charges now grace rs))
      | inr e ↦ rw e (review_alerts-select charges now grace rs)
    ]

-- The check names exactly the reviews whose reversal left cash behind, each once and in order:
-- those approved, with no refund queued, of an impression that a succeeded charge paid, and either
-- older than the grace or of a date that cannot be read.
pub reversed_charge_alerts :
    (reviews : List Review) (charges : List ChargeRow) (now grace : ℕ)
    → (eval_reversed_charge_unrefunded reviews charges now grace).alerts
      ≡ map unrefunded_alert (select (is_unrefunded charges now grace) reviews)
unfolding eval_reversed_charge_unrefunded
reversed_charge_alerts reviews charges now grace =
    conclude_alerts "reversed_charge_unrefunded"
      (review_alerts (index_succeeded [] charges) now grace reviews)
    ∙ review_alerts-select charges now grace reviews
