-- ===== src/Cycle/Preview.antt =====
-- The preview of POST /charge?dry_run=true and the counts of a reply
-- (supabase/functions/billing/index.ts).
use luma_line.Prelude.{
  ℕ, String, Bool, true, false, Option, none, some, List, [], ◌∷◌, ◌++◌, ◌≡◌, refl, map, select,
  length, All, All-append, sum_by, Bool-cases, inl, inr, if◌then◌else◌, ◌+◌, arith,
}
use luma_line.Billing.Charges.{
  Group, Plan, Action as PlanAction, skip_house, skip_below_min, charge, draw_prepay,
}
use luma_line.Cycle.Settle.{BatchResult, ResultStatus}

-- What the counts look at in a result.
pub record Shown : Type 0 where
  pub advertiser_id : String
  pub status : Option ResultStatus
  pub reason : Option String
  pub would_charge : Bool
  pub would_draw : Bool

abbrev skip_for : Plan → String → Shown
skip_for plan reason = record {
  advertiser_id = plan.pending.advertiser_id;
  status = some ResultStatus.skipped;
  reason = some reason;
  would_charge = false;
  would_draw = false;
}

abbrev each_house : Plan → List Group → List Shown
each_house plan [] = []
each_house plan (g ∷ gs) = skip_for plan "house_advertiser" ∷ each_house plan gs

abbrev planned : Plan → Bool → Shown
planned plan draws = record {
  advertiser_id = plan.pending.advertiser_id;
  status = none;
  reason = none;
  would_charge = if draws then false else true;
  would_draw = draws;
}

unfoldable pub preview_plan : PlanAction → Plan → List Shown
preview_plan skip_house plan = each_house plan plan.pending.groups
preview_plan skip_below_min plan = skip_for plan "below_stripe_minimum" ∷ []
preview_plan draw_prepay plan = planned plan true ∷ []
preview_plan charge plan = planned plan false ∷ []

unfoldable pub preview : List Plan → List Shown
unfolding preview_plan
preview [] = []
preview (plan ∷ plans) = preview_plan plan.action plan ++ preview plans

-- A result of a live run.
abbrev pub lived : BatchResult → Shown
lived r = record {
  advertiser_id = r.advertiser_id;
  status = some r.status;
  reason = r.reason;
  would_charge = false;
  would_draw = false;
}

abbrev is_status : ResultStatus → ResultStatus → Bool
is_status ResultStatus.succeeded ResultStatus.succeeded = true
is_status ResultStatus.skipped ResultStatus.skipped = true
is_status ResultStatus.failed ResultStatus.failed = true
is_status a b = false

abbrev has_status : ResultStatus → Shown → Bool
has_status st o = elim o.status [ none ↦ false | some s ↦ is_status s st ]

pub record Counts : Type 0 where
  pub succeeded : ℕ
  pub skipped : ℕ
  pub failed : ℕ
  pub would_charge : ℕ

pub record BillingReply : Type 0 where
  pub charged : ℕ
  pub processed : ℕ
  pub counts : Counts

unfoldable pub counts_of : List Shown → Counts
counts_of results = record {
  succeeded = length (select (has_status ResultStatus.succeeded) results);
  skipped = length (select (has_status ResultStatus.skipped) results);
  failed = length (select (has_status ResultStatus.failed) results);
  would_charge = length (select (λ (o : Shown). o.would_charge) results);
}

unfoldable pub billing_response : List Shown → BillingReply
unfolding counts_of
billing_response results = record {
  charged = (counts_of results).succeeded;
  processed = length results;
  counts = counts_of results;
}

abbrev pub total : Counts → ℕ
total c = c.succeeded + c.skipped + c.failed + c.would_charge

abbrev pub draws : List Shown → ℕ
draws results = length (select (λ (o : Shown). o.would_draw) results)

abbrev bit : Bool → ℕ
bit true = 1
bit false = 0

-- In how many of the counts a result is, the draws included.
abbrev kinds : Shown → ℕ
kinds o =
    bit (has_status ResultStatus.succeeded o)
    + bit (has_status ResultStatus.skipped o)
    + bit (has_status ResultStatus.failed o)
    + bit o.would_charge
    + bit o.would_draw

length-select :
    (p : Shown → Bool) (o : Shown) (os : List Shown)
    → length (select p (o ∷ os)) ≡ bit (p o) + length (select p os)
length-select p o os = elim (Bool-cases (p o)) [
  | inl e ↦ rw e (omega arith)
  | inr e ↦ rw e (omega arith)
]

tally : (os : List Shown) → total (counts_of os) + draws os ≡ sum_by kinds os
unfolding counts_of
tally [] = omega arith
tally (o ∷ os) = omega (
  arith,
  tally os,
  length-select (has_status ResultStatus.succeeded) o os,
  length-select (has_status ResultStatus.skipped) o os,
  length-select (has_status ResultStatus.failed) o os,
  length-select (λ o. o.would_charge) o os,
  length-select (λ o. o.would_draw) o os,
)

one_kind : (os : List Shown) → All (λ o. kinds o ≡ 1) os → sum_by kinds os ≡ length os
one_kind [] h = refl
one_kind (o ∷ os) h = omega (arith, h.0, one_kind os h.1)

lived_status :
    (s : ResultStatus)
    → bit (is_status s ResultStatus.succeeded)
        + bit (is_status s ResultStatus.skipped)
        + bit (is_status s ResultStatus.failed)
        + 0
        + 0
      ≡ 1
lived_status ResultStatus.succeeded = omega arith
lived_status ResultStatus.skipped = omega arith
lived_status ResultStatus.failed = omega arith

lived-kinds : (rs : List BatchResult) → All (λ o. kinds o ≡ 1) (map lived rs)
lived-kinds [] = tt
lived-kinds (r ∷ rs) = (lived_status r.status, lived-kinds rs)

lived-draws : (rs : List BatchResult) → draws (map lived rs) ≡ 0
lived-draws [] = refl
lived-draws (r ∷ rs) = lived-draws rs

house_kinds : (plan : Plan) (gs : List Group) → All (λ o. kinds o ≡ 1) (each_house plan gs)
house_kinds plan [] = tt
house_kinds plan (g ∷ gs) = (omega arith, house_kinds plan gs)

plan_kinds : (a : PlanAction) (plan : Plan) → All (λ o. kinds o ≡ 1) (preview_plan a plan)
unfolding preview_plan
plan_kinds skip_house plan = house_kinds plan plan.pending.groups
plan_kinds skip_below_min plan = (omega arith, tt)
plan_kinds draw_prepay plan = (omega arith, tt)
plan_kinds charge plan = (omega arith, tt)

preview-kinds : (plans : List Plan) → All (λ o. kinds o ≡ 1) (preview plans)
unfolding preview
preview-kinds [] = tt
preview-kinds (plan ∷ plans) =
    All-append (λ o. kinds o ≡ 1) (preview_plan plan.action plan) (preview plans)
      (plan_kinds plan.action plan) (preview-kinds plans)

abbrev pub is_draw : PlanAction → Bool
is_draw skip_house = false
is_draw skip_below_min = false
is_draw draw_prepay = true
is_draw charge = false

abbrev pub draw_plans : List Plan → List Plan
draw_plans plans = select (λ (p : Plan). is_draw p.action) plans

select-append :
    (p : Shown → Bool) (xs ys : List Shown)
    → length (select p (xs ++ ys)) ≡ length (select p xs) + length (select p ys)
select-append p [] ys = omega arith
select-append p (x ∷ xs) ys =
    omega (arith, length-select p x (xs ++ ys), length-select p x xs, select-append p xs ys)

house_draws : (plan : Plan) (gs : List Group) → draws (each_house plan gs) ≡ 0
house_draws plan [] = refl
house_draws plan (g ∷ gs) = house_draws plan gs

plan_draws : (a : PlanAction) (plan : Plan) → draws (preview_plan a plan) ≡ bit (is_draw a)
unfolding preview_plan
plan_draws skip_house plan = house_draws plan plan.pending.groups
plan_draws skip_below_min plan = refl
plan_draws draw_prepay plan = refl
plan_draws charge plan = refl

length-draw_plans :
    (plan : Plan) (plans : List Plan)
    → length (draw_plans (plan ∷ plans)) ≡ bit (is_draw plan.action) + length (draw_plans plans)
length-draw_plans plan plans = elim (Bool-cases (is_draw plan.action)) [
  | inl e ↦ rw e (omega arith)
  | inr e ↦ rw e (omega arith)
]

draws-preview : (plans : List Plan) → draws (preview plans) ≡ length (draw_plans plans)
unfolding preview
draws-preview [] = refl
draws-preview (plan ∷ plans) = omega (
  arith,
  select-append (λ o. o.would_draw) (preview_plan plan.action plan) (preview plans),
  plan_draws plan.action plan,
  draws-preview plans,
  length-draw_plans plan plans,
)

-- The counts of a live run's reply sum to what was processed. Those of a preview fall short of it by
-- the plans that would draw on a prepay balance, which no count has.
pub billing_response-total :
    (rs : List BatchResult) (plans : List Plan)
    → (total (billing_response (map lived rs)).counts ≡ (billing_response (map lived rs)).processed)
      × (total (billing_response (preview plans)).counts + length (draw_plans plans)
          ≡ (billing_response (preview plans)).processed)
unfolding billing_response
billing_response-total rs plans = (
  omega (arith, tally (map lived rs), one_kind (map lived rs) (lived-kinds rs), lived-draws rs),
  omega (
    arith,
    tally (preview plans),
    one_kind (preview plans) (preview-kinds plans),
    draws-preview plans,
  ),
)
