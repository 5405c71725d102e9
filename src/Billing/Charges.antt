-- ===== src/Billing/Charges.antt =====
-- Which charges to make: `planAdvertiserCharges` and `partitionPendingByBatch` of
-- supabase/functions/_shared/billing-logic.mjs.
pub mod Grouped
pub mod Conserved
use luma_line.Prelude.{
  String, Bool, false, Option, none, some, List, [], ◌∷◌, ◌++◌, map, if◌then◌else◌, str_eq, ℤ, pos,
  ◌+ℤ◌, floor_cents, or_zero, ltb_ℤ,
}
use luma_line.Prelude.JsMap.{JsMap, group_rows}

-- A row of the uncharged view; `none` is an absent or null field.
pub record Row : Type 0 where
  pub advertiser_id : String
  pub advertiser_name : Option String
  pub is_house : Bool
  pub stripe_customer_id : Option String
  pub billing_mode : Option String
  pub entry_group_id : String
  pub amount_micros : Option ℤ
  pub impression_id : Option String
  pub publisher_id : Option String

pub record Group : Type 0 where
  pub entry_group_id : String
  pub amount_micros : ℤ
  pub impression_id : Option String
  pub publisher_id : Option String

pub record Pending : Type 0 where
  pub advertiser_id : String
  pub advertiser_name : Option String
  pub is_house : Bool
  pub billing_mode : String
  pub stripe_customer_id : Option String
  pub groups : List Group
  pub sum_micros : ℤ

pub data Action : Type 0 where
  skip_house skip_below_min charge draw_prepay : Action

pub record Plan : Type 0 where
  pub pending : Pending
  pub entry_group_ids : List String
  pub sum_cents : ℤ
  pub action : Action

abbrev pub or_postpay : Option String → String
or_postpay none = "postpay"
or_postpay (some mode) = mode

-- The entry that the first row of an advertiser starts.
unfoldable pub start_pending : Row → Pending
start_pending r = record {
  advertiser_id = r.advertiser_id;
  advertiser_name = r.advertiser_name;
  is_house = r.is_house;
  billing_mode = or_postpay r.billing_mode;
  stripe_customer_id = r.stripe_customer_id;
  groups = [];
  sum_micros = pos 0;
}

unfoldable pub group_of : Row → Group
group_of r = record {
  entry_group_id = r.entry_group_id;
  amount_micros = or_zero r.amount_micros;
  impression_id = r.impression_id;
  publisher_id = r.publisher_id;
}

unfoldable pub add_row : Row → Pending → Pending
unfolding group_of
add_row r p = record p {
  groups = p.groups ++ (group_of r ∷ []);
  sum_micros = p.sum_micros +ℤ or_zero r.amount_micros;
}

-- `byAdv` after the loop.
unfoldable pub by_advertiser : List Row → JsMap Pending
unfolding start_pending add_row group_rows
by_advertiser rows = group_rows (λ (r : Row). r.advertiser_id) start_pending add_row [] rows

unfoldable pub action_of : ℤ → Pending → Action
action_of min_cents p =
    if p.is_house
    then skip_house
    else if str_eq p.billing_mode "prepay"
    then draw_prepay
    else if ltb_ℤ (floor_cents p.sum_micros) min_cents
    then skip_below_min
    else charge

unfoldable pub plan_of : ℤ → Pending → Plan
unfolding action_of
plan_of min_cents p = record {
  pending = p;
  entry_group_ids = map (λ (g : Group). g.entry_group_id) p.groups;
  sum_cents = floor_cents p.sum_micros;
  action = action_of min_cents p;
}

unfoldable pub plan_advertiser_charges : ℤ → List Row → List Plan
unfolding by_advertiser plan_of
plan_advertiser_charges min_cents rows =
    map (λ (e : String × Pending). plan_of min_cents e.1) (by_advertiser rows)

-- A reserved row that is not settled yet.
pub record Charge : Type 0 where
  pub charge_batch_id : Option String
  pub advertiser_id : String
  pub amount_micros : Option ℤ

pub record Batch : Type 0 where
  pub advertiser_id : String
  pub rows : List Charge

abbrev pub batch_key : Charge → String
batch_key r = elim r.charge_batch_id [ none ↦ "" | some id ↦ id ]

abbrev pub start_batch : Charge → Batch
start_batch r = record { advertiser_id = r.advertiser_id; rows = [] }

abbrev pub push_row : Charge → Batch → Batch
push_row r b = record b { rows = b.rows ++ (r ∷ []) }

unfoldable pub partition_pending_by_batch : List Charge → JsMap Batch
unfolding group_rows
partition_pending_by_batch rows = group_rows batch_key start_batch push_row [] rows
