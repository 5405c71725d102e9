-- ===== src/Billing/Charges/Grouped.antt =====
-- What the loop of `planAdvertiserCharges` groups, against a description of it by filtering
-- (supabase/functions/_shared/billing-logic.mjs).
use luma_line.Prelude.{
  ◌≡◌, refl, ap, ◌∙◌, sym, inl, inr, String, Option, none, some, List, [], ◌∷◌, ◌++◌, map, select,
  str_eq, Bool-cases, ℤ, ◌+ℤ◌, sum_ℤ, or_zero, +ℤ_assoc, +ℤ_zero,
}
use mathlib.Core.Path.{ap₂}
use mathlib.Core.List.{append_assoc, append-nil}
use luma_line.Prelude.JsMap.{get, gather, get-group_rows}
use luma_line.Billing.Charges.{
  Row, Group, Pending, start_pending, group_of, add_row, by_advertiser, Charge, Batch, batch_key,
  start_batch, push_row, partition_pending_by_batch,
}

abbrev pub row_micros : Row → ℤ
row_micros r = or_zero r.amount_micros

-- The rows of one advertiser, in order.
abbrev pub own_rows : String → List Row → List Row
own_rows id rows = select (λ (r : Row). str_eq r.advertiser_id id) rows

abbrev pub extend : Pending → List Row → Pending
extend p rs = record p {
  groups = p.groups ++ map group_of rs;
  sum_micros = p.sum_micros +ℤ sum_ℤ row_micros rs;
}

-- What is due of an advertiser with these rows: the head fields of the first, all the groups, and
-- the sum of the amounts.
abbrev pub due : List Row → Option Pending
due [] = none
due (r ∷ rs) = some (extend (start_pending r) (r ∷ rs))

abbrev with_money : Pending → List Group → ℤ → Pending
with_money p gs s = record p { groups = gs; sum_micros = s }

extend_nil : (p : Pending) → extend p [] ≡ p
extend_nil p = ap₂ (with_money p) (append-nil p.groups) (+ℤ_zero p.sum_micros)

extend_cons : (p : Pending) (r : Row) (rs : List Row) → extend (add_row r p) rs ≡ extend p (r ∷ rs)
unfolding add_row
extend_cons p r rs =
    ap₂ (with_money p) (append_assoc p.groups (group_of r ∷ []) (map group_of rs))
      (+ℤ_assoc p.sum_micros (row_micros r) (sum_ℤ row_micros rs))

abbrev by_id : Row → String
by_id r = r.advertiser_id

gather_known :
    (id : String) (p : Pending) (rows : List Row)
    → gather by_id start_pending add_row id (some p) rows ≡ some (extend p (own_rows id rows))
unfolding gather
gather_known id p [] = ap some (sym (extend_nil p))
gather_known id p (r ∷ rows) = elim (Bool-cases (str_eq r.advertiser_id id)) [
  | inl e ↦ rw e (gather_known id (add_row r p) rows ∙ ap some (extend_cons p r (own_rows id rows)))
  | inr e ↦ rw e (gather_known id p rows)
]

gather_unknown :
    (id : String) (rows : List Row)
    → gather by_id start_pending add_row id none rows ≡ due (own_rows id rows)
unfolding gather
gather_unknown id [] = refl
gather_unknown id (r ∷ rows) = elim (Bool-cases (str_eq r.advertiser_id id)) [
  | inl e ↦ rw e (
      gather_known id (add_row r (start_pending r)) rows
      ∙ ap some (extend_cons (start_pending r) r (own_rows id rows)))
  | inr e ↦ rw e (gather_unknown id rows)
]

-- The loop of `planAdvertiserCharges` leaves for each advertiser exactly what is due of the rows
-- with its id: nothing if there are none, and otherwise the name, house flag, mode and customer of
-- the first, a group for each row in order, and the sum of their amounts.
pub by_advertiser-due :
    (rows : List Row) (id : String) → get (by_advertiser rows) id ≡ due (own_rows id rows)
unfolding by_advertiser get
by_advertiser-due rows id =
    get-group_rows by_id start_pending add_row id [] rows ∙ gather_unknown id rows

-- The rows of one batch, in order.
abbrev pub batch_rows : String → List Charge → List Charge
batch_rows k rows = select (λ r. str_eq (batch_key r) k) rows

abbrev pub batch_of : List Charge → Option Batch
batch_of [] = none
batch_of (r ∷ rs) = some (record { advertiser_id = r.advertiser_id; rows = r ∷ rs })

abbrev with_rows : Batch → List Charge → Batch
with_rows b rs = record b { rows = rs }

gather_batch :
    (k : String) (b : Batch) (rows : List Charge)
    → gather batch_key start_batch push_row k (some b) rows
      ≡ some (with_rows b (b.rows ++ batch_rows k rows))
unfolding gather
gather_batch k b [] = ap (λ rs. some (with_rows b rs)) (sym (append-nil b.rows))
gather_batch k b (r ∷ rows) = elim (Bool-cases (str_eq (batch_key r) k)) [
  | inl e ↦ rw e (
      gather_batch k (push_row r b) rows
      ∙ ap (λ rs. some (with_rows b rs)) (append_assoc b.rows (r ∷ []) (batch_rows k rows)))
  | inr e ↦ rw e (gather_batch k b rows)
]

gather_batches :
    (k : String) (rows : List Charge)
    → gather batch_key start_batch push_row k none rows ≡ batch_of (batch_rows k rows)
unfolding gather
gather_batches k [] = refl
gather_batches k (r ∷ rows) = elim (Bool-cases (str_eq (batch_key r) k)) [
  | inl e ↦ rw e (gather_batch k (push_row r (start_batch r)) rows)
  | inr e ↦ rw e (gather_batches k rows)
]

-- A batch of the partition holds exactly the pending rows with its id, in order, those without an
-- id under the empty one, and the advertiser of the first; an id that no row has is in no batch.
pub partition_batch :
    (rows : List Charge) (k : String)
    → get (partition_pending_by_batch rows) k ≡ batch_of (batch_rows k rows)
unfolding partition_pending_by_batch get
partition_batch rows k =
    get-group_rows batch_key start_batch push_row k [] rows ∙ gather_batches k rows
