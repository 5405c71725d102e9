-- ===== src/Cycle/Rows.antt =====
-- The rows of `advertiser_charges` under the requests of supabase/functions/billing/index.ts: their
-- ids, and the pending rows of one batch.
use luma_line.Prelude.{
  ℕ, zero, suc, String, Bool, true, false, not, ◌||◌, Option, none, some, List, [], ◌∷◌, ◌++◌, ◌≡◌,
  refl, ap, subst, ◌∙◌, map, select, All, Bool-cases, inl, inr, length, ◌≤◌, str_eq, eq_iff, arith,
}
use luma_line.Cycle.{ChargeRow}
use luma_line.Cycle.Tables.{
  take, contains, is_pending, is_text, is_in_batch, group_id, update_row, insert_row, insert_rows,
}
use luma_line.Billing.Charges.{batch_key}
use luma_line.Cycle.Charge.{as_charge}
use luma_line.Cycle.Kept.{Settles, drop_rows}

abbrev pub pending_of : String → List ChargeRow → List ChargeRow
pending_of batch rows = select (is_in_batch batch) rows

abbrev pub ids_of : List ChargeRow → List String
ids_of rows = map group_id rows

abbrev pub without : List String → List ChargeRow → List ChargeRow
without ids rows = select (λ r. not (contains ids r.entry_group_id)) rows

-- `entry_group_id` is a unique key.
abbrev pub AreDistinct : List String → Type 0
AreDistinct [] = Unit
AreDistinct (x ∷ xs) = (contains xs x ≡ false) × AreDistinct xs

pub pending_of-drop :
    (batch : String) (ids : List String) (rows : List ChargeRow)
    → pending_of batch (drop_rows ids rows) ≡ without ids (pending_of batch rows)
pending_of-drop batch ids [] = refl
pending_of-drop batch ids (r ∷ rows) = ground (arith, pending_of-drop batch ids rows)

settled-out :
    (batch : String) (r : ChargeRow) → is_pending r.status ≡ false → is_in_batch batch r ≡ false
settled-out batch r h = ground arith

module _ (f : ChargeRow → ChargeRow) (settles : Settles f) where
  pub pending_of-update :
      (batch : String) (ids : List String) (rows : List ChargeRow)
      → pending_of batch (map (update_row ids f) rows) ≡ without ids (pending_of batch rows)
  pending_of-update batch ids [] = refl
  pending_of-update batch ids (r ∷ rows) =
      ground
        (arith, pending_of-update batch ids rows, settled-out batch (f r) (settles.not_pending r))

  pub ids_of-update :
      (ids : List String) (rows : List ChargeRow)
      → ids_of (map (update_row ids f) rows) ≡ ids_of rows
  ids_of-update ids [] = refl
  ids_of-update ids (r ∷ rows) = ground (arith, ids_of-update ids rows, settles.same_id r)

-- What a part of the rows does not have, none of these lists has.
pub contains-select :
    (p : ChargeRow → Bool) (rows : List ChargeRow) (k : String)
    → contains (ids_of rows) k ≡ false
    → contains (ids_of (select p rows)) k ≡ false
contains-select p [] k h = refl
contains-select p (r ∷ rows) k h = ground (arith, contains-select p rows k)

pub contains-take :
    (n : ℕ) (rows : List ChargeRow) (k : String)
    → contains (ids_of rows) k ≡ false
    → contains (ids_of (take n rows)) k ≡ false
contains-take zero rows k h = refl
contains-take (suc n) [] k h = refl
contains-take (suc n) (r ∷ rows) k h = ground (arith, contains-take n rows k)

-- The same of a selection from them.
contains-select-take :
    (q : ChargeRow → Bool) (n : ℕ) (rows : List ChargeRow) (k : String)
    → contains (ids_of (select q rows)) k ≡ false
    → contains (ids_of (select q (take n rows))) k ≡ false
contains-select-take q zero rows k h = refl
contains-select-take q (suc n) [] k h = refl
contains-select-take q (suc n) (r ∷ rows) k h = ground (arith, contains-select-take q n rows k)

contains-select-select :
    (q p : ChargeRow → Bool) (rows : List ChargeRow) (k : String)
    → contains (ids_of (select q rows)) k ≡ false
    → contains (ids_of (select q (select p rows))) k ≡ false
contains-select-select q p [] k h = refl
contains-select-select q p (r ∷ rows) k h = ground (arith, contains-select-select q p rows k)

-- The same of what a page of the rows that pass a filter holds.
pub contains-select_page :
    (q p : ChargeRow → Bool) (n : ℕ) (rows : List ChargeRow) (k : String)
    → contains (ids_of (select q rows)) k ≡ false
    → contains (ids_of (select q (take n (select p rows)))) k ≡ false
contains-select_page q p n rows k h =
    contains-select-take q n (select p rows) k (contains-select-select q p rows k h)

pub AreDistinct-select :
    (p : ChargeRow → Bool) (rows : List ChargeRow)
    → AreDistinct (ids_of rows)
    → AreDistinct (ids_of (select p rows))
AreDistinct-select p [] h = h
AreDistinct-select p (r ∷ rows) h = elim (Bool-cases (p r)) [
  | inl e ↦ rw e (contains-select p rows r.entry_group_id h.0, AreDistinct-select p rows h.1)
  | inr e ↦ rw e (AreDistinct-select p rows h.1)
]

contains-append :
    (xs : List String) (x k : String) → contains (xs ++ (x ∷ [])) k ≡ (contains xs k || str_eq x k)
contains-append [] x k = ground arith
contains-append (y ∷ xs) x k = ground (arith, contains-append xs x k)

AreDistinct-append :
    (xs : List String) (x : String)
    → contains xs x ≡ false
    → AreDistinct xs
    → AreDistinct (xs ++ (x ∷ []))
AreDistinct-append [] x h d = (refl, tt)
AreDistinct-append (y ∷ xs) x h d = (
  ground (arith, contains-append xs x y, eq_iff x y, eq_iff y x),
  AreDistinct-append xs x (ground arith) d.1,
)

ids_of-append :
    (rows : List ChargeRow) (r : ChargeRow)
    → ids_of (rows ++ (r ∷ [])) ≡ ids_of rows ++ (r.entry_group_id ∷ [])
ids_of-append [] r = refl
ids_of-append (q ∷ rows) r = ap (λ l. q.entry_group_id ∷ l) (ids_of-append rows r)

AreDistinct-insert_row :
    (r : ChargeRow) (rows : List ChargeRow)
    → AreDistinct (ids_of rows)
    → AreDistinct (ids_of (insert_row r rows))
AreDistinct-insert_row r rows d =
    elim (Bool-cases (contains (map group_id rows) r.entry_group_id)) [
      | inl e ↦ rw e d
      | inr e ↦
          rw e (rw (ids_of-append rows r) (AreDistinct-append (ids_of rows) r.entry_group_id e d))
    ]

select-append :
    (p : ChargeRow → Bool) (rows : List ChargeRow) (r : ChargeRow)
    → p r ≡ false
    → select p (rows ++ (r ∷ [])) ≡ select p rows
select-append p [] r h = rw h refl
select-append p (q ∷ rows) r h = ground (arith, select-append p rows r)

pending_of-insert_row :
    (batch : String) (r : ChargeRow) (rows : List ChargeRow)
    → is_in_batch batch r ≡ false
    → pending_of batch (insert_row r rows) ≡ pending_of batch rows
pending_of-insert_row batch r rows h =
    elim (Bool-cases (contains (map group_id rows) r.entry_group_id)) [
      | inl e ↦ rw e refl
      | inr e ↦ rw e (select-append (is_in_batch batch) rows r h)
    ]

-- Rows of other batches are inserted beside those of a batch.
pub pending_of-insert_rows :
    (batch : String) (qs rows : List ChargeRow)
    → All (λ q. is_in_batch batch q ≡ false) qs
    → pending_of batch (insert_rows qs rows) ≡ pending_of batch rows
unfolding insert_rows
pending_of-insert_rows batch [] rows h = refl
pending_of-insert_rows batch (q ∷ qs) rows h =
    pending_of-insert_rows batch qs (insert_row q rows) h.1 ∙ pending_of-insert_row batch q rows h.0

pub AreDistinct-insert_rows :
    (qs rows : List ChargeRow)
    → AreDistinct (ids_of rows)
    → AreDistinct (ids_of (insert_rows qs rows))
unfolding insert_rows
AreDistinct-insert_rows [] rows d = d
AreDistinct-insert_rows (q ∷ qs) rows d =
    AreDistinct-insert_rows qs (insert_row q rows) (AreDistinct-insert_row q rows d)

-- No row has one of these ids.
abbrev pub IsClear : List String → List ChargeRow → Type 0
IsClear ids rows = All (λ r. contains ids r.entry_group_id ≡ false) rows

pub without_clear :
    (ids : List String) (rows : List ChargeRow) → IsClear ids rows → without ids rows ≡ rows
without_clear ids [] h = refl
without_clear ids (r ∷ rows) h = rw h.0 (ap (λ l. r ∷ l) (without_clear ids rows h.1))

pub IsClear-sub :
    (big small : List String) (rows : List ChargeRow)
    → ((k : String) → contains big k ≡ false → contains small k ≡ false)
    → IsClear big rows
    → IsClear small rows
IsClear-sub big small [] sub h = tt
IsClear-sub big small (r ∷ rows) sub h =
    (sub r.entry_group_id h.0, IsClear-sub big small rows sub h.1)

IsClear-cons :
    (x : String) (ids : List String) (rows : List ChargeRow)
    → contains (ids_of rows) x ≡ false
    → IsClear ids rows
    → IsClear (x ∷ ids) rows
IsClear-cons x ids [] n h = tt
IsClear-cons x ids (r ∷ rows) n h = (
  ground (arith, h.0, eq_iff x r.entry_group_id, eq_iff r.entry_group_id x),
  IsClear-cons x ids rows (ground arith) h.1,
)

module _ (p : ChargeRow → Bool) (r : ChargeRow) (rows : List ChargeRow) where
  select_keep : p r ≡ true → r ∷ select p rows ≡ select p (r ∷ rows)
  select_keep e = rw e refl

  select_skip : p r ≡ false → select p rows ≡ select p (r ∷ rows)
  select_skip e = rw e refl

IsClear-at :
    {xs xs_2 ys ys_2 : List ChargeRow}
    → xs ≡ xs_2
    → ys ≡ ys_2
    → IsClear (ids_of xs) ys
    → IsClear (ids_of xs_2) ys_2
IsClear-at {xs_2 = xs_2} {ys = ys} e i h =
    subst (λ l. IsClear (ids_of xs_2) l) i (subst (λ l. IsClear (ids_of l) ys) e h)

-- Under unique ids, two selections without a row in common have no id in common.
pub IsClear-apart :
    (p q : ChargeRow → Bool) (rows : List ChargeRow)
    → ((r : ChargeRow) → p r ≡ true → q r ≡ false)
    → AreDistinct (ids_of rows)
    → IsClear (ids_of (select q rows)) (select p rows)
IsClear-apart p q [] apart d = tt
IsClear-apart p q (r ∷ rows) apart d = elim (Bool-cases (p r)) [
  | inl e ↦
      IsClear-at (select_skip q r rows (apart r e)) (select_keep p r rows e)
        (contains-select q rows r.entry_group_id d.0, IsClear-apart p q rows apart d.1)
  | inr e ↦ elim (Bool-cases (q r)) [
    | inl i ↦ IsClear-at (select_keep q r rows i) (select_skip p r rows e) (
        IsClear-cons r.entry_group_id _ _ (contains-select p rows r.entry_group_id d.0)
          (IsClear-apart p q rows apart d.1))
    | inr i ↦
        IsClear-at (select_skip q r rows i) (select_skip p r rows e)
          (IsClear-apart p q rows apart d.1)
  ]
]

without_more :
    (x : String) (ids : List String) (rows : List ChargeRow)
    → without ids rows ≡ []
    → without (x ∷ ids) rows ≡ []
without_more x ids [] h = refl
without_more x ids (r ∷ rows) h = ground (arith, without_more x ids rows)

-- Without their own ids no rows are left.
pub without_self : (rows : List ChargeRow) → without (ids_of rows) rows ≡ []
without_self [] = refl
without_self (r ∷ rows) = ground (
  arith,
  without_more r.entry_group_id (ids_of rows) rows,
  without_self rows,
  eq_iff r.entry_group_id r.entry_group_id,
)

pub take_all {ℓ} : {A : Type ℓ} (n : ℕ) (xs : List A) → length xs ≤ n → take n xs ≡ xs
take_all zero [] h = refl
take_all zero (x ∷ xs) h = absurd (omega arith)
take_all (suc n) [] h = refl
take_all (suc n) (x ∷ xs) h = ap (λ l. x ∷ l) (take_all n xs (omega arith))

pub IsClear-nil : (rows : List ChargeRow) → IsClear [] rows
IsClear-nil [] = tt
IsClear-nil (r ∷ rows) = (refl, IsClear-nil rows)

text_apart :
    (o : Option String) (s t : String)
    → str_eq s t ≡ false
    → is_text o t ≡ true
    → is_text o s ≡ false
text_apart none s t n e = refl
text_apart (some x) s t n e = ground (arith, eq_iff x s, eq_iff x t, eq_iff s t)

pub batches_apart :
    (other batch : String) (r : ChargeRow)
    → str_eq other batch ≡ false
    → is_in_batch batch r ≡ true
    → is_in_batch other r ≡ false
batches_apart other batch r n e = ground (arith, text_apart r.charge_batch_id other batch n)

text_nonempty :
    (o : Option String) (t : String)
    → str_eq t "" ≡ false
    → is_text o t ≡ true
    → str_eq (elim o [ none ↦ "" | some id ↦ id ]) "" ≡ false
text_nonempty none t n e = ground arith
text_nonempty (some x) t n e = ground (arith, eq_iff x t, eq_iff x "", eq_iff t "")

-- The rows without a batch are those of the empty key.
pub unkeyed_apart :
    (batch : String) (r : ChargeRow)
    → str_eq batch "" ≡ false
    → is_in_batch batch r ≡ true
    → str_eq (batch_key (as_charge r)) "" ≡ false
unkeyed_apart batch r n e = text_nonempty r.charge_batch_id batch n (ground arith)
