-- ===== src/Cycle/Settled.antt =====
-- What no run of POST /charge of supabase/functions/billing/index.ts changes: the rows that are no
-- longer pending.
use luma_line.Prelude.{
  String, Bool, true, false, List, [], ◌∷◌, ◌++◌, ◌≡◌, refl, sym, ap, subst, ◌∙◌, map, select,
  Bool-cases, ◌⊎◌, inl, inr, if◌then◌else◌, arith,
}
use luma_line.Prelude.Effects.{Keeps}
use luma_line.Cycle.{ChargeRow, Books, Backend}
use luma_line.Cycle.Tables.{
  contains, is_pending, is_claimed, group_id, update_row, insert_row, insert_rows,
}
use luma_line.Cycle.Charge.{charge_run}
use luma_line.Cycle.Kept.{IsBlind, IsFree}
use luma_line.Cycle.Kept.Runs.{Keeps-charge_run}
use luma_line.Cycle.Kept.Always.{Keeps-run_cycle}

module _ {A : Type 0} where
  abbrev pub Has : A → List A → Type 0
  Has r [] = ⊥
  Has r (x ∷ xs) = (r ≡ x) ⊎ Has r xs

  module _ (r : A) where
    append-Has : (xs ys : List A) → Has r xs → Has r (xs ++ ys)
    append-Has [] ys m = absurd m
    append-Has (x ∷ xs) ys (inl e) = inl e
    append-Has (x ∷ xs) ys (inr m) = inr (append-Has xs ys m)

    map-Has : (f : A → A) → f r ≡ r → (xs : List A) → Has r xs → Has r (map f xs)
    map-Has f h [] m = absurd m
    map-Has f h (x ∷ xs) (inl e) = inl (sym h ∙ ap f e)
    map-Has f h (x ∷ xs) (inr m) = inr (map-Has f h xs m)

    if_Has : (c : Bool) (x : A) (xs : List A) → Has r xs → Has r (if c then x ∷ xs else xs)
    if_Has true x xs m = inr m
    if_Has false x xs m = m

    select-Has : (p : A → Bool) → p r ≡ true → (xs : List A) → Has r xs → Has r (select p xs)
    select-Has p h [] m = absurd m
    select-Has p h (x ∷ xs) (inl e) =
        subst (λ c. Has r (if c then x ∷ select p xs else select p xs)) (sym h ∙ ap p e) (inl e)
    select-Has p h (x ∷ xs) (inr m) = if_Has (p x) x (select p xs) (select-Has p h xs m)

module _ (r : ChargeRow) where
  insert_row-Has : (q : ChargeRow) (rows : List ChargeRow) → Has r rows → Has r (insert_row q rows)
  insert_row-Has q rows m = elim (Bool-cases (contains (map group_id rows) q.entry_group_id)) [
    | inl e ↦ rw e m
    | inr e ↦ rw e (append-Has r rows (q ∷ []) m)
  ]

  insert_rows-Has : (qs rows : List ChargeRow) → Has r rows → Has r (insert_rows qs rows)
  unfolding insert_rows
  insert_rows-Has [] rows m = m
  insert_rows-Has (q ∷ qs) rows m = insert_rows-Has qs (insert_row q rows) (insert_row-Has q rows m)

  module _ (settled : is_pending r.status ≡ false) where
    unclaimed : (ids : List String) → is_claimed ids r ≡ false
    unclaimed ids = ground arith

    module _ {W : Type 0} (b : Backend W) where
      abbrev Holds : Books W → Type 0
      Holds s = Has r s.rows

      blind : IsBlind Holds
      blind = record {
        to_world = λ s w h. h;
        to_stamps = λ s w h. h;
        to_paused = λ s w h. h;
        to_customers = λ s w h. h;
      }

      free : (ids : List String) → IsFree Holds ids
      free ids = record {
        drop = λ s h. select-Has r _ (ground arith) s.rows h;
        settle = λ f g s h. map-Has r (update_row ids f) (rw (unclaimed ids) refl) s.rows h;
      }

      run-inv : Keeps Holds (charge_run b)
      run-inv =
          Keeps-charge_run b blind (λ s xs h. h)
            (Keeps-run_cycle b blind free (λ rs s. insert_rows-Has rs s.rows)
              (λ batch rows customer method e s h. h))

-- Run after run, each with its own backend; a run that throws is followed by the next as well.
abbrev pub charge_runs : {W : Type 0} → List (Backend W) → Books W → Books W
charge_runs [] s = s
charge_runs (b ∷ bs) s = charge_runs bs (charge_run b s).1

-- A row that is not pending is never changed or deleted: through any number of runs, whatever
-- Stripe answers and whichever requests are refused, lost or unanswered, it stays as it is.
pub charge_runs-settled :
    {W : Type 0} (bs : List (Backend W)) (s : Books W) (r : ChargeRow)
    → is_pending r.status ≡ false
    → Has r s.rows
    → Has r (charge_runs bs s).rows
charge_runs-settled [] s r e h = h
charge_runs-settled (b ∷ bs) s r e h = charge_runs-settled bs _ r e (run-inv r e b s h)
