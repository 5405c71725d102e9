-- ===== src/Cycle/Frozen/Amount.antt =====
-- The runs of supabase/functions/billing/index.ts on a reserved batch: no step changes its amount.
use luma_line.Prelude.{
  String, true, false, List, [], ◌∷◌, ◌≡◌, refl, ap, subst, ◌∙◌, ◌⊎◌, ◌≢◌, floor_cents, inl, inr,
  map, select, All, length, ◌≤◌, str_eq, pos, ltb_ℤ, arith,
}
use luma_line.Prelude.Effects.{Keeps, Ends, Keeps->>=, Keeps-via, pure, after}
use luma_line.Billing.Charges.{Group, Plan}
use luma_line.Cycle.{
  ChargeRow, Books, Backend, Fate, applied, refused, lost, unanswered, svc_read, meet_read,
}
use luma_line.Cycle.Tables.{
  take, is_pending, is_in_batch, is_unsettled, pending_row, insert_rows, change_rows,
  reserve_pending, insert_charge, release_batch, reselect_by_batch, or_empty,
}
use luma_line.Cycle.Settle.{
  BatchAdvertiser, batch_cents, request_of, settle_rows, settle_prepay_rows, settle_reserved_batch,
  settle_prepay_batch,
}
use luma_line.Cycle.Charge.{group_ids, or_no_rows, cycle_of, run_cycle, charge_run}
use luma_line.Cycle.Kept.{
  drop_rows, Keeps-on_rows, Keeps-svc_write, Keeps-settle_rows, Keeps-settle_prepay_rows,
}
use luma_line.Cycle.Kept.Runs.{Keeps-cycle_of, Keeps-charge_run}
use luma_line.Cycle.Settled.{charge_runs}
use luma_line.Cycle.Rows.{
  pending_of, ids_of, AreDistinct, pending_of-insert_rows, AreDistinct-insert_rows, without_clear,
  IsClear-nil,
}
use luma_line.Cycle.Frozen.{
  IsFor, IsWhole, IsKept, weaken, blind, free, IsFit, IsFit-nothing, IsFit-any, fit_unkeyed,
}

module _ (batch : String) (named : str_eq batch "" ≡ false) (reserved : List ChargeRow)
    (few : length reserved ≤ 1000) {W : Type 0} (b : Backend W) where
  module _ (H : Type 0) where
    abbrev I : Books W → Type 0
    I = IsKept batch reserved H

    read-IsFit :
        (other : String) (o : Fate) (s : Books W)
        → I s
        → Ends I (IsFit batch reserved H other) (
            after
              (meet_read (λ s. take 1000 (select (is_in_batch other) s.rows)) o s)
              (λ found. pure (or_empty b found)))
    unfolding after
    read-IsFit other applied s k = IsFit-any batch reserved few H other s k
    read-IsFit other refused s k = IsFit-nothing batch reserved H other s k
    read-IsFit other lost s k = k
    read-IsFit other unanswered s k = k

    reselect-IsFit :
        (other : String) (s : Books W)
        → I s
        → Ends I (IsFit batch reserved H other) (reselect_by_batch b other s)
    unfolding reselect_by_batch svc_read
    reselect-IsFit other s k = read-IsFit other (b.fate s.world).0 _ k

    below : ltb_ℤ (batch_cents []) (pos 50) ≢ false
    unfolding floor_cents
    below e = ground arith

    asked :
        (other : String) (rows : List ChargeRow) (customer method : String)
        → (str_eq other batch ≡ true → (rows ≡ []) ⊎ (rows ≡ reserved))
        → ltb_ℤ (batch_cents rows) (pos 50) ≡ false
        → IsFor batch reserved (request_of b other (batch_cents rows) customer method)
    asked other rows customer method fit e i = elim (fit i) [
      | inl n ↦ absurd (below (subst (λ rs. ltb_ℤ (batch_cents rs) (pos 50) ≡ false) n e))
      | inr n ↦ ap batch_cents n
    ]

    settle-inv :
        (other : String) (adv : BatchAdvertiser) (customer method : String)
        → Keeps I (settle_reserved_batch b other adv customer method)
    unfolding settle_reserved_batch
    settle-inv other adv customer method =
        Keeps-via I _ _ (IsFit batch reserved H other) (reselect-IsFit other) (λ rows s k.
          weaken batch reserved (λ h. h.0) (settle_rows b other adv customer method rows s).1
            (Keeps-settle_rows b (blind batch reserved _) other adv customer method rows
              (free batch reserved _ (ids_of rows) (λ h. h.1))
              (λ e s j. (j.0, j.1, (asked other rows customer method k.1 e, j.2))) s k.0))

    draw-inv : (other : String) (adv : BatchAdvertiser) → Keeps I (settle_prepay_batch b other adv)
    unfolding settle_prepay_batch
    draw-inv other adv =
        Keeps-via I _ _ (IsFit batch reserved H other) (reselect-IsFit other) (λ rows s k.
          weaken batch reserved (λ h. h.0) (settle_prepay_rows b other adv rows s).1
            (Keeps-settle_prepay_rows b (blind batch reserved _) other adv rows
              (free batch reserved _ (ids_of rows) (λ h. h.1)) s k.0))

    inserted :
        (qs : List ChargeRow)
        → All (λ q. is_in_batch batch q ≡ false) qs
        → (s : Books W) → I s
        → I (record s { rows = insert_rows qs s.rows })
    inserted qs out s (inl e, d, l) = (
      inl (pending_of-insert_rows batch qs s.rows out ∙ e),
      AreDistinct-insert_rows qs s.rows d,
      l,
    )
    inserted qs out s (inr (e, h), d, l) = (
      inr (pending_of-insert_rows batch qs s.rows out ∙ e, h),
      AreDistinct-insert_rows qs s.rows d,
      l,
    )

    others :
        (gs : List Group) (a other mode : String)
        → str_eq other batch ≡ false
        → All (λ q. is_in_batch batch q ≡ false) (map (pending_row a other mode) gs)
    others [] a other mode n = tt
    others (g ∷ gs) a other mode n = (ground arith, others gs a other mode n)

    reserve-inv :
        (gs : List Group) (a other mode : String)
        → str_eq other batch ≡ false
        → Keeps I (reserve_pending b gs a other mode)
    unfolding reserve_pending
    reserve-inv gs a other mode n =
        Keeps-on_rows b (blind batch reserved H) _ _
          (inserted (map (pending_row a other mode) gs) (others gs a other mode n))

    insert_charge-inv : (r : ChargeRow) → is_pending r.status ≡ false → Keeps I (insert_charge b r)
    unfolding insert_charge change_rows
    insert_charge-inv r h =
        Keeps->>= I _ _
          (Keeps-svc_write b (blind batch reserved H) _ (inserted (r ∷ []) (ground arith, tt)))
          (λ _ _ h. h)

  -- No random id is that of the batch.
  module _ (fresh : (w : W) → str_eq (b.uuid w).0 batch ≡ false) where
    found_inv :
        (plans : List Plan) (rows : List ChargeRow)
        → Keeps
            (IsKept batch reserved (IsWhole reserved (group_ids "" rows)))
            (cycle_of b plans rows)
    unfolding release_batch
    found_inv plans rows =
        Keeps-cycle_of b (blind batch reserved H) (settle-inv H) (draw-inv H) fresh (reserve-inv H)
          (insert_charge-inv H) plans rows
          (Keeps-on_rows b (blind batch reserved H) (group_ids "" rows)
            (drop_rows (group_ids "" rows))
            (free batch reserved H (group_ids "" rows) (λ h. h)).drop)
      where
        H : Type 0
        H = IsWhole reserved (group_ids "" rows)

    abbrev Now : Books W → Type 0
    Now = IsKept batch reserved Unit

    page_inv :
        (o : Fate) (s : Books W)
        → Now s
        → Ends Now
            (λ found s.
              IsKept batch reserved (IsWhole reserved (group_ids "" (or_no_rows b found))) s)
            (meet_read (λ s. take 1000 (select is_unsettled s.rows)) o s)
    page_inv applied s k =
        weaken batch reserved (λ h. h.1) s (fit_unkeyed batch reserved few Unit s named k)
    page_inv refused s k =
        weaken batch reserved (λ _. inl (without_clear [] reserved (IsClear-nil reserved))) s k
    page_inv lost s k = k
    page_inv unanswered s k = k

    cycle-inv : (plans : List Plan) → Keeps Now (run_cycle b plans)
    unfolding run_cycle svc_read
    cycle-inv plans =
        Keeps-via Now _ _ _ (λ s k. page_inv (b.fate s.world).0 _ k)
          (λ found s k.
            weaken batch reserved (λ _. tt) (cycle_of b plans (or_no_rows b found) s).1
              (found_inv plans (or_no_rows b found) s k))

    pub run-inv : Keeps Now (charge_run b)
    run-inv = Keeps-charge_run b (blind batch reserved Unit) (λ s xs k. k) cycle-inv

-- None of the random ids is that of the batch.
abbrev pub IsFresh : String → {W : Type 0} → Backend W → Type 0
IsFresh batch {W} b = (w : W) → str_eq (b.uuid w).0 batch ≡ false

runs-inv :
    (batch : String)
    → str_eq batch "" ≡ false
    → (reserved : List ChargeRow) → length reserved ≤ 1000
    → {W : Type 0} (bs : List (Backend W)) → All (IsFresh batch) bs
    → (s : Books W) → IsKept batch reserved Unit s
    → IsKept batch reserved Unit (charge_runs bs s)
runs-inv batch named reserved few [] fresh s k = k
runs-inv batch named reserved few (b ∷ bs) fresh s k =
    runs-inv batch named reserved few bs fresh.1 (charge_run b s).1
      (run-inv batch named reserved few b fresh.0 s k)

-- The amount of a reserved batch never changes. Take a batch with an id, at most 1000 pending rows,
-- in a table of unique ids, for which nothing but its sum in whole cents was asked so far. Then
-- through any number of runs, whatever Stripe answers and whichever requests are refused, lost or
-- unanswered, no PaymentIntent is ever asked for that batch with another amount, unless a random id
-- is that of the batch.
pub charge_runs-IsFor :
    (batch : String)
    → str_eq batch "" ≡ false
    → {W : Type 0} (bs : List (Backend W)) → All (IsFresh batch) bs
    → (s : Books W) → length (pending_of batch s.rows) ≤ 1000
    → AreDistinct (ids_of s.rows)
    → All (IsFor batch (pending_of batch s.rows)) s.intents
    → All (IsFor batch (pending_of batch s.rows)) (charge_runs bs s).intents
charge_runs-IsFor batch named bs fresh s few distinct asked =
    (runs-inv batch named (pending_of batch s.rows) few bs fresh s
      (inr (refl, tt), distinct, asked)).2
