-- ===== src/Cycle/Kept/Always.antt =====
-- Invariants of supabase/functions/billing/index.ts under which any rows may be released, settled and
-- inserted, and any request of at least 50 cents made: a run keeps them whatever it reads.
use luma_line.Prelude.{String, false, List, [], ◌∷◌, ◌≡◌, pos, ltb_ℤ, map}
use luma_line.Prelude.Effects.{Keeps, Keeps->>=}
use luma_line.Billing.Charges.{Group, Plan}
use luma_line.Cycle.{ChargeRow, Books, Backend}
use luma_line.Cycle.Tables.{
  group_id, pending_row, insert_rows, change_rows, reserve_pending, insert_charge, release_batch,
  reselect_by_batch,
}
use luma_line.Cycle.Settle.{
  BatchAdvertiser, batch_cents, request_of, settle_reserved_batch, settle_prepay_batch,
}
use luma_line.Cycle.Charge.{run_cycle, group_ids, or_no_rows}
use luma_line.Cycle.Kept.{
  IsBlind, IsFree, drop_rows, Keeps-on_rows, Keeps-svc_write, Keeps-svc_read, Keeps-settle_rows,
  Keeps-settle_prepay_rows,
}
use luma_line.Cycle.Kept.Runs.{Keeps-cycle_of}

module _ {W : Type 0} (b : Backend W) {I : Books W → Type 0} (blind : IsBlind I)
    (free : (ids : List String) → IsFree I ids)
    (insert : (rs : List ChargeRow) (s : Books W)
      → I s
      → I (record s { rows = insert_rows rs s.rows }))
    (ask : (batch : String) (rows : List ChargeRow) (customer method : String)
      → ltb_ℤ (batch_cents rows) (pos 50) ≡ false
      → (s : Books W) → I s
      → I (record s {
        intents = request_of b batch (batch_cents rows) customer method ∷ s.intents;
      })) where
  settle-inv :
      (batch : String) (adv : BatchAdvertiser) (customer method : String)
      → Keeps I (settle_reserved_batch b batch adv customer method)
  unfolding settle_reserved_batch reselect_by_batch
  settle-inv batch adv customer method =
      Keeps->>= I _ _ (Keeps->>= I _ _ (Keeps-svc_read b blind _) (λ _ _ h. h)) (λ rows.
        Keeps-settle_rows b blind batch adv customer method rows (free (map group_id rows))
          (ask batch rows customer method))

  draw-inv : (batch : String) (adv : BatchAdvertiser) → Keeps I (settle_prepay_batch b batch adv)
  unfolding settle_prepay_batch reselect_by_batch
  draw-inv batch adv =
      Keeps->>= I _ _ (Keeps->>= I _ _ (Keeps-svc_read b blind _) (λ _ _ h. h))
        (λ rows. Keeps-settle_prepay_rows b blind batch adv rows (free (map group_id rows)))

  reserve-inv :
      (gs : List Group) (a batch mode : String) → Keeps I (reserve_pending b gs a batch mode)
  unfolding reserve_pending
  reserve-inv gs a batch mode =
      Keeps-on_rows b blind _ _ (insert (map (pending_row a batch mode) gs))

  insert_charge-inv : (r : ChargeRow) → Keeps I (insert_charge b r)
  unfolding insert_charge change_rows
  insert_charge-inv r = Keeps->>= I _ _ (Keeps-svc_write b blind _ (insert (r ∷ []))) (λ _ _ h. h)

  release-inv : (ids : List String) → Keeps I (release_batch b ids)
  unfolding release_batch
  release-inv ids = Keeps-on_rows b blind ids (drop_rows ids) (free ids).drop

  pub Keeps-run_cycle : (plans : List Plan) → Keeps I (run_cycle b plans)
  unfolding run_cycle
  Keeps-run_cycle plans = Keeps->>= I _ _ (Keeps-svc_read b blind _) (λ found.
      Keeps-cycle_of b blind settle-inv draw-inv {P = λ _. Unit} (λ w. tt)
        (λ gs a batch mode _. reserve-inv gs a batch mode) (λ r _. insert_charge-inv r) plans
        (or_no_rows b found) (release-inv (group_ids "" (or_no_rows b found))))
