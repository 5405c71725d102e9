-- ===== src/Cycle/Frozen.antt =====
-- The amount of a batch is frozen when it is reserved: recovery of supabase/functions/billing/index.ts
-- asks Stripe for the same amount again, or for nothing.
pub mod Amount
use luma_line.Prelude.{
  ℕ, String, Bool, true, false, not, ◌&&◌, List, [], ◌∷◌, ◌≡◌, refl, sym, ap, subst, ◌∙◌, ◌⊎◌, inl,
  inr, map, select, All, length, ◌≤◌, Bool-cases, str_eq, eq_iff, truthy, pos, ltb_ℤ, arith,
}
use luma_line.Prelude.Effects.{Action, Outcome, ok, thrown, Keeps, Ends, Keeps->>=, Keeps-via}
use luma_line.Billing.Charges.{Group, Plan, batch_key}
use luma_line.Cycle.{
  ChargeRow, IntentRequest, Books, Backend, Fate, applied, refused, lost, unanswered, svc_read,
  meet_read,
}
use luma_line.Cycle.Tables.{
  take, contains, is_pending, is_in_batch, is_unsettled, group_id, pending_row, insert_rows,
  change_rows, reserve_pending, insert_charge, release_batch, reselect_by_batch, or_empty,
  update_row,
}
use luma_line.Cycle.Settle.{
  BatchAdvertiser, BatchResult, batch_cents, request_of, settle_rows, settle_prepay_rows,
  settle_reserved_batch, settle_prepay_batch,
}
use luma_line.Cycle.Charge.{as_charge, group_ids, or_no_rows, run_cycle, charge_run}
use luma_line.Cycle.Kept.{
  IsBlind, IsFree, drop_rows, Keeps-on_rows, Keeps-svc_write, Keeps-svc_read, Keeps-settle_rows,
  Keeps-settle_prepay_rows,
}
use luma_line.Cycle.Kept.Runs.{Keeps-cycle_of, Keeps-charge_run}
use luma_line.Cycle.Settled.{charge_runs}
use luma_line.Cycle.Rows.{
  pending_of, ids_of, without, AreDistinct, pending_of-drop, pending_of-update, ids_of-update,
  contains-take, contains-select_page, AreDistinct-select, pending_of-insert_rows,
  AreDistinct-insert_rows, IsClear, without_clear, IsClear-sub, IsClear-apart, IsClear-nil,
  batches_apart, unkeyed_apart, without_self, take_all,
}

-- A request on behalf of the batch is for this amount.
abbrev pub IsFor : String → List ChargeRow → IntentRequest → Type 0
IsFor batch reserved r = str_eq r.batch_id batch ≡ true → r.amount ≡ batch_cents reserved

-- Ids that hold all the rows, or none of them.
abbrev IsWhole : List ChargeRow → List String → Type 0
IsWhole rows ids = (without ids rows ≡ rows) ⊎ (without ids rows ≡ [])

module _ (reserved : List ChargeRow) (H : Type 0) (ids : List String) where
  left :
      {rows : List ChargeRow}
      → IsWhole reserved ids
      → H
      → rows ≡ without ids reserved
      → (rows ≡ []) ⊎ ((rows ≡ reserved) × H)
  left (inl w) h e = inr (e ∙ w, h)
  left (inr w) h e = inl (e ∙ w)

  part :
      {old new : List ChargeRow}
      → (H → IsWhole reserved ids)
      → new ≡ without ids old
      → (old ≡ []) ⊎ ((old ≡ reserved) × H)
      → (new ≡ []) ⊎ ((new ≡ reserved) × H)
  part whole e (inl o) = inl (e ∙ ap (without ids) o)
  part whole e (inr (o, h)) = left (whole h) h (e ∙ ap (without ids) o)

module _ (batch : String) (reserved : List ChargeRow) {W : Type 0} where
  -- The batch is as it was reserved, or gone; `H` is what else is known while it is there.
  abbrev IsKept : Type 0 → Books W → Type 0
  IsKept H s =
      ((pending_of batch s.rows ≡ []) ⊎ ((pending_of batch s.rows ≡ reserved) × H))
      × AreDistinct (ids_of s.rows)
      × All (IsFor batch reserved) s.intents

  weaken : {G H : Type 0} → (G → H) → (s : Books W) → IsKept G s → IsKept H s
  weaken f s (inl e, k, l) = (inl e, k, l)
  weaken f s (inr (e, g), k, l) = (inr (e, f g), k, l)

  blind : (H : Type 0) → IsBlind (IsKept H)
  blind H = record {
    to_world = λ s w h. h;
    to_stamps = λ s w h. h;
    to_paused = λ s w h. h;
    to_customers = λ s w h. h;
  }

  free : (H : Type 0) (ids : List String) → (H → IsWhole reserved ids) → IsFree (IsKept H) ids
  free H ids whole = record {
    drop = λ s k. (
      part reserved H ids whole (pending_of-drop batch ids s.rows) k.0,
      AreDistinct-select _ s.rows k.1,
      k.2,
    );
    settle = λ f g s k. (
      part reserved H ids whole (pending_of-update f g batch ids s.rows) k.0,
      subst AreDistinct (sym (ids_of-update f g ids s.rows)) k.1,
      k.2,
    );
  }

  -- The rows that were read for a batch: all of the reserved ones, or none of them.
  abbrev IsFit : Type 0 → String → List ChargeRow → Books W → Type 0
  IsFit H other rows s =
      IsKept (H × IsWhole reserved (ids_of rows)) s
      × (str_eq other batch ≡ true → (rows ≡ []) ⊎ (rows ≡ reserved))

  IsFit-nothing : (H : Type 0) (other : String) (s : Books W) → IsKept H s → IsFit H other [] s
  IsFit-nothing H other s k =
      (weaken (λ h. (h, inl (without_clear [] reserved (IsClear-nil reserved)))) s k, λ _. inl refl)

  module _ (few : length reserved ≤ 1000) (H : Type 0) where
    IsFit-own : (s : Books W) → IsKept H s → IsFit H batch (take 1000 (pending_of batch s.rows)) s
    IsFit-own s (inl e, k, l) = ((inl e, k, l), λ _. inl (ap (take 1000) e))
    IsFit-own s (inr (e, h), k, l) =
        let all = ap (take 1000) e ∙ take_all 1000 reserved few in
        (
          (
            inr (
              e,
              (h, inr (ap (λ rows. without (ids_of rows) reserved) all ∙ without_self reserved)),
            ),
            k,
            l,
          ),
          λ _. inr all,
        )

    IsFit-other :
        (other : String) (s : Books W)
        → str_eq other batch ≡ false
        → IsKept H s
        → IsFit H other (take 1000 (pending_of other s.rows)) s
    IsFit-other other s n (inl e, k, l) = ((inl e, k, l), λ i. absurd (ground arith))
    IsFit-other other s n (inr (e, h), k, l) = (
      (
        inr (
          e,
          (
            h,
            inl (
                without_clear _ reserved (
                  subst (IsClear _) e (
                    IsClear-sub _ _ _ (contains-take 1000 (pending_of other s.rows))
                      (IsClear-apart _ _ s.rows (λ r. batches_apart other batch r n) k)))),
          ),
        ),
        k,
        l,
      ),
      λ i. absurd (ground arith),
    )

    IsFit-any :
        (other : String) (s : Books W)
        → IsKept H s
        → IsFit H other (take 1000 (pending_of other s.rows)) s
    IsFit-any other s k = elim (Bool-cases (str_eq other batch)) [
      | inl e ↦
          subst (λ t. IsFit H t (take 1000 (pending_of t s.rows)) s)
            (sym ((eq_iff other batch).0 e)) (IsFit-own s k)
      | inr e ↦ IsFit-other other s e k
    ]

    -- What was read of the rows without a batch.
    fit_unkeyed :
        (s : Books W)
        → str_eq batch "" ≡ false
        → IsKept H s
        → IsKept (H × IsWhole reserved (group_ids "" (take 1000 (select is_unsettled s.rows)))) s
    fit_unkeyed s n (inl e, k, l) = (inl e, k, l)
    fit_unkeyed s n (inr (e, h), k, l) = (
      inr (
        e,
        (
          h,
          inl (
              without_clear _ reserved (
                subst (IsClear _) e (
                  IsClear-sub _ _ _ (contains-select_page _ is_unsettled 1000 s.rows)
                    (IsClear-apart _ _ s.rows (λ r. unkeyed_apart batch r n) k)))),
        ),
      ),
      k,
      l,
    )
