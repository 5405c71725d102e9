-- ===== src/Cycle/Kept/Runs.antt =====
-- Invariants of a whole run of POST /charge of supabase/functions/billing/index.ts, from those of the
-- batches that it settles and the rows that it inserts.
use luma_line.Prelude.{String, false, Option, none, some, List, [], ◌∷◌, ◌≡◌, refl, not, truthy}
use luma_line.Prelude.Effects.{
  Action, ◌>>=◌, Outcome, ok, thrown, Keeps, Keeps->>=, Keeps-finally, Keeps-if, Keeps-via,
}
use luma_line.Billing.Charges.{
  Row, Group, Plan, Action as PlanAction, skip_house, skip_below_min, charge, draw_prepay, Batch,
}
use luma_line.Billing.Settle.{Route, postpay, prepay}
use luma_line.Cycle.{ChargeRow, Books, Backend, LockEvent, released, outside}
use luma_line.Cycle.Tables.{is_pending, reserve_pending, insert_charge, release_batch}
use luma_line.Cycle.Settle.{
  BatchAdvertiser, Resolved, with_method, no_method, failed_with, settle_reserved_batch,
  settle_prepay_batch,
}
use luma_line.Cycle.Charge.{
  advertiser_of, fresh_with, charge_fresh_batch, charge_prepay_batch, recover_with, recover_batch,
  settle_by, release_unkeyed, group_ids, recover_one, recover_all, skipped_row, skip_house_groups,
  one, act, run_plans, cycle_of, run_cycle, noted, acquire_lock, release_lock, locked_run,
  with_view, charge_run,
}
use luma_line.Cycle.Kept.{IsBlind, Keeps-outside, Keeps-svc_write, Keeps-pause, Keeps-resolve}

module _ {W : Type 0} (b : Backend W) {I : Books W → Type 0} (blind : IsBlind I)
    (settle : (batch : String) (adv : BatchAdvertiser) (customer method : String)
      → Keeps I (settle_reserved_batch b batch adv customer method))
    (draw : (batch : String) (adv : BatchAdvertiser)
      → Keeps I (settle_prepay_batch b batch adv)) where
  recover_with-inv :
      (batch : String) (adv : BatchAdvertiser) (r : Resolved) → Keeps I (recover_with b batch adv r)
  unfolding recover_with
  recover_with-inv batch adv no_method =
      Keeps->>= I _ _ (Keeps-pause b blind adv.advertiser_id) (λ _ _ h. h)
  recover_with-inv batch adv (failed_with e) = λ _ h. h
  recover_with-inv batch adv (with_method customer method) = settle batch adv customer method

  settle_by-inv :
      (r : Route) (batch : String) (adv : BatchAdvertiser) → Keeps I (settle_by b r batch adv)
  unfolding settle_by recover_batch
  settle_by-inv prepay batch adv = draw batch adv
  settle_by-inv postpay batch adv =
      Keeps->>= I _ _ (Keeps-resolve b blind adv) (λ r. recover_with-inv batch adv r)

  module _ (rows : List ChargeRow) (unkeyed : Keeps I (release_batch b (group_ids "" rows))) where
    recover_one-inv : (e : String × Batch) → Keeps I (recover_one b rows e)
    unfolding recover_one release_unkeyed
    recover_one-inv (key, batch) =
        Keeps-if I (not (truthy key)) _ _ (λ _. Keeps->>= I _ _ unkeyed (λ _ _ h. h))
          (λ _.
            Keeps->>= I _ _ (Keeps-outside b blind (b.advertiser batch.advertiser_id))
              (λ _. settle_by-inv _ key _))

    pub Keeps-recover_all : (es : List (String × Batch)) → Keeps I (recover_all b rows es)
    unfolding recover_all
    Keeps-recover_all [] = λ _ h. h
    Keeps-recover_all (e ∷ es) =
        Keeps->>= I _ _ (recover_one-inv e)
          (λ _. Keeps->>= I _ _ (Keeps-recover_all es) (λ _ _ h. h))

  module _ {P : String → Type 0} (fresh : (w : W) → P (b.uuid w).0)
      (reserve : (groups : List Group) (a batch mode : String)
        → P batch
        → Keeps I (reserve_pending b groups a batch mode))
      (skip : (r : ChargeRow) → is_pending r.status ≡ false → Keeps I (insert_charge b r)) where
    reserved-inv :
        {A : Type 0} (m : String → Action (Books W) A)
        → ((batch : String) → P batch → Keeps I (m batch))
        → Keeps I (outside (λ w. (ok (b.uuid w).0, (b.uuid w).1)) >>= m)
    reserved-inv m k =
        Keeps-via I _ _ (λ batch s. I s × P batch) (λ s h. (blind.to_world s _ h, fresh s.world))
          (λ batch s h. k batch h.1 s h.0)

    fresh_with-inv :
        (plan : Plan) (adv : BatchAdvertiser) (r : Resolved) → Keeps I (fresh_with b plan adv r)
    unfolding fresh_with
    fresh_with-inv plan adv no_method =
        Keeps->>= I _ _ (Keeps-pause b blind adv.advertiser_id) (λ _ _ h. h)
    fresh_with-inv plan adv (failed_with e) = λ _ h. h
    fresh_with-inv plan adv (with_method customer method) = reserved-inv _ (λ batch new.
        Keeps->>= I _ _ (reserve plan.pending.groups adv.advertiser_id batch "postpay" new)
          (λ _. settle batch adv customer method))

    skip-inv : (a : String) (gs : List Group) → Keeps I (skip_house_groups b a gs)
    unfolding skip_house_groups
    skip-inv a [] = λ _ h. h
    skip-inv a (g ∷ gs) =
        Keeps->>= I _ _ (skip (skipped_row b a g) refl)
          (λ _. Keeps->>= I _ _ (skip-inv a gs) (λ _ _ h. h))

    act-inv : (action : PlanAction) (plan : Plan) → Keeps I (act b action plan)
    unfolding act one charge_fresh_batch charge_prepay_batch
    act-inv skip_house plan = skip-inv plan.pending.advertiser_id plan.pending.groups
    act-inv skip_below_min plan = λ _ h. h
    act-inv draw_prepay plan =
        Keeps->>= I _ _
          (reserved-inv _ (λ batch new.
            Keeps->>= I _ _
              (reserve plan.pending.groups plan.pending.advertiser_id batch "prepay" new)
              (λ _. draw batch (advertiser_of plan "prepay"))))
          (λ _ _ h. h)
    act-inv charge plan =
        Keeps->>= I _ _
          (Keeps->>= I _ _ (Keeps-resolve b blind (advertiser_of plan "postpay"))
            (λ r. fresh_with-inv plan (advertiser_of plan "postpay") r))
          (λ _ _ h. h)

    pub Keeps-run_plans : (plans : List Plan) → Keeps I (run_plans b plans)
    unfolding run_plans
    Keeps-run_plans [] = λ _ h. h
    Keeps-run_plans (plan ∷ plans) =
        Keeps->>= I _ _ (act-inv plan.action plan)
          (λ _. Keeps->>= I _ _ (Keeps-run_plans plans) (λ _ _ h. h))

    pub Keeps-cycle_of :
        (plans : List Plan) (rows : List ChargeRow)
        → Keeps I (release_batch b (group_ids "" rows))
        → Keeps I (cycle_of b plans rows)
    unfolding cycle_of
    Keeps-cycle_of plans rows unkeyed =
        Keeps->>= I _ _ (Keeps-recover_all rows unkeyed _)
          (λ _. Keeps->>= I _ _ (Keeps-run_plans plans) (λ _ _ h. h))

-- A whole run keeps what its cycle keeps, if the lock's log does not matter.
module _ {W : Type 0} (b : Backend W) {I : Books W → Type 0} (blind : IsBlind I)
    (to_locks : (s : Books W) (xs : List LockEvent) → I s → I (record s { locks = xs }))
    (cycle : (plans : List Plan) → Keeps I (run_cycle b plans)) where
  noted-inv : (o : Outcome (Option String) × W) → Keeps I (noted b o)
  noted-inv (ok none, w) = λ s h. blind.to_world s w h
  noted-inv (ok (some t), w) = λ s h. to_locks _ _ (blind.to_world s w h)
  noted-inv (thrown e, w) = λ s h. to_locks _ _ (blind.to_world s w h)

  release_lock-inv : (t : String) → Keeps I (release_lock b t)
  unfolding release_lock
  release_lock-inv t =
      Keeps->>= I _ _ (Keeps-svc_write b blind _ (λ s. to_locks s (released t ∷ s.locks)))
        (λ _ _ h. h)

  locked_run-inv : (plans : List Plan) (o : Option String) → Keeps I (locked_run b plans o)
  unfolding locked_run
  locked_run-inv plans none = λ _ h. h
  locked_run-inv plans (some t) =
      Keeps-finally I _ (release_lock b t) (Keeps->>= I _ _ (cycle plans) (λ _ _ h. h))
        (release_lock-inv t)

  with_view-inv : (o : Option (List Row)) → Keeps I (with_view b o)
  unfolding with_view acquire_lock
  with_view-inv none = λ _ h. h
  with_view-inv (some rows) =
      Keeps->>= I _ _ (λ s h. noted-inv (b.acquire_lock s.world) s h) (λ t. locked_run-inv _ t)

  pub Keeps-charge_run : Keeps I (charge_run b)
  unfolding charge_run
  Keeps-charge_run = Keeps->>= I _ _ (Keeps-outside b blind b.uncharged) (λ o. with_view-inv o)
