-- ===== src/Cycle/Charge.antt =====
-- The route POST /charge of supabase/functions/billing/index.ts: recovery of the batches that an
-- earlier run left pending, then the fresh plans, under a lock.
use luma_line.Prelude.{
  String, false, not, Option, none, some, List, [], ◌∷◌, ◌++◌, map, select, if◌then◌else◌, str_eq,
  truthy, pos, floor_cents,
}
use luma_line.Prelude.Effects.{Outcome, ok, thrown, Action, pure, finally, ◌>>=◌, ◌>>◌}
use luma_line.Billing.Charges.{
  Row, Group, Plan, Action as PlanAction, skip_house, skip_below_min, charge, draw_prepay,
  or_postpay, Charge, Batch, batch_key, plan_advertiser_charges, partition_pending_by_batch,
}
use luma_line.Billing.Settle.{Route, postpay, prepay, choose_settle_route}
use luma_line.Cycle.{
  ChargeStatus, ChargeRow, AdvertiserRow, Books, Backend, svc_read, svc_write, outside, acquired,
  unsure, released,
}
use luma_line.Cycle.Tables.{
  take, is_unsettled, insert_charge, release_batch, reserve_pending, pause_advertiser_line_items,
}
use luma_line.Cycle.Settle.{
  BatchAdvertiser, BatchResult, ResultStatus, report, Resolved, with_method, no_method, failed_with,
  resolve_customer_and_pm, settle_reserved_batch, settle_prepay_batch,
}

abbrev pub advertiser_of : Plan → String → BatchAdvertiser
advertiser_of plan mode = record {
  advertiser_id = plan.pending.advertiser_id;
  advertiser_name = plan.pending.advertiser_name;
  stripe_customer_id = plan.pending.stripe_customer_id;
  is_house = false;
  billing_mode = mode;
}

-- What recovery reads of a pending row. The amount is not read.
abbrev pub as_charge : ChargeRow → Charge
as_charge r = record {
  charge_batch_id = r.charge_batch_id;
  advertiser_id = r.advertiser_id;
  amount_micros = none;
}

abbrev pub recovered_advertiser : String → Option AdvertiserRow → BatchAdvertiser
recovered_advertiser id none = record {
  advertiser_id = id;
  advertiser_name = none;
  stripe_customer_id = none;
  is_house = false;
  billing_mode = "postpay";
}
recovered_advertiser id (some a) = record {
  advertiser_id = id;
  advertiser_name = a.name;
  stripe_customer_id = a.stripe_customer_id;
  is_house = a.is_house;
  billing_mode = or_postpay a.billing_mode;
}

-- The settle mode that the first of these rows with the key of the batch was frozen with.
unfoldable pub frozen_mode : String → List ChargeRow → Option String
frozen_mode key [] = none
frozen_mode key (r ∷ rows) =
    let rest = frozen_mode key rows in
    if str_eq (batch_key (as_charge r)) key then r.settle_mode else rest

abbrev pub group_ids : String → List ChargeRow → List String
group_ids key rows =
    map (λ (r : ChargeRow). r.entry_group_id)
      (select (λ r. str_eq (batch_key (as_charge r)) key) rows)

module _ {W : Type 0} (b : Backend W) where
  unfoldable pub fresh_with : Plan → BatchAdvertiser → Resolved → Action (Books W) BatchResult
  unfolding pause_advertiser_line_items reserve_pending settle_reserved_batch
  fresh_with plan adv no_method = do
    pause_advertiser_line_items b adv.advertiser_id
    pure (report adv.advertiser_id ResultStatus.skipped (some "no_payment_method") none)
  fresh_with plan adv (failed_with e) =
      pure (report adv.advertiser_id ResultStatus.failed (some e) none)
  fresh_with plan adv (with_method customer method) = do
    batch ← outside (λ w. (ok (b.uuid w).0, (b.uuid w).1))
    reserve_pending b plan.pending.groups adv.advertiser_id batch "postpay"
    settle_reserved_batch b batch adv customer method

  unfoldable pub charge_fresh_batch : Plan → Action (Books W) BatchResult
  unfolding resolve_customer_and_pm fresh_with
  charge_fresh_batch plan = do
    resolved ← resolve_customer_and_pm b (advertiser_of plan "postpay")
    fresh_with plan (advertiser_of plan "postpay") resolved

  unfoldable pub charge_prepay_batch : Plan → Action (Books W) BatchResult
  unfolding reserve_pending settle_prepay_batch
  charge_prepay_batch plan = do
    batch ← outside (λ w. (ok (b.uuid w).0, (b.uuid w).1))
    reserve_pending b plan.pending.groups plan.pending.advertiser_id batch "prepay"
    settle_prepay_batch b batch (advertiser_of plan "prepay")

  unfoldable pub recover_with : String → BatchAdvertiser → Resolved → Action (Books W) BatchResult
  unfolding pause_advertiser_line_items settle_reserved_batch
  recover_with batch adv no_method = do
    pause_advertiser_line_items b adv.advertiser_id
    pure (report adv.advertiser_id ResultStatus.skipped (some "no_payment_method") (some batch))
  recover_with batch adv (failed_with e) =
      pure (report adv.advertiser_id ResultStatus.failed (some e) (some batch))
  recover_with batch adv (with_method customer method) =
      settle_reserved_batch b batch adv customer method

  unfoldable pub recover_batch : String → BatchAdvertiser → Action (Books W) BatchResult
  unfolding resolve_customer_and_pm recover_with
  recover_batch batch adv = do
    resolved ← resolve_customer_and_pm b adv
    recover_with batch adv resolved

  unfoldable pub settle_by : Route → String → BatchAdvertiser → Action (Books W) BatchResult
  unfolding settle_prepay_batch recover_batch
  settle_by prepay batch adv = settle_prepay_batch b batch adv
  settle_by postpay batch adv = recover_batch batch adv

  unfoldable pub release_unkeyed : String → List ChargeRow → Action (Books W) BatchResult
  unfolding release_batch
  release_unkeyed advertiser rows = do
    release_batch b (group_ids "" rows)
    pure (report advertiser ResultStatus.skipped (some "no_batch_id_released") none)

  -- One batch of the partition; `rows` are all the pending rows that were read.
  unfoldable pub recover_one : List ChargeRow → String × Batch → Action (Books W) BatchResult
  unfolding release_unkeyed settle_by frozen_mode
  recover_one rows (key, batch) =
      if not (truthy key) then release_unkeyed batch.advertiser_id rows else (do
        found ← outside (b.advertiser batch.advertiser_id)
        settle_by
            (choose_settle_route (frozen_mode key rows)
              (some (recovered_advertiser batch.advertiser_id found).billing_mode))
            key (recovered_advertiser batch.advertiser_id found))

  unfoldable pub recover_all :
      List ChargeRow → List (String × Batch) → Action (Books W) (List BatchResult)
  unfolding recover_one
  recover_all rows [] = pure []
  recover_all rows (e ∷ es) = do r ← recover_one rows e; rs ← recover_all rows es; pure (r ∷ rs)

  abbrev pub skipped_row : String → Group → ChargeRow
  skipped_row advertiser g = record {
    entry_group_id = g.entry_group_id;
    advertiser_id = advertiser;
    impression_id = g.impression_id;
    amount_micros = g.amount_micros;
    amount_cents = floor_cents g.amount_micros;
    status = ChargeStatus.skipped;
    charge_batch_id = none;
    settle_mode = none;
    stripe_charge_id = none;
    stripe_customer_id = none;
    failure_reason = some "house_advertiser";
    settled_via = none;
  }

  -- A house group is skipped for good, one result for each.
  unfoldable pub skip_house_groups : String → List Group → Action (Books W) (List BatchResult)
  unfolding insert_charge
  skip_house_groups advertiser [] = pure []
  skip_house_groups advertiser (g ∷ gs) = do
    insert_charge b (skipped_row advertiser g)
    rs ← skip_house_groups advertiser gs
    pure (report advertiser ResultStatus.skipped (some "house_advertiser") none ∷ rs)

  unfoldable pub one : Action (Books W) BatchResult → Action (Books W) (List BatchResult)
  one m = do r ← m; pure (r ∷ [])

  unfoldable pub act : PlanAction → Plan → Action (Books W) (List BatchResult)
  unfolding skip_house_groups charge_fresh_batch charge_prepay_batch
  act skip_house plan = skip_house_groups plan.pending.advertiser_id plan.pending.groups
  act skip_below_min plan = pure (
      report plan.pending.advertiser_id ResultStatus.skipped (some "below_stripe_minimum") none
      ∷ [])
  act draw_prepay plan = one (charge_prepay_batch plan)
  act charge plan = one (charge_fresh_batch plan)

  unfoldable pub run_plans : List Plan → Action (Books W) (List BatchResult)
  unfolding act
  run_plans [] = pure []
  run_plans (plan ∷ plans) = do rs ← act plan.action plan; more ← run_plans plans; pure (rs ++ more)

  abbrev pub or_no_rows : Option (List ChargeRow) → List ChargeRow
  or_no_rows none = []
  or_no_rows (some rows) = rows

  -- Recovery of the batches of these pending rows, then the fresh plans.
  unfoldable pub cycle_of : List Plan → List ChargeRow → Action (Books W) (List BatchResult)
  unfolding recover_all run_plans partition_pending_by_batch
  cycle_of plans rows = do
    recovered ← recover_all rows (partition_pending_by_batch (map as_charge rows))
    fresh ← run_plans plans
    pure (recovered ++ fresh)

  -- What runs under the lock.
  unfoldable pub run_cycle : List Plan → Action (Books W) (List BatchResult)
  unfolding svc_read cycle_of
  run_cycle plans = do
    found ← svc_read b (λ s. take 1000 (select is_unsettled s.rows))
    cycle_of plans (or_no_rows found)

  abbrev pub noted : Outcome (Option String) × W → Action (Books W) (Option String)
  noted (ok (some token), w) s =
      (ok (some token), record s { locks = acquired token ∷ s.locks; world = w })
  noted (ok none, w) s = (ok none, record s { world = w })
  noted (thrown e, w) s = (thrown e, record s { locks = unsure ∷ s.locks; world = w })

  unfoldable pub acquire_lock : Action (Books W) (Option String)
  acquire_lock s = noted (b.acquire_lock s.world) s

  unfoldable pub release_lock : String → Action (Books W) (Unit {0})
  unfolding svc_write
  release_lock token = do svc_write b (λ s. record s { locks = released token ∷ s.locks }); pure tt

  -- `none` is a view that could not be read; a run that finds the lock taken reports nothing.
  unfoldable pub locked_run :
      List Plan → Option String → Action (Books W) (Option (List BatchResult))
  unfolding run_cycle release_lock
  locked_run plans none = pure (some [])
  locked_run plans (some token) =
      finally (do rs ← run_cycle plans; pure (some rs)) (release_lock token)

  unfoldable pub with_view : Option (List Row) → Action (Books W) (Option (List BatchResult))
  unfolding acquire_lock locked_run plan_advertiser_charges
  with_view none = pure none
  with_view (some rows) = do
    token ← acquire_lock
    locked_run (plan_advertiser_charges (pos 50) rows) token

  -- A run of POST /charge that is no preview, past its guards.
  unfoldable pub charge_run : Action (Books W) (Option (List BatchResult))
  unfolding with_view
  charge_run = do view ← outside b.uncharged; with_view view
