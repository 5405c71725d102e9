-- ===== src/Connect/Life/Runs.antt =====
-- Whole runs of POST /payout/batch of supabase/functions/stripe-connect/index.ts, for one payout:
-- the route implements the abstract machine of its life.
use luma_line.Prelude.{
  ℕ, String, Bool, true, false, Option, none, some, List, [], ◌∷◌, ◌≡◌, refl, sym, subst, ◌⊎◌, inl,
  inr, str_eq, eq_iff, ℤ, arith, length, select, All, ◌≤◌, Bool-cases,
}
use luma_line.Prelude.Effects.{
  Outcome, ok, thrown, Action, Keeps, Keeps->>=, Keeps-if, after, after-inv, after-via, Ends,
}
use luma_line.Cycle.{Fate, applied, refused, lost, unanswered, meet_read}
use luma_line.Cycle.Tables.{take}
use luma_line.Edge.Bearer.{bearer_header}
use luma_line.Payout.{payout_min_micros}
use luma_line.Connect.{
  pending, paid, failed, PayoutRow, Rail, RailBackend, tried, svc_get, admin_gate, stripe_ready,
  payout_batch_reserve, read_pending,
}
use luma_line.Connect.Batch.{pay_one, pay_all, pay_pending, pending_payouts, is_open}
use luma_line.Connect.Notify.{
  BatchRequest, notify, pay_and_notify, when_ready, with_pending, is_dry, when_reserved, run_batch,
  as_money_admin, as_admin, is_cron, admin_batch, payout_batches, payout_batch,
}
use luma_line.Connect.Life.{
  Life, owed, sent, settled, refused_for_good, ◌⟶*◌, here, Case, IsFaithful, IsRow, Stands, Walks,
  Waits, waiting, rows_for,
}
use luma_line.Connect.Life.Holds.{IsRow-page, count_page, count_closed}
use luma_line.Connect.Life.Mailed.{Keeps-notify, ready-state}
use luma_line.Connect.Life.Others.{
  Keeps-call, Keeps-reserve, Stands-world, pay_one-other, pay_all-other,
}
use luma_line.Connect.Life.Own.{pay_one-own}

module _ {W : Type 0} (b : RailBackend W) (c : Case W) (fit : IsFaithful c b) where
  -- What keeps every stage keeps what was walked.
  Walks-of :
      {A : Type 0} (l : Life) (m : Action (Rail W) A)
      → ((n : Life) → Keeps (Stands c n) m)
      → Keeps (Walks c l) m
  Walks-of l m k s (n, w, h) = (n, w, k n s h)

  Waits-other :
      (l : Life) (po : PayoutRow)
      → str_eq po.id c.id ≡ false
      → (s : Rail W) → Waits c l s
      → Waits c l (pay_one b po s).1
  Waits-other l po n s (inl (w, h)) = inl (w, pay_one-other b c fit owed po n s h)
  Waits-other l po n s (inr (w, h)) = inr (w, pay_one-other b c fit sent po n s h)

  after-to :
      {A B : Type 0} {P Q : Rail W → Type 0} (r : Outcome A × Rail W) (f : A → Action (Rail W) B)
      → P r.1
      → ((s : Rail W) → P s → Q s)
      → ((a : A) (s : Rail W) → P s → Q (f a s).1)
      → Q (after r f).1
  unfolding after
  after-to (ok a, s) f h k g = g a s h
  after-to (thrown e, s) f h k g = k s h

  -- A read row of the payout that is pending is like the payout.
  pay_all-Walks :
      (l : Life) (rows : List PayoutRow)
      → length (rows_for c.id rows) ≤ 1
      → All (IsRow c pending) rows
      → (s : Rail W) → Waits c l s
      → Walks c l (pay_all b rows s).1
  unfolding pay_all
  pay_all-Walks l [] few own s h = waiting c l s h
  pay_all-Walks l (po ∷ rows) few own s h = elim (Bool-cases (str_eq po.id c.id)) [
    | inl y ↦
        let (at, since, _) = own.0 y in
        let last : length (rows_for c.id rows) ≡ 0 = ground arith in
        after-inv (Walks c l) (pay_one b po s) _
          (pay_one-own c b fit l po ((eq_iff po.id c.id).0 y) since s at h)
          (λ r.
            Keeps->>= (Walks c l) _ _
              (Walks-of l (pay_all b rows) (λ n. pay_all-other b c fit n rows last)) (λ _ _ k. k))
    | inr n ↦ after-to (pay_one b po s) _ (Waits-other l po n s h) (waiting c l) (λ r s k.
        after-inv (Walks c l) (pay_all b rows s) _ (pay_all-Walks l rows (ground arith) own.1 s k)
          (λ _ _ k. k))
  ]

  -- What was read as pending is at most one row of the payout, or none if it is not pending.
  abbrev IsRead : Life → Option (List PayoutRow) → Rail W → Type 0
  IsRead l none s = Walks c l s
  IsRead l (some rows) s =
      ((length (rows_for c.id rows) ≤ 1) × All (IsRow c pending) rows × Waits c l s)
      ⊎ ((length (rows_for c.id rows) ≡ 0) × Walks c l s)

  read-inv : (l : Life) (o : Option (List PayoutRow)) (s : Rail W) → IsRead l o s → Walks c l s
  read-inv l none s h = h
  read-inv l (some rows) s (inl (few, own, h)) = waiting c l s h
  read-inv l (some rows) s (inr (e, h)) = h

  pay_pending-Walks :
      (l : Life) (o : Option (List PayoutRow)) (s : Rail W)
      → IsRead l o s
      → Walks c l (pay_pending b o s).1
  unfolding pay_pending
  pay_pending-Walks l none s h = h
  pay_pending-Walks l (some rows) s (inl (few, own, h)) = pay_all-Walks l rows few own s h
  pay_pending-Walks l (some rows) s (inr (e, h)) =
      Walks-of l (pay_all b rows) (λ n. pay_all-other b c fit n rows e) s h

  open-IsRead :
      (l : Life) (s : Rail W)
      → Walks c l s
      → IsRead l (some (take 500 (select is_open s.payouts))) s
  open-IsRead l s (owed, w, h) = inl (
    omega (arith, count_page c is_open 500 s.payouts, h.0),
    IsRow-page c is_open pending 500 s.payouts h.1,
    inl (w, h),
  )
  open-IsRead l s (sent, w, h) = inl (
    omega (arith, count_page c is_open 500 s.payouts, h.0),
    IsRow-page c is_open pending 500 s.payouts h.1,
    inr (w, h),
  )
  open-IsRead l s (settled, w, h) =
      inr (count_closed c paid 500 refl s.payouts h.1, (settled, w, h))
  open-IsRead l s (refused_for_good, w, h) =
      inr (count_closed c failed 500 refl s.payouts h.1, (refused_for_good, w, h))

  when_ready-Walks :
      (l : Life) (m : ℤ) (rows : Option (List PayoutRow)) (o : Outcome (Unit {0})) (s : Rail W)
      → IsRead l rows s
      → Walks c l (when_ready b m rows o s).1
  unfolding pay_and_notify when_ready
  when_ready-Walks l m rows (thrown e) s h = read-inv l rows s h
  when_ready-Walks l m rows (ok u) s h =
      after-inv (Walks c l) (pay_pending b rows s) _ (pay_pending-Walks l rows s h) (λ rs.
        Keeps->>= (Walks c l) _ _
          (Walks-of l (notify b m _ rs) (λ n. Keeps-notify b c fit n m _ rs)) (λ _ _ k. k))

  ready_then :
      (l : Life) (m : ℤ) (rows : Option (List PayoutRow)) (s : Rail W)
      → IsRead l rows s
      → Walks c l (after (tried b (stripe_ready b) s) (when_ready b m rows)).1
  unfolding after
  ready_then l m rows s h =
      when_ready-Walks l m rows _ _ (subst (IsRead l rows) (sym (ready-state b s)) h)

  pending-Walks :
      (req : BatchRequest) (l : Life) (m : ℤ) (rows : Option (List PayoutRow)) (s : Rail W)
      → IsRead l rows s
      → Walks c l (with_pending b req m rows s).1
  unfolding with_pending
  pending-Walks req l m rows s h = elim (Bool-cases (is_dry req)) [
    | inl e ↦ rw e (read-inv l rows s h)
    | inr e ↦ rw e (ready_then l m rows s h)
  ]

  reading :
      (l : Life) (o : Fate) (s : Rail W)
      → Walks c l s
      → Ends
          (Walks c l)
          (IsRead l)
          (meet_read (λ (s : Rail W). take 500 (select is_open s.payouts)) o s)
  reading l applied s h = open-IsRead l s h
  reading l refused s h = h
  reading l lost s h = h
  reading l unanswered s h = h

  reserved-Walks :
      (req : BatchRequest) (l : Life) (m : ℤ) (ready : Bool)
      → Keeps (Walks c l) (when_reserved b req m ready)
  unfolding when_reserved pending_payouts svc_get
  reserved-Walks req l m false s h = h
  reserved-Walks req l m true s (n, w, h) =
      after-via (Walks c l) (pending_payouts b s) _
        (reading l (b.fate read_pending s.world).0 _
          (n, w, Stands-world b c fit n s _ (fit.fate_kept read_pending s.world) h))
        (pending-Walks req l m)

  run-Walks : (req : BatchRequest) (l : Life) → Keeps (Walks c l) (run_batch b req)
  unfolding run_batch
  run-Walks req l =
      Keeps->>= (Walks c l) _ _
        (Walks-of l (payout_batch_reserve b (payout_min_micros b.min_micros))
          (λ n. Keeps-reserve b c fit n _))
        (reserved-Walks req l _)

  gate-Walks :
      (l : Life) (rpc : String → W → Outcome (ℕ × String) × W)
      → ((t : String) (w : W) → c.held (rpc t w).1 ≡ c.held w)
      → (o : Option String) → Keeps (Walks c l) (admin_gate b rpc o)
  unfolding admin_gate
  gate-Walks l rpc k none = λ _ h. h
  gate-Walks l rpc k (some t) =
      Walks-of l (admin_gate b rpc (some t))
        (λ n. Keeps->>= (Stands c n) _ _ (Keeps-call b c fit n (rpc t) (k t)) (λ _ _ h. h))

  money-Walks :
      (req : BatchRequest) (l : Life) (o : Bool) → Keeps (Walks c l) (as_money_admin b req o)
  unfolding as_money_admin
  money-Walks req l false = λ _ h. h
  money-Walks req l true = run-Walks req l

  admin-Walks : (req : BatchRequest) (l : Life) (o : Bool) → Keeps (Walks c l) (as_admin b req o)
  unfolding as_admin
  admin-Walks req l false = λ _ h. h
  admin-Walks req l true =
      Keeps->>= (Walks c l) _ _ (gate-Walks l b.money_admin_check fit.money_kept _)
        (money-Walks req l)

  by_admin-Walks : (req : BatchRequest) (l : Life) → Keeps (Walks c l) (admin_batch b req)
  unfolding admin_batch
  by_admin-Walks req l =
      Keeps->>= (Walks c l) (admin_gate b b.admin_check (bearer_header req.authorization)) _
        (gate-Walks l b.admin_check fit.admin_kept (bearer_header req.authorization))
        (admin-Walks req l)

  batch-Walks : (req : BatchRequest) (l : Life) → Keeps (Walks c l) (payout_batch b req)
  unfolding payout_batch
  batch-Walks req l =
      Keeps-if (Walks c l) (is_cron b req) (run_batch b req) (admin_batch b req)
        (λ _. run-Walks req l) (λ _. by_admin-Walks req l)

-- The route implements the abstract machine: through any number of runs, by the cron or by an admin,
-- whichever requests are refused, lost or unanswered and whatever Stripe answers, a payout with one
-- row in the table comes from its stage to a later one by steps of the machine, and Stripe holds for
-- it what that stage says. So at most one transfer is ever made for it, it is booked as paid only
-- after that, and it never fails once there is a transfer. Relied on is that Stripe's listing is
-- whole, that an invalid request makes no transfer, and that the publisher's account is fixed and
-- told.
pub payout_batches-refines :
    {W : Type 0} (c : Case W) (runs : List (RailBackend W × BatchRequest)) (l : Life) (s : Rail W)
    → All (λ run. IsFaithful c run.0) runs
    → Stands c l s
    → (m : Life) × (l ⟶* m) × Stands c m (payout_batches runs s)
payout_batches-refines c runs l s fits h = walked runs fits s (l, here, h)
  where
    walked :
        (runs : List (RailBackend _ × BatchRequest))
        → All (λ run. IsFaithful c run.0) runs
        → (s : Rail _) → Walks c l s
        → Walks c l (payout_batches runs s)
    walked [] fits s h = h
    walked (run ∷ runs) fits s h = walked runs fits.1 _ (batch-Walks run.0 c fits.0 run.1 l s h)
