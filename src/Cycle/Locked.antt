-- ===== src/Cycle/Locked.antt =====
-- The lock of POST /charge of supabase/functions/billing/index.ts: however a run ends, it gives back
-- the lock that it took.
use luma_line.Prelude.{
  String, Bool, true, false, Option, none, some, List, ◌∷◌, ◌≡◌, refl, ap, ◌⊎◌, inl, inr, ◌∙◌,
  arith, pos,
}
use luma_line.Prelude.Effects.{Outcome, ok, thrown, pure, after, ended, ◌>>=◌, Keeps}
use luma_line.Billing.Charges.{Row, Plan, plan_advertiser_charges}
use luma_line.Cycle.{
  Fate, applied, refused, lost, unanswered, LockEvent, acquired, released, unsure, Books, Backend,
  svc_write, meet,
}
use luma_line.Cycle.Charge.{
  run_cycle, locked_run, release_lock, noted, acquire_lock, with_view, charge_run,
}
use luma_line.Cycle.Kept.{IsBlind, IsFree}
use luma_line.Cycle.Kept.Always.{Keeps-run_cycle}

abbrev pub is_made : Fate → Bool
is_made applied = true
is_made refused = false
is_made lost = false
is_made unanswered = true

-- Every request that writes is carried out, also one whose answer is lost.
abbrev pub IsReached : {W : Type 0} → Backend W → Type 0
IsReached {W} b = (w : W) → is_made (b.fate w).0 ≡ true

abbrev pub IsThrown : {A : Type 0} → Outcome A → Type 0
IsThrown (ok a) = ⊥
IsThrown (thrown e) = Unit

-- Either no lock was taken, or the last two events are its taking and its return, or the call for the
-- lock threw, and the run with it.
abbrev pub IsBalanced : {A : Type 0} → List LockEvent → Outcome A → List LockEvent → Type 0
IsBalanced before reply events =
    (events ≡ before)
    ⊎ (((t : String) × (events ≡ released t ∷ acquired t ∷ before))
        ⊎ ((events ≡ unsure ∷ before) × IsThrown reply))

module _ {W : Type 0} (b : Backend W) where
  module _ (events : List LockEvent) where
    abbrev Holds : Books W → Type 0
    Holds s = s.locks ≡ events

    blind : IsBlind Holds
    blind = record {
      to_world = λ s w h. h;
      to_stamps = λ s w h. h;
      to_paused = λ s w h. h;
      to_customers = λ s w h. h;
    }

    free : (ids : List String) → IsFree Holds ids
    free ids = record { drop = λ s h. h; settle = λ f g s h. h }

    cycle-inv : (plans : List Plan) → Keeps Holds (run_cycle b plans)
    cycle-inv = Keeps-run_cycle b blind free (λ rs s h. h) (λ batch rows customer method e s h. h)

  module _ (reached : IsReached b) where
    meet_locks :
        (t : String) (o : Fate) (s : Books W)
        → is_made o ≡ true
        → (meet (λ s. record s { locks = released t ∷ s.locks }) o s).1.locks ≡ released t ∷ s.locks
    meet_locks t applied s e = refl
    meet_locks t refused s e = ground arith
    meet_locks t lost s e = ground arith
    meet_locks t unanswered s e = refl

    after_locks :
        {A B : Type 0} (r : Outcome A × Books W) (v : A → B)
        → (after r (λ a. pure (v a))).1.locks ≡ r.1.locks
    unfolding after
    after_locks (ok a, s) v = refl
    after_locks (thrown e, s) v = refl

    ended_locks :
        {A B : Type 0} (r : Outcome A) (q : Outcome B × Books W) → (ended r q).1.locks ≡ q.1.locks
    unfolding ended
    ended_locks r (ok a, s) = refl
    ended_locks r (thrown e, s) = refl

    release_locks : (t : String) (s : Books W) → (release_lock b t s).1.locks ≡ released t ∷ s.locks
    unfolding release_lock svc_write
    release_locks t s =
        after_locks (svc_write b (λ s. record s { locks = released t ∷ s.locks }) s) (λ _. tt)
        ∙ meet_locks t (b.fate s.world).0 _ (reached s.world)

    kept_locks :
        (plans : List Plan) (s : Books W)
        → ((do rs ← run_cycle b plans; pure (some rs)) s).1.locks ≡ s.locks
    kept_locks plans s = after_locks (run_cycle b plans s) some ∙ cycle-inv s.locks plans s refl

    locked_locks :
        (plans : List Plan) (t : String) (s : Books W)
        → (locked_run b plans (some t) s).1.locks ≡ released t ∷ s.locks
    unfolding locked_run
    locked_locks plans t s =
        ended_locks _ (release_lock b t _)
        ∙ release_locks t _
        ∙ ap (λ ls. released t ∷ ls) (kept_locks plans s)

    noted-IsBalanced :
        (plans : List Plan) (o : Outcome (Option String) × W) (s : Books W)
        → let r = after (noted b o s) (locked_run b plans) in IsBalanced s.locks r.0 r.1.locks
    unfolding after locked_run
    noted-IsBalanced plans (ok none, w) s = inl refl
    noted-IsBalanced plans (ok (some t), w) s = inr (inl (t, locked_locks plans t _))
    noted-IsBalanced plans (thrown e, w) s = inr (inr (refl, tt))

    view-IsBalanced :
        (v : Outcome (Option (List Row)) × W) (s : Books W)
        → let r = after (v.0, record s { world = v.1 }) (with_view b) in
          IsBalanced s.locks r.0 r.1.locks
    unfolding after with_view acquire_lock plan_advertiser_charges
    view-IsBalanced (ok none, w) s = inl refl
    view-IsBalanced (ok (some rows), w) s =
        noted-IsBalanced (plan_advertiser_charges (pos 50) rows) (b.acquire_lock w)
          (record s { world = w })
    view-IsBalanced (thrown e, w) s = inl refl

-- However a run ends, by a return or by a throw and whatever Stripe answers, it has either taken no
-- lock or given back the one that it took, last of all, or the call for the lock threw: then the run
-- threw, too, and gave nothing back, although a call whose answer was lost may have taken the lock.
-- This holds if the requests that write are carried out, also those whose answer is lost.
pub charge_run-IsBalanced :
    {W : Type 0} (b : Backend W) (s : Books W)
    → IsReached b
    → IsBalanced s.locks (charge_run b s).0 (charge_run b s).1.locks
unfolding charge_run
charge_run-IsBalanced b s reached = view-IsBalanced b reached (b.uncharged s.world) s
