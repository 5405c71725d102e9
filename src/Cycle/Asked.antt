-- ===== src/Cycle/Asked.antt =====
-- What POST /charge of supabase/functions/billing/index.ts asks of Stripe.
use luma_line.Prelude.{String, false, List, [], ◌∷◌, ◌≡◌, refl, pos, ltb_ℤ, All}
use luma_line.Prelude.Effects.{Keeps}
use luma_line.Billing.Settle.{batch_idempotency_key}
use luma_line.Cycle.{IntentRequest, Books, Backend}
use luma_line.Cycle.Charge.{charge_run}
use luma_line.Cycle.Kept.{IsBlind, IsFree}
use luma_line.Cycle.Kept.Runs.{Keeps-charge_run}
use luma_line.Cycle.Kept.Always.{Keeps-run_cycle}
use luma_line.Cycle.Settled.{charge_runs}

-- A request that Stripe may be sent: the key of its batch, and no less than Stripe's minimum.
abbrev pub IsPayable : IntentRequest → Type 0
IsPayable r = (r.key ≡ batch_idempotency_key r.batch_id) × (ltb_ℤ r.amount (pos 50) ≡ false)

module _ {W : Type 0} (b : Backend W) where
  abbrev Holds : Books W → Type 0
  Holds s = All IsPayable s.intents

  blind : IsBlind Holds
  blind = record {
    to_world = λ s w h. h;
    to_stamps = λ s w h. h;
    to_paused = λ s w h. h;
    to_customers = λ s w h. h;
  }

  free : (ids : List String) → IsFree Holds ids
  free ids = record { drop = λ s h. h; settle = λ f g s h. h }

  run-inv : Keeps Holds (charge_run b)
  run-inv =
      Keeps-charge_run b blind (λ s xs h. h)
        (Keeps-run_cycle b blind free (λ rs s h. h)
          (λ batch rows customer method e s h. ((refl, e), h)))

-- Every request for a PaymentIntent carries the key of its batch and is for at least 50 cents,
-- through any number of runs, whatever fails in them, if that held of the requests before.
pub charge_runs-IsPayable :
    {W : Type 0} (bs : List (Backend W)) (s : Books W)
    → All IsPayable s.intents
    → All IsPayable (charge_runs bs s).intents
charge_runs-IsPayable [] s h = h
charge_runs-IsPayable (b ∷ bs) s h = charge_runs-IsPayable bs _ (run-inv b s h)
