-- ===== src/Refund/Due.antt =====
-- What POST /refund of supabase/functions/billing/index.ts pays back, against the tables.
use luma_line.Prelude.{
  String, Bool, true, false, not, ◌&&◌, Option, none, some, List, [], ◌∷◌, ◌≡◌, refl, ◌∙◌, map, any,
  All, Bool-cases, inl, inr, str_eq, eq_iff, truthy, starts_with, pos, leb_ℤ, arith,
}
use luma_line.Prelude.Effects.{Outcome, pure, throw, Keeps, Ends, Keeps->>=, Keeps-if}
use luma_line.Cycle.{ChargeRow, Fate, applied, refused, lost, unanswered, meet, meet_read}
use luma_line.Cycle.Tables.{is_text}
use luma_line.Cycle.Settle.{stripe_missing, stripe_not_test}
use luma_line.Refund.{
  Review, StripeRefund, BalanceClawback, Desk, RefundBackend, same_uuid, open_review,
  succeeded_charge, request_key, clawback_of, queue, queue_at, call, svc_get, svc_patch,
  stripe_client, mark_queued, tried, refund,
}

-- A review of this id, in whatever case, was approved for this impression.
abbrev pub is_approved : String → String → Review → Bool
is_approved review impression v =
    same_uuid v.id review && str_eq v.status "approved" && is_text v.impression_id impression

-- The refund is that of an approved review: of the whole amount of the succeeded charge of its
-- impression, on that charge's intent, where the charge was not settled on the balance. Its key is
-- made of the review's id as the request has it.
abbrev pub IsRefundDue : List Review → List ChargeRow → StripeRefund → Type 0
IsRefundDue reviews charges r =
    (review : String) × (impression : String) × (c : ChargeRow) × (any
        (is_approved review impression) reviews
      ≡ true)
    × (succeeded_charge impression charges ≡ some c)
    × (is_text c.settled_via "balance" ≡ false)
    × (c.stripe_charge_id ≡ some r.payment_intent)
    × (r.key ≡ request_key review)
    × (r.amount ≡ c.amount_cents)
    × (leb_ℤ r.amount (pos 0) ≡ false)

-- The clawback is that of an approved review of an impression whose succeeded charge was settled on
-- the balance.
abbrev pub IsClawbackDue : List Review → List ChargeRow → BalanceClawback → Type 0
IsClawbackDue reviews charges k =
    (review : String) × (c : ChargeRow) × (any (is_approved review k.impression_id) reviews ≡ true)
    × (succeeded_charge k.impression_id charges ≡ some c)
    × (is_text c.settled_via "balance" ≡ true)
    × (k ≡ clawback_of k.impression_id review)

approved_queue :
    (review impression other : String) (refund : Option String) (v : Review)
    → is_approved review impression (queue_at other refund v) ≡ is_approved review impression v
approved_queue review impression other refund v = elim (Bool-cases (same_uuid v.id other)) [
  | inl e ↦ rw e (approved_set refund)
  | inr e ↦ rw e refl
]
  where
    approved_set :
        (refund : Option String)
        → is_approved review impression (queue refund v) ≡ is_approved review impression v
    approved_set none = refl
    approved_set (some id) = refl

approved-map :
    (review impression other : String) (refund : Option String) (vs : List Review)
    → any (is_approved review impression) (map (queue_at other refund) vs)
      ≡ any (is_approved review impression) vs
approved-map review impression other refund [] = refl
approved-map review impression other refund (v ∷ vs) =
    rw (approved_queue review impression other refund v)
      (rw (approved-map review impression other refund vs) refl)

-- What is known of a review that was found: it was approved for its impression.
abbrev pub IsFound : String → List Review → Option Review → Type 0
IsFound review vs none = Unit
IsFound review vs (some v) =
    (impression : String)
    → v.impression_id ≡ some impression
    → any (is_approved review impression) vs ≡ true

pub IsFound-more :
    (review : String) (w : Review) (vs : List Review) (o : Option Review)
    → IsFound review vs o
    → IsFound review (w ∷ vs) o
IsFound-more review w vs none h = tt
IsFound-more review w vs (some v) h = λ impression e. ground (arith, h impression e)

pub open_review-IsFound :
    (review : String) (vs : List Review) → IsFound review vs (open_review review vs)
unfolding open_review
open_review-IsFound review [] = tt
open_review-IsFound review (v ∷ vs) =
    elim (Bool-cases (same_uuid v.id review && str_eq v.status "approved" && not v.refund_queued)) [
      | inl e ↦ rw e (λ impression h. rw h (ground (arith, eq_iff impression impression)))
      | inr e ↦
          rw e (IsFound-more review v vs (open_review review vs) (open_review-IsFound review vs))
    ]

-- The invariant of the route, against the tables at its start.
module _ {W : Type 0} (b : RefundBackend W) (vs : List Review) (cs : List ChargeRow) where
  abbrev pub AreDue : Desk W → Type 0
  AreDue s =
      (s.charges ≡ cs)
      × ((review impression : String)
          → any (is_approved review impression) s.reviews ≡ any (is_approved review impression) vs)
      × All (IsRefundDue vs cs) s.refunds
      × All (IsClawbackDue vs cs) s.clawbacks

  pub call-inv : {A : Type 0} (f : W → Outcome A × W) → Keeps AreDue (call b f)
  call-inv f s h = h

  meet-inv :
      (c : Desk W → Desk W)
      → ((s : Desk W) → AreDue s → AreDue (c s))
      → (o : Fate) → Keeps AreDue (meet c o)
  meet-inv c k applied s h = k s h
  meet-inv c k refused s h = h
  meet-inv c k lost s h = h
  meet-inv c k unanswered s h = k s h

  pub mark_queued-inv :
      (review : String) (id : Option String) → Keeps AreDue (mark_queued b review id)
  unfolding mark_queued svc_patch
  mark_queued-inv review id =
      Keeps->>= AreDue _ _
        (λ s h.
          meet-inv _
            (λ s h. (h.0, (λ r i. approved-map r i review id s.reviews ∙ h.1 r i), h.2, h.3))
            (b.fate s.world).0 _ h)
        (λ _ _ h. h)

  pub client_kept : Keeps AreDue (tried b (stripe_client b))
  unfolding stripe_client
  client_kept =
      Keeps-if AreDue (not (truthy b.stripe_key)) (throw stripe_missing) _ (λ _ _ h. h)
        (λ _.
          Keeps-if AreDue (b.assert_test && not (starts_with b.stripe_key "sk_test_"))
            (throw stripe_not_test) (pure tt) (λ _ _ h. h) (λ _ _ h. h))

  abbrev pub Fetched : {A : Type 0} → (A → Type 0) → Option A → Type 0
  Fetched P none = Unit
  Fetched P (some a) = P a

  read-Ends :
      {A : Type 0} (f : Desk W → A) (P : A → Type 0)
      → ((s : Desk W) → AreDue s → P (f s))
      → (o : Fate) (s : Desk W) → AreDue s
      → Ends AreDue (λ found s. AreDue s × Fetched P found) (meet_read f o s)
  read-Ends f P k applied s h = (h, k s h)
  read-Ends f P k refused s h = (h, tt)
  read-Ends f P k lost s h = h
  read-Ends f P k unanswered s h = h

  pub svc_get-Ends :
      {A : Type 0} (f : Desk W → A) (P : A → Type 0)
      → ((s : Desk W) → AreDue s → P (f s))
      → (s : Desk W) → AreDue s
      → Ends AreDue (λ found s. AreDue s × Fetched P found) (svc_get b f s)
  unfolding svc_get
  svc_get-Ends f P k s h = read-Ends f P k (b.fate s.world).0 _ h
