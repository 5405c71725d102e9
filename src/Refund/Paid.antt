-- ===== src/Refund/Paid.antt =====
-- The route POST /refund of supabase/functions/billing/index.ts pays back what is due, and nothing
-- else.
use luma_line.Prelude.{
  ℕ, String, true, false, not, Option, none, some, List, [], ◌∷◌, ◌≡◌, refl, sym, ap, ◌∙◌, any, All,
  truthy, ◌==◌, pos, leb_ℤ,
}
use luma_line.Prelude.Effects.{Outcome, ok, thrown, Keeps, Keeps->>=, Keeps-if, Keeps-via}
use luma_line.Cycle.{ChargeRow}
use luma_line.Cycle.Tables.{is_text}
use luma_line.Edge.Bearer.{is_uuid}
use luma_line.Refund.{
  Review, StripeRefund, Desk, RefundBackend, RefundRequest, open_review, succeeded_charge, require,
  stripe_client, ask_refund, ask_clawback, clawed, refund_balance, stripe_refund_of, tried,
  stripe_refunded, with_client, refund_intent, pay_back, with_charge, with_impression, with_review,
  refund_review, body_text, as_money_admin, as_admin, refund, refund_all,
}
use luma_line.Refund.Due.{
  is_approved, IsRefundDue, IsClawbackDue, IsFound, open_review-IsFound, AreDue, call-inv,
  mark_queued-inv, client_kept, Fetched, svc_get-Ends,
}

module _ {W : Type 0} (b : RefundBackend W) (vs : List Review) (cs : List ChargeRow) where
  abbrev Due : Desk W → Type 0
  Due = AreDue b vs cs

  -- A review and the charge that its impression was paid by.
  module _ (review impression : String)
      (approved : any (is_approved review impression) vs ≡ true) where
    clawed-inv : (r : ℕ × String) → Keeps Due (clawed b review impression r)
    unfolding clawed
    clawed-inv (status, text) =
        Keeps-if Due (not (status == 200)) _ _ (λ _ _ h. h)
          (λ _.
            Keeps-if Due (b.says_refused text) _ _ (λ _ _ h. h)
              (λ _. Keeps->>= Due _ _ (mark_queued-inv b vs cs review none) (λ _ _ h. h)))

    module _ (bearer : String) (c : ChargeRow)
        (found : succeeded_charge impression cs ≡ some c) where
      balance-inv :
          is_text c.settled_via "balance" ≡ true
          → Keeps Due (refund_balance b review impression bearer)
      unfolding refund_balance ask_clawback
      balance-inv e =
          Keeps->>= Due _ _ (λ s h. (h.0, h.1, h.2, ((review, c, approved, found, e, refl), h.3)))
            clawed-inv

      refunded-inv :
          (r : StripeRefund) (o : Outcome String)
          → Keeps Due (stripe_refunded b review impression r o)
      unfolding stripe_refunded
      refunded-inv r (thrown e) = λ _ h. h
      refunded-inv r (ok id) =
          Keeps->>= Due _ _ (mark_queued-inv b vs cs review (some id)) (λ _ _ h. h)

      client-inv :
          (r : StripeRefund)
          → IsRefundDue vs cs r
          → (o : Outcome (Unit {0})) → Keeps Due (with_client b review impression r o)
      unfolding with_client ask_refund
      client-inv r due (thrown e) = λ _ h. h
      client-inv r due (ok u) =
          Keeps->>= Due _ _ (λ s h. (h.0, h.1, (due, h.2), h.3)) (λ o. refunded-inv r o)

      refund-due :
          (intent : String)
          → is_text c.settled_via "balance" ≡ false
          → c.stripe_charge_id ≡ some intent
          → leb_ℤ c.amount_cents (pos 0) ≡ false
          → IsRefundDue vs cs (stripe_refund_of b review intent c)
      refund-due intent e i n = (review, impression, c, approved, found, e, i, refl, refl, n)

      intent-inv :
          is_text c.settled_via "balance" ≡ false
          → (o : Option String) → c.stripe_charge_id ≡ o
          → Keeps Due (refund_intent b review impression c o)
      unfolding refund_intent
      intent-inv e none i = λ _ h. h
      intent-inv e (some intent) i =
          Keeps-if Due (not (truthy intent)) _ _ (λ _ _ h. h)
            (λ _.
              Keeps-if Due (leb_ℤ c.amount_cents (pos 0)) _ _ (λ _ _ h. h)
                (λ n.
                  Keeps->>= Due (tried b (stripe_client b)) _ (client_kept b vs cs)
                    (client-inv _ (refund-due intent e i n))))

      pay_back-inv : Keeps Due (pay_back b review impression bearer c)
      unfolding pay_back
      pay_back-inv =
          Keeps-if Due (is_text c.settled_via "balance") _ _ balance-inv
            (λ e. intent-inv e c.stripe_charge_id refl)

    charge-inv :
        (bearer : String) (o : Option (Option ChargeRow))
        → Fetched b vs cs (λ o. succeeded_charge impression cs ≡ o) o
        → Keeps Due (with_charge b review impression bearer o)
    unfolding with_charge
    charge-inv bearer none found = λ _ h. h
    charge-inv bearer (some none) found = λ _ h. h
    charge-inv bearer (some (some c)) found = pay_back-inv bearer c found

  impression-inv :
      (review bearer : String) (o : Option String)
      → ((impression : String)
          → o ≡ some impression
          → any (is_approved review impression) vs ≡ true)
      → Keeps Due (with_impression b review bearer o)
  unfolding with_impression
  impression-inv review bearer none approved = λ _ h. h
  impression-inv review bearer (some impression) approved =
      Keeps-if Due (not (truthy impression)) _ _ (λ _ _ h. h)
        (λ _.
          Keeps-via Due _ _ _
            (svc_get-Ends b vs cs (λ s. succeeded_charge impression s.charges)
              (λ o. succeeded_charge impression cs ≡ o)
              (λ s h. ap (succeeded_charge impression) (sym h.0)))
            (λ o s h. charge-inv review impression (approved impression refl) bearer o h.1 s h.0))

  review-inv :
      (review bearer : String) (o : Option (Option Review))
      → Fetched b vs cs (IsFound review vs) o
      → Keeps Due (with_review b review bearer o)
  unfolding with_review
  review-inv review bearer none found = λ _ h. h
  review-inv review bearer (some none) found = λ _ h. h
  review-inv review bearer (some (some v)) found =
      impression-inv review bearer v.impression_id found

  IsFound-at :
      (review : String) (s : Desk W)
      → Due s
      → (o : Option Review) → IsFound review s.reviews o
      → IsFound review vs o
  IsFound-at review s h none f = tt
  IsFound-at review s h (some v) f = λ impression e. sym (h.1 review impression) ∙ f impression e

  refund_review-inv : (bearer review : String) → Keeps Due (refund_review b bearer review)
  unfolding refund_review
  refund_review-inv bearer review =
      Keeps-if Due (not (truthy review)) _ _ (λ _ _ h. h)
        (λ _.
          Keeps-if Due (not (is_uuid review)) _ _ (λ _ _ h. h)
            (λ _.
              Keeps-via Due _ _ _
                (svc_get-Ends b vs cs (λ s. open_review review s.reviews) (IsFound review vs)
                  (λ s h. IsFound-at review s h _ (open_review-IsFound review s.reviews)))
                (λ o s h. review-inv review bearer o h.1 s h.0)))

  require-inv :
      (rpc : String → W → Outcome (ℕ × String) × W) (o : Option String)
      → Keeps Due (require b rpc o)
  unfolding require
  require-inv rpc none = λ _ h. h
  require-inv rpc (some bearer) = Keeps->>= Due _ _ (call-inv b vs cs (rpc bearer)) (λ _ _ h. h)

  money-inv : (req : RefundRequest) (o : Option String) → Keeps Due (as_money_admin b req o)
  unfolding as_money_admin
  money-inv req none = λ _ h. h
  money-inv req (some bearer) = refund_review-inv bearer (body_text b req.review_id)

  admin-inv : (req : RefundRequest) (o : Option String) → Keeps Due (as_admin b req o)
  unfolding as_admin
  admin-inv req none = λ _ h. h
  admin-inv req (some bearer) =
      Keeps->>= Due _ _ (require-inv b.money_admin_check _) (λ o. money-inv req o)

  refund-inv : (req : RefundRequest) → Keeps Due (refund b req)
  unfolding refund
  refund-inv req = Keeps->>= Due _ _ (require-inv b.admin_check _) (λ o. admin-inv req o)

  all-inv : (reqs : List RefundRequest) (s : Desk W) → Due s → Due (refund_all b reqs s)
  all-inv [] s h = h
  all-inv (req ∷ reqs) s h = all-inv reqs (refund b req s).1 (refund-inv req s h)

-- Whatever requests come, whatever Stripe and the RPCs answer, and whichever requests to a table are
-- refused, lost or unanswered: every refund that Stripe is asked for is of the whole amount of the
-- succeeded charge of an approved review's impression, on that charge's intent and under a key made of
-- the review's id, its digits in the request's case, where that charge was not settled on the balance;
-- every clawback is of one where it was. So no impression gets both. The refunds and clawbacks before
-- are supposed to be such, too.
pub refund_all-AreDue :
    {W : Type 0} (b : RefundBackend W) (reqs : List RefundRequest) (s : Desk W)
    → All (IsRefundDue s.reviews s.charges) s.refunds
    → All (IsClawbackDue s.reviews s.charges) s.clawbacks
    → All (IsRefundDue s.reviews s.charges) (refund_all b reqs s).refunds
      × All (IsClawbackDue s.reviews s.charges) (refund_all b reqs s).clawbacks
refund_all-AreDue b reqs s h k =
    let end = all-inv b s.reviews s.charges reqs s (refl, (λ r i. refl), h, k) in (end.2, end.3)
