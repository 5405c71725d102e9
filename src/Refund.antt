-- ===== src/Refund.antt =====
-- The route POST /refund of supabase/functions/billing/index.ts, with its guards: an approved review
-- is paid back through Stripe or on the prepay balance.
-- Stripe, the RPCs that the caller's bearer is forwarded to, and the reading of a JSON reply are an
-- environment; a table is read and written as in the billing cycle. A page of one row is the first
-- row that passes its filter.
pub mod Due
pub mod Paid
use Prim.Native.Char.{code}
use luma_line.Prelude.{
  ℕ, String, Bool, true, false, not, ◌&&◌, ◌||◌, Option, none, some, List, [], ◌∷◌, map,
  if◌then◌else◌, str_eq, starts_with, ◌==◌, truthy, trim, ◌&◌, ℤ, pos, leb_ℤ, leb, ◌+◌,
}
use luma_line.Prelude.Effects.{Fault, Outcome, ok, thrown, Action, pure, throw, catch, ◌>>=◌, ◌>>◌}
use luma_line.Edge.Bearer.{bearer_header, is_uuid}
use luma_line.Cycle.{
  ChargeStatus, pending, succeeded, failed, skipped, ChargeRow, Fate, meet, meet_read,
}
use luma_line.Cycle.Tables.{is_text}
use luma_line.Cycle.Settle.{stripe_missing, stripe_not_test}

pub record Review : Type 0 where
  pub id : String
  pub status : String
  pub impression_id : Option String
  pub refund_queued : Bool
  pub refund_id : Option String

-- What `refunds.create` is asked for.
pub record StripeRefund : Type 0 where
  pub key : String
  pub payment_intent : String
  pub amount : ℤ

-- What `admin_prepay_clawback` is asked for.
pub record BalanceClawback : Type 0 where
  pub impression_id : String
  pub reason : String

-- The tables, what was asked of Stripe and of the clawback, latest first, and the world outside.
pub record Desk (W : Type 0) : Type 0 where
  pub reviews : List Review
  pub charges : List ChargeRow
  pub refunds : List StripeRefund
  pub clawbacks : List BalanceClawback
  pub world : W

pub record RefundBackend (W : Type 0) : Type 0 where
  pub stripe_key : String
  pub assert_test : Bool
  pub fate : W → Fate × W
  pub admin_check : String → W → Outcome (ℕ × String) × W
  pub money_admin_check : String → W → Outcome (ℕ × String) × W
  pub prepay_clawback : BalanceClawback → String → W → Outcome (ℕ × String) × W
  pub says_refused : String → Bool
  pub create_refund : StripeRefund → W → Outcome String × W

pub record RefundRequest : Type 0 where
  pub authorization : Option String
  pub review_id : Option String

pub data RefundReply : Type 0 where
  json_err : String → ℕ → RefundReply
  fetch_failed : String → RefundReply
  refunded : String → ℤ → String → RefundReply
  clawed_back : String → RefundReply
  clawback_refused : String → RefundReply

abbrev is_succeeded : ChargeStatus → Bool
is_succeeded pending = false
is_succeeded succeeded = true
is_succeeded failed = false
is_succeeded skipped = false

-- A hexadecimal digit, without its case.
abbrev fold_hex : ℕ → ℕ
fold_hex n = if leb b'A' n && leb n b'F' then n + 32 else n

-- `id=eq.` on a uuid column: PostgreSQL reads both cases of a digit as the same.
unfoldable pub same_uuid : String → String → Bool
same_uuid String.[] String.[] = true
same_uuid String.[] (String.◌∷◌ d t) = false
same_uuid (String.◌∷◌ c s) String.[] = false
same_uuid (String.◌∷◌ c s) (String.◌∷◌ d t) =
    fold_hex (code c) == fold_hex (code d) && same_uuid s t

-- `id=eq.id&status=eq.approved&refund_queued=eq.false&limit=1`
unfoldable pub open_review : String → List Review → Option Review
open_review id [] = none
open_review id (v ∷ vs) =
    let rest = open_review id vs in
    if same_uuid v.id id && str_eq v.status "approved" && not v.refund_queued then some v else rest

-- `impression_id=eq.impression&status=eq.succeeded&limit=1`
unfoldable pub succeeded_charge : String → List ChargeRow → Option ChargeRow
succeeded_charge impression [] = none
succeeded_charge impression (c ∷ cs) =
    let rest = succeeded_charge impression cs in
    if is_text c.impression_id impression && is_succeeded c.status then some c else rest

abbrev pub request_key : String → String
request_key review = "lumaline_refund_" & review

abbrev pub clawback_of : String → String → BalanceClawback
clawback_of impression review = record {
  impression_id = impression;
  reason = "refund:review_" & review;
}

abbrev pub queue : Option String → Review → Review
queue none v = record v { refund_queued = true }
queue (some refund) v = record v { refund_queued = true; refund_id = some refund }

abbrev pub queue_at : String → Option String → Review → Review
queue_at id refund v = if same_uuid v.id id then queue refund v else v

module _ {W : Type 0} (b : RefundBackend W) where
  abbrev pub call : {A : Type 0} → (W → Outcome A × W) → Action (Desk W) A
  call f s = ((f s.world).0, record s { world = (f s.world).1 })

  unfoldable pub svc_get : {A : Type 0} → (Desk W → A) → Action (Desk W) (Option A)
  svc_get f s = meet_read f (b.fate s.world).0 (record s { world = (b.fate s.world).1 })

  unfoldable pub svc_patch : (Desk W → Desk W) → Action (Desk W) Bool
  svc_patch change s = meet change (b.fate s.world).0 (record s { world = (b.fate s.world).1 })

  abbrev pub is_true : String → ℕ × String → Option String
  is_true bearer (status, text) =
      if status == 200 && str_eq (trim text) "true" then some bearer else none

  -- `requireAdmin` and `requireMoneyAdmin`, by the RPC that they ask.
  unfoldable pub require :
      (String → W → Outcome (ℕ × String) × W) → Option String → Action (Desk W) (Option String)
  require rpc none = pure none
  require rpc (some bearer) = do reply ← call (rpc bearer); pure (is_true bearer reply)

  -- `getStripe()`
  unfoldable pub stripe_client : Action (Desk W) (Unit {0})
  stripe_client =
      if not (truthy b.stripe_key)
      then throw stripe_missing
      else if b.assert_test && not (starts_with b.stripe_key "sk_test_")
      then throw stripe_not_test
      else pure tt

  -- A refund is noted before Stripe answers.
  unfoldable pub ask_refund : StripeRefund → Action (Desk W) String
  ask_refund r s = call (b.create_refund r) (record s { refunds = r ∷ s.refunds })

  unfoldable pub ask_clawback : BalanceClawback → String → Action (Desk W) (ℕ × String)
  ask_clawback c bearer s =
      call (b.prepay_clawback c bearer) (record s { clawbacks = c ∷ s.clawbacks })

  unfoldable pub mark_queued : String → Option String → Action (Desk W) (Unit {0})
  unfolding svc_patch
  mark_queued review refund = do
    svc_patch (λ s. record s { reviews = map (queue_at review refund) s.reviews })
    pure tt

  -- The answer of the clawback; a body that is no JSON refuses nothing.
  unfoldable pub clawed : String → String → ℕ × String → Action (Desk W) RefundReply
  unfolding mark_queued
  clawed review impression (status, text) =
      if not (status == 200)
      then pure (json_err "Balance clawback failed" (if status == 403 then 403 else 502))
      else if b.says_refused text
      then pure (clawback_refused impression)
      else (do mark_queued review none; pure (clawed_back impression))

  unfoldable pub refund_balance : String → String → String → Action (Desk W) RefundReply
  unfolding ask_clawback clawed
  refund_balance review impression bearer = do
    reply ← ask_clawback (clawback_of impression review) bearer
    clawed review impression reply

  abbrev pub stripe_refund_of : String → String → ChargeRow → StripeRefund
  stripe_refund_of review intent c = record {
    key = request_key review;
    payment_intent = intent;
    amount = c.amount_cents;
  }

  -- `try { … } catch (err) { … }` where both go on.
  abbrev pub tried : {A : Type 0} → Action (Desk W) A → Action (Desk W) (Outcome A)
  tried m s = (ok (m s).0, (m s).1)

  unfoldable pub stripe_refunded :
      String → String → StripeRefund → Outcome String → Action (Desk W) RefundReply
  unfolding mark_queued
  stripe_refunded review impression r (thrown e) =
      pure (json_err ("Stripe refund error: " & e.message) 502)
  stripe_refunded review impression r (ok id) = do
    mark_queued review (some id)
    pure (refunded id r.amount impression)

  unfoldable pub with_client :
      String → String → StripeRefund → Outcome (Unit {0}) → Action (Desk W) RefundReply
  unfolding ask_refund stripe_refunded
  with_client review impression r (thrown e) = pure (json_err e.message 503)
  with_client review impression r (ok u) = do
    reply ← tried (ask_refund r)
    stripe_refunded review impression r reply

  abbrev pub no_intent : RefundReply
  no_intent = json_err "Stripe PaymentIntent id missing on advertiser_charges row" 422

  unfoldable pub refund_intent :
      String → String → ChargeRow → Option String → Action (Desk W) RefundReply
  unfolding stripe_client with_client
  refund_intent review impression c none = pure no_intent
  refund_intent review impression c (some intent) =
      if not (truthy intent)
      then pure no_intent
      else if leb_ℤ c.amount_cents (pos 0)
      then pure (json_err "Charge amount is zero or negative — cannot refund" 422)
      else (do
        client ← tried stripe_client
        with_client review impression (stripe_refund_of review intent c) client)

  -- The branch on `settled_via`.
  unfoldable pub pay_back : String → String → String → ChargeRow → Action (Desk W) RefundReply
  unfolding refund_balance refund_intent
  pay_back review impression bearer c =
      if is_text c.settled_via "balance"
      then refund_balance review impression bearer
      else refund_intent review impression c c.stripe_charge_id

  unfoldable pub with_charge :
      String → String → String → Option (Option ChargeRow) → Action (Desk W) RefundReply
  unfolding pay_back
  with_charge review impression bearer none =
      pure (fetch_failed "Failed to fetch advertiser_charges")
  with_charge review impression bearer (some none) =
      pure (json_err "No succeeded charge found for this impression — nothing to refund" 404)
  with_charge review impression bearer (some (some c)) = pay_back review impression bearer c

  abbrev pub no_impression : RefundReply
  no_impression = json_err "Review has no linked impression — cannot refund" 422

  unfoldable pub with_impression : String → String → Option String → Action (Desk W) RefundReply
  unfolding svc_get with_charge succeeded_charge
  with_impression review bearer none = pure no_impression
  with_impression review bearer (some impression) =
      if not (truthy impression) then pure no_impression else (do
        charge ← svc_get (λ s. succeeded_charge impression s.charges)
        with_charge review impression bearer charge)

  unfoldable pub with_review :
      String → String → Option (Option Review) → Action (Desk W) RefundReply
  unfolding with_impression
  with_review review bearer none = pure (fetch_failed "Failed to fetch clawback_review")
  with_review review bearer (some none) =
      pure (json_err "Review not found, not approved, or refund already queued" 404)
  with_review review bearer (some (some v)) = with_impression review bearer v.impression_id

  abbrev pub body_text : Option String → String
  body_text none = ""
  body_text (some t) = trim t

  unfoldable pub refund_review : String → String → Action (Desk W) RefundReply
  unfolding svc_get with_review open_review is_uuid
  refund_review bearer review =
      if not (truthy review)
      then pure (json_err "review_id is required" 400)
      else if not (is_uuid review)
      then pure (json_err "review_id must be a valid UUID" 400)
      else (do found ← svc_get (λ s. open_review review s.reviews); with_review review bearer found)

  abbrev pub forbidden : RefundReply
  forbidden = json_err "Forbidden" 403

  unfoldable pub as_money_admin : RefundRequest → Option String → Action (Desk W) RefundReply
  unfolding refund_review trim
  as_money_admin req none = pure forbidden
  as_money_admin req (some bearer) = refund_review bearer (body_text req.review_id)

  unfoldable pub as_admin : RefundRequest → Option String → Action (Desk W) RefundReply
  unfolding require as_money_admin bearer_header
  as_admin req none = pure forbidden
  as_admin req (some bearer) = do
    money ← require b.money_admin_check (bearer_header req.authorization)
    as_money_admin req money

  -- The whole route: an admin, then a money admin, then the refund.
  unfoldable pub refund : RefundRequest → Action (Desk W) RefundReply
  unfolding require as_admin bearer_header
  refund req = do
    admin ← require b.admin_check (bearer_header req.authorization)
    as_admin req admin

  -- One request after the other; one that throws is answered with an error and the next follows.
  abbrev pub refund_all : List RefundRequest → Desk W → Desk W
  refund_all [] s = s
  refund_all (req ∷ reqs) s = refund_all reqs (refund req s).1
