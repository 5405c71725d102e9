-- ===== src/Connect/Webhook.antt =====
-- POST /webhook of supabase/functions/stripe-connect/index.ts: the events of Stripe, each handled
-- once it is known not to be recorded, and recorded once it was handled.
-- `seen` is the table of the recorded events of this function, and `calls` is what was asked of the
-- database's functions, latest first. These functions, the lookup of a payout by its transfer and
-- Stripe's check of a signature are an environment over a world `W`. Deliveries are handled one after
-- the other; two that overlap are not modelled.
pub mod Once
use luma_line.Prelude.{
  ℕ, String, Bool, true, false, not, ◌&&◌, ◌||◌, Option, none, some, List, [], ◌∷◌, if◌then◌else◌,
  str_eq, starts_with, truthy, ◌&◌, ℤ, pos, leb_ℤ, or_zero, scale,
}
use luma_line.Prelude.Effects.{Fault, Outcome, ok, thrown, Action, pure, throw, ◌>>=◌, ◌>>◌}
use luma_line.Edge.Texts.{parse_webhook_secrets}
use luma_line.Advertiser.Reversal.{IntentField, pi_id_of}
use luma_line.Cycle.{Fate, meet, meet_read}
use luma_line.Cycle.Tables.{contains}
use luma_line.Cycle.Settle.{stripe_missing, stripe_not_test}
use luma_line.Payout.{Transfer, reversed_micros_from_transfer}
use luma_line.Payout.Onboard.{payout_supported_countries}

-- What the handlers read of `event.data.object`, as an account, a transfer or a dispute.
pub record EventObject : Type 0 where
  pub id : Option String
  pub country : Option String
  pub payouts_enabled : Bool
  pub details_submitted : Bool
  pub transfer : Transfer
  pub payment_intent : IntentField
  pub amount : Option ℤ

pub record StripeEvent : Type 0 where
  pub id : String
  pub type : String
  pub object : EventObject

-- What is asked of the database's functions.
pub data Effect : Type 0 where
  set_eligibility : Option String → String → Effect
  reverse_payout : String → ℤ → Effect
  book_chargeback : String → String → ℤ → String → Effect

-- How a call was answered; one without an answer may have been carried out or not.
pub data Answer : Type 0 where
  accepted declined no_answer : Answer

pub record Call : Type 0 where
  pub event : String
  pub effect : Effect
  pub answer : Answer

pub record Inbox (W : Type 0) : Type 0 where
  pub seen : List String
  pub calls : List Call
  pub world : W

pub data InboxQuery : Type 0 where
  read_seen record_seen : InboxQuery

pub record WebhookBackend (W : Type 0) : Type 0 where
  pub stripe_key : String
  pub assert_test : Bool
  pub secret_parts : List String
  pub construct_event : String → String → String → Outcome StripeEvent
  pub fate : InboxQuery → W → Fate × W
  pub rpc : Effect → W → Outcome Bool × W
  pub payouts_by_transfer : String → W → Outcome (Option (List String)) × W

pub record Delivery : Type 0 where
  pub signature : Option String
  pub raw : String

pub data Note : Type 0 where
  eligibility : String → Note
  no_matching_payout payout_reversed no_payment_intent_or_amount chargeback_booked unhandled : Note

pub data HandleReply : Type 0 where
  infra : String → HandleReply
  noted : Note → HandleReply

pub data WebhookReply : Type 0 where
  json_err : String → ℕ → WebhookReply
  duplicate : String → WebhookReply
  handled : String → Note → WebhookReply

abbrev is_unsupported : Option String → Bool
is_unsupported none = false
is_unsupported (some country) = truthy country && not (contains payout_supported_countries country)

unfoldable pub eligibility_for : EventObject → String
eligibility_for account =
    if is_unsupported account.country
    then "ineligible_country"
    else if account.payouts_enabled && account.details_submitted
    then "verified"
    else "pending"

abbrev or_named : String → String → Option String → String
or_named type intent none = type & (":" & intent)
or_named type intent (some id) = id

abbrev pub answer_of : Outcome Bool → Answer
answer_of (ok true) = accepted
answer_of (ok false) = declined
answer_of (thrown e) = no_answer

module _ {W : Type 0} (b : WebhookBackend W) where
  -- `constructEventAsync` with each secret in turn; the client is made in the same `try`.
  abbrev construct : Delivery → String → String → Outcome StripeEvent
  construct d signature secret =
      if not (truthy b.stripe_key)
      then thrown stripe_missing
      else if b.assert_test && not (starts_with b.stripe_key "sk_test_")
      then thrown stripe_not_test
      else b.construct_event d.raw signature secret

  unfoldable pub verified : Delivery → String → String → List String → Outcome StripeEvent
  verified d signature last [] = thrown (record { decline = false; message = last })
  verified d signature last (secret ∷ secrets) = elim (construct d signature secret) [
    | ok e ↦ ok e
    | thrown e ↦ verified d signature e.message secrets
  ]

  abbrev pub ask_world : {A : Type 0} → (W → Outcome A × W) → Action (Inbox W) A
  ask_world f s = ((f s.world).0, record s { world = (f s.world).1 })

  -- `serviceRpc` for an event.
  unfoldable pub ask : String → Effect → Action (Inbox W) Bool
  ask event effect s =
      let answer = b.rpc effect s.world in
      (
        answer.0,
        record s {
          calls = record { event = event; effect = effect; answer = answer_of answer.0 } ∷ s.calls;
          world = answer.1;
        },
      )

  abbrev pub noted_if : String → Note → Bool → Action (Inbox W) HandleReply
  noted_if failure note true = pure (noted note)
  noted_if failure note false = pure (infra failure)

  unfoldable pub account_updated : StripeEvent → Action (Inbox W) HandleReply
  unfolding ask eligibility_for
  account_updated e = do
    done ← ask e.id (set_eligibility e.object.id (eligibility_for e.object))
    noted_if "eligibility update failed" (eligibility (eligibility_for e.object)) done

  unfoldable pub reversed : StripeEvent → Option (List String) → Action (Inbox W) HandleReply
  unfolding ask
  reversed e none = pure (infra "payout lookup failed")
  reversed e (some []) = pure (noted no_matching_payout)
  reversed e (some (payout ∷ rest)) = do
    done ← ask e.id (reverse_payout payout (reversed_micros_from_transfer e.object.transfer))
    noted_if "payout reverse failed" payout_reversed done

  unfoldable pub transfer_reversed : StripeEvent → Action (Inbox W) HandleReply
  unfolding ask reversed
  transfer_reversed e = do
    found ← ask_world (b.payouts_by_transfer e.object.transfer.id)
    reversed e found

  unfoldable pub disputed : StripeEvent → Option String → Action (Inbox W) HandleReply
  unfolding ask
  disputed e none = pure (noted no_payment_intent_or_amount)
  disputed e (some intent) =
      if not (truthy intent) || leb_ℤ (or_zero e.object.amount) (pos 0)
      then pure (noted no_payment_intent_or_amount)
      else (do
        done ← ask e.id (
            book_chargeback intent (or_named e.type intent e.object.id)
              (scale 10000 (or_zero e.object.amount)) ("stripe_" & e.type))
        noted_if "postpay chargeback booking failed" chargeback_booked done)

  unfoldable pub handle : StripeEvent → Action (Inbox W) HandleReply
  unfolding account_updated transfer_reversed disputed
  handle e =
      if str_eq e.type "account.updated"
      then account_updated e
      else if str_eq e.type "transfer.reversed"
      then transfer_reversed e
      else if starts_with e.type "charge.dispute."
      then disputed e (pi_id_of e.object.payment_intent)
      else pure (noted unhandled)

  unfoldable pub is_recorded : String → Action (Inbox W) (Option Bool)
  is_recorded id s =
      meet_read (λ (s : Inbox W). contains s.seen id) (b.fate read_seen s.world).0
        (record s { world = (b.fate read_seen s.world).1 })

  -- An insert that ignores a duplicate, with a result that nothing reads.
  abbrev pub add_seen : String → Inbox W → Inbox W
  add_seen id s = if contains s.seen id then s else record s { seen = id ∷ s.seen }

  unfoldable pub record_event : String → Action (Inbox W) Bool
  record_event id s =
      meet (add_seen id) (b.fate record_seen s.world).0
        (record s { world = (b.fate record_seen s.world).1 })

  unfoldable pub answered : StripeEvent → Outcome HandleReply → Action (Inbox W) WebhookReply
  unfolding record_event
  answered e (thrown f) = pure (json_err ("Webhook handler error: " & f.message) 500)
  answered e (ok (infra message)) = pure (json_err message 502)
  answered e (ok (noted note)) = do record_event e.id; pure (handled e.type note)

  unfoldable pub handle_new : StripeEvent → Action (Inbox W) WebhookReply
  unfolding handle answered
  handle_new e s = answered e (handle e s).0 (handle e s).1

  unfoldable pub unless_recorded : StripeEvent → Option Bool → Action (Inbox W) WebhookReply
  unfolding handle_new
  unless_recorded e none = handle_new e
  unless_recorded e (some true) = pure (duplicate e.type)
  unless_recorded e (some false) = handle_new e

  unfoldable pub on_event : Outcome StripeEvent → Action (Inbox W) WebhookReply
  unfolding is_recorded unless_recorded
  on_event (thrown e) = pure (json_err ("Signature verification failed: " & e.message) 400)
  on_event (ok e) = do recorded ← is_recorded e.id; unless_recorded e recorded

  unfoldable pub with_secrets : Delivery → String → List String → Action (Inbox W) WebhookReply
  unfolding on_event verified
  with_secrets d signature [] = pure (json_err "Webhook secret not configured" 503)
  with_secrets d signature (secret ∷ secrets) =
      on_event (verified d signature "bad signature" (secret ∷ secrets))

  abbrev missing : WebhookReply
  missing = json_err "Missing Stripe-Signature" 400

  unfoldable pub signed : Delivery → Option String → Action (Inbox W) WebhookReply
  unfolding with_secrets parse_webhook_secrets
  signed d none = pure missing
  signed d (some signature) =
      if truthy signature
      then with_secrets d signature (parse_webhook_secrets b.secret_parts)
      else pure missing

  -- The whole route.
  unfoldable pub webhook : Delivery → Action (Inbox W) WebhookReply
  unfolding signed
  webhook d = signed d d.signature

  abbrev pub deliveries : List Delivery → Inbox W → Inbox W
  deliveries [] s = s
  deliveries (d ∷ ds) s = deliveries ds (webhook d s).1
