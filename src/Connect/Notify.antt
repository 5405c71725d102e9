-- ===== src/Connect/Notify.antt =====
-- The mails of POST /payout/batch of supabase/functions/stripe-connect/index.ts, and the route: who
-- may ask for it, and what it answers.
use luma_line.Prelude.{
  ℕ, String, Bool, true, false, Option, none, some, List, [], ◌∷◌, select, length, if◌then◌else◌,
  str_eq, truthy, ℤ,
}
use luma_line.Prelude.Effects.{Outcome, ok, thrown, Action, pure, catch, ◌>>=◌, ◌>>◌}
use luma_line.Edge.Bearer.{bearer_header}
use luma_line.Payout.{payout_min_micros}
use luma_line.Payout.Onboard.{constant_time_equal}
use luma_line.Connect.{
  PayoutRow, Contact, Candidate, Mail, paid_mail, nudge_mail, Rail, RailBackend, payout_of, call,
  tried, payout_batch_reserve, admin_gate, stripe_ready,
}
use luma_line.Connect.Batch.{
  was_paid, was_deferred, was_failed, PayResult, micros_to_cents, pay_pending, pending_payouts,
}

abbrev pub or_there : Option String → String
or_there none = "there"
or_there (some handle) = handle

abbrev pub is_paid : PayResult → Bool
is_paid r = elim r.status [ was_paid ↦ true | was_deferred ↦ false | was_failed ↦ false ]

abbrev pub is_deferred : PayResult → Bool
is_deferred r = elim r.status [ was_paid ↦ false | was_deferred ↦ true | was_failed ↦ false ]

abbrev pub is_failed : PayResult → Bool
is_failed r = elim r.status [ was_paid ↦ false | was_deferred ↦ false | was_failed ↦ true ]

-- How many nudges there are to send, and how many were sent.
pub record Nudged : Type 0 where
  pub candidates : ℕ
  pub sent : ℕ

abbrev pub nudged_of : ℕ → ℕ → Nudged
nudged_of candidates sent = record { candidates = candidates; sent = sent }

abbrev pub or_no_candidates : Option (List Candidate) → List Candidate
or_no_candidates none = []
or_no_candidates (some cs) = cs

pub record BatchReply : Type 0 where
  pub paid : ℕ
  pub deferred : ℕ
  pub failed : ℕ
  pub processed : ℕ
  pub nudge_candidates : ℕ
  pub nudged : ℕ
  pub results : List PayResult

unfoldable pub batch_reply : List PayResult → Nudged → BatchReply
batch_reply results n = record {
  paid = length (select is_paid results);
  deferred = length (select is_deferred results);
  failed = length (select is_failed results);
  processed = length results;
  nudge_candidates = n.candidates;
  nudged = n.sent;
  results = results;
}

pub record BatchRequest : Type 0 where
  pub authorization : Option String
  pub cron_secret : Option String
  pub dry_run : Option String

pub data RouteReply : Type 0 where
  json_err : String → RouteReply
  would_transfer : Option (List PayoutRow) → RouteReply
  transferred : BatchReply → RouteReply

abbrev pub is_dry : BatchRequest → Bool
is_dry req = elim req.dry_run [ none ↦ false | some t ↦ str_eq t "true" ]

module _ {W : Type 0} (b : RailBackend W) where
  -- A mail is sent where there is an address.
  unfoldable pub mail_to : (String → Mail) → Option String → Action (Rail W) Bool
  mail_to mail none = pure false
  mail_to mail (some email) =
      if truthy email then call b (b.send_email (mail email)) else pure false

  unfoldable pub mail_contact : PayoutRow → Option Contact → Action (Rail W) (Unit {0})
  unfolding mail_to
  mail_contact po none = pure tt
  mail_contact po (some c) = do
    mail_to (λ email. paid_mail email (or_there c.handle) (micros_to_cents po.amount_micros))
        c.email
    pure tt

  unfoldable pub mail_row : Option PayoutRow → Action (Rail W) (Unit {0})
  unfolding mail_contact
  mail_row none = pure tt
  mail_row (some po) = do c ← call b (b.contact po.publisher_id); mail_contact po c

  -- The paid confirmations.
  unfoldable pub mail_paid : List PayoutRow → List PayResult → Action (Rail W) (Unit {0})
  unfolding mail_row payout_of
  mail_paid rows [] = pure tt
  mail_paid rows (r ∷ rs) = do mail_row (payout_of r.payout_id rows); mail_paid rows rs

  abbrev pub with_sent : Candidate → List String → Bool → List String
  with_sent c ids sent = if sent then c.publisher_id ∷ ids else ids

  -- The connect-nudges; the ids of those that were sent.
  unfoldable pub send_nudges : List Candidate → Action (Rail W) (List String)
  unfolding mail_to
  send_nudges [] = pure []
  send_nudges (c ∷ cs) = do
    sent ←
        mail_to (λ email. nudge_mail email (or_there c.handle) (micros_to_cents c.payable_micros))
          c.email
    ids ← send_nudges cs
    pure (with_sent c ids sent)

  unfoldable pub mark_connect_nudged : ℕ → List String → Action (Rail W) Nudged
  mark_connect_nudged n [] = pure (nudged_of n 0)
  mark_connect_nudged n (id ∷ ids) =
      catch (do call b (b.mark_nudged (id ∷ ids)); pure (nudged_of n (length (id ∷ ids))))
        (λ e. pure (nudged_of n (length (id ∷ ids))))

  unfoldable pub nudge_all : List Candidate → Action (Rail W) Nudged
  unfolding send_nudges mark_connect_nudged
  nudge_all cs =
      catch (do ids ← send_nudges cs; mark_connect_nudged (length cs) ids)
        (λ e. pure (nudged_of (length cs) 0))

  -- What was thrown is caught, and the counters keep what they had.
  unfoldable pub notify : ℤ → List PayoutRow → List PayResult → Action (Rail W) Nudged
  unfolding mail_paid nudge_all
  notify micros rows results =
      catch
        (do
          mail_paid rows (select is_paid results)
          cs ← call b (b.candidates micros)
          nudge_all (or_no_candidates cs))
        (λ e. pure (nudged_of 0 0))

  unfoldable pub pay_and_notify : ℤ → Option (List PayoutRow) → Action (Rail W) RouteReply
  unfolding pay_pending notify batch_reply
  pay_and_notify micros rows = do
    results ← pay_pending b rows
    n ← notify micros (elim rows [ none ↦ [] | some rs ↦ rs ]) results
    pure (transferred (batch_reply results n))

  unfoldable pub when_ready :
      ℤ → Option (List PayoutRow) → Outcome (Unit {0}) → Action (Rail W) RouteReply
  unfolding pay_and_notify
  when_ready micros rows (thrown e) = pure (json_err e.message)
  when_ready micros rows (ok u) = pay_and_notify micros rows

  unfoldable pub with_pending :
      BatchRequest → ℤ → Option (List PayoutRow) → Action (Rail W) RouteReply
  unfolding stripe_ready when_ready
  with_pending req micros rows =
      if is_dry req
      then pure (would_transfer rows)
      else (do ready ← tried b (stripe_ready b); when_ready micros rows ready)

  unfoldable pub when_reserved : BatchRequest → ℤ → Bool → Action (Rail W) RouteReply
  unfolding pending_payouts with_pending
  when_reserved req micros false = pure (json_err "reserve failed")
  when_reserved req micros true = do rows ← pending_payouts b; with_pending req micros rows

  unfoldable pub run_batch : BatchRequest → Action (Rail W) RouteReply
  unfolding payout_batch_reserve payout_min_micros when_reserved
  run_batch req = do
    reserved ← payout_batch_reserve b (payout_min_micros b.min_micros)
    when_reserved req (payout_min_micros b.min_micros) reserved

  unfoldable pub as_money_admin : BatchRequest → Bool → Action (Rail W) RouteReply
  unfolding run_batch
  as_money_admin req false = pure (json_err "Forbidden")
  as_money_admin req true = run_batch req

  unfoldable pub as_admin : BatchRequest → Bool → Action (Rail W) RouteReply
  unfolding admin_gate bearer_header as_money_admin
  as_admin req false = pure (json_err "Forbidden")
  as_admin req true = do
    money ← admin_gate b b.money_admin_check (bearer_header req.authorization)
    as_money_admin req money

  abbrev pub or_blank : Option String → String
  or_blank none = ""
  or_blank (some t) = t

  -- `hasValidCronSecret`
  unfoldable pub is_cron : BatchRequest → Bool
  unfolding constant_time_equal
  is_cron req =
      constant_time_equal (some (or_blank req.cron_secret)) (some (or_blank b.cron_secret))

  unfoldable pub admin_batch : BatchRequest → Action (Rail W) RouteReply
  unfolding admin_gate bearer_header as_admin
  admin_batch req = do
    admin ← admin_gate b b.admin_check (bearer_header req.authorization)
    as_admin req admin

  -- The whole route: the cron secret, or an admin who is a money admin.
  unfoldable pub payout_batch : BatchRequest → Action (Rail W) RouteReply
  unfolding run_batch admin_batch
  payout_batch req = if is_cron req then run_batch req else admin_batch req

-- Run after run, each with its own backend; one that throws is followed by the next as well.
abbrev pub payout_batches : {W : Type 0} → List (RailBackend W × BatchRequest) → Rail W → Rail W
payout_batches [] s = s
payout_batches ((b, req) ∷ runs) s = payout_batches runs (payout_batch b req s).1
