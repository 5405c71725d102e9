-- ===== src/Connect/Batch.antt =====
-- POST /payout/batch of supabase/functions/stripe-connect/index.ts: the payouts that are pending are
-- transferred one after the other, and who is paid or may be is told.
-- A search runs on the backend's fuel. Where that runs out the run stops with `search_endless`, which
-- nothing catches: the source goes on searching then, and the run does not return.
use luma_line.Prelude.{
  String, Bool, true, false, ◌&&◌, Option, none, some, List, [], ◌∷◌, select, if◌then◌else◌, truthy,
  ◌&◌, ℤ, pos, ◌+ℤ◌, ◌-ℤ◌, floor_cents,
}
use luma_line.Prelude.Effects.{Fault, Outcome, ok, thrown, Action, pure, throw, ◌>>=◌, ◌>>◌}
use luma_line.Cycle.Tables.{take, is_none}
use luma_line.Reconcile.{floor_seconds}
use luma_line.Payout.{Certainty, classify_transfer_error, definitive, ambiguous}
use luma_line.Payout.Paging.{Page, find_transfer_id}
use luma_line.Connect.{
  PayoutStatus, pending, in_transit, paid, failed, canceled, PayoutRow, TransferRequest,
  TransferReply, created, rejected, Rail, RailBackend, read_pending, read_account, account_of, call,
  tried, svc_get, payout_fail, payout_confirm,
}

pub data PayStatus : Type 0 where
  was_paid was_deferred was_failed : PayStatus

pub record PayResult : Type 0 where
  pub payout_id : String
  pub status : PayStatus
  pub reason : Option String
  pub transfer_id : Option String

abbrev pub failed_as : String → PayoutRow → PayResult
failed_as reason po = record {
  payout_id = po.id;
  status = was_failed;
  reason = some reason;
  transfer_id = none;
}

abbrev pub deferred_as : String → Option String → PayoutRow → PayResult
deferred_as reason transfer po = record {
  payout_id = po.id;
  status = was_deferred;
  reason = some reason;
  transfer_id = transfer;
}

abbrev pub paid_as : String → PayoutRow → PayResult
paid_as transfer po = record {
  payout_id = po.id;
  status = was_paid;
  reason = none;
  transfer_id = some transfer;
}

-- `Math.round(micros / 10000)`
abbrev pub micros_to_cents : ℤ → ℤ
micros_to_cents micros = floor_cents (micros +ℤ pos 5000)

abbrev pub payout_idem_key : String → String
payout_idem_key id = "lumaline_payout_" & id

-- A day before the payout was created, in seconds.
abbrev pub created_gte : PayoutRow → Option ℤ
created_gte po = elim po.created_at [ none ↦ none | some ms ↦ some (floor_seconds ms -ℤ pos 86400) ]

abbrev pub is_status_pending : PayoutStatus → Bool
is_status_pending pending = true
is_status_pending in_transit = false
is_status_pending paid = false
is_status_pending failed = false
is_status_pending canceled = false

-- `status=eq.pending&stripe_transfer_id=is.null`
abbrev pub is_open : PayoutRow → Bool
is_open r = is_status_pending r.status && is_none r.stripe_transfer_id

abbrev pub transfer_request : String → PayoutRow → TransferRequest
transfer_request account po = record {
  key = payout_idem_key po.id;
  payout_id = po.id;
  publisher_id = po.publisher_id;
  destination = account;
  cents = micros_to_cents po.amount_micros;
}

abbrev search_endless : Fault
search_endless = record { decline = false; message = "the search does not end" }

module _ {W : Type 0} (b : RailBackend W) where
  abbrev pub ended_search : Option (Option String) → Action (Rail W) (Outcome (Option String))
  ended_search none = throw search_endless
  ended_search (some found) = pure (ok found)

  unfoldable pub searched :
      PayoutRow → Outcome (Option String → Page) → Action (Rail W) (Outcome (Option String))
  unfolding find_transfer_id
  searched po (thrown e) = pure (thrown e)
  searched po (ok pages) = ended_search (find_transfer_id pages b.search_fuel po.id none)

  -- The search in the `try` of its callers.
  unfoldable pub find_existing_transfer :
      String → PayoutRow → Action (Rail W) (Outcome (Option String))
  unfolding searched
  find_existing_transfer account po = do
    answer ← tried b (call b (b.listing account (created_gte po)))
    searched po answer

  -- `transfers.create`; the request is noted before Stripe answers.
  unfoldable pub create_transfer : TransferRequest → Action (Rail W) TransferReply
  create_transfer r s =
      let answer = b.create_transfer r s.world in
      (ok answer.0, record s { transfers = r ∷ s.transfers; world = answer.1 })

  unfoldable pub fail_with : String → PayoutRow → Action (Rail W) PayResult
  unfolding payout_fail
  fail_with reason po = do payout_fail b po.id; pure (failed_as reason po)

  -- Phase B.
  unfoldable pub confirmed : String → PayoutRow → Outcome Bool → Action (Rail W) PayResult
  confirmed transfer po (thrown e) = pure (deferred_as "confirm_threw" (some transfer) po)
  confirmed transfer po (ok false) = pure (deferred_as "confirm_infra_error" (some transfer) po)
  confirmed transfer po (ok true) = pure (paid_as transfer po)

  unfoldable pub confirm_transfer : String → PayoutRow → Action (Rail W) PayResult
  unfolding payout_confirm confirmed
  confirm_transfer transfer po = do
    reply ← tried b (payout_confirm b po.id transfer)
    confirmed transfer po reply

  -- What follows a rejection for good, by the search after it.
  unfoldable pub rechecked :
      String → PayoutRow → Outcome (Option String) → Action (Rail W) PayResult
  unfolding fail_with confirm_transfer
  rechecked message po (thrown e) = fail_with message po
  rechecked message po (ok none) = fail_with message po
  rechecked message po (ok (some id)) =
      if truthy id then confirm_transfer id po else fail_with message po

  unfoldable pub transfer_rejected :
      String → PayoutRow → String → Certainty → Action (Rail W) PayResult
  unfolding find_existing_transfer rechecked
  transfer_rejected account po message definitive = do
    again ← find_existing_transfer account po
    rechecked message po again
  transfer_rejected account po message ambiguous =
      pure (deferred_as "ambiguous_transfer_error" none po)

  unfoldable pub transfer_answered : String → PayoutRow → TransferReply → Action (Rail W) PayResult
  unfolding confirm_transfer transfer_rejected classify_transfer_error
  transfer_answered account po (created id) = confirm_transfer id po
  transfer_answered account po (rejected e message) =
      transfer_rejected account po message (classify_transfer_error e)

  unfoldable pub ask_transfer : String → PayoutRow → Action (Rail W) PayResult
  unfolding create_transfer transfer_answered
  ask_transfer account po = do
    answer ← create_transfer (transfer_request account po)
    transfer_answered account po answer

  -- Phase A, after the search.
  unfoldable pub prechecked :
      String → PayoutRow → Outcome (Option String) → Action (Rail W) PayResult
  unfolding ask_transfer confirm_transfer
  prechecked account po (thrown e) = pure (deferred_as "pre_check_failed" none po)
  prechecked account po (ok none) = ask_transfer account po
  prechecked account po (ok (some id)) =
      if truthy id then confirm_transfer id po else ask_transfer account po

  unfoldable pub to_account : PayoutRow → String → Action (Rail W) PayResult
  unfolding find_existing_transfer prechecked
  to_account po account = do found ← find_existing_transfer account po; prechecked account po found

  -- The answer's first row; one that is refused has none.
  unfoldable pub with_account : PayoutRow → Option (Option String) → Action (Rail W) PayResult
  unfolding fail_with to_account
  with_account po none = fail_with "no_connected_account" po
  with_account po (some none) = fail_with "no_connected_account" po
  with_account po (some (some account)) =
      if truthy account then to_account po account else fail_with "no_connected_account" po

  unfoldable pub pay_one : PayoutRow → Action (Rail W) PayResult
  unfolding svc_get with_account account_of
  pay_one po = do
    account ← svc_get b read_account (λ s. account_of po.publisher_id s.publishers)
    with_account po account

  unfoldable pub pay_all : List PayoutRow → Action (Rail W) (List PayResult)
  unfolding pay_one
  pay_all [] = pure []
  pay_all (po ∷ rest) = do r ← pay_one po; rs ← pay_all rest; pure (r ∷ rs)

  abbrev not_iterable : Fault
  not_iterable = record { decline = false; message = "pending is not iterable" }

  -- `(pendRes.data …) ?? []`: the body of an error is no list.
  unfoldable pub pay_pending : Option (List PayoutRow) → Action (Rail W) (List PayResult)
  unfolding pay_all
  pay_pending none = throw not_iterable
  pay_pending (some rows) = pay_all rows

  unfoldable pub pending_payouts : Action (Rail W) (Option (List PayoutRow))
  unfolding svc_get
  pending_payouts = svc_get b read_pending (λ s. take 500 (select is_open s.payouts))
