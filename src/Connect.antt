-- ===== src/Connect.antt =====
-- The payout function, supabase/functions/stripe-connect/index.ts: the tables that it reads and
-- writes, Stripe, and its requests to both.
-- The tables are those of the database, and the functions that the database runs for it,
-- `payout_fail` and `payout_confirm`, are as supabase/migrations/20260629100000_payout_rails.sql
-- has them, with the ledger left out. Every request to the database has a fate, as in the billing
-- cycle. Stripe, the rows that `payout_batch_reserve` chooses, contacts and mail are an environment
-- over a world `W`. The pages of one search are those of one answer of `listing`.
pub mod Batch
pub mod Notify
pub mod Life
pub mod Isolated
pub mod Webhook
pub mod Onboarding
pub mod Recon
use luma_line.Prelude.{
  ℕ, String, Bool, true, false, not, ◌&&◌, ◌||◌, Option, none, some, List, [], ◌∷◌, ◌++◌,
  if◌then◌else◌, str_eq, starts_with, truthy, trim, ◌==◌, ℤ,
}
use luma_line.Prelude.Effects.{Fault, Outcome, ok, thrown, Action, pure, throw, ◌>>=◌, ◌>>◌}
use luma_line.Cycle.{Fate, applied, refused, lost, unanswered, meet_read, network_error}
use luma_line.Cycle.Settle.{stripe_missing, stripe_not_test}
use luma_line.Payout.{TransferError}
use luma_line.Payout.Paging.{Page}

pub data PayoutStatus : Type 0 where
  pending in_transit paid failed canceled : PayoutStatus

-- A row of `payouts`; `created_at` is in milliseconds, and `none` if it is no date.
pub record PayoutRow : Type 0 where
  pub id : String
  pub publisher_id : String
  pub amount_micros : ℤ
  pub created_at : Option ℤ
  pub status : PayoutStatus
  pub stripe_transfer_id : Option String

pub record Publisher : Type 0 where
  pub id : String
  pub country : Option String
  pub stripe_account_id : Option String
  pub payout_status : Option String

-- What `transfers.create` is asked for.
pub record TransferRequest : Type 0 where
  pub key : String
  pub payout_id : String
  pub publisher_id : String
  pub destination : String
  pub cents : ℤ

pub data TransferReply : Type 0 where
  created : String → TransferReply
  rejected : Option TransferError → String → TransferReply

-- The requests to the database, by what they ask.
pub data Query : Type 0 where
  reserve_payouts read_pending read_account fail_payout confirm_payout : Query

pub record Contact : Type 0 where
  pub email : Option String
  pub handle : Option String

pub record Candidate : Type 0 where
  pub publisher_id : String
  pub email : Option String
  pub handle : Option String
  pub payable_micros : ℤ

-- A mail, before its text is made: its cents are those that it states.
pub data Mail : Type 0 where
  paid_mail : String → String → ℤ → Mail
  nudge_mail : String → String → ℤ → Mail

-- The tables, what was asked of `transfers.create`, latest first, and the world outside.
pub record Rail (W : Type 0) : Type 0 where
  pub payouts : List PayoutRow
  pub publishers : List Publisher
  pub transfers : List TransferRequest
  pub world : W

pub record RailBackend (W : Type 0) : Type 0 where
  pub stripe_key : String
  pub assert_test : Bool
  pub cron_secret : Option String
  pub min_micros : Option ℤ
  pub search_fuel : ℕ
  pub fate : Query → W → Fate × W
  pub admin_check : String → W → Outcome (ℕ × String) × W
  pub money_admin_check : String → W → Outcome (ℕ × String) × W
  pub reserve : ℤ → W → List PayoutRow × W
  pub listing : String → Option ℤ → W → Outcome (Option String → Page) × W
  pub create_transfer : TransferRequest → W → TransferReply × W
  pub contact : String → W → Outcome (Option Contact) × W
  pub candidates : ℤ → W → Outcome (Option (List Candidate)) × W
  pub send_email : Mail → W → Outcome Bool × W
  pub mark_nudged : List String → W → Outcome Bool × W

-- The row of an id, which is the table's key.
unfoldable pub payout_of : String → List PayoutRow → Option PayoutRow
payout_of id [] = none
payout_of id (r ∷ rs) = let rest = payout_of id rs in if str_eq r.id id then some r else rest

unfoldable pub account_of : String → List Publisher → Option String
account_of id [] = none
account_of id (q ∷ qs) =
    let rest = account_of id qs in if str_eq q.id id then q.stripe_account_id else rest

abbrev pub is_known : Option PayoutRow → Bool
is_known none = false
is_known (some r) = true

-- An insert is skipped where the key is taken.
unfoldable pub insert_payouts : List PayoutRow → List PayoutRow → List PayoutRow
unfolding payout_of
insert_payouts [] rows = rows
insert_payouts (r ∷ rs) rows =
    insert_payouts rs (if is_known (payout_of r.id rows) then rows else rows ++ (r ∷ []))

-- `payout_fail`: a row that is paid, failed or canceled stays as it is.
abbrev pub failed_row : PayoutStatus → PayoutRow → PayoutRow
failed_row pending r = record r { status = failed }
failed_row in_transit r = record r { status = failed }
failed_row paid r = r
failed_row failed r = r
failed_row canceled r = r

-- `payout_confirm`
abbrev pub confirmed_row : String → PayoutStatus → PayoutRow → PayoutRow
confirmed_row transfer pending r = record r { status = paid; stripe_transfer_id = some transfer }
confirmed_row transfer in_transit r = record r { status = paid; stripe_transfer_id = some transfer }
confirmed_row transfer paid r = r
confirmed_row transfer failed r = r
confirmed_row transfer canceled r = r

unfoldable pub change_payout : String → (PayoutRow → PayoutRow) → List PayoutRow → List PayoutRow
change_payout id f [] = []
change_payout id f (r ∷ rs) = (if str_eq r.id id then f r else r) ∷ change_payout id f rs

module _ {W : Type 0} (b : RailBackend W) where
  abbrev pub outside : {A : Type 0} → (W → A × W) → Action (Rail W) A
  outside f s = (ok (f s.world).0, record s { world = (f s.world).1 })

  abbrev pub call : {A : Type 0} → (W → Outcome A × W) → Action (Rail W) A
  call f s = ((f s.world).0, record s { world = (f s.world).1 })

  -- `try { … } catch (err) { … }` where both go on.
  abbrev pub tried : {A : Type 0} → Action (Rail W) A → Action (Rail W) (Outcome A)
  tried m s = (ok (m s).0, (m s).1)

  unfoldable pub svc_get : {A : Type 0} → Query → (Rail W → A) → Action (Rail W) (Option A)
  svc_get q f s = meet_read f (b.fate q s.world).0 (record s { world = (b.fate q s.world).1 })

  -- A database function that met its fate; it may refuse by itself.
  abbrev pub meet_rpc : (Rail W → Bool) → (Rail W → Rail W) → Fate → Action (Rail W) Bool
  meet_rpc allows change applied s = (ok (allows s), if allows s then change s else s)
  meet_rpc allows change refused s = (ok false, s)
  meet_rpc allows change lost s = (thrown network_error, s)
  meet_rpc allows change unanswered s = (thrown network_error, if allows s then change s else s)

  unfoldable pub service_rpc : Query → (Rail W → Bool) → (Rail W → Rail W) → Action (Rail W) Bool
  service_rpc q allows change s =
      meet_rpc allows change (b.fate q s.world).0 (record s { world = (b.fate q s.world).1 })

  unfoldable pub payout_fail : String → Action (Rail W) Bool
  unfolding service_rpc payout_of change_payout
  payout_fail id =
      service_rpc fail_payout (λ s. is_known (payout_of id s.payouts))
        (λ s. record s { payouts = change_payout id (λ r. failed_row r.status r) s.payouts })

  unfoldable pub payout_confirm : String → String → Action (Rail W) Bool
  unfolding service_rpc payout_of change_payout
  payout_confirm id transfer =
      service_rpc confirm_payout (λ s. is_known (payout_of id s.payouts))
        (λ s. record s {
          payouts = change_payout id (λ r. confirmed_row transfer r.status r) s.payouts;
        })

  unfoldable pub payout_batch_reserve : ℤ → Action (Rail W) Bool
  unfolding service_rpc insert_payouts
  payout_batch_reserve micros = do
    rows ← outside (b.reserve micros)
    service_rpc reserve_payouts (λ s. true)
        (λ s. record s { payouts = insert_payouts rows s.payouts })

  -- `requireAdmin` and `requireMoneyAdmin`, by the RPC that they ask.
  unfoldable pub admin_gate :
      (String → W → Outcome (ℕ × String) × W) → Option String → Action (Rail W) Bool
  admin_gate rpc none = pure false
  admin_gate rpc (some bearer) = do
    reply ← call (rpc bearer)
    pure (reply.0 == 200 && str_eq (trim reply.1) "true")

  -- `getStripe()`
  unfoldable pub stripe_ready : Action (Rail W) (Unit {0})
  stripe_ready =
      if not (truthy b.stripe_key)
      then throw stripe_missing
      else if b.assert_test && not (starts_with b.stripe_key "sk_test_")
      then throw stripe_not_test
      else pure tt
