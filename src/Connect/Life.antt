-- ===== src/Connect/Life.antt =====
-- The life of one payout, as an abstract machine that
-- supabase/functions/stripe-connect/index.ts has to implement: what is owed is sent once, what was
-- sent is booked as paid, and only what is owed may fail.
pub mod Holds
pub mod Others
pub mod Own
pub mod Mailed
pub mod Runs
use luma_line.Prelude.{
  ℕ, String, Bool, true, not, ◌&&◌, Option, none, some, List, [], ◌∷◌, map, select, ◌≡◌, ◌≢◌, ◌⊎◌,
  inl, inr, ◌≤◌, str_eq, truthy, ℤ, leb_ℤ, All, length,
}
use luma_line.Prelude.Effects.{Outcome, ok, thrown}
use luma_line.Cycle.{Fate, refused}
use luma_line.Payout.{Transfer, Certainty, definitive, ambiguous, classify_transfer_error}
use luma_line.Payout.Paging.{carries, Page, Lists}
use luma_line.Connect.{
  PayoutStatus, pending, paid, failed, PayoutRow, TransferRequest, TransferReply, created, rejected,
  Mail, Query, read_account, Rail, RailBackend, payout_of, account_of, is_known,
}
use luma_line.Connect.Batch.{created_gte}

pub data Life : Type 0 where
  owed sent settled refused_for_good : Life

infix 40 ◌⟶◌ ◌⟶*◌
pub data ◌⟶◌ : Life → Life → Type 0 where
  send : owed ⟶ sent
  book : sent ⟶ settled
  give_up : owed ⟶ refused_for_good

pub data ◌⟶*◌ : Life → Life → Type 0 where
  here : {l : Life} → l ⟶* l
  later : {l m n : Life} → l ⟶* m → m ⟶ n → l ⟶* n

-- A transfer that Stripe holds, with its destination and the second it was created in.
pub record Held : Type 0 where
  pub destination : String
  pub made_at : ℤ
  pub transfer : Transfer

abbrev pub is_since : Option ℤ → ℤ → Bool
is_since none t = true
is_since (some g) t = leb_ℤ g t

-- `destination` and `created[gte]` of a listing.
abbrev pub is_listed : String → Option ℤ → Held → Bool
is_listed account since h = str_eq h.destination account && is_since since h.made_at

abbrev pub held_for : String → List Held → List Held
held_for id = select (λ h. carries id h.transfer)

abbrev pub transfer_of : Held → Transfer
transfer_of h = h.transfer

abbrev pub rows_for : String → List PayoutRow → List PayoutRow
rows_for id = select (λ r. str_eq r.id id)

-- A payout with its publisher, that one's account, the lower bound of the searches for it, and what
-- Stripe holds in a world.
pub record Case (W : Type 0) : Type 0 where
  pub id : String
  pub publisher : String
  pub account : String
  pub since : Option ℤ
  pub held : W → List Held

-- A rejection that is no reason to give the transfer up.
abbrev pub IsUnsure : TransferReply → Type 0
IsUnsure (created id) = Unit
IsUnsure (rejected e message) = classify_transfer_error e ≡ ambiguous

-- The transfer was made, answered or not.
abbrev pub IsMade :
    {W : Type 0} → Case W → TransferRequest → List Held → TransferReply → List Held → Type 0
IsMade c r before reply after =
    (h : Held) × (after ≡ h ∷ before)
    × (h.destination ≡ r.destination)
    × (h.transfer.payout_id ≡ some r.payout_id)
    × (truthy h.transfer.id ≡ true)
    × (str_eq r.payout_id c.id ≡ true → is_since c.since h.made_at ≡ true)
    × IsUnsure reply

-- No transfer was made: the request was rejected, or is answered as one that was made before.
abbrev pub IsUnmade : TransferRequest → List Held → TransferReply → Type 0
IsUnmade r before (created id) = held_for r.payout_id before ≢ []
IsUnmade r before (rejected e message) = Unit

-- What is relied on: only `transfers.create` makes transfers, and no rejection of it as invalid does;
-- a listing that answers has, page by page, every transfer to the destination since the bound; and
-- the database does not refuse to say the publisher's account, which is no empty text.
pub record IsFaithful {W : Type 0} (c : Case W) (b : RailBackend W) : Type 0 where
  pub fate_kept : (q : Query) (w : W) → c.held (b.fate q w).1 ≡ c.held w
  pub admin_kept : (t : String) (w : W) → c.held (b.admin_check t w).1 ≡ c.held w
  pub money_kept : (t : String) (w : W) → c.held (b.money_admin_check t w).1 ≡ c.held w
  pub reserve_kept : (m : ℤ) (w : W) → c.held (b.reserve m w).1 ≡ c.held w
  pub listing_kept : (a : String) (g : Option ℤ) (w : W) → c.held (b.listing a g w).1 ≡ c.held w
  pub contact_kept : (t : String) (w : W) → c.held (b.contact t w).1 ≡ c.held w
  pub candidates_kept : (m : ℤ) (w : W) → c.held (b.candidates m w).1 ≡ c.held w
  pub email_kept : (m : Mail) (w : W) → c.held (b.send_email m w).1 ≡ c.held w
  pub nudged_kept : (is : List String) (w : W) → c.held (b.mark_nudged is w).1 ≡ c.held w
  pub listing_whole :
      (a : String) (g : Option ℤ) (w : W) (f : Option String → Page)
      → (b.listing a g w).0 ≡ ok f
      → (pages : ℕ) × (pages ≤ b.search_fuel)
        × Lists f none (map transfer_of (select (is_listed a g) (c.held w))) pages
  pub create_known :
      (r : TransferRequest) (w : W)
      → let o = b.create_transfer r w in
        IsMade c r (c.held w) o.0 (c.held o.1)
        ⊎ ((c.held o.1 ≡ c.held w) × IsUnmade r (c.held w) o.0)
  pub account_named : truthy c.account ≡ true
  pub account_told : (w : W) → (b.fate read_account w).0 ≢ refused

abbrev pub status_in : Life → PayoutStatus
status_in owed = pending
status_in sent = pending
status_in settled = paid
status_in refused_for_good = failed

module _ {W : Type 0} (c : Case W) where
  -- The row of the payout, wherever it is read.
  abbrev pub IsRow : PayoutStatus → PayoutRow → Type 0
  IsRow status r =
      str_eq r.id c.id ≡ true
      → (r.publisher_id ≡ c.publisher) × (created_gte r ≡ c.since) × (r.status ≡ status)

  abbrev pub IsOnly : List Held → Type 0
  IsOnly hs =
      (h : Held) × (hs ≡ h ∷ [])
      × (is_listed c.account c.since h ≡ true)
      × (truthy h.transfer.id ≡ true)

  -- What Stripe holds for the payout.
  abbrev pub IsHeld : Life → List Held → Type 0
  IsHeld owed hs = hs ≡ []
  IsHeld sent hs = IsOnly hs
  IsHeld settled hs = IsOnly hs
  IsHeld refused_for_good hs = hs ≡ []

  -- The tables and Stripe, at a stage of the payout's life.
  abbrev pub Stands : Life → Rail W → Type 0
  Stands l s =
      (length (rows_for c.id s.payouts) ≡ 1)
      × All (IsRow (status_in l)) s.payouts
      × (account_of c.publisher s.publishers ≡ some c.account)
      × IsHeld l (held_for c.id (c.held s.world))

  -- The payout has come to a later stage, step by step.
  abbrev pub Walks : Life → Rail W → Type 0
  Walks l s = (m : Life) × (l ⟶* m) × Stands m s

  -- The payout is pending, and what Stripe holds for it is known.
  abbrev pub Waits : Life → Rail W → Type 0
  Waits l s = ((l ⟶* owed) × Stands owed s) ⊎ ((l ⟶* sent) × Stands sent s)

  pub waiting : (l : Life) (s : Rail W) → Waits l s → Walks l s
  waiting l s (inl (w, h)) = (owed, w, h)
  waiting l s (inr (w, h)) = (sent, w, h)
