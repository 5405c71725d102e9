-- ===== src/Cycle.antt =====
-- The billing cycle, supabase/functions/billing/index.ts: the charges table with the requests that
-- change it, Stripe, and the routes over them.
-- A request to the database may be applied or refused, and may throw before or after it was applied;
-- the source mostly looks at none of this. Stripe, the database's own functions and views, and the
-- random ids are an environment over a world `W`. The times of attempts and the texts of
-- descriptions are left out.
pub mod Tables
pub mod Fates
pub mod Settle
pub mod Charge
pub mod Kept
pub mod Settled
pub mod Asked
pub mod Locked
pub mod Preview
pub mod Rows
pub mod Frozen
use luma_line.Prelude.{ℕ, String, Bool, true, false, Option, none, some, List, [], ◌∷◌, ℤ}
use luma_line.Prelude.Effects.{Fault, Outcome, ok, thrown, Action}
use luma_line.Billing.Charges.{Row}

pub data ChargeStatus : Type 0 where
  pending succeeded failed skipped : ChargeStatus

-- A row of `advertiser_charges`; `entry_group_id` is its unique key.
pub record ChargeRow : Type 0 where
  pub entry_group_id : String
  pub advertiser_id : String
  pub impression_id : Option String
  pub amount_micros : ℤ
  pub amount_cents : ℤ
  pub status : ChargeStatus
  pub charge_batch_id : Option String
  pub settle_mode : Option String
  pub stripe_charge_id : Option String
  pub stripe_customer_id : Option String
  pub failure_reason : Option String
  pub settled_via : Option String

-- What `paymentIntents.create` is asked for.
pub record IntentRequest : Type 0 where
  pub key : String
  pub batch_id : String
  pub amount : ℤ
  pub customer : String
  pub payment_method : String

pub record Intent : Type 0 where
  pub id : String
  pub status : String

pub record AdvertiserRow : Type 0 where
  pub name : Option String
  pub stripe_customer_id : Option String
  pub is_house : Bool
  pub billing_mode : Option String

-- The answer of `advertiser_draw_down_batch`.
pub record DrawReply : Type 0 where
  pub is_ok : Bool
  pub drawn : Bool
  pub reason : Option String

-- `unsure` is a call for the lock that threw: whether the lock was taken is not known.
pub data LockEvent : Type 0 where
  acquired : String → LockEvent
  released : String → LockEvent
  unsure : LockEvent

-- The tables that the cycle writes, what it asked of Stripe, latest first, and the world outside.
pub record Books (W : Type 0) : Type 0 where
  pub rows : List ChargeRow
  pub stamps : List (String × String)
  pub paused : List String
  pub customers : List (String × String)
  pub intents : List IntentRequest
  pub locks : List LockEvent
  pub world : W

-- What becomes of a request to the database.
pub data Fate : Type 0 where
  applied refused lost unanswered : Fate

pub record Backend (W : Type 0) : Type 0 where
  pub stripe_key : String
  pub assert_test : Bool
  pub fate : W → Fate × W
  pub uuid : W → String × W
  pub uncharged : W → Outcome (Option (List Row)) × W
  pub advertiser : String → W → Outcome (Option AdvertiserRow) × W
  pub campaigns : String → W → Outcome (Option (List String)) × W
  pub acquire_lock : W → Outcome (Option String) × W
  pub draw_down : String → String → ℤ → W → Outcome DrawReply × W
  pub create_customer : String → String → W → Outcome String × W
  pub default_method : String → W → Outcome (Option String) × W
  pub card_methods : String → W → Outcome (List String) × W
  pub search_intents : String → W → Outcome (List Intent) × W
  pub create_intent : IntentRequest → W → Outcome String × W

abbrev pub network_error : Fault
network_error = record { decline = false; message = "fetch failed" }

module _ {S : Type 0} where
  -- The reply of a write that met its fate, whether it is ok, and the tables after it.
  abbrev pub meet : (S → S) → Fate → Action S Bool
  meet change applied s = (ok true, change s)
  meet change refused s = (ok false, s)
  meet change lost s = (thrown network_error, s)
  meet change unanswered s = (thrown network_error, change s)

  -- What a read gives that met its fate; `none` is an answer that is not ok.
  abbrev pub meet_read : {A : Type 0} → (S → A) → Fate → Action S (Option A)
  meet_read f applied s = (ok (some (f s)), s)
  meet_read f refused s = (ok none, s)
  meet_read f lost s = (thrown network_error, s)
  meet_read f unanswered s = (thrown network_error, s)

module _ {W : Type 0} where
  -- A call of the world outside.
  abbrev pub outside : {A : Type 0} → (W → Outcome A × W) → Action (Books W) A
  outside f s = ((f s.world).0, record s { world = (f s.world).1 })

  -- `svc` with a method that writes, and with GET.
  unfoldable pub svc_write : Backend W → (Books W → Books W) → Action (Books W) Bool
  svc_write b change s = meet change (b.fate s.world).0 (record s { world = (b.fate s.world).1 })

  unfoldable pub svc_read : {A : Type 0} → Backend W → (Books W → A) → Action (Books W) (Option A)
  svc_read b f s = meet_read f (b.fate s.world).0 (record s { world = (b.fate s.world).1 })
