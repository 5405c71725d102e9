-- ===== src/Monitor.antt =====
-- The checks of the money-path monitor, supabase/functions/_shared/monitor-logic.mjs: each reads
-- rows that were fetched before and gives a status and alerts. A value that `toMicros` reads as no
-- finite number is `none`, and so is a date that does not parse. The texts and payloads of the
-- alerts, which only people read, are left out.
pub mod Ledger
pub mod Payouts
pub mod Drift
pub mod Email
pub mod Refunds
pub mod Stalled
use luma_line.Prelude.{
  ℕ, ◌≡◌, refl, String, Bool, true, false, ◌||◌, Option, none, some, List, [], ◌∷◌, ◌++◌, map,
  select, if◌then◌else◌, arith,
}

pub data Severity : Type 0 where
  critical high : Severity

pub record Alert : Type 0 where
  pub check_name : String
  pub severity : Severity
  pub dedup_key : String

pub data Status : Type 0 where
  pass fail error : Status

pub record CheckResult : Type 0 where
  pub name : String
  pub status : Status
  pub alerts : List Alert

abbrev pub or_unknown : Option String → String
or_unknown none = "unknown"
or_unknown (some id) = id

unfoldable pub error_check : String → CheckResult
error_check name = record {
  name = name;
  status = error;
  alerts = record { check_name = name; severity = high; dedup_key = "check_error" } ∷ [];
}

-- `pass` without alerts, `fail` with them.
unfoldable pub conclude : String → List Alert → CheckResult
conclude name [] = record { name = name; status = pass; alerts = [] }
conclude name (a ∷ alerts) = record { name = name; status = fail; alerts = a ∷ alerts }

abbrev pub is_evaluated : Status → Bool
is_evaluated pass = true
is_evaluated fail = true
is_evaluated error = false

unfoldable pub resolvable_check_names : List CheckResult → List String
resolvable_check_names results =
    map (λ (c : CheckResult). c.name) (select (λ (c : CheckResult). is_evaluated c.status) results)

unfoldable pub should_send_email : {A B : Type 0} → List A → List B → Bool
should_send_email [] [] = false
should_send_email [] (r ∷ rs) = true
should_send_email (f ∷ fs) rs = true

-- A conclusion passes exactly without alerts.
pub conclude_pass :
    (name : String) (alerts : List Alert) → alerts ≡ [] → (conclude name alerts).status ≡ pass
unfolding conclude
conclude_pass name alerts h = rw h refl

pub conclude_alerts : (name : String) (alerts : List Alert) → (conclude name alerts).alerts ≡ alerts
unfolding conclude
conclude_alerts name [] = refl
conclude_alerts name (a ∷ alerts) = refl

pub nil_of_conclude_pass :
    (name : String) (alerts : List Alert) → (conclude name alerts).status ≡ pass → alerts ≡ []
unfolding conclude
nil_of_conclude_pass name [] h = refl
nil_of_conclude_pass name (a ∷ alerts) h = ground arith
