-- ===== src/Monitor/Email.antt =====
-- The summary email of the monitor, supabase/functions/_shared/monitor-logic.mjs. The dash of a
-- check's line is followed by its detail, which is text that the checks give.
use luma_line.Prelude.{
  String, Bool, true, false, List, [], ◌∷◌, ◌++◌, map, any, length, show, ◌&◌, truthy,
  if◌then◌else◌,
}
use luma_line.Monitor.{Alert, Severity, critical, high, Status, pass, fail, error}

abbrev pub check_names : List String
check_names =
    "ledger_zero_sum" ∷ "payout_stuck" ∷ "payout_failed" ∷ "charge_failed" ∷ "billing_stalled"
    ∷ "billing_recon_drift" ∷ "payout_recon_drift" ∷ "reversed_charge_unrefunded"
    ∷ "postpay_chargeback" ∷ "fleet_velocity" ∷ []

abbrev is_critical : Alert → Bool
is_critical a = elim a.severity [ critical ↦ true | high ↦ false ]

abbrev severity_text : Severity → String
severity_text critical = "critical"
severity_text high = "high"

abbrev status_text : Status → String
status_text pass = "pass"
status_text fail = "fail"
status_text error = "error"

abbrev worst : List Alert → String
worst [] = "RESOLVED"
worst (a ∷ alerts) = if any is_critical (a ∷ alerts) then "CRITICAL" else "HIGH"

-- A check's name, status and detail.
pub record CheckLine : Type 0 where
  pub name : String
  pub status : Status
  pub detail : String

abbrev fired_line : Alert → String
fired_line a = "  - [" & severity_text a.severity & "] " & a.check_name & " (" & a.dedup_key & ")"

abbrev resolved_line : Alert → String
resolved_line a = "  - " & a.check_name & " (" & a.dedup_key & ")"

abbrev check_line : CheckLine → String
check_line c =
    "  - "
    & c.name
    & ": "
    & status_text c.status
    & (if truthy c.detail then " — " & c.detail else "")

abbrev section : String → List String → List String
section title [] = []
section title (l ∷ ls) = title ∷ l ∷ ls

abbrev join_lines : List String → String
join_lines [] = ""
join_lines (l ∷ []) = l
join_lines (l ∷ (k ∷ ls)) = l & "\n" & join_lines (k ∷ ls)

-- The subject and the text.
unfoldable pub build_alert_email : List Alert → List Alert → List CheckLine → String × String
build_alert_email fired resolved checks = (
  "[LumaLine monitor] "
      & worst fired
      & ": "
      & show (length fired)
      & " fired, "
      & show (length resolved)
      & " resolved",
  join_lines (
      section "NEWLY FIRED:" (map fired_line fired)
      ++ section "NEWLY RESOLVED:" (map resolved_line resolved)
      ++ ("CHECK SUMMARY:" ∷ map check_line checks)),
)
