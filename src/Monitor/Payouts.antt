-- ===== src/Monitor/Payouts.antt =====
-- The checks on payouts, chargebacks, charges and fleet counters,
-- supabase/functions/_shared/monitor-logic.mjs.
use luma_line.Prelude.{
  ℕ, ◌+◌, ◌≡◌, inl, inr, refl, ap, ◌∙◌, String, Bool, true, false, ◌||◌, ◌&&◌, Option, none, some,
  List, [], ◌∷◌, ◌++◌, map, select, ◌&◌, if◌then◌else◌, ltb, str_eq, Bool-cases, ℤ, ltb_ℤ,
}
use luma_line.Monitor.{Alert, high, CheckResult, or_unknown, conclude, error_check, conclude_alerts}

-- A row of payouts; `created_ms` is `Date.parse` of `created_at`.
pub record PayoutRow : Type 0 where
  pub id : Option String
  pub status : String
  pub created_ms : Option ℕ

abbrev pub payout_stuck_max_age_ms : ℕ
payout_stuck_max_age_ms = 21_600_000

abbrev pub is_non_terminal : String → Bool
is_non_terminal status = str_eq status "pending" || str_eq status "in_transit"

-- `ageMs > thresholdMs`, where an unreadable date is infinitely old.
abbrev pub is_older : Option ℕ → ℕ → ℕ → Bool
is_older none now threshold = true
is_older (some created) now threshold = ltb (created + threshold) now

abbrev pub alert_of : String → String → Alert
alert_of name key = record { check_name = name; severity = high; dedup_key = key }

abbrev pub payout_key : PayoutRow → String
payout_key p = "payout:" & or_unknown p.id

-- The loop over the payouts.
unfoldable pub stuck_alerts : ℕ → ℕ → List PayoutRow → List Alert
stuck_alerts now threshold [] = []
stuck_alerts now threshold (p ∷ ps) =
    let rest = stuck_alerts now threshold ps in
    if is_non_terminal p.status
    then (if is_older p.created_ms now threshold
        then alert_of "payout_stuck" (payout_key p) ∷ rest
        else rest)
    else rest

unfoldable pub eval_payout_stuck : List PayoutRow → ℕ → ℕ → CheckResult
unfolding stuck_alerts conclude
eval_payout_stuck payouts now threshold =
    conclude "payout_stuck" (stuck_alerts now threshold payouts)

unfoldable pub eval_payout_failed : List PayoutRow → CheckResult
unfolding conclude
eval_payout_failed payouts =
    conclude "payout_failed" (map (λ p. alert_of "payout_failed" (payout_key p)) payouts)

-- The dispute ids of the rows.
unfoldable pub eval_postpay_chargebacks : List (Option String) → CheckResult
unfolding conclude
eval_postpay_chargebacks ids =
    conclude "postpay_chargeback"
      (map (λ id. alert_of "postpay_chargeback" ("dispute:" & or_unknown id)) ids)

-- The ids of the failed charges and of the paused line items.
unfoldable pub eval_charge_failed : List (Option String) → List (Option String) → CheckResult
unfolding conclude
eval_charge_failed charges paused = conclude "charge_failed" (
    map (λ id. alert_of "charge_failed" ("charge:" & or_unknown id)) charges
    ++ map (λ id. alert_of "charge_failed" ("paused_li:" & or_unknown id)) paused)

abbrev with_alert : Alert → Option (List Alert) → Option (List Alert)
with_alert a none = none
with_alert a (some alerts) = some (a ∷ alerts)

-- The metrics with their baselines, each with what the counters say of it. The answer is `none`
-- where one is unreadable.
unfoldable pub fleet_alerts : List (String × ℤ × Option ℤ) → Option (List Alert)
fleet_alerts [] = some []
fleet_alerts ((metric, limit, none) ∷ ms) = none
fleet_alerts ((metric, limit, some v) ∷ ms) =
    let rest = fleet_alerts ms in
    if ltb_ℤ limit v then with_alert (alert_of "fleet_velocity" ("fleet:" & metric)) rest else rest

-- The default baselines.
abbrev pub fleet_velocity_baselines : List (String × ℤ)
fleet_velocity_baselines =
    ("provisional_impressions_1h", ℤ.pos 20_000)
    ∷ ("new_publishers_1h", ℤ.pos 200)
    ∷ ("new_devices_1h", ℤ.pos 300)
    ∷ []

unfoldable pub eval_fleet_velocity : List (String × ℤ × Option ℤ) → CheckResult
unfolding fleet_alerts conclude error_check
eval_fleet_velocity metrics = elim (fleet_alerts metrics) [
  | none ↦ error_check "fleet_velocity"
  | some alerts ↦ conclude "fleet_velocity" alerts
]

-- A payout that is neither final nor readably younger than the threshold.
abbrev pub is_stuck : ℕ → ℕ → PayoutRow → Bool
is_stuck now threshold p = is_non_terminal p.status && is_older p.created_ms now threshold

stuck_alerts-select :
    (now threshold : ℕ) (ps : List PayoutRow)
    → stuck_alerts now threshold ps
      ≡ map (λ p. alert_of "payout_stuck" (payout_key p)) (select (is_stuck now threshold) ps)
unfolding stuck_alerts
stuck_alerts-select now threshold [] = refl
stuck_alerts-select now threshold (p ∷ ps) =
    let ih = stuck_alerts-select now threshold ps in
    elim (Bool-cases (is_non_terminal p.status)) [
      | inl t ↦ elim (Bool-cases (is_older p.created_ms now threshold)) [
        | inl o ↦ rw (t, o) (ap (λ xs. alert_of "payout_stuck" (payout_key p) ∷ xs) ih)
        | inr o ↦ rw (t, o) ih
      ]
      | inr t ↦ rw t ih
    ]

abbrev pub IsSettledOrYoung : ℕ → ℕ → PayoutRow → Type 0
IsSettledOrYoung now threshold p = is_stuck now threshold p ≡ false

-- The check names the stuck payouts, each once and in order: those pending or in transit whose age
-- is above the threshold or cannot be read.
pub payout_stuck_alerts :
    (payouts : List PayoutRow) (now threshold : ℕ)
    → (eval_payout_stuck payouts now threshold).alerts
      ≡ map (λ p. alert_of "payout_stuck" (payout_key p)) (select (is_stuck now threshold) payouts)
unfolding eval_payout_stuck
payout_stuck_alerts payouts now threshold =
    conclude_alerts "payout_stuck" (stuck_alerts now threshold payouts)
    ∙ stuck_alerts-select now threshold payouts
