-- ===== src/Monitor/Drift.antt =====
-- The reconciliation checks of supabase/functions/_shared/monitor-logic.mjs.
use luma_line.Prelude.{
  ℕ, zero, suc, ◌+◌, ◌*◌, ◌/◌, ◌≤◌, ◌<◌, ◌≡◌, ◌⊎◌, ◌≢◌, refl, ap, String, Bool, false, ◌&&◌, Option,
  none, some, List, [], ◌∷◌, ◌&◌, arith, if◌then◌else◌, ltb, show, str_eq, Bool-cases, inl, inr, ℤ,
  pos, negsuc, pos_part, neg_part, ◌+ℤ◌, ◌-ℤ◌, ltb_ℤ, eqb_ℤ, scale, or_zero, eq_of_parts, -ℤ_parts,
}
use luma_line.Monitor.{Alert, critical, CheckResult, pass, fail, conclude, error_check}

pub record PaymentIntent : Type 0 where
  pub amount : Option ℤ
  pub status : String
  pub source : Option String

abbrev pub counts : PaymentIntent → Bool
counts pi =
    elim pi.source [ none ↦ false | some s ↦ str_eq s "lumaline" ] && str_eq pi.status "succeeded"

-- The loop, with its two running values.
unfoldable pub sum_intents : ℤ → ℕ → List PaymentIntent → ℤ × ℕ
unfolding scale
sum_intents total count [] = (total, count)
sum_intents total count (pi ∷ pis) =
    sum_intents (if counts pi then total +ℤ scale 10000 (or_zero pi.amount) else total)
      (if counts pi then count + 1 else count) pis

unfoldable pub sum_lumaline_payment_intents : List PaymentIntent → ℤ × ℕ
unfolding sum_intents
sum_lumaline_payment_intents pis = sum_intents (pos 0) 0 pis

-- `Math.abs`
abbrev pub abs : ℤ → ℕ
abs (pos n) = n
abs (negsuc n) = suc n

-- `Math.floor(Math.log10(n))`; a number has no more digits than its value.
unfoldable pub log10_from : ℕ → ℕ → ℕ
log10_from zero n = 0
log10_from (suc fuel) n = let rest = log10_from fuel (n / 10) in if ltb n 10 then 0 else suc rest

unfoldable pub drift_alert : String → ℤ → Alert
unfolding log10_from
drift_alert name discrepancy = record {
  check_name = name;
  severity = critical;
  dedup_key =
      "drift:"
      & (if ltb_ℤ (pos 0) discrepancy then "+" else "-")
      & show (log10_from (abs discrepancy) (abs discrepancy));
}

unfoldable pub eval_recon_drift : String → Option ℤ → Option ℤ → CheckResult
unfolding drift_alert error_check conclude
eval_recon_drift name none stripe = error_check name
eval_recon_drift name (some db) none = error_check name
eval_recon_drift name (some db) (some stripe) =
    let discrepancy = db -ℤ stripe in
    conclude name (if eqb_ℤ discrepancy (pos 0) then [] else drift_alert name discrepancy ∷ [])

abbrev pub power10 : ℕ → ℕ
power10 zero = 1
power10 (suc k) = 10 * power10 k

-- The bucket of a drift is its order of magnitude: the power of ten that it has reached, short of
-- the next one. The fuel of the logarithm is enough.
pub log10_bucket :
    (fuel n : ℕ)
    → 0 < n
    → n ≤ fuel
    → (power10 (log10_from fuel n) ≤ n) × (n < 10 * power10 (log10_from fuel n))
unfolding log10_from
log10_bucket zero n p f = (omega arith, omega arith)
log10_bucket (suc fuel) n p f = elim (Bool-cases (ltb n 10)) [
  | inl e ↦ rw e (ground arith, ground arith)
  | inr e ↦
      let q : 0 < n / 10 = ground arith in
      let g : n / 10 ≤ fuel = ground arith in
      let (lo, hi) = log10_bucket fuel (n / 10) q g in rw e (omega arith, omega arith)
]

abs_positive : (d : ℤ) → eqb_ℤ d (pos 0) ≡ false → 0 < abs d
abs_positive (pos n) h = ground arith
abs_positive (negsuc n) h = omega arith

abbrev sign : ℤ → String
sign d = if ltb_ℤ (pos 0) d then "+" else "-"

-- What the check says of two totals that could be read.
abbrev pub IsDriftVerdict : String → ℤ → ℤ → CheckResult → Type 0
IsDriftVerdict name db stripe r =
    ((r.status ≡ pass) × (db ≡ stripe))
    ⊎ ((r.status ≡ fail)
        × (db ≢ stripe)
        × ((k : ℕ) × (r.alerts
              ≡ record {
                check_name = name;
                severity = critical;
                dedup_key = "drift:" & sign (db -ℤ stripe) & show k;
              }
                ∷ [])
            × (power10 k ≤ abs (db -ℤ stripe))
            × (abs (db -ℤ stripe) < 10 * power10 k)))

-- Of two totals that could be read, the check passes only if they are equal, and fails only if they
-- differ. Then its one alert is critical and its key is the sign of the difference with its order of
-- magnitude, the greatest power of ten that it has reached, so that a drift of ten times the size
-- is a new alert.
pub recon-IsDriftVerdict :
    (name : String) (db stripe : ℤ)
    → IsDriftVerdict name db stripe (eval_recon_drift name (some db) (some stripe))
unfolding eval_recon_drift conclude drift_alert
recon-IsDriftVerdict name db stripe =
    let d = db -ℤ stripe in
    let parts = -ℤ_parts db stripe in
    elim (Bool-cases (eqb_ℤ d (pos 0))) [
      | inl e ↦
          let same : db ≡ stripe = eq_of_parts db stripe (ground arith) in inl (rw (e) refl, same)
      | inr e ↦
          let differ : db ≢ stripe = λ s.
            (let x : pos_part db ≡ pos_part stripe = ap pos_part s in
              let y : neg_part db ≡ neg_part stripe = ap neg_part s in ground arith) in
          let positive : 0 < abs d = abs_positive d e in
          let bucket = log10_bucket (abs d) (abs d) positive (omega arith) in
          inr (rw (e) refl, differ, (log10_from (abs d) (abs d), rw (e) refl, bucket.0, bucket.1))
    ]
