-- ===== src/Monitor/Ledger.antt =====
-- The zero-sum check of the ledger, supabase/functions/_shared/monitor-logic.mjs.
use luma_line.Prelude.{
  ◌≡◌, ◌↔◌, refl, ap, ◌∙◌, String, Bool, true, false, Option, none, some, List, [], ◌∷◌, ◌++◌, All,
  ◌&◌, arith, if◌then◌else◌, Bool-cases, inl, inr, ℤ, pos, eqb_ℤ, eq_of_parts,
}
use luma_line.Monitor.{
  Alert, critical, CheckResult, pass, or_unknown, conclude, conclude_pass, nil_of_conclude_pass,
}

pub record LedgerGroup : Type 0 where
  pub entry_group_id : Option String
  pub sum_micros : Option ℤ

-- `=== 0`; an unreadable sum is not.
abbrev pub is_zero : Option ℤ → Bool
is_zero none = false
is_zero (some z) = eqb_ℤ z (pos 0)

abbrev pub ledger_alert : String → Alert
ledger_alert key = record { check_name = "ledger_zero_sum"; severity = critical; dedup_key = key }

-- The loop over the groups.
unfoldable pub group_alerts : List LedgerGroup → List Alert
group_alerts [] = []
group_alerts (g ∷ gs) =
    let rest = group_alerts gs in
    if is_zero g.sum_micros
    then rest
    else ledger_alert ("grp:" & or_unknown g.entry_group_id) ∷ rest

unfoldable pub eval_ledger_zero_sum : List LedgerGroup → Option ℤ → CheckResult
unfolding group_alerts conclude
eval_ledger_zero_sum groups global_sum =
    conclude "ledger_zero_sum"
      (group_alerts groups ++ (if is_zero global_sum then [] else ledger_alert "global" ∷ []))

is_zero-some : (o : Option ℤ) → is_zero o ≡ true → o ≡ some (pos 0)
is_zero-some none h = ground arith
is_zero-some (some z) h = ap some (eq_of_parts z (pos 0) (ground arith))

abbrev pub IsBalanced : LedgerGroup → Type 0
IsBalanced g = g.sum_micros ≡ some (pos 0)

IsBalanced-of_quiet :
    (gs : List LedgerGroup) (tail : List Alert)
    → (group_alerts gs ++ tail) ≡ []
    → All IsBalanced gs × (tail ≡ [])
unfolding group_alerts
IsBalanced-of_quiet [] tail h = (tt, h)
IsBalanced-of_quiet (g ∷ gs) tail h = elim (Bool-cases (is_zero g.sum_micros)) [
  | inl e ↦
      let quiet : (group_alerts gs ++ tail) ≡ [] = rw (e) at h in
      let (all, t) = IsBalanced-of_quiet gs tail quiet in ((is_zero-some g.sum_micros e, all), t)
  | inr e ↦
      let loud : (ledger_alert ("grp:" & or_unknown g.entry_group_id) ∷ (group_alerts gs ++ tail))
          ≡ [] =
        rw (e) at h in
      cc
]

quiet_of_balanced :
    (gs : List LedgerGroup) (tail : List Alert)
    → All IsBalanced gs
    → (group_alerts gs ++ tail) ≡ tail
unfolding group_alerts
quiet_of_balanced [] tail h = refl
quiet_of_balanced (g ∷ gs) tail h = rw (h.0) (quiet_of_balanced gs tail h.1)

-- The check is green exactly when every group that was sent and the global sum could be read and
-- are 0; an unreadable sum makes it red.
pub ledger_zero_sum_iff :
    (groups : List LedgerGroup) (global_sum : Option ℤ)
    → ((eval_ledger_zero_sum groups global_sum).status ≡ pass)
      ↔ (All IsBalanced groups × (global_sum ≡ some (pos 0)))
unfolding eval_ledger_zero_sum
ledger_zero_sum_iff groups global_sum = (
  (λ h.
      let tail = if is_zero global_sum then [] else ledger_alert "global" ∷ [] in
      let (all, t) = IsBalanced-of_quiet groups tail (nil_of_conclude_pass "ledger_zero_sum" _ h) in
      let z : is_zero global_sum ≡ true = ground arith in (all, is_zero-some global_sum z)),
  (λ h.
      let tail = if is_zero global_sum then [] else ledger_alert "global" ∷ [] in
      let none_left : tail ≡ [] = rw (h.1) refl in
      conclude_pass "ledger_zero_sum" _ (quiet_of_balanced groups tail h.0 ∙ none_left)),
)
