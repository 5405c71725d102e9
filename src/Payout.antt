-- ===== src/Payout.antt =====
-- The payout decisions of supabase/functions/_shared/payout-logic.mjs. Amounts of a transfer are
-- whole cents.
pub mod Onboard
pub mod Paging
use luma_line.Prelude.{
  ◌≡◌, ◌≢◌, ◌↔◌, ◌⊎◌, inl, inr, Bool-cases, leb_ℤ, sym, refl, ap, ◌∙◌, +ℤ_zero, +ℤ_assoc, +ℤ_comm,
  -ℤ_parts, String, Bool, true, false, not, ◌&&◌, ◌||◌, Option, none, some, List, [], ◌∷◌, ◌++◌,
  arith, if◌then◌else◌, str_eq, eq_iff, select, ℤ, pos, ◌+ℤ◌, ◌-ℤ◌, scale, or_zero, sum_ℤ, +ℤ_parts,
  eq_of_parts, pos_part, neg_part,
}

-- An error of Stripe: `none` where it is no object, and the three fields as text, "" if absent.
pub record TransferError : Type 0 where
  pub type : String
  pub raw_type : String
  pub code : String

pub data Certainty : Type 0 where
  definitive ambiguous : Certainty

unfoldable pub classify_transfer_error : Option TransferError → Certainty
classify_transfer_error none = ambiguous
classify_transfer_error (some e) =
    if str_eq e.type "StripeIdempotencyError" || str_eq e.code "idempotency_error"
    then ambiguous
    else if str_eq e.type "StripeInvalidRequestError" || str_eq e.raw_type "invalid_request_error"
    then definitive
    else ambiguous

-- A transfer, with the `source` and `payout_id` of its metadata.
pub record Transfer : Type 0 where
  pub id : String
  pub amount : Option ℤ
  pub amount_reversed : Option ℤ
  pub source : Option String
  pub payout_id : Option String

abbrev pub is_lumaline : Transfer → Bool
is_lumaline t = elim t.source [ none ↦ false | some s ↦ str_eq s "lumaline" ]

abbrev pub net_micros : Transfer → ℤ
unfolding scale
net_micros t = scale 10000 (or_zero t.amount -ℤ or_zero t.amount_reversed)

-- The loop, with its running total.
unfoldable pub sum_from : ℤ → List Transfer → ℤ
sum_from total [] = total
sum_from total (t ∷ ts) = sum_from (if is_lumaline t then total +ℤ net_micros t else total) ts

unfoldable pub sum_lumaline_transfers_micros : List Transfer → ℤ
unfolding sum_from
sum_lumaline_transfers_micros ts = sum_from (pos 0) ts

unfoldable pub reversed_micros_from_transfer : Transfer → ℤ
unfolding scale
reversed_micros_from_transfer t =
    scale 10000 (elim t.amount_reversed [ none ↦ or_zero t.amount | some r ↦ r ])

-- `none` is a value that is no finite number, and a number is given by its floor.
unfoldable pub payout_min_micros : Option ℤ → ℤ
payout_min_micros none = pos 1000000
payout_min_micros (some n) = if leb_ℤ (pos 1) n then n else pos 1000000

pub sum_from-select :
    (total : ℤ) (ts : List Transfer)
    → sum_from total ts ≡ (total +ℤ sum_ℤ net_micros (select is_lumaline ts))
unfolding sum_from
sum_from-select total [] = sym (+ℤ_zero total)
sum_from-select total (t ∷ ts) = elim (Bool-cases (is_lumaline t)) [
  | inl e ↦
      let later = sum_from-select (total +ℤ net_micros t) ts in
      let sum = sum_ℤ net_micros (select is_lumaline ts) in
      rw e (later ∙ +ℤ_assoc total (net_micros t) sum)
  | inr e ↦ rw e (sum_from-select total ts)
]

abbrev pub IsFullyReversed : Transfer → Type 0
IsFullyReversed t = or_zero t.amount ≡ or_zero t.amount_reversed

net_zero : (t : Transfer) → IsFullyReversed t → net_micros t ≡ pos 0
unfolding scale
net_zero t h =
    let p = -ℤ_parts (or_zero t.amount) (or_zero t.amount_reversed) in
    let x : pos_part (or_zero t.amount) ≡ pos_part (or_zero t.amount_reversed) = ap pos_part h in
    let y : neg_part (or_zero t.amount) ≡ neg_part (or_zero t.amount_reversed) = ap neg_part h in
    eq_of_parts (net_micros t) (pos 0) (ground arith)

-- The Stripe side of the reconciliation is the sum over the transfers marked as LumaLine's of what
-- was not reversed, in micros, so a fully reversed transfer in front changes nothing.
pub sum_lumaline_net :
    (t : Transfer) (ts : List Transfer)
    → IsFullyReversed t
    → (sum_lumaline_transfers_micros ts ≡ sum_ℤ net_micros (select is_lumaline ts))
      × (sum_lumaline_transfers_micros (t ∷ ts) ≡ sum_lumaline_transfers_micros ts)
unfolding sum_lumaline_transfers_micros sum_from
sum_lumaline_net t ts h =
    let z : (pos 0 +ℤ net_micros t) ≡ pos 0 =
      ap (λ x. pos 0 +ℤ x) (net_zero t h) ∙ +ℤ_zero (pos 0) in
    let sum = sum_ℤ net_micros (select is_lumaline ts) in
    (
      sum_from-select (pos 0) ts ∙ (+ℤ_comm (pos 0) sum ∙ +ℤ_zero sum),
      elim (Bool-cases (is_lumaline t)) [
        | inl e ↦ rw e (ap (λ x. sum_from x ts) z)
        | inr e ↦ rw e refl
      ],
    )

-- A failed transfer is given up only on a request that Stripe rejected as invalid: not on an error
-- that is no object, not on an idempotency error under either name, and not on any other.
pub classify_definitive_iff :
    (e : TransferError)
    → ((classify_transfer_error (some e) ≡ definitive) ↔ (
        (e.type ≢ "StripeIdempotencyError")
        × (e.code ≢ "idempotency_error")
        × ((e.type ≡ "StripeInvalidRequestError") ⊎ (e.raw_type ≡ "invalid_request_error"))))
      × (classify_transfer_error none ≡ ambiguous)
unfolding classify_transfer_error
classify_definitive_iff e =
    let a = eq_iff e.type "StripeIdempotencyError" in
    let b = eq_iff e.code "idempotency_error" in
    let c = eq_iff e.type "StripeInvalidRequestError" in
    let d = eq_iff e.raw_type "invalid_request_error" in (ground (arith, a, b, c, d), refl)
