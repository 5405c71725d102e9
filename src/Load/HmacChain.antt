-- ===== src/Load/HmacChain.antt =====
-- The synthetic client's heartbeat chain, scripts/load/lib/hmac-chain.mjs. `none` is a throw.
pub mod Accepted
pub mod Credited
use luma_line.Prelude.{
  ℕ, zero, suc, ◌+◌, String, Bool, ◌||◌, Option, none, some, List, [], ◌∷◌, ◌==◌, if◌then◌else◌,
  str_eq,
}
use luma_line.Server.Windows.{beat_message}

-- Membership in `ACTIVITY_BUCKETS`.
unfoldable pub is_bucket : String → Bool
is_bucket a = str_eq a "none" || (str_eq a "low" || (str_eq a "med" || str_eq a "high"))

pub record ChainBeat : Type 0 where
  pub seq : ℕ
  pub prev : String
  pub activity : String
  pub hmac : String

-- The default `activityFor`.
unfoldable pub default_activity : ℕ → String
default_activity seq = if seq == 1 then "low" else "none"

module _ (hmac_hex : String → String → String) where
  unfoldable pub beat_hmac : ℕ → String → String → String → Option String
  unfolding is_bucket
  beat_hmac seq prev activity challenge =
      if is_bucket activity
      then some (hmac_hex challenge (beat_message seq prev activity))
      else none

  -- The loop from `seq` on, with `n` rounds left.
  unfoldable pub build_from : String → (ℕ → String) → ℕ → ℕ → String → Option (List ChainBeat)
  unfolding beat_hmac
  build_from challenge pick zero seq prev = some []
  build_from challenge pick (suc n) seq prev = elim (beat_hmac seq prev (pick seq) challenge) [
    | none ↦ none
    | some hmac ↦ elim (build_from challenge pick n (seq + 1) hmac) [
      | none ↦ none
      | some rest ↦
          some (record { seq = seq; prev = prev; activity = pick seq; hmac = hmac } ∷ rest)
    ]
  ]

  unfoldable pub build_chain : String → String → ℕ → (ℕ → String) → Option (List ChainBeat)
  unfolding build_from
  build_chain window_id challenge count pick = build_from challenge pick count 1 window_id
