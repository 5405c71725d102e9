-- ===== src/Server/Clicks.antt =====
-- The click tracker, src/server/clicks.mjs: tokens that are minted for a window and resolve once.
-- node:crypto, the JSON and base64url of a payload and new URL are the record `Crypto`.
pub mod Split
pub mod Resolve
pub mod Once
use luma_line.Prelude.{
  ℕ, ◌+◌, String, Bool, true, false, not, ◌||◌, ◌&&◌, Option, none, some, List, [], ◌∷◌, ltb,
  if◌then◌else◌, str_eq, truthy, ◌&◌, any,
}
use luma_line.Server.Windows.{safe_equal}
use Split.{split_dot}

pub record TokenData : Type 0 where
  pub window_id : String
  pub ad_id : String
  pub dest : String
  pub ts : ℕ

-- `encode` is JSON.stringify and then base64url, `decode` the way back, `none` where JSON.parse
-- throws; `protocol_of` is `none` where new URL throws.
pub record Crypto : Type 0 where
  pub hmac_hex : String → String → String
  pub encode : TokenData → String
  pub decode : String → Option TokenData
  pub protocol_of : String → Option String

-- What a tracker is created with, and `seen`, the set of windows that have redirected.
pub record Tracker : Type 0 where
  pub secret : String
  pub ttl_ms : ℕ
  pub seen : List String

pub data ClickError : Type 0 where
  malformed bad_signature expired unknown_window unsafe_dest duplicate : ClickError

pub data Verdict : Type 0 where
  redirect : String → Verdict
  refused : ClickError → Verdict

-- An empty secret is refused by a throw.
unfoldable pub create_click_tracker : String → ℕ → Option Tracker
create_click_tracker secret ttl =
    if truthy secret then some (record { secret = secret; ttl_ms = ttl; seen = [] }) else none

abbrev pub contains : List String → String → Bool
contains xs k = any (λ x. str_eq x k) xs

module _ (x : Crypto) where
  unfoldable pub is_safe_http_url : String → Bool
  is_safe_http_url u = elim (x.protocol_of u) [
    | none ↦ false
    | some p ↦ str_eq p "http:" || str_eq p "https:"
  ]

  -- `none` where the destination is refused by a throw.
  unfoldable pub mint : Tracker → ℕ → String → String → String → Option String
  unfolding is_safe_http_url
  mint k now window_id ad_id dest =
      if not (is_safe_http_url dest)
      then none
      else (let payload =
            x.encode (record { window_id = window_id; ad_id = ad_id; dest = dest; ts = now }) in
          some (payload & "." & x.hmac_hex k.secret payload))

  -- The tests on a payload whose signature holds, in the order of the source.
  unfoldable pub admit : (String → Bool) → Tracker → ℕ → TokenData → Verdict × Tracker
  unfolding is_safe_http_url
  admit is_window_known k now d =
      if ltb (d.ts + k.ttl_ms) now
      then (refused expired, k)
      else if not (is_window_known d.window_id)
      then (refused unknown_window, k)
      else if not (is_safe_http_url d.dest)
      then (refused unsafe_dest, k)
      else if contains k.seen d.window_id
      then (refused duplicate, k)
      else (redirect d.dest, record k { seen = d.window_id ∷ k.seen })

  -- The two parts of a token.
  unfoldable pub resolve_parts : (String → Bool) → Tracker → ℕ → List String → Verdict × Tracker
  unfolding admit
  resolve_parts known k now [] = (refused malformed, k)
  resolve_parts known k now (payload ∷ []) = (refused malformed, k)
  resolve_parts known k now (payload ∷ sig ∷ []) =
      if not (truthy payload && truthy sig)
      then (refused malformed, k)
      else if not (safe_equal sig (x.hmac_hex k.secret payload))
      then (refused bad_signature, k)
      else elim (x.decode payload) [ none ↦ (refused malformed, k) | some d ↦ admit known k now d ]
  resolve_parts known k now (payload ∷ sig ∷ more ∷ rest) = (refused malformed, k)

  unfoldable pub resolve : (String → Bool) → Tracker → ℕ → String → Verdict × Tracker
  unfolding resolve_parts split_dot
  resolve known k now token = resolve_parts known k now (split_dot token)
