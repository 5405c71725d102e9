-- ===== src/Tests/Edge.antt =====
-- The keyring, the session key, the guards of the edge functions, the anonymous path and stalled billing on concrete
-- inputs.
use luma_line.Prelude.{
  ◌≡◌, ◌↔◌, ◌⊎◌, inl, inr, refl, String, true, false, Option, none, some, List, [], ◌∷◌, truthy,
  trim, str_eq, pos,
}
use luma_line.Prelude.JsMap.{get, set, has}
use luma_line.Keyring.{load_keyring, add_keys, add_key, norm_id, verify, verify_named_key}
use luma_line.Edge.RateLimit.{Limits, Bucket}
use luma_line.Edge.ClientIp.{Headers, resolve_client_ip, resolve_client_ip_trusted}
use luma_line.Edge.Sentinel.{
  LineAd, Signed, IsSigned, SentinelResult, sentinel_step, usable, is_verified,
  sentinel_signed_only,
}
use luma_line.Monitor.Stalled.{UnchargedRow}

-- A key's fingerprint is its text, and a signature is the text of its key.
abbrev print : String → Option String
print pem = some pem

verifies :
    verify print
      (λ s. s)
      (λ d s k. str_eq s k)
      (load_keyring print (λ s. s) (λ d s k. str_eq s k) ("k1" ∷ []) (some "k2"))
      "ad"
      "k1"
      (some " k1 ")
    ≡ true
unfolding verify load_keyring add_keys add_key get set has trim norm_id
verifies = refl

-- The keys that were shipped.
abbrev Shipped : String → Type 0
Shipped p = (p ≡ "k1") ⊎ (p ≡ "k2")

verify_named_key_example :
    (pem : String) × Shipped pem × (print pem ≡ some (trim " k1 ")) × (str_eq "k1" pem ≡ true)
verify_named_key_example =
    verify_named_key print (λ s. s) (λ d s k. str_eq s k) Shipped ("k1" ∷ []) "k2" "ad" "k1" " k1 "
      (inl refl, tt) (inr refl) refl verifies

abbrev limits : Limits
limits = record { max = 2; window_ms = 100 }

abbrev bucket : Bucket
bucket = record { start = 10; count = 1 }

abbrev headers : Headers
headers = record {
  lumaline_client_ip = "1.1.1.1";
  cf_connecting_ip = "2.2.2.2";
  forwarded_for = [];
  real_ip = "";
  edge_proof = "p";
}

resolve_client_ip_trusted_example :
    (((resolve_client_ip str_eq headers "s").trusted ≡ true) ↔ (
      (truthy "s" ≡ true)
      × (truthy "p" ≡ true)
      × (str_eq "p" "s" ≡ true)
      × (truthy (trim "1.1.1.1") ≡ true)))
    × ((resolve_client_ip str_eq headers "s").trusted ≡ true
        → (resolve_client_ip str_eq headers "s").ip ≡ trim "1.1.1.1")
resolve_client_ip_trusted_example = resolve_client_ip_trusted str_eq headers "s"

abbrev signed : Signed
signed = record { ad_data = "a"; sig = "s"; keyid = none }

abbrev promo : LineAd
promo = record { line = some "Try LumaLine"; label = none; click_url = none }

abbrev first_tick : SentinelResult
first_tick = sentinel_step (λ u. none) (λ a. some promo) (λ e. true) 5 (some signed) none 100 true

sentinel_signed_only_example :
    IsSigned (λ u. none) (λ a. some promo) (λ e. true) true first_tick
    × ((first_tick.cache ≡ none) ↔ (
        (usable (λ u. none) (λ a. some promo) (λ e. true) none ≡ false)
        × (is_verified (λ u. none) (λ a. some promo) (λ e. true) (some signed) ≡ false)))
sentinel_signed_only_example =
    sentinel_signed_only (λ u. none) (λ a. some promo) (λ e. true) 5 (some signed) none 100 true

abbrev uncharged : List UnchargedRow
uncharged =
    record { advertiser_id = "a"; advertiser_name = none; amount_micros = none }
    ∷ record { advertiser_id = "a"; advertiser_name = none; amount_micros = some (pos 5) }
    ∷ []
