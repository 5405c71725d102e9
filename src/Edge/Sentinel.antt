-- ===== src/Edge/Sentinel.antt =====
-- The anonymous display path, src/client/sentinel.mjs.
use luma_line.Prelude.{
  ℕ, ◌+◌, ◌≡◌, ◌↔◌, ◌⊎◌, inl, inr, refl, String, Bool, true, false, not, ◌&&◌, Option, none, some,
  arith, if◌then◌else◌, ltb, truthy, ◌&◌, Bool-cases,
}
use luma_line.Url.{safe_click_url}

-- What the signed payload says, where it parses; absent fields are `none`.
pub record LineAd : Type 0 where
  pub line : Option String
  pub label : Option String
  pub click_url : Option String

pub record Signed : Type 0 where
  pub ad_data : String
  pub sig : String
  pub keyid : Option String

pub record Cache : Type 0 where
  pub signed : Signed
  pub fetched_at : Option ℕ

pub record Rendered : Type 0 where
  pub status : Option String
  pub click_url : Option String

pub record SentinelResult : Type 0 where
  pub cache : Option Cache
  pub rendered : Rendered

abbrev pub blank : Rendered
blank = record { status = none; click_url = none }

abbrev pub link_part : Option String → String
link_part none = ""
link_part (some u) = "  ·  " & u

abbrev pub label_part : Option String → String
label_part none = "sponsored"
label_part (some l) = l

abbrev pub or_epoch : Option ℕ → ℕ
or_epoch none = 0
or_epoch (some t) = t

module _ (protocol_of : String → Option String) (parse : String → Option LineAd)
    (verify_ad : Signed → Bool) where
  abbrev link : Bool → Option String → Option String
  link false u = none
  link true none = none
  link true (some u) = if truthy u then safe_click_url protocol_of u else none

  abbrev render_line : Bool → LineAd → String → Rendered
  render_line show_url ad line = if not (truthy line) then blank else record {
    status =
        some ("★ " & line & link_part (link show_url ad.click_url) & "  ·  " & label_part ad.label);
    click_url = ad.click_url;
  }

  unfoldable pub render : Signed → Bool → Rendered
  render e show_url = elim (parse e.ad_data) [
    | none ↦ blank
    | some ad ↦ elim ad.line [ none ↦ blank | some line ↦ render_line show_url ad line ]
  ]

  unfoldable pub usable : Option Cache → Bool
  usable none = false
  usable (some c) = truthy c.signed.ad_data && verify_ad c.signed

  abbrev pub is_verified : Option Signed → Bool
  is_verified none = false
  is_verified (some e) = truthy e.ad_data && verify_ad e

  abbrev is_fresh : ℕ → ℕ → Option Cache → Bool
  is_fresh now ttl none = false
  is_fresh now ttl (some c) = ltb now (or_epoch c.fetched_at + ttl)

  abbrev show_cache : Bool → Option Cache → SentinelResult
  show_cache show_url none = record { cache = none; rendered = blank }
  show_cache show_url (some c) = record { cache = some c; rendered = render c.signed show_url }

  abbrev show_fresh : ℕ → Bool → Option Signed → SentinelResult
  show_fresh now show_url none = record { cache = none; rendered = blank }
  show_fresh now show_url (some e) = record {
    cache = some (record { signed = e; fetched_at = some now });
    rendered = render e show_url;
  }

  -- `fetched` is what `fetchLine` gives, `none` where it throws.
  unfoldable pub sentinel_step : ℕ → Option Signed → Option Cache → ℕ → Bool → SentinelResult
  unfolding render usable
  sentinel_step now fetched cache ttl show_url =
      if usable cache && is_fresh now ttl cache
      then show_cache show_url cache
      else if is_verified fetched
      then show_fresh now show_url fetched
      else if usable cache
      then show_cache show_url cache
      else record { cache = none; rendered = blank }

  abbrev pub IsSigned : Bool → SentinelResult → Type 0
  IsSigned show_url r =
      ((r.cache ≡ none) × (r.rendered ≡ blank))
      ⊎ ((c : Cache) × (r.cache ≡ some c)
          × (verify_ad c.signed ≡ true)
          × (r.rendered ≡ render c.signed show_url))

  show_cache-IsSigned :
      (cache : Option Cache) (show_url : Bool)
      → usable cache ≡ true
      → IsSigned show_url (show_cache show_url cache)
  unfolding usable
  show_cache-IsSigned none show_url u = inl (refl, refl)
  show_cache-IsSigned (some c) show_url u = inr (c, refl, ground arith, refl)

  show_fresh-IsSigned :
      (now : ℕ) (fetched : Option Signed) (show_url : Bool)
      → is_verified fetched ≡ true
      → IsSigned show_url (show_fresh now show_url fetched)
  show_fresh-IsSigned now none show_url v = inl (refl, refl)
  show_fresh-IsSigned now (some e) show_url v =
      inr (record { signed = e; fetched_at = some now }, refl, ground arith, refl)

  signed_only :
      (now : ℕ) (fetched : Option Signed) (cache : Option Cache) (ttl : ℕ) (show_url : Bool)
      → IsSigned show_url (sentinel_step now fetched cache ttl show_url)
  unfolding sentinel_step
  signed_only now fetched cache ttl show_url = elim (Bool-cases (usable cache)) [
    | inl u ↦ elim (Bool-cases (is_fresh now ttl cache)) [
      | inl f ↦ rw (sentinel_step, u, f) (show_cache-IsSigned cache show_url u)
      | inr f ↦ elim (Bool-cases (is_verified fetched)) [
        | inl v ↦ rw (sentinel_step, u, f, v) (show_fresh-IsSigned now fetched show_url v)
        | inr v ↦ rw (sentinel_step, u, f, v) (show_cache-IsSigned cache show_url u)
      ]
    ]
    | inr u ↦ elim (Bool-cases (is_verified fetched)) [
      | inl v ↦ rw (sentinel_step, u, v) (show_fresh-IsSigned now fetched show_url v)
      | inr v ↦ rw (sentinel_step, u, v) (inl (refl, refl))
    ]
  ]

  -- A line is lost only where neither the cache nor the fetched reply verifies.
  kept_iff :
      (now : ℕ) (fetched : Option Signed) (cache : Option Cache) (ttl : ℕ) (show_url : Bool)
      → ((sentinel_step now fetched cache ttl show_url).cache ≡ none)
        ↔ ((usable cache ≡ false) × (is_verified fetched ≡ false))
  unfolding sentinel_step usable
  kept_iff now none none ttl show_url = ground arith
  kept_iff now none (some c) ttl show_url = ground arith
  kept_iff now (some e) none ttl show_url = ground arith
  kept_iff now (some e) (some c) ttl show_url = ground arith

  -- A tick keeps a cache only if its content verifies, shows exactly what that content renders to,
  -- and shows nothing without one. It is left without a cache exactly when neither the cache before
  -- nor the fetched reply verifies.
  pub sentinel_signed_only :
      (now : ℕ) (fetched : Option Signed) (cache : Option Cache) (ttl : ℕ) (show_url : Bool)
      → let r = sentinel_step now fetched cache ttl show_url in
        IsSigned show_url r
        × ((r.cache ≡ none) ↔ ((usable cache ≡ false) × (is_verified fetched ≡ false)))
  sentinel_signed_only now fetched cache ttl show_url =
      (signed_only now fetched cache ttl show_url, kept_iff now fetched cache ttl show_url)
