-- ===== src/Url.antt =====
-- URL safety for the status line, src/lib/url.mjs.
use Prim.Native.Char.{code}
use luma_line.Prelude.{
  ℕ, ◌≡◌, ◌⊎◌, inl, inr, String, Bool, false, ◌||◌, Option, none, some, arith, ltb, ◌==◌,
  if◌then◌else◌, str_eq, eq_iff, Option-cases,
}

-- A character code below 0x20, or DEL. A UTF-16 surrogate is neither, so walking the characters
-- finds what walking the code units does.
unfoldable pub is_control : ℕ → Bool
is_control c = ltb c 0x20 || c == 0x7f

unfoldable pub has_control_chars : String → Bool
unfolding is_control
has_control_chars String.[] = false
has_control_chars (String.◌∷◌ c s) = is_control (code c) || has_control_chars s

-- `protocol_of u` is the `protocol` of `new URL(u)`, or `none` where that throws.
module _ (protocol_of : String → Option String) where
  unfoldable pub safe_click_url : String → Option String
  safe_click_url u = if has_control_chars u then none else elim (protocol_of u) [
    | none ↦ none
    | some p ↦ if str_eq p "http:" || str_eq p "https:" then some u else none
  ]

  -- A URL that is shown or linked is the one that was given, has no control character, and is an
  -- absolute http or https URL.
  pub safe_click_url_sound :
      (u v : String)
      → safe_click_url u ≡ some v
      → (v ≡ u)
        × (has_control_chars v ≡ false)
        × ((p : String) × (protocol_of v ≡ some p) × ((p ≡ "http:") ⊎ (p ≡ "https:")))
  unfolding safe_click_url
  safe_click_url_sound u v h = elim (Option-cases (protocol_of u)) [
    | inl e ↦ ground arith
    | inr (p, e) ↦
        let same : v ≡ u = ground arith in
        let web : (p ≡ "http:") ⊎ (p ≡ "https:") =
          ground (arith, eq_iff p "http:", eq_iff p "https:") in
        (same, ground arith, (p, rw same e, web))
  ]
