-- ===== src/Payout/Onboard.antt =====
-- Onboarding and the shared secret: `constantTimeEqual`, `resolveOnboardCountry`,
-- `PAYOUT_SUPPORTED_COUNTRIES` and `canRedoOnboardCountry` of
-- supabase/functions/_shared/payout-logic.mjs.
use Prim.Native.Char.{code}
use luma_line.Prelude.{
  ℕ, ◌≡◌, refl, subst, inl, inr, String, Bool, true, false, not, ◌&&◌, ◌||◌, Option, none, some,
  List, [], ◌∷◌, arith, leb, if◌then◌else◌, str_eq, truthy, trim, Bool-cases,
}

-- The result of the comparison; its loop has no early exit. `none` stands for null.
unfoldable pub constant_time_equal : Option String → Option String → Bool
constant_time_equal none b = false
constant_time_equal (some a) none = false
constant_time_equal (some a) (some b) = truthy a && truthy b && str_eq a b

abbrev is_capital : ℕ → Bool
is_capital c = leb 65 c && leb c 90

-- `/^[A-Z]{2}$/`
unfoldable pub is_country_code : String → Bool
is_country_code String.[] = false
is_country_code (String.◌∷◌ a String.[]) = false
is_country_code (String.◌∷◌ a (String.◌∷◌ b String.[])) = is_capital (code a) && is_capital (code b)
is_country_code (String.◌∷◌ a (String.◌∷◌ b (String.◌∷◌ c s))) = false

-- The body's, the stored and the header's country in turn, each `none` if it is no string.
-- `upper` is `toUpperCase`.
module _ (upper : String → String) where
  unfoldable pub first_code : List (Option String) → Option String
  unfolding is_country_code
  first_code [] = none
  first_code (none ∷ cs) = first_code cs
  first_code (some c ∷ cs) =
      let rest = first_code cs in
      if is_country_code (upper (trim c)) then some (upper (trim c)) else rest

  unfoldable pub resolve_onboard_country :
      Option String → Option String → Option String → Option String
  unfolding first_code
  resolve_onboard_country body stored header = first_code (body ∷ stored ∷ header ∷ [])

  first_code_valid :
      (cs : List (Option String)) (c : String) → first_code cs ≡ some c → is_country_code c ≡ true
  unfolding first_code
  first_code_valid [] c h = ground arith
  first_code_valid (none ∷ cs) c h = first_code_valid cs c h
  first_code_valid (some d ∷ cs) c h = elim (Bool-cases (is_country_code (upper (trim d)))) [
    | inl e ↦
        let q : some (upper (trim d)) ≡ some c = rw (e) at h in
        let same : upper (trim d) ≡ c = ground arith in subst (λ x. is_country_code x ≡ true) same e
    | inr e ↦ first_code_valid cs c (rw (e) at h)
  ]

  -- A country that is resolved is two capital letters. An explicit choice that is valid wins over
  -- what is stored and what the header says, and without any valid source there is none.
  pub resolve_onboard_country_valid :
      (body : String) (stored header : Option String)
      → ((c : String)
          → resolve_onboard_country (some body) stored header ≡ some c
          → is_country_code c ≡ true)
        × (is_country_code (upper (trim body)) ≡ true
            → resolve_onboard_country (some body) stored header ≡ some (upper (trim body)))
        × (resolve_onboard_country none none none ≡ none)
  unfolding resolve_onboard_country first_code
  resolve_onboard_country_valid body stored header =
      ((λ c h. first_code_valid (some body ∷ stored ∷ header ∷ []) c h), (λ e. rw e refl), refl)

abbrev pub payout_supported_countries : List String
payout_supported_countries =
    "AT" ∷ "BE" ∷ "BG" ∷ "HR" ∷ "CY" ∷ "CZ" ∷ "DK" ∷ "EE" ∷ "FI" ∷ "FR" ∷ "DE" ∷ "GR" ∷ "HU" ∷ "IE"
    ∷ "IT" ∷ "LV" ∷ "LT" ∷ "LU" ∷ "MT" ∷ "NL" ∷ "PL" ∷ "PT" ∷ "RO" ∷ "SK" ∷ "SI" ∷ "ES" ∷ "SE"
    ∷ "IS" ∷ "LI" ∷ "NO" ∷ "US" ∷ "GB" ∷ "CA" ∷ "CH" ∷ []

abbrev is_stored : String → Option String → Bool
is_stored requested none = false
is_stored requested (some s) = str_eq requested s

unfoldable pub can_redo_onboard_country : Option String → Option String → Bool → Bool → Bool
unfolding is_country_code
can_redo_onboard_country none stored submitted enabled = false
can_redo_onboard_country (some requested) stored submitted enabled =
    if not (is_country_code requested)
    then false
    else if is_stored requested stored
    then false
    else not (submitted || enabled)
