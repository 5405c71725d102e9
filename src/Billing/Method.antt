-- ===== src/Billing/Method.antt =====
-- The payment method of a charge: `isLiveKey` and `choosePaymentMethod` of
-- supabase/functions/_shared/billing-logic.mjs.
use luma_line.Prelude.{
  ◌≡◌, ◌≢◌, ◌⊎◌, inl, inr, refl, String, Bool, true, false, not, ◌&&◌, ◌||◌, Option, none, some,
  List, [], ◌∷◌, arith, if◌then◌else◌, str_eq, eq_iff, truthy, starts_with, trim,
}

abbrev pub test_fallback_pm : String
test_fallback_pm = "pm_card_visa"

-- `none` is a key that is no string.
unfoldable pub is_live_key : Option String → Bool
is_live_key none = false
is_live_key (some k) = starts_with k "sk_live_" || starts_with k "rk_live_"

pub data Choice : Type 0 where
  pm : String → Choice
  skip_no_payment_method : Choice

-- An id that is no string is `none`.
abbrev pub default_id : Option String → String
default_id none = ""
default_id (some id) = trim id

-- The usable ids among the attached, trimmed.
unfoldable pub attached_ids : List (Option String) → List String
attached_ids [] = []
attached_ids (none ∷ ids) = attached_ids ids
attached_ids (some id ∷ ids) =
    let rest = attached_ids ids in if truthy (trim id) then trim id ∷ rest else rest

-- The saved default, the first attached id, or off live mode the test token.
abbrev pub chosen : Bool → String → List String → String
chosen live saved ids =
    if truthy saved
    then saved
    else elim ids [ [] ↦ if live then "" else test_fallback_pm | id ∷ rest ↦ id ]

abbrev pub confirm : Bool → String → Choice
confirm live id =
    if not (truthy id)
    then skip_no_payment_method
    else if live && str_eq id test_fallback_pm
    then skip_no_payment_method
    else pm id

-- The third argument is `none` where it is no array.
unfoldable pub choose_payment_method : Bool → Option String → Option (List (Option String)) → Choice
choose_payment_method live default none = confirm live (chosen live (default_id default) [])
choose_payment_method live default (some ids) =
    confirm live (chosen live (default_id default) (attached_ids ids))

confirm_sound :
    (live : Bool) (c id : String)
    → confirm live c ≡ pm id
    → (id ≡ c) × (live ≡ true → id ≢ test_fallback_pm) × (truthy id ≡ true)
confirm_sound live c id h =
    let t : truthy c ≡ true = ground arith in
    let same : id ≡ c = ground arith in
    (same, (λ l e. ground (arith, eq_iff c test_fallback_pm, l, e)), rw same t)

-- Where the id of a charge may come from.
abbrev pub IsSource : Bool → String → List String → String → Type 0
IsSource live saved ids id =
    (id ≡ saved)
    ⊎ ((saved ≡ "")
        × (((rest : List String) × (ids ≡ id ∷ rest))
            ⊎ ((live ≡ false) × (ids ≡ []) × (id ≡ test_fallback_pm))))

chosen-IsSource :
    (live : Bool) (saved : String) (ids : List String)
    → truthy (chosen live saved ids) ≡ true
    → IsSource live saved ids (chosen live saved ids)
chosen-IsSource live (String.◌∷◌ c s) ids h = inl refl
chosen-IsSource live String.[] (id ∷ ids) h = inr (refl, inl (ids, refl))
chosen-IsSource true String.[] [] h = ground arith
chosen-IsSource false String.[] [] h = inr (refl, inr (refl, refl, refl))

-- The id that is charged comes from the customer: it is the trimmed default, or without one the
-- first usable attached id, or, only off live mode and without either, the test token. In live
-- mode it is never the test token, whatever the ids are, and it is never empty.
pub choose_payment_method_sound :
    (live : Bool) (default : Option String) (ids : List (Option String)) (id : String)
    → choose_payment_method live default (some ids) ≡ pm id
    → IsSource live (default_id default) (attached_ids ids) id
      × (live ≡ true → id ≢ test_fallback_pm)
      × (truthy id ≡ true)
unfolding choose_payment_method
choose_payment_method_sound live default ids id h =
    let c = chosen live (default_id default) (attached_ids ids) in
    let (same, tested, t) = confirm_sound live c id h in
    let t' : truthy c ≡ true = rw (← same) t in
    (rw same (chosen-IsSource live (default_id default) (attached_ids ids) t'), tested, t)
