-- ===== src/Edge/Bearer.antt =====
-- The bearer of a request and the ids of its body: `bearerHeader` of
-- supabase/functions/_shared/jwt.ts and the test of a UUID of supabase/functions/billing/index.ts.
use Prim.Native.Char.{code}
use luma_line.Prelude.{
  ℕ, zero, suc, String, Bool, true, false, not, ◌&&◌, ◌||◌, Option, none, some, List, [], ◌∷◌,
  if◌then◌else◌, leb, ◌==◌, ◌+◌, truthy, is_space, trim_start, ◌≡◌, refl,
}

abbrev lower : ℕ → ℕ
lower c = if leb 65 c && leb c 90 then c + 32 else c

-- A prefix, in either case; the prefix is in lower case.
abbrev after_prefix : String → String → Option String
after_prefix s String.[] = some s
after_prefix String.[] (String.◌∷◌ d p) = none
after_prefix (String.◌∷◌ c s) (String.◌∷◌ d p) =
    let rest = after_prefix s p in if lower (code c) == code d then rest else none

abbrev starts_space : String → Bool
starts_space String.[] = false
starts_space (String.◌∷◌ c s) = is_space (code c)

-- `/^Bearer\s+\S/i`
unfoldable pub is_bearer : String → Bool
unfolding trim_start is_space
is_bearer h = elim (after_prefix h "bearer") [
  | none ↦ false
  | some rest ↦ starts_space rest && truthy (trim_start rest)
]

unfoldable pub bearer_header : Option String → Option String
unfolding is_bearer
bearer_header none = none
bearer_header (some h) = if truthy h && is_bearer h then some h else none

abbrev is_hex : ℕ → Bool
is_hex c = (leb 48 c && leb c 57) || (leb 97 (lower c) && leb (lower c) 102)

abbrev after_hex : ℕ → String → Option String
after_hex zero s = some s
after_hex (suc n) String.[] = none
after_hex (suc n) (String.◌∷◌ c s) =
    let rest = after_hex n s in if is_hex (code c) then rest else none

abbrev after_dash : Option String → Option String
after_dash none = none
after_dash (some String.[]) = none
after_dash (some (String.◌∷◌ c s)) = if code c == 45 then some s else none

abbrev ends : Option String → Bool
ends none = false
ends (some s) = not (truthy s)

-- Runs of hexadecimal digits of these lengths, with a dash between them.
abbrev is_dashed : List ℕ → Option String → Bool
is_dashed [] o = ends o
is_dashed (n ∷ ns) none = false
is_dashed (n ∷ []) (some s) = ends (after_hex n s)
is_dashed (n ∷ m ∷ ns) (some s) = is_dashed (m ∷ ns) (after_dash (after_hex n s))

unfoldable pub is_uuid : String → Bool
is_uuid s = is_dashed (8 ∷ 4 ∷ 4 ∷ 4 ∷ 12 ∷ []) (some s)

uuid_runs : is_uuid "0123abCD-0000-0000-0000-00000000000f" ≡ true
unfolding is_uuid
uuid_runs = refl

bearer_runs : bearer_header (some "bearer  x") ≡ some "bearer  x"
unfolding bearer_header
bearer_runs = refl
