-- ===== src/Client/SessionKey.antt =====
-- The key of a session, part of a file's name, src/client/session.mjs. `digest` is the SHA-256 of a
-- text in hex.
use Prim.Native.Char.{code}
use luma_line.Prelude.{
  ℕ, zero, suc, ◌≡◌, refl, String, Bool, true, ◌&&◌, ◌||◌, leb, ◌==◌, if◌then◌else◌, truthy, ◌&◌,
  Bool-cases, inl, inr,
}

-- `[A-Za-z0-9_-]`
unfoldable pub is_safe_char : ℕ → Bool
is_safe_char c =
    (leb 65 c && leb c 90)
    || (leb 97 c && leb c 122)
    || (leb 48 c && leb c 57)
    || c == 95
    || c == 45

-- The safe characters of a text, no more than the limit.
unfoldable pub keep_safe : String → ℕ → String
unfolding is_safe_char
keep_safe String.[] n = ""
keep_safe (String.◌∷◌ c s) zero = ""
keep_safe (String.◌∷◌ c s) (suc n) =
    let kept = keep_safe s n in
    let passed = keep_safe s (suc n) in if is_safe_char (code c) then String.◌∷◌ c kept else passed

unfoldable pub slice : String → ℕ → String
slice String.[] n = ""
slice (String.◌∷◌ c s) zero = ""
slice (String.◌∷◌ c s) (suc n) = String.◌∷◌ c (slice s n)

unfoldable pub sanitize : String → String
unfolding keep_safe
sanitize s = if truthy (keep_safe s 64) then keep_safe s 64 else "default"

-- A field that is no string is "".
unfoldable pub session_key : (String → String) → String → String → String
unfolding sanitize slice
session_key digest session_id current_dir =
    if truthy session_id
    then sanitize session_id
    else if truthy current_dir
    then "dir-" & slice (digest current_dir) 16
    else "default"

unfoldable pub all_safe : String → Bool
unfolding is_safe_char
all_safe String.[] = true
all_safe (String.◌∷◌ c s) = is_safe_char (code c) && all_safe s

keep_safe-all_safe : (s : String) (n : ℕ) → all_safe (keep_safe s n) ≡ true
unfolding keep_safe all_safe
keep_safe-all_safe String.[] n = refl
keep_safe-all_safe (String.◌∷◌ c s) zero = refl
keep_safe-all_safe (String.◌∷◌ c s) (suc n) = elim (Bool-cases (is_safe_char (code c))) [
  | inl e ↦ rw (e, e) (keep_safe-all_safe s n)
  | inr e ↦ rw e (keep_safe-all_safe s (suc n))
]

-- The key of a session that Claude Code names is safe in a file's name, and not empty, whatever the
-- name: every character is a letter, a digit, `_` or `-`.
pub session_key_safe :
    (digest : String → String) (session_id current_dir : String)
    → truthy session_id ≡ true
    → (all_safe (session_key digest session_id current_dir) ≡ true)
      × (truthy (session_key digest session_id current_dir) ≡ true)
unfolding session_key sanitize all_safe is_safe_char
session_key_safe digest session_id current_dir h =
    elim (Bool-cases (truthy (keep_safe session_id 64))) [
      | inl e ↦
          (rw (session_key, h, e) (keep_safe-all_safe session_id 64), rw (session_key, h, e) e)
      | inr e ↦ (rw (session_key, h, e) refl, rw (session_key, h, e) refl)
    ]
