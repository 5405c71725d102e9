-- ===== src/Server/Clicks/Split.antt =====
-- `token.split('.')` of src/server/clicks.mjs, and what it undoes.
use Prim.Native.Char.{Char, code}
use text.Mathlib.TextLemmas.{cons-append, nil-append}
use text.Mathlib.TextEquality.{Char-path}
use luma_line.Prelude.{
  ◌≡◌, ◌≢◌, refl, ap, sym, ◌∙◌, String, Bool, false, ◌||◌, List, [], ◌∷◌, arith, ◌==◌,
  if◌then◌else◌, ◌&◌, ==_iff, Bool-cases, inl, inr,
}

-- Puts a character before the first part.
abbrev pub lead : Char → List String → List String
lead c [] = (String.◌∷◌ c String.[]) ∷ []
lead c (p ∷ ps) = (String.◌∷◌ c p) ∷ ps

unfoldable pub split_dot : String → List String
split_dot String.[] = String.[] ∷ []
split_dot (String.◌∷◌ c s) =
    if code c == b'.' then String.[] ∷ split_dot s else lead c (split_dot s)

unfoldable pub has_dot : String → Bool
has_dot String.[] = false
has_dot (String.◌∷◌ c s) = code c == b'.' || has_dot s

pub split_dot-no_dot : (s : String) → has_dot s ≡ false → split_dot s ≡ s ∷ []
unfolding split_dot has_dot
split_dot-no_dot String.[] h = refl
split_dot-no_dot (String.◌∷◌ c s) h = ground (arith, split_dot-no_dot s)

-- A text before the first dot is the first part.
pub split_dot-append :
    (a b : String) → has_dot a ≡ false → split_dot (a & "." & b) ≡ a ∷ split_dot b
unfolding split_dot has_dot
split_dot-append String.[] b h = rw (nil-append, cons-append, nil-append) refl
split_dot-append (String.◌∷◌ c a) b h =
    let dotless : (code c == b'.') ≡ false = ground arith in
    let rest : has_dot a ≡ false = ground arith in
    rw (cons-append, dotless, split_dot-append a b rest) refl

join : List String → String
join [] = String.[]
join (p ∷ []) = p
join (p ∷ q ∷ ps) = p & "." & join (q ∷ ps)

join-lead : (c : Char) (ps : List String) → join (lead c ps) ≡ String.◌∷◌ c (join ps)
unfolding join
join-lead c [] = refl
join-lead c (p ∷ []) = refl
join-lead c (p ∷ q ∷ ps) = rw cons-append

join-nil : (ps : List String) → ps ≢ [] → join (String.[] ∷ ps) ≡ "." & join ps
unfolding join
join-nil [] h = absurd (h refl)
join-nil (p ∷ ps) h = rw nil-append

lead-ne-nil : (c : Char) (ps : List String) → lead c ps ≢ []
lead-ne-nil c [] h = cc
lead-ne-nil c (p ∷ ps) h = cc

split_dot-ne-nil : (s : String) → split_dot s ≢ []
unfolding split_dot
split_dot-ne-nil String.[] h = cc
split_dot-ne-nil (String.◌∷◌ c s) h = elim (Bool-cases (code c == b'.')) [
  | inl dot ↦ let none_left : String.[] ∷ split_dot s ≡ [] = rw (dot, split_dot) at h in cc
  | inr other ↦ lead-ne-nil c (split_dot s) (rw (other, split_dot) at h)
]

-- Joining the parts with dots gives the text back.
join-split_dot : (s : String) → join (split_dot s) ≡ s
unfolding split_dot join
join-split_dot String.[] = refl
join-split_dot (String.◌∷◌ c s) = elim (Bool-cases (code c == b'.')) [
  | inl dot ↦
      rw
        (
          dot,
          join-nil (split_dot s) (split_dot-ne-nil s),
          join-split_dot s,
          cons-append,
          nil-append,
        )
        (ap (λ x. String.◌∷◌ x s) (Char-path _ c (sym ((==_iff (code c) b'.').0 dot))))
  | inr other ↦ rw (other, join-lead c (split_dot s), join-split_dot s) refl
]

pub split_dot_two : (s p q : String) → split_dot s ≡ p ∷ q ∷ [] → s ≡ p & "." & q
unfolding join
split_dot_two s p q h = sym (join-split_dot s) ∙ ap join h
