-- ===== src/Prelude/Int.antt =====
-- Signed integers over the native numbers: the money amounts of the source, which are integral
-- micro-EUR or cents. Sums and orders go through the two parts of an integer.
use Prim.Native.Nat.{ℕ, suc, ◌+◌, ◌-◌, ◌*◌, ◌/◌, ◌≤◌, ◌<◌}
use mathlib.Core.Path.{◌≡◌, ap, sym, ◌∙◌}
use mathlib.Core.Bool.{Bool}
use mathlib.Core.Option.{Option, none, some}
use mathlib.Core.List.{List, [], ◌∷◌}
use native.Mathlib.Omega.{arith}
use luma_line.Prelude.Tests.{ltb, leb, ◌==◌, if◌then◌else◌}

-- `negsuc n` is -(n + 1).
pub data ℤ : Type 0 where
  pos : ℕ → ℤ
  negsuc : ℕ → ℤ

abbrev pub pos_part : ℤ → ℕ
pos_part (pos n) = n
pos_part (negsuc n) = 0

abbrev pub neg_part : ℤ → ℕ
neg_part (pos n) = 0
neg_part (negsuc n) = suc n

abbrev pub sub_ℕ : ℕ → ℕ → ℤ
sub_ℕ a b = if leb b a then pos (a - b) else negsuc (b - a - 1)

infixl 65 ◌+ℤ◌ ◌-ℤ◌
infix 50 ◌≤ℤ◌ ◌<ℤ◌
unfoldable pub ◌+ℤ◌ : ℤ → ℤ → ℤ
a +ℤ b = sub_ℕ (pos_part a + pos_part b) (neg_part a + neg_part b)

unfoldable pub ◌-ℤ◌ : ℤ → ℤ → ℤ
a -ℤ b = sub_ℕ (pos_part a + neg_part b) (neg_part a + pos_part b)

-- Multiplication by a natural constant.
unfoldable pub scale : ℕ → ℤ → ℤ
scale k a = sub_ℕ (k * pos_part a) (k * neg_part a)

abbrev pub ◌≤ℤ◌ : ℤ → ℤ → Type 0
a ≤ℤ b = pos_part a + neg_part b ≤ pos_part b + neg_part a

abbrev pub ◌<ℤ◌ : ℤ → ℤ → Type 0
a <ℤ b = pos_part a + neg_part b < pos_part b + neg_part a

abbrev pub ltb_ℤ : ℤ → ℤ → Bool
ltb_ℤ a b = ltb (pos_part a + neg_part b) (pos_part b + neg_part a)

abbrev pub leb_ℤ : ℤ → ℤ → Bool
leb_ℤ a b = leb (pos_part a + neg_part b) (pos_part b + neg_part a)

abbrev pub eqb_ℤ : ℤ → ℤ → Bool
eqb_ℤ a b = (pos_part a + neg_part b) == (pos_part b + neg_part a)

pub +ℤ_parts :
    (a b : ℤ)
    → pos_part (a +ℤ b) + neg_part a + neg_part b ≡ neg_part (a +ℤ b) + pos_part a + pos_part b
unfolding ◌+ℤ◌
+ℤ_parts a b = ground arith

pub -ℤ_parts :
    (a b : ℤ)
    → pos_part (a -ℤ b) + neg_part a + pos_part b ≡ neg_part (a -ℤ b) + pos_part a + neg_part b
unfolding ◌-ℤ◌
-ℤ_parts a b = ground arith

pub eq_of_parts : (a b : ℤ) → pos_part a + neg_part b ≡ pos_part b + neg_part a → a ≡ b
eq_of_parts a b h = ground arith

pub ruleset int_laws = (arith, +ℤ_parts, -ℤ_parts, eq_of_parts)

-- `Math.floor(a / 10000)`, the whole cents in an amount of micros.
unfoldable pub floor_cents : ℤ → ℤ
floor_cents (pos n) = pos (n / 10000)
floor_cents (negsuc n) = negsuc (n / 10000)

-- The greatest number of cents that the micros cover.
pub floor_cents_parts :
    (a : ℤ)
    → (10000 * pos_part (floor_cents a) + neg_part a
        ≤ pos_part a + 10000 * neg_part (floor_cents a))
      × (pos_part a + 10000 * neg_part (floor_cents a)
          < 10000 * pos_part (floor_cents a) + 10000 + neg_part a)
unfolding floor_cents
floor_cents_parts (pos n) = omega arith
floor_cents_parts (negsuc n) = omega arith

pub floor_cents-superadditive : (a b : ℤ) → (floor_cents a +ℤ floor_cents b) ≤ℤ floor_cents (a +ℤ b)
floor_cents-superadditive a b =
    let (la, _) = floor_cents_parts a in
    let (lb, _) = floor_cents_parts b in
    let (_, uc) = floor_cents_parts (a +ℤ b) in
    let s = +ℤ_parts a b in let t = +ℤ_parts (floor_cents a) (floor_cents b) in omega arith

-- `Number(x) || 0`; `none` is an `x` that is no number.
abbrev pub or_zero : Option ℤ → ℤ
or_zero none = pos 0
or_zero (some a) = a

abbrev pub min_ℤ : ℤ → ℤ → ℤ
min_ℤ a b = if ltb_ℤ b a then b else a

abbrev pub max_ℤ : ℤ → ℤ → ℤ
max_ℤ a b = if ltb_ℤ a b then b else a

abbrev pub sum_ℤ {ℓ} : {A : Type ℓ} → (A → ℤ) → List A → ℤ
sum_ℤ f [] = pos 0
sum_ℤ f (x ∷ xs) = f x +ℤ sum_ℤ f xs

pub +ℤ_assoc : (a b c : ℤ) → ((a +ℤ b) +ℤ c) ≡ (a +ℤ (b +ℤ c))
+ℤ_assoc a b c =
    let p = +ℤ_parts a b in
    let q = +ℤ_parts b c in
    let r = +ℤ_parts (a +ℤ b) c in
    let s = +ℤ_parts a (b +ℤ c) in eq_of_parts ((a +ℤ b) +ℤ c) (a +ℤ (b +ℤ c)) (omega arith)

pub +ℤ_comm : (a b : ℤ) → (a +ℤ b) ≡ (b +ℤ a)
+ℤ_comm a b =
    let p = +ℤ_parts a b in let q = +ℤ_parts b a in eq_of_parts (a +ℤ b) (b +ℤ a) (omega arith)

pub +ℤ_zero : (a : ℤ) → (a +ℤ pos 0) ≡ a
+ℤ_zero a = let p = +ℤ_parts a (pos 0) in eq_of_parts (a +ℤ pos 0) a (omega arith)

pub +ℤ_swap : (a t b : ℤ) → ((a +ℤ t) +ℤ b) ≡ ((b +ℤ t) +ℤ a)
+ℤ_swap a t b =
    let p = +ℤ_parts a t in
    let q = +ℤ_parts b t in
    let r = +ℤ_parts (a +ℤ t) b in
    let s = +ℤ_parts (b +ℤ t) a in eq_of_parts ((a +ℤ t) +ℤ b) ((b +ℤ t) +ℤ a) (omega arith)

-- An equation of sums holds under a common term.
pub +ℤ_under : (w t t' o v : ℤ) → (t' +ℤ o) ≡ (t +ℤ v) → ((w +ℤ t') +ℤ o) ≡ ((w +ℤ t) +ℤ v)
+ℤ_under w t t' o v e = +ℤ_assoc w t' o ∙ ap (λ x. w +ℤ x) e ∙ sym (+ℤ_assoc w t v)

pub +ℤ_cancel : (t t' o a : ℤ) → (t' +ℤ o) ≡ (t +ℤ (o +ℤ a)) → t' ≡ (t +ℤ a)
+ℤ_cancel t t' o a e =
    let p = +ℤ_parts t' o in
    let q = +ℤ_parts o a in
    let r = +ℤ_parts t (o +ℤ a) in
    let s = +ℤ_parts t a in
    let x : pos_part (t' +ℤ o) ≡ pos_part (t +ℤ (o +ℤ a)) = ap pos_part e in
    let y : neg_part (t' +ℤ o) ≡ neg_part (t +ℤ (o +ℤ a)) = ap neg_part e in
    eq_of_parts t' (t +ℤ a) (omega arith)
