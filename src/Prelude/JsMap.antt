-- ===== src/Prelude/JsMap.antt =====
-- A JavaScript `Map` keyed by strings, in insertion order: `set` on a known key keeps its place.
use Prim.Native.String.{String}
use mathlib.Core.Path.{◌≡◌, refl, ap, ◌∙◌}
use mathlib.Core.Bool.{Bool, true, false, ◌||◌}
use mathlib.Core.Option.{Option, none, some}
use mathlib.Core.List.{List, [], ◌∷◌}
use mathlib.Core.Logic.{◌≢◌, inl, inr}
use native.Mathlib.Omega.{arith}
use text.Mathlib.Text.{◌==◌}
use text.Mathlib.TextEquality.{eq_iff}
use luma_line.Prelude.Tests.{if◌then◌else◌, Bool-cases}

abbrev pub JsMap {ℓ} : Type ℓ → Type ℓ
JsMap V = List (String × V)

module _ {ℓ} {V : Type ℓ} where
  unfoldable pub get : JsMap V → String → Option V
  get [] k = none
  get ((j, v) ∷ m) k = if j == k then some v else get m k

  unfoldable pub set : JsMap V → String → V → JsMap V
  set [] k v = (k, v) ∷ []
  set ((j, w) ∷ m) k v = if j == k then (j, v) ∷ m else (j, w) ∷ set m k v

  abbrev pub is_some : Option V → Bool
  is_some none = false
  is_some (some v) = true

  unfoldable pub has : JsMap V → String → Bool
  unfolding get
  has m k = is_some (get m k)

  -- A write is seen at its key and nowhere else.
  pub get-set :
      (m : JsMap V) (k j : String) (v : V)
      → get (set m k v) j ≡ (if k == j then some v else get m j)
  unfolding get set
  get-set [] k j v = refl
  get-set ((i, w) ∷ m) k j v = ground (arith, eq_iff k j, eq_iff i k, eq_iff i j, get-set m k j v)

  pub get-set_self : (m : JsMap V) (k : String) (v : V) → get (set m k v) k ≡ some v
  get-set_self m k v = ground (arith, get-set m k k v, eq_iff k k)

  pub get-set_ne : (m : JsMap V) (k j : String) (v : V) → k ≢ j → get (set m k v) j ≡ get m j
  get-set_ne m k j v h = ground (arith, get-set m k j v, eq_iff k j)

module _ {ℓ} {V : Type ℓ} where
  is_some-if :
      (b : Bool) (v : V) (o : Option V) → is_some (if b then some v else o) ≡ (b || is_some o)
  is_some-if true v o = refl
  is_some-if false v o = refl

  pub has-set : (m : JsMap V) (k j : String) (v : V) → has (set m k v) j ≡ ((k == j) || has m j)
  unfolding has
  has-set m k j v = ap is_some (get-set m k j v) ∙ is_some-if (k == j) v (get m j)

-- The loop that groups rows in a map: a row of a new key starts an entry, and every row is added
-- to the entry of its key.
module _ {ℓ κ} {R : Type ℓ} {V : Type κ} (key : R → String) (start : R → V) (add : R → V → V) where
  abbrev pub entry : R → Option V → V
  entry r none = start r
  entry r (some v) = v

  unfoldable pub group_rows : JsMap V → List R → JsMap V
  group_rows m [] = m
  group_rows m (r ∷ rs) = group_rows (set m (key r) (add r (entry r (get m (key r))))) rs

  -- What becomes of one key's entry.
  unfoldable pub gather : String → Option V → List R → Option V
  gather k o [] = o
  gather k o (r ∷ rs) = gather k (if key r == k then some (add r (entry r o)) else o) rs

  pub get-group_rows :
      (k : String) (m : JsMap V) (rs : List R) → get (group_rows m rs) k ≡ gather k (get m k) rs
  unfolding group_rows gather
  get-group_rows k m [] = refl
  get-group_rows k m (r ∷ rs) =
      let v = add r (entry r (get m (key r))) in
      let now : get (set m (key r) v) k
          ≡ (if key r == k then some (add r (entry r (get m k))) else get m k) =
        get-set m (key r) k v ∙ elim (Bool-cases (key r == k)) [
          | inl e ↦
              let same : key r ≡ k = (eq_iff (key r) k).0 e in
              rw e (ap (λ j. some (add r (entry r (get m j)))) same)
          | inr e ↦ rw e refl
        ] in
      get-group_rows k (set m (key r) v) rs ∙ ap (λ o. gather k o rs) now
