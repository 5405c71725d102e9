-- ===== src/Edge/RateLimit.antt =====
-- The fixed-window limiter of supabase/functions/_shared/ratelimit.mjs, over its map of buckets.
use luma_line.Prelude.{
  ℕ, suc, ◌+◌, ◌≤◌, ◌<◌, ◌≡◌, refl, subst, ◌-◌, ap, sym, inl, inr, String, Bool, true, false, not,
  Option, none, some, List, [], ◌∷◌, arith, if◌then◌else◌, leb, ltb, truthy, length, Bool-cases,
}
use luma_line.Prelude.JsMap.{JsMap, get, set, get-set_self}

pub record Limits : Type 0 where
  pub max : ℕ
  pub window_ms : ℕ

pub record Bucket : Type 0 where
  pub start : ℕ
  pub count : ℕ

-- `now - b.start >= windowMs`
abbrev pub is_expired : Limits → ℕ → Bucket → Bool
is_expired l now b = leb (b.start + l.window_ms) now

-- A bucket that is gone counts as expired.
abbrev pub is_free : Limits → ℕ → Option Bucket → Bool
is_free l now none = true
is_free l now (some b) = is_expired l now b

unfoldable pub prune : Limits → ℕ → JsMap Bucket → JsMap Bucket
prune l now [] = []
prune l now ((k, b) ∷ m) =
    let rest = prune l now m in if is_expired l now b then rest else (k, b) ∷ rest

abbrev counted : Limits → ℕ → Option Bucket → Bucket
counted l now none = record { start = now; count = 1 }
counted l now (some b) =
    if is_expired l now b
    then record { start = now; count = 1 }
    else record b { count = b.count + 1 }

-- Whether the hit is allowed, and the buckets after it.
unfoldable pub hit : Limits → JsMap Bucket → String → ℕ → Bool × JsMap Bucket
unfolding prune
hit l m key now =
    if not (truthy key)
    then (true, m)
    else if is_free l now (get m key)
    then (let m' = set m key (counted l now (get m key)) in
        (true, if ltb 10_000 (length m') then prune l now m' else m'))
    else (leb (counted l now (get m key)).count l.max, set m key (counted l now (get m key)))

-- The hits of one key at these times.
unfoldable pub hits : Limits → JsMap Bucket → String → List ℕ → List Bool
unfolding hit
hits l m key [] = []
hits l m key (t ∷ ts) = let (allowed, m') = hit l m key t in allowed ∷ hits l m' key ts

-- All the times lie in the window that began at `start`.
abbrev pub AllWithin : Limits → ℕ → List ℕ → Type 0
AllWithin l start [] = Unit
AllWithin l start (t ∷ ts) = (t < start + l.window_ms) × AllWithin l start ts

abbrev pub allowed_count : List Bool → ℕ
allowed_count [] = 0
allowed_count (true ∷ bs) = suc (allowed_count bs)
allowed_count (false ∷ bs) = allowed_count bs

hit_within :
    (l : Limits) (m : JsMap Bucket) (key : String) (b : Bucket) (t : ℕ)
    → truthy key ≡ true
    → get m key ≡ some b
    → t < b.start + l.window_ms
    → hit l m key t ≡ (leb (b.count + 1) l.max, set m key (record b { count = b.count + 1 }))
unfolding hit
hit_within l m key b t k g h = let e : is_expired l t b ≡ false = ground arith in rw (k, g, e) refl

-- Within one window a key is allowed no more hits than the budget has left: after a bucket of `n`
-- hits, however many more come in its window, at most `max - n` of them are allowed.
pub hits_within_budget :
    (l : Limits) (key : String) (ts : List ℕ) (m : JsMap Bucket) (b : Bucket)
    → truthy key ≡ true
    → get m key ≡ some b
    → AllWithin l b.start ts
    → allowed_count (hits l m key ts) ≤ l.max - b.count
unfolding hits
hits_within_budget l key [] m b k g w = omega arith
hits_within_budget l key (t ∷ ts) m b k g w =
    let b' : Bucket = record b { count = b.count + 1 } in
    let m' = set m key b' in
    let now : hits l m key (t ∷ ts) ≡ (leb (b.count + 1) l.max ∷ hits l m' key ts) =
      ap (λ r. r.0 ∷ hits l r.1 key ts) (hit_within l m key b t k g w.0) in
    let later = hits_within_budget l key ts m' b' k (get-set_self m key b') w.1 in
    subst (λ bs. allowed_count bs ≤ l.max - b.count) (sym now)
      (elim (Bool-cases (leb (b.count + 1) l.max)) [
        | inl e ↦ rw e (ground arith)
        | inr e ↦ rw e (ground arith)
      ])
