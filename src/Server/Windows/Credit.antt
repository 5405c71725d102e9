-- ===== src/Server/Windows/Credit.antt =====
-- When `close` of src/server/windows.mjs credits a window, and how often.
use luma_line.Prelude.{
  ℕ, ◌+◌, ◌≤◌, ◌≡◌, refl, subst, ◌↔◌, ◌⊎◌, inl, inr, String, Bool, true, false, ◌&&◌, none, some,
  List, [], ◌∷◌, arith, if◌then◌else◌, str_eq, eq_iff,
}
use luma_line.Prelude.JsMap.{get, get-set}
use luma_line.Server.Windows.{
  Config, Window, Store, Request, opens, beats, closes, close, close_window, open_window, beat,
  beat_window, step, round_seconds, CloseReply, credited_ok,
}

close_window_credits :
    (c : Config) (t : ℕ) (w : Window)
    → ((close_window c t w).0.credited ≡ true) ↔ (
        (w.closed ≡ false)
        × (c.min_beats ≤ w.beats)
        × (w.activity_progress ≡ true)
        × (w.started_at + c.dwell_ms ≤ t))
unfolding close_window
close_window_credits c t w = ground arith

-- A close of a known window credits it exactly when the window was open, had its minimum of beats,
-- showed activity, and its full dwell had elapsed.
pub close_credits_iff :
    (s : Store) (t : ℕ) (id : String) (w : Window)
    → get s.windows id ≡ some w
    → ((close s t id).0.credited ≡ true) ↔ (
        (w.closed ≡ false)
        × (s.config.min_beats ≤ w.beats)
        × (w.activity_progress ≡ true)
        × (w.started_at + s.config.dwell_ms ≤ t))
unfolding close
close_credits_iff s t id w e = rw (e, close) (close_window_credits s.config t w)

-- The reply to a close that pays for the whole dwell.
abbrev pub full_credit : Config → CloseReply
full_credit c = record {
  credited = true;
  attention_seconds = round_seconds c.dwell_ms;
  reason = credited_ok;
}

close_window_earned :
    (c : Config) (t : ℕ) (w : Window)
    → w.closed ≡ false
    → c.min_beats ≤ w.beats
    → w.activity_progress ≡ true
    → w.started_at + c.dwell_ms ≤ t
    → (close_window c t w).0 ≡ full_credit c
unfolding close_window
close_window_earned c t w o b p d = ground arith

-- A close that meets all four conditions pays for the whole dwell.
pub close_earned :
    (s : Store) (t : ℕ) (id : String) (w : Window) (c : Config)
    → get s.windows id ≡ some w
    → s.config ≡ c
    → w.closed ≡ false
    → c.min_beats ≤ w.beats
    → w.activity_progress ≡ true
    → w.started_at + c.dwell_ms ≤ t
    → (close s t id).0 ≡ full_credit c
unfolding close
close_earned s t id w c e same o b p d =
    subst (λ k. (close s t id).0 ≡ full_credit k) same
      (rw (e, close) (close_window_earned s.config t w o (rw same b) p (rw same d)))

-- Every close reply bills at most the rounded dwell, and an uncredited one bills nothing.
pub close_bill_bounds :
    (s : Store) (t : ℕ) (id : String)
    → ((close s t id).0.attention_seconds ≤ round_seconds s.config.dwell_ms)
      × ((close s t id).0.credited ≡ false → (close s t id).0.attention_seconds ≡ 0)
unfolding close
close_bill_bounds s t id = ground arith

abbrev is_closed : Store → String → Bool
is_closed s id = elim (get s.windows id) [ none ↦ false | some w ↦ w.closed ]

-- An `open` draws an id that no window has.
abbrev pub DrawsFresh : Store → Request → Type 0
DrawsFresh s (opens d session snapshot) = get s.windows d.window_id ≡ none
DrawsFresh s (beats t r) = Unit
DrawsFresh s (closes t id) = Unit

module _ (hmac_hex : String → String → String) where
  abbrev pub AllDrawFresh : Store → List Request → Type 0
  AllDrawFresh s [] = Unit
  AllDrawFresh s (r ∷ rs) = DrawsFresh s r × AllDrawFresh (step hmac_hex s r) rs

  -- Whether this request is a close that credits the window `id`.
  pub paid : String → Store → Request → ℕ
  paid id s (opens d session snapshot) = 0
  paid id s (beats t r) = 0
  paid id s (closes t j) = if str_eq j id && (close s t j).0.credited then 1 else 0

  -- The number of times that a run of requests credits the window `id`.
  pub credits : String → Store → List Request → ℕ
  unfolding paid
  credits id s [] = 0
  credits id s (r ∷ rs) = paid id s r + credits id (step hmac_hex s r) rs

  step_closed :
      (id : String) (s : Store) (r : Request)
      → DrawsFresh s r
      → is_closed s id ≡ true
      → is_closed (step hmac_hex s r) id ≡ true
  unfolding step open_window beat beat_window close
  step_closed id s (opens d session snapshot) f h = grind (arith, get-set, eq_iff)
  step_closed id s (beats t r) f h = grind (arith, get-set, eq_iff)
  step_closed id s (closes t j) f h = grind (arith, get-set, eq_iff)

  paid-closed : (id : String) (s : Store) (r : Request) → is_closed s id ≡ true → paid id s r ≡ 0
  unfolding paid close
  paid-closed id s (opens d session snapshot) h = refl
  paid-closed id s (beats t r) h = refl
  paid-closed id s (closes t j) h = grind (arith, eq_iff)

  -- A credit closes its window.
  paid_closes :
      (id : String) (s : Store) (r : Request)
      → (paid id s r ≡ 0) ⊎ ((paid id s r ≡ 1) × (is_closed (step hmac_hex s r) id ≡ true))
  unfolding paid step close
  paid_closes id s (opens d session snapshot) = inl refl
  paid_closes id s (beats t r) = inl refl
  paid_closes id s (closes t j) = grind (arith, get-set, eq_iff)

  credits-closed :
      (id : String) (s : Store) (rs : List Request)
      → AllDrawFresh s rs
      → is_closed s id ≡ true
      → credits id s rs ≡ 0
  unfolding credits
  credits-closed id s [] f h = refl
  credits-closed id s (r ∷ rs) f h = omega (
    arith,
    paid-closed id s r h,
    credits-closed id (step hmac_hex s r) rs f.1 (step_closed id s r f.0 h),
  )

  -- Over any run of requests whose opens draw fresh ids, from any store, a window is credited at
  -- most once.
  pub credits-le-one :
      (id : String) (s : Store) (rs : List Request) → AllDrawFresh s rs → credits id s rs ≤ 1
  unfolding credits
  credits-le-one id s [] f = omega arith
  credits-le-one id s (r ∷ rs) f = elim (paid_closes id s r) [
    | inl unpaid ↦ omega (arith, unpaid, credits-le-one id (step hmac_hex s r) rs f.1)
    | inr (one, shut) ↦ omega (arith, one, credits-closed id (step hmac_hex s r) rs f.1 shut)
  ]
