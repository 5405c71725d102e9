-- ===== src/Server/Windows/Accept.antt =====
-- Which beats `beat` of src/server/windows.mjs accepts, and what it then writes.
use luma_line.Prelude.{
  ℕ, ◌+◌, ◌≤◌, ◌≡◌, ◌↔◌, String, ◌⊎◌, inl, inr, refl, none, some, true, false, arith, Option-cases,
  eq_iff, if◌then◌else◌,
}
use luma_line.Prelude.JsMap.{get, set}
use luma_line.Server.Windows.{
  close, close_window, no_credit, unknown_window, Config, Window, Store, BeatRequest, BeatError,
  unknown_or_closed, Beaten, accepted, rejected, beat, beat_window, beat_message, delta_text,
  shows_progress, safe_equal,
}

pub Beaten-cases :
    {A : Type 0} (b : Beaten A)
    → ((e : BeatError) × (b ≡ rejected e)) ⊎ ((a : A) × (b ≡ accepted a))
Beaten-cases (accepted a) = inr (a, refl)
Beaten-cases (rejected e) = inl (e, refl)

pub safe_equal_iff : (a b : String) → (safe_equal a b ≡ true) ↔ (a ≡ b)
unfolding safe_equal
safe_equal_iff a b = ground (arith, eq_iff a b)

-- The window after an accepted beat.
abbrev pub beaten : ℕ → BeatRequest → Window → Window
beaten t r w = record w {
  beats = r.seq;
  last_recv = t;
  prev_hash = r.hmac;
  activity_progress = if shows_progress r.activity_delta then true else w.activity_progress;
}

module _ (hmac_hex : String → String → String) where
  -- What the four tests of `beat` ask for.
  pub record Accepts (c : Config) (t : ℕ) (r : BeatRequest) (w : Window) : Type 0 where
    pub is_open : w.closed ≡ false
    pub in_order : r.seq ≡ w.beats + 1
    pub spaced : w.last_recv + c.min_spacing_ms ≤ t
    pub signed :
        r.hmac ≡ hmac_hex w.challenge (beat_message r.seq w.prev_hash (delta_text r.activity_delta))

  pub Accepts-of_accepted :
      (c : Config) (t : ℕ) (r : BeatRequest) (w w' : Window)
      → beat_window hmac_hex c t r w ≡ accepted w'
      → Accepts c t r w × (w' ≡ beaten t r w)
  unfolding beat_window
  Accepts-of_accepted c t r w w' e = ground (
    arith,
    safe_equal_iff r.hmac
        (hmac_hex w.challenge (beat_message r.seq w.prev_hash (delta_text r.activity_delta))),
  )

  pub accepted_of_Accepts :
      (c : Config) (t : ℕ) (r : BeatRequest) (w : Window)
      → Accepts c t r w
      → beat_window hmac_hex c t r w ≡ accepted (beaten t r w)
  unfolding beat_window
  accepted_of_Accepts c t r w a = ground (
    arith,
    safe_equal_iff r.hmac
        (hmac_hex w.challenge (beat_message r.seq w.prev_hash (delta_text r.activity_delta))),
  )

  -- A beat throws, or it writes the window that it names.
  pub beat_cases :
      (s : Store) (t : ℕ) (r : BeatRequest)
      → ((e : BeatError) × (beat hmac_hex s t r ≡ rejected e))
        ⊎ ((w : Window) × (w' : Window) × (get s.windows r.window_id ≡ some w)
            × (beat_window hmac_hex s.config t r w ≡ accepted w')
            × (beat hmac_hex s t r
                ≡ accepted (record s { windows = set s.windows r.window_id w' })))
  unfolding beat
  beat_cases s t r = elim (Option-cases (get s.windows r.window_id)) [
    | inl e ↦ inl (unknown_or_closed, rw (e, beat))
    | inr (w, e) ↦ elim (Beaten-cases (beat_window hmac_hex s.config t r w)) [
      | inl (why, q) ↦ inl (why, rw (e, q, beat))
      | inr (w', q) ↦ inr (w, w', e, q, rw (e, q, beat))
    ]
  ]

pub close_known :
    (s : Store) (t : ℕ) (id : String) (w : Window)
    → get s.windows id ≡ some w
    → close s t id ≡ (
      (close_window s.config t w).0,
      record s { windows = set s.windows id (close_window s.config t w).1 },
    )
unfolding close
close_known s t id w e = rw (e, close)

pub close_unknown :
    (s : Store) (t : ℕ) (id : String)
    → get s.windows id ≡ none
    → close s t id ≡ (no_credit unknown_window, s)
unfolding close
close_unknown s t id e = rw (e, close)

module _ (hmac_hex : String → String → String) where
  pub beat_of_accepted :
      (s : Store) (t : ℕ) (r : BeatRequest) (w w' : Window)
      → get s.windows r.window_id ≡ some w
      → beat_window hmac_hex s.config t r w ≡ accepted w'
      → beat hmac_hex s t r ≡ accepted (record s { windows = set s.windows r.window_id w' })
  unfolding beat
  beat_of_accepted s t r w w' e q = rw (e, q, beat)
