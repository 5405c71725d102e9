-- ===== src/Server/Windows/Order.antt =====
-- The well-formedness of the window store of src/server/windows.mjs, kept by every request.
use luma_line.Prelude.{
  ℕ, ◌+◌, ◌*◌, ◌≤◌, ◌≡◌, refl, ap, inl, inr, String, true, Option, some, List, [], ◌∷◌, arith,
  str_eq, eq_iff, Bool-cases, Option-cases,
}
use mathlib.Core.Path.{subst₂}
use luma_line.Prelude.JsMap.{get, set, get-set}
use luma_line.Server.Windows.Accept.{Accepts-of_accepted, beat_cases, close_known, close_unknown}
use luma_line.Server.Windows.{
  Config, Window, Store, Draw, Request, opens, beats, closes, accepted, close_window, fresh_window,
  open_window, beat_window, BeatRequest, step, run,
}

-- What holds of the window stored under `id`: its key, the least time that its beats took, and
-- what a credit rests on.
pub record IsSound (c : Config) (id : String) (w : Window) : Type 0 where
  pub keyed : w.window_id ≡ id
  pub spaced : w.started_at + w.beats * c.min_spacing_ms ≤ w.last_recv
  pub earned :
      w.credited ≡ true → (w.closed ≡ true) × (c.min_beats ≤ w.beats) × (w.activity_progress ≡ true)

abbrev pub IsValid : Store → Type 0
IsValid s = (id : String) (w : Window) → get s.windows id ≡ some w → IsSound s.config id w

-- An open reads the clock twice; it runs forward between the two.
abbrev pub RunsForward : Request → Type 0
RunsForward (opens d session snapshot) = d.started_at ≤ d.last_recv
RunsForward (beats t r) = Unit
RunsForward (closes t id) = Unit

abbrev pub AllRunForward : List Request → Type 0
AllRunForward [] = Unit
AllRunForward (r ∷ rs) = RunsForward r × AllRunForward rs

set-IsValid :
    (s : Store) (k : String) (v : Window)
    → IsValid s
    → IsSound s.config k v
    → IsValid (record s { windows = set s.windows k v })
set-IsValid s k v h hv id w e = elim (Bool-cases (str_eq k id)) [
  | inl same ↦
      subst₂ (IsSound s.config) ((eq_iff k id).0 same) (ground (arith, get-set s.windows k id v)) hv
  | inr other ↦ h id w (ground (arith, get-set s.windows k id v))
]

module _ (hmac_hex : String → String → String) where
  beat_window-IsSound :
      (c : Config) (t : ℕ) (r : BeatRequest) (id : String) (w w' : Window)
      → IsSound c id w
      → beat_window hmac_hex c t r w ≡ accepted w'
      → IsSound c id w'
  beat_window-IsSound c t r id w w' h e =
      let (a, q) = Accepts-of_accepted hmac_hex c t r w w' e in
      rw q (ground (arith, ap (λ n. n * c.min_spacing_ms) a.in_order))

close_window-IsSound :
    (c : Config) (t : ℕ) (id : String) (w : Window)
    → IsSound c id w
    → IsSound c id (close_window c t w).1
unfolding close_window
close_window-IsSound c t id w h = ground arith

fresh_window-IsSound :
    (c : Config) (d : Draw) (session snapshot : Option String)
    → d.started_at ≤ d.last_recv
    → IsSound c d.window_id (fresh_window d session snapshot)
unfolding fresh_window
fresh_window-IsSound c d session snapshot h = record {
  keyed = refl;
  spaced = grind arith;
  earned = λ e. cc;
}

module _ (hmac_hex : String → String → String) where
  -- Every request keeps the store well-formed, whatever it asks for and whether or not it fails.
  pub step-IsValid :
      (s : Store) (r : Request) → RunsForward r → IsValid s → IsValid (step hmac_hex s r)
  unfolding step open_window
  step-IsValid s (opens d session snapshot) f h =
      set-IsValid s d.window_id _ h (fresh_window-IsSound s.config d session snapshot f)
  step-IsValid s (beats t r) f h = elim (beat_cases hmac_hex s t r) [
    | inl (why, q) ↦ rw (q, step) h
    | inr (w, w', e, accept, q) ↦
        rw (q, step)
          (set-IsValid s r.window_id w' h
            (beat_window-IsSound hmac_hex s.config t r r.window_id w w' (h r.window_id w e) accept))
  ]
  step-IsValid s (closes t id) f h = elim (Option-cases (get s.windows id)) [
    | inl e ↦ rw (close_unknown s t id e, step) h
    | inr (w, e) ↦
        rw (close_known s t id w e, step)
          (set-IsValid s id _ h (close_window-IsSound s.config t id w (h id w e)))
  ]

  -- After any run of requests, from a well-formed store, every window is stored under its own id,
  -- has spent at least the minimum spacing on each beat, and is credited only if it is closed,
  -- has its minimum of beats and showed activity.
  pub run-IsValid :
      (s : Store) (rs : List Request) → AllRunForward rs → IsValid s → IsValid (run hmac_hex s rs)
  unfolding run
  run-IsValid s [] f h = h
  run-IsValid s (r ∷ rs) f h = run-IsValid (step hmac_hex s r) rs f.1 (step-IsValid s r f.0 h)
