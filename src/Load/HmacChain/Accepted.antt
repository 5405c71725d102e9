-- ===== src/Load/HmacChain/Accepted.antt =====
-- The chain of scripts/load/lib/hmac-chain.mjs against the server of src/server/windows.mjs.
use luma_line.Prelude.{
  ℕ, ◌+◌, ◌≤◌, ◌≡◌, refl, String, Bool, false, ◌||◌, Option, none, some, List, [], ◌∷◌, arith, inl,
  inr, length,
}
use luma_line.Server.Windows.{
  Config, Window, BeatRequest, accepted, rejected, beat_window, beat_message, delta_text,
  shows_progress,
}
use luma_line.Server.Windows.Accept.{
  Accepts, Accepts-of_accepted, accepted_of_Accepts, beaten, Beaten-cases,
}

-- A beat with the time at which the server reads its clock for it.
abbrev pub Sent : Type 0
Sent = ℕ × BeatRequest

-- Each beat arrives at least the minimum spacing after the one before.
abbrev pub IsSpaced : Config → ℕ → List Sent → Type 0
IsSpaced c last [] = Unit
IsSpaced c last ((t, r) ∷ rs) = (last + c.min_spacing_ms ≤ t) × IsSpaced c t rs

-- Some beat reports activity.
abbrev pub shows_any : List Sent → Bool
shows_any [] = false
shows_any ((t, r) ∷ rs) = shows_progress r.activity_delta || shows_any rs

module _ (hmac_hex : String → String → String) where
  -- The server's side of a run of beats on one window: `none` once a beat is rejected.
  unfoldable pub feed : Config → List Sent → Window → Option Window
  feed c [] w = some w
  feed c ((t, r) ∷ rs) w = elim (beat_window hmac_hex c t r w) [
    | rejected e ↦ none
    | accepted w' ↦ feed c rs w'
  ]

  -- A chain: the sequence numbers run on from `n`, and each HMAC covers the one before.
  abbrev pub IsLinked : String → ℕ → String → List Sent → Type 0
  IsLinked challenge n prev [] = Unit
  IsLinked challenge n prev ((t, r) ∷ rs) =
      (r.seq ≡ n)
      × (r.hmac ≡ hmac_hex challenge (beat_message n prev (delta_text r.activity_delta)))
      × IsLinked challenge (n + 1) r.hmac rs

  -- Spaced and linked beats are all accepted by an open window.
  pub feed_of_chain :
      (c : Config) (rs : List Sent) (w : Window)
      → w.closed ≡ false
      → IsSpaced c w.last_recv rs
      → IsLinked w.challenge (w.beats + 1) w.prev_hash rs
      → (w' : Window) × (feed c rs w ≡ some w')
        × (w'.beats ≡ w.beats + length rs)
        × (w'.closed ≡ false)
        × (w'.started_at ≡ w.started_at)
        × (w'.activity_progress ≡ (w.activity_progress || shows_any rs))
  unfolding feed
  feed_of_chain c [] w o s l = (w, refl, omega arith, o, refl, ground arith)
  feed_of_chain c ((t, r) ∷ rs) w o s l =
      let a : Accepts hmac_hex c t r w = record {
        is_open = o;
        in_order = l.0;
        spaced = s.0;
        signed = rw l.0 l.1;
      } in
      let seq : r.seq ≡ w.beats + 1 = l.0 in
      let linked : IsLinked w.challenge (r.seq + 1) r.hmac rs = rw seq l.2 in
      let (w', e, b, cl, st, pr) = feed_of_chain c rs (beaten t r w) o s.1 linked in
      (w', rw (accepted_of_Accepts hmac_hex c t r w a, feed) e, omega arith, cl, st, ground arith)

  -- Beats that the server accepts one after the other are each spaced from the one before by at
  -- least the minimum spacing, carry consecutive numbers from the window's next one on, and are
  -- each signed over the hash of the one before.
  pub chain_of_feed :
      (c : Config) (rs : List Sent) (w w' : Window)
      → feed c rs w ≡ some w'
      → IsSpaced c w.last_recv rs × IsLinked w.challenge (w.beats + 1) w.prev_hash rs
  unfolding feed
  chain_of_feed c [] w w' e = (tt, tt)
  chain_of_feed c ((t, r) ∷ rs) w w' e = elim (Beaten-cases (beat_window hmac_hex c t r w)) [
    | inl (why, q) ↦ let none_some : none ≡ some w' = rw (q, feed) at e in cc
    | inr (v, q) ↦
        let (a, new) = Accepts-of_accepted hmac_hex c t r w v q in
        let e' : feed c rs v ≡ some w' = rw (q, feed) at e in
        let e'' : feed c rs (beaten t r w) ≡ some w' = rw new at e' in
        let (s, l) = chain_of_feed c rs (beaten t r w) w' e'' in
        ((a.spaced, s), (a.in_order, rw (← a.in_order) a.signed, rw (← a.in_order) l))
  ]
