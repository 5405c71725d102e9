-- ===== src/Load/HmacChain/Credited.antt =====
-- The windows that scripts/load/lib/hmac-chain.mjs drives through src/server/windows.mjs.
use luma_line.Prelude.{
  ℕ, zero, suc, ◌+◌, ◌≤◌, ◌≡◌, ◌≢◌, refl, ◌∙◌, ap, sym, subst, String, true, Option, none, some,
  List, [], ◌∷◌, map, arith, inl, inr, ◌==◌, Bool-cases, length,
}
use luma_line.Prelude.JsMap.{get, set, get-set_self}
use luma_line.Server.Windows.{
  Request, Config, Store, Draw, Window, beat_window, beat, beats, step, run, close, open_window,
  fresh_window, shows_progress, beat_message,
}
use luma_line.Server.Windows.Credit.{full_credit, close_earned}
use luma_line.Server.Windows.Accept.{Beaten-cases}
use luma_line.Load.HmacChain.{
  ChainBeat, is_bucket, build_from, build_chain, beat_hmac, default_activity,
}
use luma_line.Load.HmacChain.Accepted.{Sent, IsSpaced, IsLinked, feed, feed_of_chain, shows_any}

-- The beat that the harness posts for one link, and when the server reads its clock for it.
abbrev pub sent : String → (ℕ → ℕ) → ChainBeat → Sent
sent id at b = (
  at b.seq,
  record { window_id = id; seq = b.seq; hmac = b.hmac; activity_delta = some b.activity },
)

abbrev pub as_request : Sent → Request
as_request (t, r) = beats t r

abbrev Targets : String → List Sent → Type 0
Targets id [] = Unit
Targets id ((t, r) ∷ rs) = (r.window_id ≡ id) × Targets id rs

-- The window that a store holds under `id`, and its configuration.
abbrev Ends : String → Config → Window → Store → Type 0
Ends id c w s = (get s.windows id ≡ some w) × (s.config ≡ c)

module _ (hmac_hex : String → String → String) where
  -- The store and the window alone agree on a run of accepted beats.
  run-feed :
      (id : String) (rs : List Sent) (s : Store) (w w' : Window)
      → Targets id rs
      → get s.windows id ≡ some w
      → feed hmac_hex s.config rs w ≡ some w'
      → Ends id s.config w' (run hmac_hex s (map as_request rs))
  unfolding feed run beat step
  run-feed id [] s w w' g e f = (e ∙ f, refl)
  run-feed id ((t, r) ∷ rs) s w w' g e f =
      elim (Beaten-cases (beat_window hmac_hex s.config t r w)) [
        | inl (why, q) ↦ let none_some : none ≡ some w' = rw (q, feed) at f in cc
        | inr (v, q) ↦
            let f' : feed hmac_hex s.config rs v ≡ some w' = rw (q, feed) at f in
            let known : get s.windows r.window_id ≡ some w = rw g.0 e in
            let s' : Store = record s { windows = set s.windows r.window_id v } in
            let found : get s'.windows id ≡ some v =
              subst (λ k. get s'.windows k ≡ some v) g.0 (get-set_self s.windows r.window_id v) in
            let moved : step hmac_hex s (beats t r) ≡ s' = rw (known, q, beat, step) in
            subst (λ x. Ends id s.config w' (run hmac_hex x (map as_request rs))) (sym moved)
              (run-feed id rs s' v w' g.1 found f')
      ]

default_bucket : (seq : ℕ) → is_bucket (default_activity seq) ≡ true
unfolding is_bucket default_activity
default_bucket seq = elim (Bool-cases (seq == 1)) [
  | inl one ↦ rw (one, default_activity)
  | inr later ↦ rw (later, default_activity)
]

module _ (hmac_hex : String → String → String) (c : Config) (id challenge : String) (at : ℕ → ℕ)
    (pick : ℕ → String) (buckets : (k : ℕ) → is_bucket (pick k) ≡ true)
    (paced : (k : ℕ) → at k + c.min_spacing_ms ≤ at (k + 1)) where
  -- Where every activity is a bucket the chain is built, is as long as asked for, is linked and
  -- addressed to its window, and keeps the pace of its times.
  build_from_total :
      (n seq last : ℕ) (prev : String)
      → last + c.min_spacing_ms ≤ at seq
      → (bs : List ChainBeat) × (build_from hmac_hex challenge pick n seq prev ≡ some bs)
        × IsLinked hmac_hex challenge seq prev (map (sent id at) bs)
        × (length (map (sent id at) bs) ≡ n)
        × Targets id (map (sent id at) bs)
        × IsSpaced c last (map (sent id at) bs)
        × (n ≢ 0 → shows_progress (some (pick seq)) ≡ true → shows_any (map (sent id at) bs) ≡ true)
  unfolding build_from
  build_from_total zero seq last prev h = ([], refl, tt, refl, tt, tt, λ h. absurd (h refl))
  build_from_total (suc n) seq last prev h =
      let hmac = hmac_hex challenge (beat_message seq prev (pick seq)) in
      let signed : beat_hmac hmac_hex seq prev (pick seq) challenge ≡ some hmac =
        rw (buckets seq, beat_hmac) in
      let (bs, e, l, len, to, sp, _) = build_from_total n (seq + 1) (at seq) hmac (paced seq) in
      (
        record { seq = seq; prev = prev; activity = pick seq; hmac = hmac } ∷ bs,
        rw (signed, e, build_from),
        (refl, refl, l),
        ap suc len,
        (refl, to),
        (h, sp),
        λ _ p. rw p,
      )

-- A window that the harness drives earns: opened in any store, fed the beats that `buildChain`
-- makes for it (at least one, and no fewer than the server's minimum), the first no sooner than
-- the minimum spacing after the open and each no sooner than that after the one before, and closed
-- once the dwell has elapsed, it is credited for the whole dwell.
pub harness_window_credited :
    (hmac_hex : String → String → String) (s : Store) (d : Draw) (session snapshot : Option String)
    (count : ℕ) (at : ℕ → ℕ) (t : ℕ)
    → d.last_recv + s.config.min_spacing_ms ≤ at 1
    → ((k : ℕ) → at k + s.config.min_spacing_ms ≤ at (k + 1))
    → count ≢ 0
    → s.config.min_beats ≤ count
    → d.started_at + s.config.dwell_ms ≤ t
    → (bs : List ChainBeat) × (build_chain hmac_hex d.window_id d.challenge count default_activity
        ≡ some bs)
      × ((close
            (run hmac_hex
              (open_window s d session snapshot).1
              (map as_request (map (sent d.window_id at) bs)))
            t
            d.window_id).0
          ≡ full_credit s.config)
unfolding build_chain open_window default_activity
harness_window_credited hmac_hex s d session snapshot count at t first paced some_beat enough
      dwelt =
    let s1 = (open_window s d session snapshot).1 in
    let w = fresh_window d session snapshot in
    let (bs, e, l, len, to, sp, act) =
      build_from_total hmac_hex s.config d.window_id d.challenge at default_activity default_bucket
        paced count 1 d.last_recv d.window_id first in
    let sends = map (sent d.window_id at) bs in
    let (w', f, b, o, st, pr) = feed_of_chain hmac_hex s.config sends w refl sp l in
    let (g, cf) =
      run-feed hmac_hex d.window_id sends s1 w w' to (get-set_self s.windows d.window_id w) f in
    (
      bs,
      e,
      close_earned _ t d.window_id w' s.config g cf o (ground arith) (rw pr (act some_beat refl))
          (rw st dwelt),
    )
