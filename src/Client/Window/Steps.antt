-- ===== src/Client/Window/Steps.antt =====
-- Which of its three moves a tick of src/client/window.mjs makes.
use luma_line.Prelude.{
  ℕ, ◌+◌, ◌≤◌, ◌<◌, ◌⊎◌, Bool-cases, str_eq, eq_iff, Option-cases, inl, inr, ◌≡◌, true, false,
  Option, some, arith, lt→ltb, le→ltb,
}
use luma_line.Server.Windows.{OpenReply, round_seconds}
use luma_line.Client.Window.{
  refuse, shown, ad_line, Ad, Envelope, opened, open_reply, label_or_default, Env, Cfg, ClientState,
  step, reopens, open_step, beat_step, close_step, same_activity,
}

module _ {W : Type 0} (env : Env W) (cfg : Cfg) (now clock : ℕ) (activity : Option ℕ)
    (cs : ClientState) (world : W) where
  reopens-in_dwell : now < cs.started_at + cs.dwell_ms → reopens env cfg now activity cs ≡ false
  unfolding reopens
  reopens-in_dwell h = ground arith

  reopens-in_cooldown :
      now < cs.started_at + (cs.dwell_ms + cfg.cooldown_ms)
      → reopens env cfg now activity cs ≡ false
  unfolding reopens
  reopens-in_cooldown h = ground arith

  reopens-idle :
      same_activity cs.last_activity_value activity ≡ true → reopens env cfg now activity cs ≡ false
  unfolding reopens
  reopens-idle same = ground arith

  reopens-cooled :
      cs.started_at + (cs.dwell_ms + cfg.cooldown_ms) ≤ now
      → same_activity cs.last_activity_value activity ≡ false
      → reopens env cfg now activity cs ≡ true
  unfolding reopens
  reopens-cooled h moved = ground arith

  -- Within the dwell a tick is a beat.
  pub step-beat :
      now < cs.started_at + cs.dwell_ms
      → step env cfg now clock activity (some cs) world ≡ beat_step env cfg now activity cs world
  unfolding step
  step-beat h = rw (reopens-in_dwell h, step) (rw (lt→ltb _ _ h))

  -- After the dwell and within the cooldown it is a close.
  pub step-close :
      cs.started_at + cs.dwell_ms ≤ now
      → now < cs.started_at + (cs.dwell_ms + cfg.cooldown_ms)
      → step env cfg now clock activity (some cs) world ≡ close_step env cfg cs world
  unfolding step
  step-close h h' = rw (reopens-in_cooldown h', step) (rw (le→ltb _ _ h))

  -- So it is later, while the activity stands still.
  pub step-idle :
      cs.started_at + cs.dwell_ms ≤ now
      → same_activity cs.last_activity_value activity ≡ true
      → step env cfg now clock activity (some cs) world ≡ close_step env cfg cs world
  unfolding step
  step-idle h same = rw (reopens-idle same, step) (rw (le→ltb _ _ h))

  -- After dwell and cooldown, where the activity has moved, it opens the next window.
  pub step-open :
      cs.started_at + (cs.dwell_ms + cfg.cooldown_ms) ≤ now
      → same_activity cs.last_activity_value activity ≡ false
      → step env cfg now clock activity (some cs) world ≡ open_step env cfg clock activity world
  unfolding step
  step-open h moved = rw (reopens-cooled h moved, step)

-- The state that an open leaves.
abbrev pub opened_with : OpenReply → Ad → ℕ → Option ℕ → ClientState
opened_with w ad clock activity = record {
  window_id = w.window_id;
  challenge = w.challenge;
  seq = 0;
  prev_hash = w.window_id;
  started_at = clock;
  dwell_ms = w.dwell_ms;
  hb_interval_ms = w.hb_interval_ms;
  line = ad.line;
  label = label_or_default ad.label;
  click_url = ad.click_url;
  reported = false;
  last_activity_value = activity;
}

module _ {W : Type 0} (env : Env W) (cfg : Cfg) (clock : ℕ) (activity : Option ℕ) (w : OpenReply)
    (e : Envelope) where
  -- A verified ad that names its window is taken up.
  pub open_reply_trusted :
      (ad : Ad)
      → env.verify_ad e ≡ true
      → env.parse_ad e.ad_data ≡ some ad
      → ad.window_id ≡ w.window_id
      → (open_reply env cfg clock activity (opened w e)).state
        ≡ some (opened_with w ad clock activity)
  unfolding open_reply
  open_reply_trusted ad v p same = rw (v, p, (eq_iff ad.window_id w.window_id).1 same, open_reply)

  -- An ad is shown only if its signature verifies, it parses and it names the window of its reply;
  -- then the line and the state are those of that ad. In every other case the tick refuses.
  pub open_reply_signed_only :
      (open_reply env cfg clock activity (opened w e) ≡ refuse)
      ⊎ ((ad : Ad) × (env.verify_ad e ≡ true)
          × (env.parse_ad e.ad_data ≡ some ad)
          × (ad.window_id ≡ w.window_id)
          × (let s = opened_with w ad clock activity in
              open_reply env cfg clock activity (opened w e)
              ≡ shown s (ad_line env.protocol_of s (round_seconds s.dwell_ms) cfg.show_url)))
  unfolding open_reply
  open_reply_signed_only = elim (Bool-cases (env.verify_ad e)) [
    | inr bad ↦ inl (rw (bad, open_reply))
    | inl good ↦ elim (Option-cases (env.parse_ad e.ad_data)) [
      | inl garbled ↦ inl (rw (good, garbled, open_reply))
      | inr (ad, q) ↦ elim (Bool-cases (str_eq ad.window_id w.window_id)) [
        | inr other ↦ inl (rw (good, q, other, open_reply))
        | inl same ↦
            inr (
              ad,
              good,
              q,
              (eq_iff ad.window_id w.window_id).0 same,
              rw (good, q, same, open_reply),
            )
      ]
    ]
  ]
