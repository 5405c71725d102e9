-- ===== src/Session/Credited.antt =====
-- A full session of src/client/window.mjs with src/server/server.mjs earns its credit.
use luma_line.Prelude.{
  ℕ, ◌+◌, ◌≤◌, ◌<◌, ◌≡◌, ◌∙◌, refl, ap, subst, String, Bool, true, false, ◌||◌, Option, none, some,
  List, [], ◌∷◌, arith, length, All, if◌then◌else◌, ◌&◌,
}
use luma_line.Prelude.JsMap.{get, get-set_self}
use luma_line.Server.Windows.{Config, Window, shows_progress, close, fresh_window, open_window}
use luma_line.Server.Windows.Accept.{beaten}
use luma_line.Server.Windows.Credit.{close_earned, full_credit}
use luma_line.Server.Clicks.{mint}
use luma_line.Server.Handler.{
  Site, Server, Instant, close_route, closed_ok, handle, handle_open, handle_close, signed_ad,
  unkeyed, default_label,
}
use luma_line.Client.Window.{
  Cfg, Envelope, ClientState, next_beat, bucket_delta, open_step, step, close_step,
}
use luma_line.Client.Window.Steps.{step-close, open_reply_trusted}
use luma_line.Session.{Trust, Tick, settle, env_at, tick, ticks}
use luma_line.Session.Sync.{IsSynced, IsBeatTime, tick-IsSynced, beat_state, beat_body, with_window}

-- The beats reach the server no sooner than the minimum spacing after one another.
abbrev pub IsPaced : Config → ℕ → List Tick → Type 0
IsPaced c last [] = Unit
IsPaced c last (t ∷ ts) = (last + c.min_spacing_ms ≤ t.at_server.now) × IsPaced c t.at_server.now ts

-- Some tick reports activity, from the value `last` on.
abbrev pub shows_activity : Option ℕ → List Tick → Bool
shows_activity last [] = false
shows_activity last (t ∷ ts) =
    shows_progress (some (bucket_delta t.activity last)) || shows_activity t.activity ts

-- What a run of accepted beats leaves alone, and what it adds.
record IsExtended (n : ℕ) (active : Bool) (cs cs' : ClientState) (s s' : Server) (w w' : Window)
    : Type 0 where
  synced : IsSynced cs' s' w'
  same_id : cs'.window_id ≡ cs.window_id
  same_start : cs'.started_at ≡ cs.started_at
  same_dwell : cs'.dwell_ms ≡ cs.dwell_ms
  same_config : s'.store.config ≡ s.store.config
  same_open : w'.started_at ≡ w.started_at
  beats_added : w'.beats ≡ w.beats + n
  progress : w'.activity_progress ≡ (w.activity_progress || active)

or_step : (p b c : Bool) → ((if b then true else p) || c) ≡ (p || (b || c))
or_step true true c = refl
or_step true false c = refl
or_step false true c = refl
or_step false false c = refl

module _ (site : Site) (trust : Trust) (cfg : Cfg) where
  ticks-IsExtended :
      (ts : List Tick) (cs : ClientState) (s : Server) (w : Window)
      → IsSynced cs s w
      → All (λ t. IsBeatTime t cs) ts
      → IsPaced s.store.config w.last_recv ts
      → (cs' : ClientState) × (s' : Server) × (w' : Window) × (ticks site trust cfg ts (some cs) s
          ≡ (some cs', s'))
        × IsExtended (length ts) (shows_activity cs.last_activity_value ts) cs cs' s s' w w'
  unfolding ticks next_beat
  ticks-IsExtended [] cs s w y h p = (
    cs,
    s,
    w,
    refl,
    record {
      synced = y;
      same_id = refl;
      same_start = refl;
      same_dwell = refl;
      same_config = refl;
      same_open = refl;
      beats_added = omega arith;
      progress = ground arith;
    },
  )
  ticks-IsExtended (t ∷ ts) cs s w y h p =
      let (moved, y1) = tick-IsSynced site trust cfg t cs s w y h.0 p.0 in
      let cs1 = beat_state site trust cfg t cs in
      let w1 = beaten t.at_server.now (beat_body site trust cfg t cs) w in
      let s1 = with_window s cs.window_id w1 in
      let (cs', s', w', e, x) = ticks-IsExtended ts cs1 s1 w1 y1 h.1 p.1 in
      (
        cs',
        s',
        w',
        ap (λ x. ticks site trust cfg ts x.0 x.1) moved ∙ e,
        record {
          synced = x.synced;
          same_id = x.same_id;
          same_start = x.same_start;
          same_dwell = x.same_dwell;
          same_config = x.same_config;
          same_open = x.same_open;
          beats_added = omega (arith, x.beats_added, y.same_seq);
          progress = x.progress ∙ or_step w.activity_progress _ _;
        },
      )

  -- The signed body that the server's open sends for a window.
  abbrev pub sent_ad : Tick → String → Envelope
  sent_ad t token =
      let body = site.ad_json (signed_ad site t.at_server.draw.window_id token) in
      unkeyed body (site.sign body)

  -- The state file after an open.
  abbrev pub opened_state : Tick → String → Config → ClientState
  opened_state t token c = record {
    window_id = t.at_server.draw.window_id;
    challenge = t.at_server.draw.challenge;
    seq = 0;
    prev_hash = t.at_server.draw.window_id;
    started_at = t.clock;
    dwell_ms = c.dwell_ms;
    hb_interval_ms = c.hb_interval_ms;
    line = site.ad.line;
    label = default_label site.ad.label;
    click_url = site.base & "/c/" & token;
    reported = false;
    last_activity_value = t.activity;
  }

  abbrev pub opened_window : Tick → Window
  opened_window t = fresh_window t.at_server.draw (some cfg.session_id) (some "session")

  -- The server's ad verifies under the client's keys, and says what was signed.
  pub record IsTrusted (t : Tick) (token : String) : Type 0 where
    pub verifies : trust.verify_ad (sent_ad t token) ≡ true
    pub parses :
        trust.parse_ad (sent_ad t token).ad_data
        ≡ some (signed_ad site t.at_server.draw.window_id token)

  abbrev pub Mints : Tick → Server → String → Type 0
  Mints t s token =
      mint site.crypto s.clicks t.at_server.now t.at_server.draw.window_id site.ad.ad_id
        site.ad.dest
      ≡ some token

  tick-open :
      (t : Tick) (s : Server) (token : String)
      → Mints t s token
      → IsTrusted t token
      → (let s' = with_window s t.at_server.draw.window_id (opened_window t) in
          (tick site trust cfg t none s ≡ (some (opened_state t token s.store.config), s'))
          × IsSynced (opened_state t token s.store.config) s' (opened_window t))
  unfolding tick step open_step handle handle_open open_window fresh_window
  tick-open t s token m v = (
    rw (m, handle_open)
        (ap (λ x. (x, with_window s t.at_server.draw.window_id (opened_window t)))
          (open_reply_trusted (env_at site trust cfg t.at_server) cfg t.clock t.activity _
            (sent_ad t token) (signed_ad site t.at_server.draw.window_id token) v.verifies v.parses
            refl)),
    record {
      held = get-set_self s.store.windows t.at_server.draw.window_id _;
      is_open = refl;
      same_challenge = refl;
      same_seq = refl;
      same_hash = refl;
      unreported = refl;
    },
  )

  tick-close :
      (t : Tick) (cs : ClientState) (s : Server)
      → cs.reported ≡ false
      → cs.started_at + cs.dwell_ms ≤ t.now
      → t.now < cs.started_at + (cs.dwell_ms + cfg.cooldown_ms)
      → (tick site trust cfg t (some cs) s).1
        ≡ (handle site t.at_server (close_route cs.window_id) s).1
  unfolding tick close_step
  tick-close t cs s open_still late soon =
      ap (λ r. (settle (some cs) r).1)
        (step-close (env_at site trust cfg t.at_server) cfg t.now t.clock t.activity cs s late soon)
      ∙ rw (open_still, close_step)

  close_answer :
      (i : Instant) (id : String) (s : Server) (c : Config)
      → (close s.store i.now id).0 ≡ full_credit c
      → (handle site i (close_route id) s).0 ≡ closed_ok (full_credit c)
  unfolding handle handle_close
  close_answer i id s c h = ap closed_ok h

  -- A session that opens with a minted and trusted ad, beats within the client's dwell at the
  -- server's pace, no fewer times than the server asks and with activity at least once, and whose
  -- next tick comes after the dwell on both clocks and before the cooldown ends, posts a close on
  -- that tick, which the server answers with credit for the whole dwell.
  pub honest_session_credited :
      (open_tick close_tick : Tick) (beat_ticks : List Tick) (s : Server) (token : String)
      → Mints open_tick s token
      → IsTrusted open_tick token
      → All (λ t. t.now < open_tick.clock + s.store.config.dwell_ms) beat_ticks
      → IsPaced s.store.config open_tick.at_server.draw.last_recv beat_ticks
      → s.store.config.min_beats ≤ length beat_ticks
      → shows_activity open_tick.activity beat_ticks ≡ true
      → open_tick.clock + s.store.config.dwell_ms ≤ close_tick.now
      → close_tick.now < open_tick.clock + (s.store.config.dwell_ms + cfg.cooldown_ms)
      → open_tick.at_server.draw.started_at + s.store.config.dwell_ms ≤ close_tick.at_server.now
      → (let (cs', s') = ticks site trust cfg (open_tick ∷ beat_ticks) none s in
          let close_call =
            handle site close_tick.at_server (close_route open_tick.at_server.draw.window_id) s' in
          ((tick site trust cfg close_tick cs' s').1 ≡ close_call.1)
          × (close_call.0 ≡ closed_ok (full_credit s.store.config)))
  unfolding ticks fresh_window
  honest_session_credited t0 tc ts s token m v dwell pace enough act late soon served =
      let (moved, y) = tick-open t0 s token m v in
      let cs0 = opened_state t0 token s.store.config in
      let s0 = with_window s t0.at_server.draw.window_id (opened_window t0) in
      let (cs', s', w', e, x) = ticks-IsExtended ts cs0 s0 (opened_window t0) y dwell pace in
      let all : ticks site trust cfg (t0 ∷ ts) none s ≡ (some cs', s') =
        ap (λ r. ticks site trust cfg ts r.0 r.1) moved ∙ e in
      let id = t0.at_server.draw.window_id in
      let held : get s'.store.windows id ≡ some w' =
        subst (λ k. get s'.store.windows k ≡ some w') x.same_id x.synced.held in
      rw all (
        subst
            (λ k.
              (tick site trust cfg tc (some cs') s').1
              ≡ (handle site tc.at_server (close_route k) s').1)
            x.same_id
            (tick-close tc cs' s' x.synced.unreported (omega (arith, x.same_start, x.same_dwell))
              (omega (arith, x.same_start, x.same_dwell))),
        close_answer tc.at_server id s' s.store.config (
            close_earned s'.store tc.at_server.now id w' s.store.config held x.same_config
              x.synced.is_open (omega (arith, x.beats_added)) (x.progress ∙ act)
              (omega (arith, x.same_open))),
      )
