-- ===== src/Session/Sync.antt =====
-- The chain of src/client/window.mjs and that of src/server/windows.mjs, tick by tick.
use luma_line.Prelude.{◌+◌, ◌≤◌, ◌<◌, ◌≡◌, refl, ap, ◌∙◌, String, false, some}
use luma_line.Prelude.JsMap.{get, set, get-set_self}
use luma_line.Server.Windows.{Window, BeatRequest, beat, accepted}
use luma_line.Server.Windows.Accept.{Accepts, accepted_of_Accepts, beaten, beat_of_accepted}
use luma_line.Server.Handler.{Site, Server, handle, handle_beat}
use luma_line.Client.Window.{Cfg, ClientState, next_beat, beat_step}
use luma_line.Client.Window.Steps.{step-beat}
use luma_line.Session.{Trust, Tick, settle, env_at, tick}

-- The client's state file follows the open window that the server holds for it.
pub record IsSynced (cs : ClientState) (s : Server) (w : Window) : Type 0 where
  pub held : get s.store.windows cs.window_id ≡ some w
  pub is_open : w.closed ≡ false
  pub same_challenge : cs.challenge ≡ w.challenge
  pub same_seq : cs.seq ≡ w.beats
  pub same_hash : cs.prev_hash ≡ w.prev_hash
  pub unreported : cs.reported ≡ false

-- Within the dwell a tick posts a beat.
abbrev pub IsBeatTime : Tick → ClientState → Type 0
IsBeatTime t cs = t.now < cs.started_at + cs.dwell_ms

abbrev pub with_window : Server → String → Window → Server
with_window s id w = record s { store = record s.store { windows = set s.store.windows id w } }

module _ (site : Site) (trust : Trust) (cfg : Cfg) where
  -- The state file after a beat.
  abbrev pub beat_state : Tick → ClientState → ClientState
  beat_state t cs =
      let r = next_beat (env_at site trust cfg t.at_server) cfg t.activity cs in
      record cs { seq = r.seq; prev_hash = r.hmac; last_activity_value = t.activity }

  abbrev pub beat_body : Tick → ClientState → BeatRequest
  beat_body t cs = next_beat (env_at site trust cfg t.at_server) cfg t.activity cs

  -- Within the dwell a tick is a beat, whatever the server makes of it.
  pub tick-beat :
      (t : Tick) (cs : ClientState) (s : Server)
      → IsBeatTime t cs
      → tick site trust cfg t (some cs) s
        ≡ (some (beat_state t cs), (handle_beat site t.at_server (beat_body t cs) s).1)
  unfolding tick handle beat_step
  tick-beat t cs s h =
      ap (λ r. settle (some cs) r)
        (step-beat (env_at site trust cfg t.at_server) cfg t.now t.clock t.activity cs s h)

  beat_body-Accepts :
      (t : Tick) (cs : ClientState) (s : Server) (w : Window)
      → IsSynced cs s w
      → w.last_recv + s.store.config.min_spacing_ms ≤ t.at_server.now
      → Accepts site.crypto.hmac_hex s.store.config t.at_server.now (beat_body t cs) w
  unfolding next_beat
  beat_body-Accepts t cs s w y h = record {
    is_open = y.is_open;
    in_order = cc y.same_seq;
    spaced = h;
    signed = cc (y.same_challenge, y.same_seq, y.same_hash);
  }

  -- A beat that arrives no sooner than the minimum spacing is accepted, and keeps the two in step.
  pub tick-IsSynced :
      (t : Tick) (cs : ClientState) (s : Server) (w : Window)
      → IsSynced cs s w
      → IsBeatTime t cs
      → w.last_recv + s.store.config.min_spacing_ms ≤ t.at_server.now
      → (let w' = beaten t.at_server.now (beat_body t cs) w in
          let s' = with_window s cs.window_id w' in
          (tick site trust cfg t (some cs) s ≡ (some (beat_state t cs), s'))
          × IsSynced (beat_state t cs) s' w')
  unfolding handle_beat next_beat
  tick-IsSynced t cs s w y h sp =
      let a = beat_body-Accepts t cs s w y sp in
      let w' = beaten t.at_server.now (beat_body t cs) w in
      let ok : beat site.crypto.hmac_hex s.store t.at_server.now (beat_body t cs)
          ≡ accepted (record s.store { windows = set s.store.windows cs.window_id w' }) =
        beat_of_accepted _ _ _ _ w w' y.held (
          accepted_of_Accepts site.crypto.hmac_hex s.store.config t.at_server.now (beat_body t cs) w
            a) in
      (
        tick-beat t cs s h ∙ ap (λ x. (some (beat_state t cs), x)) (rw (ok, handle_beat)),
        record {
          held = get-set_self s.store.windows cs.window_id w';
          is_open = y.is_open;
          same_challenge = y.same_challenge;
          same_seq = refl;
          same_hash = refl;
          unreported = y.unreported;
        },
      )
