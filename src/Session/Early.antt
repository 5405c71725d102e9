-- ===== src/Session/Early.antt =====
-- What one beat that src/server/windows.mjs finds too early does to the session of
-- src/client/window.mjs.
use luma_line.Prelude.{◌+◌, ◌<◌, ◌≡◌, ◌∙◌, refl, ap, false, some, List, [], ◌∷◌, arith, All}
use luma_line.Prelude.JsMap.{get}
use luma_line.Server.Windows.{
  Window, BeatError, out_of_order, anti_batch, beat, beat_window, rejected,
}
use luma_line.Server.Handler.{Site, Server, handle_beat}
use luma_line.Client.Window.{Cfg, ClientState, next_beat}
use luma_line.Session.{Trust, Tick, tick, ticks}
use luma_line.Session.Sync.{IsSynced, IsBeatTime, tick-beat, beat_state, beat_body}

-- The client has counted more beats than the server.
pub record IsAhead (cs : ClientState) (s : Server) (w : Window) : Type 0 where
  pub held : get s.store.windows cs.window_id ≡ some w
  pub ahead : w.beats < cs.seq

module _ (site : Site) (trust : Trust) (cfg : Cfg) where
  rejected_keeps :
      (t : Tick) (cs : ClientState) (s : Server) (w : Window) (e : BeatError)
      → get s.store.windows cs.window_id ≡ some w
      → beat_window site.crypto.hmac_hex s.store.config t.at_server.now
          (beat_body site trust cfg t cs)
          w
        ≡ rejected e
      → (handle_beat site t.at_server (beat_body site trust cfg t cs) s).1 ≡ s
  unfolding handle_beat beat next_beat
  rejected_keeps t cs s w e g q = rw (g, q, handle_beat, beat)

  ahead_rejected :
      (t : Tick) (cs : ClientState) (s : Server) (w : Window)
      → w.closed ≡ false
      → w.beats < cs.seq
      → beat_window site.crypto.hmac_hex s.store.config t.at_server.now
          (beat_body site trust cfg t cs)
          w
        ≡ rejected out_of_order
  unfolding beat_window next_beat
  ahead_rejected t cs s w o h = ground arith

  early_rejected :
      (t : Tick) (cs : ClientState) (s : Server) (w : Window)
      → IsSynced cs s w
      → t.at_server.now < w.last_recv + s.store.config.min_spacing_ms
      → beat_window site.crypto.hmac_hex s.store.config t.at_server.now
          (beat_body site trust cfg t cs)
          w
        ≡ rejected anti_batch
  unfolding beat_window next_beat
  early_rejected t cs s w y h = ground arith

  -- Within the dwell, a client that is ahead of an open window leaves the server as it is.
  ahead_ticks :
      (ts : List Tick) (cs : ClientState) (s : Server) (w : Window)
      → IsAhead cs s w
      → w.closed ≡ false
      → All (λ t. IsBeatTime t cs) ts
      → (ticks site trust cfg ts (some cs) s).1 ≡ s
  unfolding ticks next_beat
  ahead_ticks [] cs s w a o h = refl
  ahead_ticks (t ∷ ts) cs s w a o h =
      let same = rejected_keeps t cs s w out_of_order a.held (ahead_rejected t cs s w o a.ahead) in
      let moved : tick site trust cfg t (some cs) s ≡ (some (beat_state site trust cfg t cs), s) =
        tick-beat site trust cfg t cs s h.0
        ∙ ap (λ x. (some (beat_state site trust cfg t cs), x)) same in
      let a' : IsAhead (beat_state site trust cfg t cs) s w = record {
        held = a.held;
        ahead = omega (arith, a.ahead);
      } in
      ap (λ x. (ticks site trust cfg ts x.0 x.1).1) moved
      ∙ ahead_ticks ts (beat_state site trust cfg t cs) s w a' o h.1

  -- One beat that reaches the server sooner than the minimum spacing after the one before is
  -- rejected, and so is every later beat of the dwell, however it is spaced: the client has counted
  -- the lost beat and the server has not, so the window gains nothing more.
  pub early_beat_silences :
      (t : Tick) (ts : List Tick) (cs : ClientState) (s : Server) (w : Window)
      → IsSynced cs s w
      → t.at_server.now < w.last_recv + s.store.config.min_spacing_ms
      → All (λ u. IsBeatTime u cs) (t ∷ ts)
      → (ticks site trust cfg (t ∷ ts) (some cs) s).1 ≡ s
  unfolding ticks next_beat
  early_beat_silences t ts cs s w y early h =
      let same = rejected_keeps t cs s w anti_batch y.held (early_rejected t cs s w y early) in
      let moved : tick site trust cfg t (some cs) s ≡ (some (beat_state site trust cfg t cs), s) =
        tick-beat site trust cfg t cs s h.0
        ∙ ap (λ x. (some (beat_state site trust cfg t cs), x)) same in
      let a : IsAhead (beat_state site trust cfg t cs) s w = record {
        held = y.held;
        ahead = omega (arith, y.same_seq);
      } in
      ap (λ x. (ticks site trust cfg ts x.0 x.1).1) moved
      ∙ ahead_ticks ts (beat_state site trust cfg t cs) s w a y.is_open h.1
