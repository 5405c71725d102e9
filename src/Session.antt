-- ===== src/Session.antt =====
-- The client of src/client/window.mjs against the server of src/server/server.mjs, tick by tick:
-- what src/statusline.mjs does with the state around each step, and the poster in between.
pub mod Sync
pub mod Credited
pub mod Early
use luma_line.Prelude.{ℕ, String, Bool, Option, none, some, List, [], ◌∷◌}
use luma_line.Server.Windows.{Draw}
use luma_line.Server.Handler.{
  Site, Server, Instant, Route, Response, opened_ok, signed_ok, beat_ok, beat_rejected,
  token_rejected, invalid_click, not_found, internal, closed_ok, found, open_route, beat_route,
  close_route, handle,
}
use luma_line.Client.Window.{
  Ad, Envelope, Post, window_open, window_beat, window_close, Reply, opened, plain, Env, Cfg,
  ClientState, StepResult, step,
}

-- The client's side of the trust: the verifier over its keyring, JSON.parse, new URL.
pub record Trust : Type 0 where
  pub verify_ad : Envelope → Bool
  pub parse_ad : String → Option Ad

-- One tick: the client's clock before and after the round trip, the activity it reads, and what the
-- server reads while it serves the tick's post.
pub record Tick : Type 0 where
  pub now : ℕ
  pub clock : ℕ
  pub activity : Option ℕ
  pub at_server : Instant

abbrev pub route_of : Post → Route
route_of (window_open id) = open_route (some id) (some "session")
route_of (window_beat r) = beat_route r
route_of (window_close id) = close_route id

-- The poster hands over the body whatever the status; only an opened window has a signed payload.
abbrev pub reply_of : Response → Reply
reply_of (opened_ok w e) = opened w e
reply_of (signed_ok e) = plain
reply_of beat_ok = plain
reply_of beat_rejected = plain
reply_of token_rejected = plain
reply_of invalid_click = plain
reply_of not_found = plain
reply_of internal = plain
reply_of (closed_ok r) = plain
reply_of (found u) = plain

-- A step that throws saves nothing; else the state file takes the step's state.
abbrev pub settle : Option ClientState → Option StepResult × Server → Option ClientState × Server
settle cs (none, s) = (cs, s)
settle cs (some res, s) = (res.state, s)

module _ (site : Site) (trust : Trust) (cfg : Cfg) where
  abbrev pub env_at : Instant → Env Server
  env_at i = record {
    hmac_hex = site.crypto.hmac_hex;
    protocol_of = site.crypto.protocol_of;
    verify_ad = trust.verify_ad;
    parse_ad = trust.parse_ad;
    post =
        λ p s. (some (reply_of (handle site i (route_of p) s).0), (handle site i (route_of p) s).1);
  }

  unfoldable pub tick : Tick → Option ClientState → Server → Option ClientState × Server
  tick t cs s = settle cs (step (env_at t.at_server) cfg t.now t.clock t.activity cs s)

  unfoldable pub ticks : List Tick → Option ClientState → Server → Option ClientState × Server
  unfolding tick
  ticks [] cs s = (cs, s)
  ticks (t ∷ ts) cs s = let (cs', s') = tick t cs s in ticks ts cs' s'
