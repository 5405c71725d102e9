-- ===== src/Client/Window.antt =====
-- One tick of the window protocol, src/client/window.mjs: open, then beats, then one close.
-- What the client is given (the poster, the ad verifier, node:crypto, JSON.parse and new URL) is
-- an environment over a world `W`. A cost is counted in millionths, so that 'low' (less than one)
-- is seen; no difference of times or costs is computed where it could fall below 0.
pub mod Steps
use luma_line.Prelude.{
  ℕ, ◌+◌, ◌-◌, ◌*◌, ◌/◌, String, Bool, true, false, not, ◌&&◌, Option, none, some, ltb, leb, ◌==◌,
  if◌then◌else◌, str_eq, show, ◌&◌,
}
use luma_line.Url.{safe_click_url}
use luma_line.Server.Windows.{OpenReply, BeatRequest, beat_message, round_seconds}

-- What the signed payload of an open says; `label` may be left out.
pub record Ad : Type 0 where
  pub window_id : String
  pub line : String
  pub label : Option String
  pub click_url : String

-- `adData`, `sig` and `keyid` of a reply.
pub record Envelope : Type 0 where
  pub ad_data : String
  pub sig : String
  pub keyid : Option String

-- The calls that a tick posts.
pub data Post : Type 0 where
  window_open : String → Post
  window_beat : BeatRequest → Post
  window_close : String → Post

-- A body that opens a window, or any other body (an error, or the answer to a beat or a close).
pub data Reply : Type 0 where
  opened : OpenReply → Envelope → Reply
  plain : Reply

-- `post` gives `none` where it throws.
pub record Env (W : Type 0) : Type 0 where
  pub hmac_hex : String → String → String
  pub protocol_of : String → Option String
  pub verify_ad : Envelope → Bool
  pub parse_ad : String → Option Ad
  pub post : Post → W → Option Reply × W

pub record Cfg : Type 0 where
  pub cooldown_ms : ℕ
  pub show_url : Bool
  pub session_id : String

pub record ClientState : Type 0 where
  pub window_id : String
  pub challenge : String
  pub seq : ℕ
  pub prev_hash : String
  pub started_at : ℕ
  pub dwell_ms : ℕ
  pub hb_interval_ms : ℕ
  pub line : String
  pub label : String
  pub click_url : String
  pub reported : Bool
  pub last_activity_value : Option ℕ

pub record StepResult : Type 0 where
  pub state : Option ClientState
  pub status : Option String
  pub click_url : Option String
  pub verify_fail : Bool

abbrev pub million : ℕ
million = 1_000_000

unfoldable pub bucket_delta : Option ℕ → Option ℕ → String
bucket_delta none last = "none"
bucket_delta (some a) none = "med"
bucket_delta (some a) (some l) =
    if leb a l
    then "none"
    else if ltb a (l + million)
    then "low"
    else if ltb a (l + 100 * million)
    then "med"
    else "high"

abbrev pub same_activity : Option ℕ → Option ℕ → Bool
same_activity none none = true
same_activity none (some l) = false
same_activity (some a) none = false
same_activity (some a) (some l) = a == l

abbrev label_or_default : Option String → String
label_or_default none = "sponsored"
label_or_default (some l) = l

abbrev url_part : Option String → String
url_part none = ""
url_part (some u) = "  ·  " & u

-- `★ <line>  ·  <url>  ·  <label> (Ns)`
unfoldable pub ad_line : (String → Option String) → ClientState → ℕ → Bool → String
ad_line protocol_of s left show_url =
    "★ "
    & s.line
    & url_part (if show_url then safe_click_url protocol_of s.click_url else none)
    & "  ·  "
    & s.label
    & " ("
    & show left
    & "s)"

abbrev pub refuse : StepResult
refuse = record { state = none; status = none; click_url = none; verify_fail = true }

abbrev pub shown : ClientState → String → StepResult
shown s text = record {
  state = some s;
  status = some text;
  click_url = some s.click_url;
  verify_fail = false;
}

-- `Math.ceil(ms / 1000)`
abbrev pub ceil_seconds : ℕ → ℕ
ceil_seconds ms = (ms + 999) / 1000

module _ {W : Type 0} (env : Env W) (cfg : Cfg) where
  -- What is made of a reply to `/window/open`. `clock` is the second reading, after the round trip.
  unfoldable pub open_reply : ℕ → Option ℕ → Reply → StepResult
  unfolding ad_line
  open_reply clock activity plain = refuse
  open_reply clock activity (opened w e) =
      if not (env.verify_ad e) then refuse else elim (env.parse_ad e.ad_data) [
        | none ↦ refuse
        | some ad ↦
            if not (str_eq ad.window_id w.window_id)
            then refuse
            else (let s : ClientState = record {
              window_id = w.window_id;
              challenge = w.challenge;
              seq = 0;
              prev_hash = w.window_id;
              started_at = clock;
              dwell_ms = w.dwell_ms;
              hb_interval_ms = w.hb_interval_ms;
              line = ad.line;
              label = label_or_default ad.label;
              click_url = ad.click_url;
              reported = false;
              last_activity_value = activity;
            } in
                shown s (ad_line env.protocol_of s (round_seconds s.dwell_ms) cfg.show_url))
      ]

  -- The tick that opens a window; a throw of `post` is the tick's.
  unfoldable pub open_step : ℕ → Option ℕ → W → Option StepResult × W
  open_step clock activity world =
      let (reply, world') = env.post (window_open cfg.session_id) world in
      elim reply [ none ↦ (none, world') | some r ↦ (some (open_reply clock activity r), world') ]

  unfoldable pub next_beat : Option ℕ → ClientState → BeatRequest
  next_beat activity s = record {
    window_id = s.window_id;
    seq = s.seq + 1;
    hmac =
        env.hmac_hex s.challenge
          (beat_message (s.seq + 1) s.prev_hash (bucket_delta activity s.last_activity_value));
    activity_delta = some (bucket_delta activity s.last_activity_value);
  }

  -- The client's chain moves on whatever the body of the answer says.
  unfoldable pub beat_step : ℕ → Option ℕ → ClientState → W → Option StepResult × W
  unfolding next_beat ad_line
  beat_step now activity s world =
      let r = next_beat activity s in
      let (reply, world') = env.post (window_beat r) world in
      let s' : ClientState = record s {
        seq = r.seq;
        prev_hash = r.hmac;
        last_activity_value = activity;
      } in
      elim reply [
        | none ↦ (none, world')
        | some body ↦ (
          some (
              shown s' (
                ad_line env.protocol_of s' (ceil_seconds (s.started_at + s.dwell_ms - now))
                  cfg.show_url)),
          world',
        )
      ]

  abbrev quiet : ClientState → StepResult
  quiet s = record { state = some s; status = none; click_url = none; verify_fail = false }

  -- The close is posted once; a throw of it is swallowed.
  unfoldable pub close_step : ClientState → W → Option StepResult × W
  close_step s world = if s.reported then (some (quiet s), world) else (
    some (quiet (record s { reported = true })),
    (env.post (window_close s.window_id) world).1,
  )

  -- `cooled && activeSince`
  unfoldable pub reopens : ℕ → Option ℕ → ClientState → Bool
  reopens now activity s =
      leb (s.started_at + (s.dwell_ms + cfg.cooldown_ms)) now
      && not (same_activity s.last_activity_value activity)

  unfoldable pub step : ℕ → ℕ → Option ℕ → Option ClientState → W → Option StepResult × W
  step now clock activity none world = open_step clock activity world
  step now clock activity (some s) world =
      if reopens now activity s
      then open_step clock activity world
      else if ltb now (s.started_at + s.dwell_ms)
      then beat_step now activity s world
      else close_step s world
