-- ===== src/Server/Windows.antt =====
-- The window store, src/server/windows.mjs: open, beat and close over a map of windows.
-- A reading of the clock or of `randomId` is an argument; times are milliseconds, and a test on a
-- difference of times is written as a sum, so that a clock that runs backwards is read as it is.
pub mod Accept
pub mod Credit
pub mod Order
use luma_line.Prelude.{
  ℕ, ◌+◌, ◌-◌, ◌/◌, min, String, Bool, true, false, not, ◌&&◌, Option, none, some, List, [], ◌∷◌,
  ltb, ◌==◌, ◌!=◌, if◌then◌else◌, str_eq, truthy, show, ◌&◌,
}
use luma_line.Prelude.JsMap.{JsMap, get, set}
use Prim.Native.String.{len}

-- The options of `createWindowStore`.
pub record Config : Type 0 where
  pub dwell_ms : ℕ
  pub hb_interval_ms : ℕ
  pub min_beats : ℕ
  pub min_spacing_ms : ℕ

abbrev pub default_config : Config
default_config = record {
  dwell_ms = 5000;
  hb_interval_ms = 1000;
  min_beats = 3;
  min_spacing_ms = 500;
}

pub record Window : Type 0 where
  pub window_id : String
  pub session_id : Option String
  pub activity_snapshot : Option String
  pub challenge : String
  pub nonce : String
  pub started_at : ℕ
  pub last_recv : ℕ
  pub prev_hash : String
  pub beats : ℕ
  pub activity_progress : Bool
  pub closed : Bool
  pub credited : Bool

pub record Store : Type 0 where
  pub config : Config
  pub windows : JsMap Window

-- What one `open` draws: three random ids and two readings of the clock.
pub record Draw : Type 0 where
  pub window_id : String
  pub challenge : String
  pub nonce : String
  pub started_at : ℕ
  pub last_recv : ℕ

pub record OpenReply : Type 0 where
  pub window_id : String
  pub nonce : String
  pub challenge : String
  pub dwell_ms : ℕ
  pub hb_interval_ms : ℕ
  pub server_time : ℕ

-- The body of a beat; `none` is an absent `activityDelta`.
pub record BeatRequest : Type 0 where
  pub window_id : String
  pub seq : ℕ
  pub hmac : String
  pub activity_delta : Option String

-- What `beat` throws.
pub data BeatError : Type 0 where
  unknown_or_closed out_of_order anti_batch bad_hmac : BeatError

pub data Reason : Type 0 where
  unknown_window already_closed no_activity_progress dwell_too_short credited_ok : Reason
  too_few_beats : ℕ → Reason

pub record CloseReply : Type 0 where
  pub credited : Bool
  pub attention_seconds : ℕ
  pub reason : Reason

pub data Beaten (A : Type 0) : Type 0 where
  accepted : A → Beaten A
  rejected : BeatError → Beaten A

-- `safeEqual`: the lengths in bytes, then the bytes.
unfoldable pub safe_equal : String → String → Bool
safe_equal a b = (len a == len b) && str_eq a b

unfoldable pub fresh_window : Draw → Option String → Option String → Window
fresh_window d session snapshot = record {
  window_id = d.window_id;
  session_id = session;
  activity_snapshot = snapshot;
  challenge = d.challenge;
  nonce = d.nonce;
  started_at = d.started_at;
  last_recv = d.last_recv;
  prev_hash = d.window_id;
  beats = 0;
  activity_progress = false;
  closed = false;
  credited = false;
}

unfoldable pub open_window : Store → Draw → Option String → Option String → OpenReply × Store
unfolding fresh_window
open_window s d session snapshot = (
  record {
    window_id = d.window_id;
    nonce = d.nonce;
    challenge = d.challenge;
    dwell_ms = s.config.dwell_ms;
    hb_interval_ms = s.config.hb_interval_ms;
    server_time = d.started_at;
  },
  record s { windows = set s.windows d.window_id (fresh_window d session snapshot) },
)

-- How a template literal shows the delta.
abbrev pub delta_text : Option String → String
delta_text none = "undefined"
delta_text (some d) = d

-- `activityDelta && activityDelta !== 'none'`
abbrev pub shows_progress : Option String → Bool
shows_progress none = false
shows_progress (some d) = truthy d && not (str_eq d "none")

-- The bytes under a beat's HMAC.
unfoldable pub beat_message : ℕ → String → String → String
beat_message seq prev delta = show seq & "|" & prev & "|" & delta

-- `hmac_hex key message` is node:crypto's HMAC-SHA256 in hex.
module _ (hmac_hex : String → String → String) where
  unfoldable pub beat_window : Config → ℕ → BeatRequest → Window → Beaten Window
  beat_window c t r w =
      if w.closed
      then rejected unknown_or_closed
      else if r.seq != w.beats + 1
      then rejected out_of_order
      else if ltb t (w.last_recv + c.min_spacing_ms)
      then rejected anti_batch
      else if not (
          safe_equal r.hmac
            (hmac_hex w.challenge (beat_message r.seq w.prev_hash (delta_text r.activity_delta))))
      then rejected bad_hmac
      else accepted (record w {
        beats = r.seq;
        last_recv = t;
        prev_hash = r.hmac;
        activity_progress = if shows_progress r.activity_delta then true else w.activity_progress;
      })

  -- A call that throws leaves the store as it was.
  unfoldable pub beat : Store → ℕ → BeatRequest → Beaten Store
  unfolding beat_window
  beat s t r = elim (get s.windows r.window_id) [
    | none ↦ rejected unknown_or_closed
    | some w ↦ elim (beat_window s.config t r w) [
      | rejected e ↦ rejected e
      | accepted w' ↦ accepted (record s { windows = set s.windows r.window_id w' })
    ]
  ]

abbrev pub no_credit : Reason → CloseReply
no_credit why = record { credited = false; attention_seconds = 0; reason = why }

-- `Math.round(ms / 1000)`
abbrev pub round_seconds : ℕ → ℕ
round_seconds ms = (ms + 500) / 1000

-- The window comes back closed on every branch but the second.
unfoldable pub close_window : Config → ℕ → Window → CloseReply × Window
close_window c t w =
    if w.closed
    then (no_credit already_closed, w)
    else if ltb w.beats c.min_beats
    then (no_credit (too_few_beats w.beats), record w { closed = true })
    else if not w.activity_progress
    then (no_credit no_activity_progress, record w { closed = true })
    else if ltb t (w.started_at + c.dwell_ms)
    then (no_credit dwell_too_short, record w { closed = true })
    else (
      record {
        credited = true;
        attention_seconds = round_seconds (min (t - w.started_at) c.dwell_ms);
        reason = credited_ok;
      },
      record w { closed = true; credited = true },
    )

unfoldable pub close : Store → ℕ → String → CloseReply × Store
unfolding close_window
close s t id = elim (get s.windows id) [
  | none ↦ (no_credit unknown_window, s)
  | some w ↦
      let (reply, w') = close_window s.config t w in
      (reply, record s { windows = set s.windows id w' })
]

pub data Request : Type 0 where
  opens : Draw → Option String → Option String → Request
  beats : ℕ → BeatRequest → Request
  closes : ℕ → String → Request

module _ (hmac_hex : String → String → String) where
  -- The store after one request.
  unfoldable pub step : Store → Request → Store
  step s (opens d session snapshot) = (open_window s d session snapshot).1
  step s (beats t r) = elim (beat hmac_hex s t r) [ accepted s' ↦ s' | rejected e ↦ s ]
  step s (closes t id) = (close s t id).1

  unfoldable pub run : Store → List Request → Store
  unfolding step
  run s [] = s
  run s (r ∷ rs) = run (step s r) rs
