-- ===== src/Tests/Session.antt =====
-- Sessions of the client with the server on concrete inputs.
use luma_line.Prelude.{
  ℕ, ◌≡◌, ◌⊎◌, refl, true, false, none, some, List, [], ◌∷◌, arith, ◌&◌, str_eq,
}
use luma_line.Prelude.JsMap.{get}
use luma_line.Server.Windows.{default_config, Window, OpenReply}
use luma_line.Server.Windows.Credit.{full_credit}
use luma_line.Server.Clicks.{Crypto, mint}
use luma_line.Server.Handler.{Site, SiteAd, Server, Instant, handle, close_route, closed_ok}
use luma_line.Client.Window.{
  Ad, Envelope, Cfg, ClientState, opened, open_reply, refuse, shown, ad_line, bucket_delta,
}
use luma_line.Client.Window.Steps.{open_reply_signed_only, opened_with}
use luma_line.Session.{Trust, Tick, tick, ticks, env_at}
use luma_line.Session.Sync.{IsSynced}
use luma_line.Session.Credited.{honest_session_credited, IsTrusted}
use luma_line.Session.Early.{early_beat_silences}

abbrev crypto : Crypto
crypto = record {
  hmac_hex = λ key p. key & "/" & p;
  encode = λ d. "p";
  decode = λ p. none;
  protocol_of = λ u. some "https:";
}

abbrev site_ad : SiteAd
site_ad = record {
  ad_id = "a";
  line = "hello";
  label = none;
  dest = "https://x";
  duration_ms = 5000;
}

abbrev site : Site
site = record {
  crypto = crypto;
  sign = λ body. "sig" & body;
  ad_json = λ ad. ad.window_id;
  line_json = λ ad. ad.line;
  feed_json = λ ad at. ad.line;
  base = "http://h";
  ad = site_ad;
}

abbrev server : Server
server = record {
  store = record { config = default_config; windows = [] };
  clicks = record { secret = "k"; ttl_ms = 600000; seen = [] };
}

-- The toy JSON of an ad is its window id, so it parses to the ad of the token "p.k/p".
abbrev trust : Trust
trust = record {
  verify_ad = λ e. str_eq e.sig ("sig" & e.ad_data);
  parse_ad = λ body. some (record {
    window_id = body;
    line = "hello";
    label = some "sponsored";
    click_url = "http://h/c/p.k/p";
  });
}

abbrev cfg : Cfg
cfg = record { cooldown_ms = 15000; show_url = true; session_id = "s" }

abbrev instant : ℕ → Instant
instant t = record {
  draw = record { window_id = "w"; challenge = "c"; nonce = "n"; started_at = t; last_recv = t };
  now = t;
}

abbrev tick_at : ℕ → ℕ → Tick
tick_at t a = record { now = t; clock = t; activity = some a; at_server = instant t }

abbrev beat_ticks : List Tick
beat_ticks = tick_at 1000 0 ∷ tick_at 2000 500 ∷ tick_at 3000 500 ∷ tick_at 4000 500 ∷ []

mints : mint crypto server.clicks 0 "w" "a" "https://x" ≡ some "p.k/p"
unfolding mint
mints = refl

is_trusted : IsTrusted site trust cfg (tick_at 0 0) "p.k/p"
is_trusted = record { verifies = refl; parses = refl }

honest_session_credited_example :
    (let (cs', s') = ticks site trust cfg (tick_at 0 0 ∷ beat_ticks) none server in
      let close_call = handle site (instant 5000) (close_route "w") s' in
      ((tick site trust cfg (tick_at 5000 500) cs' s').1 ≡ close_call.1)
      × (close_call.0 ≡ closed_ok (full_credit default_config)))
unfolding bucket_delta
honest_session_credited_example =
    honest_session_credited site trust cfg (tick_at 0 0) (tick_at 5000 500) beat_ticks server
      "p.k/p" mints is_trusted (omega arith) (omega arith) (omega arith) refl (omega arith)
      (omega arith) (omega arith)

abbrev held_window : Window
held_window = record {
  window_id = "w";
  session_id = none;
  activity_snapshot = none;
  challenge = "c";
  nonce = "n";
  started_at = 0;
  last_recv = 1000;
  prev_hash = "h";
  beats = 1;
  activity_progress = true;
  closed = false;
  credited = false;
}

abbrev holding : Server
holding = record server {
  store = record { config = default_config; windows = ("w", held_window) ∷ [] };
}

abbrev following : ClientState
following = record {
  window_id = "w";
  challenge = "c";
  seq = 1;
  prev_hash = "h";
  started_at = 0;
  dwell_ms = 5000;
  hb_interval_ms = 1000;
  line = "hello";
  label = "sponsored";
  click_url = "https://x";
  reported = false;
  last_activity_value = some 0;
}

in_step : IsSynced following holding held_window
unfolding get
in_step = record {
  held = refl;
  is_open = refl;
  same_challenge = refl;
  same_seq = refl;
  same_hash = refl;
  unreported = refl;
}

early_beat_silences_example :
    (ticks site trust cfg
      (tick_at 1400 1 ∷ tick_at 2400 2 ∷ tick_at 3400 3 ∷ [])
      (some following)
      holding).1
    ≡ holding
early_beat_silences_example =
    early_beat_silences site trust cfg (tick_at 1400 1) (tick_at 2400 2 ∷ tick_at 3400 3 ∷ [])
      following holding held_window in_step (omega arith) (omega arith)

abbrev reply : OpenReply
reply = record {
  window_id = "w";
  nonce = "n";
  challenge = "c";
  dwell_ms = 5000;
  hb_interval_ms = 1000;
  server_time = 0;
}

abbrev envelope : Envelope
envelope = record { ad_data = "w"; sig = "sigw"; keyid = none }

open_reply_signed_only_example :
    (open_reply (env_at site trust cfg (instant 0)) cfg 7 none (opened reply envelope) ≡ refuse)
    ⊎ ((ad : Ad) × (trust.verify_ad envelope ≡ true)
        × (trust.parse_ad "w" ≡ some ad)
        × (ad.window_id ≡ "w")
        × (let s = opened_with reply ad 7 none in
            open_reply (env_at site trust cfg (instant 0)) cfg 7 none (opened reply envelope)
            ≡ shown s (ad_line crypto.protocol_of s 5 true)))
open_reply_signed_only_example =
    open_reply_signed_only (env_at site trust cfg (instant 0)) cfg 7 none reply envelope
