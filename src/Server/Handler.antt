-- ===== src/Server/Handler.antt =====
-- The request handler of src/server/server.mjs over the window store and the click tracker.
-- node:http is left out: a route is a request whose body is parsed, a response its status and body.
use luma_line.Prelude.{ℕ, String, Option, none, some, ◌&◌}
use luma_line.Prelude.JsMap.{has}
use luma_line.Server.Windows.{
  Store, Draw, OpenReply, BeatRequest, CloseReply, accepted, rejected, open_window, beat, close,
}
use luma_line.Server.Clicks.{
  Crypto, Tracker, redirect, refused, create_click_tracker, mint, resolve,
}
use luma_line.Client.Window.{Ad, Envelope}

-- `theAd`.
pub record SiteAd : Type 0 where
  pub ad_id : String
  pub line : String
  pub label : Option String
  pub dest : String
  pub duration_ms : ℕ

-- What a server is started with: `sign` is Ed25519 with the private key, `ad_json` and `feed_json`
-- are JSON.stringify of the signed bodies, `base` is the origin that the request names.
pub record Site : Type 0 where
  pub crypto : Crypto
  pub sign : String → String
  pub ad_json : Ad → String
  pub line_json : SiteAd → String
  pub feed_json : SiteAd → ℕ → String
  pub base : String
  pub ad : SiteAd

pub record Server : Type 0 where
  pub store : Store
  pub clicks : Tracker

-- What the handler reads from the clock and from `randomId` while it serves one request.
pub record Instant : Type 0 where
  pub draw : Draw
  pub now : ℕ

pub data Route : Type 0 where
  get_feed get_line elsewhere bad_token : Route
  open_route : Option String → Option String → Route
  beat_route : BeatRequest → Route
  close_route : String → Route
  click_route : String → Route

pub data Response : Type 0 where
  signed_ok : Envelope → Response
  opened_ok : OpenReply → Envelope → Response
  beat_ok beat_rejected token_rejected invalid_click not_found internal : Response
  closed_ok : CloseReply → Response
  found : String → Response

-- `startServer` throws without a click secret.
unfoldable pub start_server : Store → String → ℕ → Option Server
unfolding create_click_tracker
start_server store secret ttl = elim (create_click_tracker secret ttl) [
  | none ↦ none
  | some k ↦ some (record { store = store; clicks = k })
]

abbrev pub default_label : Option String → String
default_label none = "sponsored"
default_label (some l) = l

abbrev pub unkeyed : String → String → Envelope
unkeyed body sig = record { ad_data = body; sig = sig; keyid = none }

module _ (site : Site) where
  open site.crypto use {hmac_hex}

  -- The payload that an open signs, bound to its window.
  abbrev pub signed_ad : String → String → Ad
  signed_ad window_id token = record {
    window_id = window_id;
    line = site.ad.line;
    label = some (default_label site.ad.label);
    click_url = site.base & "/c/" & token;
  }

  -- The window stays open where the mint throws; the answer is then the handler's catch.
  unfoldable pub handle_open : Instant → Option String → Option String → Server → Response × Server
  handle_open i session snapshot s =
      let (win, store') = open_window s.store i.draw session snapshot in
      let s' : Server = record s { store = store' } in
      elim (mint site.crypto s.clicks i.now win.window_id site.ad.ad_id site.ad.dest) [
        | none ↦ (internal, s')
        | some token ↦
            let body = site.ad_json (signed_ad win.window_id token) in
            (opened_ok win (unkeyed body (site.sign body)), s')
      ]

  unfoldable pub handle_beat : Instant → BeatRequest → Server → Response × Server
  handle_beat i r s = elim (beat hmac_hex s.store i.now r) [
    | rejected e ↦ (beat_rejected, s)
    | accepted store' ↦ (beat_ok, record s { store = store' })
  ]

  unfoldable pub handle_close : Instant → String → Server → Response × Server
  handle_close i id s =
      let (reply, store') = close s.store i.now id in (closed_ok reply, record s { store = store' })

  unfoldable pub handle_click : Instant → String → Server → Response × Server
  handle_click i token s =
      let (verdict, k) = resolve site.crypto (has s.store.windows) s.clicks i.now token in
      elim verdict [
        | redirect dest ↦ (found dest, record s { clicks = k })
        | refused e ↦ (invalid_click, record s { clicks = k })
      ]

  unfoldable pub handle : Instant → Route → Server → Response × Server
  handle i get_feed s =
      let body = site.feed_json site.ad i.now in (signed_ok (unkeyed body (site.sign body)), s)
  handle i get_line s =
      let body = site.line_json site.ad in (signed_ok (unkeyed body (site.sign body)), s)
  handle i (open_route session snapshot) s = handle_open i session snapshot s
  handle i (beat_route r) s = handle_beat i r s
  handle i (close_route id) s = handle_close i id s
  handle i (click_route token) s = handle_click i token s
  handle i bad_token s = (token_rejected, s)
  handle i elsewhere s = (not_found, s)
