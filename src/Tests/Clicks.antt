-- ===== src/Tests/Clicks.antt =====
-- Click tokens on concrete inputs.
use luma_line.Prelude.{
  ◌+◌, ◌≡◌, ◌≤◌, ◌⊎◌, refl, String, true, false, none, some, List, [], ◌∷◌, arith, str_eq,
  if◌then◌else◌,
}
use luma_line.Url.{safe_click_url, has_control_chars, safe_click_url_sound}
use luma_line.Server.Clicks.{
  TokenData, Crypto, Tracker, redirect, refused, duplicate, contains, mint, resolve,
}
use luma_line.Server.Windows.{safe_equal}
use luma_line.Server.Clicks.Split.{has_dot}
use luma_line.Server.Clicks.Resolve.{IsJustified, IsFaithful, resolve-IsJustified, resolve-mint}
use luma_line.Server.Clicks.Once.{
  Visit, payload_window, token_window, bit, visit_all, visit_all_once,
}

abbrev token_data : TokenData
token_data = record { window_id = "w"; ad_id = "a"; dest = "https://x"; ts = 10 }

-- One payload, one signature and one URL stand for the codec, HMAC and parser.
abbrev toy : Crypto
toy = record {
  hmac_hex = λ key p. "ff";
  encode = λ d. "p";
  decode = λ p. if str_eq p "p" then some token_data else none;
  protocol_of = λ u. if str_eq u "https://x" then some "https:" else none;
}

abbrev tracker : Tracker
tracker = record { secret = "k"; ttl_ms = 1000; seen = [] }

mints : mint toy tracker 10 "w" "a" "https://x" ≡ some "p.ff"
unfolding mint
mints = refl

redirects :
    resolve toy (λ id. true) tracker 500 "p.ff"
    ≡ (redirect "https://x", record tracker { seen = "w" ∷ [] })
unfolding resolve safe_equal
redirects = refl

resolve-IsJustified_example :
    IsJustified toy (λ id. true) tracker (record tracker { seen = "w" ∷ [] }) 500 "p.ff" "https://x"
resolve-IsJustified_example =
    resolve-IsJustified toy (λ id. true) tracker _ 500 "p.ff" "https://x" redirects

toy-IsFaithful : IsFaithful toy "k" token_data
unfolding has_dot
toy-IsFaithful = record {
  decodes = refl;
  payload_dotless = refl;
  sig_dotless = refl;
  payload_text = refl;
  sig_text = refl;
}

resolve-mint_example :
    (resolve toy (λ id. true) tracker 500 "p.ff"
      ≡ (redirect "https://x", record tracker { seen = "w" ∷ [] }))
    × (resolve toy (λ id. true) (record tracker { seen = "w" ∷ [] }) 600 "p.ff"
        ≡ (refused duplicate, record tracker { seen = "w" ∷ [] }))
resolve-mint_example =
    resolve-mint toy (λ id. true) tracker 10 500 600 "w" "a" "https://x" "p.ff" mints toy-IsFaithful
      refl refl (omega arith) (omega arith)

abbrev two_visits : List Visit
two_visits =
    record { known = λ id. true; now = 20; token = "p.ff" }
    ∷ record { known = λ id. true; now = 30; token = "p.ff" }
    ∷ []

visit_all_once_example :
    ((visit_all toy "w" tracker two_visits).0 + bit toy (contains tracker.seen "w")
      ≡ bit toy (contains (visit_all toy "w" tracker two_visits).1.seen "w"))
    × ((visit_all toy "w" tracker two_visits).0 ≤ 1)
visit_all_once_example = visit_all_once toy "w" tracker two_visits

visited_once : (visit_all toy "w" tracker two_visits).0 ≡ 1
unfolding visit_all resolve safe_equal token_window payload_window
visited_once = refl

safe_click_url_sound_example :
    (◌≡◌ {A = String} "https://x" "https://x")
    × (has_control_chars "https://x" ≡ false)
    × ((p : String) × (toy.protocol_of "https://x" ≡ some p) × ((p ≡ "http:") ⊎ (p ≡ "https:")))
unfolding safe_click_url has_control_chars
safe_click_url_sound_example = safe_click_url_sound toy.protocol_of "https://x" "https://x" refl
