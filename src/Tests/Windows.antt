-- ===== src/Tests/Windows.antt =====
-- The window store and the harness's chain on concrete inputs.
use luma_line.Prelude.{
  ◌+◌, ◌*◌, ◌≡◌, ◌≤◌, ◌↔◌, refl, String, true, false, none, some, List, [], ◌∷◌, map, arith, show,
  ◌&◌,
}
use luma_line.Prelude.JsMap.{get, set}
use luma_line.Server.Windows.{
  default_config, Draw, Window, Store, Request, opens, closes, open_window, close, run, step,
  fresh_window, close_window, beat_window, safe_equal, beat_message,
}
use luma_line.Server.Windows.Credit.{
  close_credits_iff, close_bill_bounds, credits, credits-le-one, full_credit,
}
use luma_line.Server.Windows.Order.{IsSound, run-IsValid}
use luma_line.Load.HmacChain.{ChainBeat, build_chain, default_activity}
use luma_line.Load.HmacChain.Accepted.{Sent, feed, chain_of_feed, IsSpaced, IsLinked}
use luma_line.Load.HmacChain.Credited.{harness_window_credited, as_request, sent}

-- A stand-in for HMAC-SHA256.
abbrev toy_hmac : String → String → String
toy_hmac key message = key & "/" & message

abbrev empty_store : Store
empty_store = record { config = default_config; windows = [] }

abbrev draw : Draw
draw = record { window_id = "w"; challenge = "c"; nonce = "n"; started_at = 100; last_recv = 101 }

abbrev session : List Request
session = opens draw (some "s") none ∷ closes 9000 "w" ∷ closes 9001 "w" ∷ []

abbrev ready_window : Window
ready_window = record {
  window_id = "w";
  session_id = none;
  activity_snapshot = none;
  challenge = "c";
  nonce = "n";
  started_at = 100;
  last_recv = 3100;
  prev_hash = "h";
  beats = 3;
  activity_progress = true;
  closed = false;
  credited = false;
}

abbrev ready_store : Store
ready_store = record { config = default_config; windows = ("w", ready_window) ∷ [] }

close_credits_iff_example : ((close ready_store 5100 "w").0.credited ≡ true) ↔ (
    (ready_window.closed ≡ false)
    × (3 ≤ ready_window.beats)
    × (ready_window.activity_progress ≡ true)
    × (ready_window.started_at + 5000 ≤ 5100))
unfolding get
close_credits_iff_example = close_credits_iff ready_store 5100 "w" ready_window refl

close_bill_bounds_example :
    ((close ready_store 5100 "w").0.attention_seconds ≤ 5)
    × ((close ready_store 5100 "w").0.credited ≡ false
        → (close ready_store 5100 "w").0.attention_seconds ≡ 0)
close_bill_bounds_example = close_bill_bounds ready_store 5100 "w"

close_runs : (close ready_store 5100 "w").0 ≡ full_credit default_config
unfolding close get set
close_runs = refl

close_early : (close ready_store 5099 "w").0.credited ≡ false
unfolding close get set
close_early = refl

credits-le-one_example :
    credits toy_hmac "w" ready_store (closes 6000 "w" ∷ closes 6001 "w" ∷ []) ≤ 1
credits-le-one_example =
    credits-le-one toy_hmac "w" ready_store (closes 6000 "w" ∷ closes 6001 "w" ∷ []) (tt, (tt, tt))

abbrev last_window : Window
last_window = record {
  window_id = "w";
  session_id = some "s";
  activity_snapshot = none;
  challenge = "c";
  nonce = "n";
  started_at = 100;
  last_recv = 101;
  prev_hash = "w";
  beats = 0;
  activity_progress = false;
  closed = true;
  credited = false;
}

run-IsValid_example : IsSound default_config "w" last_window
unfolding run step open_window close close_window fresh_window get set
run-IsValid_example =
    run-IsValid toy_hmac empty_store session (omega arith, (tt, (tt, tt))) (λ id w e. cc e) "w"
      last_window refl

harness_window_credited_example :
    (bs : List ChainBeat) × (build_chain toy_hmac "w" "c" 4 default_activity ≡ some bs)
    × ((close
          (run toy_hmac
            (open_window empty_store draw none none).1
            (map as_request (map (sent "w" (λ k. 101 + k * 1000)) bs)))
          5100
          "w").0
        ≡ full_credit default_config)
harness_window_credited_example =
    harness_window_credited toy_hmac empty_store draw none none 4 (λ k. 101 + k * 1000) 5100
      (omega arith) (λ k. omega arith) (omega arith) (omega arith) (omega arith)

abbrev opened : Window
opened = record ready_window {
  beats = 0;
  last_recv = 101;
  prev_hash = "w";
  activity_progress = false;
}

abbrev two_beats : List Sent
two_beats =
    (700, record { window_id = "w"; seq = 1; hmac = "c/1|w|low"; activity_delta = some "low" })
    ∷ (
      1700,
      record {
        window_id = "w";
        seq = 2;
        hmac = "c/2|c/1|w|low|none";
        activity_delta = some "none";
      },
    )
    ∷ []

two_beats_accepted :
    feed toy_hmac default_config two_beats opened
    ≡ some (record opened {
      beats = 2;
      last_recv = 1700;
      prev_hash = "c/2|c/1|w|low|none";
      activity_progress = true;
    })
unfolding feed beat_window safe_equal beat_message show
two_beats_accepted = refl

chain_of_feed_example :
    IsSpaced default_config 101 two_beats × IsLinked toy_hmac "c" 1 "w" two_beats
chain_of_feed_example = chain_of_feed toy_hmac default_config two_beats opened _ two_beats_accepted
