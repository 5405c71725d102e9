-- ===== src/Lib.antt =====
-- LumaLine, verified: a status line that shows one signed sponsored line while a coding agent
-- works, the backend that credits the attention, and the decisions on the money behind it.
--
-- The status line runs one tick a second. A tick (src/client/window.mjs `step`, called by
-- src/statusline.mjs) opens a window, posts heartbeats that form an HMAC chain, and closes the
-- window after its dwell. The backend (src/server/windows.mjs) accepts a beat only in order, in
-- time and correctly signed, and credits a close only for enough beats, activity and dwell. A
-- click on the line goes through a signed redirect token (src/server/clicks.mjs). The edge
-- functions under supabase/functions decide with the pure modules of supabase/functions/_shared
-- which advertisers are charged, how a batch is settled, what a refund or a chargeback books, and
-- what the monitor reports.
--
-- The modules, and the code that each models:
--   Prelude: tests on numbers, lists, text, integers (micros and cents), and the JavaScript `Map`.
--   Server.Windows: src/server/windows.mjs; `open_window`, `beat`, `close` are the store's open,
--     beat and close, `step` and `run` the requests one after the other.
--   Server.Clicks: src/server/clicks.mjs; `mint` and `resolve`.
--   Server.Handler: the routes of src/server/server.mjs over the store and the tracker.
--   Load.HmacChain: scripts/load/lib/hmac-chain.mjs, the chain of beats of the load harness.
--   Url: src/lib/url.mjs.
--   Client.Window: src/client/window.mjs, one tick. Client.SessionKey: src/client/session.mjs.
--     Client.Auth: the token file and the refresh of src/client/auth.mjs.
--   Session: the main loop of src/statusline.mjs around the ticks, against the store.
--   Billing: supabase/functions/_shared/billing-logic.mjs.
--   Cycle: the route POST /charge of supabase/functions/billing/index.ts. Cycle.Tables has its requests
--     on `advertiser_charges`, Cycle.Settle how a reserved batch is settled, Cycle.Charge recovery,
--     fresh plans and the lock, Cycle.Preview the dry run. Cycle.Kept carries an invariant through the
--     steps of a run; Cycle.Rows, Cycle.Settled, Cycle.Asked, Cycle.Locked and Cycle.Frozen use it.
--   Refund, Reconcile: the routes POST /refund and GET /reconcile of the same function.
--   Connect: supabase/functions/stripe-connect/index.ts. Connect.Batch has the payouts of a run of
--     POST /payout/batch and Connect.Notify its mails and guards; Connect.Life is the abstract machine
--     of one payout, which the runs are compared with, and Connect.Isolated the runs whose payouts do
--     not stop each other. Connect.Webhook is POST /webhook, Connect.Onboarding POST /connect/onboard and
--     GET /connect/status, Connect.Recon GET /reconcile.
--   Device: the device codes, the sessions, the logout and the disputes of
--     supabase/functions/auth-device/index.ts, over the grants of the database.
--   Advertiser: supabase/functions/_shared/advertiser-logic.mjs.
--   Clawback: supabase/functions/_shared/manual-clawback-logic.mjs.
--   Payout: supabase/functions/_shared/payout-logic.mjs.
--   Monitor: supabase/functions/_shared/monitor-logic.mjs.
--   Ops.Transparency: buildReport and reconcile of scripts/ops/lib/transparency.mjs; a quotient of
--     doubles that is rounded is a parameter there.
--   Keyring: src/lib/keyring.mjs.
--   Edge: ratelimit.mjs, client-ip.mjs, bearerHeader of jwt.ts, dispute-logic.mjs, http-errors.mjs and
--     webhook-secrets.mjs of supabase/functions/_shared, and src/client/sentinel.mjs.
--   Tests: runs on concrete inputs.
--
-- Parameters of the model are node:crypto's HMAC, the codec of a token, the Ed25519 verifier,
-- `new URL`, `JSON.parse`, the poster, the listing of transfers, random ids and the clock. A time is
-- a natural number of milliseconds, and a test on a difference of times is written as a sum. Money
-- is an integer; a value that JavaScript reads as no finite number is `none`, and amounts with a
-- fraction, or beyond the integers that a double holds exactly, are not modelled. A `Map` is a list
-- of entries in insertion order.
--
-- The billing cycle is an action over its tables: it returns or throws, and what was written before a
-- throw stays. Each request to a table is carried out or refused, and its answer may be lost; Stripe,
-- the functions and views of the database and the random ids are an environment over a world of
-- their own, which may answer anything or throw at each call. A row of a list that is sent is taken
-- one after the other. The payout function is modelled likewise; `payout_fail` and `payout_confirm`
-- are changes of its table as supabase/migrations/20260629100000_payout_rails.sql has them, and the
-- pages of one search come from one answer of Stripe. Where no answer of Stripe is false, its
-- transfers are part of the world, and a theorem names what it relies on about them.
--
-- Fuel bounds the decimal digits and the logarithm of a number (as many rounds as the number, which
-- has no more digits than that), and the pages of a search for a transfer and of a reconciliation,
-- where any fuel from the number of pages on gives the same result. Where the fuel of a search
-- in a payout run is used up, the run stops with a fault that nothing catches, for a loop that does not
-- return. The deliveries of a webhook, and the requests of a route, come one after the other.
--
-- Not modelled: network and file system input and output, logging, the texts and payloads of
-- alerts, timing (constant-time comparison is modelled by its result), the other edge functions and
-- SQL, which stand beside these modules, the setup links of the billing function, the refresh and the
-- earnings of the device function, the installer, the configuration, the client's poll of a login, its
-- logout and the commands around them, and the scripts of operation.
pub mod Prelude
pub mod Server
pub mod Load
pub mod Url
pub mod Advertiser
pub mod Billing
pub mod Clawback
pub mod Connect
pub mod Cycle
pub mod Refund
pub mod Reconcile
pub mod Device
pub mod Edge
pub mod Keyring
pub mod Monitor
pub mod Ops
pub mod Payout
pub mod Client
pub mod Session
mod Tests
