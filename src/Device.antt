-- ===== src/Device.antt =====
-- The device login of supabase/functions/auth-device/index.ts: a code is handed out, approved by its
-- owner in a browser, and redeemed by a poll for one session.
-- The grants are the database's table, and `device_code_start`, `device_code_redeem` and
-- `device_code_approve` change it as supabase/migrations has them; of a device only its id is kept.
-- Every request to the database has a fate, as in the billing cycle; an error of the database is an
-- object without a status. Random texts, the clock, digests and the signing of a token are an
-- environment over a world `W`.
pub mod Once
pub mod Dispute
use luma_line.Prelude.{
  ℕ, String, Bool, true, false, not, ◌&&◌, ◌||◌, Option, none, some, List, [], ◌∷◌, ◌+◌, any, leb,
  if◌then◌else◌, str_eq, truthy, ◌&◌,
}
use luma_line.Prelude.JsMap.{JsMap}
use luma_line.Prelude.Effects.{Fault, Outcome, ok, thrown, Action, pure, throw, catch, ◌>>=◌, ◌>>◌}
use luma_line.Cycle.{Fate, applied, refused, lost, unanswered, network_error}
use luma_line.Edge.RateLimit.{Limits, Bucket, hit}

pub data GrantStatus : Type 0 where
  pending approved denied expired consumed : GrantStatus

-- A row of `device_auth_codes`; `expires_at` is in milliseconds.
pub record Grant : Type 0 where
  pub code_hash : String
  pub user_code : String
  pub status : GrantStatus
  pub expires_at : ℕ
  pub publisher_id : String

pub record Identity : Type 0 where
  pub publisher_id : String
  pub device_id : String

-- The answers of `device_code_redeem`, by their status.
pub data Redeemed : Type 0 where
  no_grant was_expired still_pending was_denied was_consumed being_deleted : Redeemed
  granted : Identity → Redeemed

-- A session that was handed out, with the digest of the code that it was redeemed with.
pub record Issued : Type 0 where
  pub code_hash : String
  pub identity : Identity
  pub access_token : String
  pub refresh_token : String

pub record Gate (W : Type 0) : Type 0 where
  pub grants : List Grant
  pub buckets : JsMap Bucket
  pub issued : List Issued
  pub world : W

pub data DeviceQuery : Type 0 where
  start_code redeem_code : DeviceQuery

pub record DeviceBackend (W : Type 0) : Type 0 where
  pub limits : Limits
  pub code_ttl_ms : ℕ
  pub now : W → ℕ × W
  pub random : W → String × W
  pub user_code : W → (String × String) × W
  pub digest : String → String
  pub ip_digest : String → Option String
  pub is_deleting : String → W → Bool
  pub fate : DeviceQuery → W → Fate × W
  pub throttle : String → W → Outcome (Option Bool) × W
  pub mint : Identity → W → Outcome String × W

pub data DeviceReply : Type 0 where
  json_err : String → ℕ → DeviceReply
  code_started : String → String → DeviceReply
  session : String → String → Identity → DeviceReply

-- One row of `device_code_redeem`: an old grant expires, and an approved one is consumed.
unfoldable pub redeem_row : ℕ → (String → Bool) → String → Grant → GrantStatus → Redeemed × Grant
redeem_row now deleting device g pending =
    if leb g.expires_at now
    then (was_expired, record g { status = expired })
    else (still_pending, g)
redeem_row now deleting device g approved =
    if leb g.expires_at now
    then (was_expired, record g { status = expired })
    else if deleting g.publisher_id
    then (being_deleted, g)
    else (
      granted (record { publisher_id = g.publisher_id; device_id = device }),
      record g { status = consumed },
    )
redeem_row now deleting device g denied = (was_denied, g)
redeem_row now deleting device g expired = (was_expired, g)
redeem_row now deleting device g consumed = (was_consumed, g)

unfoldable pub redeem_grant :
    String → ℕ → (String → Bool) → String → List Grant → Redeemed × List Grant
unfolding redeem_row
redeem_grant hash now deleting device [] = (no_grant, [])
redeem_grant hash now deleting device (g ∷ gs) =
    let rest = redeem_grant hash now deleting device gs in
    let row = redeem_row now deleting device g g.status in
    if str_eq g.code_hash hash then (row.0, row.1 ∷ gs) else (rest.0, g ∷ rest.1)

-- `device_code_approve` for a code that is pending and has not expired.
abbrev pub approve_row : ℕ → String → Grant → GrantStatus → Grant
approve_row now publisher g pending =
    if leb g.expires_at now
    then record g { status = expired }
    else record g { status = approved; publisher_id = publisher }
approve_row now publisher g approved = g
approve_row now publisher g denied = g
approve_row now publisher g expired = g
approve_row now publisher g consumed = g

unfoldable pub approve_grant : String → ℕ → String → List Grant → List Grant
approve_grant code now publisher [] = []
approve_grant code now publisher (g ∷ gs) =
    let rest = approve_grant code now publisher gs in
    if str_eq g.user_code code then approve_row now publisher g g.status ∷ gs else g ∷ rest

-- Both codes are unique keys of the table.
abbrev pub is_taken : String → String → List Grant → Bool
is_taken hash code = any (λ (g : Grant). str_eq g.code_hash hash || str_eq g.user_code code)

abbrev pub new_grant : String → String → ℕ → Grant
new_grant hash code expires = record {
  code_hash = hash;
  user_code = code;
  status = pending;
  expires_at = expires;
  publisher_id = "";
}

unfoldable pub start_grant : String → String → ℕ → List Grant → List Grant
start_grant hash code expires gs =
    if is_taken hash code gs then gs else new_grant hash code expires ∷ gs

-- What may happen, in any order: a request for a code, the approval of one in a browser, a poll.
pub data Happening : Type 0 where
  code_requested : String → Happening
  approved_by : String → ℕ → String → Happening
  polled : String → String → Happening

abbrev pub is_false : Option Bool → Bool
is_false none = false
is_false (some allowed) = not allowed

module _ {W : Type 0} (b : DeviceBackend W) where
  abbrev pub outside : {A : Type 0} → (W → A × W) → Action (Gate W) A
  outside f s = (ok (f s.world).0, record s { world = (f s.world).1 })

  abbrev pub call : {A : Type 0} → (W → Outcome A × W) → Action (Gate W) A
  call f s = ((f s.world).0, record s { world = (f s.world).1 })

  abbrev pub tried : {A : Type 0} → Action (Gate W) A → Action (Gate W) (Outcome A)
  tried m s = (ok (m s).0, (m s).1)

  -- A change of the grants that met its fate, and its answer; `none` is an error of the database.
  abbrev pub meet_grants :
      {A : Type 0} → (List Grant → A × List Grant) → Fate → Action (Gate W) (Option A)
  meet_grants f applied s = (ok (some (f s.grants).0), record s { grants = (f s.grants).1 })
  meet_grants f refused s = (ok none, s)
  meet_grants f lost s = (thrown network_error, s)
  meet_grants f unanswered s = (thrown network_error, record s { grants = (f s.grants).1 })

  unfoldable pub grants_rpc :
      {A : Type 0} → DeviceQuery → (List Grant → A × List Grant) → Action (Gate W) (Option A)
  grants_rpc q f s = meet_grants f (b.fate q s.world).0 (record s { world = (b.fate q s.world).1 })

  -- `deviceRateOk`; an unknown address is not limited here.
  unfoldable pub device_rate_ok : String → String → Action (Gate W) Bool
  unfolding hit
  device_rate_ok ip bucket s =
      if not (truthy ip)
      then (ok true, s)
      else (let now = b.now s.world in
          let result = hit b.limits s.buckets (bucket & (":" & ip)) now.0 in
          (ok result.0, record s { buckets = result.1; world = now.1 }))

  unfoldable pub ip_throttle : Option String → Action (Gate W) Bool
  ip_throttle none = pure true
  ip_throttle (some digest) =
      if truthy digest
      then (do allowed ← call (b.throttle ("devcode_ip:" & digest)); pure (not (is_false allowed)))
      else pure true

  -- `deviceCreateThrottleOk`
  unfoldable pub create_throttle_ok : String → Action (Gate W) Bool
  unfolding ip_throttle
  create_throttle_ok ip =
      catch
        (do
          allowed ← call (b.throttle "devcode_global")
          (if is_false allowed then pure false else ip_throttle (b.ip_digest ip)))
        (λ e. pure true)

  unfoldable pub started :
      String → String → Outcome (Option (Unit {0})) → Action (Gate W) DeviceReply
  started code display (thrown e) = pure (json_err "could not start device flow" 500)
  started code display (ok reply) = pure (code_started code display)

  unfoldable pub start_device : Action (Gate W) DeviceReply
  unfolding grants_rpc started start_grant
  start_device = do
    code ← outside b.random
    texts ← outside b.user_code
    now ← outside b.now
    reply ← tried (
        grants_rpc start_code
          (λ gs. (tt, start_grant (b.digest code) texts.1 (now + b.code_ttl_ms) gs)))
    started code texts.0 reply

  abbrev limited : DeviceReply
  limited = json_err "rate limited" 429

  unfoldable pub when_throttled : Bool → Action (Gate W) DeviceReply
  unfolding start_device
  when_throttled false = pure limited
  when_throttled true = start_device

  unfoldable pub when_code_allowed : String → Bool → Action (Gate W) DeviceReply
  unfolding when_throttled create_throttle_ok
  when_code_allowed ip false = pure limited
  when_code_allowed ip true = do allowed ← create_throttle_ok ip; when_throttled allowed

  -- POST /device/code
  unfoldable pub device_code : String → Action (Gate W) DeviceReply
  unfolding device_rate_ok when_code_allowed
  device_code ip = do allowed ← device_rate_ok ip "code"; when_code_allowed ip allowed

  -- The session is noted with its reply.
  unfoldable pub issue : String → String → Identity → Outcome String → Action (Gate W) DeviceReply
  issue hash refresh who (thrown e) s = (ok (json_err "server_error" 500), s)
  issue hash refresh who (ok token) s = (
    ok (session token refresh who),
    record s {
      issued =
          record { code_hash = hash; identity = who; access_token = token; refresh_token = refresh }
          ∷ s.issued;
    },
  )

  unfoldable pub on_redeemed : String → String → Redeemed → Action (Gate W) DeviceReply
  unfolding issue
  on_redeemed hash refresh still_pending = pure (json_err "authorization_pending" 400)
  on_redeemed hash refresh was_expired = pure (json_err "expired_token" 400)
  on_redeemed hash refresh was_denied = pure (json_err "access_denied" 400)
  on_redeemed hash refresh was_consumed = pure (json_err "expired_token" 400)
  on_redeemed hash refresh being_deleted = pure (json_err "deletion_pending" 403)
  on_redeemed hash refresh no_grant = pure (json_err "invalid_grant" 400)
  on_redeemed hash refresh (granted who) = do
    minted ← tried (call (b.mint who))
    issue hash refresh who minted

  -- An answer without a status is an unknown grant.
  unfoldable pub redeem_answered :
      String → String → Outcome (Option Redeemed) → Action (Gate W) DeviceReply
  unfolding on_redeemed
  redeem_answered hash refresh (thrown e) = pure (json_err "server_error" 500)
  redeem_answered hash refresh (ok none) = pure (json_err "invalid_grant" 400)
  redeem_answered hash refresh (ok (some r)) = on_redeemed hash refresh r

  abbrev pub redeem_at : String → ℕ → String → W → List Grant → Redeemed × List Grant
  redeem_at hash now device w = redeem_grant hash now (λ p. b.is_deleting p w) device

  unfoldable pub redeem_with : String → String → ℕ → String → Action (Gate W) DeviceReply
  unfolding grants_rpc redeem_answered redeem_grant
  redeem_with code refresh now device s =
      let r = grants_rpc redeem_code (redeem_at (b.digest code) now device s.world) s in
      redeem_answered (b.digest code) refresh r.0 r.1

  unfoldable pub redeem : String → Action (Gate W) DeviceReply
  unfolding redeem_with
  redeem code = do
    refresh ← outside b.random
    now ← outside b.now
    device ← outside b.random
    redeem_with code refresh now device

  unfoldable pub when_token_allowed : String → Bool → Action (Gate W) DeviceReply
  unfolding redeem
  when_token_allowed code false = pure limited
  when_token_allowed code true =
      if truthy code then redeem code else pure (json_err "invalid_request" 400)

  -- POST /device/token
  unfoldable pub device_token : String → String → Action (Gate W) DeviceReply
  unfolding device_rate_ok when_token_allowed
  device_token ip code = do allowed ← device_rate_ok ip "token"; when_token_allowed code allowed

  abbrev pub happen : Happening → Gate W → Gate W
  happen (code_requested ip) s = (device_code ip s).1
  happen (approved_by code now publisher) s = record s {
    grants = approve_grant code now publisher s.grants;
  }
  happen (polled ip code) s = (device_token ip code s).1

  abbrev pub happenings : List Happening → Gate W → Gate W
  happenings [] s = s
  happenings (h ∷ hs) s = happenings hs (happen h s)
