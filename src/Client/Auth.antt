-- ===== src/Client/Auth.antt =====
-- The credential of the publisher, src/client/auth.mjs: the token file, the lock around a refresh,
-- and the access token of a tick.
-- A token is what the file holds; a file that cannot be read holds none, and one without an access
-- token has an empty one. The `exp` claim of a JWT, the clock of the lock, the server and the writing
-- of files are an environment. Other processes may have written the file by the time the lock is
-- taken; a file that exists can be removed.
pub mod Served
pub mod Valid
pub mod Redeemed
use luma_line.Prelude.{
  ℕ, String, Bool, true, false, not, ◌&&◌, Option, none, some, List, [], ◌∷◌, if◌then◌else◌, ltb,
  ◌==◌, ◌+◌, ◌/◌, truthy, ℤ, pos, negsuc, ◌+ℤ◌, ◌-ℤ◌, scale, ltb_ℤ, leb_ℤ, eqb_ℤ,
}
use luma_line.Prelude.Effects.{
  Fault, Outcome, ok, thrown, Action, pure, throw, catch, finally, ◌>>=◌, ◌>>◌,
}
use luma_line.Cycle.Tables.{is_text}

pub record Token : Type 0 where
  pub access_token : String
  pub refresh_token : Option String
  pub publisher_id : Option String
  pub device_id : Option String
  pub handle : Option String
  pub exp : Option ℤ

-- The body of a reply of the token server.
pub record TokenData : Type 0 where
  pub access_token : Option String
  pub refresh_token : Option String
  pub publisher_id : Option String
  pub device_id : Option String
  pub handle : Option String
  pub expires_in : Option ℤ
  pub error : Option String

pub record TokenReply : Type 0 where
  pub is_ok : Bool
  pub status : ℕ
  pub body : TokenData

-- A refresh token that was sent, and the lock file at that time.
pub record Spend : Type 0 where
  pub token : String
  pub lock : Option ℕ

-- The token file, the lock file with its time, and the refresh tokens that were sent, latest first.
pub record Home (W : Type 0) : Type 0 where
  pub token : Option Token
  pub lock : Option ℕ
  pub redeemed : List Spend
  pub world : W

pub record AuthBackend (W : Type 0) : Type 0 where
  pub jwt_exp : String → Option ℤ
  pub clock : W → ℕ × W
  pub can_write : W → Bool × W
  pub meanwhile : W → Option Token → Option Token × W
  pub refresh : String → W → Outcome TokenReply × W

abbrev pub or_else : Option String → Option String → Option String
or_else none prior = prior
or_else (some x) prior = some x

abbrev pub is_truthy : Option String → Bool
is_truthy none = false
is_truthy (some t) = truthy t

-- Seconds from now on, unless it is 0.
abbrev pub from_now : ℕ → Option ℤ → Option ℤ
from_now now none = none
from_now now (some n) = if eqb_ℤ n (pos 0) then none else some (pos (now / 1000) +ℤ n)

abbrev pub or_exp : Option ℤ → Option ℤ → Option ℤ
or_exp none other = other
or_exp (some e) other = some e

abbrev pub ms_left_of : Option ℤ → ℕ → ℤ
ms_left_of none now = negsuc 0
ms_left_of (some e) now = scale 1000 e -ℤ pos now

abbrev pub write_error : Fault
write_error = record { decline = false; message = "EACCES" }

abbrev pub lock_stale_ms : ℕ
lock_stale_ms = 15000

module _ {W : Type 0} (b : AuthBackend W) (now skew_ms : ℕ) where
  unfoldable pub shape_token : String → TokenData → Token → Token
  shape_token access d prior = record {
    access_token = access;
    refresh_token = or_else d.refresh_token prior.refresh_token;
    publisher_id = or_else d.publisher_id prior.publisher_id;
    device_id = or_else d.device_id prior.device_id;
    handle = or_else d.handle prior.handle;
    exp = or_exp (b.jwt_exp access) (from_now now d.expires_in);
  }

  unfoldable pub ms_left : Token → ℤ
  ms_left t = ms_left_of (or_exp t.exp (b.jwt_exp t.access_token)) now

  -- The file is replaced as a whole, or not at all.
  abbrev pub written : Bool → Token → Action (Home W) (Unit {0})
  written true t s = (ok tt, record s { token = some t })
  written false t s = (thrown write_error, s)

  unfoldable pub save_token : Token → Action (Home W) (Unit {0})
  save_token t s = written (b.can_write s.world).0 t (record s { world = (b.can_write s.world).1 })

  abbrev pub created : Bool → Action (Home W) Bool
  created true s =
      (ok true, record s { lock = some (b.clock s.world).0; world = (b.clock s.world).1 })
  created false s = (ok false, s)

  -- `openSync(lockFile, 'wx')`
  abbrev pub open_lock : Option ℕ → Action (Home W) Bool
  open_lock (some mtime) s = (ok false, s)
  open_lock none s = created (b.can_write s.world).0 (record s { world = (b.can_write s.world).1 })

  abbrev pub reclaim : Option ℕ → Action (Home W) Bool
  reclaim none s = (ok false, s)
  reclaim (some mtime) s =
      if ltb (mtime + lock_stale_ms) (b.clock s.world).0
      then open_lock none (record s { lock = none; world = (b.clock s.world).1 })
      else (ok false, record s { world = (b.clock s.world).1 })

  -- A lock that another holds is taken over once it is stale.
  unfoldable pub acquire_refresh_lock : Action (Home W) Bool
  acquire_refresh_lock = do
    opened ← (λ s. open_lock s.lock s)
    if opened then pure true else (λ s. reclaim s.lock s)

  unfoldable pub release_refresh_lock : Action (Home W) (Unit {0})
  release_refresh_lock s = (ok tt, record s { lock = none })

  -- The file under the lock, as the others left it.
  unfoldable pub reload : Action (Home W) (Option Token)
  reload s = (
    ok (b.meanwhile s.world s.token).0,
    record s { token = (b.meanwhile s.world s.token).0; world = (b.meanwhile s.world s.token).1 },
  )

  abbrev pub or_token : Option Token → Token → Token
  or_token none t = t
  or_token (some cur) t = cur

  -- The access token while it has time left.
  abbrev pub still_valid : Token → Option String
  still_valid t = if ltb_ℤ (pos 0) (ms_left t) then some t.access_token else none

  -- The refresh token is noted as sent before the server answers.
  unfoldable pub post_refresh : String → Action (Home W) TokenReply
  post_refresh r s = (
    (b.refresh r s.world).0,
    record s {
      redeemed = record { token = r; lock = s.lock } ∷ s.redeemed;
      world = (b.refresh r s.world).1;
    },
  )

  abbrev pub is_invalid_grant : TokenReply → Bool
  is_invalid_grant r = r.status == 400 && is_text r.body.error "invalid_grant"

  unfoldable pub refused : Token → TokenReply → Action (Home W) (Option String)
  unfolding save_token ms_left
  refused cur r =
      if is_invalid_grant r
      then (do save_token (record cur { refresh_token = none }); pure (still_valid cur))
      else pure (still_valid cur)

  unfoldable pub granted : Token → TokenData → String → Action (Home W) (Option String)
  unfolding save_token shape_token
  granted cur d access = do save_token (shape_token access d cur); pure (some access)

  unfoldable pub with_reply : Token → TokenReply → Option String → Action (Home W) (Option String)
  unfolding refused granted
  with_reply cur r none = refused cur r
  with_reply cur r (some access) =
      if r.is_ok && truthy access then granted cur r.body access else refused cur r

  unfoldable pub redeem : Token → Option String → Action (Home W) (Option String)
  unfolding post_refresh with_reply ms_left
  redeem cur none = pure (still_valid cur)
  redeem cur (some r) =
      if not (truthy r)
      then pure (still_valid cur)
      else (do reply ← post_refresh r; with_reply cur reply reply.body.access_token)

  unfoldable pub refresh_current : Token → Action (Home W) (Option String)
  unfolding redeem
  refresh_current cur =
      if ltb_ℤ (pos skew_ms) (ms_left cur)
      then pure (some cur.access_token)
      else redeem cur cur.refresh_token

  unfoldable pub refresh_locked : Token → Action (Home W) (Option String)
  unfolding reload refresh_current
  refresh_locked t = do cur ← reload; refresh_current (or_token cur t)

  abbrev pub guarded_refresh : Token → Bool → Action (Home W) (Option String)
  guarded_refresh t false = pure (still_valid t)
  guarded_refresh t true =
      finally (catch (refresh_locked t) (λ (e : Fault). pure (still_valid t))) release_refresh_lock

  unfoldable pub refresh_token_of : Token → Action (Home W) (Option String)
  unfolding acquire_refresh_lock refresh_locked release_refresh_lock
  refresh_token_of t = do locked ← acquire_refresh_lock; guarded_refresh t locked

  unfoldable pub with_token : Option Token → Action (Home W) (Option String)
  unfolding refresh_token_of ms_left
  with_token none = pure none
  with_token (some t) =
      if not (truthy t.access_token)
      then pure none
      else if ltb_ℤ (pos skew_ms) (ms_left t)
      then pure (some t.access_token)
      else if not (is_truthy t.refresh_token)
      then pure (still_valid t)
      else refresh_token_of t

  -- The access token of a tick, or none for an anonymous one.
  unfoldable pub get_valid_access_token : Action (Home W) (Option String)
  unfolding with_token
  get_valid_access_token s = with_token s.token s
