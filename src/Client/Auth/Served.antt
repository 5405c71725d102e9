-- ===== src/Client/Auth/Served.antt =====
-- Which access token a tick gets (src/client/auth.mjs), whatever the server, the files and the other
-- processes do.
use luma_line.Prelude.{
  ℕ, String, Bool, true, false, not, ◌&&◌, Option, none, some, ◌≡◌, refl, ◌⊎◌, inl, inr, Bool-cases,
  truthy, pos, ltb_ℤ, arith,
}
use luma_line.Prelude.Effects.{Outcome, ok, thrown, pure, after}
use luma_line.Client.Auth.{
  Token, TokenData, TokenReply, Home, AuthBackend, shape_token, ms_left, written, save_token,
  still_valid, post_refresh, is_invalid_grant, refused, granted, with_reply, redeem,
  refresh_current,
}

module _ {W : Type 0} (b : AuthBackend W) (now skew_ms : ℕ) where
  -- A token with an access token and time left.
  abbrev pub IsUsable : Option Token → Type 0
  IsUsable none = ⊥
  IsUsable (some t) =
      (truthy t.access_token ≡ true) × (ltb_ℤ (pos 0) (ms_left b now skew_ms t) ≡ true)

  -- The access token of this file.
  abbrev pub IsAccess : Option Token → String → Type 0
  IsAccess none access = ⊥
  IsAccess (some t) access = t.access_token ≡ access

  -- A token with time left.
  abbrev pub IsLive : Option Token → Type 0
  IsLive none = ⊥
  IsLive (some t) = ltb_ℤ (pos 0) (ms_left b now skew_ms t) ≡ true

  -- The server granted this access token, in answer to some refresh token.
  abbrev pub IsGranted : String → Type 0
  IsGranted access =
      (r : String) × (w : W) × (reply : TokenReply) × ((b.refresh r w).0 ≡ ok reply)
      × (reply.is_ok ≡ true)
      × (reply.body.access_token ≡ some access)

  -- An answer is the access token of the usable file at the start, or of the file at the end, which
  -- has time left or was just granted; none is answered only if one of the two was not usable.
  abbrev pub IsServed : Option Token → Option String → Option Token → Type 0
  IsServed before none end = (¬ IsUsable before) ⊎ (¬ IsUsable end)
  IsServed before (some access) end =
      (IsUsable before × IsAccess before access)
      ⊎ (IsAccess end access × (IsLive end ⊎ IsGranted access))

  -- The call returns such an answer, and does not throw.
  abbrev pub Serves : Option Token → Outcome (Option String) × Home W → Type 0
  Serves before (ok o, s) = IsServed before o s.token
  Serves before (thrown e, s) = ⊥

  -- The same of a call that may throw.
  abbrev pub MayServe : Option Token → Outcome (Option String) × Home W → Type 0
  MayServe before (ok o, s) = IsServed before o s.token
  MayServe before (thrown e, s) = Unit

  valid_end :
      (before : Option Token) (t : Token) → IsServed before (still_valid b now skew_ms t) (some t)
  valid_end before t = elim (Bool-cases (ltb_ℤ (pos 0) (ms_left b now skew_ms t))) [
    | inl e ↦ rw e (inr (refl, inl e))
    | inr e ↦ rw e (inr (λ u. ground arith))
  ]

  pub valid_start :
      (t : Token) (end : Option Token)
      → truthy t.access_token ≡ true
      → IsServed (some t) (still_valid b now skew_ms t) end
  valid_start t end h = elim (Bool-cases (ltb_ℤ (pos 0) (ms_left b now skew_ms t))) [
    | inl e ↦ rw e (inl ((h, e), refl))
    | inr e ↦ rw e (inl (λ u. ground arith))
  ]

  -- The token is the usable one of the start, or the one that the file holds.
  abbrev pub IsKnown : Option Token → Token → Option Token → Type 0
  IsKnown before cur file =
      ((before ≡ some cur) × (truthy cur.access_token ≡ true)) ⊎ (file ≡ some cur)

  known_valid :
      (before : Option Token) (cur : Token) (file : Option Token)
      → IsKnown before cur file
      → IsServed before (still_valid b now skew_ms cur) file
  known_valid before cur file (inl (e, h)) = rw e (valid_start cur file h)
  known_valid before cur file (inr e) = rw e (valid_end before cur)

  pub known_fresh :
      (before : Option Token) (cur : Token) (file : Option Token)
      → IsKnown before cur file
      → ltb_ℤ (pos skew_ms) (ms_left b now skew_ms cur) ≡ true
      → IsServed before (some cur.access_token) file
  known_fresh before cur file (inl (e, h)) l = rw e (inl ((h, ground arith), refl))
  known_fresh before cur file (inr e) l = rw e (inr (refl, inl (ground arith)))

  module _ (before : Option Token) where
    written_may :
        (w : Bool) (t : Token) (o : Option String) (s : Home W)
        → IsServed before o (some t)
        → MayServe before (after (written b now skew_ms w t s) (λ _. pure o))
    unfolding after
    written_may true t o s h = h
    written_may false t o s h = tt

    refused_may :
        (cur : Token) (r : TokenReply) (s : Home W)
        → IsKnown before cur s.token
        → MayServe before (refused b now skew_ms cur r s)
    unfolding refused save_token ms_left
    refused_may cur r s k = elim (Bool-cases (is_invalid_grant b now skew_ms r)) [
      | inl e ↦ rw e (
          written_may (b.can_write s.world).0 (record cur { refresh_token = none }) _ _
            (valid_end before (record cur { refresh_token = none })))
      | inr e ↦ rw e (known_valid before cur s.token k)
    ]

    granted_may :
        (cur : Token) (d : TokenData) (access : String) (s : Home W)
        → IsGranted access
        → MayServe before (granted b now skew_ms cur d access s)
    unfolding granted save_token shape_token
    granted_may cur d access s g =
        written_may (b.can_write s.world).0 (shape_token b now skew_ms access d cur) _ _
          (inr (refl, inr g))

    reply_may :
        (cur : Token) (r : TokenReply) (o : Option String) (s : Home W) (sent : String) (w : W)
        → (b.refresh sent w).0 ≡ ok r
        → r.body.access_token ≡ o
        → IsKnown before cur s.token
        → MayServe before (with_reply b now skew_ms cur r o s)
    unfolding with_reply
    reply_may cur r none s sent w q a k = refused_may cur r s k
    reply_may cur r (some access) s sent w q a k = elim (Bool-cases (r.is_ok && truthy access)) [
      | inl e ↦ rw e (granted_may cur r.body access s (sent, w, r, q, ground arith, a))
      | inr e ↦ rw e (refused_may cur r s k)
    ]

    posted_may :
        (cur : Token) (sent : String) (w : W) (o : Outcome TokenReply) (s : Home W)
        → (b.refresh sent w).0 ≡ o
        → IsKnown before cur s.token
        → MayServe before
            (after (o, s) (λ reply. with_reply b now skew_ms cur reply reply.body.access_token))
    unfolding after
    posted_may cur sent w (ok reply) s q k = reply_may cur reply _ s sent w q refl k
    posted_may cur sent w (thrown e) s q k = tt

    redeem_may :
        (cur : Token) (o : Option String) (s : Home W)
        → IsKnown before cur s.token
        → MayServe before (redeem b now skew_ms cur o s)
    unfolding redeem post_refresh
    redeem_may cur none s k = known_valid before cur s.token k
    redeem_may cur (some r) s k = elim (Bool-cases (not (truthy r))) [
      | inl e ↦ rw e (known_valid before cur s.token k)
      | inr e ↦ rw e (posted_may cur r s.world _ _ refl k)
    ]

    pub current_may :
        (cur : Token) (s : Home W)
        → IsKnown before cur s.token
        → MayServe before (refresh_current b now skew_ms cur s)
    unfolding refresh_current
    current_may cur s k = elim (Bool-cases (ltb_ℤ (pos skew_ms) (ms_left b now skew_ms cur))) [
      | inl e ↦ rw e (known_fresh before cur s.token k e)
      | inr e ↦ rw e (redeem_may cur cur.refresh_token s k)
    ]
