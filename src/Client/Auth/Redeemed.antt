-- ===== src/Client/Auth/Redeemed.antt =====
-- How a tick spends the single-use refresh token (src/client/auth.mjs).
use luma_line.Prelude.{
  ℕ, String, Bool, true, false, not, ◌&&◌, Option, none, some, List, ◌∷◌, ◌≡◌, refl, sym, subst,
  ◌⊎◌, inl, inr, if◌then◌else◌, Bool-cases, ltb, ◌+◌, truthy, pos, ltb_ℤ,
}
use luma_line.Prelude.Effects.{
  Outcome, ok, thrown, pure, after, handled, ended, Keeps, Keeps->>=, Keeps-if, Ends, after-via,
}
use luma_line.Client.Auth.{
  lock_stale_ms, Spend, Token, TokenReply, Home, AuthBackend, is_truthy, ms_left, written,
  save_token, created, open_lock, reclaim, acquire_refresh_lock, release_refresh_lock, reload,
  still_valid, post_refresh, is_invalid_grant, refused, granted, with_reply, redeem,
  refresh_current, refresh_locked, guarded_refresh, refresh_token_of, with_token,
  get_valid_access_token,
}

module _ {W : Type 0} (b : AuthBackend W) (now skew_ms : ℕ) where
  -- No lock file, or one that is stale by some reading of the clock.
  abbrev pub IsFree : Option ℕ → Type 0
  IsFree none = Unit
  IsFree (some mtime) = (w : W) × (ltb (mtime + lock_stale_ms) (b.clock w).0 ≡ true)

  module _ (sent : List Spend) where
    abbrev Sent : Home W → Type 0
    Sent s = s.redeemed ≡ sent

    written-inv : (w : Bool) (t : Token) → Keeps Sent (written b now skew_ms w t)
    written-inv true t s h = h
    written-inv false t s h = h

    save-inv : (t : Token) → Keeps Sent (save_token b now skew_ms t)
    unfolding save_token
    save-inv t s h = written-inv (b.can_write s.world).0 t _ h

    refused-inv : (cur : Token) (r : TokenReply) → Keeps Sent (refused b now skew_ms cur r)
    unfolding refused
    refused-inv cur r =
        Keeps-if Sent (is_invalid_grant b now skew_ms r) _ _
          (λ _. Keeps->>= Sent _ _ (save-inv _) (λ _ _ h. h)) (λ _ _ h. h)

    reply-inv :
        (cur : Token) (r : TokenReply) (o : Option String)
        → Keeps Sent (with_reply b now skew_ms cur r o)
    unfolding with_reply granted
    reply-inv cur r none = refused-inv cur r
    reply-inv cur r (some access) =
        Keeps-if Sent (r.is_ok && truthy access) _ _
          (λ _. Keeps->>= Sent _ _ (save-inv _) (λ _ _ h. h)) (λ _. refused-inv cur r)

  -- At most one refresh token more was sent, while this lock was in place.
  abbrev AreSent : ℕ → List Spend → List Spend → Type 0
  AreSent mtime before end =
      (end ≡ before) ⊎ ((r : String) × (end ≡ record { token = r; lock = some mtime } ∷ before))

  module _ (mtime : ℕ) (sent : List Spend) where
    abbrev AtMostOne : Home W → Type 0
    AtMostOne s = AreSent mtime sent s.redeemed

    abbrev Starts : Home W → Type 0
    Starts s = (s.lock ≡ some mtime) × (s.redeemed ≡ sent)

    abbrev spent : String → List Spend
    spent r = record { token = r; lock = some mtime } ∷ sent

    posted :
        (r : String) (o : Outcome TokenReply × W) (s : Home W)
        → Starts s
        → Ends AtMostOne
            (λ reply s. s.redeemed ≡ spent r)
            (
              o.0,
              record s { redeemed = record { token = r; lock = s.lock } ∷ s.redeemed; world = o.1 },
            )
    posted r (ok reply, w) s (l, h) = rw (l, h) refl
    posted r (thrown e, w) s (l, h) = inr (r, rw (l, h) refl)

    redeem-inv :
        (cur : Token) (o : Option String) (s : Home W)
        → Starts s
        → AtMostOne (redeem b now skew_ms cur o s).1
    unfolding redeem post_refresh
    redeem-inv cur none s h = inl h.1
    redeem-inv cur (some r) s h = elim (Bool-cases (not (truthy r))) [
      | inl e ↦ rw e (inl h.1)
      | inr e ↦ rw e (
          after-via AtMostOne (post_refresh b now skew_ms r s) _
            (posted r (b.refresh r s.world) s h)
            (λ reply s k. inr (r, reply-inv (spent r) cur reply reply.body.access_token s k)))
    ]

    current-inv :
        (cur : Token) (s : Home W) → Starts s → AtMostOne (refresh_current b now skew_ms cur s).1
    unfolding refresh_current
    current-inv cur s h = elim (Bool-cases (ltb_ℤ (pos skew_ms) (ms_left b now skew_ms cur))) [
      | inl e ↦ rw e (inl h.1)
      | inr e ↦ rw e (redeem-inv cur cur.refresh_token s h)
    ]

    locked-inv :
        (t : Token) (s : Home W) → Starts s → AtMostOne (refresh_locked b now skew_ms t s).1
    unfolding refresh_locked reload after
    locked-inv t s h = current-inv _ _ h

    caught-inv :
        (t : Token) (r : Outcome (Option String) × Home W)
        → AtMostOne r.1
        → AtMostOne (handled r (λ e. pure (still_valid b now skew_ms t))).1
    unfolding handled
    caught-inv t (ok o, s) h = h
    caught-inv t (thrown e, s) h = h

    -- The lock is gone after a refresh that held it.
    guarded-inv :
        (t : Token) (s : Home W)
        → Starts s
        → AtMostOne (guarded_refresh b now skew_ms t true s).1
          × ((guarded_refresh b now skew_ms t true s).1.lock ≡ none)
    unfolding ended release_refresh_lock
    guarded-inv t s h = (caught-inv t (refresh_locked b now skew_ms t s) (locked-inv t s h), refl)

  -- What a call for the lock did: it sends nothing, and gets only a free lock, which is then in place.
  abbrev IsTaken : Option ℕ → List Spend → Outcome Bool × Home W → Type 0
  IsTaken lock sent (ok true, s) =
      IsFree lock × (s.redeemed ≡ sent) × (mtime : ℕ) × (s.lock ≡ some mtime)
  IsTaken lock sent (ok false, s) = s.redeemed ≡ sent
  IsTaken lock sent (thrown e, s) = s.redeemed ≡ sent

  created-IsTaken :
      (lock : Option ℕ) (sent : List Spend) (w : Bool) (s : Home W)
      → IsFree lock
      → s.redeemed ≡ sent
      → IsTaken lock sent (created b now skew_ms w s)
  created-IsTaken lock sent true s f h = (f, h, (b.clock s.world).0, refl)
  created-IsTaken lock sent false s f h = h

  reclaim-IsTaken :
      (lock : Option ℕ) (s : Home W) → IsTaken lock s.redeemed (reclaim b now skew_ms lock s)
  reclaim-IsTaken none s = refl
  reclaim-IsTaken (some mtime) s =
      elim (Bool-cases (ltb (mtime + lock_stale_ms) (b.clock s.world).0)) [
        | inl e ↦ rw e (
            created-IsTaken (some mtime) s.redeemed (b.can_write (b.clock s.world).1).0 _
              (s.world, e) refl)
        | inr e ↦ rw e refl
      ]

  acquired-IsTaken :
      (w : Bool) (s : Home W)
      → s.lock ≡ none
      → IsTaken none s.redeemed (
          after
            (created b now skew_ms w s)
            (λ opened. if opened then pure true else (λ s. reclaim b now skew_ms s.lock s)))
  unfolding after
  acquired-IsTaken true s e = (tt, refl, (b.clock s.world).0, refl)
  acquired-IsTaken false s e = rw e refl

  IsTaken-from :
      (o : Option ℕ) (s : Home W)
      → s.lock ≡ o
      → IsTaken o s.redeemed (
          after
            (open_lock b now skew_ms o s)
            (λ opened. if opened then pure true else (λ s. reclaim b now skew_ms s.lock s)))
  unfolding after
  IsTaken-from none s e = acquired-IsTaken (b.can_write s.world).0 _ e
  IsTaken-from (some mtime) s e =
      subst (λ o. IsTaken (some mtime) s.redeemed (reclaim b now skew_ms o s)) (sym e)
        (reclaim-IsTaken (some mtime) s)

  acquire-IsTaken : (s : Home W) → IsTaken s.lock s.redeemed (acquire_refresh_lock b now skew_ms s)
  unfolding acquire_refresh_lock
  acquire-IsTaken s = IsTaken-from s.lock s refl

  -- Either no refresh token was sent, or exactly one: then the lock had been free, a lock was in place
  -- when the token was sent, and it is gone.
  abbrev pub IsSpent : Home W → Home W → Type 0
  IsSpent before end =
      (end.redeemed ≡ before.redeemed)
      ⊎ (((mtime : ℕ) × (r : String) × (end.redeemed
              ≡ record { token = r; lock = some mtime } ∷ before.redeemed))
          × IsFree before.lock
          × (end.lock ≡ none))

  IsSpent-by :
      (mtime : ℕ) (before end : Home W)
      → IsFree before.lock
      → AreSent mtime before.redeemed end.redeemed × (end.lock ≡ none)
      → IsSpent before end
  IsSpent-by mtime before end f (inl e, l) = inl e
  IsSpent-by mtime before end f (inr (r, e), l) = inr ((mtime, r, e), f, l)

  after_taken :
      (before : Home W) (t : Token) (r : Outcome Bool × Home W)
      → IsTaken before.lock before.redeemed r
      → IsSpent before (after r (guarded_refresh b now skew_ms t)).1
  unfolding after
  after_taken before t (ok true, s) (f, h, mtime, l) =
      IsSpent-by mtime before (guarded_refresh b now skew_ms t true s).1 f
        (guarded-inv mtime before.redeemed t s (l, h))
  after_taken before t (ok false, s) h = inl h
  after_taken before t (thrown e, s) h = inl h

  refresh-IsSpent : (t : Token) (s : Home W) → IsSpent s (refresh_token_of b now skew_ms t s).1
  unfolding refresh_token_of
  refresh-IsSpent t s = after_taken s t (acquire_refresh_lock b now skew_ms s) (acquire-IsTaken s)

  token-IsSpent : (o : Option Token) (s : Home W) → IsSpent s (with_token b now skew_ms o s).1
  unfolding with_token
  token-IsSpent none s = inl refl
  token-IsSpent (some t) s = elim (Bool-cases (truthy t.access_token)) [
    | inl h ↦ rw h (elim (Bool-cases (ltb_ℤ (pos skew_ms) (ms_left b now skew_ms t))) [
      | inl e ↦ rw e (inl refl)
      | inr e ↦ rw e (elim (Bool-cases (is_truthy t.refresh_token)) [
        | inl i ↦ rw i (refresh-IsSpent t s)
        | inr i ↦ rw i (inl refl)
      ])
    ])
    | inr h ↦ rw h (inl refl)
  ]

  -- A tick sends no refresh token, or exactly one: then there was no lock at its start, or a stale
  -- one, a lock file was in place when the token was sent, and it is gone at the end. This holds
  -- whatever the server answers and whether or not files can be written.
  pub get_valid_access_token-IsSpent :
      (s : Home W) → IsSpent s (get_valid_access_token b now skew_ms s).1
  unfolding get_valid_access_token
  get_valid_access_token-IsSpent s = token-IsSpent s.token s
