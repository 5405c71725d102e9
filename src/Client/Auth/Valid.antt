-- ===== src/Client/Auth/Valid.antt =====
-- A tick gets an access token without a throw, under the lock or without it (src/client/auth.mjs).
use luma_line.Prelude.{
  ℕ, String, Bool, true, false, Option, none, some, ◌≡◌, refl, inl, inr, if◌then◌else◌, Bool-cases,
  ltb, ◌+◌, truthy, pos, ltb_ℤ, arith,
}
use luma_line.Prelude.Effects.{Outcome, ok, thrown, Action, pure, after, handled, ended}
use luma_line.Client.Auth.{
  lock_stale_ms, Token, Home, AuthBackend, is_truthy, ms_left, created, open_lock, reclaim,
  acquire_refresh_lock, release_refresh_lock, reload, or_token, still_valid, refresh_locked,
  guarded_refresh, refresh_token_of, with_token, get_valid_access_token,
}
use luma_line.Client.Auth.Served.{Serves, MayServe, IsKnown, valid_start, known_fresh, current_may}

module _ {W : Type 0} (b : AuthBackend W) (now skew_ms : ℕ) where
  -- The call returns.
  abbrev IsCalm : {A : Type 0} → Outcome A × Home W → Type 0
  IsCalm (ok a, s) = Unit
  IsCalm (thrown e, s) = ⊥

  created-IsCalm : (w : Bool) (s : Home W) → IsCalm (created b now skew_ms w s)
  created-IsCalm true s = tt
  created-IsCalm false s = tt

  open-IsCalm : (o : Option ℕ) (s : Home W) → IsCalm (open_lock b now skew_ms o s)
  open-IsCalm none s = created-IsCalm (b.can_write s.world).0 _
  open-IsCalm (some mtime) s = tt

  reclaim-IsCalm : (o : Option ℕ) (s : Home W) → IsCalm (reclaim b now skew_ms o s)
  reclaim-IsCalm none s = tt
  reclaim-IsCalm (some mtime) s =
      elim (Bool-cases (ltb (mtime + lock_stale_ms) (b.clock s.world).0)) [
        | inl e ↦ rw e (open-IsCalm none _)
        | inr e ↦ rw e tt
      ]

  acquired-IsCalm :
      (r : Outcome Bool × Home W)
      → IsCalm r
      → IsCalm
          (after r (λ opened. if opened then pure true else (λ s. reclaim b now skew_ms s.lock s)))
  unfolding after
  acquired-IsCalm (ok true, s) h = tt
  acquired-IsCalm (ok false, s) h = reclaim-IsCalm s.lock s
  acquired-IsCalm (thrown e, s) h = h

  acquire-IsCalm : (s : Home W) → IsCalm (acquire_refresh_lock b now skew_ms s)
  unfolding acquire_refresh_lock
  acquire-IsCalm s = acquired-IsCalm (open_lock b now skew_ms s.lock s) (open-IsCalm s.lock s)

  module _ (t : Token) (given : truthy t.access_token ≡ true) where
    reloaded-IsKnown :
        (file : Option Token) → IsKnown b now skew_ms (some t) (or_token b now skew_ms file t) file
    reloaded-IsKnown none = inl (refl, given)
    reloaded-IsKnown (some cur) = inr refl

    locked_may : (s : Home W) → MayServe b now skew_ms (some t) (refresh_locked b now skew_ms t s)
    unfolding refresh_locked reload after
    locked_may s =
        current_may b now skew_ms (some t) _ _ (reloaded-IsKnown (b.meanwhile s.world s.token).0)

    caught-Serves :
        (r : Outcome (Option String) × Home W)
        → MayServe b now skew_ms (some t) r
        → Serves b now skew_ms (some t) (handled r (λ e. pure (still_valid b now skew_ms t)))
    unfolding handled
    caught-Serves (ok o, s) h = h
    caught-Serves (thrown e, s) h = valid_start b now skew_ms t s.token given

    ended-Serves :
        (r : Outcome (Option String) × Home W)
        → Serves b now skew_ms (some t) r
        → Serves b now skew_ms (some t) (ended r.0 (release_refresh_lock b now skew_ms r.1))
    unfolding ended release_refresh_lock
    ended-Serves (ok o, s) h = h
    ended-Serves (thrown e, s) h = h

    guarded-Serves :
        (locked : Bool) (s : Home W)
        → Serves b now skew_ms (some t) (guarded_refresh b now skew_ms t locked s)
    guarded-Serves false s = valid_start b now skew_ms t s.token given
    guarded-Serves true s = ended-Serves _ (caught-Serves _ (locked_may s))

    after-Serves :
        {A : Type 0} (r : Outcome A × Home W) (f : A → Action (Home W) (Option String))
        → IsCalm r
        → ((a : A) (s : Home W) → Serves b now skew_ms (some t) (f a s))
        → Serves b now skew_ms (some t) (after r f)
    unfolding after
    after-Serves (ok a, s) f h k = k a s
    after-Serves (thrown e, s) f h k = h

    refresh-Serves :
        (s : Home W) → Serves b now skew_ms (some t) (refresh_token_of b now skew_ms t s)
    unfolding refresh_token_of
    refresh-Serves s = after-Serves _ _ (acquire-IsCalm s) guarded-Serves

  token-Serves :
      (o : Option Token) (s : Home W) → Serves b now skew_ms o (with_token b now skew_ms o s)
  unfolding with_token
  token-Serves none s = inl (λ u. u)
  token-Serves (some t) s = elim (Bool-cases (truthy t.access_token)) [
    | inl h ↦ rw h (elim (Bool-cases (ltb_ℤ (pos skew_ms) (ms_left b now skew_ms t))) [
      | inl e ↦ rw e (known_fresh b now skew_ms (some t) t s.token (inl (refl, h)) e)
      | inr e ↦ rw e (elim (Bool-cases (is_truthy t.refresh_token)) [
        | inl i ↦ rw i (refresh-Serves t h s)
        | inr i ↦ rw i (valid_start b now skew_ms t s.token h)
      ])
    ])
    | inr h ↦ rw h (inl (λ u. ground arith))
  ]

  -- A tick never throws. If it gets an access token, that is the one of the file at the start, which
  -- then had time left, or the one that the file holds at the end, which then has time left or was
  -- granted by the token server with success. It stays anonymous only if the file at the start, or
  -- the one at the end, had no access token or no time left. This holds whatever the token server
  -- answers, whether files can be written, and whatever other processes leave in the file.
  pub get_valid_access_token-IsServed :
      (s : Home W) → Serves b now skew_ms s.token (get_valid_access_token b now skew_ms s)
  unfolding get_valid_access_token
  get_valid_access_token-IsServed s = token-Serves s.token s
