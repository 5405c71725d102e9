-- ===== src/Device/Once.antt =====
-- One session for each device code, supabase/functions/auth-device/index.ts.
use luma_line.Prelude.{
  ℕ, String, Bool, true, false, not, ◌&&◌, ◌||◌, Option, none, some, List, [], ◌∷◌, ◌+◌, ◌≤◌, ◌≡◌,
  refl, sym, ap, subst, ◌∙◌, any, select, length, if◌then◌else◌, str_eq, eq_iff, truthy, ◌&◌, arith,
  Bool-cases, inl, inr,
}
use luma_line.Prelude.Effects.{
  Outcome, ok, thrown, pure, Keeps, Keeps->>=, Keeps-if, Keeps-catch, after,
}
use luma_line.Cycle.{Fate, applied, refused, lost, unanswered}
use luma_line.Device.{
  GrantStatus, pending, approved, denied, expired, consumed, Grant, Identity, Redeemed, no_grant,
  was_expired, still_pending, was_denied, was_consumed, being_deleted, granted, Issued, Gate,
  DeviceBackend, redeem_row, redeem_grant, approve_row, approve_grant, is_taken, start_grant,
  start_code, redeem_code, outside, call, tried, meet_grants, grants_rpc, device_rate_ok, json_err,
  is_false, ip_throttle, create_throttle_ok, started, start_device, when_throttled,
  when_code_allowed, device_code, issue, on_redeemed, redeem_answered, redeem_with, redeem,
  when_token_allowed, device_token, Happening, code_requested, approved_by, polled, happen,
  happenings,
}

abbrev pub is_consumed : GrantStatus → Bool
is_consumed pending = false
is_consumed approved = false
is_consumed denied = false
is_consumed expired = false
is_consumed consumed = true

-- The grants of a digest that are not consumed.
abbrev pub open_grants : String → List Grant → ℕ
open_grants hash gs =
    length (select (λ g. str_eq g.code_hash hash && not (is_consumed g.status)) gs)

abbrev pub is_known : String → List Grant → Bool
is_known hash = any (λ (g : Grant). str_eq g.code_hash hash)

-- The sessions that were handed out for a digest.
abbrev pub sessions : String → List Issued → ℕ
sessions hash is = length (select (λ (i : Issued). str_eq i.code_hash hash) is)

abbrev gain : Redeemed → ℕ
gain no_grant = 0
gain was_expired = 0
gain still_pending = 0
gain was_denied = 0
gain was_consumed = 0
gain being_deleted = 0
gain (granted who) = 1

abbrev gain_of : String → String → Redeemed → ℕ
gain_of hash other r = if str_eq other hash then gain r else 0

redeem_row-open :
    (hash : String) (now : ℕ) (deleting : String → Bool) (device : String) (g : Grant)
    (status : GrantStatus)
    → g.status ≡ status
    → let row = redeem_row now deleting device g status in
      (row.1.code_hash ≡ g.code_hash)
      × (open_grants hash (row.1 ∷ []) + gain_of hash g.code_hash row.0 ≤ open_grants hash (g ∷ []))
unfolding redeem_row
redeem_row-open hash now deleting device g pending e = ground arith
redeem_row-open hash now deleting device g approved e = ground arith
redeem_row-open hash now deleting device g denied e = ground arith
redeem_row-open hash now deleting device g expired e = ground arith
redeem_row-open hash now deleting device g consumed e = ground arith

open_cons :
    (hash : String) (g : Grant) (gs : List Grant)
    → open_grants hash (g ∷ gs) ≡ open_grants hash (g ∷ []) + open_grants hash gs
open_cons hash g gs = ground arith

redeem_grant-open :
    (hash other : String) (now : ℕ) (deleting : String → Bool) (device : String) (gs : List Grant)
    → let r = redeem_grant other now deleting device gs in
      (open_grants hash r.1 + gain_of hash other r.0 ≤ open_grants hash gs)
      × (is_known hash r.1 ≡ is_known hash gs)
unfolding redeem_grant
redeem_grant-open hash other now deleting device [] = ground arith
redeem_grant-open hash other now deleting device (g ∷ gs) =
    let row = redeem_row-open hash now deleting device g g.status refl in
    let rest = redeem_grant-open hash other now deleting device gs in
    let new = redeem_row now deleting device g g.status in
    let later = (redeem_grant other now deleting device gs).1 in
    elim (Bool-cases (str_eq g.code_hash other)) [
      | inl e ↦
          let gained =
            subst
              (λ h.
                open_grants hash (new.1 ∷ []) + gain_of hash h new.0 ≤ open_grants hash (g ∷ []))
              ((eq_iff g.code_hash other).0 e) row.1 in
          rw e
            (omega (arith, gained, open_cons hash new.1 gs, open_cons hash g gs), rw (row.0) refl)
      | inr n ↦ rw n (
        omega (arith, rest.0, open_cons hash g gs, open_cons hash g later),
        ap (λ k. str_eq g.code_hash hash || k) rest.1,
      )
    ]

approve_row-open :
    (hash : String) (now : ℕ) (publisher : String) (g : Grant) (status : GrantStatus)
    → g.status ≡ status
    → let row = approve_row now publisher g status in
      (row.code_hash ≡ g.code_hash) × (open_grants hash (row ∷ []) ≤ open_grants hash (g ∷ []))
approve_row-open hash now publisher g pending e = ground arith
approve_row-open hash now publisher g approved e = ground arith
approve_row-open hash now publisher g denied e = ground arith
approve_row-open hash now publisher g expired e = ground arith
approve_row-open hash now publisher g consumed e = ground arith

approve_grant-open :
    (hash code : String) (now : ℕ) (publisher : String) (gs : List Grant)
    → (open_grants hash (approve_grant code now publisher gs) ≤ open_grants hash gs)
      × (is_known hash (approve_grant code now publisher gs) ≡ is_known hash gs)
unfolding approve_grant
approve_grant-open hash code now publisher [] = ground arith
approve_grant-open hash code now publisher (g ∷ gs) =
    let row = approve_row-open hash now publisher g g.status refl in
    let rest = approve_grant-open hash code now publisher gs in
    let new = approve_row now publisher g g.status in
    elim (Bool-cases (str_eq g.user_code code)) [
      | inl e ↦
          rw e (omega (arith, row.1, open_cons hash new gs, open_cons hash g gs), rw (row.0) refl)
      | inr n ↦ rw n (
        omega (
          arith,
          rest.0,
          open_cons hash g gs,
          open_cons hash g (approve_grant code now publisher gs),
        ),
        ap (λ k. str_eq g.code_hash hash || k) rest.1,
      )
    ]

taken_known :
    (hash code : String) (gs : List Grant)
    → is_taken hash code gs ≡ false
    → is_known hash gs ≡ false
taken_known hash code [] e = refl
taken_known hash code (g ∷ gs) e = ground (arith, taken_known hash code gs)

unknown_open :
    (hash : String) (gs : List Grant) → is_known hash gs ≡ false → open_grants hash gs ≡ 0
unknown_open hash [] e = refl
unknown_open hash (g ∷ gs) e = ground (arith, unknown_open hash gs)

module _ {W : Type 0} (b : DeviceBackend W) (hash : String) where
  -- A session of the digest, or a grant that may still give one: never two, and none for a digest
  -- that is not known.
  abbrev pub IsSingle : Gate W → Type 0
  IsSingle s =
      (sessions hash s.issued + open_grants hash s.grants ≤ 1)
      × (is_known hash s.grants ≡ false → sessions hash s.issued ≡ 0)

  abbrev I : Gate W → Type 0
  I = IsSingle

  start-IsSingle :
      (other code : String) (expires : ℕ) (s : Gate W)
      → I s
      → I (record s { grants = start_grant other code expires s.grants })
  unfolding start_grant
  start-IsSingle other code expires s h = elim (Bool-cases (is_taken other code s.grants)) [
    | inl e ↦ rw e h
    | inr n ↦ elim (Bool-cases (str_eq other hash)) [
      | inl y ↦
          let unknown =
            subst (λ k. is_known k s.grants ≡ false) ((eq_iff other hash).0 y)
              (taken_known other code s.grants n) in
          let none_open = unknown_open hash s.grants unknown in
          let none_yet = h.1 unknown in
          rw n (rw y (omega (arith, none_open, none_yet), (λ x. none_yet)))
      | inr x ↦ rw n (rw x h)
    ]
  ]

  -- After a redemption a session of the digest may be handed out, if it was granted.
  abbrev IsGranted : String → Redeemed → Gate W → Type 0
  IsGranted other r s =
      (sessions hash s.issued + open_grants hash s.grants + gain_of hash other r ≤ 1)
      × (is_known hash s.grants ≡ false → sessions hash s.issued ≡ 0)
      × (is_known hash s.grants ≡ false → gain_of hash other r ≡ 0)

  weaken : (other : String) (r : Redeemed) (s : Gate W) → IsGranted other r s → I s
  weaken other r s h = (omega (arith, h.0), h.1)

  issue-IsSingle :
      (other refresh : String) (who : Identity) (o : Outcome String) (s : Gate W)
      → IsGranted other (granted who) s
      → I (issue b other refresh who o s).1
  unfolding issue
  issue-IsSingle other refresh who (thrown e) s h = weaken other (granted who) s h
  issue-IsSingle other refresh who (ok token) s h = elim (Bool-cases (str_eq other hash)) [
    | inl y ↦
        let one : sessions hash s.issued + open_grants hash s.grants + 1 ≤ 1 = rw (y) at h.0 in
        let known : is_known hash s.grants ≡ false → ◌≡◌ {A = ℕ} 1 0 = rw (y) at h.2 in
        rw y (omega (arith, one), (λ x. absurd (omega (arith, known x))))
    | inr n ↦ rw n (weaken other (granted who) s h)
  ]

  redeemed-IsSingle :
      (other refresh : String) (r : Redeemed) (s : Gate W)
      → IsGranted other r s
      → I (on_redeemed b other refresh r s).1
  unfolding on_redeemed after
  redeemed-IsSingle other refresh no_grant s h = weaken other no_grant s h
  redeemed-IsSingle other refresh was_expired s h = weaken other was_expired s h
  redeemed-IsSingle other refresh still_pending s h = weaken other still_pending s h
  redeemed-IsSingle other refresh was_denied s h = weaken other was_denied s h
  redeemed-IsSingle other refresh was_consumed s h = weaken other was_consumed s h
  redeemed-IsSingle other refresh being_deleted s h = weaken other being_deleted s h
  redeemed-IsSingle other refresh (granted who) s h =
      issue-IsSingle other refresh who (b.mint who s.world).0
        (record s { world = (b.mint who s.world).1 }) h

  grant-IsGranted :
      (other : String) (now : ℕ) (deleting : String → Bool) (device : String) (s : Gate W)
      → I s
      → let r = redeem_grant other now deleting device s.grants in
        IsGranted other r.0 (record s { grants = r.1 })
  grant-IsGranted other now deleting device s h =
      let (few, same) = redeem_grant-open hash other now deleting device s.grants in
      (
        omega (arith, few, h.0),
        (λ x. h.1 (sym same ∙ x)),
        (λ x. omega (arith, few, unknown_open hash s.grants (sym same ∙ x))),
      )

  met-IsSingle :
      (other refresh device : String) (now : ℕ) (deleting : String → Bool) (o : Fate) (s : Gate W)
      → I s
      → let r = meet_grants b (redeem_grant other now deleting device) o s in
        I (redeem_answered b other refresh r.0 r.1).1
  unfolding redeem_answered
  met-IsSingle other refresh device now deleting applied s h =
      redeemed-IsSingle other refresh _ _ (grant-IsGranted other now deleting device s h)
  met-IsSingle other refresh device now deleting refused s h = h
  met-IsSingle other refresh device now deleting lost s h = h
  met-IsSingle other refresh device now deleting unanswered s h =
      let r = redeem_grant other now deleting device s.grants in
      weaken other r.0 (record s { grants = r.1 }) (grant-IsGranted other now deleting device s h)

  redeem_with-IsSingle :
      (code refresh : String) (now : ℕ) (device : String)
      → Keeps I (redeem_with b code refresh now device)
  unfolding redeem_with grants_rpc
  redeem_with-IsSingle code refresh now device s h =
      met-IsSingle (b.digest code) refresh device now (λ p. b.is_deleting p s.world)
        (b.fate redeem_code s.world).0 (record s { world = (b.fate redeem_code s.world).1 }) h

  outside-inv : {A : Type 0} (f : W → A × W) → Keeps I (outside b f)
  outside-inv f s h = h

  redeem-IsSingle : (code : String) → Keeps I (redeem b code)
  unfolding redeem
  redeem-IsSingle code = Keeps->>= I _ _ (outside-inv b.random) (λ refresh.
      Keeps->>= I _ _ (outside-inv b.now) (λ now.
        Keeps->>= I _ _ (outside-inv b.random)
          (λ device. redeem_with-IsSingle code refresh now device)))

  rate-IsSingle : (ip bucket : String) → Keeps I (device_rate_ok b ip bucket)
  unfolding device_rate_ok
  rate-IsSingle ip bucket s h = elim (Bool-cases (not (truthy ip))) [
    | inl e ↦ rw e h
    | inr n ↦ rw n h
  ]

  token-IsSingle : (code : String) (o : Bool) → Keeps I (when_token_allowed b code o)
  unfolding when_token_allowed
  token-IsSingle code false = λ _ h. h
  token-IsSingle code true =
      Keeps-if I (truthy code) _ (pure (json_err "invalid_request" 400)) (λ _. redeem-IsSingle code)
        (λ _ _ h. h)

  throttle-inv : {A : Type 0} (f : W → Outcome A × W) → Keeps I (call b f)
  throttle-inv f s h = h

  ip-IsSingle : (o : Option String) → Keeps I (ip_throttle b o)
  unfolding ip_throttle
  ip-IsSingle none = λ _ h. h
  ip-IsSingle (some digest) =
      Keeps-if I (truthy digest) _ (pure true)
        (λ _. Keeps->>= I _ _ (throttle-inv (b.throttle ("devcode_ip:" & digest))) (λ _ _ h. h))
        (λ _ _ h. h)

  create-IsSingle : (ip : String) → Keeps I (create_throttle_ok b ip)
  unfolding create_throttle_ok
  create-IsSingle ip =
      Keeps-catch I _ _
        (Keeps->>= I _ _ (throttle-inv (b.throttle "devcode_global")) (λ allowed.
          Keeps-if I (is_false allowed) (pure false) _ (λ _ _ h. h)
            (λ _. ip-IsSingle (b.ip_digest ip))))
        (λ _ _ h. h)

  started-inv :
      (code display : String) (o : Outcome (Option (Unit {0}))) → Keeps I (started b code display o)
  unfolding started
  started-inv code display (thrown e) = λ _ h. h
  started-inv code display (ok reply) = λ _ h. h

  start_met :
      (other code : String) (expires : ℕ) (o : Fate)
      → Keeps I (meet_grants b (λ gs. (tt, start_grant other code expires gs)) o)
  start_met other code expires applied s h = start-IsSingle other code expires s h
  start_met other code expires refused s h = h
  start_met other code expires lost s h = h
  start_met other code expires unanswered s h = start-IsSingle other code expires s h

  start_device-IsSingle : Keeps I (start_device b)
  unfolding start_device grants_rpc
  start_device-IsSingle = Keeps->>= I _ _ (outside-inv b.random) (λ code.
      Keeps->>= I _ _ (outside-inv b.user_code) (λ texts.
        Keeps->>= I _ _ (outside-inv b.now) (λ now.
          Keeps->>= I (tried b (grants_rpc b start_code _)) _
            (λ s h.
              start_met _ _ _ (b.fate start_code s.world).0
                (record s { world = (b.fate start_code s.world).1 }) h)
            (started-inv code texts.0))))

  throttled-IsSingle : (o : Bool) → Keeps I (when_throttled b o)
  unfolding when_throttled
  throttled-IsSingle false = λ _ h. h
  throttled-IsSingle true = start_device-IsSingle

  code-IsSingle : (ip : String) (o : Bool) → Keeps I (when_code_allowed b ip o)
  unfolding when_code_allowed
  code-IsSingle ip false = λ _ h. h
  code-IsSingle ip true = Keeps->>= I _ _ (create-IsSingle ip) throttled-IsSingle

  happen-IsSingle : (h : Happening) (s : Gate W) → I s → I (happen b h s)
  unfolding device_code device_token
  happen-IsSingle (code_requested ip) = Keeps->>= I _ _ (rate-IsSingle ip "code") (code-IsSingle ip)
  happen-IsSingle (approved_by code now publisher) = λ s h.
      let (few, same) = approve_grant-open hash code now publisher s.grants in
      (omega (arith, few, h.0), (λ x. h.1 (sym same ∙ x)))
  happen-IsSingle (polled ip code) =
      Keeps->>= I _ _ (rate-IsSingle ip "token") (token-IsSingle code)

-- Whatever happens in whatever order - codes are requested, approved and polled for, answers of the
-- database are refused or lost, tokens cannot be signed - at most one session is handed out for a
-- device code, by its digest. This is supposed of the sessions handed out before, together with the
-- grants that may still give one.
pub happenings-IsSingle :
    {W : Type 0} (b : DeviceBackend W) (hash : String) (hs : List Happening) (s : Gate W)
    → sessions hash s.issued + open_grants hash s.grants ≤ 1
    → (is_known hash s.grants ≡ false → sessions hash s.issued ≡ 0)
    → sessions hash (happenings b hs s).issued ≤ 1
happenings-IsSingle b hash hs s few none_unknown = omega (arith, (all hs s (few, none_unknown)).0)
  where
    all :
        (hs : List Happening) (s : Gate _) → IsSingle b hash s → IsSingle b hash (happenings b hs s)
    all [] s h = h
    all (x ∷ hs) s h = all hs (happen b x s) (happen-IsSingle b hash x s h)
