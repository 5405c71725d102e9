-- ===== src/Connect/Onboarding/Guarded.antt =====
-- What POST /connect/onboard of supabase/functions/stripe-connect/index.ts may ask of Stripe.
use luma_line.Prelude.{
  String, Bool, true, false, not, ◌&&◌, Option, none, some, List, [], ◌∷◌, ◌≡◌, refl, sym, All,
  truthy, starts_with, arith,
}
use luma_line.Prelude.Effects.{
  Outcome, ok, thrown, pure, throw, Keeps, Keeps->>=, Keeps-if, Keeps-catch, Keeps-via, Ends,
}
use luma_line.Cycle.Fates.{Keeps-meet, Keeps-meet_read}
use luma_line.Cycle.Settle.{stripe_missing, stripe_not_test}
use luma_line.Edge.Bearer.{bearer_header}
use luma_line.Payout.Onboard.{can_redo_onboard_country, resolve_onboard_country}
use luma_line.Connect.{Publisher}
use luma_line.Connect.Onboarding.{
  Account, AccountRequest, Bureau, OnboardBackend, OnboardRequest, is_supported, is_given, differs,
  call, patch_publisher, caller_publisher, stripe_client, delete_account, create_account, link_to,
  create_in, create_new, ensure_account, redo_country, onboard_account, tried, when_ready,
  with_publisher, as_caller, onboard, onboard_all,
}

-- Stripe said of the account that nothing was submitted for it and that it has no payouts.
abbrev pub IsUnfinished : {W : Type 0} → OnboardBackend W → String → Type 0
IsUnfinished {W} b account =
    (w : W) × (a : Account) × ((b.retrieve_account account w).0 ≡ ok a)
    × (a.details_submitted ≡ false)
    × (a.payouts_enabled ≡ false)

abbrev pub IsOpenTo : AccountRequest → Type 0
IsOpenTo r = is_supported r.country ≡ true

not-not : {c : Bool} → not c ≡ false → c ≡ true
not-not {c = true} e = refl
not-not {c = false} e = sym e

redo_unfinished :
    (requested stored : Option String) (submitted enabled : Bool)
    → can_redo_onboard_country requested stored submitted enabled ≡ true
    → (submitted ≡ false) × (enabled ≡ false)
unfolding can_redo_onboard_country
redo_unfinished none stored submitted enabled h = ground arith
redo_unfinished (some r) stored submitted enabled h = ground arith

module _ {W : Type 0} (b : OnboardBackend W) where
  abbrev pub IsGuarded : Bureau W → Type 0
  IsGuarded s = All (IsUnfinished b) s.deleted × All IsOpenTo s.created

  abbrev I : Bureau W → Type 0
  I = IsGuarded

  call-inv : {A : Type 0} (f : W → Outcome A × W) → Keeps I (call b f)
  call-inv f s h = h

  patch-inv : (id : String) (f : Publisher → Publisher) → Keeps I (patch_publisher b id f)
  unfolding patch_publisher
  patch-inv id f s h =
      Keeps-meet I _ (λ _ k. k) (b.fate s.world).0 (record s { world = (b.fate s.world).1 }) h

  link-inv : (account : String) → Keeps I (link_to b account)
  unfolding link_to
  link-inv account = Keeps->>= I _ _ (call-inv (b.create_link account)) (λ _ _ h. h)

  create_in-inv : (publisher country : String) → Keeps I (create_in b publisher country)
  unfolding create_in
  create_in-inv publisher country =
      Keeps-if I (not (is_supported country)) _ _
        (λ _. Keeps->>= I _ _ (patch-inv publisher _) (λ _ _ h. h))
        (λ e.
          Keeps->>= I _ _ (create-inv (not-not e))
            (λ account. Keeps->>= I _ _ (patch-inv publisher _) (λ _. link-inv account)))
    where
      create-inv :
          is_supported country ≡ true
          → Keeps I (create_account b (record { publisher_id = publisher; country = country }))
      create-inv e s h = (h.0, (e, h.1))

  new-inv : (publisher : String) (o : Option String) → Keeps I (create_new b publisher o)
  unfolding create_new
  new-inv publisher none = λ _ h. h
  new-inv publisher (some country) = create_in-inv publisher country

  ensure-inv :
      (req : OnboardRequest) (q : Publisher) (requested stored account : Option String)
      → Keeps I (ensure_account b req q requested stored account)
  unfolding ensure_account
  ensure-inv req q requested stored none =
      new-inv q.id (resolve_onboard_country b.upper requested stored req.header_country)
  ensure-inv req q requested stored (some account) =
      Keeps-if I (truthy account) _ _ (λ _. link-inv account)
        (λ _. new-inv q.id (resolve_onboard_country b.upper requested stored req.header_country))

  delete-inv : (account : String) → IsUnfinished b account → Keeps I (delete_account b account)
  unfolding delete_account
  delete-inv account u s h = ((u, h.0), h.1)

  redo-inv :
      (req : OnboardRequest) (q : Publisher) (requested : Option String) (account : String) (w : W)
      (a : Account)
      → (b.retrieve_account account w).0 ≡ ok a
      → Keeps I (redo_country b req q requested account a)
  unfolding redo_country
  redo-inv req q requested account w a said =
      Keeps-if I
        (can_redo_onboard_country requested q.country a.details_submitted a.payouts_enabled) _ _
        (λ e.
          let unfinished = redo_unfinished requested q.country _ _ e in
          Keeps->>= I _ _ (delete-inv account (w, a, said, unfinished.0, unfinished.1))
            (λ _. Keeps->>= I _ _ (patch-inv q.id _) (λ _. ensure-inv req q requested none none)))
        (λ _ _ h. h)

  retrieved-Ends :
      (account : String) (s : Bureau W)
      → I s
      → Ends I
          (λ a s. I s × (w : W) × ((b.retrieve_account account w).0 ≡ ok a))
          (call b (b.retrieve_account account) s)
  retrieved-Ends account s h = told (b.retrieve_account account s.world).0 refl
    where
      told :
          (o : Outcome Account)
          → (b.retrieve_account account s.world).0 ≡ o
          → Ends I
              (λ a s. I s × (w : W) × ((b.retrieve_account account w).0 ≡ ok a))
              (o, record s { world = (b.retrieve_account account s.world).1 })
      told (ok a) e = (h, s.world, e)
      told (thrown x) e = h

  account-inv :
      (req : OnboardRequest) (q : Publisher) (requested account : Option String)
      → Keeps I (onboard_account b req q requested account)
  unfolding onboard_account
  account-inv req q requested none = ensure-inv req q requested q.country none
  account-inv req q requested (some account) =
      Keeps-if I (truthy account && is_given requested && differs requested q.country) _ _
        (λ _.
          Keeps-via I _ _ _ (retrieved-Ends account)
            (λ a s h. redo-inv req q requested account h.1 a h.2 s h.0))
        (λ _. ensure-inv req q requested q.country (some account))

  client-inv : Keeps I (tried b (stripe_client b))
  unfolding stripe_client
  client-inv =
      Keeps-if I (not (truthy b.stripe_key)) (throw stripe_missing) _ (λ _ _ h. h)
        (λ _.
          Keeps-if I (b.assert_test && not (starts_with b.stripe_key "sk_test_"))
            (throw stripe_not_test) (pure tt) (λ _ _ h. h) (λ _ _ h. h))

  ready-inv :
      (req : OnboardRequest) (q : Publisher) (o : Outcome (Unit {0}))
      → Keeps I (when_ready b req q o)
  unfolding when_ready
  ready-inv req q (thrown e) = λ _ h. h
  ready-inv req q (ok u) = Keeps-catch I _ _ (account-inv req q _ _) (λ _ _ h. h)

  publisher-inv : (req : OnboardRequest) (o : Option Publisher) → Keeps I (with_publisher b req o)
  unfolding with_publisher
  publisher-inv req none = λ _ h. h
  publisher-inv req (some q) =
      Keeps->>= I (tried b (stripe_client b)) _ client-inv (ready-inv req q)

  caller-inv : (bearer : String) → Keeps I (caller_publisher b bearer)
  unfolding caller_publisher
  caller-inv bearer = Keeps->>= I _ _ (call-inv (b.publisher_id_of bearer)) (λ id.
      Keeps->>= I _ _
        (λ s h. Keeps-meet_read I _ (b.fate s.world).0 (record s { world = (b.fate s.world).1 }) h)
        (λ _ _ h. h))

  as_caller-inv : (req : OnboardRequest) (o : Option String) → Keeps I (as_caller b req o)
  unfolding as_caller
  as_caller-inv req none = λ _ h. h
  as_caller-inv req (some bearer) = Keeps->>= I _ _ (caller-inv bearer) (publisher-inv req)

  onboard-inv : (req : OnboardRequest) → Keeps I (onboard b req)
  unfolding onboard
  onboard-inv req = as_caller-inv req (bearer_header req.authorization)

-- Whatever requests come and whatever fails: an account is deleted only after Stripe said of it that
-- nothing is submitted and that it has no payouts, and one is created only in a country that is
-- supported. This is supposed of those that were deleted and created before.
pub onboard_all-IsGuarded :
    {W : Type 0} (b : OnboardBackend W) (reqs : List OnboardRequest) (s : Bureau W)
    → All (IsUnfinished b) s.deleted
    → All IsOpenTo s.created
    → All (IsUnfinished b) (onboard_all b reqs s).deleted
      × All IsOpenTo (onboard_all b reqs s).created
onboard_all-IsGuarded b [] s h k = (h, k)
onboard_all-IsGuarded b (req ∷ reqs) s h k =
    let next = onboard-inv b req s (h, k) in onboard_all-IsGuarded b reqs _ next.0 next.1
