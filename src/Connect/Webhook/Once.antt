-- ===== src/Connect/Webhook/Once.antt =====
-- How often the database is asked on behalf of an event of POST /webhook,
-- supabase/functions/stripe-connect/index.ts.
use luma_line.Prelude.{
  String, Bool, true, false, not, ◌||◌, Option, none, some, List, [], ◌∷◌, ◌≡◌, refl, sym, subst,
  inl, inr, select, All, ◌⊎◌, arith, str_eq, eq_iff, truthy, leb_ℤ, or_zero, pos, starts_with,
  Bool-cases,
}
use luma_line.Prelude.Effects.{Outcome, ok, thrown, pure, Keeps, after}
use luma_line.Edge.Texts.{parse_webhook_secrets}
use luma_line.Cycle.{Fate, applied, meet, meet_read}
use luma_line.Cycle.Tables.{contains}
use luma_line.Connect.Webhook.{
  Effect, Call, Inbox, InboxQuery, read_seen, record_seen, WebhookBackend, Delivery, StripeEvent,
  Note, no_matching_payout, no_payment_intent_or_amount, unhandled, HandleReply, infra, noted,
  handled, WebhookReply, accepted, answer_of, ask, noted_if, account_updated, reversed,
  transfer_reversed, disputed, handle, is_recorded, add_seen, record_event, answered, handle_new,
  unless_recorded, on_event, with_secrets, signed, webhook, deliveries,
}

-- The calls for an event, latest first.
abbrev pub calls_for : String → List Call → List Call
calls_for id = select (λ k. str_eq k.event id)

-- The call was declined or not answered.
abbrev pub IsOpen : Call → Type 0
IsOpen k = ¬ (k.answer ≡ accepted)

-- Only the latest call may have been answered with success.
abbrev pub IsLatest : List Call → Type 0
IsLatest [] = Unit
IsLatest (k ∷ ks) = All IsOpen ks

All-IsLatest : (ks : List Call) → All IsOpen ks → IsLatest ks
All-IsLatest [] h = tt
All-IsLatest (k ∷ ks) h = h.1

abbrev is_noted : Outcome HandleReply → Bool
is_noted (thrown e) = false
is_noted (ok (infra message)) = false
is_noted (ok (noted note)) = true

module _ {W : Type 0} (b : WebhookBackend W) (id : String) where
  -- A handler makes at most one call, for its event, and is done if that one succeeded.
  abbrev Calls : StripeEvent → Inbox W → Outcome HandleReply × Inbox W → Type 0
  Calls e s r =
      (r.1.seen ≡ s.seen)
      × ((r.1.calls ≡ s.calls)
          ⊎ ((k : Call) × (r.1.calls ≡ k ∷ s.calls)
              × (k.event ≡ e.id)
              × (is_noted r.0 ≡ false → IsOpen k)))

  answer-Calls :
      (e : StripeEvent) (f : Effect) (failure : String) (note : Note) (s : Inbox W) (w : W)
      (o : Outcome Bool)
      → Calls e s (
          after
            (
              o,
              record s {
                calls = record { event = e.id; effect = f; answer = answer_of o } ∷ s.calls;
                world = w;
              },
            )
            (noted_if b failure note))
  unfolding after
  answer-Calls e f failure note s w (thrown x) = (refl, inr (_, refl, refl, λ _ q. absurd (cc)))
  answer-Calls e f failure note s w (ok true) =
      (refl, inr (_, refl, refl, λ q. absurd (ground arith)))
  answer-Calls e f failure note s w (ok false) = (refl, inr (_, refl, refl, λ _ q. absurd (cc)))

  ask-Calls :
      (e : StripeEvent) (f : Effect) (failure : String) (note : Note) (s : Inbox W)
      → Calls e s (after (ask b e.id f s) (noted_if b failure note))
  unfolding ask
  ask-Calls e f failure note s =
      answer-Calls e f failure note s (b.rpc f s.world).1 (b.rpc f s.world).0

  nothing-Calls :
      (e : StripeEvent) (s : Inbox W) (w : W) (o : Outcome HandleReply)
      → Calls e s (o, record s { world = w })
  nothing-Calls e s w o = (refl, inl refl)

  reversed-Calls :
      (e : StripeEvent) (s : Inbox W) (w : W) (o : Outcome (Option (List String)))
      → Calls e s (after (o, record s { world = w }) (reversed b e))
  unfolding reversed after
  reversed-Calls e s w (thrown x) = nothing-Calls e s w (thrown x)
  reversed-Calls e s w (ok none) = nothing-Calls e s w (ok (infra "payout lookup failed"))
  reversed-Calls e s w (ok (some [])) = nothing-Calls e s w (ok (noted no_matching_payout))
  reversed-Calls e s w (ok (some (payout ∷ rest))) = ask-Calls e _ _ _ (record s { world = w })

  disputed-Calls :
      (e : StripeEvent) (s : Inbox W) (o : Option String) → Calls e s (disputed b e o s)
  unfolding disputed
  disputed-Calls e s none = nothing-Calls e s s.world (ok (noted no_payment_intent_or_amount))
  disputed-Calls e s (some intent) =
      elim (Bool-cases (not (truthy intent) || leb_ℤ (or_zero e.object.amount) (pos 0))) [
        | inl c ↦ rw c (nothing-Calls e s s.world (ok (noted no_payment_intent_or_amount)))
        | inr c ↦ rw c (ask-Calls e _ _ _ s)
      ]

  handle-Calls : (e : StripeEvent) (s : Inbox W) → Calls e s (handle b e s)
  unfolding handle account_updated transfer_reversed
  handle-Calls e s = elim (Bool-cases (str_eq e.type "account.updated")) [
    | inl x ↦ rw x (ask-Calls e _ _ _ s)
    | inr x ↦ elim (Bool-cases (str_eq e.type "transfer.reversed")) [
      | inl y ↦ rw x (rw y (reversed-Calls e s _ _))
      | inr y ↦ elim (Bool-cases (starts_with e.type "charge.dispute.")) [
        | inl z ↦ rw x (rw y (rw z (disputed-Calls e s _)))
        | inr z ↦ rw x (rw y (rw z (nothing-Calls e s s.world (ok (noted unhandled)))))
      ]
    ]
  ]

  -- No call for the event follows one that succeeded, and none has succeeded while it is not recorded.
  abbrev pub IsOnce : Inbox W → Type 0
  IsOnce s =
      IsLatest (calls_for id s.calls)
      × (contains s.seen id ≡ false → All IsOpen (calls_for id s.calls))

  same-IsOnce : (s t : Inbox W) → IsOnce s → t.seen ≡ s.seen → t.calls ≡ s.calls → IsOnce t
  same-IsOnce s t h p q = rw (p, q) h

  -- A call for another event changes nothing; one for this event, while it was not recorded, leaves
  -- only itself in doubt.
  called-IsOnce :
      (s : Inbox W) (k : Call) (seen : List String)
      → IsOnce s
      → contains s.seen k.event ≡ false
      → (contains seen id ≡ false → contains s.seen id ≡ false)
      → (contains seen id ≡ false → str_eq k.event id ≡ true → IsOpen k)
      → IsLatest (calls_for id (k ∷ s.calls))
        × (contains seen id ≡ false → All IsOpen (calls_for id (k ∷ s.calls)))
  called-IsOnce s k seen h new older fails = elim (Bool-cases (str_eq k.event id)) [
    | inl y ↦
        let unseen = subst (λ i. contains s.seen i ≡ false) ((eq_iff k.event id).0 y) new in
        rw y (h.1 unseen, (λ x. (fails x y, h.1 unseen)))
    | inr n ↦ rw n (h.0, (λ x. h.1 (older x)))
  ]

  unrecorded :
      (e : StripeEvent) (s t : Inbox W) (o : Outcome HandleReply)
      → IsOnce s
      → contains s.seen e.id ≡ false
      → is_noted o ≡ false
      → Calls e s (o, t)
      → IsOnce t
  unrecorded e s t o h new failed (same, inl q) = same-IsOnce s t h same q
  unrecorded e s t o h new failed (same, inr (k, q, of, fails)) =
      rw (same, q) (called-IsOnce s k s.seen h (rw of new) (λ x. x) (λ _ _. fails failed))

  module _ (works : (q : InboxQuery) (w : W) → (b.fate q w).0 ≡ applied) where
    recorded-IsOnce :
        (e : StripeEvent) (s t u : Inbox W) (o : Outcome HandleReply)
        → IsOnce s
        → contains s.seen e.id ≡ false
        → Calls e s (o, t)
        → u.seen ≡ t.seen
        → u.calls ≡ t.calls
        → IsOnce (add_seen b e.id u)
    recorded-IsOnce e s t u o h new (kept, inl q) same calls =
        rw (same, kept, new, calls, q) (h.0, (λ x. h.1 (ground arith)))
    recorded-IsOnce e s t u o h new (kept, inr (k, q, of, fails)) same calls =
        rw (same, kept, new, calls, q)
          (called-IsOnce s k (e.id ∷ s.seen) h (rw of new) (λ x. ground arith)
            (λ x y. absurd (ground (arith, of, x, y))))

    noted-IsOnce :
        (e : StripeEvent) (u : Inbox W) (r : WebhookReply) (o : Fate)
        → o ≡ applied
        → IsOnce (add_seen b e.id u)
        → IsOnce (after (meet (add_seen b e.id) o u) (λ _. pure r)).1
    unfolding after
    noted-IsOnce e u r o q h =
        subst (λ o. IsOnce (after (meet (add_seen b e.id) o u) (λ _. pure r)).1) (sym q) h

    answered-IsOnce :
        (e : StripeEvent) (s : Inbox W)
        → IsOnce s
        → contains s.seen e.id ≡ false
        → (o : Outcome HandleReply) (t : Inbox W) → Calls e s (o, t)
        → IsOnce (answered b e o t).1
    unfolding answered record_event
    answered-IsOnce e s h new (thrown x) t c = unrecorded e s t (thrown x) h new refl c
    answered-IsOnce e s h new (ok (infra x)) t c = unrecorded e s t (ok (infra x)) h new refl c
    answered-IsOnce e s h new (ok (noted x)) t c =
        noted-IsOnce e _ (handled e.type x) _ (works record_seen t.world)
          (recorded-IsOnce e s t _ (ok (noted x)) h new c refl refl)

    unless-IsOnce :
        (e : StripeEvent) (s : Inbox W) (r : Bool)
        → contains s.seen e.id ≡ r
        → IsOnce s
        → IsOnce (unless_recorded b e (some r) s).1
    unfolding unless_recorded handle_new
    unless-IsOnce e s true q h = h
    unless-IsOnce e s false q h = answered-IsOnce e s h q _ _ (handle-Calls e s)

    read-IsOnce :
        (e : StripeEvent) (s : Inbox W) (o : Fate)
        → o ≡ applied
        → IsOnce s
        → IsOnce
            (after (meet_read (λ (s : Inbox W). contains s.seen e.id) o s) (unless_recorded b e)).1
    unfolding after
    read-IsOnce e s o q h =
        subst
          (λ o.
            IsOnce
              (after (meet_read (λ (s : Inbox W). contains s.seen e.id) o s)
                (unless_recorded b e)).1)
          (sym q) (unless-IsOnce e s (contains s.seen e.id) refl h)

    event-IsOnce : (o : Outcome StripeEvent) → Keeps IsOnce (on_event b o)
    unfolding on_event is_recorded
    event-IsOnce (thrown x) s h = h
    event-IsOnce (ok e) s h = read-IsOnce e _ _ (works read_seen s.world) h

    secrets-IsOnce :
        (d : Delivery) (signature : String) (secrets : List String)
        → Keeps IsOnce (with_secrets b d signature secrets)
    unfolding with_secrets
    secrets-IsOnce d signature [] s h = h
    secrets-IsOnce d signature (secret ∷ secrets) s h = event-IsOnce _ s h

    signed-IsOnce : (d : Delivery) (o : Option String) → Keeps IsOnce (signed b d o)
    unfolding signed
    signed-IsOnce d none s h = h
    signed-IsOnce d (some signature) s h = elim (Bool-cases (truthy signature)) [
      | inl e ↦ rw e (secrets-IsOnce d signature (parse_webhook_secrets b.secret_parts) s h)
      | inr e ↦ rw e h
    ]

    webhook-IsOnce : (d : Delivery) → Keeps IsOnce (webhook b d)
    unfolding webhook
    webhook-IsOnce d s h = signed-IsOnce d d.signature s h

-- Whatever is delivered, one after the other and however often, as long as the table of recorded
-- events can be read and written: once the database has answered a call for an event with success, no
-- call for that event is made any more. So every call for it but the last was declined or got no
-- answer, and no call has succeeded while the event is not recorded. A call without an answer may have
-- been carried out: nothing is said of how often that happens. The same is supposed of the calls and
-- the table before.
pub deliveries-IsOnce :
    {W : Type 0} (b : WebhookBackend W) (id : String) (ds : List Delivery) (s : Inbox W)
    → ((q : InboxQuery) (w : W) → (b.fate q w).0 ≡ applied)
    → IsOnce b id s
    → IsOnce b id (deliveries b ds s)
deliveries-IsOnce b id [] s works h = h
deliveries-IsOnce b id (d ∷ ds) s works h =
    deliveries-IsOnce b id ds (webhook b d s).1 works (webhook-IsOnce b id works d s h)
