-- ===== src/Cycle/Kept.antt =====
-- Invariants of supabase/functions/billing/index.ts that no call of the world outside, no pause, no
-- stamp and no customer can break: what settles a batch keeps them if its requests on the rows do.
pub mod Runs
pub mod Always
use luma_line.Prelude.{
  String, Bool, true, false, Option, none, some, List, [], ◌∷◌, ◌≡◌, refl, pos, ltb_ℤ, sum_ℤ, map,
  select, not, ◌&&◌, truthy, starts_with,
}
use luma_line.Prelude.Effects.{
  Action, Outcome, Fault, pure, throw, Keeps, Keeps-pure, Keeps->>=, Keeps-catch, Keeps-if,
}
use luma_line.Cycle.{
  ChargeRow, DrawReply, Books, Backend, Fate, applied, refused, lost, unanswered, svc_write,
  svc_read, meet, meet_read, outside,
}
use luma_line.Cycle.Tables.{
  contains, is_text, is_pending, is_unsettled, group_id, update_row, change_rows, on_rows,
  release_batch, mark_pending_charged, mark_pending_charged_balance, mark_pending_failed,
  pause_under, pause_advertiser_line_items,
}
use luma_line.Cycle.Settle.{
  BatchAdvertiser, stripe_not_test, batch_cents, get_stripe, create_customer,
  get_or_create_stripe_customer, resolve_payment_method, resolve_customer_and_pm, adopt_intent,
  request_of, intent_for, create_intent, stamp_all, stamp_impressions, charge_intent,
  impressions_of, is_drawn, row_micros, charge_failed, released, settle_rows, prepay_outcome,
  settle_prepay_rows,
}

-- The invariant looks at the rows, the intents and the locks alone.
pub record IsBlind {κ} {W : Type 0} (I : Books W → Type κ) : Type κ where
  pub to_world : (s : Books W) (w : W) → I s → I (record s { world = w })
  pub to_stamps : (s : Books W) (xs : List (String × String)) → I s → I (record s { stamps = xs })
  pub to_paused : (s : Books W) (xs : List String) → I s → I (record s { paused = xs })
  pub to_customers :
      (s : Books W) (xs : List (String × String)) → I s → I (record s { customers = xs })

-- What a request does that settles rows: it keeps the id of a row and leaves it not pending.
pub record Settles (f : ChargeRow → ChargeRow) : Type 0 where
  pub same_id : (r : ChargeRow) → (f r).entry_group_id ≡ r.entry_group_id
  pub not_pending : (r : ChargeRow) → is_pending (f r).status ≡ false

abbrev pub drop_rows : List String → List ChargeRow → List ChargeRow
drop_rows ids = select (λ r. not (contains ids r.entry_group_id && is_unsettled r))

-- The rows with these ids may be released and settled.
pub record IsFree {κ} {W : Type 0} (I : Books W → Type κ) (ids : List String) : Type κ where
  pub drop : (s : Books W) → I s → I (record s { rows = drop_rows ids s.rows })
  pub settle :
      (f : ChargeRow → ChargeRow)
      → Settles f
      → (s : Books W) → I s
      → I (record s { rows = map (update_row ids f) s.rows })

module _ {κ} {W : Type 0} (b : Backend W) {I : Books W → Type κ} (blind : IsBlind I) where
  pub Keeps-outside : {A : Type 0} (f : W → Outcome A × W) → Keeps I (outside f)
  Keeps-outside f s h = blind.to_world s (f s.world).1 h

  meet-inv :
      (c : Books W → Books W) → ((s : Books W) → I s → I (c s)) → (o : Fate) → Keeps I (meet c o)
  meet-inv c k applied s h = k s h
  meet-inv c k refused s h = h
  meet-inv c k lost s h = h
  meet-inv c k unanswered s h = k s h

  pub Keeps-svc_write :
      (c : Books W → Books W) → ((s : Books W) → I s → I (c s)) → Keeps I (svc_write b c)
  unfolding svc_write
  Keeps-svc_write c k s h =
      meet-inv c k (b.fate s.world).0 _ (blind.to_world s (b.fate s.world).1 h)

  meet_read-inv : {A : Type 0} (f : Books W → A) (o : Fate) → Keeps I (meet_read f o)
  meet_read-inv f applied = λ _ h. h
  meet_read-inv f refused = λ _ h. h
  meet_read-inv f lost = λ _ h. h
  meet_read-inv f unanswered = λ _ h. h

  pub Keeps-svc_read : {A : Type 0} (f : Books W → A) → Keeps I (svc_read b f)
  unfolding svc_read
  Keeps-svc_read f s h =
      meet_read-inv f (b.fate s.world).0 _ (blind.to_world s (b.fate s.world).1 h)

  pub Keeps-on_rows :
      (ids : List String) (f : List ChargeRow → List ChargeRow)
      → ((s : Books W) → I s → I (record s { rows = f s.rows }))
      → Keeps I (on_rows b ids f)
  unfolding change_rows
  Keeps-on_rows [] f k = Keeps-pure I tt
  Keeps-on_rows (id ∷ ids) f k = Keeps->>= I _ _ (Keeps-svc_write _ k) (λ _. Keeps-pure I tt)

  pause_under-inv : (a : String) (o : Option (List String)) → Keeps I (pause_under b a o)
  pause_under-inv a none = Keeps-pure I tt
  pause_under-inv a (some []) = Keeps-pure I tt
  pause_under-inv a (some (c ∷ cs)) =
      Keeps->>= I _ _ (Keeps-svc_write _ (λ s. blind.to_paused s (a ∷ s.paused)))
        (λ _. Keeps-pure I tt)

  pub Keeps-pause : (a : String) → Keeps I (pause_advertiser_line_items b a)
  unfolding pause_advertiser_line_items
  Keeps-pause a = Keeps->>= I _ _ (Keeps-outside (b.campaigns a)) (λ o. pause_under-inv a o)

  stripe-inv : Keeps I (get_stripe b)
  unfolding get_stripe
  stripe-inv =
      Keeps-if I (not (truthy b.stripe_key)) _ _ (λ _ s h. h)
        (λ _.
          Keeps-if I (b.assert_test && not (starts_with b.stripe_key "sk_test_"))
            (throw stripe_not_test) (pure tt) (λ _ s h. h) (λ _. Keeps-pure I tt))

  create_customer-inv : (name a : String) → Keeps I (create_customer b name a)
  create_customer-inv name a = Keeps->>= I _ _ (Keeps-outside (b.create_customer name a)) (λ id.
      Keeps->>= I _ _ (Keeps-svc_write _ (λ s. blind.to_customers s ((a, id) ∷ s.customers)))
        (λ _. Keeps-pure I id))

  customer-inv :
      (a name : String) (o : Option String) → Keeps I (get_or_create_stripe_customer b a name o)
  unfolding get_or_create_stripe_customer
  customer-inv a name none = create_customer-inv name a
  customer-inv a name (some id) =
      Keeps-if I _ _ _ (λ _. Keeps-pure I id) (λ _. create_customer-inv name a)

  pub Keeps-resolve : (adv : BatchAdvertiser) → Keeps I (resolve_customer_and_pm b adv)
  unfolding resolve_customer_and_pm resolve_payment_method
  Keeps-resolve adv =
      Keeps-catch I _ _
        (Keeps->>= I _ _ stripe-inv (λ _.
          Keeps->>= I _ _ (customer-inv adv.advertiser_id _ adv.stripe_customer_id) (λ c.
            Keeps->>= I _ _
              (Keeps->>= I _ _ (Keeps-outside (b.default_method c))
                (λ d. Keeps->>= I _ _ (Keeps-outside (b.card_methods c)) (λ _ _ h. h)))
              (λ _ _ h. h))))
        (λ _ _ h. h)

  stamp-inv : (is : List String) (i : String) → Keeps I (stamp_impressions b is i)
  unfolding stamp_impressions
  stamp-inv [] i = Keeps-pure I tt
  stamp-inv (x ∷ xs) i =
      Keeps->>= I _ _ (Keeps-svc_write _ (λ s. blind.to_stamps s _)) (λ _. Keeps-pure I tt)

  module _ (batch : String) (adv : BatchAdvertiser) where
    module _ (customer method : String) (rows : List ChargeRow)
        (free : IsFree I (map group_id rows))
        (create : ltb_ℤ (batch_cents rows) (pos 50) ≡ false
          → (s : Books W) → I s
          → I (record s {
            intents = request_of b batch (batch_cents rows) customer method ∷ s.intents;
          })) where
      intent-inv :
          ltb_ℤ (batch_cents rows) (pos 50) ≡ false
          → (o : Option String)
          → Keeps I (intent_for b (request_of b batch (batch_cents rows) customer method) o)
      unfolding intent_for create_intent
      intent-inv e none = λ s h. Keeps-outside (b.create_intent _) _ (create e s h)
      intent-inv e (some id) = λ _ h. h

      charge_intent-inv :
          ltb_ℤ (batch_cents rows) (pos 50) ≡ false
          → Keeps I (charge_intent b batch adv customer method rows)
      unfolding charge_intent adopt_intent mark_pending_charged
      charge_intent-inv e = Keeps->>= I _ _ stripe-inv (λ _.
          Keeps->>= I _ _
            (Keeps-catch I _ _
              (Keeps->>= I _ _ (Keeps-outside (b.search_intents batch)) (λ _ _ h. h)) (λ _ _ h. h))
            (λ o. Keeps->>= I _ _ (intent-inv e o) (λ i.
              Keeps->>= I _ _
                (Keeps-on_rows (map group_id rows) _
                  (free.settle _ (record { same_id = λ r. refl; not_pending = λ r. refl })))
                (λ _. Keeps->>= I _ _ (stamp-inv (impressions_of rows) i) (λ _ _ h. h)))))

      charge_failed-inv : (e : Fault) → Keeps I (charge_failed b batch adv rows e)
      unfolding charge_failed mark_pending_failed
      charge_failed-inv e =
          Keeps-if I e.decline _ _
            (λ _.
              Keeps->>= I _ _
                (Keeps-on_rows (map group_id rows) _
                  (free.settle _ (record { same_id = λ r. refl; not_pending = λ r. refl })))
                (λ _. Keeps->>= I _ _ (Keeps-pause adv.advertiser_id) (λ _ _ h. h)))
            (λ _ _ h. h)

    released-inv :
        (rows : List ChargeRow) (reason : String)
        → IsFree I (map group_id rows)
        → Keeps I (released b batch adv rows reason)
    unfolding released release_batch
    released-inv rows reason free =
        Keeps->>= I _ _
          (Keeps-on_rows (map group_id rows) (drop_rows (map group_id rows)) free.drop) (λ _ _ h. h)

    -- The rows may be those of the batch, read a moment ago.
    pub Keeps-settle_rows :
        (customer method : String) (rows : List ChargeRow)
        → IsFree I (map group_id rows)
        → (ltb_ℤ (batch_cents rows) (pos 50) ≡ false
            → (s : Books W) → I s
            → I (record s {
              intents = request_of b batch (batch_cents rows) customer method ∷ s.intents;
            }))
        → Keeps I (settle_rows b batch adv customer method rows)
    unfolding settle_rows
    Keeps-settle_rows customer method [] free create = λ _ h. h
    Keeps-settle_rows customer method (r ∷ rows) free create =
        Keeps-if I adv.is_house _ _ (λ _. released-inv (r ∷ rows) "house_advertiser" free)
          (λ _.
            Keeps-if I (ltb_ℤ (batch_cents (r ∷ rows)) (pos 50)) _ _
              (λ _. released-inv (r ∷ rows) "below_stripe_minimum" free)
              (λ e.
                Keeps-catch I _ _ (charge_intent-inv customer method (r ∷ rows) free create e)
                  (charge_failed-inv customer method (r ∷ rows) free create)))

    prepay_outcome-inv :
        (rows : List ChargeRow) (d : DrawReply)
        → IsFree I (map group_id rows)
        → Keeps I (prepay_outcome b batch adv rows d)
    unfolding prepay_outcome mark_pending_charged_balance
    prepay_outcome-inv rows d free =
        Keeps-if I (is_drawn b d) _ _
          (λ _.
            Keeps->>= I _ _
              (Keeps-on_rows (map group_id rows) _
                (free.settle _ (record { same_id = λ r. refl; not_pending = λ r. refl })))
              (λ _ _ h. h))
          (λ _.
            Keeps-if I (is_text d.reason "insufficient_balance") _ _
              (λ _. Keeps->>= I _ _ (Keeps-pause adv.advertiser_id) (λ _ _ h. h)) (λ _ _ h. h))

    pub Keeps-settle_prepay_rows :
        (rows : List ChargeRow)
        → IsFree I (map group_id rows)
        → Keeps I (settle_prepay_rows b batch adv rows)
    unfolding settle_prepay_rows
    Keeps-settle_prepay_rows [] free = λ _ h. h
    Keeps-settle_prepay_rows (r ∷ rows) free =
        Keeps-if I adv.is_house _ _ (λ _. released-inv (r ∷ rows) "house_advertiser" free)
          (λ _.
            Keeps->>= I _ _
              (Keeps-outside (b.draw_down adv.advertiser_id batch (sum_ℤ row_micros (r ∷ rows))))
              (λ d. prepay_outcome-inv (r ∷ rows) d free))
