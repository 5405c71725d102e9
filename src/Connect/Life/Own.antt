-- ===== src/Connect/Life/Own.antt =====
-- What a run of supabase/functions/stripe-connect/index.ts does for one payout while it is pending.
use luma_line.Prelude.{
  String, Bool, true, false, Option, none, some, List, [], ◌∷◌, ◌≡◌, ◌≢◌, refl, sym, ap, subst, ◌∙◌,
  ◌⊎◌, inl, inr, str_eq, eq_iff, truthy, arith, if◌then◌else◌,
}
use luma_line.Prelude.Effects.{Ends, after-via, Outcome, ok, thrown, Keeps, after, after-inv}
use luma_line.Cycle.{Fate, applied, refused, lost, unanswered, meet_read}
use luma_line.Payout.{definitive, ambiguous, Certainty, classify_transfer_error}
use luma_line.Payout.Paging.{carries, Page, find_transfer_id_complete}
use luma_line.Connect.{
  pending, paid, failed, PayoutRow, TransferReply, created, rejected, Rail, RailBackend,
  read_account, failed_row, confirmed_row, account_of, tried, svc_get, meet_rpc, service_rpc,
  payout_fail, payout_confirm, fail_payout, confirm_payout,
}
use luma_line.Connect.Batch.{
  find_existing_transfer, searched, create_transfer, transfer_request, fail_with, confirmed,
  confirm_transfer, rechecked, transfer_rejected, transfer_answered, ask_transfer, prechecked,
  to_account, with_account, pay_one, created_gte,
}
use luma_line.Connect.Life.{
  Life, owed, sent, settled, refused_for_good, ◌⟶◌, ◌⟶*◌, send, book, give_up, later, Held,
  held_for, Case, IsFaithful, IsMade, IsUnmade, IsUnsure, is_listed, is_since, IsHeld, IsRow,
  Stands, Walks, Waits, waiting,
}
use luma_line.Connect.Life.Holds.{find_none, find_only, count_change, IsRow-own}
use luma_line.Connect.Life.Others.{failed-id, confirmed-id, Stands-world}

-- A search that found nothing, or found something, if it ended.
abbrev IsMiss : Outcome (Option String) → Type 0
IsMiss (thrown e) = Unit
IsMiss (ok none) = Unit
IsMiss (ok (some id)) = ⊥

abbrev IsRejected : TransferReply → Type 0
IsRejected (created id) = ⊥
IsRejected (rejected e message) = Unit

abbrev IsHit : Outcome (Option String) → Type 0
IsHit (thrown e) = Unit
IsHit (ok none) = ⊥
IsHit (ok (some id)) = truthy id ≡ true

module _ {W : Type 0} (c : Case W) where
  confirmed-own :
      (transfer : String) (r : PayoutRow)
      → IsRow c pending r
      → IsRow c paid (confirmed_row transfer r.status r)
  confirmed-own transfer r h y =
      let facts = h (subst (λ i. str_eq i c.id ≡ true) (confirmed-id transfer r.status r) y) in
      subst
        (λ st.
          let q = confirmed_row transfer st r in
          (q.publisher_id ≡ c.publisher) × (created_gte q ≡ c.since) × (q.status ≡ paid))
        (sym facts.2) (facts.0, facts.1, refl)

  failed-own : (r : PayoutRow) → IsRow c pending r → IsRow c failed (failed_row r.status r)
  failed-own r h y =
      let facts = h (subst (λ i. str_eq i c.id ≡ true) (failed-id r.status r) y) in
      subst
        (λ st.
          let q = failed_row st r in
          (q.publisher_id ≡ c.publisher) × (created_gte q ≡ c.since) × (q.status ≡ failed))
        (sym facts.2) (facts.0, facts.1, refl)

  module _ (b : RailBackend W) (fit : IsFaithful c b) (l : Life) where
    -- A row may be changed at the stage `m`, which it leaves for `n`.
    turn :
        (allows : Bool) (change : Rail W → Rail W) (m n : Life)
        → ((s : Rail W) → Stands c m s → Stands c n (change s))
        → l ⟶* m
        → m ⟶ n
        → (s : Rail W) → Stands c m s
        → Walks c l (if allows then change s else s)
    turn true change m n k w t s h = (n, later w t, k s h)
    turn false change m n k w t s h = (m, w, h)

    rpc-turn :
        (allows : Rail W → Bool) (change : Rail W → Rail W) (m n : Life)
        → ((s : Rail W) → Stands c m s → Stands c n (change s))
        → l ⟶* m
        → m ⟶ n
        → (o : Fate) (s : Rail W) → Stands c m s
        → Walks c l (meet_rpc b allows change o s).1
    rpc-turn allows change m n k w t applied s h = turn (allows s) change m n k w t s h
    rpc-turn allows change m n k w t refused s h = (m, w, h)
    rpc-turn allows change m n k w t lost s h = (m, w, h)
    rpc-turn allows change m n k w t unanswered s h = turn (allows s) change m n k w t s h

    confirm-sent :
        (transfer : String) (s : Rail W)
        → l ⟶* sent
        → Stands c sent s
        → Walks c l (payout_confirm b c.id transfer s).1
    unfolding payout_confirm service_rpc
    confirm-sent transfer s w h =
        rpc-turn _ _ sent settled
          (λ s h. (
            count_change c.id c.id _ (λ r. confirmed-id transfer r.status r) s.payouts ∙ h.0,
            IsRow-own c _ pending paid (λ r. confirmed-id transfer r.status r)
                (confirmed-own transfer) s.payouts h.1,
            h.2,
            h.3,
          ))
          w book (b.fate confirm_payout s.world).0 _
          (Stands-world b c fit sent s _ (fit.fate_kept confirm_payout s.world) h)

    fail-owed : (s : Rail W) → l ⟶* owed → Stands c owed s → Walks c l (payout_fail b c.id s).1
    unfolding payout_fail service_rpc
    fail-owed s w h =
        rpc-turn _ _ owed refused_for_good
          (λ s h. (
            count_change c.id c.id _ (λ r. failed-id r.status r) s.payouts ∙ h.0,
            IsRow-own c _ pending failed (λ r. failed-id r.status r) failed-own s.payouts h.1,
            h.2,
            h.3,
          ))
          w give_up (b.fate fail_payout s.world).0 _
          (Stands-world b c fit owed s _ (fit.fate_kept fail_payout s.world) h)

    -- The payout of the case, as it was read.
    module _ (po : PayoutRow) (same : po.id ≡ c.id) (since : created_gte po ≡ c.since) where
      confirmed-inv :
          (transfer : String) (o : Outcome Bool) → Keeps (Walks c l) (confirmed b transfer po o)
      unfolding confirmed
      confirmed-inv transfer (thrown e) = λ _ h. h
      confirmed-inv transfer (ok false) = λ _ h. h
      confirmed-inv transfer (ok true) = λ _ h. h

      transfer-sent :
          (transfer : String) (s : Rail W)
          → l ⟶* sent
          → Stands c sent s
          → Walks c l (confirm_transfer b transfer po s).1
      unfolding confirm_transfer
      transfer-sent transfer s w h =
          after-inv (Walks c l) (tried b (payout_confirm b po.id transfer) s) _
            (subst (λ i. Walks c l (payout_confirm b i transfer s).1) (sym same)
              (confirm-sent transfer s w h))
            (confirmed-inv transfer)

      fail_with-owed :
          (reason : String) (s : Rail W)
          → l ⟶* owed
          → Stands c owed s
          → Walks c l (fail_with b reason po s).1
      unfolding fail_with
      fail_with-owed reason s w h =
          after-inv (Walks c l) (payout_fail b po.id s) _
            (subst (λ i. Walks c l (payout_fail b i s).1) (sym same) (fail-owed s w h)) (λ _ _ h. h)

      -- The search, with the listing's answer given.
      missed :
          (s t : Rail W) (o : Outcome (Option String → Page))
          → l ⟶* owed
          → Stands c owed s
          → Stands c owed t
          → (b.listing c.account (created_gte po) s.world).0 ≡ o
          → Ends (Walks c l) (λ o s. IsMiss o × Stands c owed s) (searched b po o t)
      unfolding searched
      missed s t (thrown e) w h k q = (tt, k)
      missed s t (ok f) w h k q =
          let (pages, few, lists) = fit.listing_whole c.account (created_gte po) s.world f q in
          let none_held = subst (λ i. held_for i (c.held s.world) ≡ []) (sym same) h.3 in
          rw
            (find_transfer_id_complete f po.id b.search_fuel few lists
              ∙ ap some (find_none po.id c.account (created_gte po) (c.held s.world) none_held))
            (tt, k)

      hit :
          (s t : Rail W) (o : Outcome (Option String → Page))
          → l ⟶* sent
          → Stands c sent s
          → Stands c sent t
          → (b.listing c.account (created_gte po) s.world).0 ≡ o
          → Ends (Walks c l) (λ o s. IsHit o × Stands c sent s) (searched b po o t)
      unfolding searched
      hit s t (thrown e) w h k q = (tt, k)
      hit s t (ok f) w (_, _, _, (x, only, listed, named)) k q =
          let (pages, few, lists) = fit.listing_whole c.account (created_gte po) s.world f q in
          let one_held = subst (λ i. held_for i (c.held s.world) ≡ x ∷ []) (sym same) only in
          let is_in = subst (λ g. is_listed c.account g x ≡ true) (sym since) listed in
          rw
            (find_transfer_id_complete f po.id b.search_fuel few lists
              ∙ ap some
                  (find_only po.id c.account (created_gte po) (c.held s.world) x one_held is_in))
            (named, k)

      find-owed :
          (s : Rail W)
          → l ⟶* owed
          → Stands c owed s
          → Ends
              (Walks c l)
              (λ o s. IsMiss o × Stands c owed s)
              (find_existing_transfer b c.account po s)
      unfolding find_existing_transfer after
      find-owed s w h =
          missed s _ _ w h
            (Stands-world b c fit owed s _ (fit.listing_kept c.account (created_gte po) s.world) h)
            refl

      find-sent :
          (s : Rail W)
          → l ⟶* sent
          → Stands c sent s
          → Ends
              (Walks c l)
              (λ o s. IsHit o × Stands c sent s)
              (find_existing_transfer b c.account po s)
      unfolding find_existing_transfer after
      find-sent s w h =
          hit s _ _ w h
            (Stands-world b c fit sent s _ (fit.listing_kept c.account (created_gte po) s.world) h)
            refl

      -- What is known after `transfers.create`.
      abbrev Answered : TransferReply → Rail W → Type 0
      Answered o s = (Stands c sent s × IsUnsure o) ⊎ (Stands c owed s × IsRejected o)

      unmade :
          (before : List Held) (o : TransferReply)
          → held_for c.id before ≡ []
          → IsUnmade (transfer_request c.account po) before o
          → IsRejected o
      unmade before (created id) none_held u =
          u (subst (λ i. held_for i before ≡ []) (sym same) none_held)
      unmade before (rejected e message) none_held u = tt

      made :
          (before after : List Held) (o : TransferReply)
          → held_for c.id before ≡ []
          → IsMade c (transfer_request c.account po) before o after
          → IsHeld c sent (held_for c.id after)
      made before after o none_held (h, e, d, p, named, late, unsure) =
          let mine : carries c.id h.transfer ≡ true = rw p ((eq_iff po.id c.id).1 same) in
          let to : str_eq h.destination c.account ≡ true = (eq_iff h.destination c.account).1 d in
          let at : is_since c.since h.made_at ≡ true = late ((eq_iff po.id c.id).1 same) in
          (h, ap (held_for c.id) e ∙ rw mine (ap (λ hs. h ∷ hs) none_held), rw to at, named)

      create-owed :
          (s : Rail W)
          → Stands c owed s
          → Answered
              (b.create_transfer (transfer_request c.account po) s.world).0
              (create_transfer b (transfer_request c.account po) s).1
      unfolding create_transfer
      create-owed s (k, rows, acc, h) =
          elim (fit.create_known (transfer_request c.account po) s.world) [
            | inl m ↦ inl ((k, rows, acc, made _ _ _ h m), m.6)
            | inr u ↦
                inr ((k, rows, acc, ap (held_for c.id) u.0 ∙ h), unmade (c.held s.world) _ h u.1)
          ]

      rechecked-owed :
          (message : String) (o : Outcome (Option String)) (s : Rail W)
          → l ⟶* owed
          → IsMiss o
          → Stands c owed s
          → Walks c l (rechecked b message po o s).1
      unfolding rechecked
      rechecked-owed message (thrown e) s w m h = fail_with-owed message s w h
      rechecked-owed message (ok none) s w m h = fail_with-owed message s w h
      rechecked-owed message (ok (some id)) s w m h = absurd m

      -- A definite rejection is searched after; an ambiguous one leaves the payout as it is.
      rejected-owed :
          (message : String) (k : Certainty) (s : Rail W)
          → l ⟶* owed
          → Stands c owed s
          → Walks c l (transfer_rejected b c.account po message k s).1
      unfolding transfer_rejected
      rejected-owed message definitive s w h =
          after-via (Walks c l) (find_existing_transfer b c.account po s) _ (find-owed s w h)
            (λ o s h. rechecked-owed message o s w h.0 h.1)
      rejected-owed message ambiguous s w h = (owed, w, h)

      unsure-sent :
          (message : String) (k : Certainty) (s : Rail W)
          → l ⟶* sent
          → k ≡ ambiguous
          → Stands c sent s
          → Walks c l (transfer_rejected b c.account po message k s).1
      unfolding transfer_rejected
      unsure-sent message definitive s w e h = absurd (ground arith)
      unsure-sent message ambiguous s w e h = (sent, w, h)

      Answered-own :
          (o : TransferReply) (s : Rail W)
          → l ⟶* owed
          → Answered o s
          → Walks c l (transfer_answered b c.account po o s).1
      unfolding transfer_answered
      Answered-own (created id) s w (inl (h, u)) = transfer-sent id s (later w send) h
      Answered-own (created id) s w (inr (h, u)) = absurd u
      Answered-own (rejected e message) s w (inl (h, u)) =
          unsure-sent message (classify_transfer_error e) s (later w send) u h
      Answered-own (rejected e message) s w (inr (h, u)) =
          rejected-owed message (classify_transfer_error e) s w h

      ask-owed :
          (s : Rail W) → l ⟶* owed → Stands c owed s → Walks c l (ask_transfer b c.account po s).1
      unfolding ask_transfer after create_transfer
      ask-owed s w h = Answered-own _ _ w (create-owed s h)

      prechecked-owed :
          (o : Outcome (Option String)) (s : Rail W)
          → l ⟶* owed
          → IsMiss o
          → Stands c owed s
          → Walks c l (prechecked b c.account po o s).1
      unfolding prechecked
      prechecked-owed (thrown e) s w m h = (owed, w, h)
      prechecked-owed (ok none) s w m h = ask-owed s w h
      prechecked-owed (ok (some id)) s w m h = absurd m

      prechecked-sent :
          (o : Outcome (Option String)) (s : Rail W)
          → l ⟶* sent
          → IsHit o
          → Stands c sent s
          → Walks c l (prechecked b c.account po o s).1
      unfolding prechecked
      prechecked-sent (thrown e) s w m h = (sent, w, h)
      prechecked-sent (ok none) s w m h = absurd m
      prechecked-sent (ok (some id)) s w m h = rw m (transfer-sent id s w h)

      account-own : (s : Rail W) → Waits c l s → Walks c l (to_account b po c.account s).1
      unfolding to_account
      account-own s (inl (w, h)) =
          after-via (Walks c l) (find_existing_transfer b c.account po s) _ (find-owed s w h)
            (λ o s h. prechecked-owed o s w h.0 h.1)
      account-own s (inr (w, h)) =
          after-via (Walks c l) (find_existing_transfer b c.account po s) _ (find-sent s w h)
            (λ o s h. prechecked-sent o s w h.0 h.1)

      with-own :
          (s : Rail W) → Waits c l s → Walks c l (with_account b po (some (some c.account)) s).1
      unfolding with_account
      with-own s h = rw (fit.account_named) (account-own s h)

      account_known :
          (s : Rail W) → Waits c l s → account_of c.publisher s.publishers ≡ some c.account
      account_known s (inl (w, h)) = h.2
      account_known s (inr (w, h)) = h.2

      moved :
          (s : Rail W) (w : W)
          → c.held w ≡ c.held s.world
          → Waits c l s
          → Waits c l (record s { world = w })
      moved s v e (inl (w, h)) = inl (w, Stands-world b c fit owed s v e h)
      moved s v e (inr (w, h)) = inr (w, Stands-world b c fit sent s v e h)

      read-own :
          (account : Rail W → Option String) (o : Fate) (s : Rail W)
          → o ≢ refused
          → account s ≡ some c.account
          → Waits c l s
          → Walks c l (after (meet_read account o s) (with_account b po)).1
      unfolding after
      read-own account applied s n e h = rw e (with-own s h)
      read-own account refused s n e h = absurd (n refl)
      read-own account lost s n e h = waiting c l s h
      read-own account unanswered s n e h = waiting c l s h

      pub pay_one-own :
          (s : Rail W) → po.publisher_id ≡ c.publisher → Waits c l s → Walks c l (pay_one b po s).1
      unfolding pay_one svc_get
      pay_one-own s e h =
          read-own _ _ _ (fit.account_told s.world)
            (ap (λ p. account_of p s.publishers) e ∙ account_known s h)
            (moved s _ (fit.fate_kept read_account s.world) h)
