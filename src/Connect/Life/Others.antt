-- ===== src/Connect/Life/Others.antt =====
-- What leaves a payout at its stage: requests that are not for it, reads, mails, and the transfers of
-- other payouts (supabase/functions/stripe-connect/index.ts).
use luma_line.Prelude.{
  String, Bool, true, false, Option, none, some, List, [], ◌∷◌, ◌≡◌, refl, sym, ap, subst, ◌∙◌, inl,
  inr, str_eq, truthy, ℤ, if◌then◌else◌, length,
}
use luma_line.Prelude.Effects.{Outcome, ok, thrown, Keeps, Keeps->>=, Keeps-if}
use luma_line.Cycle.{Fate, applied, refused, lost, unanswered, meet_read}
use luma_line.Payout.{definitive, ambiguous, Certainty, classify_transfer_error}
use luma_line.Payout.Paging.{Page, carries}
use luma_line.Connect.{
  PayoutStatus, pending, in_transit, paid, failed, canceled, PayoutRow, TransferReply, created,
  rejected, Query, Rail, RailBackend, failed_row, confirmed_row, call, tried, svc_get, meet_rpc,
  service_rpc, payout_fail, payout_confirm, payout_batch_reserve,
}
use luma_line.Connect.Batch.{
  find_existing_transfer, searched, ended_search, create_transfer, transfer_request, fail_with,
  confirmed, confirm_transfer, rechecked, transfer_rejected, transfer_answered, ask_transfer,
  prechecked, to_account, with_account, pay_one, pay_all, created_gte,
}
use luma_line.Connect.Life.{
  Life, Held, held_for, Case, IsFaithful, IsMade, IsHeld, Stands, rows_for,
}
use luma_line.Connect.Life.Holds.{count_change, rows_for-none, IsRow-other, IsRow-insert}

pub failed-id : (status : PayoutStatus) (r : PayoutRow) → (failed_row status r).id ≡ r.id
failed-id pending r = refl
failed-id in_transit r = refl
failed-id paid r = refl
failed-id failed r = refl
failed-id canceled r = refl

pub confirmed-id :
    (transfer : String) (status : PayoutStatus) (r : PayoutRow)
    → (confirmed_row transfer status r).id ≡ r.id
confirmed-id transfer pending r = refl
confirmed-id transfer in_transit r = refl
confirmed-id transfer paid r = refl
confirmed-id transfer failed r = refl
confirmed-id transfer canceled r = refl

module _ {W : Type 0} (b : RailBackend W) (c : Case W) (fit : IsFaithful c b) (l : Life) where
  abbrev I : Rail W → Type 0
  I = Stands c l

  pub Stands-world :
      (s : Rail W) (w : W) → c.held w ≡ c.held s.world → I s → I (record s { world = w })
  Stands-world s w e (k, rows, acc, h) =
      (k, rows, acc, subst (λ hs. IsHeld c l (held_for c.id hs)) (sym e) h)

  pub Keeps-call :
      {A : Type 0} (f : W → Outcome A × W)
      → ((w : W) → c.held (f w).1 ≡ c.held w)
      → Keeps I (call b f)
  Keeps-call f k s h = Stands-world s (f s.world).1 (k s.world) h

  read-inv : {A : Type 0} (f : Rail W → A) (o : Fate) → Keeps I (meet_read f o)
  read-inv f applied = λ _ h. h
  read-inv f refused = λ _ h. h
  read-inv f lost = λ _ h. h
  read-inv f unanswered = λ _ h. h

  pub Keeps-svc_get : {A : Type 0} (q : Query) (f : Rail W → A) → Keeps I (svc_get b q f)
  unfolding svc_get
  Keeps-svc_get q f s h =
      read-inv f (b.fate q s.world).0 _ (Stands-world s _ (fit.fate_kept q s.world) h)

  allowed-inv :
      (allows : Bool) (change : Rail W → Rail W)
      → ((s : Rail W) → I s → I (change s))
      → (s : Rail W) → I s
      → I (if allows then change s else s)
  allowed-inv true change k s h = k s h
  allowed-inv false change k s h = h

  rpc-inv :
      (allows : Rail W → Bool) (change : Rail W → Rail W)
      → ((s : Rail W) → I s → I (change s))
      → (o : Fate) → Keeps I (meet_rpc b allows change o)
  rpc-inv allows change k applied s h = allowed-inv (allows s) change k s h
  rpc-inv allows change k refused s h = h
  rpc-inv allows change k lost s h = h
  rpc-inv allows change k unanswered s h = allowed-inv (allows s) change k s h

  pub Keeps-rpc :
      (q : Query) (allows : Rail W → Bool) (change : Rail W → Rail W)
      → ((s : Rail W) → I s → I (change s))
      → Keeps I (service_rpc b q allows change)
  unfolding service_rpc
  Keeps-rpc q allows change k s h =
      rpc-inv allows change k (b.fate q s.world).0 _ (Stands-world s _ (fit.fate_kept q s.world) h)

  pub Keeps-reserve : (m : ℤ) → Keeps I (payout_batch_reserve b m)
  unfolding payout_batch_reserve
  Keeps-reserve m =
      Keeps->>= I _ _ (λ s h. Stands-world s (b.reserve m s.world).1 (fit.reserve_kept m s.world) h)
        (λ rows.
          Keeps-rpc _ _ _
            (λ s h. let new = IsRow-insert c _ rows s.payouts h.0 h.1 in (new.0, new.1, h.2, h.3)))

  search-inv : (o : Option (Option String)) → Keeps I (ended_search b o)
  search-inv none = λ _ h. h
  search-inv (some f) = λ _ h. h

  searched-inv : (po : PayoutRow) (o : Outcome (Option String → Page)) → Keeps I (searched b po o)
  unfolding searched
  searched-inv po (thrown e) = λ _ h. h
  searched-inv po (ok pages) = search-inv _

  pub Keeps-find :
      (account : String) (po : PayoutRow) → Keeps I (find_existing_transfer b account po)
  unfolding find_existing_transfer
  Keeps-find account po =
      Keeps->>= I (tried b (call b (b.listing account (created_gte po)))) _
        (Keeps-call (b.listing account (created_gte po))
          (fit.listing_kept account (created_gte po)))
        (searched-inv po)

  -- Another payout than `c.id`.
  module _ (po : PayoutRow) (apart : str_eq po.id c.id ≡ false) where
    fail-other : Keeps I (payout_fail b po.id)
    unfolding payout_fail
    fail-other = Keeps-rpc _ _ _ (λ s h. (
      count_change c.id po.id _ (λ r. failed-id r.status r) s.payouts ∙ h.0,
      IsRow-other c po.id _ (λ r. failed-id r.status r) apart _ s.payouts h.1,
      h.2,
      h.3,
    ))

    confirm-other : (transfer : String) → Keeps I (payout_confirm b po.id transfer)
    unfolding payout_confirm
    confirm-other transfer = Keeps-rpc _ _ _ (λ s h. (
      count_change c.id po.id _ (λ r. confirmed-id transfer r.status r) s.payouts ∙ h.0,
      IsRow-other c po.id _ (λ r. confirmed-id transfer r.status r) apart _ s.payouts h.1,
      h.2,
      h.3,
    ))

    fail_with-other : (reason : String) → Keeps I (fail_with b reason po)
    unfolding fail_with
    fail_with-other reason = Keeps->>= I _ _ fail-other (λ _ _ h. h)

    confirmed-other : (transfer : String) (o : Outcome Bool) → Keeps I (confirmed b transfer po o)
    unfolding confirmed
    confirmed-other transfer (thrown e) = λ _ h. h
    confirmed-other transfer (ok false) = λ _ h. h
    confirmed-other transfer (ok true) = λ _ h. h

    transfer-other : (transfer : String) → Keeps I (confirm_transfer b transfer po)
    unfolding confirm_transfer
    transfer-other transfer =
        Keeps->>= I (tried b (payout_confirm b po.id transfer)) _ (confirm-other transfer)
          (confirmed-other transfer)

    rechecked-other :
        (message : String) (o : Outcome (Option String)) → Keeps I (rechecked b message po o)
    unfolding rechecked
    rechecked-other message (thrown e) = fail_with-other message
    rechecked-other message (ok none) = fail_with-other message
    rechecked-other message (ok (some id)) =
        Keeps-if I (truthy id) _ _ (λ _. transfer-other id) (λ _. fail_with-other message)

    made-other :
        (account : String) (before after : List Held) (o : TransferReply)
        → IsMade c (transfer_request account po) before o after
        → held_for c.id after ≡ held_for c.id before
    made-other account before after o (h, e, d, p, _, _, _) =
        let no : carries c.id h.transfer ≡ false = rw p apart in ap (held_for c.id) e ∙ rw no refl

    create-other : (account : String) → Keeps I (create_transfer b (transfer_request account po))
    unfolding create_transfer
    create-other account s (k, rows, acc, h) =
        elim (fit.create_known (transfer_request account po) s.world) [
          | inl m ↦ (k, rows, acc, subst (IsHeld c l) (sym (made-other account _ _ _ m)) h)
          | inr u ↦ (k, rows, acc, subst (IsHeld c l) (ap (held_for c.id) (sym u.0)) h)
        ]

    rejected-other :
        (account message : String) (k : Certainty)
        → Keeps I (transfer_rejected b account po message k)
    unfolding transfer_rejected
    rejected-other account message definitive =
        Keeps->>= I (find_existing_transfer b account po) _ (Keeps-find account po)
          (rechecked-other message)
    rejected-other account message ambiguous = λ _ h. h

    answered-other :
        (account : String) (o : TransferReply) → Keeps I (transfer_answered b account po o)
    unfolding transfer_answered
    answered-other account (created id) = transfer-other id
    answered-other account (rejected e message) =
        rejected-other account message (classify_transfer_error e)

    ask-other : (account : String) → Keeps I (ask_transfer b account po)
    unfolding ask_transfer
    ask-other account =
        Keeps->>= I (create_transfer b (transfer_request account po)) _ (create-other account)
          (answered-other account)

    prechecked-other :
        (account : String) (o : Outcome (Option String)) → Keeps I (prechecked b account po o)
    unfolding prechecked
    prechecked-other account (thrown e) = λ _ h. h
    prechecked-other account (ok none) = ask-other account
    prechecked-other account (ok (some id)) =
        Keeps-if I (truthy id) _ _ (λ _. transfer-other id) (λ _. ask-other account)

    account-other : (account : String) → Keeps I (to_account b po account)
    unfolding to_account
    account-other account =
        Keeps->>= I (find_existing_transfer b account po) _ (Keeps-find account po)
          (prechecked-other account)

    with_account-other : (o : Option (Option String)) → Keeps I (with_account b po o)
    unfolding with_account
    with_account-other none = fail_with-other _
    with_account-other (some none) = fail_with-other _
    with_account-other (some (some account)) =
        Keeps-if I (truthy account) _ _ (λ _. account-other account) (λ _. fail_with-other _)

    pub pay_one-other : Keeps I (pay_one b po)
    unfolding pay_one
    pay_one-other = Keeps->>= I _ _ (Keeps-svc_get _ _) with_account-other

  pub pay_all-other :
      (rows : List PayoutRow) → length (rows_for c.id rows) ≡ 0 → Keeps I (pay_all b rows)
  unfolding pay_all
  pay_all-other [] e = λ _ h. h
  pay_all-other (po ∷ rows) e =
      let (apart, none_left) = rows_for-none c.id po rows e in
      Keeps->>= I _ _ (pay_one-other po apart)
        (λ r. Keeps->>= I _ _ (pay_all-other rows none_left) (λ _ _ h. h))
