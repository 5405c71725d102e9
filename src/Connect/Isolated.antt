-- ===== src/Connect/Isolated.antt =====
-- The payouts of a run of POST /payout/batch do not stop each other,
-- supabase/functions/stripe-connect/index.ts.
use luma_line.Prelude.{
  ℕ, ◌≤◌, ℤ, String, Bool, true, false, Option, none, some, List, [], ◌∷◌, map, select, length, ◌≡◌,
  refl, ◌∙◌, ◌⊎◌, inl, inr, truthy, arith, ◌+◌, if◌then◌else◌, Bool-cases,
}
use luma_line.Prelude.Effects.{Outcome, ok, thrown, Action, after}
use luma_line.Cycle.{Fate, applied, refused, lost, unanswered, meet_read}
use luma_line.Payout.Paging.{Page, Lists, find_transfer_id_complete}
use luma_line.Payout.{Transfer, definitive, ambiguous, Certainty, classify_transfer_error}
use luma_line.Connect.{
  PayoutRow, TransferReply, created, rejected, Query, Rail, RailBackend, fail_payout, read_account,
  svc_get, meet_rpc, service_rpc, payout_fail,
}
use luma_line.Connect.Batch.{
  PayResult, created_gte, searched, find_existing_transfer, create_transfer, fail_with, confirmed,
  confirm_transfer, rechecked, transfer_rejected, transfer_answered, ask_transfer, prechecked,
  to_account, with_account, pay_one, pay_all, transfer_request,
}
use luma_line.Connect.Notify.{is_paid, is_deferred, is_failed, Nudged, batch_reply}

-- The call returned a value that has the property.
abbrev pub Yields : {S A : Type 0} → (A → Type 0) → Outcome A × S → Type 0
Yields P (ok a, s) = P a
Yields P (thrown e, s) = ⊥

after-Yields :
    {S A B : Type 0} (P : A → Type 0) (Q : B → Type 0) (r : Outcome A × S) (f : A → Action S B)
    → Yields P r
    → ((a : A) (s : S) → P a → Yields Q (f a s))
    → Yields Q (after r f)
unfolding after
after-Yields P Q (ok a, s) f h k = k a s h
after-Yields P Q (thrown e, s) f h k = absurd h

Yields-map :
    {S A : Type 0} (P Q : A → Type 0) (r : Outcome A × S)
    → Yields P r
    → ((a : A) → P a → Q a)
    → Yields Q r
Yields-map P Q (ok a, s) h k = k a h
Yields-map P Q (thrown e, s) h k = h

-- The database answers: it may refuse, but no request of the run is lost.
abbrev pub IsAnswered : Fate → Type 0
IsAnswered o = (o ≡ applied) ⊎ (o ≡ refused)

-- A listing that answers has a last page, which the fuel reaches.
abbrev pub IsEnding : {W : Type 0} → RailBackend W → Type 0
IsEnding {W} b =
    (account : String) (since : Option ℤ) (w : W) (f : Option String → Page)
    → (b.listing account since w).0 ≡ ok f
    → (ts : List Transfer) × (pages : ℕ) × (pages ≤ b.search_fuel) × Lists f none ts pages

module _ {W : Type 0} (b : RailBackend W)
    (answered : (q : Query) (w : W) → IsAnswered (b.fate q w).0) (ends : IsEnding b) where
  abbrev Any : {A : Type 0} → A → Type 0
  Any a = Unit

  rpc-Yields :
      (allows : Rail W → Bool) (change : Rail W → Rail W) (o : Fate) (s : Rail W)
      → IsAnswered o
      → Yields Any (meet_rpc b allows change o s)
  rpc-Yields allows change applied s h = tt
  rpc-Yields allows change refused s h = tt
  rpc-Yields allows change lost s (inl e) = absurd (ground arith)
  rpc-Yields allows change lost s (inr e) = absurd (ground arith)
  rpc-Yields allows change unanswered s (inl e) = absurd (ground arith)
  rpc-Yields allows change unanswered s (inr e) = absurd (ground arith)

  read-Yields :
      {A : Type 0} (f : Rail W → A) (o : Fate) (s : Rail W)
      → IsAnswered o
      → Yields Any (meet_read f o s)
  read-Yields f applied s h = tt
  read-Yields f refused s h = tt
  read-Yields f lost s (inl e) = absurd (ground arith)
  read-Yields f lost s (inr e) = absurd (ground arith)
  read-Yields f unanswered s (inl e) = absurd (ground arith)
  read-Yields f unanswered s (inr e) = absurd (ground arith)

  module _ (po : PayoutRow) where
    abbrev IsOf : PayResult → Type 0
    IsOf r = r.payout_id ≡ po.id

    searched-Yields :
        (account : String) (w : W) (o : Outcome (Option String → Page)) (s : Rail W)
        → (b.listing account (created_gte po) w).0 ≡ o
        → Yields Any (searched b po o s)
    unfolding searched
    searched-Yields account w (thrown e) s q = tt
    searched-Yields account w (ok f) s q =
        let (ts, pages, few, lists) = ends account (created_gte po) w f q in
        rw (find_transfer_id_complete f po.id b.search_fuel few lists) tt

    find-Yields :
        (account : String) (s : Rail W) → Yields Any (find_existing_transfer b account po s)
    unfolding find_existing_transfer after
    find-Yields account s = searched-Yields account s.world _ _ refl

    fail-IsOf : (reason : String) (s : Rail W) → Yields IsOf (fail_with b reason po s)
    unfolding fail_with payout_fail service_rpc
    fail-IsOf reason s =
        after-Yields Any IsOf (payout_fail b po.id s) _
          (rpc-Yields _ _ (b.fate fail_payout s.world).0 _ (answered fail_payout s.world))
          (λ _ _ _. refl)

    confirmed-IsOf :
        (transfer : String) (o : Outcome Bool) (s : Rail W)
        → Yields IsOf (confirmed b transfer po o s)
    unfolding confirmed
    confirmed-IsOf transfer (thrown e) s = refl
    confirmed-IsOf transfer (ok false) s = refl
    confirmed-IsOf transfer (ok true) s = refl

    confirm-IsOf : (transfer : String) (s : Rail W) → Yields IsOf (confirm_transfer b transfer po s)
    unfolding confirm_transfer after
    confirm-IsOf transfer s = confirmed-IsOf transfer _ _

    confirm_or_fail :
        (id reason : String) (s : Rail W)
        → Yields IsOf ((if truthy id then confirm_transfer b id po else fail_with b reason po) s)
    confirm_or_fail id reason s = elim (Bool-cases (truthy id)) [
      | inl e ↦ rw e (confirm-IsOf id s)
      | inr e ↦ rw e (fail-IsOf reason s)
    ]

    rechecked-IsOf :
        (message : String) (o : Outcome (Option String)) (s : Rail W)
        → Yields IsOf (rechecked b message po o s)
    unfolding rechecked
    rechecked-IsOf message (thrown e) s = fail-IsOf message s
    rechecked-IsOf message (ok none) s = fail-IsOf message s
    rechecked-IsOf message (ok (some id)) s = confirm_or_fail id message s

    rejected-IsOf :
        (account message : String) (k : Certainty) (s : Rail W)
        → Yields IsOf (transfer_rejected b account po message k s)
    unfolding transfer_rejected
    rejected-IsOf account message definitive s =
        after-Yields Any IsOf (find_existing_transfer b account po s) _ (find-Yields account s)
          (λ o s _. rechecked-IsOf message o s)
    rejected-IsOf account message ambiguous s = refl

    reply-IsOf :
        (account : String) (o : TransferReply) (s : Rail W)
        → Yields IsOf (transfer_answered b account po o s)
    unfolding transfer_answered
    reply-IsOf account (created id) s = confirm-IsOf id s
    reply-IsOf account (rejected e message) s =
        rejected-IsOf account message (classify_transfer_error e) s

    ask-IsOf : (account : String) (s : Rail W) → Yields IsOf (ask_transfer b account po s)
    unfolding ask_transfer create_transfer after
    ask-IsOf account s =
        reply-IsOf account (b.create_transfer (transfer_request account po) s.world).0
          (create_transfer b (transfer_request account po) s).1

    prechecked-IsOf :
        (account : String) (o : Outcome (Option String)) (s : Rail W)
        → Yields IsOf (prechecked b account po o s)
    unfolding prechecked
    prechecked-IsOf account (thrown e) s = refl
    prechecked-IsOf account (ok none) s = ask-IsOf account s
    prechecked-IsOf account (ok (some id)) s = elim (Bool-cases (truthy id)) [
      | inl e ↦ rw e (confirm-IsOf id s)
      | inr e ↦ rw e (ask-IsOf account s)
    ]

    account-IsOf : (account : String) (s : Rail W) → Yields IsOf (to_account b po account s)
    unfolding to_account
    account-IsOf account s =
        after-Yields Any IsOf (find_existing_transfer b account po s) _ (find-Yields account s)
          (λ o s _. prechecked-IsOf account o s)

    with_account-IsOf :
        (o : Option (Option String)) (s : Rail W) → Yields IsOf (with_account b po o s)
    unfolding with_account
    with_account-IsOf none s = fail-IsOf _ s
    with_account-IsOf (some none) s = fail-IsOf _ s
    with_account-IsOf (some (some account)) s = elim (Bool-cases (truthy account)) [
      | inl e ↦ rw e (account-IsOf account s)
      | inr e ↦ rw e (fail-IsOf _ s)
    ]

    pay_one-IsOf : (s : Rail W) → Yields IsOf (pay_one b po s)
    unfolding pay_one svc_get
    pay_one-IsOf s =
        after-Yields Any IsOf (svc_get b read_account _ s) _
          (read-Yields _ (b.fate read_account s.world).0 _ (answered read_account s.world))
          (λ o s _. with_account-IsOf o s)

  abbrev payout_ids : List PayoutRow → List String
  payout_ids = map (λ (r : PayoutRow). r.id)

  abbrev result_ids : List PayResult → List String
  result_ids = map (λ (r : PayResult). r.payout_id)

  all-Yields :
      (rows : List PayoutRow) (s : Rail W)
      → Yields (λ rs. result_ids rs ≡ payout_ids rows) (pay_all b rows s)
  unfolding pay_all
  all-Yields [] s = refl
  all-Yields (po ∷ rows) s =
      after-Yields (IsOf po) _ (pay_one b po s) _ (pay_one-IsOf po s) (λ r s e.
        after-Yields (λ rs. result_ids rs ≡ payout_ids rows) _ (pay_all b rows s) _
          (all-Yields rows s) (λ rs s f. cc))

counted :
    (rs : List PayResult)
    → length (select is_paid rs) + length (select is_deferred rs) + length (select is_failed rs)
      ≡ length rs
counted [] = refl
counted (r ∷ rs) = ground (arith, counted rs)

same_length :
    (rs : List PayResult) (rows : List PayoutRow)
    → map (λ (r : PayResult). r.payout_id) rs ≡ map (λ (r : PayoutRow). r.id) rows
    → length rs ≡ length rows
same_length [] [] e = refl
same_length [] (po ∷ rows) e = ground arith
same_length (r ∷ rs) [] e = ground arith
same_length (r ∷ rs) (po ∷ rows) e = ground (arith, same_length rs rows)

-- Where the database answers every request, be it by refusing, and each listing of Stripe's transfers
-- that is answered has a last page within the fuel, a run over any rows returns, whatever else Stripe
-- answers or throws: it reports each row exactly once and in their order, as paid, deferred or failed,
-- and the three counts of the reply sum to the number of rows.
pub pay_all-isolated :
    {W : Type 0} (b : RailBackend W) (rows : List PayoutRow) (s : Rail W) (n : Nudged)
    → ((q : Query) (w : W) → IsAnswered (b.fate q w).0)
    → IsEnding b
    → Yields
        (λ rs.
          let reply = batch_reply rs n in
          (map (λ (r : PayResult). r.payout_id) rs ≡ map (λ (r : PayoutRow). r.id) rows)
          × (reply.paid + reply.deferred + reply.failed ≡ length rows))
        (pay_all b rows s)
unfolding batch_reply
pay_all-isolated b rows s n answered ends =
    Yields-map _ _ (pay_all b rows s) (all-Yields b answered ends rows s)
      (λ rs e. (e, counted rs ∙ same_length rs rows e))
