-- ===== src/Connect/Life/Mailed.antt =====
-- The mails of supabase/functions/stripe-connect/index.ts leave every payout at its stage.
use luma_line.Prelude.{
  ℕ, String, false, Option, none, some, List, [], ◌∷◌, length, truthy, ℤ, ◌≡◌, arith,
}
use luma_line.Prelude.Effects.{pure, Keeps, Keeps->>=, Keeps-if, Keeps-catch}
use luma_line.Connect.{PayoutRow, Rail, RailBackend, Contact, Candidate, Mail, stripe_ready}
use luma_line.Connect.Batch.{PayResult}
use luma_line.Connect.Notify.{
  mail_to, mail_contact, mail_row, mail_paid, send_nudges, mark_connect_nudged, nudge_all, notify,
  or_no_candidates,
}
use luma_line.Connect.Life.{Life, Case, IsFaithful, Stands}
use luma_line.Connect.Life.Others.{Keeps-call}

-- `getStripe()` changes nothing.
pub ready-state : {W : Type 0} (b : RailBackend W) (s : Rail W) → (stripe_ready b s).1 ≡ s
unfolding stripe_ready
ready-state b s = ground arith

module _ {W : Type 0} (b : RailBackend W) (c : Case W) (fit : IsFaithful c b) (l : Life) where
  abbrev I : Rail W → Type 0
  I = Stands c l

  mail-inv : (mail : String → Mail) (o : Option String) → Keeps I (mail_to b mail o)
  unfolding mail_to
  mail-inv mail none = λ _ h. h
  mail-inv mail (some email) =
      Keeps-if I (truthy email) _ (pure false)
        (λ _. Keeps-call b c fit l (b.send_email (mail email)) (fit.email_kept (mail email)))
        (λ _ _ h. h)

  contact-inv : (po : PayoutRow) (o : Option Contact) → Keeps I (mail_contact b po o)
  unfolding mail_contact
  contact-inv po none = λ _ h. h
  contact-inv po (some to) = Keeps->>= I _ _ (mail-inv _ to.email) (λ _ _ h. h)

  row-inv : (o : Option PayoutRow) → Keeps I (mail_row b o)
  unfolding mail_row
  row-inv none = λ _ h. h
  row-inv (some po) =
      Keeps->>= I _ _
        (Keeps-call b c fit l (b.contact po.publisher_id) (fit.contact_kept po.publisher_id))
        (contact-inv po)

  paid-inv : (rows : List PayoutRow) (rs : List PayResult) → Keeps I (mail_paid b rows rs)
  unfolding mail_paid
  paid-inv rows [] = λ _ h. h
  paid-inv rows (r ∷ rs) = Keeps->>= I _ _ (row-inv _) (λ _. paid-inv rows rs)

  nudges-inv : (cs : List Candidate) → Keeps I (send_nudges b cs)
  unfolding send_nudges
  nudges-inv [] = λ _ h. h
  nudges-inv (to ∷ cs) =
      Keeps->>= I _ _ (mail-inv _ to.email) (λ s. Keeps->>= I _ _ (nudges-inv cs) (λ _ _ h. h))

  mark-inv : (n : ℕ) (ids : List String) → Keeps I (mark_connect_nudged b n ids)
  unfolding mark_connect_nudged
  mark-inv n [] = λ _ h. h
  mark-inv n (id ∷ ids) =
      Keeps-catch I _ _
        (Keeps->>= I _ _
          (Keeps-call b c fit l (b.mark_nudged (id ∷ ids)) (fit.nudged_kept (id ∷ ids)))
          (λ _ _ h. h))
        (λ _ _ h. h)

  nudge-inv : (cs : List Candidate) → Keeps I (nudge_all b cs)
  unfolding nudge_all
  nudge-inv cs =
      Keeps-catch I _ _ (Keeps->>= I _ _ (nudges-inv cs) (mark-inv (length cs))) (λ _ _ h. h)

  pub Keeps-notify :
      (m : ℤ) (rows : List PayoutRow) (rs : List PayResult) → Keeps I (notify b m rows rs)
  unfolding notify
  Keeps-notify m rows rs =
      Keeps-catch I _ _
        (Keeps->>= I _ _ (paid-inv rows _) (λ _.
          Keeps->>= I _ _ (Keeps-call b c fit l (b.candidates m) (fit.candidates_kept m))
            (λ o. nudge-inv (or_no_candidates o))))
        (λ _ _ h. h)
