-- ===== src/Cycle/Fates.antt =====
-- What a request to the database leaves, whatever becomes of it: `svc` and `serviceRpc` of
-- supabase/functions/billing/index.ts and supabase/functions/stripe-connect/index.ts.
use luma_line.Prelude.Effects.{Keeps}
use luma_line.Cycle.{Fate, applied, refused, lost, unanswered, meet, meet_read}

module _ {κ} {S : Type 0} (I : S → Type κ) where
  pub Keeps-meet : (c : S → S) → ((s : S) → I s → I (c s)) → (o : Fate) → Keeps I (meet c o)
  Keeps-meet c k applied s h = k s h
  Keeps-meet c k refused s h = h
  Keeps-meet c k lost s h = h
  Keeps-meet c k unanswered s h = k s h

  pub Keeps-meet_read : {A : Type 0} (f : S → A) (o : Fate) → Keeps I (meet_read f o)
  Keeps-meet_read f applied = λ _ h. h
  Keeps-meet_read f refused = λ _ h. h
  Keeps-meet_read f lost = λ _ h. h
  Keeps-meet_read f unanswered = λ _ h. h
