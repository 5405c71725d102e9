-- ===== src/Prelude/Effects.antt =====
-- A call of the source that may change a state, return a value, or throw: what was written before a
-- throw stays written. And the invariants of such calls, which hold on every path.
use mathlib.Core.Path.{◌≡◌, refl}
use mathlib.Core.Bool.{Bool, true, false}
use luma_line.Prelude.Tests.{if◌then◌else◌}
use Prim.Native.String.{String}

-- What is thrown: the message, and whether it is a card's decline.
pub record Fault : Type 0 where
  pub decline : Bool
  pub message : String

pub data Outcome (A : Type 0) : Type 0 where
  ok : A → Outcome A
  thrown : Fault → Outcome A

abbrev pub Action : Type 0 → Type 0 → Type 0
Action S A = S → Outcome A × S

module _ {S : Type 0} where
  abbrev pub pure : {A : Type 0} → A → Action S A
  pure a s = (ok a, s)

  abbrev pub throw : {A : Type 0} → Fault → Action S A
  throw e s = (thrown e, s)

  unfoldable pub after : {A B : Type 0} → Outcome A × S → (A → Action S B) → Outcome B × S
  after (ok a, s) f = f a s
  after (thrown e, s) f = (thrown e, s)

  infixl 5 ◌>>=◌ ◌>>◌
  abbrev pub ◌>>=◌ : {A B : Type 0} → Action S A → (A → Action S B) → Action S B
  ◌>>=◌ m f s = after (m s) f

  abbrev pub ◌>>◌ : {A B : Type 0} → Action S A → Action S B → Action S B
  m >> k = m >>= λ _. k

  unfoldable pub handled : {A : Type 0} → Outcome A × S → (Fault → Action S A) → Outcome A × S
  handled (ok a, s) h = (ok a, s)
  handled (thrown e, s) h = h e s

  -- `try { m } catch (e) { h(e) }`
  abbrev pub catch : {A : Type 0} → Action S A → (Fault → Action S A) → Action S A
  catch m h s = handled (m s) h

  unfoldable pub ended : {A B : Type 0} → Outcome A → Outcome B × S → Outcome A × S
  ended r (ok b, s) = (r, s)
  ended r (thrown e, s) = (thrown e, s)

  -- `try { m } finally { f }`
  abbrev pub finally : {A B : Type 0} → Action S A → Action S B → Action S A
  finally m f s = ended (m s).0 (f (m s).1)

  module _ {κ} (I : S → Type κ) where
    -- The invariant holds after the call, whether it returns or throws.
    abbrev pub Keeps : {A : Type 0} → Action S A → Type κ
    Keeps m = (s : S) → I s → I (m s).1

    pub Keeps-pure : {A : Type 0} (a : A) → Keeps (pure a)
    Keeps-pure a s h = h

    pub after-inv :
        {A B : Type 0} (r : Outcome A × S) (f : A → Action S B)
        → I r.1
        → ((a : A) → Keeps (f a))
        → I (after r f).1
    unfolding after
    after-inv (ok a, s) f h k = k a s h
    after-inv (thrown e, s) f h k = h

    pub Keeps->>= :
        {A B : Type 0} (m : Action S A) (f : A → Action S B)
        → Keeps m
        → ((a : A) → Keeps (f a))
        → Keeps (m >>= f)
    Keeps->>= m f h k s i = after-inv (m s) f (h s i) k

    handled-inv :
        {A : Type 0} (r : Outcome A × S) (f : Fault → Action S A)
        → I r.1
        → ((e : Fault) → Keeps (f e))
        → I (handled r f).1
    unfolding handled
    handled-inv (ok a, s) f h k = h
    handled-inv (thrown e, s) f h k = k e s h

    pub Keeps-catch :
        {A : Type 0} (m : Action S A) (f : Fault → Action S A)
        → Keeps m
        → ((e : Fault) → Keeps (f e))
        → Keeps (catch m f)
    Keeps-catch m f h k s i = handled-inv (m s) f (h s i) k

    ended-inv : {A B : Type 0} (r : Outcome A) (q : Outcome B × S) → I q.1 → I (ended r q).1
    unfolding ended
    ended-inv r (ok b, s) h = h
    ended-inv r (thrown e, s) h = h

    pub Keeps-finally :
        {A B : Type 0} (m : Action S A) (f : Action S B) → Keeps m → Keeps f → Keeps (finally m f)
    Keeps-finally m f h k s i = ended-inv (m s).0 (f (m s).1) (k (m s).1 (h s i))

    -- Each branch may use what was tested.
    pub Keeps-if :
        {A : Type 0} (b : Bool) (m n : Action S A)
        → (b ≡ true → Keeps m)
        → (b ≡ false → Keeps n)
        → Keeps (if b then m else n)
    Keeps-if true m n h k = h refl
    Keeps-if false m n h k = k refl

    -- What is known at the end of a call: `Q` of its value, and the invariant after a throw.
    abbrev pub Ends : {A : Type 0} → (A → S → Type κ) → Outcome A × S → Type κ
    Ends Q (ok a, s) = Q a s
    Ends Q (thrown e, s) = I s

    pub after-via :
        {A B : Type 0} {Q : A → S → Type κ} (r : Outcome A × S) (f : A → Action S B)
        → Ends Q r
        → ((a : A) (s : S) → Q a s → I (f a s).1)
        → I (after r f).1
    unfolding after
    after-via (ok a, s) f h k = k a s h
    after-via (thrown e, s) f h k = h

    pub Keeps-via :
        {A B : Type 0} (m : Action S A) (f : A → Action S B) (Q : A → S → Type κ)
        → ((s : S) → I s → Ends Q (m s))
        → ((a : A) (s : S) → Q a s → I (f a s).1)
        → Keeps (m >>= f)
    Keeps-via m f Q h k s i = after-via (m s) f (h s i) k
