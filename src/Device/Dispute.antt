-- ===== src/Device/Dispute.antt =====
-- POST /dispute and POST /device/logout of supabase/functions/auth-device/index.ts.
-- Which impression a bearer may read, the function `device_revoke` and new ids are an environment
-- over a world `W`; the insert into `disputes` has a fate, as in the billing cycle.
use luma_line.Prelude.{
  ℕ, String, Bool, true, false, not, ◌||◌, Option, none, some, List, ◌∷◌, ◌≡◌, refl, ◌⊎◌, inl, inr,
  Bool-cases, if◌then◌else◌, truthy, trim,
}
use luma_line.Prelude.Effects.{Outcome, ok, thrown, Action, pure, catch, after, ◌>>=◌}
use luma_line.Edge.Bearer.{bearer_header}
use luma_line.Edge.Texts.{DescriptionError, validate_dispute_description}
use luma_line.Cycle.{Fate, applied, refused, lost, unanswered, meet}

pub record Impression : Type 0 where
  pub id : String
  pub publisher_id : String

pub record Dispute : Type 0 where
  pub publisher_id : String
  pub impression_id : String
  pub description : String

pub record Docket (W : Type 0) : Type 0 where
  pub disputes : List Dispute
  pub world : W

pub record DisputeBackend (W : Type 0) : Type 0 where
  pub impression_for : String → String → W → Outcome (Option Impression) × W
  pub device_revoke : Option String → String → W → Outcome (ℕ × String) × W
  pub new_id : W → String × W
  pub fate : W → Fate × W

pub record DisputeRequest : Type 0 where
  pub authorization : Option String
  pub impression_id : Option String
  pub description : Option String

pub data DisputeReply : Type 0 where
  json_err : String → ℕ → DisputeReply
  disputed : String → DisputeReply
  passed_on : ℕ → String → DisputeReply

abbrev pub trimmed : Option String → String
trimmed none = ""
trimmed (some t) = trim t

module _ {W : Type 0} (b : DisputeBackend W) where
  abbrev pub call : {A : Type 0} → (W → Outcome A × W) → Action (Docket W) A
  call f s = ((f s.world).0, record s { world = (f s.world).1 })

  abbrev pub or_not_found : Outcome (Option Impression) → Outcome (Option Impression)
  or_not_found (ok found) = ok found
  or_not_found (thrown e) = ok none

  -- A network error counts as not found.
  unfoldable pub owned_impression : String → String → Action (Docket W) (Option Impression)
  owned_impression bearer id s = (
    or_not_found (b.impression_for bearer id s.world).0,
    record s { world = (b.impression_for bearer id s.world).1 },
  )

  unfoldable pub insert_dispute : Dispute → Action (Docket W) Bool
  insert_dispute d s =
      meet (λ (s : Docket W). record s { disputes = d ∷ s.disputes }) (b.fate s.world).0
        (record s { world = (b.fate s.world).1 })

  abbrev pub when_inserted : String → Bool → DisputeReply
  when_inserted id false = json_err "failed to create dispute" 500
  when_inserted id true = disputed id

  abbrev pub new_dispute : String → String → Impression → Dispute
  new_dispute id description i = record {
    publisher_id = i.publisher_id;
    impression_id = id;
    description = description;
  }

  unfoldable pub open_dispute : String → String → Option Impression → Action (Docket W) DisputeReply
  unfolding insert_dispute
  open_dispute id description none = pure (json_err "impression not found or not accessible" 404)
  open_dispute id description (some i) = do
    inserted ← insert_dispute (new_dispute id description i)
    new ← (λ s. (ok (b.new_id s.world).0, record s { world = (b.new_id s.world).1 }))
    pure (when_inserted new inserted)

  unfoldable pub when_valid :
      String → String → String → Option DescriptionError → Action (Docket W) DisputeReply
  unfolding owned_impression open_dispute
  when_valid bearer id description (some e) = pure (json_err "invalid description" 400)
  when_valid bearer id description none = do
    found ← owned_impression bearer id
    open_dispute id description found

  unfoldable pub as_bearer : DisputeRequest → Option String → Action (Docket W) DisputeReply
  unfolding when_valid trim validate_dispute_description
  as_bearer req none = pure (json_err "unauthenticated" 401)
  as_bearer req (some bearer) =
      if not (truthy (trimmed req.impression_id)) || not (truthy (trimmed req.description))
      then pure (json_err "impression_id and description are required" 400)
      else when_valid bearer (trimmed req.impression_id) (trimmed req.description)
          (validate_dispute_description (trimmed req.description))

  -- POST /dispute
  unfoldable pub dispute : DisputeRequest → Action (Docket W) DisputeReply
  unfolding as_bearer bearer_header
  dispute req = as_bearer req (bearer_header req.authorization)

  unfoldable pub revoke : Option String → Option String → Action (Docket W) DisputeReply
  revoke device none = pure (json_err "unauthenticated" 401)
  revoke device (some bearer) =
      catch (do reply ← call (b.device_revoke device bearer); pure (passed_on reply.0 reply.1))
        (λ e. pure (json_err "server_error" 500))

  -- POST /device/logout
  unfoldable pub logout : Option String → Option String → Action (Docket W) DisputeReply
  unfolding revoke bearer_header
  logout authorization device = revoke device (bearer_header authorization)

  -- The request asks for this dispute: it has the request's impression and its text, which passes the
  -- check; the database shows that impression to the request's own bearer, at its first question; and
  -- the dispute is on behalf of the impression's publisher.
  abbrev pub IsFounded : DisputeRequest → Docket W → Dispute → Type 0
  IsFounded req s d =
      (d.impression_id ≡ trimmed req.impression_id)
      × (d.description ≡ trimmed req.description)
      × (validate_dispute_description d.description ≡ none)
      × (bearer : String) × (i : Impression) × (bearer_header req.authorization ≡ some bearer)
      × ((b.impression_for bearer d.impression_id s.world).0 ≡ ok (some i))
      × (d.publisher_id ≡ i.publisher_id)

  -- The disputes stay as they are, or the first ones are of this kind.
  abbrev pub OpensOnly : (Dispute → Type 0) → Docket W → Docket W → Type 0
  OpensOnly P s end =
      (end.disputes ≡ s.disputes) ⊎ ((d : Dispute) × (end.disputes ≡ d ∷ s.disputes) × P d)

  inserted-Opens :
      (P : Dispute → Type 0) (d : Dispute) (reply : Bool → String → DisputeReply) (o : Fate)
      (s : Docket W)
      → P d
      → OpensOnly P s
          (after (meet (λ (s : Docket W). record s { disputes = d ∷ s.disputes }) o s) (λ inserted.
            do
              new ← (λ s. (ok (b.new_id s.world).0, record s { world = (b.new_id s.world).1 }))
              pure (reply inserted new))).1
  unfolding after
  inserted-Opens P d reply applied s h = inr (d, refl, h)
  inserted-Opens P d reply refused s h = inl refl
  inserted-Opens P d reply lost s h = inl refl
  inserted-Opens P d reply unanswered s h = inr (d, refl, h)

  shown-Opens :
      (req : DisputeRequest) (bearer : String) (s : Docket W) (w : W)
      (o : Outcome (Option Impression))
      → bearer_header req.authorization ≡ some bearer
      → validate_dispute_description (trimmed req.description) ≡ none
      → (b.impression_for bearer (trimmed req.impression_id) s.world).0 ≡ o
      → OpensOnly
          (IsFounded req s)
          s
          (after
            (or_not_found o, record s { world = w })
            (open_dispute (trimmed req.impression_id) (trimmed req.description))).1
  unfolding after open_dispute insert_dispute
  shown-Opens req bearer s w (ok none) a v e = inl refl
  shown-Opens req bearer s w (thrown x) a v e = inl refl
  shown-Opens req bearer s w (ok (some i)) a v e =
      inserted-Opens (IsFounded req s) _ (λ inserted new. when_inserted new inserted) (b.fate w).0
        (record s { world = (b.fate w).1 }) (refl, refl, v, bearer, i, a, e, refl)

  valid-Opens :
      (req : DisputeRequest) (bearer : String) (s : Docket W) (o : Option DescriptionError)
      → bearer_header req.authorization ≡ some bearer
      → validate_dispute_description (trimmed req.description) ≡ o
      → OpensOnly
          (IsFounded req s)
          s
          (when_valid bearer (trimmed req.impression_id) (trimmed req.description) o s).1
  unfolding when_valid owned_impression
  valid-Opens req bearer s (some x) a v = inl refl
  valid-Opens req bearer s none a v = shown-Opens req bearer s _ _ a v refl

  bearer-Opens :
      (req : DisputeRequest) (o : Option String) (s : Docket W)
      → bearer_header req.authorization ≡ o
      → OpensOnly (IsFounded req s) s (as_bearer req o s).1
  unfolding as_bearer
  bearer-Opens req none s a = inl refl
  bearer-Opens req (some bearer) s a =
      elim (Bool-cases
        (not (truthy (trimmed req.impression_id)) || not (truthy (trimmed req.description)))) [
          | inl e ↦ rw e (inl refl)
          | inr e ↦ rw e (valid-Opens req bearer s _ a refl)
        ]

  -- A request leaves the disputes as they are, or opens exactly one: it has the request's impression
  -- and text, the text passes the check, the database showed that impression to the request's own
  -- bearer, and the dispute is on behalf of the impression's publisher. This holds whether the insert
  -- is refused, lost or unanswered.
  pub dispute-IsFounded :
      (req : DisputeRequest) (s : Docket W) → OpensOnly (IsFounded req s) s (dispute req s).1
  unfolding dispute
  dispute-IsFounded req s = bearer-Opens req (bearer_header req.authorization) s refl
