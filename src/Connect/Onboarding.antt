-- ===== src/Connect/Onboarding.antt =====
-- POST /connect/onboard and GET /connect/status of supabase/functions/stripe-connect/index.ts: a
-- publisher's account at Stripe is created, or created anew in another country, and linked to.
-- Whose row a bearer may read, Stripe and `toUpperCase` are an environment over a world `W`.
pub mod Guarded
use luma_line.Prelude.{
  ℕ, String, Bool, true, false, not, ◌&&◌, ◌||◌, Option, none, some, List, [], ◌∷◌, map, ◌≡◌, refl,
  All, if◌then◌else◌, str_eq, starts_with, truthy, trim, ◌&◌, Bool-cases, inl, inr, arith, ◌∙◌, ap,
}
use luma_line.Prelude.Effects.{
  Fault, Outcome, ok, thrown, Action, pure, throw, catch, ◌>>=◌, ◌>>◌, Keeps, Keeps->>=, Keeps-if,
  Keeps-catch,
}
use luma_line.Edge.Bearer.{bearer_header}
use luma_line.Cycle.{Fate, applied, refused, lost, unanswered, meet, meet_read}
use luma_line.Cycle.Tables.{contains}
use luma_line.Cycle.Settle.{stripe_missing, stripe_not_test}
use luma_line.Payout.Onboard.{
  resolve_onboard_country, can_redo_onboard_country, payout_supported_countries,
}
use luma_line.Connect.{Publisher}

pub record Account : Type 0 where
  pub details_submitted : Bool
  pub payouts_enabled : Bool

pub record AccountRequest : Type 0 where
  pub publisher_id : String
  pub country : String

-- The publishers' table, what was asked of Stripe, latest first, and the world outside.
pub record Bureau (W : Type 0) : Type 0 where
  pub publishers : List Publisher
  pub created : List AccountRequest
  pub deleted : List String
  pub world : W

pub record OnboardBackend (W : Type 0) : Type 0 where
  pub stripe_key : String
  pub assert_test : Bool
  pub upper : String → String
  pub fate : W → Fate × W
  pub publisher_id_of : String → W → Outcome (Option String) × W
  pub retrieve_account : String → W → Outcome Account × W
  pub delete_account : String → W → Outcome (Unit {0}) × W
  pub create_account : AccountRequest → W → Outcome String × W
  pub create_link : String → W → Outcome String × W

-- A request, with the country of its body if that is a text, and that of the CDN's header.
pub record OnboardRequest : Type 0 where
  pub authorization : Option String
  pub body_country : Option String
  pub header_country : Option String

pub data OnboardReply : Type 0 where
  json_err : String → ℕ → OnboardReply
  onboarding : String → String → OnboardReply
  status : String → Bool → OnboardReply

unfoldable pub publisher_row : String → List Publisher → Option Publisher
publisher_row id [] = none
publisher_row id (q ∷ qs) =
    let rest = publisher_row id qs in if str_eq q.id id then some q else rest

abbrev patch_at : String → (Publisher → Publisher) → Publisher → Publisher
patch_at id f q = if str_eq q.id id then f q else q

abbrev is_given : Option String → Bool
is_given none = false
is_given (some t) = truthy t

abbrev differs : Option String → Option String → Bool
differs none none = false
differs none (some b) = true
differs (some a) none = true
differs (some a) (some b) = not (str_eq a b)

abbrev pub is_supported : String → Bool
is_supported country = contains payout_supported_countries country

abbrev its_country : Option String → String
its_country none = "its country"
its_country (some c) = c

module _ {W : Type 0} (b : OnboardBackend W) where
  abbrev pub call : {A : Type 0} → (W → Outcome A × W) → Action (Bureau W) A
  call f s = ((f s.world).0, record s { world = (f s.world).1 })

  unfoldable pub patch_publisher : String → (Publisher → Publisher) → Action (Bureau W) Bool
  patch_publisher id f s =
      meet (λ (s : Bureau W). record s { publishers = map (patch_at id f) s.publishers })
        (b.fate s.world).0 (record s { world = (b.fate s.world).1 })

  -- `callerPublisher`: the row that row-level security leaves the bearer.
  abbrev row_of : Option String → Bureau W → Option Publisher
  row_of none s = none
  row_of (some id) s = publisher_row id s.publishers

  abbrev or_no_row : Option (Option Publisher) → Option Publisher
  or_no_row none = none
  or_no_row (some row) = row

  unfoldable pub caller_publisher : String → Action (Bureau W) (Option Publisher)
  unfolding publisher_row
  caller_publisher bearer = do
    id ← call (b.publisher_id_of bearer)
    row ← (λ s. meet_read (row_of id) (b.fate s.world).0 (record s { world = (b.fate s.world).1 }))
    pure (or_no_row row)

  unfoldable pub stripe_client : Action (Bureau W) (Unit {0})
  stripe_client =
      if not (truthy b.stripe_key)
      then throw stripe_missing
      else if b.assert_test && not (starts_with b.stripe_key "sk_test_")
      then throw stripe_not_test
      else pure tt

  -- Both are noted before Stripe answers.
  unfoldable pub delete_account : String → Action (Bureau W) (Unit {0})
  delete_account account s =
      call (b.delete_account account) (record s { deleted = account ∷ s.deleted })

  unfoldable pub create_account : AccountRequest → Action (Bureau W) String
  create_account r s = call (b.create_account r) (record s { created = r ∷ s.created })

  unfoldable pub link_to : String → Action (Bureau W) OnboardReply
  link_to account = do url ← call (b.create_link account); pure (onboarding account url)

  unfoldable pub create_in : String → String → Action (Bureau W) OnboardReply
  unfolding patch_publisher create_account link_to
  create_in publisher country =
      if not (is_supported country)
      then (do
        patch_publisher publisher
            (λ q. record q { payout_status = some "ineligible_country"; country = some country })
        pure (json_err ("Payouts are not yet supported in " & country) 422))
      else (do
        account ← create_account (record { publisher_id = publisher; country = country })
        patch_publisher publisher (λ q. record q {
          stripe_account_id = some account;
          payout_status = some "pending";
          country = some country;
        })
        link_to account)

  unfoldable pub create_new : String → Option String → Action (Bureau W) OnboardReply
  unfolding create_in
  create_new publisher none = pure (json_err "country_required" 422)
  create_new publisher (some country) = create_in publisher country

  unfoldable pub ensure_account :
      OnboardRequest
      → Publisher
      → Option String
      → Option String
      → Option String
      → Action (Bureau W) OnboardReply
  unfolding create_new link_to resolve_onboard_country
  ensure_account req q requested stored none =
      create_new q.id (resolve_onboard_country b.upper requested stored req.header_country)
  ensure_account req q requested stored (some account) =
      if truthy account
      then link_to account
      else create_new q.id (resolve_onboard_country b.upper requested stored req.header_country)

  unfoldable pub redo_country :
      OnboardRequest → Publisher → Option String → String → Account → Action (Bureau W) OnboardReply
  unfolding delete_account patch_publisher ensure_account can_redo_onboard_country
  redo_country req q requested account a =
      if can_redo_onboard_country requested q.country a.details_submitted a.payouts_enabled
      then (do
        delete_account account
        patch_publisher q.id (λ q. record q {
          stripe_account_id = none;
          payout_status = some "none";
          country = none;
        })
        ensure_account req q requested none none)
      else pure (json_err ("Your Stripe account is already set up in " & its_country q.country) 409)

  unfoldable pub onboard_account :
      OnboardRequest → Publisher → Option String → Option String → Action (Bureau W) OnboardReply
  unfolding redo_country ensure_account
  onboard_account req q requested none = ensure_account req q requested q.country none
  onboard_account req q requested (some account) =
      if truthy account && is_given requested && differs requested q.country
      then (do a ← call (b.retrieve_account account); redo_country req q requested account a)
      else ensure_account req q requested q.country (some account)

  abbrev requested_of : OnboardRequest → Option String
  requested_of req = elim req.body_country [ none ↦ none | some t ↦ some (b.upper (trim t)) ]

  abbrev failed : Fault → Action (Bureau W) OnboardReply
  failed e = pure (json_err ("Stripe onboarding error: " & e.message) 502)

  abbrev pub tried : {A : Type 0} → Action (Bureau W) A → Action (Bureau W) (Outcome A)
  tried m s = (ok (m s).0, (m s).1)

  unfoldable pub when_ready :
      OnboardRequest → Publisher → Outcome (Unit {0}) → Action (Bureau W) OnboardReply
  unfolding onboard_account trim
  when_ready req q (thrown e) = pure (json_err e.message 503)
  when_ready req q (ok u) =
      catch (onboard_account req q (requested_of req) q.stripe_account_id) failed

  unfoldable pub with_publisher : OnboardRequest → Option Publisher → Action (Bureau W) OnboardReply
  unfolding stripe_client when_ready
  with_publisher req none = pure (json_err "No publisher for this token" 403)
  with_publisher req (some q) = do ready ← tried stripe_client; when_ready req q ready

  unfoldable pub as_caller : OnboardRequest → Option String → Action (Bureau W) OnboardReply
  unfolding caller_publisher with_publisher
  as_caller req none = pure (json_err "Unauthorized" 401)
  as_caller req (some bearer) = do q ← caller_publisher bearer; with_publisher req q

  -- POST /connect/onboard
  unfoldable pub onboard : OnboardRequest → Action (Bureau W) OnboardReply
  unfolding as_caller bearer_header
  onboard req = as_caller req (bearer_header req.authorization)

  abbrev or_none : Option String → String
  or_none none = "none"
  or_none (some t) = t

  abbrev status_of : Option Publisher → OnboardReply
  status_of none = json_err "No publisher for this token" 403
  status_of (some q) =
      status (or_none q.payout_status) (elim q.stripe_account_id [ none ↦ false | some a ↦ true ])

  unfoldable pub as_reader : Option String → Action (Bureau W) OnboardReply
  unfolding caller_publisher
  as_reader none = pure (json_err "Unauthorized" 401)
  as_reader (some bearer) = do q ← caller_publisher bearer; pure (status_of q)

  -- GET /connect/status
  unfoldable pub connect_status : Option String → Action (Bureau W) OnboardReply
  unfolding bearer_header as_reader
  connect_status authorization = as_reader (bearer_header authorization)

  abbrev pub onboard_all : List OnboardRequest → Bureau W → Bureau W
  onboard_all [] s = s
  onboard_all (req ∷ reqs) s = onboard_all reqs (onboard req s).1
