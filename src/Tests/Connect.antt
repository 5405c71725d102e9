-- ===== src/Tests/Connect.antt =====
-- Runs of the payout function at concrete inputs (supabase/functions/stripe-connect/index.ts).
use luma_line.Prelude.{
  ℕ, String, true, false, not, ◌==◌, ◌+◌, Option, none, some, List, [], ◌∷◌, ◌≡◌, refl, map, select,
  ℤ, trim, pos, inl, arith, sum_ℤ, ◌↔◌, length, All, ◌≤◌, ◌-ℤ◌, subst,
}
use luma_line.Prelude.Effects.{Outcome, ok, after, handled}
use luma_line.Cycle.{applied, refused}
use luma_line.Payout.{Transfer, net_micros, classify_transfer_error}
use luma_line.Payout.Paging.{Page, Lists, is_last, last_page}
use luma_line.Connect.{
  PayoutStatus, pending, paid, failed, read_account, PayoutRow, TransferRequest, rejected, Rail,
  RailBackend, account_of,
}
use luma_line.Connect.Notify.{
  nudged_of, batch_reply, BatchRequest, is_cron, payout_batch, payout_batches,
}
use luma_line.Advertiser.Reversal.{other_field}
use luma_line.Connect.Batch.{PayResult, transfer_request, pay_all}
use luma_line.Connect.Isolated.{Yields, pay_all-isolated}
use luma_line.Connect.Recon.{
  PayoutTotals, ReconBackend, PayoutReport, payout_report, payout_reconcile, debits, lumaline,
  recon_client,
}
use luma_line.Connect.Recon.Whole.{payout_reconcile_iff}
use luma_line.Connect.Webhook.{
  accepted, declined, StripeEvent, Call, Inbox, WebhookBackend, Delivery, webhook, deliveries,
}
use luma_line.Connect.Webhook.Once.{IsOnce, deliveries-IsOnce}
use luma_line.Connect.Onboarding.{
  AccountRequest, Bureau, OnboardBackend, OnboardRequest, onboard, onboard_all,
}
use luma_line.Connect.Onboarding.Guarded.{IsUnfinished, IsOpenTo, onboard_all-IsGuarded}
use luma_line.Connect.Life.{
  Life, owed, ◌⟶*◌, Held, is_listed, transfer_of, Case, IsFaithful, Stands,
}
use luma_line.Connect.Life.Runs.{payout_batches-refines}

abbrev made : TransferRequest → Held
made r = record {
  destination = r.destination;
  made_at = pos 1_790_000_000;
  transfer = record {
    id = "tr_1";
    amount = some r.cents;
    amount_reversed = none;
    source = some "lumaline";
    payout_id = some r.payout_id;
  };
}

abbrev listed : String → Option ℤ → List Held → Option String → Page
listed account since held cursor = record {
  listed = map transfer_of (select (is_listed account since) held);
  has_more = false;
}

-- Every transfer is made, but no answer to the request arrives.
abbrev demo : RailBackend (List Held)
demo = record {
  stripe_key = "sk_test_1";
  assert_test = true;
  cron_secret = some "s";
  min_micros = none;
  search_fuel = 1;
  fate = λ q w. (applied, w);
  admin_check = λ t w. (ok (200, "true"), w);
  money_admin_check = λ t w. (ok (200, "true"), w);
  reserve = λ m w. ([], w);
  listing = λ account since w. (ok (listed account since w), w);
  create_transfer = λ r w. (rejected none "timeout", made r ∷ w);
  contact = λ t w. (ok none, w);
  candidates = λ m w. (ok none, w);
  send_email = λ m w. (ok true, w);
  mark_nudged = λ ids w. (ok true, w);
}

abbrev weekly : BatchRequest
weekly = record { authorization = none; cron_secret = some "s"; dry_run = none }

abbrev due : PayoutRow
due = record {
  id = "po1";
  publisher_id = "p1";
  amount_micros = pos 30_000_000;
  created_at = some (pos 1_780_000_000_000);
  status = pending;
  stripe_transfer_id = none;
}

abbrev start : Rail (List Held)
start = record {
  payouts = due ∷ [];
  publishers =
      record {
        id = "p1";
        country = some "DE";
        stripe_account_id = some "acct_1";
        payout_status = some "verified";
      }
      ∷ [];
  transfers = [];
  world = [];
}

abbrev one : Case (List Held)
one = record {
  id = "po1";
  publisher = "p1";
  account = "acct_1";
  since = some (pos 1_779_913_600);
  held = λ w. w;
}

only_page : (ts : List Transfer) → is_last (record { listed = ts; has_more = false }) ≡ true
only_page [] = refl
only_page (t ∷ ts) = refl

answer-inj :
    {f g : Option String → Page} → ◌≡◌ {A = Outcome (Option String → Page)} (ok f) (ok g) → f ≡ g
answer-inj e = cc

whole :
    (a : String) (g : Option ℤ) (w : List Held) (f : Option String → Page)
    → listed a g w ≡ f
    → (pages : ℕ) × (pages ≤ 1) × Lists f none (map transfer_of (select (is_listed a g) w)) pages
whole a g w f e =
    let ts = map transfer_of (select (is_listed a g) w) in
    (1, omega arith, subst (λ f. Lists f none ts 1) e (last_page (only_page ts)))

demo-IsFaithful : IsFaithful one demo
unfolding classify_transfer_error
demo-IsFaithful = record {
  fate_kept = λ q w. refl;
  admin_kept = λ t w. refl;
  money_kept = λ t w. refl;
  reserve_kept = λ m w. refl;
  listing_kept = λ a g w. refl;
  contact_kept = λ t w. refl;
  candidates_kept = λ m w. refl;
  email_kept = λ m w. refl;
  nudged_kept = λ ids w. refl;
  listing_whole = λ a g w f e. whole a g w f (answer-inj e);
  create_known = λ r w. inl (made r, refl, refl, refl, refl, (λ y. refl), refl);
  account_named = refl;
  account_told = λ w e. absurd (ground arith);
}

start-Stands : Stands one owed start
unfolding account_of ◌-ℤ◌
start-Stands = (refl, ((λ y. (refl, refl, refl)), tt), refl, refl)

payout_batches-refines_example :
    (m : Life) × (owed ⟶* m)
    × Stands one m (payout_batches ((demo, weekly) ∷ (demo, weekly) ∷ []) start)
payout_batches-refines_example =
    payout_batches-refines one ((demo, weekly) ∷ (demo, weekly) ∷ []) owed start
      (demo-IsFaithful, (demo-IsFaithful, tt)) start-Stands

-- The first run sends the payout and hears nothing; the second finds the transfer and books it.
abbrev statuses : Rail (List Held) → List PayoutStatus
statuses s = map (λ (r : PayoutRow). r.status) s.payouts

sent_once :
    (statuses (payout_batches ((demo, weekly) ∷ (demo, weekly) ∷ []) start) ≡ paid ∷ [])
    × (length (payout_batches ((demo, weekly) ∷ (demo, weekly) ∷ []) start).transfers ≡ 1)
unfolding payout_batch is_cron after handled ◌-ℤ◌
sent_once = (refl, refl)

-- An account that the database does not tell fails a payout whose transfer was made.
abbrev silent : RailBackend (List Held)
silent = record demo { fate = λ q w. (elim q [ read_account ↦ refused | _ ↦ applied ], w) }

failed_after_sent :
    statuses (payout_batches ((demo, weekly) ∷ (silent, weekly) ∷ []) start) ≡ failed ∷ []
unfolding payout_batch is_cron after handled ◌-ℤ◌
failed_after_sent = refl

pay_all-isolated_example :
    Yields
      (λ rs.
        let reply = batch_reply rs (nudged_of 0 0) in
        (map (λ (r : PayResult). r.payout_id) rs ≡ map (λ (r : PayoutRow). r.id) (due ∷ []))
        × (reply.paid + reply.deferred + reply.failed ≡ length (due ∷ [])))
      (pay_all demo (due ∷ []) start)
pay_all-isolated_example =
    pay_all-isolated demo (due ∷ []) start (nudged_of 0 0) (λ q w. inl refl)
      (λ a g w f e. let (n, few, lists) = whole a g w f (answer-inj e) in (_, n, few, lists))

-- An event of an account, whose first call is refused.
abbrev updated : StripeEvent
updated = record {
  id = "evt_1";
  type = "account.updated";
  object = record {
    id = some "acct_1";
    country = some "DE";
    payouts_enabled = true;
    details_submitted = true;
    transfer = (made (transfer_request "acct_1" due)).transfer;
    payment_intent = other_field;
    amount = none;
  };
}

abbrev hook : WebhookBackend ℕ
hook = record {
  stripe_key = "sk_test_1";
  assert_test = true;
  secret_parts = "whsec_1" ∷ [];
  construct_event = λ raw signature secret. ok updated;
  fate = λ q w. (applied, w);
  rpc = λ f w. (ok (not (w == 0)), w + 1);
  payouts_by_transfer = λ t w. (ok (some []), w);
}

abbrev delivery : Delivery
delivery = record { signature = some "sig"; raw = "{}" }

abbrev no_events : Inbox ℕ
no_events = record { seen = []; calls = []; world = 0 }

deliveries-IsOnce_example :
    IsOnce hook "evt_1" (deliveries hook (delivery ∷ delivery ∷ delivery ∷ []) no_events)
deliveries-IsOnce_example =
    deliveries-IsOnce hook "evt_1" (delivery ∷ delivery ∷ delivery ∷ []) no_events (λ q w. refl)
      (tt, (λ x. tt))

-- Refused, then accepted, then a duplicate.
retried :
    map
      (λ (k : Call). k.answer)
      (deliveries hook (delivery ∷ delivery ∷ delivery ∷ []) no_events).calls
    ≡ accepted ∷ declined ∷ []
unfolding webhook trim after
retried = refl

abbrev bureau : OnboardBackend ℕ
bureau = record {
  stripe_key = "sk_test_1";
  assert_test = true;
  upper = λ t. t;
  fate = λ w. (applied, w);
  publisher_id_of = λ t w. (ok (some "p1"), w);
  retrieve_account = λ a w. (ok (record { details_submitted = false; payouts_enabled = false }), w);
  delete_account = λ a w. (ok tt, w);
  create_account = λ r w. (ok "acct_2", w + 1);
  create_link = λ a w. (ok "https://connect", w);
}

abbrev redo : OnboardRequest
redo = record { authorization = some "Bearer t"; body_country = some "AT"; header_country = none }

abbrev opened : Bureau ℕ
opened = record { publishers = start.publishers; created = []; deleted = []; world = 0 }

onboard_all-IsGuarded_example :
    All (IsUnfinished bureau) (onboard_all bureau (redo ∷ []) opened).deleted
    × All IsOpenTo (onboard_all bureau (redo ∷ []) opened).created
onboard_all-IsGuarded_example = onboard_all-IsGuarded bureau (redo ∷ []) opened tt tt

redone :
    ((onboard_all bureau (redo ∷ []) opened).deleted ≡ "acct_1" ∷ [])
    × (map (λ (r : AccountRequest). r.country) (onboard_all bureau (redo ∷ []) opened).created
        ≡ "AT" ∷ [])
unfolding onboard after handled
redone = (refl, refl)

-- One transfer of 30 euros, of which 10 were reversed.
abbrev one_page : Option String → Page
one_page cursor = record {
  listed =
      record {
        id = "tr_1";
        amount = some (pos 3_000);
        amount_reversed = some (pos 1_000);
        source = some "lumaline";
        payout_id = some "po1";
      }
      ∷ [];
  has_more = false;
}

abbrev books : PayoutTotals
books = record { payout_debits_micros = some (pos 20_000_000); payout_count = some 1 }

abbrev recon : ReconBackend
recon = record {
  stripe_key = "sk_test_1";
  assert_test = true;
  date_ms = λ t. some (pos 1_000);
  recon_totals = λ from to. ok (some books);
  list_transfers = λ from to cursor. ok (one_page cursor);
}

payout_reconcile_iff_example :
    (r : PayoutReport) × (payout_reconcile recon 1 (some "a") (some "b")
      ≡ some (ok (payout_report r)))
    × ((r.is_ok ≡ true) ↔ (debits books ≡ sum_ℤ net_micros (lumaline (one_page none).listed)))
    × (r.stripe_count ≡ length (lumaline (one_page none).listed))
unfolding recon_client
payout_reconcile_iff_example =
    payout_reconcile_iff recon 1 "a" "b" (pos 1_000) (pos 1_000) books one_page (omega arith) refl
      refl refl refl refl (λ c. refl) (last_page refl)
