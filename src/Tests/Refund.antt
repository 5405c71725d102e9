-- ===== src/Tests/Refund.antt =====
-- Refunds and a reconciliation at concrete inputs (supabase/functions/billing/index.ts).
use luma_line.Prelude.{
  ℕ, suc, String, true, false, some, none, [], ◌∷◌, ◌≡◌, refl, pos, All, length, map, sum_ℤ, ◌↔◌,
  arith, ◌&◌,
}
use luma_line.Prelude.Effects.{ok, after}
use luma_line.Cycle.{succeeded, ChargeRow, applied}
use luma_line.Reconcile.{
  ListedIntent, intent_micros, ReconcileBackend, Report, report, client_error, reconcile, last_id,
}
use luma_line.Reconcile.Complete.{collected, last_page, next_page, reconcile_iff}
use luma_line.Refund.{StripeRefund, Desk, RefundBackend, RefundRequest, refund_all, refund}
use luma_line.Refund.Due.{IsRefundDue, IsClawbackDue}
use luma_line.Refund.Paid.{refund_all-AreDue}

abbrev review_id : String
review_id = "0123abcd-0000-0000-0000-00000000000f"

abbrev charge : ChargeRow
charge = record {
  entry_group_id = "g1";
  advertiser_id = "a1";
  impression_id = some "i1";
  amount_micros = pos 600000;
  amount_cents = pos 60;
  status = succeeded;
  charge_batch_id = some "b1";
  settle_mode = some "postpay";
  stripe_charge_id = some "pi_1";
  stripe_customer_id = some "cus_1";
  failure_reason = none;
  settled_via = none;
}

abbrev admin : RefundBackend ℕ
admin = record {
  stripe_key = "sk_test_1";
  assert_test = true;
  fate = λ w. (applied, w);
  admin_check = λ bearer w. (ok (200, "true"), w);
  money_admin_check = λ bearer w. (ok (200, "true"), w);
  prepay_clawback = λ k bearer w. (ok (200, "{}"), w);
  says_refused = λ text. false;
  create_refund = λ r w. (ok "re_1", suc w);
}

abbrev asks : RefundRequest
asks = record { authorization = some "Bearer x"; review_id = some review_id }

abbrev desk : Desk ℕ
desk = record {
  reviews =
      record {
        id = review_id;
        status = "approved";
        impression_id = some "i1";
        refund_queued = false;
        refund_id = none;
      }
      ∷ [];
  charges = charge ∷ [];
  refunds = [];
  clawbacks = [];
  world = 0;
}

refund_all-AreDue_example :
    All (IsRefundDue desk.reviews desk.charges) (refund_all admin (asks ∷ asks ∷ []) desk).refunds
    × All
        (IsClawbackDue desk.reviews desk.charges)
        (refund_all admin (asks ∷ asks ∷ []) desk).clawbacks
refund_all-AreDue_example = refund_all-AreDue admin (asks ∷ asks ∷ []) desk tt tt

-- The second request finds the review queued.
once :
    (refund_all admin (asks ∷ asks ∷ []) desk).refunds
    ≡ record { key = "lumaline_refund_" & review_id; payment_intent = "pi_1"; amount = pos 60 } ∷ []
unfolding refund after luma_line.Refund.same_uuid
once = refl

-- The id in capitals finds the review, and makes another key.
abbrev asks_loudly : RefundRequest
asks_loudly = record {
  authorization = some "Bearer x";
  review_id = some "0123ABCD-0000-0000-0000-00000000000F";
}

other_key :
    map (λ (r : StripeRefund). r.key) (refund_all admin (asks_loudly ∷ asks ∷ []) desk).refunds
    ≡ "lumaline_refund_0123ABCD-0000-0000-0000-00000000000F" ∷ []
unfolding refund after luma_line.Refund.same_uuid
other_key = refl

-- Two pages of an intent each; the second was not collected.
abbrev intent : String → String → ListedIntent
intent id status = record { id = id; source = some "lumaline"; status = status; amount = pos 61 }

abbrev books : ReconcileBackend
books = record {
  stripe_key = "sk_test_1";
  assert_test = true;
  date_ms = λ s. some (pos 5000);
  iso = λ ms. "1970-01-01T00:00:05.000Z";
  recon_totals = λ from to.
      ok (some (some (record { total_micros = some (pos 610000); entry_count = some 2 })));
  list_intents = λ from to cursor. elim cursor [
    | none ↦ ok (record { listed = intent "pi_1" "succeeded" ∷ []; has_more = true })
    | some id ↦ ok (record { listed = intent "pi_2" "canceled" ∷ []; has_more = false })
  ];
}

reconcile_iff_example :
    (r : Report) × (reconcile books 3 (some "a") (some "b") ≡ some (ok (report r)))
    × ((r.is_ok ≡ true) ↔ (
        pos 610000
        ≡ sum_ℤ intent_micros
            (collected (intent "pi_1" "succeeded" ∷ intent "pi_2" "canceled" ∷ []))))
    × (r.stripe_count
        ≡ length (collected (intent "pi_1" "succeeded" ∷ intent "pi_2" "canceled" ∷ [])))
unfolding client_error last_id
reconcile_iff_example =
    reconcile_iff books 3 "a" "b" (pos 5000) (pos 5000)
      (some (record { total_micros = some (pos 610000); entry_count = some 2 })) (omega arith) refl
      refl refl refl refl (next_page refl refl (last_page refl refl))
