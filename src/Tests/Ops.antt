-- ===== src/Tests/Ops.antt =====
-- The transparency report on a concrete ledger, and the country of an onboarding.
use luma_line.Prelude.{[], ◌∷◌, pos, negsuc}
use luma_line.Ops.Transparency.{LedgerRow, ReportInput}

abbrev gross : LedgerRow
gross = record {
  account = "advertiser_billing";
  state = "cleared";
  event_type = "cpva_accrual";
  amount_micros = pos 10;
  n = 1;
}

abbrev input : ReportInput
input = record {
  ledger =
      gross
      ∷ record gross { account = "publisher_earnings"; amount_micros = negsuc 5 }
      ∷ record gross { account = "platform_revenue"; amount_micros = negsuc 3 }
      ∷ [];
  ledger_global_sum_micros = pos 0;
  unbalanced_group_count = 0;
  windows = record { open_count = 0; credited = 1; abandoned = 1; void = 0 };
  impressions = [];
  clicks_credited = 0;
}
