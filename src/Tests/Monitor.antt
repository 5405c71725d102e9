-- ===== src/Tests/Monitor.antt =====
-- The monitor's checks on concrete inputs.
use luma_line.Prelude.{false, none, some, List, [], ◌∷◌}
use luma_line.Monitor.Ledger.{LedgerGroup}
use luma_line.Monitor.Payouts.{PayoutRow}
use luma_line.Monitor.Refunds.{Review, ChargeRow}

abbrev groups : List LedgerGroup
groups = record { entry_group_id = some "g"; sum_micros = none } ∷ []

abbrev payouts : List PayoutRow
payouts =
    record { id = some "p"; status = "pending"; created_ms = none }
    ∷ record { id = some "q"; status = "paid"; created_ms = some 0 }
    ∷ []

abbrev reviews : List Review
reviews =
    record {
      id = some "r";
      impression_id = "i";
      reviewed_ms = some 0;
      refund_queued = false;
      status = "approved";
    }
    ∷ []

abbrev paid : List ChargeRow
paid = record { id = some "c"; impression_id = "i"; amount_cents = none; status = "succeeded" } ∷ []
