-- ===== src/Ops/Transparency.antt =====
-- The public transparency report, scripts/ops/lib/transparency.mjs: `buildReport` and `reconcile`.
-- `ratio num den unit` is `Math.round(num / den * unit)` of JavaScript's numbers.
-- The constant fields of the report and its stamp are left out.
pub mod Identity
use luma_line.Prelude.{
  ℕ, ◌+◌, String, Bool, true, false, ◌&&◌, ◌||◌, Option, none, some, List, [], ◌∷◌, if◌then◌else◌,
  str_eq, select, sum_by, ◌==◌, ℤ, pos, negsuc, ◌-ℤ◌, ◌+ℤ◌, eqb_ℤ, leb_ℤ, sum_ℤ, or_zero,
}

-- A grouped row of the ledger.
pub record LedgerRow : Type 0 where
  pub account : String
  pub state : String
  pub event_type : String
  pub amount_micros : ℤ
  pub n : ℕ

pub record ImpressionRow : Type 0 where
  pub state : String
  pub n : ℕ
  pub billable_n : Option ℕ
  pub gross_micros : ℤ
  pub attention_seconds : ℕ

pub record WindowCounts : Type 0 where
  pub open_count : ℕ
  pub credited : ℕ
  pub abandoned : ℕ
  pub void : ℕ

pub record ReportInput : Type 0 where
  pub ledger : List LedgerRow
  pub ledger_global_sum_micros : ℤ
  pub unbalanced_group_count : ℕ
  pub windows : WindowCounts
  pub impressions : List ImpressionRow
  pub clicks_credited : ℕ

pub record Cleared : Type 0 where
  pub gross_micros : ℤ
  pub publisher_micros : ℤ
  pub platform_micros : ℤ
  pub publisher_share_bps : Option ℤ
  pub view_count : ℕ
  pub attention_seconds : ℕ
  pub avg_gross_per_view_micros : Option ℤ
  pub avg_gross_per_attention_second_micros : Option ℤ

pub record Reversed : Type 0 where
  pub reversed_gross_micros : ℤ
  pub reversed_group_count : ℕ
  pub clawback_rate_bps : Option ℤ

pub record Delivery : Type 0 where
  pub windows : WindowCounts
  pub windows_terminal : ℕ
  pub fill_rate_bps : Option ℤ
  pub credited_views : ℕ
  pub clicks_credited : ℕ

pub record Reconciliation : Type 0 where
  pub ledger_global_sum_micros : ℤ
  pub unbalanced_group_count : ℕ
  pub zero_sum_ok : Bool
  pub accrual_identity_ok : Bool
  pub publisher_split_ok : Bool
  pub all_ok : Bool

pub record Report : Type 0 where
  pub cleared : Cleared
  pub provisional_gross_micros : ℤ
  pub provisional_view_count : ℕ
  pub clawback : Reversed
  pub delivery : Delivery
  pub reconciliation : Reconciliation

abbrev pub is_accrual : LedgerRow → Bool
is_accrual r = str_eq r.event_type "cpva_accrual" || str_eq r.event_type "cpc_accrual"

abbrev pub leg : String → String → LedgerRow → Bool
leg account state r = str_eq r.account account && str_eq r.state state && is_accrual r

abbrev pub row_amount : LedgerRow → ℤ
row_amount r = r.amount_micros

unfoldable pub ledger_sum : List LedgerRow → (LedgerRow → Bool) → ℤ
ledger_sum rows pred = sum_ℤ row_amount (select pred rows)

unfoldable pub ledger_count : List LedgerRow → (LedgerRow → Bool) → ℕ
ledger_count rows pred = sum_by (λ (r : LedgerRow). r.n) (select pred rows)

abbrev pub negate : ℤ → ℤ
negate z = pos 0 -ℤ z

-- The last row of a state, as `Object.fromEntries` keeps it.
unfoldable pub last_of : String → Option ImpressionRow → List ImpressionRow → Option ImpressionRow
last_of state found [] = found
last_of state found (r ∷ rs) = last_of state (if str_eq r.state state then some r else found) rs

abbrev pub billable : Option ImpressionRow → ℕ
billable none = 0
billable (some r) = elim r.billable_n [ none ↦ r.n | some b ↦ b ]

abbrev attention_of : Option ImpressionRow → ℕ
attention_of none = 0
attention_of (some r) = r.attention_seconds

abbrev gross_of : Option ImpressionRow → ℤ
gross_of none = pos 0
gross_of (some r) = r.gross_micros

abbrev pub is_billable_state : ImpressionRow → Bool
is_billable_state r = str_eq r.state "provisional" || str_eq r.state "cleared"

-- A split of which at least half, and not much more than the documented 60%, is the publisher's.
abbrev pub split_ok : Cleared → Bool
split_ok c =
    eqb_ℤ c.gross_micros (pos 0)
    || (leb_ℤ c.platform_micros c.publisher_micros && elim c.publisher_share_bps [
      | none ↦ false
      | some b ↦ leb_ℤ (pos 5000) b && leb_ℤ b (pos 7000)
    ])

unfoldable pub reconcile : Report → Report
reconcile report =
    let r = report.reconciliation in
    let c = report.cleared in
    let zero = eqb_ℤ r.ledger_global_sum_micros (pos 0) && r.unbalanced_group_count == 0 in
    let identity = eqb_ℤ c.gross_micros (c.publisher_micros +ℤ c.platform_micros) in
    record report {
      reconciliation = record r {
        zero_sum_ok = zero;
        accrual_identity_ok = identity;
        publisher_split_ok = split_ok c;
        all_ok = zero && identity && split_ok c;
      };
    }

module _ (ratio : ℤ → ℤ → ℕ → ℤ) where
  -- Basis points, or an average; none of nothing.
  abbrev pub share : ℤ → ℤ → ℕ → Option ℤ
  share num den unit = if eqb_ℤ den (pos 0) then none else some (ratio num den unit)

  unfoldable pub cleared_block : List LedgerRow → List ImpressionRow → Cleared
  unfolding ledger_sum last_of
  cleared_block led imps =
      let gross = ledger_sum led (leg "advertiser_billing" "cleared") in
      let publisher = negate (ledger_sum led (leg "publisher_earnings" "cleared")) in
      let cleared = last_of "cleared" none imps in
      record {
        gross_micros = gross;
        publisher_micros = publisher;
        platform_micros = negate (ledger_sum led (leg "platform_revenue" "cleared"));
        publisher_share_bps = share publisher gross 10_000;
        view_count = billable cleared;
        attention_seconds = attention_of cleared;
        avg_gross_per_view_micros = share gross (pos (billable cleared)) 1;
        avg_gross_per_attention_second_micros = share gross (pos (attention_of cleared)) 1;
      }

  unfoldable pub clawback_block : List LedgerRow → Reversed
  unfolding ledger_sum ledger_count
  clawback_block led =
      let gross = ledger_sum led (leg "advertiser_billing" "cleared") in
      let reversed = ledger_sum led (leg "advertiser_billing" "reversed") in
      record {
        reversed_gross_micros = reversed;
        reversed_group_count = ledger_count led (leg "advertiser_billing" "reversed");
        clawback_rate_bps = share reversed (gross +ℤ reversed) 10_000;
      }

  unfoldable pub delivery_block : WindowCounts → List ImpressionRow → ℕ → Delivery
  delivery_block w imps clicks =
      let terminal = w.credited + w.abandoned + w.void in
      record {
        windows = w;
        windows_terminal = terminal;
        fill_rate_bps = share (pos w.credited) (pos terminal) 10_000;
        credited_views = sum_by (λ (r : ImpressionRow). r.n) (select is_billable_state imps);
        clicks_credited = clicks;
      }

  unfoldable pub build_report : ReportInput → Report
  unfolding cleared_block clawback_block delivery_block reconcile last_of
  build_report i = reconcile (record {
    cleared = cleared_block i.ledger i.impressions;
    provisional_gross_micros = gross_of (last_of "provisional" none i.impressions);
    provisional_view_count = billable (last_of "provisional" none i.impressions);
    clawback = clawback_block i.ledger;
    delivery = delivery_block i.windows i.impressions i.clicks_credited;
    reconciliation = record {
      ledger_global_sum_micros = i.ledger_global_sum_micros;
      unbalanced_group_count = i.unbalanced_group_count;
      zero_sum_ok = false;
      accrual_identity_ok = false;
      publisher_split_ok = false;
      all_ok = false;
    };
  })
