-- ===== src/Cycle/Tables.antt =====
-- The requests of supabase/functions/billing/index.ts on the charges table.
use luma_line.Prelude.{
  ℕ, zero, suc, String, Bool, true, false, not, ◌&&◌, ◌||◌, Option, none, some, List, [], ◌∷◌, ◌++◌,
  map, select, if◌then◌else◌, str_eq, floor_cents,
}
use luma_line.Prelude.Effects.{Action, pure, ◌>>=◌, ◌>>◌}
use luma_line.Billing.Charges.{Group}
use luma_line.Cycle.{
  ChargeStatus, pending, succeeded, failed, skipped, ChargeRow, Books, Backend, svc_write, svc_read,
  outside,
}

abbrev pub take {ℓ} : {A : Type ℓ} → ℕ → List A → List A
take zero xs = []
take (suc n) [] = []
take (suc n) (x ∷ xs) = x ∷ take n xs

abbrev pub contains : List String → String → Bool
contains [] k = false
contains (x ∷ xs) k = str_eq x k || contains xs k

abbrev pub is_pending : ChargeStatus → Bool
is_pending pending = true
is_pending succeeded = false
is_pending failed = false
is_pending skipped = false

abbrev pub is_none {ℓ} : {A : Type ℓ} → Option A → Bool
is_none none = true
is_none (some a) = false

abbrev pub is_text : Option String → String → Bool
is_text none t = false
is_text (some s) t = str_eq s t

abbrev pub group_id : ChargeRow → String
group_id r = r.entry_group_id

-- `entry_group_id=in.(ids)&status=eq.pending`
abbrev pub is_claimed : List String → ChargeRow → Bool
is_claimed ids r = contains ids r.entry_group_id && is_pending r.status

-- `status=eq.pending&stripe_charge_id=is.null`
abbrev pub is_unsettled : ChargeRow → Bool
is_unsettled r = is_pending r.status && is_none r.stripe_charge_id

-- `charge_batch_id=eq.batch&status=eq.pending&stripe_charge_id=is.null`
abbrev pub is_in_batch : String → ChargeRow → Bool
is_in_batch batch r = is_text r.charge_batch_id batch && is_unsettled r

-- An insert with `resolution=ignore-duplicates` on the key.
abbrev pub insert_row : ChargeRow → List ChargeRow → List ChargeRow
insert_row r rows = if contains (map group_id rows) r.entry_group_id then rows else rows ++ (r ∷ [])

unfoldable pub insert_rows : List ChargeRow → List ChargeRow → List ChargeRow
insert_rows [] rows = rows
insert_rows (r ∷ rs) rows = insert_rows rs (insert_row r rows)

abbrev pub update_row : List String → (ChargeRow → ChargeRow) → ChargeRow → ChargeRow
update_row ids f r = if is_claimed ids r then f r else r

abbrev pub pending_row : String → String → String → Group → ChargeRow
pending_row advertiser batch mode g = record {
  entry_group_id = g.entry_group_id;
  advertiser_id = advertiser;
  impression_id = g.impression_id;
  amount_micros = g.amount_micros;
  amount_cents = floor_cents g.amount_micros;
  status = pending;
  charge_batch_id = some batch;
  settle_mode = some mode;
  stripe_charge_id = none;
  stripe_customer_id = none;
  failure_reason = none;
  settled_via = none;
}

module _ {W : Type 0} (b : Backend W) where
  unfoldable pub change_rows : (List ChargeRow → List ChargeRow) → Action (Books W) Bool
  unfolding svc_write
  change_rows f = svc_write b (λ s. record s { rows = f s.rows })

  -- An early return on an empty list, and a result that nothing reads.
  abbrev pub on_rows : List String → (List ChargeRow → List ChargeRow) → Action (Books W) (Unit {0})
  on_rows [] f = pure tt
  on_rows (id ∷ ids) f = do change_rows f; pure tt

  unfoldable pub insert_charge : ChargeRow → Action (Books W) (Unit {0})
  unfolding insert_rows
  insert_charge r = do change_rows (insert_rows (r ∷ [])); pure tt

  unfoldable pub reserve_pending :
      List Group → String → String → String → Action (Books W) (Unit {0})
  unfolding insert_rows
  reserve_pending groups advertiser batch mode =
      on_rows (map (λ (g : Group). g.entry_group_id) groups)
        (insert_rows (map (pending_row advertiser batch mode) groups))

  abbrev pub or_empty : Option (List ChargeRow) → List ChargeRow
  or_empty none = []
  or_empty (some rows) = rows

  unfoldable pub reselect_by_batch : String → Action (Books W) (List ChargeRow)
  unfolding svc_read
  reselect_by_batch batch = do
    found ← svc_read b (λ s. take 1000 (select (is_in_batch batch) s.rows))
    pure (or_empty found)

  unfoldable pub release_batch : List String → Action (Books W) (Unit {0})
  release_batch ids =
      on_rows ids (select (λ r. not (contains ids r.entry_group_id && is_unsettled r)))

  unfoldable pub mark_pending_charged : List String → String → String → Action (Books W) (Unit {0})
  mark_pending_charged ids charge customer = on_rows ids (
      map (
        update_row ids (λ r. record r {
          status = succeeded;
          stripe_charge_id = some charge;
          stripe_customer_id = some customer;
        })))

  unfoldable pub mark_pending_charged_balance : List String → Action (Books W) (Unit {0})
  mark_pending_charged_balance ids =
      on_rows ids
        (map (update_row ids (λ r. record r { status = succeeded; settled_via = some "balance" })))

  unfoldable pub mark_pending_failed : List String → String → Action (Books W) (Unit {0})
  mark_pending_failed ids reason =
      on_rows ids
        (map (update_row ids (λ r. record r { status = failed; failure_reason = some reason })))

  -- Every line item of the advertiser's campaigns is paused by one request, if it has campaigns.
  abbrev pub pause_under : String → Option (List String) → Action (Books W) (Unit {0})
  pause_under advertiser none = pure tt
  pause_under advertiser (some []) = pure tt
  pause_under advertiser (some (c ∷ cs)) = do
    svc_write b (λ s. record s { paused = advertiser ∷ s.paused })
    pure tt

  unfoldable pub pause_advertiser_line_items : String → Action (Books W) (Unit {0})
  unfolding svc_write
  pause_advertiser_line_items advertiser = do
    found ← outside (b.campaigns advertiser)
    pause_under advertiser found
