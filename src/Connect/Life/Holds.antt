-- ===== src/Connect/Life/Holds.antt =====
-- Lists behind the life of a payout of supabase/functions/stripe-connect/index.ts: what a search
-- finds among the transfers that Stripe holds, and rows whose payout is another one.
use luma_line.Prelude.{
  ℕ, String, Bool, true, false, Option, none, some, List, [], ◌∷◌, ◌++◌, map, select, ◌≡◌, refl,
  sym, ap, subst, ◌∙◌, inl, inr, str_eq, eq_iff, ℤ, All, All-append, arith, Bool-cases,
  if◌then◌else◌, length, ◌≤◌, zero, suc,
}
use luma_line.Payout.Paging.{carries, find_in}
use luma_line.Connect.{PayoutStatus, PayoutRow, payout_of, insert_payouts, change_payout, is_known}
use luma_line.Cycle.Tables.{take}
use luma_line.Connect.Batch.{is_open, is_status_pending}
use luma_line.Connect.Life.{Held, is_listed, held_for, transfer_of, Case, IsRow, rows_for}

pub find_none :
    (id account : String) (since : Option ℤ) (hs : List Held)
    → held_for id hs ≡ []
    → find_in id (map transfer_of (select (is_listed account since) hs)) ≡ none
unfolding find_in
find_none id account since [] e = refl
find_none id account since (h ∷ hs) e = elim (Bool-cases (carries id h.transfer)) [
  | inl y ↦ let bad : h ∷ held_for id hs ≡ [] = rw (y) at e in absurd (ground arith)
  | inr n ↦
      let rest = find_none id account since hs (rw (n) at e) in
      elim (Bool-cases (is_listed account since h)) [ inl l ↦ rw l (rw n rest) | inr l ↦ rw l rest ]
]

pub find_only :
    (id account : String) (since : Option ℤ) (hs : List Held) (x : Held)
    → held_for id hs ≡ x ∷ []
    → is_listed account since x ≡ true
    → find_in id (map transfer_of (select (is_listed account since) hs)) ≡ some x.transfer.id
unfolding find_in
find_only id account since [] x e l = absurd (ground arith)
find_only id account since (h ∷ hs) x e l = elim (Bool-cases (carries id h.transfer)) [
  | inl y ↦
      let same : h ∷ held_for id hs ≡ x ∷ [] = rw (y) at e in
      let first : h ≡ x = cc in
      let listed : is_listed account since h ≡ true =
        subst (λ z. is_listed account since z ≡ true) (sym first) l in
      rw listed (rw y (ap (λ (z : Held). some z.transfer.id) first))
  | inr n ↦
      let rest = find_only id account since hs x (rw (n) at e) l in
      elim (Bool-cases (is_listed account since h)) [ inl m ↦ rw m (rw n rest) | inr m ↦ rw m rest ]
]

pub count_change :
    (id other : String) (f : PayoutRow → PayoutRow)
    → ((r : PayoutRow) → (f r).id ≡ r.id)
    → (rows : List PayoutRow)
    → length (rows_for id (change_payout other f rows)) ≡ length (rows_for id rows)
unfolding change_payout
count_change id other f k [] = refl
count_change id other f k (r ∷ rows) =
    let rest = count_change id other f k rows in
    elim (Bool-cases (str_eq r.id other)) [
      | inl o ↦ rw o (rw (k r) (one_more _ _ _ _ (str_eq r.id id) rest))
      | inr o ↦ rw o (one_more _ _ _ _ (str_eq r.id id) rest)
    ]
  where
    one_more :
        (x y : PayoutRow) (xs ys : List PayoutRow) (e : Bool)
        → length xs ≡ length ys
        → length (if e then x ∷ xs else xs) ≡ length (if e then y ∷ ys else ys)
    one_more x y xs ys true h = omega (arith, h)
    one_more x y xs ys false h = h

pub rows_for-none :
    (id : String) (r : PayoutRow) (rows : List PayoutRow)
    → length (rows_for id (r ∷ rows)) ≡ 0
    → (str_eq r.id id ≡ false) × (length (rows_for id rows) ≡ 0)
rows_for-none id r rows h = ground arith

known_count :
    (id : String) (rows : List PayoutRow)
    → length (rows_for id rows) ≡ 1
    → is_known (payout_of id rows) ≡ true
unfolding payout_of
known_count id [] h = absurd (omega arith)
known_count id (r ∷ rows) h = elim (Bool-cases (str_eq r.id id)) [
  | inl e ↦ rw e refl
  | inr e ↦ rw e (known_count id rows (rw (e) at h))
]

count_append :
    (id : String) (r : PayoutRow) (rows : List PayoutRow)
    → str_eq r.id id ≡ false
    → length (rows_for id (rows ++ (r ∷ []))) ≡ length (rows_for id rows)
count_append id r [] h = rw h refl
count_append id r (q ∷ rows) h = ground (arith, count_append id r rows h)

module _ {W : Type 0} (c : Case W) where
  -- A change of the rows of another payout.
  pub IsRow-other :
      (other : String) (f : PayoutRow → PayoutRow)
      → ((r : PayoutRow) → (f r).id ≡ r.id)
      → str_eq other c.id ≡ false
      → (status : PayoutStatus) (rows : List PayoutRow) → All (IsRow c status) rows
      → All (IsRow c status) (change_payout other f rows)
  unfolding change_payout
  IsRow-other other f k apart status [] h = tt
  IsRow-other other f k apart status (r ∷ rows) h = elim (Bool-cases (str_eq r.id other)) [
    | inl e ↦
        let same : r.id ≡ other = (eq_iff r.id other).0 e in
        let no : str_eq (f r).id c.id ≡ false = rw (k r) (rw same apart) in
        rw e ((λ y. absurd (ground arith)), IsRow-other other f k apart status rows h.1)
    | inr e ↦ rw e (h.0, IsRow-other other f k apart status rows h.1)
  ]

  -- A change of this payout's own rows.
  pub IsRow-own :
      (f : PayoutRow → PayoutRow) (old new : PayoutStatus)
      → ((r : PayoutRow) → (f r).id ≡ r.id)
      → ((r : PayoutRow) → IsRow c old r → IsRow c new (f r))
      → (rows : List PayoutRow) → All (IsRow c old) rows
      → All (IsRow c new) (change_payout c.id f rows)
  unfolding change_payout
  IsRow-own f old new k step [] h = tt
  IsRow-own f old new k step (r ∷ rows) h = elim (Bool-cases (str_eq r.id c.id)) [
    | inl e ↦ rw e (step r h.0, IsRow-own f old new k step rows h.1)
    | inr e ↦ rw e ((λ y. absurd (ground arith)), IsRow-own f old new k step rows h.1)
  ]

  pub IsRow-insert :
      (status : PayoutStatus) (new rows : List PayoutRow)
      → length (rows_for c.id rows) ≡ 1
      → All (IsRow c status) rows
      → (length (rows_for c.id (insert_payouts new rows)) ≡ 1)
        × All (IsRow c status) (insert_payouts new rows)
  unfolding insert_payouts
  IsRow-insert status [] rows k h = (k, h)
  IsRow-insert status (r ∷ new) rows k h = elim (Bool-cases (is_known (payout_of r.id rows))) [
    | inl e ↦ rw e (IsRow-insert status new rows k h)
    | inr e ↦ elim (Bool-cases (str_eq r.id c.id)) [
      | inl y ↦
          let same : r.id ≡ c.id = (eq_iff r.id c.id).0 y in
          let bad : is_known (payout_of r.id rows) ≡ true = rw same (known_count c.id rows k) in
          absurd (ground arith)
      | inr n ↦ rw e (
          IsRow-insert status new (rows ++ (r ∷ [])) (count_append c.id r rows n ∙ k)
            (All-append _ rows (r ∷ []) h ((λ y. absurd (ground arith)), tt)))
    ]
  ]

  -- The rows that a page of the open ones may have.
  pub IsRow-page :
      (p : PayoutRow → Bool) (status : PayoutStatus) (n : ℕ) (rows : List PayoutRow)
      → All (IsRow c status) rows
      → All (IsRow c status) (take n (select p rows))
  IsRow-page p status zero rows h = tt
  IsRow-page p status (suc n) [] h = tt
  IsRow-page p status (suc n) (r ∷ rows) h =
      ground (arith, IsRow-page p status n rows h.1, IsRow-page p status (suc n) rows h.1)

  pub count_page :
      (p : PayoutRow → Bool) (n : ℕ) (rows : List PayoutRow)
      → length (rows_for c.id (take n (select p rows))) ≤ length (rows_for c.id rows)
  count_page p zero rows = omega arith
  count_page p (suc n) [] = omega arith
  count_page p (suc n) (r ∷ rows) = ground (arith, count_page p n rows, count_page p (suc n) rows)

  pub count_closed :
      (status : PayoutStatus) (n : ℕ)
      → is_status_pending status ≡ false
      → (rows : List PayoutRow) → All (IsRow c status) rows
      → length (rows_for c.id (take n (select is_open rows))) ≡ 0
  count_closed status zero e rows h = refl
  count_closed status (suc n) e [] h = refl
  count_closed status (suc n) e (r ∷ rows) h = elim (Bool-cases (is_open r)) [
    | inl o ↦ elim (Bool-cases (str_eq r.id c.id)) [
      | inl y ↦
          let closed : is_status_pending r.status ≡ false = rw (h.0 y).2 e in absurd (ground arith)
      | inr x ↦ rw o (rw x (count_closed status n e rows h.1))
    ]
    | inr o ↦ rw o (count_closed status (suc n) e rows h.1)
  ]
