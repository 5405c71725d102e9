-- ===== src/Payout/Paging.antt =====
-- The search for a transfer over all pages, `findTransferIdByMetadata` of
-- supabase/functions/_shared/payout-logic.mjs. The loop runs on fuel, one page for each unit.
use luma_line.Prelude.{
  ℕ, zero, suc, ◌≤◌, ◌≡◌, refl, ap, sym, inl, inr, String, Bool, true, false, not, Option, none,
  some, List, [], ◌∷◌, ◌++◌, arith, if◌then◌else◌, str_eq, truthy, Option-cases, Bool-cases,
}
use luma_line.Payout.{Transfer}

-- An answer of `listFn`; one that is none or has no array is an
-- empty last page. `listed` is its `data`.
pub record Page : Type 0 where
  pub listed : List Transfer
  pub has_more : Bool

abbrev pub carries : String → Transfer → Bool
carries payout_id t = elim t.payout_id [ none ↦ false | some p ↦ str_eq p payout_id ]

-- The id of the first transfer of the list with the payout's id.
unfoldable pub find_in : String → List Transfer → Option String
find_in payout_id [] = none
find_in payout_id (t ∷ ts) =
    let rest = find_in payout_id ts in if carries payout_id t then some t.id else rest

-- The cursor that the last transfer of a page sets, if its id is not empty.
unfoldable pub cursor_after : List Transfer → Option String
cursor_after [] = none
cursor_after (t ∷ []) = if truthy t.id then some t.id else none
cursor_after (t ∷ (u ∷ ts)) = cursor_after (u ∷ ts)

abbrev pub is_last : Page → Bool
is_last p = elim p.listed [ [] ↦ true | t ∷ ts ↦ not p.has_more ]

-- A page that has the transfer ends the search, and so does the last one.
abbrev verdict : Option String → Bool → Option (Option String) → Option (Option String)
verdict (some id) last later = some (some id)
verdict none true later = some none
verdict none false later = later

-- `list_fn` answers `starting_after`; the destination and the lower bound of the creation time are
-- the same in each call. The answer is `none` when the fuel runs out.
module _ (list_fn : Option String → Page) where
  unfoldable pub find_transfer_id : ℕ → String → Option String → Option (Option String)
  unfolding find_in cursor_after
  find_transfer_id zero payout_id cursor = none
  find_transfer_id (suc fuel) payout_id cursor =
      let page = list_fn cursor in
      let rest = find_transfer_id fuel payout_id (cursor_after page.listed) in
      verdict (find_in payout_id page.listed) (is_last page) rest

  -- The transfers from a cursor on, page by page: a page that is not the last sets the cursor from
  -- which the next ones are listed.
  pub data Lists : Option String → List Transfer → ℕ → Type 0 where
    last_page :
        {cursor : Option String}
        → is_last (list_fn cursor) ≡ true
        → Lists cursor (list_fn cursor).listed 1
    next_page :
        {cursor : Option String} {rest : List Transfer} {pages : ℕ}
        → is_last (list_fn cursor) ≡ false
        → Lists (cursor_after (list_fn cursor).listed) rest pages
        → Lists cursor ((list_fn cursor).listed ++ rest) (suc pages)

  find_in-append_known :
      (payout_id id : String) (xs ys : List Transfer)
      → find_in payout_id xs ≡ some id
      → find_in payout_id (xs ++ ys) ≡ some id
  unfolding find_in
  find_in-append_known payout_id id [] ys h = ground arith
  find_in-append_known payout_id id (x ∷ xs) ys h = elim (Bool-cases (carries payout_id x)) [
    | inl e ↦ rw e (rw (e) at h)
    | inr e ↦ rw e (find_in-append_known payout_id id xs ys (rw (e) at h))
  ]

  find_in-append_unknown :
      (payout_id : String) (xs ys : List Transfer)
      → find_in payout_id xs ≡ none
      → find_in payout_id (xs ++ ys) ≡ find_in payout_id ys
  unfolding find_in
  find_in-append_unknown payout_id [] ys h = refl
  find_in-append_unknown payout_id (x ∷ xs) ys h = elim (Bool-cases (carries payout_id x)) [
    | inl e ↦ let bad : some x.id ≡ none = rw (e) at h in cc
    | inr e ↦ rw e (find_in-append_unknown payout_id xs ys (rw (e) at h))
  ]

  -- The search covers every page: with as much fuel as there are pages it ends, with the id of the
  -- first transfer of the whole listing that carries the payout's id, or without one if none does.
  pub find_transfer_id_complete :
      (payout_id : String) (fuel : ℕ)
      → {cursor : Option String} {all : List Transfer} {pages : ℕ} → pages ≤ fuel
      → Lists cursor all pages
      → find_transfer_id fuel payout_id cursor ≡ some (find_in payout_id all)
  unfolding find_transfer_id
  find_transfer_id_complete payout_id zero f (last_page l) = ground arith
  find_transfer_id_complete payout_id zero f (next_page l n) = ground arith
  find_transfer_id_complete payout_id (suc fuel) {cursor} f (last_page l) =
      elim (Option-cases (find_in payout_id (list_fn cursor).listed)) [
        | inl e ↦ rw (find_transfer_id, e, l) refl
        | inr (id, e) ↦ rw (find_transfer_id, e) refl
      ]
  find_transfer_id_complete payout_id (suc fuel) {cursor} f (next_page {rest} {pages} l n) =
      let xs = (list_fn cursor).listed in
      let later = find_transfer_id_complete payout_id fuel (omega arith) n in
      elim (Option-cases (find_in payout_id xs)) [
        | inl e ↦
            rw (find_transfer_id, e, l, later)
              (ap some (sym (find_in-append_unknown payout_id xs rest e)))
        | inr (id, e) ↦
            rw (find_transfer_id, e) (ap some (sym (find_in-append_known payout_id id xs rest e)))
      ]
