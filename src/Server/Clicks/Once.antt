-- ===== src/Server/Clicks/Once.antt =====
-- A run of clicks on the tracker of src/server/clicks.mjs.
use luma_line.Prelude.{
  ℕ, ◌+◌, ◌≤◌, ◌≡◌, inl, inr, refl, String, Bool, false, Option, none, some, List, [], ◌∷◌, arith,
  Option-cases, if◌then◌else◌, str_eq, eq_iff, Bool-cases,
}
use luma_line.Cycle.Tables.{is_text}
use luma_line.Server.Clicks.{
  TokenData, Crypto, Tracker, Verdict, ClickError, redirect, refused, contains, admit,
  resolve_parts, resolve,
}
use luma_line.Server.Clicks.Resolve.{resolve-IsJustified}
use luma_line.Server.Clicks.Split.{split_dot}

-- A click as it comes: which windows the store knows then, the clock, the token.
pub record Visit : Type 0 where
  pub known : String → Bool
  pub now : ℕ
  pub token : String

module _ (x : Crypto) where
  unfoldable pub payload_window : Option TokenData → Option String
  payload_window none = none
  payload_window (some d) = some d.window_id

  abbrev first_window : List String → Option String
  first_window [] = none
  first_window (p ∷ ps) = payload_window (x.decode p)

  -- The window that a token names: that of the payload before its first dot.
  unfoldable pub token_window : String → Option String
  token_window token = first_window (split_dot token)

  -- 1 for a click that redirects by a token that names the window.
  abbrev pub redirects_for : String → String → Verdict → ℕ
  redirects_for w token (redirect dest) = if is_text (token_window token) w then 1 else 0
  redirects_for w token (refused e) = 0

  -- The number of redirects by tokens that name the window, and the tracker after the clicks.
  unfoldable pub visit_all : String → Tracker → List Visit → ℕ × Tracker
  visit_all w k [] = (0, k)
  visit_all w k (v ∷ vs) =
      let (verdict, k') = resolve x v.known k v.now v.token in
      let (n, last) = visit_all w k' vs in (redirects_for w v.token verdict + n, last)

  refused_keeps :
      (known : String → Bool) (k k' : Tracker) (now : ℕ) (ps : List String) (e : ClickError)
      → resolve_parts x known k now ps ≡ (refused e, k')
      → k' ≡ k
  unfolding resolve_parts admit
  refused_keeps known k k' now [] e h = ground arith
  refused_keeps known k k' now (p ∷ []) e h = ground arith
  refused_keeps known k k' now (p ∷ sig ∷ []) e h = elim (Option-cases (x.decode p)) [
    | inl q ↦ ground (arith, q)
    | inr (d, q) ↦ ground (arith, q)
  ]
  refused_keeps known k k' now (p ∷ sig ∷ more ∷ rest) e h = ground arith

  abbrev pub bit : Bool → ℕ
  bit b = if b then 1 else 0

  -- One click marks the window that it redirects for, which was not marked before.
  resolve_marks :
      (w : String) (known : String → Bool) (k k' : Tracker) (now : ℕ) (token : String) (v : Verdict)
      → resolve x known k now token ≡ (v, k')
      → redirects_for w token v + bit (contains k.seen w) ≡ bit (contains k'.seen w)
  unfolding resolve token_window payload_window
  resolve_marks w known k k' now token (redirect dest) e =
      let j = resolve-IsJustified x known k k' now token dest e in
      let d = j.content in
      let named : token_window token ≡ some d.window_id = rw (j.parts, j.decoded) refl in
      let fresh = j.good.unseen in
      rw (named, j.remembered)
        (elim (Bool-cases (str_eq d.window_id w)) [
          | inl s ↦
              let same = (eq_iff d.window_id w).0 s in
              let unseen : contains k.seen w ≡ false = rw same at fresh in rw (s, unseen) refl
          | inr s ↦ rw s (omega arith)
        ])
  resolve_marks w known k k' now token (refused why) e =
      rw (refused_keeps known k k' now (split_dot token) why e) (omega arith)

  -- Whatever the clicks: a window is remembered at their end exactly if it was before, or one of
  -- them redirected by a token that names it, and then exactly one did. So a tracker redirects at
  -- most once for each window, and never for one that it remembers.
  pub visit_all_once :
      (w : String) (k : Tracker) (vs : List Visit)
      → let (n, last) = visit_all w k vs in
        (n + bit (contains k.seen w) ≡ bit (contains last.seen w)) × (n ≤ 1)
  unfolding visit_all
  visit_all_once w k [] = (omega arith, omega arith)
  visit_all_once w k (v ∷ vs) =
      let (verdict, k') = resolve x v.known k v.now v.token in
      let here = resolve_marks w v.known k k' v.now v.token verdict refl in
      let (rest, few) = visit_all_once w k' vs in
      let last = (visit_all w k' vs).1 in (omega (arith, here, rest), ground (arith, here, rest))
