-- ===== src/Server/Clicks/Resolve.antt =====
-- What a click token of src/server/clicks.mjs is worth.
use luma_line.Prelude.{
  ℕ, ◌+◌, ◌≤◌, ◌≡◌, ◌⊎◌, inl, inr, refl, ap, ◌∙◌, String, Bool, true, false, some, List, [], ◌∷◌,
  arith, truthy, ◌&◌, eq_iff, Option-cases,
}
use luma_line.Server.Windows.{safe_equal}
use luma_line.Server.Windows.Accept.{safe_equal_iff}
use luma_line.Server.Clicks.{
  TokenData, Crypto, Tracker, redirect, refused, duplicate, contains, is_safe_http_url, mint, admit,
  resolve_parts, resolve,
}
use luma_line.Server.Clicks.Split.{
  split_dot, split_dot-append, split_dot-no_dot, split_dot_two, has_dot,
}

module _ (x : Crypto) where
  is_safe_http_url_sound :
      (u : String)
      → is_safe_http_url x u ≡ true
      → (p : String) × (x.protocol_of u ≡ some p) × ((p ≡ "http:") ⊎ (p ≡ "https:"))
  unfolding is_safe_http_url
  is_safe_http_url_sound u h = elim (Option-cases (x.protocol_of u)) [
    | inl e ↦ ground arith
    | inr (p, e) ↦ (p, e, ground (arith, eq_iff p "http:", eq_iff p "https:"))
  ]

  -- What makes a payload worth a redirect.
  pub record IsGood (known : String → Bool) (k : Tracker) (now : ℕ) (d : TokenData) : Type 0 where
    pub fresh : now ≤ d.ts + k.ttl_ms
    pub is_known : known d.window_id ≡ true
    pub is_safe : is_safe_http_url x d.dest ≡ true
    pub unseen : contains k.seen d.window_id ≡ false

  admit_of_IsGood :
      (known : String → Bool) (k : Tracker) (now : ℕ) (d : TokenData)
      → IsGood known k now d
      → admit x known k now d ≡ (redirect d.dest, record k { seen = d.window_id ∷ k.seen })
  unfolding admit
  admit_of_IsGood known k now d g = ground arith

  admit_duplicate :
      (known : String → Bool) (k : Tracker) (now : ℕ) (d : TokenData)
      → now ≤ d.ts + k.ttl_ms
      → known d.window_id ≡ true
      → is_safe_http_url x d.dest ≡ true
      → contains k.seen d.window_id ≡ true
      → admit x known k now d ≡ (refused duplicate, k)
  unfolding admit
  admit_duplicate known k now d fresh kn safe old = ground arith

  IsGood-of_admit :
      (known : String → Bool) (k k' : Tracker) (now : ℕ) (d : TokenData) (dest : String)
      → admit x known k now d ≡ (redirect dest, k')
      → IsGood known k now d × (dest ≡ d.dest) × (k' ≡ record k { seen = d.window_id ∷ k.seen })
  unfolding admit
  IsGood-of_admit known k k' now d dest e = ground arith

  -- Why a token redirects: it is a payload with the secret's HMAC of that payload behind a dot, and
  -- what the payload says is good.
  pub record IsJustified (known : String → Bool) (k k' : Tracker) (now : ℕ) (token dest : String)
      : Type 0 where
    pub payload : String
    pub content : TokenData
    pub parts : split_dot token ≡ payload ∷ x.hmac_hex k.secret payload ∷ []
    pub signed : token ≡ payload & "." & x.hmac_hex k.secret payload
    pub decoded : x.decode payload ≡ some content
    pub good : IsGood known k now content
    pub same_dest : dest ≡ content.dest
    pub remembered : k' ≡ record k { seen = content.window_id ∷ k.seen }

  resolve_two :
      (known : String → Bool) (k k' : Tracker) (now : ℕ) (token dest p sig : String)
      → split_dot token ≡ p ∷ sig ∷ []
      → resolve_parts x known k now (p ∷ sig ∷ []) ≡ (redirect dest, k')
      → IsJustified known k k' now token dest
  unfolding resolve_parts
  resolve_two known k k' now token dest p sig q h = elim (Option-cases (x.decode p)) [
    | inl e ↦ absurd (ground (arith, e))
    | inr (d, e) ↦
        let same : sig ≡ x.hmac_hex k.secret p =
          ground (arith, e, safe_equal_iff sig (x.hmac_hex k.secret p)) in
        let verdict : admit x known k now d ≡ (redirect dest, k') = ground (arith, e) in
        let (g, to, after) = IsGood-of_admit known k k' now d dest verdict in
        record {
          payload = p;
          content = d;
          parts = q ∙ ap (λ u. p ∷ u ∷ []) same;
          signed = split_dot_two token p sig q ∙ ap (λ u. p & "." & u) same;
          decoded = e;
          good = g;
          same_dest = to;
          remembered = after;
        }
  ]

  resolve_by_parts :
      (known : String → Bool) (k k' : Tracker) (now : ℕ) (token dest : String) (ps : List String)
      → split_dot token ≡ ps
      → resolve_parts x known k now ps ≡ (redirect dest, k')
      → IsJustified known k k' now token dest
  unfolding resolve_parts
  resolve_by_parts known k k' now token dest [] q h = absurd (cc)
  resolve_by_parts known k k' now token dest (p ∷ []) q h = absurd (cc)
  resolve_by_parts known k k' now token dest (p ∷ sig ∷ []) q h =
      resolve_two known k k' now token dest p sig q h
  resolve_by_parts known k k' now token dest (p ∷ sig ∷ more ∷ rest) q h = absurd (cc)

  -- A token redirects only if it is a payload with the secret's HMAC of that payload behind a dot,
  -- the payload has not outlived the tracker's time, its window is known, its destination is an
  -- http or https URL, and its window has not redirected before; that window is then remembered.
  pub resolve-IsJustified :
      (known : String → Bool) (k k' : Tracker) (now : ℕ) (token dest : String)
      → resolve x known k now token ≡ (redirect dest, k')
      → IsJustified known k k' now token dest
  unfolding resolve
  resolve-IsJustified known k k' now token dest e =
      resolve_by_parts known k k' now token dest (split_dot token) refl e

  -- What the codec and the HMAC do at one payload: it decodes to what was encoded, and its text and
  -- its signature are not empty and hold no dot.
  pub record IsFaithful (secret : String) (d : TokenData) : Type 0 where
    pub decodes : x.decode (x.encode d) ≡ some d
    pub payload_dotless : has_dot (x.encode d) ≡ false
    pub sig_dotless : has_dot (x.hmac_hex secret (x.encode d)) ≡ false
    pub payload_text : truthy (x.encode d) ≡ true
    pub sig_text : truthy (x.hmac_hex secret (x.encode d)) ≡ true

  -- A token that the secret signed is judged by its payload.
  resolve_signed :
      (known : String → Bool) (k : Tracker) (now : ℕ) (d : TokenData)
      → IsFaithful k.secret d
      → resolve x known k now (x.encode d & "." & x.hmac_hex k.secret (x.encode d))
        ≡ admit x known k now d
  unfolding resolve
  resolve_signed known k now d f =
      let p = x.encode d in
      let sig = x.hmac_hex k.secret p in
      let same : safe_equal sig sig ≡ true = (safe_equal_iff sig sig).1 refl in
      rw (
        split_dot-append p sig f.payload_dotless,
        split_dot-no_dot sig f.sig_dotless,
        resolve_parts,
        f.payload_text,
        f.sig_text,
        same,
        f.decodes,
      )

  -- A token minted for a safe destination redirects there once, while its window is known, has not
  -- redirected and the tracker's time has not passed, if the codec is faithful at its payload; a
  -- second resolve within that time is refused as a duplicate and changes nothing.
  pub resolve-mint :
      (known : String → Bool) (k : Tracker) (now later again : ℕ) (w ad dest token : String)
      → mint x k now w ad dest ≡ some token
      → IsFaithful k.secret (record { window_id = w; ad_id = ad; dest = dest; ts = now })
      → known w ≡ true
      → contains k.seen w ≡ false
      → later ≤ now + k.ttl_ms
      → again ≤ now + k.ttl_ms
      → (let k' : Tracker = record k { seen = w ∷ k.seen } in
          (resolve x known k later token ≡ (redirect dest, k'))
          × (resolve x known k' again token ≡ (refused duplicate, k')))
  unfolding mint
  resolve-mint known k now later again w ad dest token e f kn un l1 l2 =
      let d : TokenData = record { window_id = w; ad_id = ad; dest = dest; ts = now } in
      let k' : Tracker = record k { seen = w ∷ k.seen } in
      let safe : is_safe_http_url x dest ≡ true = ground arith in
      let made : token ≡ x.encode d & "." & x.hmac_hex k.secret (x.encode d) = ground arith in
      let good : IsGood known k later d = record {
        fresh = l1;
        is_known = kn;
        is_safe = safe;
        unseen = un;
      } in
      (
        rw (made, resolve_signed known k later d f, admit_of_IsGood known k later d good),
        rw (made, resolve_signed known k' again d f)
            (admit_duplicate known k' again d l2 kn safe (ground (arith, eq_iff w w))),
      )
