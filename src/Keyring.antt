-- ===== src/Keyring.antt =====
-- The ring of trusted keys, src/lib/keyring.mjs. Reading the files is outside: the bundled keys come
-- as the texts that could be read, in the order of their names, and the legacy key as the text that
-- was found, if any. `fingerprint` is `keyFingerprint`, `none` where it throws; `verify_data` is
-- `verifyData`; `lower` is `toLowerCase`.
use luma_line.Prelude.{
  ◌≡◌, inl, inr, refl, ap, sym, subst, ◌∙◌, String, Bool, true, false, Option, none, some, List, [],
  ◌∷◌, arith, if◌then◌else◌, str_eq, eq_iff, truthy, trim, Bool-cases, Option-cases, All,
}
use luma_line.Prelude.JsMap.{JsMap, get, set, has, get-set}

pub record Ring : Type 0 where
  pub keys : JsMap String
  pub legacy_id : Option String

module _ (fingerprint : String → Option String) (lower : String → String)
    (verify_data : String → String → String → Bool) where
  abbrev add_known : JsMap String → String → Option String → JsMap String
  add_known ring pem none = ring
  add_known ring pem (some id) = if has ring id then ring else set ring id pem

  -- The first key of a fingerprint wins.
  unfoldable pub add_key : JsMap String → String → JsMap String
  add_key ring pem = add_known ring pem (fingerprint pem)

  unfoldable pub add_keys : JsMap String → List String → JsMap String
  unfolding add_key
  add_keys ring [] = ring
  add_keys ring (pem ∷ pems) = add_keys (add_key ring pem) pems

  unfoldable pub load_keyring : List String → Option String → Ring
  unfolding add_keys
  load_keyring bundled none = record { keys = add_keys [] bundled; legacy_id = none }
  load_keyring bundled (some pem) = record {
    keys = add_key (add_keys [] bundled) pem;
    legacy_id = fingerprint pem;
  }

  -- An absent or empty id is none.
  unfoldable pub norm_id : Option String → Option String
  norm_id none = none
  norm_id (some id) = if truthy id then some (lower (trim id)) else none

  abbrev key_at : JsMap String → Option String → Option String
  key_at ring none = none
  key_at ring (some id) = get ring id

  -- The key that an envelope is verified with.
  abbrev selected : Ring → Option String → Option String
  selected ring none = key_at ring.keys ring.legacy_id
  selected ring (some id) = get ring.keys id

  abbrev verify_with : String → String → Option String → Bool
  verify_with ad_data sig none = false
  verify_with ad_data sig (some pem) = verify_data ad_data sig pem

  -- The data and the signature are texts.
  unfoldable pub verify : Ring → String → String → Option String → Bool
  unfolding norm_id
  verify ring ad_data sig keyid = verify_with ad_data sig (selected ring (norm_id keyid))

  module _ (Known : String → Type 0) where
    -- Each key of the ring stands under its own fingerprint and is one that was given.
    abbrev pub IsTrue : JsMap String → Type 0
    IsTrue ring =
        (id pem : String) → get ring id ≡ some pem → (fingerprint pem ≡ some id) × Known pem

    add_key-IsTrue :
        (ring : JsMap String) (pem : String) → Known pem → IsTrue ring → IsTrue (add_key ring pem)
    unfolding add_key
    add_key-IsTrue ring pem k t id p g = elim (Option-cases (fingerprint pem)) [
      | inl e ↦ t id p (rw (e) at g)
      | inr (i, e) ↦ elim (Bool-cases (has ring i)) [
        | inl h ↦ t id p (rw (e, h) at g)
        | inr h ↦
            let new : (if str_eq i id then some pem else get ring id) ≡ some p =
              sym (get-set ring i id pem) ∙ rw (e, h) at g in
            elim (Bool-cases (str_eq i id)) [
              | inl s ↦
                  let same : i ≡ id = (eq_iff i id).0 s in
                  let pe : some pem ≡ some p = rw s at new in
                  let pq : pem ≡ p = ground arith in
                  (subst (λ x. fingerprint x ≡ some id) pq (e ∙ ap some same), subst Known pq k)
              | inr s ↦ t id p (rw s at new)
            ]
      ]
    ]

    add_keys-IsTrue :
        (ring : JsMap String) (pems : List String)
        → All Known pems
        → IsTrue ring
        → IsTrue (add_keys ring pems)
    unfolding add_keys
    add_keys-IsTrue ring [] k t = t
    add_keys-IsTrue ring (pem ∷ pems) k t =
        add_keys-IsTrue (add_key ring pem) pems k.1 (add_key-IsTrue ring pem k.0 t)

    empty-IsTrue : IsTrue []
    unfolding get
    empty-IsTrue id pem g = ground arith

    verified :
        (a s : String) (o : Option String)
        → verify_with a s o ≡ true
        → (pem : String) × (o ≡ some pem) × (verify_data a s pem ≡ true)
    verified a s none h = ground arith
    verified a s (some pem) h = (pem, refl, h)

    -- An envelope that names a key verifies only under a key that was shipped and whose fingerprint
    -- is that name, trimmed and in lower case: an unknown name is refused, and so is any other key,
    -- whatever it signed.
    pub verify_named_key :
        (bundled : List String) (legacy ad_data sig keyid : String)
        → All Known bundled
        → Known legacy
        → truthy keyid ≡ true
        → verify (load_keyring bundled (some legacy)) ad_data sig (some keyid) ≡ true
        → (pem : String) × Known pem
          × (fingerprint pem ≡ some (lower (trim keyid)))
          × (verify_data ad_data sig pem ≡ true)
    unfolding verify norm_id load_keyring
    verify_named_key bundled legacy ad_data sig keyid kb kl n h =
        let ring = add_key (add_keys [] bundled) legacy in
        let t =
          add_key-IsTrue (add_keys [] bundled) legacy kl
            (add_keys-IsTrue [] bundled kb empty-IsTrue) in
        let v : verify_with ad_data sig (get ring (lower (trim keyid))) ≡ true = rw n at h in
        let (pem, g, d) = verified ad_data sig (get ring (lower (trim keyid))) v in
        let (f, k) = t (lower (trim keyid)) pem g in (pem, k, f, d)
