-- ===== src/Edge/ClientIp.antt =====
-- The trusted client address, supabase/functions/_shared/client-ip.mjs. A header that is absent or
-- no string is "". `proof_matches` is the comparison of the SHA-256 digests of two texts.
use luma_line.Prelude.{
  ◌≡◌, ◌↔◌, refl, String, Bool, true, false, not, ◌&&◌, ◌||◌, List, [], ◌∷◌, map, arith,
  if◌then◌else◌, truthy, trim, select,
}

pub record Headers : Type 0 where
  pub lumaline_client_ip : String
  pub cf_connecting_ip : String
  pub forwarded_for : List String
  pub real_ip : String
  pub edge_proof : String

pub data Source : Type 0 where
  edge_proof cf xff_left x_real_ip no_source : Source

pub record ClientIp : Type 0 where
  pub ip : String
  pub trusted : Bool
  pub source : Source

abbrev pub untrusted : String → Source → ClientIp
untrusted ip source = record { ip = ip; trusted = false; source = source }

-- The sources that anyone can forge.
abbrev unproved : String → List String → String → ClientIp
unproved direct hops real = if truthy direct then untrusted direct cf else elim hops [
  | ip ∷ rest ↦ untrusted ip xff_left
  | [] ↦ if truthy real then untrusted real x_real_ip else untrusted "" no_source
]

-- `x-forwarded-for` comes split at its commas.
unfoldable pub pick_client_ip : Headers → Bool → ClientIp
pick_client_ip h proof_ok =
    let vouched = trim h.lumaline_client_ip in
    if proof_ok && truthy vouched
    then record { ip = vouched; trusted = true; source = edge_proof }
    else unproved (trim h.cf_connecting_ip) (select truthy (map trim h.forwarded_for))
        (trim h.real_ip)

unproved_untrusted :
    (direct : String) (hops : List String) (real : String)
    → (unproved direct hops real).trusted ≡ false
unproved_untrusted (String.◌∷◌ c s) hops real = refl
unproved_untrusted String.[] (ip ∷ hops) real = refl
unproved_untrusted String.[] [] (String.◌∷◌ c s) = refl
unproved_untrusted String.[] [] String.[] = refl

module _ (proof_matches : String → String → Bool) where
  unfoldable pub edge_proof_ok : Headers → String → Bool
  edge_proof_ok h secret =
      if not (truthy secret) || not (truthy h.edge_proof)
      then false
      else proof_matches h.edge_proof secret

  unfoldable pub resolve_client_ip : Headers → String → ClientIp
  unfolding edge_proof_ok pick_client_ip
  resolve_client_ip h secret = pick_client_ip h (edge_proof_ok h secret)

  -- An address is trusted exactly when a secret is set, the request proves it, and its vouched
  -- address is not blank; then it is that address. A caller without the proof is never trusted,
  -- whatever headers it sends.
  pub resolve_client_ip_trusted :
      (h : Headers) (secret : String)
      → (((resolve_client_ip h secret).trusted ≡ true) ↔ (
          (truthy secret ≡ true)
          × (truthy h.edge_proof ≡ true)
          × (proof_matches h.edge_proof secret ≡ true)
          × (truthy (trim h.lumaline_client_ip) ≡ true)))
        × ((resolve_client_ip h secret).trusted ≡ true
            → (resolve_client_ip h secret).ip ≡ trim h.lumaline_client_ip)
  unfolding resolve_client_ip edge_proof_ok pick_client_ip
  resolve_client_ip_trusted h secret =
      let u =
        unproved_untrusted (trim h.cf_connecting_ip) (select truthy (map trim h.forwarded_for))
          (trim h.real_ip) in
      (ground (arith, u), ground (arith, u))
