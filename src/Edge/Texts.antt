-- ===== src/Edge/Texts.antt =====
-- The checks on texts at the edge: supabase/functions/_shared/dispute-logic.mjs, http-errors.mjs
-- and webhook-secrets.mjs.
use Prim.Native.Char.{code}
use Prim.Native.String.{len}
use luma_line.Prelude.{
  ℕ, String, Bool, false, not, ◌&&◌, ◌||◌, Option, none, some, List, map, if◌then◌else◌, leb, ltb,
  ◌==◌, str_eq, truthy, trim, select,
}

-- A control character other than tab, line feed and carriage return.
unfoldable pub is_dispute_control : ℕ → Bool
is_dispute_control c = leb c 8 || c == 0xb || c == 0xc || (leb 0xe c && leb c 0x1f) || c == 0x7f

unfoldable pub has_dispute_control : String → Bool
unfolding is_dispute_control
has_dispute_control String.[] = false
has_dispute_control (String.◌∷◌ c s) = is_dispute_control (code c) || has_dispute_control s

pub data DescriptionError : Type 0 where
  description_empty description_too_long description_control_bytes : DescriptionError

-- The length is that in UTF-8.
unfoldable pub validate_dispute_description : String → Option DescriptionError
unfolding has_dispute_control
validate_dispute_description s =
    if not (truthy s)
    then some description_empty
    else if ltb 2048 (len s)
    then some description_too_long
    else if has_dispute_control s
    then some description_control_bytes
    else none

pub record ErrorBody (D : Type 0) : Type 0 where
  pub error : String
  pub detail : Option D

unfoldable pub error_detail_enabled : Option String → Bool
error_detail_enabled none = false
error_detail_enabled (some v) = str_eq v "1" || str_eq v "true"

unfoldable pub error_response_body : {D : Type 0} → String → Option D → Bool → ErrorBody D
error_response_body message detail include_detail = record {
  error = message;
  detail = if include_detail then detail else none;
}

-- The text comes split at its commas.
unfoldable pub parse_webhook_secrets : List String → List String
parse_webhook_secrets parts = select truthy (map trim parts)
