-- ===== src/Advertiser/Content.antt =====
-- The content rules of a creative, `validateCreativeContent` and `isAllowedDisclosureLabel` of
-- supabase/functions/_shared/advertiser-logic.mjs, and what they promise the status line.
use Prim.Native.Char.{code}
use luma_line.Prelude.{
  ℕ, ◌+◌, String, Bool, false, not, ◌||◌, Option, none, some, ltb, if◌then◌else◌, str_eq, truthy,
  starts_with, is_space,
}
use luma_line.Url.{is_control, has_control_chars}

-- `s.length`, in UTF-16 code units.
unfoldable pub units : String → ℕ
units String.[] = 0
units (String.◌∷◌ c s) = (if ltb (code c) 0x10000 then 1 else 2) + units s

-- `DEST_UNSAFE_RE`
unfoldable pub is_dest_unsafe : String → Bool
unfolding is_control
is_dest_unsafe String.[] = false
is_dest_unsafe (String.◌∷◌ c s) = (is_control (code c) || is_space (code c)) || is_dest_unsafe s

pub data ContentError : Type 0 where
  line_empty line_too_long line_control_bytes : ContentError
  label_empty label_too_long label_control_bytes : ContentError
  dest_not_https dest_control_bytes : ContentError

abbrev pub check_dest : Option String → Option ContentError
check_dest none = none
check_dest (some u) =
    if not (starts_with u "https://")
    then some dest_not_https
    else if is_dest_unsafe u
    then some dest_control_bytes
    else none

abbrev pub text_or_empty : Option String → String
text_or_empty none = ""
text_or_empty (some s) = s

-- `none` as an argument is null; as the answer it means valid.
unfoldable pub validate_creative_content :
    Option String → Option String → Option String → Option ContentError
unfolding is_dest_unsafe units
validate_creative_content line label dest_url =
    let l = text_or_empty line in
    let b = text_or_empty label in
    if not (truthy l)
    then some line_empty
    else if ltb 120 (units l)
    then some line_too_long
    else if has_control_chars l
    then some line_control_bytes
    else if not (truthy b)
    then some label_empty
    else if ltb 30 (units b)
    then some label_too_long
    else if has_control_chars b
    then some label_control_bytes
    else check_dest dest_url

unfoldable pub is_allowed_disclosure_label : Option String → Bool
is_allowed_disclosure_label label =
    let s = text_or_empty label in str_eq s "sponsored" || str_eq s "ad" || str_eq s "promoted"
