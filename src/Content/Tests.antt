-- ===== src/Content/Tests.antt =====
-- Runs of the checks of types, and the theorems on concrete uploads.
use bytevault.Prelude.{true, false, not, ◌&&◌, ◌||◌, ◌≡◌, refl, ◌↔◌}
use bytevault.Prelude.Text.{
  Text, bytes, same, member, lower, trim_space, trim_left, trim_right, has_prefix, before_byte, ext,
  last_dot, has_byte,
}
use bytevault.Content.{
  blocked_exts, octet_stream, media_type, lower_ext, is_heic_type, is_heic_ext, is_text_or_code,
  is_supported, detect_heic_magic_bytes, validate_magic_bytes,
}
use bytevault.Content.Spoofing.{blocked-validate, text-validate}

abbrev jpeg : Text
jpeg = bytes "image/jpeg; q=1"

supported : is_supported (bytes "a.b/Photo.PNG") jpeg ≡ true
unfolding is_supported member same lower before_byte trim_space trim_left trim_right
supported = refl

heic : detect_heic_magic_bytes (bytes "0000ftypheic....") ≡ true
unfolding detect_heic_magic_bytes member same
heic = refl

-- An executable under the type of a picture.
disguised : validate_magic_bytes octet_stream (bytes "image/heic") (bytes "Setup.EXE") ≡ true
unfolding validate_magic_bytes same lower before_byte ext last_dot has_byte
disguised = refl

refused : validate_magic_bytes octet_stream octet_stream (bytes "Setup.EXE") ≡ false
unfolding validate_magic_bytes same lower before_byte ext last_dot has_byte member
refused = refl

blocked-validate_example :
    (validate_magic_bytes octet_stream (bytes "image/heic") (bytes "Setup.EXE") ≡ true) ↔ (
      (is_heic_type (media_type (bytes "image/heic"))
        && (same (media_type octet_stream) octet_stream || is_heic_type (media_type octet_stream)))
      ≡ true)
unfolding same lower before_byte ext last_dot has_byte member
blocked-validate_example =
    blocked-validate octet_stream (bytes "image/heic") (bytes "Setup.EXE") refl

abbrev script : Text
script = bytes "app.apk"

text-validate_example :
    validate_magic_bytes (bytes "text/plain; charset=utf-8") (bytes "application/json") script ≡ (
      not (member (lower_ext script) blocked_exts)
      && (same
            (media_type (bytes "text/plain; charset=utf-8"))
            (media_type (bytes "application/json"))
          || is_heic_ext (lower_ext script) && is_heic_type (media_type (bytes "application/json"))
          || is_text_or_code (media_type (bytes "application/json"))
          || same (media_type (bytes "application/json")) octet_stream))
unfolding has_prefix lower before_byte
text-validate_example =
    text-validate (bytes "text/plain; charset=utf-8") (bytes "application/json") script refl
