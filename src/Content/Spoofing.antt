-- ===== src/Content/Spoofing.antt =====
-- What a declared type and a name may hide: blocked extensions, and texts under other types.
use bytevault.Prelude.{
  Bool, true, false, not, ◌&&◌, ◌||◌, [], ◌∷◌, ◌≡◌, refl, sym, ◌∙◌, subst, arith, ◌↔◌, inl, inr,
  if◌then◌else◌, Bool-cases,
}
use bytevault.Prelude.Text.{Text, bytes, same, same_iff, member, has_prefix}
use bytevault.Content.{
  blocked_exts, octet_stream, zip, media_type, lower_ext, is_heic_type, is_heic_ext,
  is_text_or_code, is_media, validate_magic_bytes,
}

-- A test that fails on one text fails on what is the same.
same-false : (p : Text → Bool) (s t : Text) → p t ≡ false → p s ≡ true → same s t ≡ false
same-false p s t no_ yes_ = elim (Bool-cases (same s t)) [
  | inl e ↦
      let z : true ≡ false = sym yes_ ∙ subst (λ x. p x ≡ false) (sym ((same_iff s t).0 e)) no_ in
      absurd cc
  | inr e ↦ e
]

blocked-not_heic : (e : Text) → member e blocked_exts ≡ true → is_heic_ext e ≡ false
unfolding member same
blocked-not_heic e h =
    rw
      (
        same-false (λ x. member x blocked_exts) e (bytes ".heic") refl h,
        same-false (λ x. member x blocked_exts) e (bytes ".heif") refl h,
      )
      refl

if-true_iff : (b : Bool) → ((if b then true else false) ≡ true) ↔ (b ≡ true)
if-true_iff b = ground arith

-- A file with a blocked extension is accepted just when it is declared as HEIC or HEIF and its bytes
-- are detected as that or are not recognised.
pub blocked-validate :
    (detected declared name : Text)
    → member (lower_ext name) blocked_exts ≡ true
    → (validate_magic_bytes detected declared name ≡ true) ↔ (
        (is_heic_type (media_type declared)
          && (same (media_type detected) octet_stream || is_heic_type (media_type detected)))
        ≡ true)
unfolding validate_magic_bytes
blocked-validate detected declared name h = rw (blocked-not_heic _ h, h) (if-true_iff _)

text-not_media : (s : Text) → has_prefix s (bytes "text/") ≡ true → is_media s ≡ false
unfolding has_prefix
text-not_media [] h = refl
text-not_media (c ∷ s) h = ground arith

-- The tests that are left when the bytes are a text.
remaining :
    (heic_ext heic blocked equal app code generic : Bool)
    → (if (heic_ext || heic) && false
        then true
        else not blocked
          && (equal
              || heic_ext && (heic || false)
              || app && false
              || false
              || code
              || (if generic then not blocked else false)))
      ≡ (not blocked && (equal || heic_ext && heic || code || generic))
remaining heic_ext heic blocked equal app code generic = ground arith

text-not :
    (s t : Text)
    → has_prefix t (bytes "text/") ≡ false
    → has_prefix s (bytes "text/") ≡ true
    → same s t ≡ false
text-not s t = same-false (λ x. has_prefix x (bytes "text/")) s t

-- Bytes that are detected as a text are accepted just when the extension is not blocked and the declared
-- type is the detected one, is that of a text or of code or is the generic one, or the file is
-- declared as HEIC or HEIF by type and extension both.
pub text-validate :
    (detected declared name : Text)
    → has_prefix (media_type detected) (bytes "text/") ≡ true
    → validate_magic_bytes detected declared name ≡ (
        not (member (lower_ext name) blocked_exts)
        && (same (media_type detected) (media_type declared)
            || is_heic_ext (lower_ext name) && is_heic_type (media_type declared)
            || is_text_or_code (media_type declared)
            || same (media_type declared) octet_stream))
unfolding validate_magic_bytes has_prefix
text-validate detected declared name h =
    rw
      (
        text-not (media_type detected) octet_stream refl h,
        text-not (media_type detected) zip refl h,
        text-not (media_type detected) (bytes "application/x-zip-compressed") refl h,
        text-not (media_type detected) (bytes "image/heic") refl h,
        text-not (media_type detected) (bytes "image/heif") refl h,
        text-not_media (media_type detected) h,
        h,
      )
      (search remaining)
