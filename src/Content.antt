-- ===== src/Content.antt =====
-- The types of files that are accepted: the tables and the checks of internal/service/file_service.go.
-- A declared type and a name come from the client, the detected type from the first bytes.
pub mod Spoofing
mod Tests
use Prim.Native.String.{String}
use bytevault.Prelude.{
  ℕ, Bool, true, false, not, ◌&&◌, ◌||◌, List, [], ◌∷◌, map, ltb, if◌then◌else◌, length, take, drop,
}
use bytevault.Prelude.Text.{
  Text, bytes, same, member, lower, has_prefix, contains, before_byte, trim_space, ext,
}

abbrev texts : List String → List Text
texts ts = map bytes ts

-- `AllowedMimeTypes`
abbrev pub allowed_mime_types : List Text
allowed_mime_types = texts (
    "image/jpeg" ∷ "image/png" ∷ "image/gif" ∷ "image/webp" ∷ "image/svg+xml" ∷ "image/heic"
    ∷ "image/heif" ∷ "image/heic-sequence" ∷ "image/heif-sequence" ∷ "image/avif" ∷ "image/bmp"
    ∷ "image/tiff" ∷ "image/x-icon" ∷ "application/pdf" ∷ "application/msword"
    ∷ "application/vnd.openxmlformats-officedocument.wordprocessingml.document"
    ∷ "application/vnd.ms-excel"
    ∷ "application/vnd.openxmlformats-officedocument.spreadsheetml.sheet"
    ∷ "application/vnd.ms-powerpoint"
    ∷ "application/vnd.openxmlformats-officedocument.presentationml.presentation"
    ∷ "application/rtf" ∷ "application/epub+zip" ∷ "application/x-iwork-pages-sffpages"
    ∷ "application/x-iwork-numbers-sffnumbers" ∷ "application/x-iwork-keynote-sffkey"
    ∷ "application/vnd.apple.pages" ∷ "application/vnd.apple.numbers"
    ∷ "application/vnd.apple.keynote" ∷ "application/x-apple-diskimage" ∷ "application/x-plist"
    ∷ "application/json" ∷ "application/ld+json" ∷ "application/x-ndjson" ∷ "application/javascript"
    ∷ "text/javascript" ∷ "application/x-javascript" ∷ "application/typescript" ∷ "text/typescript"
    ∷ "text/plain" ∷ "text/csv" ∷ "text/markdown" ∷ "text/html" ∷ "text/css" ∷ "text/xml"
    ∷ "application/xml" ∷ "application/xhtml+xml" ∷ "text/yaml" ∷ "text/x-yaml" ∷ "application/yaml"
    ∷ "application/x-yaml" ∷ "text/x-python" ∷ "application/x-python-code" ∷ "text/x-go"
    ∷ "text/x-c" ∷ "text/x-c++" ∷ "text/x-java-source" ∷ "text/x-rust" ∷ "text/x-ruby"
    ∷ "text/x-php" ∷ "text/x-shellscript" ∷ "text/x-sh" ∷ "text/x-sql" ∷ "application/sql"
    ∷ "application/x-sql" ∷ "application/wasm" ∷ "application/graphql" ∷ "application/x-protobuf"
    ∷ "application/toml" ∷ "text/x-toml" ∷ "audio/mpeg" ∷ "audio/wav" ∷ "audio/ogg" ∷ "audio/x-m4a"
    ∷ "audio/mp4" ∷ "audio/aac" ∷ "audio/flac" ∷ "audio/aiff" ∷ "audio/x-aiff" ∷ "audio/webm"
    ∷ "video/mp4" ∷ "video/mpeg" ∷ "video/quicktime" ∷ "video/webm" ∷ "video/x-m4v"
    ∷ "video/x-matroska" ∷ "application/zip" ∷ "application/x-tar" ∷ "application/x-rar-compressed"
    ∷ "application/x-7z-compressed" ∷ "application/gzip" ∷ "application/x-gzip"
    ∷ "application/x-bzip2" ∷ "application/x-xz" ∷ "application/vnd.apache.parquet"
    ∷ "application/x-parquet" ∷ "application/vnd.android.package-archive" ∷ "application/x-apk"
    ∷ "application/apk" ∷ "application/x-authorware-bin" ∷ "application/x-itunes-ipa"
    ∷ "application/x-aar" ∷ "application/java-archive" ∷ "application/x-java-archive"
    ∷ "application/x-dex" ∷ "application/x-apple-aspen-config"
    ∷ "application/x-newton-compatible-pkg" ∷ "application/x-pkg"
    ∷ "application/vnd.debian.binary-package" ∷ "application/x-deb" ∷ "application/x-debian-package"
    ∷ "application/x-rpm" ∷ "application/x-redhat-package-manager" ∷ "application/x-appimage"
    ∷ "application/vnd.snap" ∷ "application/x-xapk" ∷ "application/x-zip-compressed"
    ∷ "application/octet-stream" ∷ [])

-- Extensions that `validateFile` accepts whatever the declared type.
abbrev pub app_dev_packages : List Text
app_dev_packages = texts (
    ".apk" ∷ ".aab" ∷ ".xapk" ∷ ".apks" ∷ ".apkm" ∷ ".ipa" ∷ ".mobileprovision" ∷ ".plist" ∷ ".aar"
    ∷ ".jar" ∷ ".dex" ∷ ".deb" ∷ ".rpm" ∷ ".appimage" ∷ ".pkg" ∷ ".dmg" ∷ ".onnx" ∷ ".tflite"
    ∷ ".safetensors" ∷ ".pt" ∷ ".pth" ∷ ".bin" ∷ ".iso" ∷ ".img" ∷ ".tar" ∷ ".gz" ∷ ".tgz" ∷ ".bz2"
    ∷ ".xz" ∷ ".7z" ∷ ".rar" ∷ ".zip" ∷ [])

abbrev pub blocked_exts : List Text
blocked_exts =
    texts (".exe" ∷ ".bat" ∷ ".cmd" ∷ ".com" ∷ ".msi" ∷ ".scr" ∷ ".pif" ∷ ".vbs" ∷ ".wsf" ∷ [])

abbrev pub app_exts : List Text
app_exts =
    texts (".apk" ∷ ".aab" ∷ ".xapk" ∷ ".apks" ∷ ".apkm" ∷ ".ipa" ∷ ".aar" ∷ ".jar" ∷ ".dex" ∷ [])

abbrev pub zip_exts : List Text
zip_exts = texts (
    ".docx" ∷ ".xlsx" ∷ ".pptx" ∷ ".doc" ∷ ".xls" ∷ ".ppt" ∷ ".pages" ∷ ".numbers" ∷ ".key"
    ∷ ".keynote" ∷ ".epub" ∷ ".jar" ∷ ".apk" ∷ ".aab" ∷ ".xapk" ∷ ".apks" ∷ ".apkm" ∷ ".ipa"
    ∷ ".aar" ∷ ".zip" ∷ [])

abbrev pub octet_stream : Text
octet_stream = bytes "application/octet-stream"

abbrev pub zip : Text
zip = bytes "application/zip"

-- The declared type without its parameters, and the extension, in lower case.
abbrev pub media_type : Text → Text
media_type declared = lower (before_byte b';' declared)

abbrev pub lower_ext : Text → Text
lower_ext name = lower (ext name)

-- "MIME Type Validation" of `validateFile`.
unfoldable pub is_supported : Text → Text → Bool
is_supported name content_type =
    let clean = lower (trim_space (before_byte b';' content_type)) in
    member clean allowed_mime_types
    || same clean octet_stream
    || member (lower_ext name) app_dev_packages

abbrev pub heic_brands : List Text
heic_brands = texts ("heic" ∷ "heix" ∷ "hevc" ∷ "hevx" ∷ "mif1" ∷ "msf1" ∷ [])

-- `DetectHEICMagicBytes`
unfoldable pub detect_heic_magic_bytes : Text → Bool
detect_heic_magic_bytes header =
    if ltb (length header) 12
    then false
    else (same (take 4 (drop 4 header)) (bytes "ftyp")
        && member (take 4 (drop 8 header)) heic_brands)

abbrev pub is_heic_type : Text → Bool
is_heic_type t = same t (bytes "image/heic") || same t (bytes "image/heif")

abbrev pub is_heic_ext : Text → Bool
is_heic_ext e = same e (bytes ".heic") || same e (bytes ".heif")

-- A declared type that names a container of zip files.
abbrev pub says_zip : Text → Bool
says_zip declared =
    contains declared (bytes "zip")
    || contains declared (bytes "officedocument")
    || contains declared (bytes "iwork")
    || contains declared (bytes "apple")
    || contains declared (bytes "android")
    || contains declared (bytes "package")

abbrev pub is_text_detected : Text → Bool
is_text_detected detected =
    has_prefix detected (bytes "text/")
    || same detected (bytes "text/plain")
    || same detected octet_stream

abbrev pub is_text_or_code : Text → Bool
is_text_or_code declared =
    has_prefix declared (bytes "text/")
    || contains declared (bytes "json")
    || contains declared (bytes "javascript")
    || contains declared (bytes "typescript")
    || contains declared (bytes "yaml")
    || contains declared (bytes "xml")
    || contains declared (bytes "sql")
    || contains declared (bytes "graphql")
    || contains declared (bytes "wasm")
    || contains declared (bytes "toml")
    || contains declared (bytes "protobuf")

abbrev pub is_media : Text → Bool
is_media t = has_prefix t (bytes "audio/") || has_prefix t (bytes "video/")

abbrev pub is_archive : Text → Bool
is_archive detected =
    same detected zip
    || same detected octet_stream
    || same detected (bytes "application/x-zip-compressed")

-- The last tests of `areTypesCompatible`.
unfoldable pub are_generic_compatible : Text → Text → Text → Bool
are_generic_compatible detected declared e =
    if same detected octet_stream || same declared octet_stream
    then not (member e blocked_exts)
    else is_media detected && is_media declared

-- `areTypesCompatible`
unfoldable pub are_types_compatible : Text → Text → Text → Bool
unfolding are_generic_compatible
are_types_compatible detected declared e =
    same detected declared
    || is_heic_ext e && (is_heic_type declared || is_heic_type detected)
    || member e app_exts && is_archive detected
    || same detected zip && (member e zip_exts || says_zip declared)
    || is_text_detected detected && is_text_or_code declared
    || are_generic_compatible detected declared e

abbrev pub is_heic_upload : Text → Text → Text → Bool
is_heic_upload detected declared e =
    (is_heic_ext e || is_heic_type declared)
    && (same detected octet_stream || is_heic_type detected)

-- `ValidateMagicBytes`: whether the upload is accepted.
unfoldable pub validate_magic_bytes : Text → Text → Text → Bool
unfolding are_types_compatible
validate_magic_bytes detected_type declared_type name =
    let detected = media_type detected_type in
    let declared = media_type declared_type in
    let e = lower_ext name in
    if is_heic_upload detected declared e
    then true
    else not (member e blocked_exts) && are_types_compatible detected declared e
