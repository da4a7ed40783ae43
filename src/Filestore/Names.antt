-- ===== src/Filestore/Names.antt =====
-- internal/filestore/store.go: display names, media types and storage keys.
use project_progress_registe.Base.{
  ℕ, Bool, ◌&&◌, ◌||◌, Option, none, some, List, [], ◌∷◌, ltb, leb, ◌==◌, if◌then◌else◌, length,
  take,
}
use project_progress_registe.Text.{
  Text, codes, text_eq, is_blank, byte_len, trim_space, to_lower, every, contains_rune, bad_byte,
}
use project_progress_registe.Schema.{MediaKind, image, video, document}
use project_progress_registe.Db.{Result, ok, err, validation, type_not_allowed}

-- `storageKeyPattern`
abbrev pub is_key_rune : ℕ → Bool
is_key_rune c = (leb b'0' c && leb c b'9') || (leb b'a' c && leb c b'f')

unfoldable pub is_storage_key : Text → Bool
unfolding every
is_storage_key s = length s == 64 && every is_key_rune s

-- `filepath.Base`: trailing slashes are dropped, then all up to the last slash.
unfoldable pub drop_slashes : Text → Text
drop_slashes [] = []
drop_slashes (c ∷ s) =
    let rest = drop_slashes s in if c == b'/' && is_blank rest then [] else c ∷ rest

unfoldable pub last_element : Text → Text
unfolding contains_rune
last_element [] = []
last_element (c ∷ s) =
    let rest = last_element s in if contains_rune b'/' (c ∷ s) then rest else c ∷ s

unfoldable pub base_name : Text → Text
unfolding drop_slashes last_element
base_name [] = codes "."
base_name (c ∷ s) =
    let kept = drop_slashes (c ∷ s) in if is_blank kept then codes "/" else last_element kept

-- `unicode.IsControl`
abbrev pub is_control : ℕ → Bool
is_control c = ltb c 0x20 || (leb 0x7f c && ltb c 0xa0)

-- `strings.Map` writes a byte that is not part of valid UTF-8 as the replacement character.
abbrev pub decoded_rune : ℕ → ℕ
decoded_rune c = if ltb c bad_byte then c else 0xfffd

unfoldable pub drop_controls : Text → Text
drop_controls [] = []
drop_controls (c ∷ s) =
    let rest = drop_controls s in if is_control c then rest else decoded_rune c ∷ rest

unfoldable pub safe_display_name : Text → Result Text
unfolding base_name drop_controls trim_space byte_len
safe_display_name value =
    let name = drop_controls (base_name (trim_space value)) in
    if is_blank name || text_eq name (codes ".") || ltb 255 (byte_len name)
    then err (validation "filename")
    else ok name

-- `filepath.Ext`: from the last dot after the last slash; the display name has none.
unfoldable pub extension : Text → Text
unfolding contains_rune
extension [] = []
extension (c ∷ s) =
    let rest = extension s in
    if contains_rune b'.' s then rest else if c == b'.' then c ∷ s else rest

-- The text before the first semicolon.
unfoldable pub before_semicolon : Text → Text
before_semicolon [] = []
before_semicolon (c ∷ s) = let rest = before_semicolon s in if c == b';' then [] else c ∷ rest

abbrev pub lookup : {A : Type 0} → Text → List (Text × A) → Option A
lookup key [] = none
lookup key (entry ∷ entries) = if text_eq key entry.0 then some entry.1 else lookup key entries

abbrev pub allowed_types : List (Text × MediaKind)
allowed_types =
    (codes "image/jpeg", image)
    ∷ (codes "image/png", image)
    ∷ (codes "image/gif", image)
    ∷ (codes "image/webp", image)
    ∷ (codes "application/pdf", document)
    ∷ (codes "video/mp4", video)
    ∷ (codes "video/webm", video)
    ∷ (codes "video/quicktime", video)
    ∷ (codes "video/x-msvideo", video)
    ∷ []

abbrev pub zip_documents : List (Text × Text)
zip_documents =
    (codes ".docx", codes "application/vnd.openxmlformats-officedocument.wordprocessingml.document")
    ∷ (codes ".xlsx", codes "application/vnd.openxmlformats-officedocument.spreadsheetml.sheet")
    ∷ (
      codes ".pptx",
      codes "application/vnd.openxmlformats-officedocument.presentationml.presentation",
    )
    ∷ (codes ".odt", codes "application/vnd.oasis.opendocument.text")
    ∷ (codes ".ods", codes "application/vnd.oasis.opendocument.spreadsheet")
    ∷ (codes ".odp", codes "application/vnd.oasis.opendocument.presentation")
    ∷ []

abbrev pub legacy_documents : List (Text × Text)
legacy_documents =
    (codes ".doc", codes "application/msword")
    ∷ (codes ".xls", codes "application/vnd.ms-excel")
    ∷ (codes ".ppt", codes "application/vnd.ms-powerpoint")
    ∷ []

abbrev pub text_documents : List (Text × Text)
text_documents =
    (codes ".txt", codes "text/plain")
    ∷ (codes ".md", codes "text/plain")
    ∷ (codes ".csv", codes "text/csv")
    ∷ []

abbrev pub compound_header : List ℕ
compound_header = 0xd0 ∷ 0xcf ∷ 0x11 ∷ 0xe0 ∷ 0xa1 ∷ 0xb1 ∷ 0x1a ∷ 0xe1 ∷ []

abbrev pub document_type : Option Text → Result (Text × MediaKind)
document_type none = err type_not_allowed
document_type (some mime) = ok (mime, document)

-- The checks after the table of types that need no extension: two kinds of containers.
unfoldable pub classify_container : Text → Text → List ℕ → Result (Text × MediaKind)
classify_container detected ext header =
    let zip =
      if text_eq detected (codes "application/zip") then lookup ext zip_documents else none in
    let legacy =
      if text_eq (take 8 header) compound_header then lookup ext legacy_documents else none in
    elim zip [ some mime ↦ ok (mime, document) | none ↦ document_type legacy ]

unfoldable pub classify_detected : Text → Text → List ℕ → Result (Text × MediaKind)
unfolding classify_container
classify_detected detected ext header =
    if text_eq detected (codes "text/plain")
    then document_type (lookup ext text_documents)
    else elim (lookup detected allowed_types) [
      | some kind ↦ ok (detected, kind)
      | none ↦ classify_container detected ext header
    ]

-- `lower` is the case table beyond ASCII, and `detect` is `http.DetectContentType`.
unfoldable pub classify : (ℕ → ℕ) → (List ℕ → Text) → Text → List ℕ → Result (Text × MediaKind)
unfolding classify_detected before_semicolon extension to_lower trim_space
classify lower detect name header =
    classify_detected (to_lower lower (trim_space (before_semicolon (detect header))))
      (to_lower lower (extension name)) header
