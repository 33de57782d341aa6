-- ===== src/Uploads/FileType.antt =====
-- sniffFileType of src/common/utils/file-type.util.ts. A buffer is the list of its bytes.
use fetchit_be.Base.{
  ℕ, zero, suc, ◌%◌, Bool, Option, none, some, List, [], ◌∷◌, ◌&&◌, leb, length, map, if◌then◌else◌,
}
use fetchit_be.Texts.{Text, codes, text_eq, starts_with}

pub data FileType : Type 0 where
  pdf jpg png webp : FileType

unfoldable pub mime_type : FileType → Text
mime_type pdf = codes "application/pdf"
mime_type jpg = codes "image/jpeg"
mime_type png = codes "image/png"
mime_type webp = codes "image/webp"

abbrev pub extension : FileType → Text
extension pdf = codes "pdf"
extension jpg = codes "jpg"
extension png = codes "png"
extension webp = codes "webp"

abbrev pub take : ℕ → List ℕ → List ℕ
take zero s = []
take (suc n) [] = []
take (suc n) (c ∷ s) = c ∷ take n s

abbrev pub drop : ℕ → List ℕ → List ℕ
drop zero s = s
drop (suc n) [] = []
drop (suc n) (c ∷ s) = drop n s

-- `buffer.toString('ascii', from, to)`, which clears the highest bit of each byte.
abbrev pub ascii : ℕ → ℕ → List ℕ → Text
ascii from size buffer = map (λ b. b % 128) (take size (drop from buffer))

-- The matchers of SIGNATURES.
unfoldable pub matches : FileType → List ℕ → Bool
matches pdf buffer = starts_with buffer (0x25 ∷ 0x50 ∷ 0x44 ∷ 0x46 ∷ 0x2d ∷ [])
matches jpg buffer = starts_with buffer (0xff ∷ 0xd8 ∷ 0xff ∷ [])
matches png buffer = starts_with buffer (0x89 ∷ 0x50 ∷ 0x4e ∷ 0x47 ∷ 0x0d ∷ 0x0a ∷ 0x1a ∷ 0x0a ∷ [])
matches webp buffer =
    leb 12 (length buffer)
    && text_eq (ascii 0 4 buffer) (codes "RIFF")
    && text_eq (ascii 8 4 buffer) (codes "WEBP")

unfoldable pub sniff_file_type : List ℕ → Option FileType
sniff_file_type buffer =
    if matches pdf buffer
    then some pdf
    else if matches jpg buffer
    then some jpg
    else if matches png buffer
    then some png
    else if matches webp buffer
    then some webp
    else none
