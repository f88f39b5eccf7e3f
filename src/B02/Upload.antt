-- ===== src/B02/Upload.antt =====
-- `_valid_image_signature` and the reading loop of `upload_attachment` (app/b02/main.py). A chunk
-- is its bytes; the loop returns the bytes written to the file, or the error that deletes it.
pub mod Content
use Prim.Native.Nat.{ℕ, ◌+◌}
use black_soil_loop_server.Prelude.{
  Bool, true, false, not, ◌&&◌, List, [], ◌∷◌, ◌++◌, ◌==◌, ltb, leb, if◌then◌else◌, length,
}
use black_soil_loop_server.Errors.{BusinessError, ErrorCode, Details}

pub data ImageType : Type 0 where
  jpeg png webp : ImageType

abbrev pub Bytes : Type 0
Bytes = List ℕ

-- `content.startswith(prefix)`
unfoldable pub starts_with : Bytes → Bytes → Bool
starts_with [] content = true
starts_with (b ∷ prefix) [] = false
starts_with (b ∷ prefix) (c ∷ content) = b == c && starts_with prefix content

-- `content[8:]` of a content of eight bytes or more.
abbrev pub behind_eight : Bytes → Bytes
behind_eight (a ∷ b ∷ c ∷ d ∷ e ∷ f ∷ g ∷ h ∷ rest) = rest
behind_eight _ = []

unfoldable pub valid_image_signature : ImageType → Bytes → Bool
valid_image_signature ImageType.jpeg content = starts_with (0xff ∷ 0xd8 ∷ 0xff ∷ []) content
valid_image_signature ImageType.png content =
    starts_with (0x89 ∷ b'P' ∷ b'N' ∷ b'G' ∷ 0x0d ∷ 0x0a ∷ 0x1a ∷ 0x0a ∷ []) content
valid_image_signature ImageType.webp content =
    leb 12 (length content)
    && (starts_with (b'R' ∷ b'I' ∷ b'F' ∷ b'F' ∷ []) content
        && starts_with (b'W' ∷ b'E' ∷ b'B' ∷ b'P' ∷ []) (behind_eight content))

-- The outcome of the loop.
pub data Stored : Type 0 where
  stored : Bytes → Stored
  refused : BusinessError → Stored

abbrev refusal : ErrorCode → ℕ → Stored
refusal code status =
    refused (record { code = code; status_code = status; details = Details.nothing })

-- The rounds after the first chunk: the total is held to the limit before a chunk is written.
unfoldable pub read_more : ℕ → Bytes → List Bytes → Stored
read_more limit written [] = stored written
read_more limit written (chunk ∷ chunks) =
    let rest = read_more limit (written ++ chunk) chunks in
    if ltb limit (length written + length chunk)
    then refusal ErrorCode.upload_too_large 413
    else rest

-- The first chunk must begin as the declared type does; no chunk at all is an empty file.
unfoldable pub read_upload : ImageType → ℕ → List Bytes → Stored
read_upload content_type limit [] = refusal ErrorCode.upload_empty 400
read_upload content_type limit (chunk ∷ chunks) =
    if not (valid_image_signature content_type chunk)
    then refusal ErrorCode.upload_content_invalid 415
    else read_more limit [] (chunk ∷ chunks)
