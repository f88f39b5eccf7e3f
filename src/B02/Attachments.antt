-- ===== src/B02/Attachments.antt =====
-- `upload_attachment` and `download_attachment` of app/b02/main.py. The upload directory is a list of names
-- with their bytes; a name comes from a UUID with a suffix, so that it lies in the directory and is new.
pub mod RoundTrip
use black_soil_loop_server.Prelude.{
  ℕ, ◌+◌, String, Bool, true, false, not, ◌&&◌, Option, none, some, List, [], ◌∷◌, ◌++◌, ◌==◌,
  str_eq, if◌then◌else◌, length, find,
}
use black_soil_loop_server.Models.{RowId, User, is_park_admin}
use black_soil_loop_server.Table.{Keyed, get}
use black_soil_loop_server.B02.Upload.{Bytes, ImageType, Stored, read_upload, refused, stored}
use black_soil_loop_server.Errors.{ErrorCode, BusinessError, Details}

pub record Attachment : Type 0 where
  pub id : RowId
  pub owner_user_id : RowId
  pub purpose : String
  pub original_name : String
  pub storage_name : String
  pub content_type : ImageType
  pub size_bytes : ℕ
  pub sha256 : String

instance abbrev pub attachment_key : Keyed Attachment
attachment_key = record { key = λ a. a.id }

-- The table, the upload directory, and the next id.
pub record Uploads : Type 0 where
  pub attachments : List Attachment
  pub files : List (String × Bytes)
  pub next_id : RowId

-- `file.content_type` where it is one of ALLOWED_UPLOAD_TYPES, `(file.filename or "upload")[:240]`, `purpose`
-- and the chunks that are read.
pub record UploadRequest : Type 0 where
  pub content_type : Option ImageType
  pub original_name : String
  pub purpose : String
  pub chunks : List Bytes

abbrev pub failure : ErrorCode → ℕ → BusinessError
failure code status = record { code = code; status_code = status; details = Details.nothing }

-- An answer, or the error that is raised.
pub data Reply (A : Type 0) : Type 0 where
  answered : A → Reply A
  raised : BusinessError → Reply A

-- From the `try` block on: a refused file is unlinked again.
unfoldable pub keep_upload :
    (Bytes → String)
    → String
    → UploadRequest
    → ImageType
    → User
    → Stored
    → Uploads
    → Reply Attachment × Uploads
keep_upload digest storage_name request content_type user (refused e) u = (raised e, u)
keep_upload digest storage_name request content_type user (stored bytes) u =
    let attachment : Attachment = record {
      id = u.next_id;
      owner_user_id = user.id;
      purpose = request.purpose;
      original_name = request.original_name;
      storage_name = storage_name;
      content_type = content_type;
      size_bytes = length bytes;
      sha256 = digest bytes;
    } in
    (
      answered attachment,
      record {
        attachments = u.attachments ++ attachment ∷ [];
        files = u.files ++ (storage_name, bytes) ∷ [];
        next_id = u.next_id + 1;
      },
    )

abbrev pub upload_typed :
    (Bytes → String)
    → ℕ
    → String
    → UploadRequest
    → User
    → Option ImageType
    → Uploads
    → Reply Attachment × Uploads
upload_typed digest limit storage_name request user none u =
    (raised (failure ErrorCode.upload_type_not_allowed 415), u)
upload_typed digest limit storage_name request user (some content_type) u =
    keep_upload digest storage_name request content_type user
      (read_upload content_type limit request.chunks) u

unfoldable pub upload_attachment :
    (Bytes → String) → ℕ → String → UploadRequest → User → Uploads → Reply Attachment × Uploads
upload_attachment digest limit storage_name request user u =
    upload_typed digest limit storage_name request user request.content_type u

abbrev pub file_named : String → List (String × Bytes) → Option (String × Bytes)
file_named name files = find (λ f. str_eq f.0 name) files

abbrev pub send_file : Option (String × Bytes) → Reply Bytes
send_file none = raised (failure ErrorCode.attachment_file_missing 404)
send_file (some (name, bytes)) = answered bytes

abbrev pub send_attachment : User → Option Attachment → Uploads → Reply Bytes
send_attachment user none u = raised (failure ErrorCode.attachment_not_found 404)
send_attachment user (some a) u =
    if not (is_park_admin user.role) && not (a.owner_user_id == user.id)
    then raised (failure ErrorCode.forbidden 403)
    else send_file (file_named a.storage_name u.files)

unfoldable pub download_attachment : RowId → User → Uploads → Reply Bytes
download_attachment attachment_id user u = send_attachment user (get attachment_id u.attachments) u
