-- ===== src/B02/Attachments/RoundTrip.antt =====
-- From an upload to the downloads of it.
use black_soil_loop_server.B02.Upload.{stored, refused}
use black_soil_loop_server.B02.Attachments.{attachment_key, answered, raised, failure}
use black_soil_loop_server.Prelude.{
  ℕ, ◌≡◌, refl, String, not, ◌&&◌, none, some, List, [], ◌∷◌, ◌++◌, ◌==◌, if◌then◌else◌, length,
  Option-cases, arith, eq_iff, inl, inr, length,
}
use black_soil_loop_server.B02.Upload.{Bytes, ImageType, Stored, read_upload}
use black_soil_loop_server.Models.{User, is_park_admin}
use black_soil_loop_server.B02.Attachments.{
  keep_upload, upload_attachment, file_named, Attachment, UploadRequest, download_attachment,
  Uploads,
}
use black_soil_loop_server.Table.{get}
use black_soil_loop_server.Errors.{ErrorCode}
use black_soil_loop_server.Table.Laws.{get-append_last}
use black_soil_loop_server.B02.Upload.Content.{content_of, read_upload-stored}

find-append_last :
    (name : String) (bytes : Bytes) (files : List (String × Bytes))
    → file_named name files ≡ none
    → file_named name (files ++ (name, bytes) ∷ []) ≡ some (name, bytes)
find-append_last name bytes [] h = ground (arith, (eq_iff name name).1 refl)
find-append_last name bytes (f ∷ files) h = ground (arith, find-append_last name bytes files)

record Kept (storage_name : String) (user : User) (a : Attachment) (bytes : Bytes) (u u' : Uploads)
    : Type 0 where
  pub new_id : a.id ≡ u.next_id
  pub owner : a.owner_user_id ≡ user.id
  pub name : a.storage_name ≡ storage_name
  pub attachments : u'.attachments ≡ u.attachments ++ a ∷ []
  pub files : u'.files ≡ u.files ++ (storage_name, bytes) ∷ []
  pub size : a.size_bytes ≡ length bytes

keep_upload-Kept :
    (digest : Bytes → String) (storage_name : String) (request : UploadRequest)
    (content_type : ImageType) (user : User) (s : Stored) (a : Attachment) (u u' : Uploads)
    → keep_upload digest storage_name request content_type user s u ≡ (answered a, u')
    → (bytes : Bytes) × (s ≡ stored bytes) × Kept storage_name user a bytes u u'
unfolding keep_upload
keep_upload-Kept digest storage_name request content_type user (refused e) a u u' p =
    absurd (ground arith)
keep_upload-Kept digest storage_name request content_type user (stored bytes) a u u' p = (
  bytes,
  refl,
  record {
    new_id = ground arith;
    owner = ground arith;
    name = ground arith;
    attachments = ground arith;
    files = ground arith;
    size = ground arith;
  },
)

stored_content :
    (content_type : ImageType) (limit : ℕ) (chunks : List Bytes) (bytes : Bytes)
    → read_upload content_type limit chunks ≡ stored bytes
    → bytes ≡ content_of chunks
stored_content content_type limit chunks bytes e =
    let (same, short, first) = read_upload-stored content_type limit chunks bytes e in same

download_attachment-stored :
    (storage_name : String) (user reader : User) (a : Attachment) (bytes : Bytes) (u u' : Uploads)
    → get u.next_id u.attachments ≡ none
    → file_named storage_name u.files ≡ none
    → Kept storage_name user a bytes u u'
    → download_attachment a.id reader u' ≡ (
        if not (is_park_admin reader.role) && not (a.owner_user_id == reader.id)
        then raised (failure ErrorCode.forbidden 403)
        else answered bytes)
unfolding download_attachment
download_attachment-stored storage_name user reader a bytes u u' new_id new_name k =
    let row : get a.id u'.attachments ≡ some a =
      rw k.attachments (get-append_last a u.attachments (rw k.new_id new_id)) in
    let file : file_named a.storage_name u'.files ≡ some (storage_name, bytes) =
      rw (k.files, k.name) (find-append_last storage_name bytes u.files new_name) in
    ground (arith, row, file)

-- An image that was uploaded is downloaded by its owner, and by a park admin, as the bytes of its chunks, and
-- refused with 403 to every other user, where its id and its storage name were new.
pub upload_attachment-download :
    (digest : Bytes → String) (limit : ℕ) (storage_name : String) (request : UploadRequest)
    (user reader : User) (a : Attachment) (u u' : Uploads)
    → get u.next_id u.attachments ≡ none
    → file_named storage_name u.files ≡ none
    → upload_attachment digest limit storage_name request user u ≡ (answered a, u')
    → download_attachment a.id reader u' ≡ (
        if not (is_park_admin reader.role) && not (user.id == reader.id)
        then raised (failure ErrorCode.forbidden 403)
        else answered (content_of request.chunks))
unfolding upload_attachment keep_upload
upload_attachment-download digest limit storage_name request user reader a u u' new_id new_name p =
    elim (Option-cases request.content_type) [
      | inl missing ↦ absurd (ground (arith, p, missing))
      | inr (content_type, e) ↦
          let kept : keep_upload digest storage_name request content_type user
                (read_upload content_type limit request.chunks) u
              ≡ (answered a, u') =
            rw e at p in
          let (bytes, s, k) =
            keep_upload-Kept digest storage_name request content_type user
              (read_upload content_type limit request.chunks) a u u' kept in
          let same = stored_content content_type limit request.chunks bytes s in
          rw (← k.owner, ← same)
            (download_attachment-stored storage_name user reader a bytes u u' new_id new_name k)
    ]
