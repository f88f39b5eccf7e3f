-- ===== src/Tests/Lists.antt =====
-- Examples for uploads and the scheduled jobs: an image, a session past its end and one that goes on.
use black_soil_loop_server.Errors.{ErrorCode}
use black_soil_loop_server.B02.Attachments.{
  answered, raised, UploadRequest, Uploads, Attachment, upload_attachment, keep_upload,
  download_attachment, failure,
}
use black_soil_loop_server.B02.Upload.{
  starts_with, ImageType, read_upload, read_more, valid_image_signature,
}
use black_soil_loop_server.Prelude.{
  refl, ℕ, ◌≡◌, false, [], ◌∷◌, none, some, if◌then◌else◌, not, ◌&&◌, ◌==◌,
}
use black_soil_loop_server.Tests.Data.{db_with, driver, state_of}
use black_soil_loop_server.Models.{UserSession, is_park_admin}
use black_soil_loop_server.Db.{Db}
use black_soil_loop_server.Scheduler.{run_scheduled_jobs}
use black_soil_loop_server.B02.Upload.Content.{content_of}
use black_soil_loop_server.B02.Attachments.RoundTrip.{upload_attachment-download}

abbrev ended : UserSession
ended = record {
  id = 60;
  user_id = 1;
  refresh_token_hash = "hash";
  session_version = 1;
  expires_at = 900;
  last_activity_at = 10;
  revoked_at = none;
}

abbrev live : UserSession
live = record ended { id = 61; expires_at = 2_000 }

abbrev plain_db : Db
plain_db = db_with [] []

abbrev db : Db
db = record plain_db { sessions = ended ∷ live ∷ [] }

abbrev counts : ℕ × ℕ
counts = (1, 0)

abbrev swept : Db
swept = state_of db (run_scheduled_jobs (λ _ _. false) (λ _. false) 1_000 ((1, 40) ∷ []) db)

abbrev request : UploadRequest
request = record {
  content_type = some ImageType.jpeg;
  original_name = "a.jpg";
  purpose = "receipt";
  chunks = (0xff ∷ 0xd8 ∷ 0xff ∷ 7 ∷ []) ∷ (8 ∷ 9 ∷ []) ∷ [];
}

abbrev none_yet : Uploads
none_yet = record { attachments = []; files = []; next_id = 5 }

abbrev image : Attachment
image = record {
  id = 5;
  owner_user_id = 1;
  purpose = "receipt";
  original_name = "a.jpg";
  storage_name = "f.jpg";
  content_type = ImageType.jpeg;
  size_bytes = 6;
  sha256 = "digest";
}

abbrev uploaded : Uploads
uploaded = record {
  attachments = image ∷ [];
  files = ("f.jpg", 0xff ∷ 0xd8 ∷ 0xff ∷ 7 ∷ 8 ∷ 9 ∷ []) ∷ [];
  next_id = 6;
}

upload_attachment-download_example : download_attachment 5 driver uploaded ≡ (
    if not (is_park_admin driver.role) && not (driver.id == driver.id)
    then raised (failure ErrorCode.forbidden 403)
    else answered (content_of request.chunks))
unfolding upload_attachment keep_upload read_upload read_more valid_image_signature starts_with
upload_attachment-download_example =
    upload_attachment-download (λ b. "digest") 100 "f.jpg" request driver driver image none_yet
      uploaded refl refl refl
