-- ===== src/Services.antt =====
-- What the program calls outside this repository, behind an interface: object storage (through
-- utils/s3.py), a digest of hashlib, fresh identifiers of uuid, and one HTTP request to Postmark.
use hedwig.Prelude.{String, ℕ}
use hedwig.Tables.{EmailMessage, OutboundSendAttempt}

-- How the POST to Postmark's `/email` ends: with `requests.RequestException`, with a body that is
-- no JSON, or with a status and the body's `ErrorCode` (0 if absent), `Message` and `MessageID`.
pub data Response : Type 0 where
  request_failed : String → Response
  not_json : String → Response
  answered : ℕ → ℕ → String → String → Response

pub record Services : Type 0 where
  -- The URL of the stored object, empty if the upload failed.
  pub upload_file : ℕ → String → String → String
  pub extract_file_key : String → String
  pub sha256 : String → String
  pub uuid_text : ℕ → String
  pub post_email : EmailMessage → OutboundSendAttempt → Response
