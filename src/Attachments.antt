-- ===== src/Attachments.antt =====
-- utils/attachments.py
use hedwig.Prelude.Text.{truthy}
use hedwig.Prelude.Base64.{decoded_size}
use hedwig.Prelude.{String, if◌then◌else◌, none, not, some, true, ℕ}
use hedwig.Services.{Services}

pub record Stored : Type 0 where
  pub file_url : String
  pub storage_key : String
  pub checksum : String
  pub size_bytes : ℕ

abbrev pub not_stored : Stored
not_stored = record { file_url = ""; storage_key = ""; checksum = ""; size_bytes = 0 }

unfoldable pub store_attachment_content : Services → ℕ → String → String → Stored
store_attachment_content services owner filename content_b64 =
    if not (truthy content_b64) then not_stored else elim (decoded_size true content_b64) [
      | none ↦ not_stored
      | some size ↦
          let file_url = services.upload_file owner filename content_b64 in
          record {
            file_url = file_url;
            storage_key = if truthy file_url then services.extract_file_key file_url else "";
            checksum = services.sha256 content_b64;
            size_bytes = size;
          }
    ]
