-- ===== src/Config/Tests.antt =====
-- Runs of Validate.
use logger_double_buffer.Base.{◌*◌, ◌≡◌, refl, true, some, none}
use logger_double_buffer.Base.Int.{pos, negsuc}
use logger_double_buffer.Config.{Config, validate, validate_upload, validate_gcs}
use logger_double_buffer.Config.Laws.{IsValid, validate-IsValid}

abbrev uploading : Config
uploading = record {
  buffer_size = pos (64 * 1024 * 1024);
  num_shards = negsuc 0;
  log_file_path = "/var/log/events";
  max_file_size = pos 0;
  preallocate_file_size = pos 0;
  flush_interval = pos 0;
  flush_timeout = pos 1;
  has_upload_channel = true;
  gcs_upload_config = some (record {
    bucket = "logs";
    object_prefix = "";
    chunk_size = pos 0;
    max_chunks_per_compose = pos 2;
    max_retries = pos 3;
    retry_delay = pos 0;
    grpc_pool_size = pos 0;
    channel_buffer_size = pos 0;
  });
}

accepted : (validate uploading).0 ≡ none
unfolding validate validate_upload validate_gcs
accepted = refl

validate-IsValid_example : IsValid (validate uploading).1
validate-IsValid_example = validate-IsValid uploading accepted
