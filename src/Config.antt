-- ===== src/Config.antt =====
-- asyncloguploader/config.go. Durations are nanoseconds; a string is what the code tests of it,
-- whether it is empty, beside its value.
pub mod Laws
mod Tests
use Prim.Native.String.{String}
use text.Mathlib.Text.{◌==◌ as str_eq}
use logger_double_buffer.Base.{
  ℕ, ◌*◌, ◌/◌, ◌≡◌, Bool, true, false, Option, none, some, List, [], ◌∷◌, ltb, if◌then◌else◌,
}
use logger_double_buffer.Base.Int.{ℤ, pos, negsuc, not_positive, lt_pos, div, pos_part}

abbrev pub second : ℕ
second = 1_000_000_000

abbrev pub millisecond : ℕ
millisecond = 1_000_000

pub record GcsUploadConfig : Type 0 where
  pub bucket : String
  pub object_prefix : String
  pub chunk_size : ℤ
  pub max_chunks_per_compose : ℤ
  pub max_retries : ℤ
  pub retry_delay : ℤ
  pub grpc_pool_size : ℤ
  pub channel_buffer_size : ℤ

pub record Config : Type 0 where
  pub buffer_size : ℤ
  pub num_shards : ℤ
  pub log_file_path : String
  pub max_file_size : ℤ
  pub preallocate_file_size : ℤ
  pub flush_interval : ℤ
  pub flush_timeout : ℤ
  pub has_upload_channel : Bool
  pub gcs_upload_config : Option GcsUploadConfig

unfoldable pub default_config : String → Config
default_config log_path = record {
  buffer_size = pos (64 * 1024 * 1024);
  num_shards = pos 8;
  log_file_path = log_path;
  max_file_size = pos 0;
  preallocate_file_size = pos 0;
  flush_interval = pos (10 * second);
  flush_timeout = pos (10 * millisecond);
  has_upload_channel = false;
  gcs_upload_config = none;
}

unfoldable pub default_gcs_upload_config : String → GcsUploadConfig
default_gcs_upload_config bucket = record {
  bucket = bucket;
  object_prefix = "";
  chunk_size = pos (32 * 1024 * 1024);
  max_chunks_per_compose = pos 32;
  max_retries = pos 3;
  retry_delay = pos (5 * second);
  grpc_pool_size = pos 64;
  channel_buffer_size = pos 100;
}

pub data Error : Type 0 where
  log_file_path_required bucket_required : Error
  shard_size_too_small : ℤ → Error

-- A default where the value is not positive.
abbrev pub or_default : ℕ → ℤ → ℤ
or_default d i = if not_positive i then pos d else i

-- GCSUploadConfig.Validate: the error, if any, and what it made of the configuration.
unfoldable pub validate_gcs : GcsUploadConfig → Option Error × GcsUploadConfig
validate_gcs g = if str_eq g.bucket "" then (some bucket_required, g) else (
  none,
  record g {
    chunk_size = or_default (32 * 1024 * 1024) g.chunk_size;
    max_chunks_per_compose = or_default 32 g.max_chunks_per_compose;
    max_retries = or_default 3 g.max_retries;
    retry_delay = or_default (5 * second) g.retry_delay;
    grpc_pool_size = or_default 64 g.grpc_pool_size;
    channel_buffer_size = or_default 100 g.channel_buffer_size;
  },
)

-- The last part of Validate.
unfoldable pub validate_upload : Config → Option GcsUploadConfig → Option Error × Config
unfolding validate_gcs
validate_upload c none = (none, c)
validate_upload c (some g) =
    let r = validate_gcs g in (r.0, record c { gcs_upload_config = some r.1 })

-- The sizes with their defaults, and the times with theirs.
abbrev pub sized : Config → Config
sized c = record c {
  buffer_size = or_default (64 * 1024 * 1024) c.buffer_size;
  num_shards = or_default 8 c.num_shards;
}

abbrev pub timed : Config → Config
timed c = record (sized c) {
  flush_interval = or_default (10 * second) c.flush_interval;
  flush_timeout = or_default (10 * millisecond) c.flush_timeout;
}

-- Validate; what it has filled in by the time of an error stays filled in.
unfoldable pub validate : Config → Option Error × Config
validate c =
    if str_eq c.log_file_path ""
    then (some log_file_path_required, c)
    else let shard_size = div (sized c).buffer_size (pos_part (sized c).num_shards) in
      if lt_pos shard_size (64 * 1024)
      then (some (shard_size_too_small shard_size), sized c)
      else validate_upload (timed c) c.gcs_upload_config
