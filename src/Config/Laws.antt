-- ===== src/Config/Laws.antt =====
-- What a validated configuration guarantees to the rest of the logger.
use text.Mathlib.TextEquality.{eq_iff}
use logger_double_buffer.Base.{
  ℕ, suc, ◌*◌, ◌/◌, ◌≤◌, ◌≡◌, ◌≢◌, refl, subst, false, Option, none, some, arith,
}
use logger_double_buffer.Base.Int.{ℤ, not_positive, pos_part}
use logger_double_buffer.Config.{
  Config, GcsUploadConfig, Error, validate, validate_gcs, validate_upload, or_default, timed,
}

-- A positive int.
abbrev pub IsPositive : ℤ → Type 0
IsPositive i = not_positive i ≡ false

pub record IsValidGcs (g : GcsUploadConfig) : Type 0 where
  pub named : g.bucket ≢ ""
  pub chunk_size : IsPositive g.chunk_size
  pub max_chunks : IsPositive g.max_chunks_per_compose
  pub retries : IsPositive g.max_retries
  pub delay : IsPositive g.retry_delay
  pub pool : IsPositive g.grpc_pool_size
  pub channel : IsPositive g.channel_buffer_size

-- The upload part, if there is one.
abbrev pub IsValidUpload : Option GcsUploadConfig → Type 0
IsValidUpload none = Unit
IsValidUpload (some g) = IsValidGcs g

upload_valid :
    (o : Option GcsUploadConfig)
    → ((g : GcsUploadConfig) → o ≡ some g → IsValidGcs g)
    → IsValidUpload o
upload_valid none h = tt
upload_valid (some g) h = h g refl

pub record IsValid (c : Config) : Type 0 where
  pub path : c.log_file_path ≢ ""
  pub buffer : IsPositive c.buffer_size
  pub shards : IsPositive c.num_shards
  pub shard_size : 64 * 1024 ≤ pos_part c.buffer_size / pos_part c.num_shards
  pub interval : IsPositive c.flush_interval
  pub timeout : IsPositive c.flush_timeout
  pub upload : IsValidUpload c.gcs_upload_config

or_default-pos : (d : ℕ) (i : ℤ) → IsPositive (or_default (suc d) i)
or_default-pos d i = ground arith

validate_gcs-IsValid :
    (g : GcsUploadConfig) → (validate_gcs g).0 ≡ none → IsValidGcs (validate_gcs g).1
unfolding validate_gcs
validate_gcs-IsValid g e = ground (arith, eq_iff g.bucket "")

upload_part :
    (c : Config) (o : Option GcsUploadConfig) (g : GcsUploadConfig)
    → (validate_upload c o).0 ≡ none
    → c.gcs_upload_config ≡ o
    → (validate_upload c o).1.gcs_upload_config ≡ some g
    → IsValidGcs g
unfolding validate_upload
upload_part c none g e same found = ground arith
upload_part c (some h) g e same found = subst IsValidGcs (cc) (validate_gcs-IsValid h e)

module _ (c : Config) (e : (validate c).0 ≡ none) where
  validate-path : (validate c).1.log_file_path ≢ ""
  unfolding validate validate_upload
  validate-path = ground (arith, eq_iff c.log_file_path "")

  validate-sizes :
      (IsPositive (validate c).1.buffer_size)
      × (IsPositive (validate c).1.num_shards)
      × (64 * 1024 ≤ pos_part (validate c).1.buffer_size / pos_part (validate c).1.num_shards)
  unfolding validate validate_upload
  validate-sizes = ground arith

  validate-times :
      (IsPositive (validate c).1.flush_interval) × (IsPositive (validate c).1.flush_timeout)
  unfolding validate validate_upload
  validate-times = ground arith

  validate-eq : validate c ≡ validate_upload (timed c) c.gcs_upload_config
  unfolding validate
  validate-eq = ground arith

  validate-upload : (g : GcsUploadConfig) → (validate c).1.gcs_upload_config ≡ some g → IsValidGcs g
  validate-upload g found =
      upload_part (timed c) c.gcs_upload_config g (subst (λ r. r.0 ≡ none) validate-eq e) refl
        (subst (λ (r : Option Error × Config). r.1.gcs_upload_config ≡ some g) validate-eq found)

-- Validate without an error leaves a configuration whose log path is set, whose buffer size, number
-- of shards, flush interval and flush timeout are positive, whose shards have 64 KiB at least, and
-- whose upload part, if there is one, has its bucket set and its chunk size, chunks per compose,
-- retries, retry delay, gRPC pool size and channel buffer size positive. (The maximal size of a
-- file and the size to preallocate may still be 0 or negative.)
pub validate-IsValid : (c : Config) → (validate c).0 ≡ none → IsValid (validate c).1
validate-IsValid c e = record {
  path = validate-path c e;
  buffer = (validate-sizes c e).0;
  shards = (validate-sizes c e).1;
  shard_size = (validate-sizes c e).2;
  interval = (validate-times c e).0;
  timeout = (validate-times c e).1;
  upload = upload_valid (validate c).1.gcs_upload_config (validate-upload c e);
}
