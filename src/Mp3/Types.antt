-- ===== src/Mp3/Types.antt =====
-- The state of an MP3 source and of its client: src/format_mp3.h and src/format_mp3.c.
use icecast_server.Prelude.{ℕ, Bool, Option, Bytes, ℤ}

-- `build_metadata_offset` is the length of `build_metadata`, which is what was copied there, and
-- `read_count` that of `read_data`.
pub record Mp3State : Type 0 where
  pub inline_metadata_interval : ℕ
  pub offset : ℕ
  pub interval : ℤ
  -- the text from the pointer on, as it was in the metadata in which the link was found
  pub inline_url : Option Bytes
  pub update_metadata : Bool
  -- `metadata->data`
  pub metadata : Bytes
  pub read_data : Option Bytes
  pub build_metadata_len : ℕ
  pub build_metadata : Bytes

-- What `client_read_bytes` does: so many bytes, or -1, with the error flag or without.
pub data Read : Type 0 where
  got : Bytes → Read
  no_data read_error : Read

-- What the format keeps of a listener. A buffer of metadata has an identity.
pub record Mp3Client : Type 0 where
  pub interval : ℕ
  pub metadata_offset : ℕ
  pub since_meta_block : ℕ
  pub in_metadata : Bool
  pub associated : Option ℕ
