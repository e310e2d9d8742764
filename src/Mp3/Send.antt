-- ===== src/Mp3/Send.antt =====
-- Writing to a listener: `send_stream_metadata` and `format_mp3_write_buf_to_client` of
-- src/format_mp3.c.
--
-- The socket is a script, as for any listener; `wire` collects what it took. A result of -1 is `none`.
-- An offset into metadata is within it.
use icecast_server.Prelude.{
  ℕ, ◌+◌, ◌-◌, Bool, true, false, not, ◌&&◌, Option, none, some, List, [], ◌∷◌, ◌++◌, ltb, leb,
  ◌==◌, if◌then◌else◌, Bytes, codes, length, take, drop,
}
use icecast_server.Listener.{Sent, accepts, blocks, breaks}
use icecast_server.Mp3.Types.{Mp3Client}

-- A buffer of metadata: its identity and its data.
pub record Meta : Type 0 where
  pub id : ℕ
  pub text : Bytes

-- A listener's state, as far as the format writes to it.
pub record Sender : Type 0 where
  pub client : Mp3Client
  pub pos : ℕ
  pub socket : List Sent
  pub con_error : Bool
  pub wire : Bytes

abbrev min_of : ℕ → ℕ → ℕ
min_of a b = if ltb a b then a else b

-- `client_send_bytes`
unfoldable pub send_bytes : Bytes → List Sent → Sender → Option ℕ × Sender
send_bytes bytes [] s = (none, s)
send_bytes bytes (accepts n ∷ rest) s =
    let sent = min_of n (length bytes) in
    (some sent, record s { socket = rest; wire = s.wire ++ take sent bytes })
send_bytes bytes (blocks ∷ rest) s = (none, record s { socket = rest })
send_bytes bytes (breaks ∷ rest) s = (none, record s { socket = rest; con_error = true })

-- "\001StreamTitle='';" with its NUL
abbrev pub no_title : Bytes
no_title = 1 ∷ (codes "StreamTitle='';" ++ 0 ∷ [])

abbrev pub same_meta : ℕ → Option ℕ → Bool
same_meta id none = false
same_meta id (some sent) = id == sent

-- The whole block that is to be sent.
unfoldable pub block_text : Option Meta → Option ℕ → Bytes
block_text none sent = no_title
block_text (some meta) sent = if same_meta meta.id sent then 0 ∷ [] else meta.text

-- `metadata`, of which there are `meta_len` bytes
unfoldable pub unsent : Option Meta → Mp3Client → Bytes
unsent none c = drop c.metadata_offset no_title
unsent (some meta) c =
    if same_meta meta.id c.associated then 0 ∷ [] else drop c.metadata_offset meta.text

abbrev pub id_of : Option Meta → Option ℕ
id_of none = none
id_of (some meta) = some meta.id

-- How a part of the write ended: whether it goes on, and how much was written.
pub record Step : Type 0 where
  pub goes_on : Bool
  pub written : ℕ
  pub sender : Sender

abbrev pub count_of : Option ℕ → ℕ
count_of none = 0
count_of (some n) = n

abbrev pub sent_all : Option ℕ → ℕ → Bool
sent_all none len = false
sent_all (some n) len = n == len

-- `send_stream_metadata`, after which the write goes on unless `in_metadata` is set.
unfoldable pub send_stream_metadata : Option Meta → Sender → Step
unfolding send_bytes unsent
send_stream_metadata associated s =
    let metadata = unsent associated s.client in
    let (ret, s') = send_bytes metadata s.socket s in
    if sent_all ret (length metadata)
    then record {
      goes_on = true;
      written = count_of ret;
      sender = record s' {
        client = record s.client {
          associated = id_of associated;
          metadata_offset = 0;
          in_metadata = false;
          since_meta_block = 0;
        };
      };
    }
    else record {
      goes_on = false;
      written = count_of ret;
      sender = record s' {
        client = record s.client {
          metadata_offset = s.client.metadata_offset + count_of ret;
          in_metadata = true;
        };
      };
    }

-- `client_send_bytes` of audio, and `if (ret < (int)len) break`
unfoldable pub send_audio : Bytes → Sender → Step
unfolding send_bytes
send_audio bytes s =
    let (ret, s') = send_bytes bytes s.socket s in
    record {
      goes_on = sent_all ret (length bytes);
      written = count_of ret;
      sender = record s' {
        client = record s.client { since_meta_block = s.client.since_meta_block + count_of ret };
        pos = s.pos + count_of ret;
      };
    }

abbrev pub idle_step : Sender → Step
idle_step s = record { goes_on = true; written = 0; sender = s }

-- One part after another, while it goes on.
abbrev pub and_then : Step → (Sender → Step) → Step
and_then a next =
    let b = next a.sender in
    if a.goes_on
    then record { goes_on = b.goes_on; written = a.written + b.written; sender = b.sender }
    else a

-- `if (len)`, after the block, if there was one
unfoldable pub send_rest : Bytes → Sender → Step
unfolding send_audio
send_rest bytes s = if length bytes == 0 then idle_step s else send_audio bytes s

-- Audio up to the block, the block, and no more than an interval of the audio after it.
unfoldable pub send_around : Option Meta → ℕ → Bytes → Sender → Step
unfolding send_audio send_stream_metadata send_rest
send_around associated remaining bytes s =
    let before = if remaining == 0 then idle_step s else send_audio (take remaining bytes) s in
    and_then before (λ s1.
      and_then (send_stream_metadata associated s1)
        (λ s2. send_rest (take s.client.interval (drop remaining bytes)) s2))

-- `if (client_mp3->interval)`
unfoldable pub send_interval : Option Meta → Bytes → Sender → Step
unfolding send_around send_rest
send_interval associated bytes s =
    let remaining = s.client.interval - s.client.since_meta_block in
    if not (s.client.interval == 0) && leb remaining (length bytes)
    then send_around associated remaining bytes s
    else send_rest bytes s

-- `format_mp3_write_buf_to_client` on a buffer with these data and this metadata
unfoldable pub write_buf_to_client : Option Meta → Bytes → Sender → Step
unfolding send_stream_metadata send_interval
write_buf_to_client associated buffer s =
    let bytes = drop s.pos buffer in
    let before = if s.client.in_metadata then send_stream_metadata associated s else idle_step s in
    and_then before (send_interval associated bytes)
