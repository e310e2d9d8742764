-- ===== src/Listener/Checks.antt =====
-- The `check_buffer` functions of src/format.c.
use icecast_server.Prelude.{ℕ, ◌+◌, true, not, [], ◌∷◌, Option, none, some, ◌==◌, if◌then◌else◌}
use icecast_server.Stream.{Queue, Stream}
use icecast_server.Listener.Types.{
  CheckBuffer, check_http, check_file, advance_queue, BufferRef, no_buffer, own, queued, Client,
  Env, refbuf_size, set_queue, Checked, give_up, go_on, find_client_start,
}

-- `get_file_data`: the bytes read, 0 if none
unfoldable pub get_file_data : Env → Client → ℕ
get_file_data env c = elim env.intro_file [
  | none ↦ 0
  | some read ↦ elim c.intro_offset [ none ↦ 0 | some at ↦ read at ]
]

abbrev add_offset : Option ℕ → ℕ → Option ℕ
add_offset none n = none
add_offset (some k) n = some (k + n)

-- `refbuf->len`
unfoldable pub len_at : ℕ → Queue → ℕ
len_at p [] = 0
len_at p (b ∷ q) = if b.id == p then b.len else len_at p q

abbrev pub ref_len : BufferRef → Queue → ℕ
ref_len no_buffer q = 0
ref_len (own n) q = n
ref_len (queued p) q = len_at p q

set_len : ℕ → ℕ → Queue → Queue
set_len p n [] = []
set_len p n (b ∷ q) = if b.id == p then record b { len = n } ∷ q else b ∷ set_len p n q

-- `refbuf->len = n`, with the data of the buffer overwritten: on a buffer of the queue this is what all
-- its listeners see.
unfoldable pub overwrite : BufferRef → ℕ → Queue → BufferRef × Queue
unfolding set_len
overwrite no_buffer n q = (no_buffer, q)
overwrite (own _) n q = (own n, q)
overwrite (queued p) n q = (queued p, set_len p n q)

-- Behind the intro file: the client gets its place in the queue, or waits for data.
unfoldable pub intro_ended : Queue → Stream → Client → Checked
unfolding set_queue find_client_start
intro_ended [] s c = give_up (record c { intro_offset = some 0 }) s.stream_data
intro_ended (_ ∷ _) s c =
    let (c', q) = set_queue no_buffer c s.stream_data in
    find_client_start (record s { stream_data = q }) c'

-- `format_check_file_buffer` behind its first `if`
unfoldable pub check_intro : Env → Stream → Client → Checked
unfolding get_file_data overwrite intro_ended len_at
check_intro env s c =
    if not (c.pos == ref_len c.refbuf s.stream_data)
    then go_on c s.stream_data
    else (let bytes = get_file_data env c in
        if bytes == 0
        then intro_ended s.stream_data s c
        else (let (r, q) = overwrite c.refbuf bytes s.stream_data in
            go_on (record c { refbuf = r; pos = 0; intro_offset = add_offset c.intro_offset bytes })
              q))

-- `refbuf_new (PER_CLIENT_REFBUF_SIZE)`, with nothing left to send
abbrev pub fresh_buffer : Client → Client
fresh_buffer c = record c { refbuf = own refbuf_size; pos = refbuf_size; intro_offset = some 0 }

-- `format_check_file_buffer`, by the client's buffer
unfoldable pub check_file_buffer : BufferRef → Env → Stream → Client → Checked
unfolding check_intro find_client_start
check_file_buffer no_buffer env s c =
    if env.has_client then find_client_start s c else check_intro env s (fresh_buffer c)
check_file_buffer _ env s c = check_intro env s c

-- `format_check_http_buffer` behind the preparation of the headers
unfoldable pub check_headers_sent : Stream → Client → Checked
unfolding overwrite len_at
check_headers_sent s c =
    if not (c.pos == ref_len c.refbuf s.stream_data)
    then go_on c s.stream_data
    else (let (r, q) = overwrite c.refbuf refbuf_size s.stream_data in
        give_up
          (record c {
            refbuf = r;
            pos = refbuf_size;
            intro_offset = some 0;
            check_buffer = check_file;
          })
          q)

unfoldable pub prepare_headers : Option ℕ → Stream → Client → Checked
unfolding check_headers_sent
prepare_headers none s c = give_up (record c { respcode = 500; con_error = true }) s.stream_data
prepare_headers (some n) s c =
    let (r, q) = overwrite c.refbuf n s.stream_data in
    check_headers_sent (record s { stream_data = q }) (record c { refbuf = r; respcode = 200 })

unfoldable pub check_http_buffer : BufferRef → Env → Stream → Client → Checked
unfolding prepare_headers check_headers_sent
check_http_buffer no_buffer env s c = give_up c s.stream_data
check_http_buffer _ env s c =
    if c.respcode == 0 then prepare_headers env.headers s c else check_headers_sent s c

-- `refbuf->next`
unfoldable pub next_of : ℕ → Queue → Option ℕ
next_of p [] = none
next_of p (b ∷ []) = none
next_of p (b ∷ c ∷ q) = if b.id == p then some c.id else next_of p (c ∷ q)

unfoldable pub advance_from : Option ℕ → Client → Queue → ℕ → Checked
unfolding set_queue
advance_from none c q len = if c.pos == len then give_up c q else go_on c q
advance_from (some p) c q len =
    if c.pos == len then (let (c', q') = set_queue (queued p) c q in go_on c' q') else go_on c q

-- `format_advance_queue`; a buffer of the client's own has no next one.
unfoldable pub check_advance_queue : BufferRef → Stream → Client → Checked
unfolding advance_from next_of len_at
check_advance_queue no_buffer s c = give_up c s.stream_data
check_advance_queue (own n) s c = advance_from none c s.stream_data n
check_advance_queue (queued p) s c =
    advance_from (next_of p s.stream_data) c s.stream_data (len_at p s.stream_data)

-- `client->check_buffer(source, client)`
unfoldable pub check : CheckBuffer → Env → Stream → Client → Checked
unfolding check_http_buffer check_file_buffer check_advance_queue
check check_http env s c = check_http_buffer c.refbuf env s c
check check_file env s c = check_file_buffer c.refbuf env s c
check advance_queue env s c = check_advance_queue c.refbuf s c
