-- ===== src/Ebml/Parser.antt =====
-- `ebml_wrote` of src/format_ebml.c, a round of its loop at a time.
use icecast_server.Prelude.{
  take, length, drop, starts_with, Bytes, zero, suc, ◌+◌, ◌-◌, ◌*◌, ◌%◌, ◌^◌, Bool, true, false,
  not, ◌&&◌, ◌||◌, none, some, [], ◌∷◌, ◌++◌, ltb, leb, ◌==◌, if◌then◌else◌, ℕ,
}
use icecast_server.Ebml.Numbers.{
  unknown, Parsed, need_more, corrupt, parsed, parse_var_int, parse_tag, parse_sized_int,
}
use icecast_server.Ebml.State.{
  Ebml, KeyframeStatus, ParsingState, cluster_magic, copying_to_data, copying_to_header,
  does_not_start, header_max_size, keyframe_unknown, parsing_clusters, parsing_header,
  segment_magic, slice_size, start_cluster, starts_cluster, tracks_magic,
}

-- What a round of the loop in `ebml_wrote` comes to, with the bytes from the cursor on: another round,
-- the end of the loop, or the return of -1.
pub data Round : Type 0 where
  goes_on waits fails : Ebml → Bytes → Round

-- `ebml_check_track`
unfoldable pub check_track : Ebml → Ebml
check_track s =
    if s.keyframe_track_number == unknown
      && s.parsing_track_is_video
      && not (s.parsing_track_number == unknown)
    then record s { keyframe_track_number = s.parsing_track_number }
    else s

abbrev pub copy_state : ParsingState → ParsingState
copy_state parsing_header = copying_to_header
copy_state _ = copying_to_data

-- `if (processing)`: the current element is to be copied.
unfoldable pub copy_element : Ebml → Bytes → ℕ → Round
copy_element s todo len =
    goes_on (record s { copy_len = len % 2 ^ 64; parse_state = copy_state s.parse_state }) todo

abbrev pub keyframe_status : ℕ → KeyframeStatus
keyframe_status flags = if leb 128 flags then starts_cluster else does_not_start

-- The flags of a block of the video track, if the byte has come.
unfoldable pub probe_flags : Ebml → Bytes → ℕ → Bytes → Round
unfolding copy_element
probe_flags s todo len [] = waits s todo
probe_flags s todo len (flags ∷ more) =
    copy_element (record s { cluster_starts_with_keyframe = keyframe_status flags }) todo len

unfoldable pub probe_track : Ebml → Bytes → ℕ → Bytes → Parsed → Round
unfolding copy_element probe_flags
probe_track s todo len block need_more = waits s todo
probe_track s todo len block corrupt = fails s todo
probe_track s todo len block (parsed track_number_length track_number) =
    if track_number == s.keyframe_track_number
    then probe_flags s todo len (drop (track_number_length + 2) block)
    else copy_element s todo len

-- A SimpleBlock, whose content is `block`.
unfoldable pub probe_block : Ebml → Bytes → ℕ → Bytes → Round
unfolding copy_element probe_track parse_var_int
probe_block s todo len block = elim s.cluster_starts_with_keyframe [
  | keyframe_unknown ↦ probe_track s todo len block (parse_var_int block)
  | does_not_start ↦ copy_element s todo len
  | starts_cluster ↦ copy_element s todo len
]

-- A TrackNumber, with what its content parses to.
unfoldable pub probe_number : Ebml → Bytes → ℕ → Parsed → Round
unfolding copy_element check_track
probe_number s todo len need_more = waits s todo
probe_number s todo len corrupt = fails s todo
probe_number s todo len (parsed value_length data_value) =
    copy_element (check_track (record s { parsing_track_number = data_value })) todo len

-- A TrackType.
unfoldable pub probe_type : Ebml → Bytes → ℕ → Parsed → Round
unfolding copy_element check_track
probe_type s todo len need_more = waits s todo
probe_type s todo len corrupt = fails s todo
probe_type s todo len (parsed value_length data_value) =
    copy_element
      (if data_value % 2 == 1 then check_track (record s { parsing_track_is_video = true }) else s)
      todo len

-- The elements with an identifier of one byte.
unfoldable pub probe_element : Ebml → Bytes → ℕ → ℕ → Round
unfolding copy_element probe_block probe_number probe_type parse_sized_int starts_with
probe_element s todo tag_length payload_length =
    let len = tag_length + payload_length in
    let content = drop tag_length todo in
    if ltb 1 tag_length && starts_with (0xA3 ∷ []) todo
    then probe_block s todo len content
    else if ltb 1 tag_length && starts_with (0xAE ∷ []) todo
    then copy_element (record s { parsing_track_number = unknown; parsing_track_is_video = false })
        todo tag_length
    else if ltb 1 tag_length && starts_with (0xD7 ∷ []) todo
    then probe_number s todo len (parse_sized_int content payload_length false)
    else if ltb 1 tag_length && starts_with (0x83 ∷ []) todo
    then probe_type s todo len (parse_sized_int content payload_length false)
    else copy_element s todo len

-- `!memcmp(..., magic, UNCOMMON_MAGIC_LEN)` where the tag is longer than that
unfoldable pub has_magic : Bytes → ℕ → Bytes → Bool
unfolding starts_with
has_magic magic tag_length todo = ltb 4 tag_length && starts_with magic todo

-- All children of a Segment and of Tracks are parsed.
unfoldable pub skip_length : Bytes → ℕ → ℕ → ℕ
unfolding has_magic
skip_length todo tag_length payload_length =
    if has_magic segment_magic tag_length todo || has_magic tracks_magic tag_length todo
    then 0
    else payload_length

unfoldable pub parse_element : Ebml → Bytes → Parsed → Round
unfolding has_magic skip_length probe_element
parse_element s todo need_more = waits s todo
parse_element s todo corrupt = fails s todo
parse_element s todo (parsed tag_length payload_length) =
    if has_magic cluster_magic tag_length todo
    then goes_on (record s { parse_state = start_cluster }) todo
    else probe_element s todo tag_length
        (skip_length todo tag_length (if payload_length == unknown then 0 else payload_length))

-- `tag_length` of a tag, as a `uint_least64_t`
abbrev pub tag_length_of : Parsed → ℕ
tag_length_of need_more = 0
tag_length_of corrupt = 2 ^ 64 - 1
tag_length_of (parsed tag_length payload_length) = tag_length

-- `EBML_STATE_START_CLUSTER`
unfoldable pub begin_cluster : Ebml → Bytes → Round
unfolding parse_tag
begin_cluster s todo = elim s.cluster_start [
  | some start ↦ waits (record s { flush_cluster = true }) todo
  | none ↦
      goes_on
        (record s {
          header_size = length s.header;
          cluster_start = some (length s.buffer);
          cluster_starts_with_keyframe = keyframe_unknown;
          flush_cluster = false;
          copy_len = tag_length_of (parse_tag todo);
          parse_state = copying_to_data;
        })
        todo
]

abbrev pub at_most : ℕ → ℕ → ℕ
at_most n m = if ltb m n then m else n

-- After a copy, in the state that follows it.
unfoldable pub after_copy : Ebml → Bytes → ParsingState → Round
after_copy s todo next =
    if s.copy_len == 0 then goes_on (record s { parse_state = next }) todo else waits s todo

unfoldable pub copy_to_header : Ebml → Bytes → Round
unfolding after_copy
copy_to_header s todo =
    let to_copy = at_most (length todo) s.copy_len in
    if ltb header_max_size (length s.header + to_copy)
    then fails s todo
    else after_copy
        (record s { header = s.header ++ take to_copy todo; copy_len = s.copy_len - to_copy })
        (drop to_copy todo) parsing_header

unfoldable pub copy_to_data : Ebml → Bytes → Round
unfolding after_copy
copy_to_data s todo =
    let wanted = at_most (length todo) s.copy_len in
    let to_copy =
      if ltb slice_size (length s.buffer + wanted) then slice_size - length s.buffer else wanted in
    after_copy
      (record s { buffer = s.buffer ++ take to_copy todo; copy_len = s.copy_len - to_copy })
      (drop to_copy todo) parsing_clusters

-- One round of the loop.
unfoldable pub round_at : ParsingState → Ebml → Bytes → Round
unfolding parse_element parse_tag begin_cluster copy_to_header copy_to_data
round_at parsing_header s todo = parse_element s todo (parse_tag todo)
round_at parsing_clusters s todo = parse_element s todo (parse_tag todo)
round_at start_cluster s todo = begin_cluster s todo
round_at copying_to_header s todo = copy_to_header s todo
round_at copying_to_data s todo = copy_to_data s todo

-- What `ebml_wrote` returns: the length, or -1; or the fuel of the loop ran out.
pub data Wrote : Type 0 where
  wrote failed out_of_fuel : Ebml → Wrote

-- The loop, for an `input_buffer` that is shifted at its end.
unfoldable pub rounds : ℕ → Ebml → Bytes → Wrote
unfolding round_at
rounds zero s todo = out_of_fuel s
rounds (suc n) s todo = elim (round_at s.parse_state s todo) [
  | goes_on s' todo' ↦ rounds n s' todo'
  | waits s' todo' ↦ wrote (record s' { input_buffer = todo' })
  | fails s' todo' ↦ failed s'
]

-- `ebml_wrote`, for the bytes that were written.
unfoldable pub ebml_wrote : Ebml → Bytes → Wrote
unfolding rounds
ebml_wrote s bytes =
    let input = s.input_buffer ++ bytes in
    rounds (3 * length input + 3) (record s { input_buffer = input }) input
