-- ===== src/Stats/Streams.antt =====
-- The list of the streams, `stats_get_streams`, and `stats_clear_virtual_mounts` of src/stats.c.
use icecast_server.Prelude.{
  ℕ, ◌+◌, ◌-◌, ◌%◌, ◌^◌, Option, none, some, List, [], ◌∷◌, ◌++◌, leb, if◌then◌else◌, Bytes, take,
  length,
}
use icecast_server.Trees.{Tree, elements}
use icecast_server.Mounts.{Entry, SourceTree, find_mount_raw}
use icecast_server.Stats.Records.{StatsSource, Stats}
use icecast_server.Stats.Changes.{Library}

-- `STREAMLIST_BLKSIZE`
abbrev pub block_size : ℕ
block_size = 4096

-- A block that is written to: what `snprintf` has put in it, and `remaining`.
pub record Block : Type 0 where
  pub data_written : Bytes
  pub remaining : ℕ

-- A block of the list, with its `len`.
pub record StreamBlock : Type 0 where
  pub text : Bytes
  pub len : ℕ

abbrev pub empty_block : Block
empty_block = record { data_written = []; remaining = block_size }

abbrev pub stream_line : Bytes → Bytes
stream_line mount = mount ++ 13 ∷ 10 ∷ []

-- `snprintf` writes what there is place for with a NUL, and returns the whole length.
unfoldable pub write_stream : Bytes → Block → Block
write_stream mount b = record {
  data_written = b.data_written ++ take (b.remaining - 1) (stream_line mount);
  remaining = (b.remaining + 2 ^ 32 - length (stream_line mount) % 2 ^ 32) % 2 ^ 32;
}

-- `STREAMLIST_BLKSIZE - remaining` of unsigned integers
unfoldable pub close_block : Block → StreamBlock
close_block b = record { text = b.data_written; len = (block_size + 2 ^ 32 - b.remaining) % 2 ^ 32 }

-- The blocks that a source closes, and the one that is written to.
unfoldable pub place_stream : StatsSource → Block → List StreamBlock × Block
unfolding write_stream close_block
place_stream s b =
    if s.hidden
    then ([], b)
    else if leb b.remaining (length s.source + 3)
    then (close_block b ∷ [], write_stream s.source empty_block)
    else ([], write_stream s.source b)

unfoldable pub list_streams : List StatsSource → Block → List StreamBlock
unfolding place_stream
list_streams [] b = close_block b ∷ []
list_streams (s ∷ sources) b =
    let (closed, b') = place_stream s b in closed ++ list_streams sources b'

-- `stats_get_streams`
unfoldable pub stats_get_streams : Stats → List StreamBlock
unfolding elements list_streams
stats_get_streams s = list_streams (elements s.source_tree) empty_block

unfoldable pub clear_unless :
    Library → StatsSource → Option Entry → Tree StatsSource → Tree StatsSource
clear_unless lib src none t = lib.sources.delete src t
clear_unless lib src (some source) t = t

unfoldable pub clear_sources :
    Library → SourceTree → List StatsSource → Tree StatsSource → Tree StatsSource
unfolding clear_unless find_mount_raw
clear_sources lib mounts [] t = t
clear_sources lib mounts (src ∷ more) t =
    clear_sources lib mounts more (clear_unless lib src (find_mount_raw mounts (some src.source)) t)

-- `stats_clear_virtual_mounts`
unfoldable pub stats_clear_virtual_mounts : Library → SourceTree → Stats → Stats
unfolding elements clear_sources
stats_clear_virtual_mounts lib mounts s = record s {
  source_tree = clear_sources lib mounts (elements s.source_tree) s.source_tree;
}
