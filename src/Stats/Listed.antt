-- ===== src/Stats/Listed.antt =====
-- The blocks of the list of the streams.
use icecast_server.Prelude.{
  leb→lt, by_test, take-all, length-append, append_assoc, ◌+◌, ◌-◌, ◌≤◌, ◌<◌, ◌≡◌, refl, ap, ◌∙◌,
  Bool, true, false, List, [], ◌∷◌, ◌++◌, arith, leb, if◌then◌else◌, Bytes, length, All,
}
use icecast_server.Trees.{leaf, elements}
use icecast_server.Stats.Records.{Stats, StatsSource}
use icecast_server.Stats.Streams.{
  stats_get_streams, Block, StreamBlock, empty_block, stream_line, write_stream, close_block,
  place_stream, list_streams,
}

-- The lines of the sources that are not hidden.
abbrev pub visible_lines : List StatsSource → Bytes
visible_lines [] = []
visible_lines (s ∷ sources) =
    (if s.hidden then [] else stream_line s.source) ++ visible_lines sources

abbrev pub joined_text : List StreamBlock → Bytes
joined_text [] = []
joined_text (b ∷ blocks) = b.text ++ joined_text blocks

-- A line of the source fits into a block.
abbrev pub FitsBlock : StatsSource → Type 0
FitsBlock s = length s.source ≤ 4092

-- The length is that of the text, which is within the block with a NUL.
abbrev pub IsWhole : StreamBlock → Type 0
IsWhole b = (b.len ≡ length b.text) × (b.len < 4096)

abbrev HasRoom : Block → Type 0
HasRoom b = (length b.data_written + b.remaining ≡ 4096) × (0 < b.remaining)

write_stream-HasRoom :
    (mount : Bytes) (b : Block)
    → HasRoom b
    → length mount + 3 < b.remaining
    → HasRoom (write_stream mount b)
      × ((write_stream mount b).data_written ≡ b.data_written ++ stream_line mount)
unfolding write_stream
write_stream-HasRoom mount b (h, k) r =
    let size : length (stream_line mount) ≡ length mount + 2 = length-append mount (13 ∷ 10 ∷ []) in
    let all = take-all (b.remaining - 1) (stream_line mount) (omega (arith, size)) in
    let text = ap (λ (x : Bytes). b.data_written ++ x) all in
    let grown = ap length text ∙ length-append b.data_written (stream_line mount) in
    ((omega (arith, size, grown), omega (arith, size)), text)

close_block-IsWhole : (b : Block) → HasRoom b → IsWhole (close_block b)
unfolding close_block
close_block-IsWhole b (h, k) = (omega arith, omega arith)

-- What is listed after a block that has been begun.
abbrev IsListed : Block → List StatsSource → List StreamBlock → Type 0
IsListed b sources blocks =
    (joined_text blocks ≡ b.data_written ++ visible_lines sources) × All IsWhole blocks

-- A line that was written.
written :
    (mount : Bytes) (b b' : Block) (sources : List StatsSource) (blocks : List StreamBlock)
    → b'.data_written ≡ b.data_written ++ stream_line mount
    → IsListed b' sources blocks
    → IsListed b (record { source = mount; hidden = false; stats_tree = leaf } ∷ sources) blocks
written mount b b' sources blocks e (t, a) = (
  t
      ∙ ap (λ (x : Bytes). x ++ visible_lines sources) e
      ∙ append_assoc b.data_written (stream_line mount) (visible_lines sources),
  a,
)

-- A block that is closed.
closed_first :
    (b b' : Block) (sources : List StatsSource) (blocks : List StreamBlock)
    → HasRoom b
    → b'.data_written ≡ []
    → IsListed b' sources blocks
    → IsListed b sources (close_block b ∷ blocks)
unfolding close_block
closed_first b b' sources blocks r e (t, a) = (
  ap (λ (x : Bytes). b.data_written ++ x) (t ∙ ap (λ (x : Bytes). x ++ visible_lines sources) e),
  (close_block-IsWhole b r, a),
)

-- A source, hidden or not, before the others.
listed_with :
    (s : StatsSource) (hidden : Bool) (sources : List StatsSource) (b : Block)
    → FitsBlock s
    → HasRoom b
    → ((b' : Block) → HasRoom b' → IsListed b' sources (list_streams sources b'))
    → IsListed b (record s { hidden = hidden } ∷ sources) (
        (place_stream (record s { hidden = hidden }) b).0
        ++ list_streams sources (place_stream (record s { hidden = hidden }) b).1)
unfolding place_stream
listed_with s true sources b short r rest = rest b r
listed_with s false sources b short r rest =
    by_test
      (λ (p : List StreamBlock × Block).
        IsListed b (record s { hidden = false } ∷ sources) (p.0 ++ list_streams sources p.1))
      (leb b.remaining (length s.source + 3))
      (close_block b ∷ [], write_stream s.source empty_block) ([], write_stream s.source b)
      (λ e.
        let (room, text) =
          write_stream-HasRoom s.source empty_block (omega arith) (omega (arith, short)) in
        let b' = write_stream s.source empty_block in
        closed_first b empty_block (record s { hidden = false } ∷ sources) (list_streams sources b')
          r refl
          (written s.source empty_block b' sources (list_streams sources b') text (rest b' room)))
      (λ e.
        let wide = leb→lt b.remaining (length s.source + 3) e in
        let (room, text) = write_stream-HasRoom s.source b r wide in
        let b' = write_stream s.source b in
        written s.source b b' sources (list_streams sources b') text (rest b' room))

list_streams-IsListed :
    (sources : List StatsSource) (b : Block)
    → All FitsBlock sources
    → HasRoom b
    → IsListed b sources (list_streams sources b)
unfolding list_streams close_block
list_streams-IsListed [] b a r = (refl, (close_block-IsWhole b r, tt))
list_streams-IsListed (s ∷ sources) b (short, a) r =
    listed_with s s.hidden sources b short r (λ b' r'. list_streams-IsListed sources b' a r')

-- If the mounts of the statistics have at most 4092 bytes, the texts of the blocks that
-- stats_get_streams returns are together the mounts that are not hidden, in order and each with a line
-- end, and the len of each block is the length of its text, less than 4096.
pub stats_get_streams-lines :
    (s : Stats)
    → All FitsBlock (elements s.source_tree)
    → (joined_text (stats_get_streams s) ≡ visible_lines (elements s.source_tree))
      × All IsWhole (stats_get_streams s)
unfolding stats_get_streams
stats_get_streams-lines s a =
    list_streams-IsListed (elements s.source_tree) empty_block a (omega arith)
