-- ===== src/Tests/Ebml.antt =====
-- Tests of `Ebml`.
use icecast_server.Prelude.{some, Bytes, ◌≡◌, refl, true, false, none, List, [], ◌∷◌, ◌++◌, arith}
use icecast_server.Ebml.Numbers.{parsed, need_more, parse_var_int, parse_tag}
use icecast_server.Ebml.State.{ebml_create}
use icecast_server.Ebml.Parser.{ebml_wrote}
use icecast_server.Ebml.Output.{get_buffer, Refbuf}
use icecast_server.Listener.{Sent, accepts, blocks}
use icecast_server.Ebml.Listener.{
  EbmlListener, new_listener, create_client_data, Happens, sends_round, all_happen,
}
use icecast_server.Ebml.Audience.{IsDelivered, play-IsDelivered}
use icecast_server.Ebml.VarInt.{SaysVarInt, parse_var_int-SaysVarInt}
use icecast_server.Ebml.Loop.{Done, ebml_wrote-Done}
use icecast_server.Ebml.Session.{new_source, play, IsStreamed, play-IsStreamed, new_source-InStep}

-- An empty EBML header.
abbrev ebml_header : Bytes
ebml_header = 0x1A ∷ 0x45 ∷ 0xDF ∷ 0xA3 ∷ 0x80 ∷ []

-- A cluster of unknown length with one block of the track 1.
abbrev cluster : Bytes
cluster = 0x1F ∷ 0x43 ∷ 0xB6 ∷ 0x75 ∷ 0xFF ∷ 0xA3 ∷ 0x84 ∷ 0x81 ∷ 0 ∷ 0 ∷ 0x80 ∷ []

-- The second piece ends within a tag.
abbrev pieces : List Bytes
pieces = (ebml_header ++ cluster) ∷ (0x1F ∷ 0x43 ∷ []) ∷ (0xB6 ∷ 0x75 ∷ 0xFF ∷ []) ∷ []

reads_length : parse_var_int (0x40 ∷ 0x02 ∷ []) ≡ parsed 2 2
unfolding parse_var_int
reads_length = refl

waits_for_tag : parse_tag (0x1F ∷ 0x43 ∷ []) ≡ need_more
unfolding parse_tag
waits_for_tag = refl

-- The cluster is sent when the next one has come.
sends_cluster :
    (play 2 pieces new_source).buffers ≡ record { bytes = cluster; sync_point = true } ∷ []
unfolding get_buffer
sends_cluster = refl

no_problem : (play 2 pieces new_source).problem ≡ false
unfolding get_buffer
no_problem = refl

play-IsStreamed_example : IsStreamed pieces (play 2 pieces new_source)
play-IsStreamed_example = play-IsStreamed 2 pieces (omega arith) no_problem

ebml_wrote-Done_example : Done none ([] ++ ebml_header) [] (ebml_wrote ebml_create ebml_header)
ebml_wrote-Done_example =
    ebml_wrote-Done none [] [] ebml_create ebml_header (omega arith) new_source-InStep

parse_var_int-SaysVarInt_example : SaysVarInt (0x40 ∷ 0x02 ∷ []) (parse_var_int (0x40 ∷ 0x02 ∷ []))
parse_var_int-SaysVarInt_example = parse_var_int-SaysVarInt (0x40 ∷ 0x02 ∷ []) (omega arith)

abbrev cluster_buffer : Refbuf
cluster_buffer = record { bytes = cluster; sync_point = true }

-- The header goes in two sends.
abbrev takes_three : List Sent
takes_three = accepts 3 ∷ accepts 100 ∷ blocks ∷ accepts 4 ∷ accepts 100 ∷ []

abbrev listener : EbmlListener
listener = new_listener ebml_header cluster_buffer [] takes_three

abbrev four_rounds : List Happens
four_rounds = sends_round ∷ sends_round ∷ sends_round ∷ sends_round ∷ []

has_data :
    create_client_data (play 2 pieces new_source).source.header cluster_buffer [] takes_three
    ≡ some listener
unfolding get_buffer create_client_data
has_data = refl

play-IsDelivered_example :
    IsDelivered pieces [] (cluster_buffer ∷ []) ebml_header (all_happen four_rounds listener)
play-IsDelivered_example =
    play-IsDelivered 2 pieces [] cluster_buffer [] four_rounds takes_three listener (omega arith)
      no_problem sends_cluster has_data

gets_part :
    (all_happen four_rounds listener).con.wire ≡ ebml_header ++ 0x1F ∷ 0x43 ∷ 0xB6 ∷ 0x75 ∷ []
unfolding all_happen
gets_part = refl
