-- ===== src/Mp3/Reading.antt =====
-- The two `get_buffer` functions of src/format_mp3.c: `mp3_get_no_meta` and `mp3_get_filter_meta`.
use icecast_server.Prelude.{
  Bool, true, false, Option, none, some, List, [], ◌∷◌, ◌++◌, ◌==◌, if◌then◌else◌, Bytes, length,
}
use icecast_server.Mp3.Types.{Mp3State, Read}
use icecast_server.Mp3.Filter.{stored, complete_read, Filtered, filter_meta}
use icecast_server.Mp3.Title.{Comments, set_title}
use icecast_server.Mp3.Tags.{TagLibrary, Plugin, set_tag, comments_of}

-- The state, the buffer that is returned (`none` is NULL), and `source->running`.
pub record Got : Type 0 where
  pub state : Mp3State
  pub buffer : Option Bytes
  pub running : Bool

-- `if (source_mp3->update_metadata)`
unfoldable pub update_title : Comments → Mp3State → Mp3State
unfolding set_title
update_title vc s =
    if s.update_metadata then record (set_title vc s) { update_metadata = false } else s

-- What the filter leaves; `read_data` has been NULL since before it.
unfoldable pub finish_meta : Filtered → Got
finish_meta f =
    if f.ended then record { state = f.state; buffer = none; running = false } else record {
      state = record f.state { read_data = none };
      buffer = if length f.audio == 0 then none else some f.audio;
      running = true;
    }

unfoldable pub get_filter_meta : Comments → Read → Mp3State → Got
unfolding complete_read update_title filter_meta finish_meta
get_filter_meta vc r s =
    let (read_data, complete) = complete_read s.read_data r in
    if complete
    then finish_meta
        (filter_meta (update_title vc (record s { read_data = none })) (stored read_data))
    else record { state = record s { read_data = read_data }; buffer = none; running = true }

unfoldable pub get_no_meta : Comments → Read → Mp3State → Got
unfolding complete_read update_title
get_no_meta vc r s =
    let (read_data, complete) = complete_read s.read_data r in
    if complete
    then record {
      state = update_title vc (record s { read_data = none });
      buffer = read_data;
      running = true;
    }
    else record { state = record s { read_data = read_data }; buffer = none; running = true }

-- What the source's thread and those of the admin interface do: a call of `mp3_set_tag` with the tag,
-- the value and its charset, or a call of `mp3_get_filter_meta` with what the client gives. A call is
-- one step: none comes between `mp3_set_title` and the reset of `update_metadata` after it.
pub data SourceCall : Type 0 where
  tagged : Option Bytes → Option Bytes → Option Bytes → SourceCall
  read : Read → SourceCall

module _ (lib : TagLibrary) where
  -- These calls while the source is running, and all audio that they return.
  unfoldable pub read_stream : List SourceCall → Plugin → Mp3State → Bytes → Mp3State × Bytes × Bool
  unfolding get_filter_meta set_tag comments_of
  read_stream [] plugin s audio = (s, audio, true)
  read_stream (tagged tag value charset ∷ rest) plugin s audio =
      let (plugin', s') = set_tag lib tag value charset plugin s in
      read_stream rest plugin' s' audio
  read_stream (read r ∷ rest) plugin s audio =
      let g = get_filter_meta (comments_of lib plugin) r s in
      let further = read_stream rest plugin g.state (audio ++ stored g.buffer) in
      if g.running then further else (g.state, audio, false)
