-- ===== src/Moving.antt =====
-- `source_move_clients` of src/source.c: the listeners of one source go over to another.
--
-- The locks are not modelled: the function holds `move_clients_mutex` and both sources' trees.
pub mod Moved
use icecast_server.Prelude.{
  ℕ, ◌+◌, Bool, true, false, not, ◌&&◌, ◌||◌, List, [], ◌∷◌, Option, none, some, Bytes, str_eq,
  ◌==◌, if◌then◌else◌,
}
use icecast_server.Stream.{Queue, Stream}
use icecast_server.Listener.{
  Client, BufferRef, no_buffer, CheckBuffer, check_http, check_file, advance_queue, set_queue,
}
use icecast_server.SourceMain.{TreeInsert, Source}

-- What the function reads of a source besides its listeners.
pub record MovableSource : Type 0 where
  pub mount : Bytes
  pub source : Source
  -- `source->format->type`, if there is a format
  pub format : Option ℕ
  -- `source->con != NULL`
  pub has_con : Bool
  pub on_demand_req : Bool

pub record Move : Type 0 where
  pub from : MovableSource
  pub to : MovableSource

-- `source->on_demand == 0 && source->format == NULL`
unfoldable pub is_unavailable : MovableSource → Bool
is_unavailable s = elim s.format [ none ↦ not s.source.on_demand | some f ↦ false ]

-- `source->format && dest->format` of different types
unfoldable pub formats_differ : Option ℕ → Option ℕ → Bool
formats_differ (some f) (some g) = not (f == g)
formats_differ _ _ = false

-- `if (client->check_buffer != format_check_http_buffer)`
unfoldable pub detach : CheckBuffer → Bool → Client → Queue → Client × Queue
unfolding set_queue
detach check_http has_con c q = (c, q)
detach _ has_con c q =
    let (c', q') = set_queue no_buffer c q in
    (
      record c' {
        check_buffer = check_file;
        intro_offset = if has_con then c'.intro_offset else none;
      },
      q',
    )

pub record Passing : Type 0 where
  pub queue : Queue
  pub pending : List Client
  pub count : ℕ

-- `while (1)` over one tree of the source, into the pending tree of the destination
unfoldable pub pass_clients : TreeInsert → Bool → List Client → Queue → List Client → ℕ → Passing
unfolding detach
pass_clients t has_con [] q pending n = record { queue = q; pending = pending; count = n }
pass_clients t has_con (c ∷ cs) q pending n =
    let (c', q') = detach c.check_buffer has_con c q in
    pass_clients t has_con cs q' (t.insert c' pending) (n + 1)

-- The two loops and what follows them: the pending clients go first.
unfoldable pub pass_all : TreeInsert → MovableSource → MovableSource → Move
unfolding pass_clients
pass_all t s d =
    let src = s.source in
    let dst = d.source in
    let first =
      pass_clients t s.has_con src.pending_tree src.stream.stream_data dst.pending_tree 0 in
    let both = pass_clients t s.has_con src.client_tree first.queue first.pending first.count in
    record {
      from = record s {
        source = record src {
          stream = record src.stream { stream_data = both.queue };
          client_tree = [];
          pending_tree = [];
          listeners = 0;
        };
      };
      to = record d {
        source = record dst { pending_tree = both.pending };
        on_demand_req =
            if not dst.running && dst.on_demand && not (both.count == 0)
            then true
            else d.on_demand_req;
      };
    }

unfoldable pub move_clients : TreeInsert → MovableSource → MovableSource → Move
unfolding is_unavailable formats_differ pass_all str_eq
move_clients t s d =
    if str_eq s.mount d.mount
    then record { from = s; to = d }
    else if not d.source.running && not d.source.on_demand
    then record { from = s; to = d }
    else if is_unavailable s
    then record { from = s; to = d }
    else if formats_differ s.format d.format
    then record { from = s; to = d }
    else pass_all t s d
