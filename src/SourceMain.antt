-- ===== src/SourceMain.antt =====
-- One pass of the loop of `source_main` in src/source.c, over the queue (`Stream`) and the listeners
-- (`Listener`) of a source.
--
-- What `get_next_buffer` did is an argument: the buffer that it returned, if any, and whether it
-- cleared `running`. The client trees are ordered sets of the AVL library: the model lists a tree's
-- clients in its order, and takes the library's insertion as a parameter (`TreeInsert`). Statistics,
-- events and the dump file are left out: no state of the model reads them. `_free_client` ends in
-- `client_destroy`, which releases the client's buffer.
pub mod Serve
pub mod Admit
pub mod Pass
use icecast_server.Prelude.{
  ℕ, ◌+◌, ◌-◌, ◌%◌, ◌^◌, Bool, true, false, not, ◌&&◌, ◌||◌, List, [], ◌∷◌, ◌++◌, Option, none,
  some, ltb, leb, ◌==◌, if◌then◌else◌, ◌≡◌,
}
use icecast_server.Stream.{Queue, Stream, append_buffer, must_reduce, reduce_queue}
use icecast_server.Listener.{Client, Env, Sending, release_ref, send_to_listener}

-- `avl_insert` of a client into a tree: it takes some place in the order.
pub record TreeInsert : Type 0 where
  pub insert : Client → List Client → List Client
  pub insert_lem :
      (c : Client) (cs : List Client)
      → (xs ys : List Client) × (cs ≡ xs ++ ys) × (insert c cs ≡ xs ++ c ∷ ys)

pub record Source : Type 0 where
  pub stream : Stream
  pub client_tree : List Client
  pub pending_tree : List Client
  pub listeners : ℕ
  -- `none` is -1
  pub max_listeners : Option ℕ
  pub prev_listeners : ℕ
  pub peak_listeners : ℕ
  pub running : Bool
  pub on_demand : Bool
  pub short_delay : Bool

-- `unsigned long`
abbrev pub u64 : ℕ
u64 = 2 ^ 64

-- The clients that are served and stay, the queue after, and how many were removed.
pub record Serving : Type 0 where
  pub kept : List Client
  pub queue : Queue
  pub short_delay : Bool
  pub removed : ℕ

abbrev pub keep_client : Client → Serving → Serving
keep_client c r = record r { kept = c ∷ r.kept }

abbrev pub count_removed : Serving → Serving
count_removed r = record r { removed = r.removed + 1 }

-- `while (client_node)` over the client tree; the flag is `remove_from_q`.
unfoldable pub serve_clients : Env → Bool → Stream → Bool → List Client → Serving
serve_clients env remove s short [] = record {
  kept = [];
  queue = s.stream_data;
  short_delay = short;
  removed = 0;
}
serve_clients env remove s short (c ∷ cs) =
    let r = send_to_listener env s c remove short in
    let gone = count_removed (
      serve_clients env remove (record s { stream_data = release_ref r.client.refbuf r.queue })
        r.short_delay cs) in
    let stays =
      keep_client r.client
        (serve_clients env remove (record s { stream_data = r.queue }) r.short_delay cs) in
    if r.client.con_error then gone else stays

-- `source->max_listeners != -1 && source->listeners >= (unsigned long)source->max_listeners`
unfoldable pub is_full : Option ℕ → ℕ → Bool
is_full none n = false
is_full (some m) n = leb m n

pub record Admitting : Type 0 where
  pub tree : List Client
  pub queue : Queue
  pub count : ℕ

-- `add pending clients`, and then clear the pending tree
unfoldable pub admit_clients :
    TreeInsert → Option ℕ → List Client → List Client → Queue → ℕ → Admitting
unfolding is_full
admit_clients t max [] tree q n = record { tree = tree; queue = q; count = n }
admit_clients t max (c ∷ cs) tree q n =
    let refused = admit_clients t max cs tree (release_ref c.refbuf q) n in
    let admitted = admit_clients t max cs (t.insert c tree) q ((n + 1) % u64) in
    if is_full max n then refused else admitted

-- `update the stats if need be`
unfoldable pub update_listeners : Source → Source
update_listeners s = if s.listeners == s.prev_listeners then s else record s {
  prev_listeners = s.listeners;
  peak_listeners = if ltb s.peak_listeners s.listeners then s.listeners else s.peak_listeners;
  running = if s.listeners == 0 && s.on_demand then false else s.running;
}

-- `if (refbuf)`: the length and the sync point of what `get_next_buffer` returned
abbrev pub take_buffer : Option (ℕ × Bool) → Stream → Stream
take_buffer none s = s
take_buffer (some (n, sync)) s = append_buffer n sync s

-- `listeners--`, once for each client removed
abbrev pub drop_listeners : ℕ → ℕ → ℕ
drop_listeners n removed = (n + (u64 - removed % u64)) % u64

-- The pass up to the clearing of the pending tree
unfoldable pub serve_and_admit : TreeInsert → Env → Option (ℕ × Bool) → Bool → Source → Source
unfolding append_buffer must_reduce serve_clients admit_clients
serve_and_admit t env incoming lost s =
    let s1 = take_buffer incoming s.stream in
    let served = serve_clients env (must_reduce s1) s1 false s.client_tree in
    let admitted =
      admit_clients t s.max_listeners s.pending_tree served.kept served.queue
        (drop_listeners s.listeners served.removed) in
    record s {
      stream = record s1 { stream_data = admitted.queue };
      client_tree = admitted.tree;
      pending_tree = [];
      listeners = admitted.count;
      running = if lost then false else s.running;
      short_delay = served.short_delay;
    }

unfoldable pub main_pass : TreeInsert → Env → Option (ℕ × Bool) → Bool → Source → Source
unfolding serve_and_admit update_listeners reduce_queue
main_pass t env incoming lost s =
    let updated = update_listeners (serve_and_admit t env incoming lost s) in
    let (stream, unexpected) = reduce_queue updated.stream in
    record updated { stream = stream; running = if unexpected then false else updated.running }
