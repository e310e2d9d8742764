-- ===== src/Tests/Source.antt =====
-- Tests of `Stream`, `Listener` and `SourceMain`.
use icecast_server.Prelude.{
  ◌⊎◌, ◌<◌, ◌≤◌, All, ℕ, List, ◌++◌, ◌∷◌, [], ◌≡◌, refl, ap, some, none, arith, true, false, ltb,
  if◌then◌else◌, Bool-cases, inl, inr,
}
use icecast_server.Stream.{Stream, Queue, append_buffer, reduce_queue}
use icecast_server.Stream.Counts.{Holds}
use icecast_server.Stream.Trim.{HeadUsed}
use icecast_server.Stream.Burst.{IsLast}
use icecast_server.Stream.Invariant.{IsStream, append_buffer-IsStream, reduce_queue-IsStream}
use icecast_server.Listener.{Client, Env, check_http, own, accepts, send_to_listener, is_head}
use icecast_server.Listener.Keeps.{Served}
use icecast_server.Listener.Lagging.{SendServed, send_to_listener-Served}
use icecast_server.SourceMain.{TreeInsert, Source, main_pass}
use icecast_server.SourceMain.Pass.{references, IsSource, main_pass-IsSource}

abbrev idle : Stream
idle = record {
  stream_data = [];
  burst_point = 0;
  burst_size = 100;
  burst_offset = 0;
  queue_size = 0;
  queue_size_limit = 250;
  next_id = 0;
}

abbrev nobody : ℕ → ℕ
nobody p = 0

idle-IsStream : IsStream nobody idle
idle-IsStream = record {
  ascending = tt;
  below = tt;
  counted = tt;
  point_in = inl refl;
  size = refl;
  offset = refl;
  live = λ p h. absurd (omega arith);
}

append_buffer-IsStream_example :
    IsStream nobody (append_buffer 60 true idle)
    × Holds (append_buffer 60 true idle).burst_point (append_buffer 60 true idle).stream_data
    × (((append_buffer 60 true idle).burst_offset ≤ 100)
        ⊎ IsLast (append_buffer 60 true idle).burst_point (append_buffer 60 true idle).stream_data)
append_buffer-IsStream_example = append_buffer-IsStream nobody idle idle-IsStream 60 true

abbrev loaded : Stream
loaded = append_buffer 70 true (append_buffer 60 true idle)

loaded-IsStream : IsStream nobody loaded × Holds loaded.burst_point loaded.stream_data
loaded-IsStream =
    let one = append_buffer-IsStream nobody idle idle-IsStream 60 true in
    let two = append_buffer-IsStream nobody (append_buffer 60 true idle) one.0 70 true in
    (two.0, two.1)

-- The first buffer has left the burst and nobody reads it.
reduces : (reduce_queue loaded).0.queue_size ≡ 70
unfolding reduce_queue append_buffer
reduces = refl

reduce_queue-IsStream_example :
    ((reduce_queue loaded).1 ≡ false)
    × IsStream nobody (reduce_queue loaded).0
    × HeadUsed loaded.burst_point nobody (reduce_queue loaded).0.stream_data
    × ((freed : Queue) × (loaded.stream_data ≡ freed ++ (reduce_queue loaded).0.stream_data)
        × All (λ b. (b.id < loaded.burst_point) × (nobody b.id ≡ 0)) freed)
reduce_queue-IsStream_example =
    reduce_queue-IsStream nobody loaded loaded-IsStream.0 loaded-IsStream.1

abbrev listener : Client
listener = record {
  con_id = 7;
  con_error = false;
  discon_time = 0;
  respcode = 0;
  refbuf = own 4096;
  pos = 0;
  intro_offset = some 0;
  check_buffer = check_http;
  socket = accepts 400 ∷ accepts 1000 ∷ [];
}

abbrev env : Env
env = record { now = 1000; headers = some 300; intro_file = none; has_client = true }

listener-Served : Served (0 ∷ 1 ∷ []) nobody loaded listener
listener-Served = record {
  stream = loaded-IsStream.0;
  fits = tt;
  same_ids = unfold append_buffer in refl;
}

send_to_listener-Served_example :
    (let r = send_to_listener env loaded listener true false in
      SendServed (0 ∷ 1 ∷ []) nobody loaded r
      × (true ≡ true → is_head r.client.refbuf r.queue ≡ true → r.client.con_error ≡ true))
send_to_listener-Served_example =
    send_to_listener-Served (0 ∷ 1 ∷ []) nobody env loaded listener true false listener-Served

-- A tree in the order of the connection ids.
pub insert_by_id : Client → List Client → List Client
insert_by_id c [] = c ∷ []
insert_by_id c (d ∷ cs) = if ltb c.con_id d.con_id then c ∷ d ∷ cs else d ∷ insert_by_id c cs

pub insert_by_id_lem :
    (c : Client) (cs : List Client)
    → (xs ys : List Client) × (cs ≡ xs ++ ys) × (insert_by_id c cs ≡ xs ++ c ∷ ys)
unfolding insert_by_id
insert_by_id_lem c [] = ([], [], refl, refl)
insert_by_id_lem c (d ∷ cs) =
    let (xs, ys, e, e') = insert_by_id_lem c cs in
    elim (Bool-cases (ltb c.con_id d.con_id)) [
      | inl h ↦ ([], d ∷ cs, refl, rw h)
      | inr h ↦ (d ∷ xs, ys, ap (◌∷◌ d) e, rw (h, e'))
    ]

abbrev pub by_id : TreeInsert
by_id = record { insert = insert_by_id; insert_lem = insert_by_id_lem }

abbrev pub source : Source
source = record {
  stream = idle;
  client_tree = [];
  pending_tree = listener ∷ [];
  listeners = 0;
  max_listeners = some 10;
  prev_listeners = 0;
  peak_listeners = 0;
  running = true;
  on_demand = false;
  short_delay = false;
}

pub source-IsSource : IsSource source
source-IsSource = record {
  stream = unfold references in idle-IsStream;
  clients_fit = tt;
  pending_fit = (tt, tt);
  counted = refl;
  within = omega arith;
}

main_pass-IsSource_example :
    IsSource (main_pass by_id env (some (60, true)) false source)
    × (true ≡ true
        → false ≡ false
        → false ≡ false
        → (main_pass by_id env (some (60, true)) false source).running ≡ true)
main_pass-IsSource_example =
    main_pass-IsSource by_id env (some (60, true)) false source source-IsSource

admits : (main_pass by_id env (some (60, true)) false source).listeners ≡ 1
unfolding main_pass insert_by_id
admits = refl
