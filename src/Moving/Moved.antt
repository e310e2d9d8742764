-- ===== src/Moving/Moved.antt =====
-- `source_move_clients` of src/source.c: the two sources and their clients after it.
use icecast_server.Prelude.{
  ◌||◌, ℕ, ◌+◌, List, [], ◌∷◌, ◌≡◌, refl, sym, ◌∙◌, arith, Bool, Bool-cases, inl, inr, length, not,
  ◌&&◌, str_eq,
}
use icecast_server.Stream.{Queue, Stream}
use icecast_server.Stream.Invariant.{IsStream}
use icecast_server.Stream.References.{IsStream-ext}
use icecast_server.Listener.{
  Client, BufferRef, no_buffer, own, queued, CheckBuffer, check_http, check_file, advance_queue,
}
use icecast_server.Listener.Keeps.{with_ref, Fits, with_queue, set_queue-IsStream}
use icecast_server.SourceMain.{TreeInsert}
use icecast_server.SourceMain.Serve.{refs_with, AllFit}
use icecast_server.SourceMain.Admit.{refs_with-ext, insert-placed}
use icecast_server.SourceMain.Pass.{no_refs, references, IsSource, refs_with-exchange, Within-le}
use icecast_server.Moving.{
  true, false, MovableSource, Move, is_unavailable, formats_differ, detach, Passing, pass_clients,
  pass_all, move_clients,
}

-- A client that refers to no buffer of a queue adds no reference.
abbrev Unqueued : Client → Type 0
Unqueued c = (f : ℕ → ℕ) (x : ℕ) → with_ref c.refbuf f x ≡ f x

record Detached (base : ℕ → ℕ) (s : Stream) (r : Client × Queue) : Type 0 where
  stream : IsStream base (with_queue s r.1)
  unqueued : Unqueued r.0
  fits : Fits r.0.check_buffer r.0.refbuf

http_unqueued : (r : BufferRef) (f : ℕ → ℕ) (x : ℕ) → Fits check_http r → with_ref r f x ≡ f x
http_unqueued no_buffer f x h = refl
http_unqueued (own n) f x h = refl
http_unqueued (queued p) f x h = cc

detach-Detached :
    (base : ℕ → ℕ) (k : CheckBuffer) (has_con : Bool) (c : Client) (s : Stream) (q : Queue)
    → c.check_buffer ≡ k
    → Fits k c.refbuf
    → IsStream (with_ref c.refbuf base) (with_queue s q)
    → Detached base s (detach k has_con c q)
unfolding detach
detach-Detached base check_http b c s q e f v = record {
  stream = IsStream-ext (λ x. http_unqueued c.refbuf base x f) v;
  unqueued = λ g x. http_unqueued c.refbuf g x f;
  fits = rw e f;
}
detach-Detached base check_file b c s q e f v = record {
  stream = set_queue-IsStream base no_buffer c (with_queue s q) tt v;
  unqueued = λ g x. refl;
  fits = tt;
}
detach-Detached base advance_queue b c s q e f v = record {
  stream = set_queue-IsStream base no_buffer c (with_queue s q) tt v;
  unqueued = λ g x. refl;
  fits = tt;
}

record Passed (base : ℕ → ℕ) (s : Stream) (cs pending : List Client) (n : ℕ) (r : Passing)
    : Type 0 where
  stream : IsStream base (with_queue s r.queue)
  same_refs : (f : ℕ → ℕ) (x : ℕ) → refs_with f r.pending x ≡ refs_with f pending x
  fits : AllFit pending → AllFit r.pending
  all_there : length r.pending ≡ length pending + length cs
  counted : r.count ≡ n + length cs

pass_clients-Passed :
    (cs : List Client) (t : TreeInsert) (base : ℕ → ℕ) (has_con : Bool) (s : Stream) (q : Queue)
    (pending : List Client) (n : ℕ)
    → AllFit cs
    → IsStream (refs_with base cs) (with_queue s q)
    → Passed base s cs pending n (pass_clients t has_con cs q pending n)
unfolding pass_clients
pass_clients-Passed [] t base b s q pending n f v = record {
  stream = v;
  same_refs = λ g x. refl;
  fits = λ h. h;
  all_there = omega arith;
  counted = omega arith;
}
pass_clients-Passed (c ∷ cs) t base b s q pending n f v =
    let (c', q') = detach c.check_buffer b c q in
    let d = detach-Detached (refs_with base cs) c.check_buffer b c s q refl f.0 v in
    let r = pass_clients-Passed cs t base b s q' (t.insert c' pending) (n + 1) f.1 d.stream in
    let len = (insert-placed t c' pending no_refs).1 in
    record {
      stream = r.stream;
      same_refs = λ g x.
          r.same_refs g x ∙ (insert-placed t c' pending g).0 x ∙ d.unqueued (refs_with g pending) x;
      fits = λ h. r.fits ((insert-placed t c' pending no_refs).2 d.fits h);
      all_there = omega (arith, r.all_there, len);
      counted = omega (arith, r.counted);
    }

-- All clients of a source.
abbrev pub clients_of : MovableSource → ℕ
clients_of s = length s.source.client_tree + length s.source.pending_tree

-- The mounts differ, the destination is active, the source is available, and the formats do not differ.
abbrev pub CanMove : MovableSource → MovableSource → Type 0
CanMove s d =
    (str_eq s.mount d.mount ≡ false)
    × ((d.source.running || d.source.on_demand) ≡ true)
    × (is_unavailable s ≡ false)
    × (formats_differ s.format d.format ≡ false)

pub record Moved (s d : MovableSource) (r : Move) : Type 0 where
  pub from : IsSource r.from.source
  pub to : IsSource r.to.source
  pub conserved : clients_of r.from + clients_of r.to ≡ clients_of s + clients_of d
  pub emptied : CanMove s d → clients_of r.from ≡ 0

module _ (t : TreeInsert) (s d : MovableSource) (v : IsSource s.source)
    (w : IsSource d.source) where
  pass_all-Moved : Moved s d (pass_all t s d)
  unfolding pass_all references
  pass_all-Moved =
      let src = s.source in
      let dst = d.source in
      let p = pass_clients t s.has_con src.pending_tree src.stream.stream_data dst.pending_tree 0 in
      let first =
        pass_clients-Passed src.pending_tree t (refs_with no_refs src.client_tree) s.has_con
          src.stream src.stream.stream_data dst.pending_tree 0 v.pending_fit
          (IsStream-ext (refs_with-exchange no_refs src.pending_tree src.client_tree) v.stream) in
      let both =
        pass_clients-Passed src.client_tree t no_refs s.has_con src.stream p.queue p.pending p.count
          v.clients_fit first.stream in
      record {
        from = record {
          stream = both.stream;
          clients_fit = tt;
          pending_fit = tt;
          counted = refl;
          within = Within-le src.max_listeners (length src.client_tree) 0 (omega arith) v.within;
        };
        to = record {
          stream =
              IsStream-ext
                (λ x. sym (
                  refs_with-ext _ _ dst.client_tree
                    (λ y. both.same_refs no_refs y ∙ first.same_refs no_refs y) x))
                w.stream;
          clients_fit = w.clients_fit;
          pending_fit = both.fits (first.fits w.pending_fit);
          counted = w.counted;
          within = w.within;
        };
        conserved = omega (arith, both.all_there, first.all_there);
        emptied = λ _. refl;
      }

  unmoved : ¬ CanMove s d → Moved s d (record { from = s; to = d })
  unmoved stuck = record { from = v; to = w; conserved = refl; emptied = λ can. absurd (stuck can) }

  -- Whatever `source_move_clients` decides, both sources stay well formed and no client is lost; and if
  -- the mounts differ, the destination is active, the source is available and the formats do not
  -- differ, the source has no client left.
  pub move_clients-Moved : Moved s d (move_clients t s d)
  unfolding move_clients
  move_clients-Moved = elim (Bool-cases (str_eq s.mount d.mount)) [
    | inl e ↦ simp e (unmoved (λ can. cc (can.0)))
    | inr e ↦ elim (Bool-cases (not d.source.running && not d.source.on_demand)) [
      | inl k ↦ simp (e, k) (unmoved (λ can. ground (arith, can.1)))
      | inr k ↦ elim (Bool-cases (is_unavailable s)) [
        | inl u ↦ simp (e, k, u) (unmoved (λ can. cc (can.2)))
        | inr u ↦ elim (Bool-cases (formats_differ s.format d.format)) [
          | inl g ↦ simp (e, k, u, g) (unmoved (λ can. cc (can.3)))
          | inr g ↦ simp (e, k, u, g) pass_all-Moved
        ]
      ]
    ]
  ]
