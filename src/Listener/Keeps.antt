-- ===== src/Listener/Keeps.antt =====
-- Well-formedness of the queue with one listener, and the moves of its reference.
use icecast_server.Prelude.{List, ◌∙◌, ℕ, ◌≡◌, refl, arith, Option, none, some}
use icecast_server.Stream.Counts.{ids, ids-addref, ids-release, Holds, plus_at}
use icecast_server.Stream.Invariant.{IsStream}
use icecast_server.Stream.References.{IsStream-ext, addref-IsStream, release-IsStream}
use icecast_server.Stream.{Queue, Stream}
use icecast_server.Listener.Places.{start_buffer-Holds}
use icecast_server.Listener.Start.{start_buffer}
use icecast_server.Listener.Types.{
  CheckBuffer, advance_queue, BufferRef, no_buffer, own, queued, Client, add_own, release_ref,
  set_queue, Checked, give_up, start_at, find_client_start,
}

-- The listeners' references with that of one more client.
abbrev pub with_ref : BufferRef → (ℕ → ℕ) → ℕ → ℕ
with_ref (queued p) refs = plus_at p refs
with_ref _ refs = refs

abbrev pub HeldBy : BufferRef → Stream → Type 0
HeldBy (queued p) s = Holds p s.stream_data
HeldBy _ s = Unit

-- Only a client that advances along the queue refers to a buffer of it.
abbrev pub Fits : CheckBuffer → BufferRef → Type 0
Fits k (queued p) = k ≡ advance_queue
Fits k _ = Unit

module _ (others : ℕ → ℕ) where
  pub release_ref-IsStream :
      (r : BufferRef) (s : Stream)
      → IsStream (with_ref r others) s
      → IsStream others (record s { stream_data = release_ref r s.stream_data })
  release_ref-IsStream no_buffer s v = v
  release_ref-IsStream (own n) s v = v
  release_ref-IsStream (queued p) s v = release-IsStream others p s v

  -- The reference to come and the old one, in either order.
  pub with_ref_comm :
      (r r' : BufferRef) (x : ℕ)
      → with_ref r (with_ref r' others) x ≡ with_ref r' (with_ref r others) x
  with_ref_comm (queued p) (queued p') x = ground arith
  with_ref_comm (queued p) _ x = refl
  with_ref_comm _ r' x = refl

module _ (others : ℕ → ℕ) where
  add_own-IsStream :
      (r : BufferRef) (s : Stream)
      → HeldBy r s
      → IsStream others s
      → IsStream (with_ref r others) (record s { stream_data = add_own r s.stream_data })
  add_own-IsStream no_buffer s h v = v
  add_own-IsStream (own n) s h v = v
  add_own-IsStream (queued p) s h v = addref-IsStream others p s h v

-- `client_set_queue` moves the client's reference.
pub set_queue-IsStream :
    (others : ℕ → ℕ) (r : BufferRef) (c : Client) (s : Stream)
    → HeldBy r s
    → IsStream (with_ref c.refbuf others) s
    → IsStream (with_ref r others) (record s { stream_data = (set_queue r c s.stream_data).1 })
unfolding set_queue
set_queue-IsStream others r c s h v =
    release_ref-IsStream (with_ref r others) c.refbuf
      (record s { stream_data = add_own r s.stream_data })
      (IsStream-ext (with_ref_comm others r c.refbuf)
        (add_own-IsStream (with_ref c.refbuf others) r s h v))

-- No reference changes which buffers the queue has.
pub ids-release_ref : (r : BufferRef) (q : Queue) → ids (release_ref r q) ≡ ids q
ids-release_ref no_buffer q = refl
ids-release_ref (own n) q = refl
ids-release_ref (queued p) q = ids-release p q

ids-add_own : (r : BufferRef) (q : Queue) → ids (add_own r q) ≡ ids q
ids-add_own no_buffer q = refl
ids-add_own (own n) q = refl
ids-add_own (queued p) q = ids-addref p q

pub ids-set_queue : (r : BufferRef) (c : Client) (q : Queue) → ids (set_queue r c q).1 ≡ ids q
unfolding set_queue
ids-set_queue r c q = ids-release_ref c.refbuf (add_own r q) ∙ ids-add_own r q

-- A client and its source's queue, with the other listeners' references.
pub record Served (l : List ℕ) (others : ℕ → ℕ) (s : Stream) (c : Client) : Type 0 where
  pub stream : IsStream (with_ref c.refbuf others) s
  pub fits : Fits c.check_buffer c.refbuf
  pub same_ids : ids s.stream_data ≡ l

abbrev pub with_queue : Stream → Queue → Stream
with_queue s q = record s { stream_data = q }

abbrev pub CheckServed : List ℕ → (ℕ → ℕ) → Stream → Checked → Type 0
CheckServed l others s r = Served l others (with_queue s r.queue) r.client

module _ (l : List ℕ) (others : ℕ → ℕ) (s : Stream) (c : Client) (v : Served l others s c) where
  pub start_at-Served :
      (o : Option ℕ)
      → ((p : ℕ) → o ≡ some p → Holds p s.stream_data)
      → CheckServed l others s (start_at o s c)
  unfolding start_at
  start_at-Served none h = v
  start_at-Served (some p) h = record {
    stream = set_queue-IsStream others (queued p) c s (h p refl) v.stream;
    fits = refl;
    same_ids = ids-set_queue (queued p) c s.stream_data ∙ v.same_ids;
  }

  pub find_client_start-Served : CheckServed l others s (find_client_start s c)
  unfolding find_client_start
  find_client_start-Served =
      start_at-Served (start_buffer s c.intro_offset) (start_buffer-Holds s c.intro_offset)

  give_up-Served : CheckServed l others s (give_up c s.stream_data)
  give_up-Served = v
