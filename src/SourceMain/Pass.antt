-- ===== src/SourceMain/Pass.antt =====
-- Well-formedness of a source, through one pass of the loop of `source_main` in src/source.c.
use icecast_server.Prelude.{
  inr, inl, ◌==◌, Bool-cases, ◌+◌, ◌≤◌, ℕ, ◌%◌, Bool, true, false, List, [], ◌∷◌, ◌≡◌, refl, ◌∙◌,
  arith, Option, none, some, length,
}
use icecast_server.Stream.{Stream, must_reduce}
use icecast_server.Stream.Counts.{ids}
use icecast_server.Stream.Invariant.{IsStream, append_buffer-IsStream, reduce_any-IsStream}
use icecast_server.Stream.References.{IsStream-ext}
use icecast_server.Listener.{Client, Env}
use icecast_server.SourceMain.Admit.{Within, admit_clients-AdmitInv}
use icecast_server.SourceMain.Serve.{
  refs_with, with_ref-ext, refs_with-with_ref, AllFit, serve_clients-ServeInv,
}
use icecast_server.SourceMain.{
  serve_and_admit, TreeInsert, Source, u64, serve_clients, take_buffer, drop_listeners,
  update_listeners, main_pass,
}

abbrev pub no_refs : ℕ → ℕ
no_refs p = 0

-- The references that the listeners and the pending clients hold.
unfoldable pub references : Source → ℕ → ℕ
references s = refs_with (refs_with no_refs s.pending_tree) s.client_tree

pub record IsSource (s : Source) : Type 0 where
  pub stream : IsStream (references s) s.stream
  pub clients_fit : AllFit s.client_tree
  pub pending_fit : AllFit s.pending_tree
  pub counted : s.listeners ≡ length s.client_tree % u64
  pub within : Within s.max_listeners (length s.client_tree)

pub refs_with-exchange :
    (base : ℕ → ℕ) (cs ds : List Client) (x : ℕ)
    → refs_with (refs_with base cs) ds x ≡ refs_with (refs_with base ds) cs x
refs_with-exchange base cs [] x = refl
refs_with-exchange base cs (d ∷ ds) x =
    with_ref-ext d.refbuf _ _ (refs_with-exchange base cs ds) x
    ∙ refs_with-with_ref (refs_with base ds) d.refbuf cs x

take_buffer-IsStream :
    (refs : ℕ → ℕ) (o : Option (ℕ × Bool)) (s : Stream)
    → IsStream refs s
    → IsStream refs (take_buffer o s)
take_buffer-IsStream refs none s v = v
take_buffer-IsStream refs (some (n, sync)) s v = (append_buffer-IsStream refs s v n sync).0

-- `listeners--` for the clients that were removed
drop_listeners-length :
    (n kept removed all : ℕ)
    → kept + removed ≡ all
    → n ≡ all % u64
    → drop_listeners n removed ≡ kept % u64
drop_listeners-length n kept removed all e h = omega arith

pub Within-le : (max : Option ℕ) (n k : ℕ) → k ≤ n → Within max n → Within max k
Within-le none n k h w = tt
Within-le (some m) n k h w = (omega arith, w.1)

module _ (t : TreeInsert) (env : Env) (incoming : Option (ℕ × Bool)) (lost : Bool) (s : Source)
    (v : IsSource s) where
  serve_and_admit-IsSource : IsSource (serve_and_admit t env incoming lost s)
  unfolding serve_and_admit references
  serve_and_admit-IsSource =
      let s1 = take_buffer incoming s.stream in
      let pending = refs_with no_refs s.pending_tree in
      let served =
        serve_clients-ServeInv s.client_tree (ids s1.stream_data) pending env (must_reduce s1) s1
          false (take_buffer-IsStream (references s) incoming s.stream v.stream) v.clients_fit
          refl in
      let r = serve_clients env (must_reduce s1) s1 false s.client_tree in
      let admitted =
        admit_clients-AdmitInv s.pending_tree t s.max_listeners no_refs s1 r.kept r.queue
          (drop_listeners s.listeners r.removed)
          (IsStream-ext (refs_with-exchange no_refs s.pending_tree r.kept) served.stream)
          v.pending_fit served.fits
          (drop_listeners-length s.listeners (length r.kept) r.removed _ served.counted v.counted)
          (Within-le s.max_listeners (length s.client_tree) _ (omega (arith, served.counted))
            v.within) in
      record {
        stream = admitted.stream;
        clients_fit = admitted.fits;
        pending_fit = tt;
        counted = admitted.counted;
        within = admitted.within;
      }

-- The update of the counts touches neither the queue nor the trees.
update_listeners-IsSource : (s : Source) → IsSource s → IsSource (update_listeners s)
unfolding update_listeners references
update_listeners-IsSource s v = elim (Bool-cases (s.listeners == s.prev_listeners)) [
  | inl e ↦ simp e v
  | inr e ↦ simp e (record {
    stream = v.stream;
    clients_fit = v.clients_fit;
    pending_fit = v.pending_fit;
    counted = v.counted;
    within = v.within;
  })
]

update_listeners-running :
    (s : Source) → s.running ≡ true → s.on_demand ≡ false → (update_listeners s).running ≡ true
unfolding update_listeners
update_listeners-running s r d = ground arith

-- A pass keeps a source well formed: each buffer of the queue counts exactly the queue, the burst and
-- the listeners that refer to it, no listener refers to a freed buffer, and the listeners are counted
-- and within `max_listeners`. The queue state is never the unexpected one: a source that is not on
-- demand and that did not lose its connection goes on running.
pub main_pass-IsSource :
    (t : TreeInsert) (env : Env) (incoming : Option (ℕ × Bool)) (lost : Bool) (s : Source)
    → IsSource s
    → IsSource (main_pass t env incoming lost s)
      × (s.running ≡ true
          → s.on_demand ≡ false
          → lost ≡ false
          → (main_pass t env incoming lost s).running ≡ true)
unfolding main_pass
main_pass-IsSource t env incoming lost s v =
    let updated = update_listeners (serve_and_admit t env incoming lost s) in
    let w =
      update_listeners-IsSource (serve_and_admit t env incoming lost s)
        (serve_and_admit-IsSource t env incoming lost s v) in
    let (fine, reduced) = reduce_any-IsStream (references updated) updated.stream w.stream in
    (
      record {
        stream = unfold references in reduced;
        clients_fit = w.clients_fit;
        pending_fit = w.pending_fit;
        counted = w.counted;
        within = w.within;
      },
      λ r d l.
          rw fine (update_listeners-running (serve_and_admit t env incoming lost s) (simp l r) d),
    )
