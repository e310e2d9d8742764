-- ===== src/Ebml/Loop.antt =====
-- The loop of `ebml_wrote`.
use icecast_server.Prelude.{
  drop, All-append, subst, length, append_assoc, All, starts_with, Bytes, zero, suc, ◌+◌, ◌*◌, ◌<◌,
  ◌≡◌, refl, sym, ap, ◌∙◌, inl, inr, true, Option, none, some, [], ◌∷◌, ◌++◌, arith, ℕ,
}
use icecast_server.Ebml.Numbers.{Parsed, parse_tag}
use icecast_server.Ebml.State.{
  ParsingState, parsing_header, copying_to_header, start_cluster, parsing_clusters, copying_to_data,
  Ebml, cluster_magic,
}
use icecast_server.Ebml.Parser.{
  Round, goes_on, waits, fails, copy_to_header, copy_to_data, round_at, Wrote, wrote, failed,
  out_of_fuel, rounds, ebml_wrote,
}
use icecast_server.Ebml.Digits.{IsByte}
use icecast_server.Ebml.Tags.{parse_tag-SaysTag, Same, parse_tag-append}
use icecast_server.Ebml.InOrder.{View, view, IsClusterTag, StateFits, StartFits, InOrder}
use icecast_server.Ebml.Moves.{Keeps, rank}
use icecast_server.Ebml.Begins.{parse_element-Keeps, begin_cluster-Keeps}
use icecast_server.Ebml.CopiesData.{copy_to_data-Keeps}
use icecast_server.Ebml.Copies.{copy_to_header-Keeps}

-- A state that copies is at the end of its element.
nothing_added :
    (captured : Option Bytes) (came sent : Bytes) (n : ℕ) (r : Round)
    → Keeps captured came sent n r
    → Keeps captured came sent (n + 0) r
nothing_added captured came sent n r k =
    let e : n + 0 ≡ n = omega arith in subst (λ (m : ℕ). Keeps captured came sent m r) (sym e) k

module _ (captured : Option Bytes) (came sent : Bytes) where
  round_at-Keeps :
      (p : ParsingState) (s : Ebml) (todo : Bytes)
      → s.parse_state ≡ p
      → InOrder captured came sent (view s) todo
      → Keeps captured came sent (3 * length todo + rank p) (round_at p s todo)
  unfolding round_at
  round_at-Keeps parsing_header s todo e i =
      parse_element-Keeps captured came sent s todo i (parse_tag todo) (inl e) refl
        (parse_tag-SaysTag todo i.bytes)
  round_at-Keeps parsing_clusters s todo e i =
      parse_element-Keeps captured came sent s todo i (parse_tag todo) (inr e) refl
        (parse_tag-SaysTag todo i.bytes)
  round_at-Keeps start_cluster s todo e i =
      begin_cluster-Keeps captured came sent s todo i e
        (subst (λ (p : ParsingState). StateFits p s.copy_len todo) e i.state)
  round_at-Keeps copying_to_header s todo e i =
      nothing_added captured came sent (3 * length todo) (copy_to_header s todo)
        (copy_to_header-Keeps captured came sent s todo i e)
  round_at-Keeps copying_to_data s todo e i =
      nothing_added captured came sent (3 * length todo) (copy_to_data s todo)
        (copy_to_data-Keeps captured came sent s todo i e)

-- The loop has ended with the bytes in order, or with an error, and not for want of fuel.
abbrev pub Done : Option Bytes → Bytes → Bytes → Wrote → Type 0
Done captured came sent (wrote s) = InOrder captured came sent (view s) s.input_buffer
Done captured came sent (failed s) = Unit
Done captured came sent (out_of_fuel s) = ⊥

module _ (captured : Option Bytes) (came sent : Bytes) where
  rounds-Done :
      (n : ℕ) (s : Ebml) (todo : Bytes)
      → InOrder captured came sent (view s) todo
      → 3 * length todo + rank s.parse_state < n
      → Done captured came sent (rounds n s todo)
  unfolding rounds
  rounds-Done zero s todo i h = absurd (omega (arith, h))
  rounds-Done (suc n) s todo i h =
      after (round_at s.parse_state s todo)
        (round_at-Keeps captured came sent s.parse_state s todo refl i)
        (λ s' todo' i' less. rounds-Done n s' todo' i' (omega (arith, h, less)))
    where
      after :
          (r : Round)
          → Keeps captured came sent (3 * length todo + rank s.parse_state) r
          → ((s' : Ebml) (todo' : Bytes)
              → InOrder captured came sent (view s') todo'
              → 3 * length todo' + rank s'.parse_state < 3 * length todo + rank s.parse_state
              → Done captured came sent (rounds n s' todo'))
          → Done captured came sent (elim r [
            | goes_on s' todo' ↦ rounds n s' todo'
            | waits s' todo' ↦ wrote (record s' { input_buffer = todo' })
            | fails s' todo' ↦ failed s'
          ])
      after (goes_on s' todo') (i', less) next = next s' todo' i' less
      after (waits s' todo') i' next = i'
      after (fails s' todo') i' next = tt

starts_with-append :
    (prefix s more : Bytes) → starts_with prefix s ≡ true → starts_with prefix (s ++ more) ≡ true
unfolding starts_with
starts_with-append [] s more h = refl
starts_with-append (x ∷ prefix) [] more h = absurd (cc h)
starts_with-append (x ∷ prefix) (y ∷ s) more h = ground (arith, starts_with-append prefix s more, h)

IsClusterTag-append :
    (todo more : Bytes) → All IsByte todo → IsClusterTag todo → IsClusterTag (todo ++ more)
IsClusterTag-append todo more a t = record {
  length_of = t.length_of;
  payload = t.payload;
  parses =
      subst (λ (r : Parsed). Same r (parse_tag (todo ++ more))) t.parses
        (parse_tag-append todo more a);
  long = t.long;
  magic = starts_with-append cluster_magic todo more t.magic;
}

StateFits-append :
    (p : ParsingState) (len : ℕ) (todo more : Bytes)
    → All IsByte todo
    → StateFits p len todo
    → StateFits p len (todo ++ more)
StateFits-append parsing_header len todo more a h = tt
StateFits-append parsing_clusters len todo more a h = tt
StateFits-append copying_to_header len todo more a h = h
StateFits-append copying_to_data len todo more a h = h
StateFits-append start_cluster len todo more a h = IsClusterTag-append todo more a h

StartFits-append :
    (o : Option ℕ) (v : View) (todo more : Bytes)
    → StartFits o v todo
    → StartFits o v (todo ++ more)
StartFits-append none v todo more h = tt
StartFits-append (some start) v todo more h = record {
  within = h.within;
  magic =
      ap (starts_with cluster_magic) (sym (append_assoc (drop start v.buffer) todo more))
      ∙ starts_with-append cluster_magic (drop start v.buffer ++ todo) more h.magic;
  shown = h.shown;
}

-- More bytes come.
InOrder-append :
    (captured : Option Bytes) (came sent : Bytes) (v : View) (todo more : Bytes)
    → All IsByte more
    → InOrder captured came sent v todo
    → InOrder captured (came ++ more) sent v (todo ++ more)
InOrder-append captured came sent v todo more a i = record {
  order = behind ∙ ap (λ (x : Bytes). x ++ more) i.order;
  bytes = All-append IsByte todo more i.bytes a;
  state = StateFits-append v.parse_state v.copy_len todo more i.bytes i.state;
  header = i.header;
  kept = i.kept;
  reader = i.reader;
  start = StartFits-append v.cluster_start v todo more i.start;
  buffer_within = i.buffer_within;
  header_within = i.header_within;
}
  where
    behind :
        v.header ++ (sent ++ (v.buffer ++ (todo ++ more)))
        ≡ (v.header ++ (sent ++ (v.buffer ++ todo))) ++ more
    behind =
        ap (λ (x : Bytes). v.header ++ (sent ++ x)) (sym (append_assoc v.buffer todo more))
        ∙ ap (λ (x : Bytes). v.header ++ x) (sym (append_assoc sent (v.buffer ++ todo) more))
        ∙ sym (append_assoc v.header (sent ++ (v.buffer ++ todo)) more)

-- From a state with its bytes in order, ebml_wrote ends, and unless it returns -1 the state has the
-- bytes in order with the new ones: header, sent bytes, buffer and input make up what came, header and
-- buffer are within 131072 and 4096 bytes, and the cluster at cluster_start begins with its magic.
pub ebml_wrote-Done :
    (captured : Option Bytes) (came sent : Bytes) (s : Ebml) (bytes : Bytes)
    → All IsByte bytes
    → InOrder captured came sent (view s) s.input_buffer
    → Done captured (came ++ bytes) sent (ebml_wrote s bytes)
unfolding ebml_wrote
ebml_wrote-Done captured came sent s bytes a i =
    let input = s.input_buffer ++ bytes in
    rounds-Done captured (came ++ bytes) sent (3 * length input + 3)
      (record s { input_buffer = input }) input
      (InOrder-append captured came sent (view s) s.input_buffer bytes a i)
      (fuel (length input) s.parse_state)
  where
    fuel : (n : ℕ) (p : ParsingState) → 3 * n + rank p < 3 * n + 3
    fuel n parsing_header = omega arith
    fuel n parsing_clusters = omega arith
    fuel n start_cluster = omega arith
    fuel n copying_to_header = omega arith
    fuel n copying_to_data = omega arith
