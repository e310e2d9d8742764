-- ===== src/Ebml/Moves.antt =====
-- The rounds that copy nothing.
use icecast_server.Prelude.{
  subst, by_test, length, Bytes, ◌+◌, ◌*◌, ◌<◌, ◌≡◌, refl, sym, ap, ◌≢◌, ◌⊎◌, inl, inr, Bool, true,
  false, not, ◌&&◌, Option, none, some, ◌==◌, ℕ,
}
use icecast_server.Ebml.Numbers.{unknown}
use icecast_server.Ebml.State.{
  ParsingState, parsing_header, copying_to_header, start_cluster, parsing_clusters, copying_to_data,
  Ebml,
}
use icecast_server.Ebml.Parser.{Round, goes_on, waits, fails, check_track, copy_state}
use icecast_server.Ebml.InOrder.{
  View, view, StateFits, in_header, is_early, HeaderFits, StartFits, InOrder,
}

-- How many rounds a state is from one that copies.
abbrev pub rank : ParsingState → ℕ
rank parsing_header = 2
rank parsing_clusters = 2
rank start_cluster = 1
rank copying_to_header = 0
rank copying_to_data = 0

-- A round keeps the order, and another one is nearer to the end.
abbrev pub Keeps : Option Bytes → Bytes → Bytes → ℕ → Round → Type 0
Keeps captured came sent before (goes_on s todo) =
    InOrder captured came sent (view s) todo × (3 * length todo + rank s.parse_state < before)
Keeps captured came sent before (waits s todo) = InOrder captured came sent (view s) todo
Keeps captured came sent before (fails s todo) = Unit

abbrev pub goto : ParsingState → ℕ → View → View
goto state len v = record v { parse_state = state; copy_len = len }

pub StartFits-goto :
    (state : ParsingState) (len : ℕ) (o : Option ℕ) (v : View) (todo : Bytes)
    → v.parse_state ≢ copying_to_data
    → StartFits o v todo
    → StartFits o (goto state len v) todo
StartFits-goto state len none v todo n h = tt
StartFits-goto state len (some start) v todo n h = record {
  within = h.within;
  magic = h.magic;
  shown = elim h.shown [ inl there ↦ inl there | inr (copies, flush, room) ↦ absurd (n copies) ];
}

pub HeaderFits-goto :
    (state : ParsingState) (len : ℕ) (v : View) (sent : Bytes)
    → (is_early v.parse_state ≡ true → is_early state ≡ true)
    → (in_header v.parse_state ≡ false → in_header state ≡ false)
    → HeaderFits v sent
    → HeaderFits (goto state len v) sent
HeaderFits-goto state len v sent e h (inl b) = inl (record {
  early = e b.early;
  none_sent = b.none_sent;
  empty = b.empty;
  no_start = b.no_start;
  no_size = b.no_size;
})
HeaderFits-goto state len v sent e h (inr (size, past)) = inr (size, h past)

pub InOrder-goto :
    (captured : Option Bytes) (came sent : Bytes) (state : ParsingState) (len : ℕ) (v : View)
    (todo : Bytes)
    → InOrder captured came sent v todo
    → v.parse_state ≢ copying_to_data
    → (is_early v.parse_state ≡ true → is_early state ≡ true)
    → (in_header v.parse_state ≡ false → in_header state ≡ false)
    → StateFits state len todo
    → InOrder captured came sent (goto state len v) todo
InOrder-goto captured came sent state len v todo i n e h f = record {
  order = i.order;
  bytes = i.bytes;
  state = f;
  header = HeaderFits-goto state len v sent e h i.header;
  kept = i.kept;
  reader = i.reader;
  start = StartFits-goto state len v.cluster_start v todo n i.start;
  buffer_within = i.buffer_within;
  header_within = i.header_within;
}

-- An element is being parsed, in the header or in a cluster.
abbrev pub IsParsing : ParsingState → Type 0
IsParsing p = (p ≡ parsing_header) ⊎ (p ≡ parsing_clusters)

abbrev pub is_copying_data : ParsingState → Bool
is_copying_data copying_to_data = true
is_copying_data _ = false

-- What is to be known of a state before the move to the one that copies.
pub record MayCopy (p : ParsingState) : Type 0 where
  pub not_copying : p ≢ copying_to_data
  pub early : is_early p ≡ true → is_early (copy_state p) ≡ true
  pub past : in_header p ≡ false → in_header (copy_state p) ≡ false
  pub fits : (len : ℕ) (todo : Bytes) → 0 < len → StateFits (copy_state p) len todo
  pub last : rank (copy_state p) ≡ 0

pub not_copying : (p : ParsingState) → is_copying_data p ≡ false → p ≢ copying_to_data
not_copying p h e = cc (h, ap is_copying_data e)

pub IsParsing-MayCopy : (p : ParsingState) → IsParsing p → MayCopy p
IsParsing-MayCopy p (inl e) = subst MayCopy (sym e) (record {
  not_copying = not_copying parsing_header refl;
  early = λ h. refl;
  past = λ h. cc h;
  fits = λ len todo h. h;
  last = refl;
})
IsParsing-MayCopy p (inr e) = subst MayCopy (sym e) (record {
  not_copying = not_copying parsing_clusters refl;
  early = λ h. cc h;
  past = λ h. refl;
  fits = λ len todo h. h;
  last = refl;
})

pub rank-parsing : (p : ParsingState) → IsParsing p → rank p ≡ 2
rank-parsing p (inl e) = ap rank e
rank-parsing p (inr e) = ap rank e

pub check_track-view : (s : Ebml) → view (check_track s) ≡ view s
unfolding check_track
check_track-view s =
    by_test (λ (x : Ebml). view x ≡ view s)
      (s.keyframe_track_number == unknown
        && s.parsing_track_is_video
        && not (s.parsing_track_number == unknown))
      _ _ (λ h. refl) (λ h. refl)
