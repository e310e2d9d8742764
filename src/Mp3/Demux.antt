-- ===== src/Mp3/Demux.antt =====
-- An independent description of a stream with inline metadata, one byte at a time: after `interval`
-- bytes of audio comes a block, whose first byte counts its further bytes in units of 16.
use icecast_server.Prelude.{
  ℕ, suc, ◌+◌, ◌*◌, ◌≤◌, ◌<◌, ◌≡◌, refl, sym, ap, true, false, List, [], ◌∷◌, ◌++◌, arith, ltb,
  ◌==◌, if◌then◌else◌, length, map, Bytes, append_assoc, append-nil, length-append,
}

pub data Output : Type 0 where
  audio : ℕ → Output
  block : Bytes → Output

pub record Demux : Type 0 where
  pub interval : ℕ
  -- bytes of audio since the last block
  pub since : ℕ
  -- what there is of the block
  pub part : Bytes

-- The length of the block that begins so.
abbrev pub block_size : Bytes → ℕ
block_size [] = 1
block_size (count ∷ rest) = 1 + count * 16

unfoldable pub demux_byte : Demux → ℕ → Demux × List Output
demux_byte d b =
    let part = d.part ++ b ∷ [] in
    if ltb d.since d.interval
    then (record d { since = d.since + 1 }, audio b ∷ [])
    else if length part == block_size part
    then (record d { since = 0; part = [] }, block part ∷ [])
    else (record d { part = part }, [])

unfoldable pub feed : Demux → Bytes → Demux × List Output
unfolding demux_byte
feed d [] = (d, [])
feed d (b ∷ bs) =
    let (d', out) = demux_byte d b in let (d'', rest) = feed d' bs in (d'', out ++ rest)

pub feed-append :
    (xs ys : Bytes) (d : Demux)
    → feed d (xs ++ ys) ≡ ((feed (feed d xs).0 ys).0, (feed d xs).1 ++ (feed (feed d xs).0 ys).1)
unfolding feed
feed-append [] ys d = refl
feed-append (x ∷ xs) ys d = rw (feed-append xs ys (demux_byte d x).0, append_assoc) refl

same_since : (d : Demux) → record d { since = d.since + 0 } ≡ d
same_since d = let e : d.since + 0 ≡ d.since = omega arith in ap (λ k. record d { since = k }) e

-- Bytes up to the interval are audio.
pub feed-audio :
    (xs : Bytes) (d : Demux)
    → d.since + length xs ≤ d.interval
    → feed d xs ≡ (record d { since = d.since + length xs }, map audio xs)
unfolding feed demux_byte
feed-audio [] d h = ap (λ k. (k, [])) (sym (same_since d))
feed-audio (x ∷ xs) d h =
    let below : ltb d.since d.interval ≡ true = ground (arith, h) in
    let next : d.since + 1 + length xs ≡ d.since + suc (length xs) = omega arith in
    let ih = feed-audio xs (record d { since = d.since + 1 }) (omega arith) in
    simp (below, ih, next) refl

abbrev Nonempty : Bytes → Type 0
Nonempty [] = ⊥
Nonempty (x ∷ xs) = Unit

Nonempty-end : (xs : Bytes) (x : ℕ) → Nonempty (xs ++ x ∷ [])
Nonempty-end [] x = tt
Nonempty-end (y ∷ xs) x = tt

block_size-append : (xs ys : Bytes) → Nonempty xs → block_size (xs ++ ys) ≡ block_size xs
block_size-append [] ys h = absurd h
block_size-append (x ∷ xs) ys h = refl

end_first : (xs ys : Bytes) (x : ℕ) → xs ++ x ∷ ys ≡ (xs ++ x ∷ []) ++ ys
end_first xs ys x = sym (append_assoc xs (x ∷ []) ys)

-- Bytes of a block that they do not complete are kept.
pub feed-part :
    (xs : Bytes) (d : Demux)
    → d.interval ≤ d.since
    → length (d.part ++ xs) < block_size (d.part ++ xs)
    → feed d xs ≡ (record d { part = d.part ++ xs }, [])
unfolding feed demux_byte
feed-part [] d h k = ap (λ (p : Bytes). (record d { part = p }, [])) (sym (append-nil d.part))
feed-part (x ∷ xs) d h k =
    let full : ltb d.since d.interval ≡ false = ground (arith, h) in
    let so_far = d.part ++ x ∷ [] in
    let all = end_first d.part xs x in
    let same = block_size-append so_far xs (Nonempty-end d.part x) in
    let k' : length (so_far ++ xs) < block_size (so_far ++ xs) = rw all at k in
    let open_part : length so_far == block_size so_far ≡ false =
      ground (arith, k', same, length-append so_far xs) in
    let ih = feed-part xs (record d { part = so_far }) h k' in simp (full, open_part, ih, all) refl

open_before :
    (p : Bytes) (x : ℕ) → length (p ++ x ∷ []) ≡ block_size (p ++ x ∷ []) → length p < block_size p
open_before [] x h = omega arith
open_before (y ∷ p) x h = omega (arith, h, length-append p (x ∷ []))

-- The bytes that complete a block give the block, and the count of audio begins again.
pub feed-whole :
    (xs : Bytes) (x : ℕ) (d : Demux)
    → d.interval ≤ d.since
    → length (d.part ++ xs ++ x ∷ []) ≡ block_size (d.part ++ xs ++ x ∷ [])
    → feed d (xs ++ x ∷ [])
      ≡ (record d { since = 0; part = [] }, block (d.part ++ xs ++ x ∷ []) ∷ [])
unfolding feed demux_byte
feed-whole xs x d h k =
    let full : ltb d.since d.interval ≡ false = ground (arith, h) in
    let done : length ((d.part ++ xs) ++ x ∷ []) == block_size ((d.part ++ xs) ++ x ∷ []) ≡ true =
      ground (arith, k) in
    rw (feed-append xs (x ∷ []) d, feed-part xs d h (open_before (d.part ++ xs) x k))
      (simp (full, done) refl)
