-- ===== src/Playlist/Kept.antt =====
-- The tracks of a playlist after `playlist_push_track` of src/playlist.c.
use icecast_server.Prelude.{
  length-drop, false, ◌∙◌, ℕ, ◌+◌, ◌-◌, ◌≤◌, ◌≡◌, refl, ap, List, [], ◌∷◌, ◌++◌, Option, ℤ, pos,
  negsuc, zero, suc, ltb, drop, length, arith, Bool-cases, inl, inr, length-append,
}
use icecast_server.Playlist.{
  Track, Playlist, Comment, blank, is_over, drop_tracks, read_tags, write_last, push_track,
}

-- How many of so many tracks have to go.
abbrev pub excess : ℤ → ℕ → ℕ
excess (negsuc m) num = 0
excess (pos zero) num = 0
excess (pos (suc m)) num = num - suc m

write_last-append :
    (f : Track → Track) (ts : List Track) (t : Track) → write_last f (ts ++ t ∷ []) ≡ ts ++ f t ∷ []
unfolding write_last
write_last-append f [] t = refl
write_last-append f (u ∷ []) t = refl
write_last-append f (u ∷ v ∷ ts) t = ap (◌∷◌ u) (write_last-append f (v ∷ ts) t)

over_by_limit : (m num : ℕ) → is_over (pos (suc m)) num ≡ ltb (suc m) num
unfolding is_over
over_by_limit m num = ground arith

drop_tracks-limit :
    (ts : List Track) (m : ℕ) (t : Track)
    → drop_tracks (pos (suc m)) (length ts + 1) (ts ++ t ∷ [])
      ≡ drop (length ts + 1 - suc m) ts ++ t ∷ []
unfolding drop_tracks
drop_tracks-limit [] m t =
    let none_goes : ltb (suc m) (0 + 1) ≡ false = ground arith in
    let zero_drops : 1 - suc m ≡ 0 = omega arith in
    rw (over_by_limit m 1, none_goes, zero_drops) refl
drop_tracks-limit (u ∷ ts) m t = elim (Bool-cases (ltb (suc m) (length (u ∷ ts) + 1))) [
  | inl h ↦
      let more : length (u ∷ ts) + 1 - suc m ≡ suc (length ts + 1 - suc m) = ground (arith, h) in
      let fewer : length (u ∷ ts) + 1 - 1 ≡ length ts + 1 = omega arith in
      rw (over_by_limit m (length (u ∷ ts) + 1), h, more, fewer) (drop_tracks-limit ts m t)
  | inr h ↦
      let no_more : length (u ∷ ts) + 1 - suc m ≡ 0 = ground (arith, h) in
      rw (over_by_limit m (length (u ∷ ts) + 1), h, no_more) refl
]

never_over :
    (ts : List Track) (max : ℤ) (num : ℕ)
    → ((n : ℕ) → is_over max n ≡ false)
    → drop_tracks max num ts ≡ ts
unfolding drop_tracks
never_over [] max num h = refl
never_over (t ∷ ts) max num h = rw (h num) refl

drop_tracks-drop :
    (ts : List Track) (max : ℤ) (t : Track)
    → drop_tracks max (length ts + 1) (ts ++ t ∷ [])
      ≡ drop (excess max (length ts + 1)) ts ++ t ∷ []
drop_tracks-drop ts (negsuc m) t = never_over _ (negsuc m) _ (λ n. unfold is_over in refl)
drop_tracks-drop ts (pos zero) t = never_over _ (pos zero) _ (λ n. unfold is_over in refl)
drop_tracks-drop ts (pos (suc m)) t = drop_tracks-limit ts m t

-- Pushing a track leaves the tracks that were there, without the oldest ones in excess of the limit,
-- and then the new track with its tags; the new track itself always stays. If the limit is positive,
-- the tracks are then within it. The limit and the reference count are as before.
pub push_track-Kept :
    (vc : Option Comment) (p : Playlist)
    → ((push_track vc p).tracks
        ≡ drop (excess p.max_tracks (length p.tracks + 1)) p.tracks ++ read_tags vc blank ∷ [])
      × ((m : ℕ) → p.max_tracks ≡ pos (suc m) → length (push_track vc p).tracks ≤ suc m)
      × ((push_track vc p).max_tracks ≡ p.max_tracks)
      × ((push_track vc p).refc ≡ p.refc)
unfolding push_track
push_track-Kept vc p = (tracks, within, refl, refl)
  where
    tracks :
        (push_track vc p).tracks
        ≡ drop (excess p.max_tracks (length p.tracks + 1)) p.tracks ++ read_tags vc blank ∷ []
    tracks =
        rw (drop_tracks-drop p.tracks p.max_tracks blank) (write_last-append (read_tags vc) _ blank)

    within : (m : ℕ) → p.max_tracks ≡ pos (suc m) → length (push_track vc p).tracks ≤ suc m
    within m h =
        let kept = drop (excess p.max_tracks (length p.tracks + 1)) p.tracks in
        let size : length (push_track vc p).tracks ≡ length kept + 1 =
          ap length tracks ∙ length-append kept (read_tags vc blank ∷ []) in
        let left = length-drop (excess p.max_tracks (length p.tracks + 1)) p.tracks in
        let by_limit : excess p.max_tracks (length p.tracks + 1) ≡ length p.tracks + 1 - suc m =
          rw h refl in
        omega (arith, size, left, by_limit)
