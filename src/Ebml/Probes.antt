-- ===== src/Ebml/Probes.antt =====
-- The rounds that probe an element.
use icecast_server.Prelude.{
  starts_with, drop, subst, by_test, length, Bytes, ◌+◌, ◌*◌, ◌%◌, ◌^◌, ◌≤◌, ◌<◌, sym, ap, true,
  false, ◌&&◌, Option, [], ◌∷◌, arith, ltb, ◌==◌, ℕ,
}
use icecast_server.Ebml.Numbers.{
  unknown, Parsed, need_more, corrupt, parsed, parse_var_int, parse_sized_int,
}
use icecast_server.Ebml.State.{keyframe_unknown, does_not_start, starts_cluster, Ebml}
use icecast_server.Ebml.Parser.{
  check_track, copy_state, copy_element, keyframe_status, probe_flags, probe_track, probe_block,
  probe_number, probe_type, probe_element,
}
use icecast_server.Ebml.InOrder.{View, view, InOrder}
use icecast_server.Ebml.Moves.{Keeps, IsParsing, IsParsing-MayCopy, InOrder-goto, check_track-view}

mod64 : (len : ℕ) → 0 < len → len < 2 ^ 64 → 0 < len % 2 ^ 64
mod64 len h k = omega arith

module _ (captured : Option Bytes) (came sent : Bytes) where
  -- The element is copied next.
  copies :
      (s : Ebml) (todo : Bytes) (len : ℕ)
      → InOrder captured came sent (view s) todo
      → IsParsing s.parse_state
      → 0 < len
      → len < 2 ^ 64
      → Keeps captured came sent (3 * length todo + 2) (copy_element s todo len)
  unfolding copy_element
  copies s todo len i p some_len fits =
      let m = IsParsing-MayCopy s.parse_state p in
      let last = m.last in
      (
        InOrder-goto captured came sent (copy_state s.parse_state) (len % 2 ^ 64) (view s) todo i
            m.not_copying m.early m.past (m.fits (len % 2 ^ 64) todo (mod64 len some_len fits)),
        omega (arith, last),
      )

  -- The tracks do not matter.
  copies_checked :
      (s : Ebml) (todo : Bytes) (len : ℕ)
      → InOrder captured came sent (view s) todo
      → IsParsing s.parse_state
      → 0 < len
      → len < 2 ^ 64
      → Keeps captured came sent (3 * length todo + 2) (copy_element (check_track s) todo len)
  copies_checked s todo len i p some_len fits =
      let same = check_track-view s in
      copies (check_track s) todo len
        (subst (λ (v : View). InOrder captured came sent v todo) (sym same) i)
        (subst IsParsing (ap (λ (v : View). v.parse_state) (sym same)) p) some_len fits

  module _ (s : Ebml) (todo : Bytes) (i : InOrder captured came sent (view s) todo)
      (p : IsParsing s.parse_state) where
    module _ (len : ℕ) (some_len : 0 < len) (fits : len < 2 ^ 64) where
      probe_flags-Kept :
          (flags : Bytes)
          → Keeps captured came sent (3 * length todo + 2) (probe_flags s todo len flags)
      unfolding probe_flags
      probe_flags-Kept [] = i
      probe_flags-Kept (flags ∷ more) =
          copies (record s { cluster_starts_with_keyframe = keyframe_status flags }) todo len i p
            some_len fits

      probe_track-Kept :
          (block : Bytes) (r : Parsed)
          → Keeps captured came sent (3 * length todo + 2) (probe_track s todo len block r)
      unfolding probe_track
      probe_track-Kept block need_more = i
      probe_track-Kept block corrupt = tt
      probe_track-Kept block (parsed n track) =
          by_test (Keeps captured came sent (3 * length todo + 2))
            (track == s.keyframe_track_number) _ _ (λ h. probe_flags-Kept (drop (n + 2) block))
            (λ h. copies s todo len i p some_len fits)

      probe_block-Kept :
          (block : Bytes)
          → Keeps captured came sent (3 * length todo + 2) (probe_block s todo len block)
      unfolding probe_block
      probe_block-Kept block =
          elim s.cluster_starts_with_keyframe
            as (λ k. Keeps captured came sent (3 * length todo + 2) (elim k [
              | keyframe_unknown ↦ probe_track s todo len block (parse_var_int block)
              | does_not_start ↦ copy_element s todo len
              | starts_cluster ↦ copy_element s todo len
            ])) [
              | keyframe_unknown ↦ probe_track-Kept block (parse_var_int block)
              | does_not_start ↦ copies s todo len i p some_len fits
              | starts_cluster ↦ copies s todo len i p some_len fits
            ]

      probe_number-Kept :
          (r : Parsed) → Keeps captured came sent (3 * length todo + 2) (probe_number s todo len r)
      unfolding probe_number
      probe_number-Kept need_more = i
      probe_number-Kept corrupt = tt
      probe_number-Kept (parsed n value) =
          copies_checked (record s { parsing_track_number = value }) todo len i p some_len fits

      probe_type-Kept :
          (r : Parsed) → Keeps captured came sent (3 * length todo + 2) (probe_type s todo len r)
      unfolding probe_type
      probe_type-Kept need_more = i
      probe_type-Kept corrupt = tt
      probe_type-Kept (parsed n value) =
          by_test
            (λ (x : Ebml). Keeps captured came sent (3 * length todo + 2) (copy_element x todo len))
            (value % 2 == 1) _ _
            (λ h.
              copies_checked (record s { parsing_track_is_video = true }) todo len i p some_len
                fits)
            (λ h. copies s todo len i p some_len fits)

    pub probe_element-Kept :
        (n payload : ℕ)
        → 1 < n
        → n ≤ 16
        → payload < 2 ^ 56
        → Keeps captured came sent (3 * length todo + 2) (probe_element s todo n payload)
    unfolding probe_element
    probe_element-Kept n payload least most small =
        let len = n + payload in
        let some_len : 0 < n + payload = omega (arith, least) in
        let fits : n + payload < 2 ^ 64 = omega (arith, most, small) in
        let P = Keeps captured came sent (3 * length todo + 2) in
        let content = drop n todo in
        by_test P (ltb 1 n && starts_with (0xA3 ∷ []) todo) _ _
          (λ h. probe_block-Kept len some_len fits content)
          (λ h.
            by_test P (ltb 1 n && starts_with (0xAE ∷ []) todo) _ _
              (λ h.
                copies (record s { parsing_track_number = unknown; parsing_track_is_video = false })
                  todo n i p (omega (arith, least)) (omega (arith, most)))
              (λ h.
                by_test P (ltb 1 n && starts_with (0xD7 ∷ []) todo) _ _
                  (λ h. probe_number-Kept len some_len fits (parse_sized_int content payload false))
                  (λ h.
                    by_test P (ltb 1 n && starts_with (0x83 ∷ []) todo) _ _
                      (λ h.
                        probe_type-Kept len some_len fits (parse_sized_int content payload false))
                      (λ h. copies s todo len i p some_len fits))))
