-- ===== src/Uri/Segments.antt =====
-- `verify_path` of src/util.c against a description by path segments.
use icecast_server.Prelude.{
  ℕ, Bool, true, false, not, ◌&&◌, List, [], ◌∷◌, ◌≡◌, refl, arith, Bytes, c_string, ◌==◌,
  if◌then◌else◌, Bool-cases, inl, inr,
}
use icecast_server.Uri.{is_slash, verify_from, verify_path}

-- Puts a byte at the head of the first segment.
abbrev pub extend : ℕ → List Bytes → List Bytes
extend c [] = (c ∷ []) ∷ []
extend c (s ∷ rest) = (c ∷ s) ∷ rest

-- The segments between the slashes of either kind: one more than there are slashes.
unfoldable pub segments : Bytes → List Bytes
segments [] = [] ∷ []
segments (c ∷ cs) = if is_slash c then [] ∷ segments cs else extend c (segments cs)

-- Nothing but dots: the empty segment, ".", ".." and so on.
abbrev pub all_dots : Bytes → Bool
all_dots [] = true
all_dots (c ∷ cs) = c == b'.' && all_dots cs

-- No segment but the last consists of nothing but dots.
abbrev pub inner_ok : List Bytes → Bool
inner_ok [] = true
inner_ok (s ∷ []) = true
inner_ok (s ∷ t ∷ rest) = not (all_dots s) && inner_ok (t ∷ rest)

abbrev pub after_first : List Bytes → Bool
after_first [] = true
after_first (s ∷ rest) = inner_ok rest

-- What the two flags of the loop stand for: `dir` and `indotseq` say that the current segment holds
-- nothing but dots so far, and neither says that it is the first one or holds another byte.
abbrev flags_mean : Bool → Bool → List Bytes → Bool
flags_mean false false segs = after_first segs
flags_mean _ _ segs = inner_ok segs

segments-cons : (p : Bytes) → (s : Bytes) × (rest : List Bytes) × (segments p ≡ s ∷ rest)
unfolding segments
segments-cons [] = ([], [], refl)
segments-cons (c ∷ cs) =
    let (s, rest, e) = segments-cons cs in
    elim (Bool-cases (is_slash c)) [
      | inl h ↦ ([], segments cs, rw h)
      | inr h ↦ (c ∷ s, rest, rw (h, e))
    ]

inner_ok-extend_dot :
    (c : ℕ) (s : Bytes) (rest : List Bytes)
    → c == b'.' ≡ true
    → inner_ok ((c ∷ s) ∷ rest) ≡ inner_ok (s ∷ rest)
inner_ok-extend_dot c s [] h = refl
inner_ok-extend_dot c s (t ∷ rest) h = rw h

inner_ok-extend_other :
    (c : ℕ) (s : Bytes) (rest : List Bytes)
    → c == b'.' ≡ false
    → inner_ok ((c ∷ s) ∷ rest) ≡ inner_ok rest
inner_ok-extend_other c s [] h = refl
inner_ok-extend_other c s (t ∷ rest) h = rw h

verify_from-segments :
    (cs : Bytes) (dir indotseq : Bool)
    → (dir && indotseq) ≡ false
    → verify_from dir indotseq cs ≡ flags_mean dir indotseq (segments (c_string cs))
unfolding verify_from segments c_string
verify_from-segments [] dir dots h = ground arith
verify_from-segments (c ∷ cs) dir dots h =
    let (s, rest, e) = segments-cons (c_string cs) in
    ground (
      arith,
      e,
      verify_from-segments cs true false refl,
      verify_from-segments cs false true refl,
      verify_from-segments cs false false refl,
      inner_ok-extend_dot c s rest,
      inner_ok-extend_other c s rest,
    )

-- `verify_path` accepts exactly the paths in which no segment but the first and the last consists of
-- nothing but dots, the empty segment included; it reads up to the first NUL.
pub verify_path-segments : (p : Bytes) → verify_path p ≡ after_first (segments (c_string p))
unfolding verify_path
verify_path-segments p = verify_from-segments p false false refl
