-- ===== src/Ebml/Tags.antt =====
-- The tags of the elements, and what is known of them when more bytes come.
use icecast_server.Prelude.{
  leb→lt, drop-append, length-drop, length-append, All-drop, subst, length, drop, All, Bytes, zero,
  suc, ◌+◌, ◌-◌, ◌*◌, ◌^◌, ◌≤◌, ◌<◌, ◌≡◌, refl, sym, ap, ◌∙◌, ◌⊎◌, inl, inr, Bool, false, Option,
  none, some, [], ◌∷◌, ◌++◌, arith, leb, ◌==◌, if◌then◌else◌, Bool-cases, ℕ,
}
use icecast_server.Ebml.Numbers.{
  unknown, Parsed, need_more, corrupt, parsed, Marked, find_marker, read_bytes, shift_in,
  or_unknown, after_marker, parse_var_int, after_type, parse_size, parse_tag,
}
use icecast_server.Ebml.Digits.{IsByte}
use icecast_server.Ebml.VarInt.{IsVarInt, SaysVarInt, parse_var_int-SaysVarInt, scale-pow, pred_suc}

-- A length that can be added, or none.
abbrev pub IsLength : ℕ → Type 0
IsLength value = (value ≡ unknown) ⊎ (value < 2 ^ 56)

IsVarInt-IsLength : (buffer : Bytes) (n value : ℕ) → IsVarInt buffer n value → IsLength value
IsVarInt-IsLength buffer n value v =
    let least = v.least in
    let most = v.most in
    let small = v.small in
    let (scaled, fits) = scale-pow (n - 1) (omega (arith, least, most)) in
    let bound : 2 ^ (7 * n) ≤ 2 ^ 56 =
      subst (λ (m : ℕ). 2 ^ (7 * m) ≤ 2 ^ 56) (sym (pred_suc n least)) fits in
    elim (Bool-cases (v.number + 1 == 2 ^ (7 * n))) [
      | inl all ↦ inl (v.is_value ∙ ap (λ (b : Bool). if b then unknown else v.number) all)
      | inr other ↦ inr (
          rw (v.is_value ∙ ap (λ (b : Bool). if b then unknown else v.number) other)
            (omega (arith, small, bound)))
    ]

-- A tag and the length of its payload.
pub record IsTag (buffer : Bytes) (n payload : ℕ) : Type 0 where
  pub least : 1 < n
  pub most : n ≤ 16
  pub within : n ≤ length buffer
  pub bounded : IsLength payload

abbrev pub SaysTag : Bytes → Parsed → Type 0
SaysTag buffer need_more = Unit
SaysTag buffer corrupt = Unit
SaysTag buffer (parsed n payload) = IsTag buffer n payload

after_type-SaysTag :
    (buffer : Bytes) (n id : ℕ) (r : Parsed)
    → IsVarInt buffer n id
    → SaysVarInt (drop n buffer) r
    → SaysTag buffer (after_type n r)
unfolding after_type
after_type-SaysTag buffer n id need_more v h = tt
after_type-SaysTag buffer n id corrupt v h = tt
after_type-SaysTag buffer n id (parsed m payload) v h =
    let within = v.within in
    let least = v.least in
    let most = v.most in
    let least' = h.least in
    let most' = h.most in
    let within' : m ≤ length buffer - n =
      subst (λ (k : ℕ). m ≤ k) (length-drop n buffer) h.within in
    record {
      least = omega (arith, least, least');
      most = omega (arith, most, most');
      within = omega (arith, within, within');
      bounded = IsVarInt-IsLength (drop n buffer) m payload h;
    }

parse_size-SaysTag :
    (buffer : Bytes) (r : Parsed)
    → All IsByte buffer
    → SaysVarInt buffer r
    → SaysTag buffer (parse_size buffer r)
unfolding parse_size
parse_size-SaysTag buffer need_more a h = tt
parse_size-SaysTag buffer corrupt a h = tt
parse_size-SaysTag buffer (parsed n id) a h =
    after_type-SaysTag buffer n id (parse_var_int (drop n buffer)) h
      (parse_var_int-SaysVarInt (drop n buffer) (All-drop IsByte n buffer a))

pub parse_tag-SaysTag : (buffer : Bytes) → All IsByte buffer → SaysTag buffer (parse_tag buffer)
unfolding parse_tag
parse_tag-SaysTag buffer a =
    parse_size-SaysTag buffer (parse_var_int buffer) a (parse_var_int-SaysVarInt buffer a)

-- What is parsed is parsed the same when more bytes follow.
abbrev pub Same : Parsed → Parsed → Type 0
Same need_more r = Unit
Same corrupt r = Unit
Same (parsed n value) r = r ≡ parsed n value

read_bytes-append :
    (n value marker : ℕ) (bytes more : Bytes)
    → n ≤ length bytes
    → read_bytes n value marker (bytes ++ more) ≡ read_bytes n value marker bytes
unfolding read_bytes
read_bytes-append zero value marker bytes more h = refl
read_bytes-append (suc n) value marker [] more h = absurd (omega (arith, h))
read_bytes-append (suc n) value marker (b ∷ bytes) more h =
    read_bytes-append n (shift_in value b) (shift_in marker 255) bytes more (omega (arith, h))

after_marker-append :
    (o : Option Marked) (rest more : Bytes)
    → Same (after_marker o rest) (after_marker o (rest ++ more))
unfolding after_marker
after_marker-append none rest more = tt
after_marker-append (some m) rest more = elim (Bool-cases (leb (suc (length rest)) (m.size - 1))) [
  | inl short ↦ rw short tt
  | inr whole ↦
      let l : m.size - 1 ≤ length rest =
        omega (arith, leb→lt (suc (length rest)) (m.size - 1) whole) in
      let longer =
        still_whole (length rest) (length (rest ++ more)) (m.size - 1) l
          (rw (length-append rest more) (omega arith)) in
      rw (whole, longer)
        (ap (λ (x : ℕ × ℕ). parsed m.size (or_unknown x))
          (read_bytes-append (m.size - 1) m.value m.unknown_marker rest more l))
]
  where
    still_whole : (a b c : ℕ) → c ≤ a → a ≤ b → leb (suc b) c ≡ false
    still_whole a b c h k = ground (arith, h, k)

parse_var_int-append :
    (buffer more : Bytes) → Same (parse_var_int buffer) (parse_var_int (buffer ++ more))
unfolding parse_var_int
parse_var_int-append [] more = tt
parse_var_int-append (b ∷ rest) more = after_marker-append (find_marker 8 1 b) rest more

after_type-Same : (n : ℕ) (r r' : Parsed) → Same r r' → Same (after_type n r) (after_type n r')
unfolding after_type
after_type-Same n need_more r' h = tt
after_type-Same n corrupt r' h = tt
after_type-Same n (parsed m payload) r' h = ap (after_type n) h

parse_size-append :
    (buffer more : Bytes) (r r' : Parsed)
    → SaysVarInt buffer r
    → Same r r'
    → Same (parse_size buffer r) (parse_size (buffer ++ more) r')
unfolding parse_size
parse_size-append buffer more need_more r' s h = tt
parse_size-append buffer more corrupt r' s h = tt
parse_size-append buffer more (parsed n id) r' s h =
    let rest = parse_var_int-append (drop n buffer) more in
    let moved : drop n (buffer ++ more) ≡ drop n buffer ++ more =
      drop-append n buffer more s.within in
    subst
      (λ (x : Parsed).
        Same (after_type n (parse_var_int (drop n buffer))) (parse_size (buffer ++ more) x))
      (sym h)
      (after_type-Same n (parse_var_int (drop n buffer)) (parse_var_int (drop n (buffer ++ more))) (
        subst (λ (x : Bytes). Same (parse_var_int (drop n buffer)) (parse_var_int x)) (sym moved)
          rest))

pub parse_tag-append :
    (buffer more : Bytes) → All IsByte buffer → Same (parse_tag buffer) (parse_tag (buffer ++ more))
unfolding parse_tag
parse_tag-append buffer more a =
    parse_size-append buffer more (parse_var_int buffer) (parse_var_int (buffer ++ more))
      (parse_var_int-SaysVarInt buffer a) (parse_var_int-append buffer more)
