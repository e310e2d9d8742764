-- ===== src/Ebml/VarInt.antt =====
-- The value of a variable-length integer.
use icecast_server.Prelude.{
  leb→lt, leb→le, by_test, ==_iff, subst, take, All, length, checks_lem, byte_by_table, checks,
  Bytes, suc, ◌+◌, ◌-◌, ◌*◌, ◌^◌, ◌≤◌, ◌<◌, ◌≡◌, refl, sym, ap, ◌∙◌, ◌⊎◌, inl, inr, Bool, true,
  ◌&&◌, Option, none, some, [], ◌∷◌, arith, ltb, leb, ◌==◌, if◌then◌else◌, ℕ,
}
use icecast_server.Ebml.Numbers.{
  unknown, Parsed, need_more, corrupt, parsed, Marked, find_marker, read_bytes, or_unknown,
  after_marker, parse_var_int,
}
use icecast_server.Ebml.Digits.{IsByte, big_endian, scale, read_bytes-IsRead, big_endian-add}

-- What a first byte says, tested.
is_marked : ℕ → Option Marked → Bool
is_marked b none = b == 0
is_marked b (some m) =
    ltb 0 m.size
    && (ltb m.size 9
        && (b == 2 ^ (8 - m.size) + m.value
            && (ltb m.value (2 ^ (8 - m.size)) && m.unknown_marker + 1 == 2 ^ (8 - m.size))))

-- The same as a statement.
record Marks (b : ℕ) (m : Marked) : Type 0 where
  least : 0 < m.size
  most : m.size < 9
  byte : b ≡ 2 ^ (8 - m.size) + m.value
  small : m.value < 2 ^ (8 - m.size)
  marker : m.unknown_marker + 1 ≡ 2 ^ (8 - m.size)

first_byte : (b : ℕ) → IsByte b → is_marked b (find_marker 8 1 b) ≡ true
unfolding checks find_marker is_marked
first_byte b h = byte_by_table (λ c. is_marked c (find_marker 8 1 c)) refl b h

Marks-by : (b : ℕ) (m : Marked) → is_marked b (some m) ≡ true → Marks b m
unfolding is_marked
Marks-by b m h = ground (arith, h)

-- With the bytes that follow, the marked bit is worth 128 for each byte.
scale_table :
    (n : ℕ)
    → n < 8
    → (scale n (2 ^ (7 - n)) == 2 ^ (7 * suc n) && leb (2 ^ (7 * suc n)) (2 ^ 56)) ≡ true
unfolding checks
scale_table n h =
    checks_lem 8 (λ i. scale i (2 ^ (7 - i)) == 2 ^ (7 * suc i) && leb (2 ^ (7 * suc i)) (2 ^ 56))
      refl n h

pub scale-pow :
    (n : ℕ) → n < 8 → (scale n (2 ^ (7 - n)) ≡ 2 ^ (7 * suc n)) × (2 ^ (7 * suc n) ≤ 2 ^ 56)
scale-pow n h = both _ _ _ _ (scale_table n h)
  where
    both : (a b c d : ℕ) → (a == b && leb c d) ≡ true → (a ≡ b) × (c ≤ d)
    both a b c d h = ground (arith, h)

-- The value of the first `n` bytes: the number that they are but for the marked bit, or `unknown` if
-- all its bits are set.
pub record IsVarInt (buffer : Bytes) (n value : ℕ) : Type 0 where
  pub least : 0 < n
  pub most : n ≤ 8
  pub within : n ≤ length buffer
  pub number : ℕ
  pub digits : big_endian 0 (take n buffer) ≡ 2 ^ (7 * n) + number
  pub small : number < 2 ^ (7 * n)
  pub is_value : value ≡ (if number + 1 == 2 ^ (7 * n) then unknown else number)

or_unknown-lem :
    (value marker p : ℕ)
    → marker + 1 ≡ p
    → or_unknown (value, marker) ≡ (if value + 1 == p then unknown else value)
or_unknown-lem value marker p h = ground (arith, h)

plus_zero : (b : ℕ) → 0 * 256 + b ≡ b
plus_zero b = omega arith

parsed-IsVarInt :
    (b k : ℕ) (m : Marked) (rest : Bytes)
    → m.size ≡ suc k
    → Marks b m
    → k ≤ length rest
    → All IsByte rest
    → IsVarInt (b ∷ rest) (suc k) (or_unknown (read_bytes k m.value m.unknown_marker rest))
parsed-IsVarInt b k m rest size marks l a =
    let most = marks.most in
    let below : k < 8 = omega (arith, most, size) in
    let bit : 8 - m.size ≡ 7 - k = omega (arith, size) in
    let (scaled, fits) = scale-pow k below in
    let small : m.value < 2 ^ (7 - k) = subst (λ (x : ℕ). m.value < 2 ^ x) bit marks.small in
    let marker : m.unknown_marker + 1 ≡ 2 ^ (7 - k) =
      subst (λ (x : ℕ). m.unknown_marker + 1 ≡ 2 ^ x) bit marks.marker in
    let byte : b ≡ 2 ^ (7 - k) + m.value = subst (λ (x : ℕ). b ≡ 2 ^ x + m.value) bit marks.byte in
    let r = read_bytes k m.value m.unknown_marker rest in
    let (number, less, mark) =
      read_bytes-IsRead k m.value m.unknown_marker (2 ^ (7 - k)) rest l a small marker
        (omega (arith, scaled, fits)) in
    record {
      least = omega arith;
      most = below;
      within = omega (arith, l);
      number = r.0;
      digits =
          ap (λ (x : ℕ). big_endian x (take k rest)) (plus_zero b ∙ byte)
          ∙ big_endian-add k (2 ^ (7 - k)) m.value rest l
          ∙ ap (λ (x : ℕ). x + big_endian m.value (take k rest)) scaled
          ∙ ap (λ (x : ℕ). 2 ^ (7 * suc k) + x) (sym number);
      small = subst (λ (x : ℕ). r.0 < x) scaled less;
      is_value = or_unknown-lem r.0 r.1 (2 ^ (7 * suc k)) (mark ∙ scaled);
    }

-- The first byte tells a length that has not come.
pub record IsShort (buffer : Bytes) : Type 0 where
  pub byte : ℕ
  pub rest : Bytes
  pub wanted : ℕ
  pub begins : buffer ≡ byte ∷ rest
  pub missing : length buffer < wanted
  pub most : wanted ≤ 8
  pub first_bit : (2 ^ (8 - wanted) ≤ byte) × (byte < 2 * 2 ^ (8 - wanted))

abbrev pub SaysVarInt : Bytes → Parsed → Type 0
SaysVarInt buffer need_more = (buffer ≡ []) ⊎ IsShort buffer
SaysVarInt buffer corrupt = (rest : Bytes) × (buffer ≡ 0 ∷ rest)
SaysVarInt buffer (parsed n value) = IsVarInt buffer n value

pub pred_suc : (n : ℕ) → 0 < n → n ≡ suc (n - 1)
pred_suc n h = omega arith

IsShort-marked :
    (b : ℕ) (m : Marked) (rest : Bytes)
    → Marks b m
    → suc (length rest) ≤ m.size - 1
    → IsShort (b ∷ rest)
IsShort-marked b m rest marks h =
    let least = marks.least in
    let most = marks.most in
    let byte = marks.byte in
    let small = marks.small in
    record {
      byte = b;
      rest = rest;
      wanted = m.size;
      begins = refl;
      missing = omega (arith, least, h);
      most = omega (arith, most);
      first_bit = (omega (arith, byte, small), omega (arith, byte, small));
    }

after_marker-Says :
    (b : ℕ) (o : Option Marked) (rest : Bytes)
    → is_marked b o ≡ true
    → All IsByte rest
    → SaysVarInt (b ∷ rest) (after_marker o rest)
unfolding after_marker is_marked
after_marker-Says b none rest h a = (rest, ap (λ (x : ℕ). x ∷ rest) (((==_iff b 0).0) h))
after_marker-Says b (some m) rest h a =
    let marks = Marks-by b m h in
    let size = pred_suc m.size marks.least in
    by_test (SaysVarInt (b ∷ rest)) (leb (suc (length rest)) (m.size - 1)) _ _
      (λ e. inr (IsShort-marked b m rest marks (leb→le (suc (length rest)) (m.size - 1) e)))
      (λ e.
        subst
          (λ (n : ℕ).
            IsVarInt (b ∷ rest) n
              (or_unknown (read_bytes (m.size - 1) m.value m.unknown_marker rest)))
          (sym size)
          (parsed-IsVarInt b (m.size - 1) m rest size marks
            (omega (arith, leb→lt (suc (length rest)) (m.size - 1) e)) a))

-- For bytes, ebml_parse_var_int returns -1 only on a first byte 0, 0 only if there is no byte or fewer
-- than the first bit set in the first byte tells, and else that length, from 1 to 8 and within the
-- buffer, with the big-endian number of so many bytes but for that bit, or EBML_UNKNOWN if all bits
-- after it are set.
pub parse_var_int-SaysVarInt :
    (buffer : Bytes) → All IsByte buffer → SaysVarInt buffer (parse_var_int buffer)
unfolding parse_var_int
parse_var_int-SaysVarInt [] a = inl refl
parse_var_int-SaysVarInt (b ∷ rest) (h, a) =
    after_marker-Says b (find_marker 8 1 b) rest (first_byte b h) a
