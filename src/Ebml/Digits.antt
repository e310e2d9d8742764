-- ===== src/Ebml/Digits.antt =====
-- The bytes of a variable-length integer.
use icecast_server.Prelude.{
  subst, take, All, length, Bytes, zero, suc, ◌+◌, ◌*◌, ◌^◌, ◌≤◌, ◌<◌, ◌≡◌, refl, sym, ap, ◌∙◌, [],
  ◌∷◌, arith, ℕ,
}
use icecast_server.Ebml.Numbers.{shift_in, read_bytes}

abbrev pub IsByte : ℕ → Type 0
IsByte b = b < 256

-- A number by its bytes, the highest first, after a number that stands before them.
abbrev pub big_endian : ℕ → Bytes → ℕ
big_endian acc [] = acc
big_endian acc (b ∷ bytes) = big_endian (acc * 256 + b) bytes

-- With so many bytes behind it.
abbrev pub scale : ℕ → ℕ → ℕ
scale zero bound = bound
scale (suc n) bound = scale n (bound * 256)

pub le-scale : (n bound : ℕ) → bound ≤ scale n bound
le-scale zero bound = omega arith
le-scale (suc n) bound = omega (arith, le-scale n (bound * 256))

pub shift_in-lt :
    (value byte bound : ℕ)
    → IsByte byte
    → value < bound
    → bound * 256 ≤ 2 ^ 64
    → shift_in value byte ≡ value * 256 + byte
shift_in-lt value byte bound b v h = omega arith

-- What is read is less than the bound, and the marker one less.
abbrev pub IsRead : ℕ → ℕ → ℕ → Bytes → ℕ × ℕ → Type 0
IsRead n value bound bytes (value', marker') =
    (value' ≡ big_endian value (take n bytes))
    × (value' < scale n bound)
    × (marker' + 1 ≡ scale n bound)

pub read_bytes-IsRead :
    (n value marker bound : ℕ) (bytes : Bytes)
    → n ≤ length bytes
    → All IsByte bytes
    → value < bound
    → marker + 1 ≡ bound
    → scale n bound ≤ 2 ^ 64
    → IsRead n value bound bytes (read_bytes n value marker bytes)
unfolding read_bytes
read_bytes-IsRead zero value marker bound bytes l a v m h = (refl, v, m)
read_bytes-IsRead (suc n) value marker bound [] l a v m h = absurd (omega (arith, l))
read_bytes-IsRead (suc n) value marker bound (b ∷ bytes) l (a, more) v m h =
    let bounded : bound * 256 ≤ 2 ^ 64 = omega (arith, le-scale n (bound * 256)) in
    let p = shift_in-lt value b bound a v bounded in
    let q = shift_in-lt marker 255 bound (omega arith) (omega arith) bounded in
    let shifted =
      ap (λ (x : ℕ). read_bytes n x (shift_in marker 255) bytes) p
      ∙ ap (λ (x : ℕ). read_bytes n (value * 256 + b) x bytes) q in
    subst (IsRead n (value * 256 + b) (bound * 256) bytes) (sym shifted) (
      read_bytes-IsRead n (value * 256 + b) (marker * 256 + 255) (bound * 256) bytes
        (omega (arith, l)) more (omega arith) (omega arith) h)

pub big_endian-add :
    (n a c : ℕ) (bytes : Bytes)
    → n ≤ length bytes
    → big_endian (a + c) (take n bytes) ≡ scale n a + big_endian c (take n bytes)
big_endian-add zero a c bytes l = refl
big_endian-add (suc n) a c [] l = absurd (omega (arith, l))
big_endian-add (suc n) a c (b ∷ bytes) l =
    let e : (a + c) * 256 + b ≡ a * 256 + (c * 256 + b) = omega arith in
    ap (λ (x : ℕ). big_endian x (take n bytes)) e
    ∙ (big_endian-add n (a * 256) (c * 256 + b) bytes (omega (arith, l)))
