-- ===== src/Base64/RoundTrip.antt =====
-- `util_base64_encode` and `util_base64_decode` of src/util.c, one after the other.
use icecast_server.Prelude.{
  checks_lem, refl, ◌/◌, ◌%◌, ◌+◌, ◌*◌, All, some, ◌++◌, replicate, ℕ, ◌<◌, ◌≡◌, [], ◌∷◌, Bytes,
  Bool, true, false, arith, checks, ◌==◌,
}
use icecast_server.Base64.{
  base64_encode, base64_decode, decode_group, prepend, Digit, digit, padding, no_digit, digit_of,
  char_at,
}

-- How many zero bytes end the last group.
abbrev pub zeros : Bytes → ℕ
zeros (a ∷ []) = 2
zeros (a ∷ b ∷ []) = 1
zeros (a ∷ b ∷ c ∷ rest) = zeros rest
zeros [] = 0

is_digit : ℕ → Digit → Bool
is_digit v (digit w) = v == w
is_digit v _ = false

is_digit_lem : (v : ℕ) (d : Digit) → is_digit v d ≡ true → d ≡ digit v
unfolding is_digit
is_digit_lem v (digit w) h = ground (arith, h)
is_digit_lem v no_digit h = cc
is_digit_lem v padding h = cc

table_inverts : checks 64 (λ v. is_digit v (digit_of (char_at v))) ≡ true
unfolding checks is_digit
table_inverts = refl

digit_of-char_at : (v : ℕ) → v < 64 → digit_of (char_at v) ≡ digit v
digit_of-char_at v h = is_digit_lem v (digit_of (char_at v)) (checks_lem 64 _ table_inverts v h)

-- The values of six bits that three bytes give, and back.
group_back :
    (a b c : ℕ)
    → a < 256
    → b < 256
    → c < 256
    → ((a / 4 * 4 + (a % 4 * 16 + b / 16) / 16) % 256 ≡ a)
      × (((a % 4 * 16 + b / 16) % 16 * 16 + (b % 16 * 4 + c / 64) / 4) % 256 ≡ b)
      × (((b % 16 * 4 + c / 64) % 4 * 64 + c % 64) % 256 ≡ c)
group_back a b c h k l = (omega arith, omega arith, omega arith)

module _ (after : ℕ) (in_byte : after < 256) where
  one_back :
      (a : ℕ) → a < 256 → base64_decode (base64_encode after (a ∷ [])) ≡ some (a ∷ 0 ∷ 0 ∷ [])
  unfolding base64_encode base64_decode decode_group prepend
  one_back a h =
      rw
        (
          digit_of-char_at (a / 4) (omega arith),
          digit_of-char_at (a % 4 * 16 + after / 16) (omega arith),
          decode_group,
          (group_back a after 0 h in_byte (omega arith)).0,
        )
        refl

  two_back :
      (a b : ℕ)
      → a < 256
      → b < 256
      → base64_decode (base64_encode after (a ∷ b ∷ [])) ≡ some (a ∷ b ∷ 0 ∷ [])
  unfolding base64_encode base64_decode decode_group prepend
  two_back a b h k =
      let first : (a / 4 * 4 + (a % 4 * 16 + b / 16) / 16) % 256 ≡ a = omega arith in
      let second : ((a % 4 * 16 + b / 16) % 16 * 16 + b % 16 * 4 / 4) % 256 ≡ b = omega arith in
      rw
        (
          digit_of-char_at (a / 4) (omega arith),
          digit_of-char_at (a % 4 * 16 + b / 16) (omega arith),
          digit_of-char_at (b % 16 * 4) (omega arith),
          decode_group,
          first,
          second,
        )
        refl

  -- For data of bytes `util_base64_decode` of what `util_base64_encode` returns gives the data and as
  -- many NULs as complete its last group of three, whatever byte stands after the data.
  pub base64_decode-encode :
      (data_bytes : Bytes)
      → All (λ c. c < 256) data_bytes
      → base64_decode (base64_encode after data_bytes)
        ≡ some (data_bytes ++ replicate (zeros data_bytes) 0)
  unfolding base64_encode base64_decode prepend
  base64_decode-encode [] h = refl
  base64_decode-encode (a ∷ []) h = one_back a h.0
  base64_decode-encode (a ∷ b ∷ []) h = two_back a b h.0 h.1.0
  base64_decode-encode (a ∷ b ∷ c ∷ rest) h =
      let (ha, hbs) = h in
      let (hb, hcs) = hbs in
      let (hc, hs) = hcs in
      let back = group_back a b c ha hb hc in
      rw
        (
          digit_of-char_at (a / 4) (omega arith),
          digit_of-char_at (a % 4 * 16 + b / 16) (omega arith),
          digit_of-char_at (b % 16 * 4 + c / 64) (omega arith),
          digit_of-char_at (c % 64) (omega arith),
          base64_decode-encode rest hs,
          decode_group,
          back.0,
          back.1,
          back.2,
        )
        refl
