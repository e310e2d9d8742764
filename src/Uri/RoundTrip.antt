-- ===== src/Uri/RoundTrip.antt =====
-- `util_url_escape` and `util_url_unescape` of src/util.c, one after the other.
use icecast_server.Prelude.{
  ℕ, ◌/◌, ◌%◌, ◌<◌, Bool, true, false, not, ◌||◌, [], ◌∷◌, ◌++◌, ◌≡◌, refl, ap, Option, none, some,
  arith, Bytes, ◌==◌, get_or, All, checks, byte_by_table, Bool-cases, inl, inr, ◌∙◌, ==_iff,
}
use icecast_server.Uri.Coding.{
  hexchars, safechars, escape_byte, escape_bytes, url_escape, hex_pair, emit, unescape_plain,
  url_unescape,
}

-- Is it this number?
abbrev is_value : Option ℕ → ℕ → Bool
is_value none c = false
is_value (some d) c = d == c

hex_pair_table :
    checks 256
      (λ c. is_value (hex_pair (get_or hexchars (c / 16 % 16) 0) (get_or hexchars (c % 16) 0)) c)
    ≡ true
unfolding checks hex_pair
hex_pair_table = refl

hex_pair-hexchars :
    (c : ℕ)
    → c < 256
    → hex_pair (get_or hexchars (c / 16 % 16) 0) (get_or hexchars (c % 16) 0) ≡ some c
hex_pair-hexchars c h =
    go (hex_pair (get_or hexchars (c / 16 % 16) 0) (get_or hexchars (c % 16) 0))
      (byte_by_table _ hex_pair_table c h)
  where
    go : (o : Option ℕ) → is_value o c ≡ true → o ≡ some c
    go none e = cc
    go (some d) e = ap some ((==_iff d c).0 e)

-- A byte that is not escaped has no meaning of its own to the reader.
safe_table :
    checks 256 (λ c. get_or safechars c 0 == 0 || not (c == b'%' || c == b'#' || c == 0)) ≡ true
unfolding checks
safe_table = refl

pub url_unescape-plain :
    (c : ℕ) (rest : Bytes)
    → c == b'%' ≡ false
    → url_unescape (c ∷ rest) ≡ unescape_plain c (url_unescape rest)
unfolding url_unescape
url_unescape-plain c [] h = rw h
url_unescape-plain c (a ∷ []) h = rw h
url_unescape-plain c (a ∷ b ∷ cs) h = rw h

safe_byte :
    (c : ℕ)
    → c < 256
    → get_or safechars c 0 == 0 ≡ false
    → (c == b'%' || c == b'#' || c == 0) ≡ false
safe_byte c h safe = ground (arith, byte_by_table _ safe_table c h)

url_unescape-escape_byte :
    (c : ℕ) (rest : Bytes)
    → c < 256
    → url_unescape (escape_byte c ++ rest) ≡ emit c (url_unescape rest)
unfolding escape_byte
url_unescape-escape_byte c rest h = elim (Bool-cases (get_or safechars c 0 == 0)) [
  | inl unsafe ↦ rw unsafe (unfold url_unescape in rw (hex_pair-hexchars c h))
  | inr safe ↦ rw safe (ground (arith, safe_byte c h safe, url_unescape-plain c rest))
]

url_unescape-escape_bytes :
    (src : Bytes) → All (λ c. c < 256) src → url_unescape (escape_bytes src) ≡ some src
unfolding escape_bytes
url_unescape-escape_bytes [] h = unfold url_unescape in refl
url_unescape-escape_bytes (c ∷ cs) h =
    url_unescape-escape_byte c (escape_bytes cs) h.0
    ∙ ap (emit c) (url_unescape-escape_bytes cs h.1)

-- What `util_url_escape` returns for a string of bytes, `util_url_unescape` decodes to that string.
pub url_unescape-escape :
    (src : Bytes)
    → All (λ c. c < 256) src
    → (out : Bytes) × (url_escape (some src) ≡ some out) × (url_unescape out ≡ some src)
unfolding url_escape
url_unescape-escape src h = (escape_bytes src, refl, url_unescape-escape_bytes src h)
