-- ===== src/Backends/Added.antt =====
-- What is in a file after a user is added, and how that user then logs in.
use icecast_server.Prelude.{
  checks, append-nil, length-append, All-append, length, checks_lem, All, starts_with, get_or,
  Bytes, ◌*◌, ◌/◌, ◌%◌, ◌≤◌, ◌≡◌, refl, ap, ◌∙◌, ◌≢◌, Bool, true, false, not, ◌||◌, none, some,
  List, [], ◌∷◌, ◌++◌, arith, ◌==◌, ℕ,
}
use icecast_server.Base64.{bin_to_hex}
use icecast_server.Uri.{hexchars}
use icecast_server.Backends.Htpasswd.{User, entry_line, is_skipped, split_last, user_of, users_of}
use icecast_server.Backends.Read.{EndsLine, IsText}
use icecast_server.Backends.Entries.{ne→eqb, users_of-line, users_of-append}
use icecast_server.Backends.Deleted.{users_of-nil}

-- A byte of a hash.
abbrev is_hash_byte : ℕ → Bool
is_hash_byte c = not (c == 0 || c == 10 || c == 13 || c == 58)

abbrev pub IsHashByte : ℕ → Type 0
IsHashByte c = IsText c × (c ≢ 58)

hash_byte : (c : ℕ) → is_hash_byte c ≡ true → IsHashByte c
hash_byte c h = (
  (λ e. ground (arith, e, h), λ e. ground (arith, e, h), λ e. ground (arith, e, h)),
  λ e. ground (arith, e, h),
)

hexchar-IsHashByte : (k : ℕ) → IsHashByte (get_or hexchars (k % 16) 0)
unfolding checks
hexchar-IsHashByte k =
    hash_byte (get_or hexchars (k % 16) 0)
      (checks_lem 16 (λ i. is_hash_byte (get_or hexchars i 0)) refl (k % 16) (omega arith))

pub hash-IsHash : (bytes : Bytes) → All IsHashByte (bin_to_hex bytes)
unfolding bin_to_hex
hash-IsHash [] = tt
hash-IsHash (c ∷ cs) = (hexchar-IsHashByte (c / 16), (hexchar-IsHashByte c, hash-IsHash cs))

pub length-hash : (bytes : Bytes) → length (bin_to_hex bytes) ≡ 2 * length bytes
unfolding bin_to_hex
length-hash [] = refl
length-hash (c ∷ cs) = omega (arith, length-hash cs)

split_last-hash : (hash : Bytes) → All IsHashByte hash → split_last hash ≡ none
unfolding split_last
split_last-hash [] h = refl
split_last-hash (c ∷ cs) ((t, n), h) = rw (split_last-hash cs h, ne→eqb c 58 n) refl

split_last-entry :
    (name hash : Bytes) → All IsHashByte hash → split_last (name ++ 58 ∷ hash) ≡ some (name, hash)
unfolding split_last
split_last-entry [] hash h = rw (split_last-hash hash h) refl
split_last-entry (c ∷ name) hash h = rw (split_last-entry name hash h) refl

-- A name that can stand in the file: its bytes, its length with a hash of 32, and its first byte.
pub record IsUserName (name : Bytes) : Type 0 where
  pub text : All IsText name
  pub fits : length name ≤ 478
  pub listed : starts_with (b'#' ∷ []) name ≡ false

entry_is_read : (name hash : Bytes) → IsUserName name → is_skipped (name ++ 58 ∷ hash) ≡ false
unfolding is_skipped starts_with
entry_is_read [] hash h = refl
entry_is_read (c ∷ name) hash h = let l = h.listed in ground (arith, l)

user_of-entry :
    (name hash : Bytes)
    → IsUserName name
    → All IsHashByte hash
    → user_of (name ++ 58 ∷ hash) ≡ record { name = name; pass = hash } ∷ []
unfolding user_of
user_of-entry name hash n h = rw (entry_is_read name hash n, split_last-entry name hash h) refl

hash-IsText : (hash : Bytes) → All IsHashByte hash → All IsText hash
hash-IsText [] h = tt
hash-IsText (c ∷ cs) ((t, n), h) = (t, hash-IsText cs h)

pub users_of-entry :
    (file name hash : Bytes)
    → EndsLine file
    → IsUserName name
    → All IsHashByte hash
    → length hash ≡ 32
    → users_of (file ++ entry_line name hash)
      ≡ users_of file ++ record { name = name; pass = hash } ∷ []
users_of-entry file name hash e n h l =
    let w = name ++ 58 ∷ hash in
    let joined : entry_line name hash ≡ w ++ 10 ∷ [] = refl in
    let fits = n.fits in
    let text : All IsText w =
      All-append IsText name (58 ∷ hash) n.text (
        (λ p. omega (arith, p), λ p. omega (arith, p), λ p. omega (arith, p)),
        hash-IsText hash h,
      ) in
    let long : length w ≤ 511 = rw (length-append name (58 ∷ hash)) (omega (arith, l, fits)) in
    users_of-append file (entry_line name hash) e
    ∙ ap (λ (x : List User). users_of file ++ x)
        (ap users_of joined
          ∙ users_of-line w [] text long
          ∙ ap (λ (x : List User). user_of w ++ x) users_of-nil
          ∙ append-nil (user_of w)
          ∙ user_of-entry name hash n h)
