-- ===== src/Backends/Entries.antt =====
-- The entries of a file that is made of lines.
use icecast_server.Prelude.{
  length-append, length, append_assoc, All, c_string, Bytes, zero, suc, ◌≤◌, ◌<◌, ◌≡◌, refl, sym,
  ap, ◌∙◌, ◌≢◌, ◌⊎◌, inl, inr, true, false, List, [], ◌∷◌, ◌++◌, arith, ◌==◌, ℕ,
}
use icecast_server.Backends.Lines.{fgets, ends_in, drop_last, chomp, lines_of}
use icecast_server.Backends.Htpasswd.{User, is_skipped, user_of, read_users, users_of}
use icecast_server.Backends.Read.{EndsLine, IsText, lines_of-step, lines_of-append}

pub read_users-append :
    (ls ms : List Bytes) → read_users (ls ++ ms) ≡ read_users ls ++ read_users ms
unfolding read_users
read_users-append [] ms = refl
read_users-append (l ∷ ls) ms =
    ap (λ (x : List User). user_of l ++ x) (read_users-append ls ms)
    ∙ sym (append_assoc (user_of l) (read_users ls) (read_users ms))

pub users_of-append :
    (file more : Bytes) → EndsLine file → users_of (file ++ more) ≡ users_of file ++ users_of more
unfolding users_of
users_of-append file more e =
    ap read_users (lines_of-append file more e) ∙ read_users-append (lines_of file) (lines_of more)

pub ne→eqb : (a b : ℕ) → a ≢ b → (a == b) ≡ false
ne→eqb a b h = ground (arith, h)

-- `fgets` stops after a line feed.
fgets-line :
    (n : ℕ) (w more : Bytes)
    → All IsText w
    → length w < n
    → fgets n (w ++ 10 ∷ more) ≡ (w ++ 10 ∷ [], more)
unfolding fgets
fgets-line zero w more h k = absurd (omega (arith, k))
fgets-line (suc n) [] more h k = refl
fgets-line (suc n) (c ∷ w) more ((z, l, r), h) k =
    rw ((ne→eqb c 10 l), fgets-line n w more h (omega (arith, k))) refl

-- `fgets` stops when the buffer is full.
fgets-full :
    (n : ℕ) (w more : Bytes) → All IsText w → length w ≡ n → fgets n (w ++ more) ≡ (w, more)
unfolding fgets
fgets-full zero [] more h k = refl
fgets-full zero (c ∷ w) more h k = absurd (omega (arith, k))
fgets-full (suc n) [] more h k = absurd (omega (arith, k))
fgets-full (suc n) (c ∷ w) more ((z, l, r), h) k =
    rw ((ne→eqb c 10 l), fgets-full n w more h (omega (arith, k))) refl

pub c_string-text : (w : Bytes) → All IsText w → c_string w ≡ w
unfolding c_string
c_string-text [] h = refl
c_string-text (c ∷ w) ((z, l, r), h) = rw ((ne→eqb c 0 z), c_string-text w h) refl

pub c_string-line : (w : Bytes) → All IsText w → c_string (w ++ 10 ∷ []) ≡ w ++ 10 ∷ []
unfolding c_string
c_string-line [] h = refl
c_string-line (c ∷ w) ((z, l, r), h) = rw ((ne→eqb c 0 z), c_string-line w h) refl

ends_in-append : (c : ℕ) (w : Bytes) → ends_in c (w ++ c ∷ []) ≡ true
unfolding ends_in
ends_in-append c [] = ground arith
ends_in-append c (d ∷ []) = ground arith
ends_in-append c (d ∷ e ∷ w) = ends_in-append c (e ∷ w)

drop_last-append : (c : ℕ) (w : Bytes) → drop_last (w ++ c ∷ []) ≡ w
unfolding drop_last
drop_last-append c [] = refl
drop_last-append c (d ∷ []) = refl
drop_last-append c (d ∷ e ∷ w) = ap (◌∷◌ d) (drop_last-append c (e ∷ w))

ends_in-text :
    (c : ℕ) (w : Bytes) → ((d : ℕ) → IsText d → d ≢ c) → All IsText w → ends_in c w ≡ false
unfolding ends_in
ends_in-text c [] other h = refl
ends_in-text c (d ∷ []) other (t, h) = ne→eqb d c (other d t)
ends_in-text c (d ∷ e ∷ w) other (t, h) = ends_in-text c (e ∷ w) other h

pub chomp-line : (w : Bytes) → All IsText w → chomp (w ++ 10 ∷ []) ≡ w
unfolding chomp
chomp-line w h =
    rw (ends_in-append 10 w, drop_last-append 10 w, ends_in-text 13 w (λ d t. t.2) h) refl

pub chomp-text : (w : Bytes) → All IsText w → chomp w ≡ w
unfolding chomp
chomp-text w h = rw (ends_in-text 10 w (λ d t. t.1) h) refl

some_byte : (w more : Bytes) → 0 < length (w ++ 10 ∷ more)
some_byte w more = rw (length-append w (10 ∷ more)) (omega arith)

le_cases : (n : ℕ) → n ≤ 511 → (n < 511) ⊎ (n ≡ 511)
le_cases n h = ground arith

lines_of-cons :
    (file more line : Bytes)
    → 0 < length file
    → fgets 511 file ≡ (line, more)
    → lines_of file ≡ chomp (c_string line) ∷ lines_of more
lines_of-cons [] more line h e = absurd (omega (arith, h))
lines_of-cons (c ∷ file) more line h e =
    lines_of-step c file ∙ ap (λ (x : Bytes × Bytes). chomp (c_string x.0) ∷ lines_of x.1) e

-- A line that the buffer holds with its line feed.
lines_of-short :
    (w more : Bytes) → All IsText w → length w < 511 → lines_of (w ++ 10 ∷ more) ≡ w ∷ lines_of more
lines_of-short w more h k =
    lines_of-cons (w ++ 10 ∷ more) more (w ++ 10 ∷ []) (some_byte w more)
      (fgets-line 511 w more h k)
    ∙ ap (λ (x : Bytes). x ∷ lines_of more) (ap chomp (c_string-line w h) ∙ chomp-line w h)

-- A line that fills the buffer is followed by an empty one.
lines_of-long :
    (w more : Bytes)
    → All IsText w
    → length w ≡ 511
    → lines_of (w ++ 10 ∷ more) ≡ w ∷ [] ∷ lines_of more
lines_of-long w more h k =
    lines_of-cons (w ++ 10 ∷ more) (10 ∷ more) w (some_byte w more)
      (fgets-full 511 w (10 ∷ more) h k)
    ∙ ap (λ (x : Bytes). x ∷ lines_of (10 ∷ more)) (ap chomp (c_string-text w h) ∙ chomp-text w h)
    ∙ ap (◌∷◌ w) (lines_of-short [] more tt (omega arith))

pub users_of-line :
    (w more : Bytes)
    → All IsText w
    → length w ≤ 511
    → users_of (w ++ 10 ∷ more) ≡ user_of w ++ users_of more
unfolding users_of
users_of-line w more h k = elim (le_cases (length w) k) [
  | inl short ↦ unfold read_users in (ap read_users (lines_of-short w more h short))
  | inr long ↦ unfold read_users user_of is_skipped in (ap read_users (lines_of-long w more h long))
]
