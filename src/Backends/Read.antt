-- ===== src/Backends/Read.antt =====
-- The loop over `get_line`, line by line.
use icecast_server.Prelude.{
  by_test, length, c_string, Bytes, zero, suc, ◌≤◌, ◌≡◌, refl, sym, ap, ◌∙◌, ◌≢◌, inl, inr, List,
  [], ◌∷◌, ◌++◌, arith, ◌==◌, Bool-cases, ℕ,
}
use icecast_server.Backends.Lines.{fgets, chomp, get_line, lines_in, lines_of}

-- A file is empty or ends with a line feed.
abbrev pub EndsLine : Bytes → Type 0
EndsLine [] = Unit
EndsLine (c ∷ []) = c ≡ 10
EndsLine (c ∷ d ∷ ds) = EndsLine (d ∷ ds)

-- A byte of a line.
abbrev pub IsText : ℕ → Type 0
IsText c = (c ≢ 0) × (c ≢ 10) × (c ≢ 13)

fgets-within : (n : ℕ) (file : Bytes) → length (fgets n file).1 ≤ length file
unfolding fgets
fgets-within zero file = omega arith
fgets-within (suc n) [] = omega arith
fgets-within (suc n) (c ∷ file) =
    by_test (λ (x : Bytes × Bytes). length x.1 ≤ suc (length file)) (c == 10) _ _ (λ h. omega arith)
      (λ h. omega (arith, fgets-within n file))

fgets-shorter : (n c : ℕ) (file : Bytes) → length (fgets (suc n) (c ∷ file)).1 ≤ length file
unfolding fgets
fgets-shorter n c file =
    by_test (λ (x : Bytes × Bytes). length x.1 ≤ length file) (c == 10) _ _ (λ h. omega arith)
      (λ h. fgets-within n file)

le_trans : (a b c : ℕ) → a ≤ b → b ≤ c → a ≤ c
le_trans a b c h k = omega arith

le_refl : (n : ℕ) → n ≤ n
le_refl n = omega arith

le_pred : (a b : ℕ) → suc a ≤ suc b → a ≤ b
le_pred a b h = omega arith

-- What one round leaves of a file.
abbrev pub rest_of : ℕ → Bytes → Bytes
rest_of c file = (fgets 511 (c ∷ file)).1

pub rest_of-within :
    (c : ℕ) (file : Bytes) (n : ℕ) → suc (length file) ≤ suc n → length (rest_of c file) ≤ n
rest_of-within c file n h =
    le_trans (length (rest_of c file)) (length file) n (fgets-shorter 510 c file)
      (le_pred (length file) n h)

lines_in-enough :
    (n m : ℕ) (file : Bytes) → length file ≤ n → length file ≤ m → lines_in n file ≡ lines_in m file
unfolding lines_in get_line
lines_in-enough zero zero [] h k = refl
lines_in-enough zero (suc m) [] h k = refl
lines_in-enough (suc n) zero [] h k = refl
lines_in-enough (suc n) (suc m) [] h k = refl
lines_in-enough zero m (c ∷ file) h k = absurd (omega arith)
lines_in-enough (suc n) zero (c ∷ file) h k = absurd (omega arith)
lines_in-enough (suc n) (suc m) (c ∷ file) h k =
    ap (λ (x : List Bytes). chomp (c_string (fgets 511 (c ∷ file)).0) ∷ x)
      (lines_in-enough n m (rest_of c file) (rest_of-within c file n h) (rest_of-within c file m k))

-- One round of the loop.
pub lines_of-step :
    (c : ℕ) (file : Bytes)
    → lines_of (c ∷ file)
      ≡ chomp (c_string (fgets 511 (c ∷ file)).0) ∷ lines_of (fgets 511 (c ∷ file)).1
unfolding lines_of lines_in get_line
lines_of-step c file =
    ap (λ (x : List Bytes). chomp (c_string (fgets 511 (c ∷ file)).0) ∷ x)
      (lines_in-enough (length file) (length (rest_of c file)) (rest_of c file)
        (fgets-shorter 510 c file) (le_refl (length (rest_of c file))))

EndsLine-tail : (c : ℕ) (file : Bytes) → EndsLine (c ∷ file) → EndsLine file
EndsLine-tail c [] h = tt
EndsLine-tail c (d ∷ ds) h = h

fgets-append :
    (n c : ℕ) (file more : Bytes)
    → EndsLine (c ∷ file)
    → (fgets (suc n) (c ∷ file ++ more)
        ≡ ((fgets (suc n) (c ∷ file)).0, (fgets (suc n) (c ∷ file)).1 ++ more))
      × EndsLine (fgets (suc n) (c ∷ file)).1
unfolding fgets
fgets-append n c [] more h = rw h (refl, tt)
fgets-append zero c (d ∷ ds) more h = elim (Bool-cases (c == 10)) [
  | inl e ↦ rw e (refl, h)
  | inr e ↦ rw e (refl, h)
]
fgets-append (suc n) c (d ∷ ds) more h =
    let (same, ends) = fgets-append n d ds more h in
    elim (Bool-cases (c == 10)) [
      | inl e ↦ rw e (refl, h)
      | inr e ↦ rw e (ap (λ (x : Bytes × Bytes). (c ∷ x.0, x.1)) same, ends)
    ]

lines_of-append_within :
    (n : ℕ) (file more : Bytes)
    → length file ≤ n
    → EndsLine file
    → lines_of (file ++ more) ≡ lines_of file ++ lines_of more
lines_of-append_within n [] more h e = unfold lines_of lines_in in refl
lines_of-append_within zero (c ∷ file) more h e = absurd (omega arith)
lines_of-append_within (suc n) (c ∷ file) more h e =
    let (same, ends) = fgets-append 510 c file more e in
    let rest = (fgets 511 (c ∷ file)).1 in
    let line = chomp (c_string (fgets 511 (c ∷ file)).0) in
    let shorter : length rest ≤ n = rest_of-within c file n h in
    lines_of-step c (file ++ more)
    ∙ ap (λ (x : Bytes × Bytes). chomp (c_string x.0) ∷ lines_of x.1) same
    ∙ ap (λ (x : List Bytes). line ∷ x) (lines_of-append_within n rest more shorter ends)
    ∙ ap (λ (x : List Bytes). x ++ lines_of more) (sym (lines_of-step c file))

pub lines_of-append :
    (file more : Bytes) → EndsLine file → lines_of (file ++ more) ≡ lines_of file ++ lines_of more
lines_of-append file more e = lines_of-append_within (length file) file more (omega arith) e
