-- ===== src/Backends/Texts.antt =====
-- What the lines of a text file are.
use icecast_server.Prelude.{
  length, c_string, All, Bytes, zero, suc, ◌≤◌, ◌≡◌, refl, ap, ◌∙◌, ◌≢◌, ◌⊎◌, inl, inr, true, false,
  [], ◌∷◌, ◌++◌, arith, ◌==◌, Bool-cases, ℕ,
}
use icecast_server.Backends.Lines.{fgets, chomp, lines_in, lines_of}
use icecast_server.Backends.Read.{IsText, lines_of-step, rest_of, rest_of-within}
use icecast_server.Backends.Entries.{c_string-line, c_string-text, chomp-line, chomp-text}

-- A byte of a file of lines that end in a line feed alone.
abbrev pub IsPlain : ℕ → Type 0
IsPlain c = (c ≢ 0) × (c ≢ 13)

-- A line that the buffer holds.
abbrev pub FitsLine : Bytes → Type 0
FitsLine w = All IsText w × (length w ≤ 511)

-- A chunk: a line with its end, or without.
record Chunk (n : ℕ) (file : Bytes) (r : Bytes × Bytes) : Type 0 where
  line : Bytes
  text : All IsText line
  within : length line ≤ n
  stored : (r.0 ≡ line ++ 10 ∷ []) ⊎ (r.0 ≡ line)
  plain : All IsPlain r.1

longer :
    (n c : ℕ) (file : Bytes) (r : Bytes × Bytes)
    → IsText c
    → Chunk n file r
    → Chunk (suc n) (c ∷ file) (c ∷ r.0, r.1)
longer n c file r t k = record {
  line = c ∷ k.line;
  text = (t, k.text);
  within = omega (arith, k.within);
  stored = elim k.stored [ inl e ↦ inl (ap (◌∷◌ c) e) | inr e ↦ inr (ap (◌∷◌ c) e) ];
  plain = k.plain;
}

pub eqb→≡ : (a b : ℕ) → (a == b) ≡ true → a ≡ b
eqb→≡ a b h = ground (arith, h)

pub eqb→ne : (a b : ℕ) → (a == b) ≡ false → a ≢ b
eqb→ne a b h = ground (arith, h)

fgets-Chunk : (n : ℕ) (file : Bytes) → All IsPlain file → Chunk n file (fgets n file)
unfolding fgets
fgets-Chunk zero file h = record {
  line = [];
  text = tt;
  within = omega arith;
  stored = inr refl;
  plain = h;
}
fgets-Chunk (suc n) [] h = record {
  line = [];
  text = tt;
  within = omega arith;
  stored = inr refl;
  plain = tt;
}
fgets-Chunk (suc n) (c ∷ file) ((z, r), h) = elim (Bool-cases (c == 10)) [
  | inl e ↦
      rw e (record { line = []; text = tt; within = omega arith; stored = inl refl; plain = h })
  | inr e ↦ rw e (longer n c file (fgets n file) (z, eqb→ne c 10 e, r) (fgets-Chunk n file h))
]

chomp-Chunk :
    (n : ℕ) (file : Bytes) (r : Bytes × Bytes) (k : Chunk n file r) → chomp (c_string r.0) ≡ k.line
chomp-Chunk n file r k = elim k.stored [
  | inl e ↦
      ap (λ (x : Bytes). chomp (c_string x)) e
      ∙ ap chomp (c_string-line k.line k.text)
      ∙ chomp-line k.line k.text
  | inr e ↦
      ap (λ (x : Bytes). chomp (c_string x)) e
      ∙ ap chomp (c_string-text k.line k.text)
      ∙ chomp-text k.line k.text
]

lines_of-Fits :
    (n : ℕ) (file : Bytes) → length file ≤ n → All IsPlain file → All FitsLine (lines_of file)
lines_of-Fits n [] h p = unfold lines_of lines_in in tt
lines_of-Fits zero (c ∷ file) h p = absurd (omega arith)
lines_of-Fits (suc n) (c ∷ file) h p =
    let k = fgets-Chunk 511 (c ∷ file) p in
    rw (lines_of-step c file, chomp-Chunk 511 (c ∷ file) (fgets 511 (c ∷ file)) k)
      ((k.text, k.within), lines_of-Fits n (rest_of c file) (rest_of-within c file n h) k.plain)

pub lines_of-FitsLine : (file : Bytes) → All IsPlain file → All FitsLine (lines_of file)
lines_of-FitsLine file p = lines_of-Fits (length file) file (omega arith) p
