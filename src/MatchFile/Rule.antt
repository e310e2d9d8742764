-- ===== src/MatchFile/Rule.antt =====
-- Who is allowed, and when a file is read again.
use icecast_server.Prelude.{
  ◌==◌, lt→ltb, ◌≢◌, true, refl, ◌+◌, ◌<◌, ◌≤◌, if◌then◌else◌, Bool-cases, false, inl, inr, ℕ, ◌≡◌,
  List, [], ◌∷◌, Option, none, some, Bytes, str_eq_iff, ltb, arith, ◌⊎◌, ◌↔◌,
}
use icecast_server.MatchFile.{
  recheck_mtime, reload, recheck, MatchFile, Disk, is_skipped, read_lines, holds_key,
  matchfile_match, contents_match, is_match, is_null, match_key, match_allow_deny,
}

-- The key is a line that the file has.
abbrev pub Listed : Bytes → List Bytes → Type 0
Listed key [] = ⊥
Listed key (line ∷ lines) = (key ≡ line) ⊎ Listed key lines

abbrev ListedIn : Bytes → Option (List Bytes) → Type 0
ListedIn key none = ⊥
ListedIn key (some lines) = Listed key lines

-- There is a file, and it lists the key when it was read again.
abbrev pub Lists : Disk → Option MatchFile → Bytes → Type 0
Lists disk none key = ⊥
Lists disk (some file) key = ListedIn key (recheck disk file).contents

holds_key_iff : (lines : List Bytes) (key : Bytes) → (holds_key lines key ≡ true) ↔ Listed key lines
unfolding holds_key
holds_key_iff [] key = ground arith
holds_key_iff (line ∷ lines) key = ground (arith, holds_key_iff lines key, str_eq_iff key line)

contents_match_iff :
    (c : Option (List Bytes)) (key : Bytes) → (contents_match c key ≡ true) ↔ ListedIn key c
unfolding contents_match
contents_match_iff none key = ground arith
contents_match_iff (some lines) key = holds_key_iff lines key

match_iff :
    (disk : Disk) (file : Option MatchFile) (key : Bytes)
    → (is_match (matchfile_match disk file key).1 ≡ true) ↔ Lists disk file key
unfolding is_match matchfile_match
match_iff disk none key = ground arith
match_iff disk (some file) key = contents_match_iff (recheck disk file).contents key

-- The decision, from what the two files say.
decided :
    (d e : Disk) (allow deny : Option MatchFile) (key : Bytes)
    → (match_key d e allow deny key).allowed ≡ (
        if is_match (matchfile_match d deny key).1
        then false
        else if is_match (matchfile_match e allow key).1
        then true
        else is_null allow)
unfolding match_key
decided d e allow deny key = ground arith

by_rule :
    (d e : Disk) (allow deny : Option MatchFile) (key : Bytes)
    → ((match_key d e allow deny key).allowed ≡ true)
      ↔ ((¬ Lists d deny key) × (is_null allow ≡ false → Lists e allow key))
by_rule d e allow deny key = elim (Bool-cases (is_match (matchfile_match d deny key).1)) [
  | inl banned ↦ (
    λ h. absurd (ground (arith, decided d e allow deny key, banned, h)),
    λ r. absurd (r.0 ((match_iff d deny key).0 banned)),
  )
  | inr free ↦ elim (Bool-cases (is_match (matchfile_match e allow key).1)) [
    | inl listed ↦ (
      λ h. (not_banned free, λ q. (match_iff e allow key).0 listed),
      λ r. ground (arith, decided d e allow deny key, free, listed),
    )
    | inr other ↦ (
      λ h. (
        not_banned free,
        λ q. absurd (ground (arith, decided d e allow deny key, free, other, h, q)),
      ),
      λ r. elim (Bool-cases (is_null allow)) [
        | inl n ↦ ground (arith, decided d e allow deny key, free, other, n)
        | inr n ↦ let yes = (match_iff e allow key).1 (r.1 n) in ground (arith, yes, other)
      ],
    )
  ]
]
  where
    not_banned : is_match (matchfile_match d deny key).1 ≡ false → ¬ Lists d deny key
    not_banned free q = let yes = (match_iff d deny key).1 q in ground (arith, yes, free)

-- A key is allowed exactly if the deny file, when there is one, does not list it and the allow file,
-- when there is one, does; each as it was read last.
pub match_allow_deny_iff :
    (deny_disk allow_disk : Disk) (allow deny : Option MatchFile) (key : Bytes)
    → ((match_allow_deny deny_disk allow_disk allow deny (some key)).allowed ≡ true)
      ↔ ((¬ Lists deny_disk deny key) × (is_null allow ≡ false → Lists allow_disk allow key))
unfolding match_allow_deny
match_allow_deny_iff d e none none key = (λ h. (λ q. q, λ n. absurd (cc (n))), λ h. refl)
match_allow_deny_iff d e (some a) none key = by_rule d e (some a) none key
match_allow_deny_iff d e none (some f) key = by_rule d e none (some f) key
match_allow_deny_iff d e (some a) (some f) key = by_rule d e (some a) (some f) key

-- The key is a line of what the file had, and not a skipped one.
read_lines_lem :
    (lines : List Bytes) (key : Bytes)
    → Listed key (read_lines lines) ↔ (Listed key lines × (is_skipped key ≡ false))
unfolding read_lines
read_lines_lem [] key = ground arith
read_lines_lem (line ∷ lines) key =
    let ih = read_lines_lem lines key in
    elim (Bool-cases (is_skipped line)) [
      | inl e ↦ simp e (
        λ h. (inr (ih.0 h).0, (ih.0 h).1),
        λ (w, k). elim w [ inl q ↦ absurd (skips line key e q k) | inr l ↦ ih.1 (l, k) ],
      )
      | inr e ↦ simp e (
        λ w. elim w [ inl q ↦ (inl q, rw q e) | inr l ↦ (inr (ih.0 l).0, (ih.0 l).1) ],
        λ (w, k). elim w [ inl q ↦ inl q | inr l ↦ inr (ih.1 (l, k)) ],
      )
    ]
  where
    skips : (line key : Bytes) → is_skipped line ≡ true → key ≡ line → is_skipped key ≡ false → ⊥
    skips line key e q k = let k' : is_skipped line ≡ false = rw q at k in cc

-- When the last look is long enough ago, and the file can be opened and has another time of
-- modification than before, what it lists is each of its lines that is neither empty nor a comment;
-- and no look within the next 10 seconds changes that.
pub recheck-Lists :
    (disk : Disk) (file : MatchFile) (mtime : ℕ) (lines : List Bytes)
    → file.file_recheck ≤ disk.now
    → disk.mtime ≡ some mtime
    → mtime ≢ file.file_mtime
    → disk.lines ≡ some lines
    → ((key : Bytes) → Lists disk (some file) key ↔ (Listed key lines × (is_skipped key ≡ false)))
      × ((later : Disk)
          → later.now < disk.now + 10
          → recheck later (recheck disk file) ≡ recheck disk file)
unfolding recheck recheck_mtime reload
recheck-Lists disk file mtime lines due m changed l =
    let on_time : ltb disk.now file.file_recheck ≡ false = ground (arith, due) in
    let other : (mtime == file.file_mtime) ≡ false = ground (arith, changed) in
    simp (on_time, m, other, l)
      (
        λ key. read_lines_lem lines key,
        λ later h.
            let early : ltb later.now (disk.now + 10) ≡ true = lt→ltb later.now (disk.now + 10) h in
            simp early refl,
      )
