-- ===== src/Backends/Lines.antt =====
-- `get_line` of src/util.c, on the bytes that are left of a file, with `fgets` of the C library.
use icecast_server.Prelude.{
  length, c_string, Bytes, zero, suc, ◌-◌, Bool, false, Option, none, some, List, [], ◌∷◌, ◌==◌,
  if◌then◌else◌, ℕ,
}

-- `fgets`, after which so many bytes fit: what it stores, and what is left of the file.
unfoldable pub fgets : ℕ → Bytes → Bytes × Bytes
fgets zero file = ([], file)
fgets (suc n) [] = ([], [])
fgets (suc n) (c ∷ file) =
    let (more, rest) = fgets n file in if c == 10 then (10 ∷ [], file) else (c ∷ more, rest)

-- `buf[len-1] == c` with `len > 0`
unfoldable pub ends_in : ℕ → Bytes → Bool
ends_in c [] = false
ends_in c (d ∷ []) = d == c
ends_in c (d ∷ e ∷ es) = ends_in c (e ∷ es)

-- `buf[--len] = 0`
unfoldable pub drop_last : Bytes → Bytes
drop_last [] = []
drop_last (d ∷ []) = []
drop_last (d ∷ e ∷ es) = d ∷ drop_last (e ∷ es)

-- The line without its end.
unfoldable pub chomp : Bytes → Bytes
unfolding ends_in drop_last
chomp buf =
    if ends_in 10 buf
    then (let line = drop_last buf in if ends_in 13 line then drop_last line else line)
    else buf

-- `get_line` with a buffer of `siz` bytes.
unfoldable pub get_line : ℕ → Bytes → Option (Bytes × Bytes)
unfolding fgets chomp c_string
get_line siz [] = none
get_line siz (c ∷ file) =
    let (buf, rest) = fgets (siz - 1) (c ∷ file) in some (chomp (c_string buf), rest)

abbrev pub max_line_len : ℕ
max_line_len = 512

-- The lines that a loop over `get_line` sees, on fuel.
unfoldable pub lines_in : ℕ → Bytes → List Bytes
unfolding get_line
lines_in zero file = []
lines_in (suc n) file = elim (get_line max_line_len file) [
  | none ↦ []
  | some (line, rest) ↦ line ∷ lines_in n rest
]

-- Each round takes at least one byte.
unfoldable pub lines_of : Bytes → List Bytes
unfolding lines_in
lines_of file = lines_in (length file) file
