-- ===== src/Header.antt =====
-- `util_read_header` of src/util.c.
--
-- What the rounds of the loop receive is a script. After its end nothing more comes, which the wait
-- for the socket takes for a timeout. Where `recv` fails, `c` is what the round before left in it.
pub mod Whole
use icecast_server.Prelude.{
  length, Bytes, zero, suc, ◌+◌, ◌-◌, ◌*◌, ◌/◌, ◌%◌, ◌^◌, ◌≤◌, ◌<◌, ◌≡◌, refl, sym, ap, ◌∙◌, ◌≢◌,
  ◌↔◌, ◌⊎◌, inl, inr, Bool, true, false, not, ◌&&◌, ◌||◌, Option, none, some, List, [], ◌∷◌, ◌++◌,
  arith, ltb, leb, ◌==◌, if◌then◌else◌, Bool-cases, ℕ,
}

pub data Received : Type 0 where
  -- `util_timed_wait_for_fd` gives up
  timed_out : Received
  -- `recv` returns 0 or -1
  closed failed : Received
  byte : ℕ → Received

-- `if (c != '\r') buff[pos++] = c`
unfoldable pub store : ℕ → Bytes → Bytes
store c buff = if c == 13 then buff else buff ++ c ∷ []

-- `buff[pos - 1] == '\n'`, and with `entire` also `buff[pos - 2] == '\n'`, where `pos > 1`
unfoldable pub is_done : Bool → Bytes → Bool
is_done entire [] = false
is_done entire (a ∷ []) = false
is_done entire (a ∷ b ∷ []) = b == 10 && (not entire || a == 10)
is_done entire (a ∷ b ∷ c ∷ cs) = is_done entire (b ∷ c ∷ cs)

-- The loop, while `pos` is below `bound`: the buffer, and `ret`.
unfoldable pub read_rounds : ℕ → Bool → ℕ → Bytes → List Received → Bytes × Bool
unfolding store is_done
read_rounds bound entire c buff [] = (buff, false)
read_rounds bound entire c buff (timed_out ∷ script) = (buff, false)
read_rounds bound entire c buff (closed ∷ script) = (buff, false)
read_rounds bound entire c buff (failed ∷ script) =
    let buff' = store c buff in
    if ltb (length buff) bound then (buff', is_done entire buff') else (buff, false)
read_rounds bound entire c buff (byte d ∷ script) =
    let buff' = store d buff in
    let further = read_rounds bound entire d buff' script in
    if ltb (length buff) bound
    then (if is_done entire buff' then (buff', true) else further)
    else (buff, false)

-- `len - 1` of an `unsigned long`
abbrev pub last_place : ℕ → ℕ
last_place len = if len == 0 then 2 ^ 64 - 1 else len - 1

-- `util_read_header` with a buffer of `len` bytes; `c` is not set before the first round.
unfoldable pub read_header : ℕ → ℕ → Bool → List Received → Bytes × Bool
unfolding read_rounds
read_header c len entire script = read_rounds (last_place len) entire c [] script
