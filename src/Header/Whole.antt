-- ===== src/Header/Whole.antt =====
-- What is in the buffer after the loop.
use icecast_server.Prelude.{
  take, ltb→le, append_assoc, append-nil, ◌-◌, refl, sym, ap, ◌∙◌, ◌⊎◌, inl, inr, true, false, ◌++◌,
  if◌then◌else◌, Bool-cases, ltb→lt, length-append, by_test, zero, suc, ◌≤◌, ◌<◌, ◌≡◌, Bool, List,
  [], ◌∷◌, arith, ltb, ◌==◌, ℕ,
}
use icecast_server.Header.{
  length, Bytes, Received, timed_out, closed, failed, byte, store, is_done, read_rounds,
  read_header, last_place,
}

store-within :
    (c : ℕ) (buff : Bytes) (bound : ℕ) → length buff < bound → length (store c buff) ≤ bound
unfolding store
store-within c buff bound h =
    by_test (λ (x : Bytes). length x ≤ bound) (c == 13) _ _ (λ e. omega (arith, h))
      (λ e. rw (length-append buff (c ∷ [])) (omega (arith, h)))

read_rounds-within :
    (bound : ℕ) (entire : Bool) (c : ℕ) (buff : Bytes) (script : List Received)
    → length buff ≤ bound
    → length (read_rounds bound entire c buff script).0 ≤ bound
unfolding read_rounds
read_rounds-within bound entire c buff [] h = h
read_rounds-within bound entire c buff (timed_out ∷ script) h = h
read_rounds-within bound entire c buff (closed ∷ script) h = h
read_rounds-within bound entire c buff (failed ∷ script) h =
    by_test (λ (r : Bytes × Bool). length r.0 ≤ bound) (ltb (length buff) bound) _ _
      (λ e. store-within c buff bound (ltb→lt (length buff) bound e)) (λ e. h)
read_rounds-within bound entire c buff (byte d ∷ script) h =
    by_test (λ (r : Bytes × Bool). length r.0 ≤ bound) (ltb (length buff) bound) _ _
      (λ e.
        let stored = store-within d buff bound (ltb→lt (length buff) bound e) in
        by_test (λ (r : Bytes × Bool). length r.0 ≤ bound) (is_done entire (store d buff)) _ _
          (λ f. stored) (λ f. read_rounds-within bound entire d (store d buff) script stored))
      (λ e. h)

last_place-suc : (n : ℕ) → last_place (suc n) ≡ n
last_place-suc n = ground arith

-- Whatever the socket does, what util_read_header leaves in a buffer of len bytes, len not 0, has
-- place for a NUL after it.
pub read_header-within :
    (c len : ℕ) (entire : Bool) (script : List Received)
    → 0 < len
    → length (read_header c len entire script).0 < len
unfolding read_header
read_header-within c (suc n) entire script h =
    let w = read_rounds-within (last_place (suc n)) entire c [] script (omega arith) in
    omega (arith, w, last_place-suc n)
read_header-within c zero entire script h = absurd (omega (arith, h))

-- The bytes come one by one, and then this.
abbrev pub of_bytes : Bytes → Received → List Received
of_bytes [] end = end ∷ []
of_bytes (b ∷ bs) end = byte b ∷ of_bytes bs end

abbrev pub Quiet : Received → Type 0
Quiet failed = ⊥
Quiet timed_out = Unit
Quiet closed = Unit
Quiet (byte b) = ⊥

-- Without carriage returns.
abbrev pub strip : Bytes → Bytes
strip [] = []
strip (c ∷ cs) = let rest = strip cs in if c == 13 then rest else c ∷ rest

-- The result is what stands in the first bytes, as far as the first place where the header is done.
pub record ReadUpTo (bound : ℕ) (entire : Bool) (buff bytes : Bytes) (r : Bytes × Bool)
    : Type 0 where
  pub used : ℕ
  pub text : r.0 ≡ buff ++ strip (take used bytes)
  pub done : r.1 ≡ is_done entire r.0
  pub earlier : (m : ℕ) → m < used → is_done entire (buff ++ strip (take m bytes)) ≡ false
  pub stops : (r.1 ≡ true) ⊎ (length r.0 ≡ bound) ⊎ (used ≡ length bytes)

store-strip : (b : ℕ) (buff cs : Bytes) → store b buff ++ strip cs ≡ buff ++ strip (b ∷ cs)
unfolding store
store-strip b buff cs = elim (Bool-cases (b == 13)) [
  | inl e ↦ rw e refl
  | inr e ↦ rw e (append_assoc buff (b ∷ []) (strip cs))
]

before :
    (entire : Bool) (buff bytes : Bytes)
    → is_done entire buff ≡ false
    → is_done entire (buff ++ strip (take 0 bytes)) ≡ false
before entire buff bytes h = ap (is_done entire) (append-nil buff) ∙ h

-- Nothing is used.
stays :
    (bound : ℕ) (entire : Bool) (buff bytes : Bytes)
    → is_done entire buff ≡ false
    → (length buff ≡ bound) ⊎ (0 ≡ length bytes)
    → ReadUpTo bound entire buff bytes (buff, false)
stays bound entire buff bytes h why = record {
  used = 0;
  text = sym (append-nil buff);
  done = sym h;
  earlier = λ m lt. absurd (omega (arith, lt));
  stops = inr why;
}

-- One byte is used, and the header is done.
ends_here :
    (bound : ℕ) (entire : Bool) (b : ℕ) (buff bytes : Bytes)
    → is_done entire buff ≡ false
    → is_done entire (store b buff) ≡ true
    → ReadUpTo bound entire buff (b ∷ bytes) (store b buff, true)
ends_here bound entire b buff bytes h d = record {
  used = 1;
  text = sym (append-nil (store b buff)) ∙ store-strip b buff [];
  done = sym d;
  earlier = λ m lt.
      let zero_first : m ≡ 0 = omega (arith, lt) in
      rw zero_first (before entire buff (b ∷ bytes) h);
  stops = inl refl;
}

later_too :
    (entire : Bool) (b : ℕ) (buff bytes : Bytes) (used : ℕ)
    → is_done entire buff ≡ false
    → ((m : ℕ) → m < used → is_done entire (store b buff ++ strip (take m bytes)) ≡ false)
    → (m : ℕ) → m < suc used
    → is_done entire (buff ++ strip (take m (b ∷ bytes))) ≡ false
later_too entire b buff bytes used h earlier zero lt = before entire buff (b ∷ bytes) h
later_too entire b buff bytes used h earlier (suc m) lt =
    ap (is_done entire) (sym (store-strip b buff (take m bytes))) ∙ earlier m (omega (arith, lt))

goes_on :
    (bound : ℕ) (entire : Bool) (b : ℕ) (buff bytes : Bytes) (r : Bytes × Bool)
    → is_done entire buff ≡ false
    → ReadUpTo bound entire (store b buff) bytes r
    → ReadUpTo bound entire buff (b ∷ bytes) r
goes_on bound entire b buff bytes r h k = record {
  used = suc k.used;
  text = k.text ∙ store-strip b buff (take k.used bytes);
  done = k.done;
  earlier = later_too entire b buff bytes k.used h k.earlier;
  stops = elim k.stops [
    | inl t ↦ inl t
    | inr (inl full) ↦ inr (inl full)
    | inr (inr all) ↦ inr (inr (ap suc all))
  ];
}

read_rounds-ReadUpTo :
    (bound : ℕ) (entire : Bool) (c : ℕ) (buff bytes : Bytes) (end : Received)
    → Quiet end
    → length buff ≤ bound
    → is_done entire buff ≡ false
    → ReadUpTo bound entire buff bytes (read_rounds bound entire c buff (of_bytes bytes end))
unfolding read_rounds
read_rounds-ReadUpTo bound entire c buff [] timed_out q w h =
    stays bound entire buff [] h (inr refl)
read_rounds-ReadUpTo bound entire c buff [] closed q w h = stays bound entire buff [] h (inr refl)
read_rounds-ReadUpTo bound entire c buff [] failed q w h = absurd q
read_rounds-ReadUpTo bound entire c buff [] (byte b) q w h = absurd q
read_rounds-ReadUpTo bound entire c buff (b ∷ bytes) end q w h =
    by_test (ReadUpTo bound entire buff (b ∷ bytes)) (ltb (length buff) bound) _ _
      (λ room.
        by_test (ReadUpTo bound entire buff (b ∷ bytes)) (is_done entire (store b buff)) _ _
          (λ d. ends_here bound entire b buff bytes h d)
          (λ d. goes_on bound entire b buff bytes _ h (
            read_rounds-ReadUpTo bound entire b (store b buff) bytes end q
              (store-within b buff bound (ltb→lt (length buff) bound room)) d)))
      (λ full.
        stays bound entire buff (b ∷ bytes) h
          (inl (let least = ltb→le (length buff) bound full in omega (arith, least, w))))

-- If the bytes come one by one, and then the wait ends or the connection is closed, what
-- util_read_header leaves in a buffer of len bytes, len not 0, are the first of them without carriage
-- returns, of which no shorter part is a header that is done; it returns 1 exactly if they are one,
-- and else they are all that came or fill len - 1 places.
pub read_header-ReadUpTo :
    (c len : ℕ) (entire : Bool) (bytes : Bytes) (end : Received)
    → Quiet end
    → 0 < len
    → ReadUpTo (len - 1) entire [] bytes (read_header c len entire (of_bytes bytes end))
unfolding read_header
read_header-ReadUpTo c (suc n) entire bytes end q h =
    let e : suc n - 1 ≡ n = omega arith in
    rw (last_place-suc n, e)
      (read_rounds-ReadUpTo n entire c [] bytes end q (omega arith) (unfold is_done in refl))
read_header-ReadUpTo c zero entire bytes end q h = absurd (omega (arith, h))
