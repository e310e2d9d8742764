-- ===== src/Mp3/Titled.antt =====
-- The metadata of `mp3_set_title` of src/format_mp3.c.
use icecast_server.Prelude.{
  lt→ltb, le→ltb, ℕ, zero, suc, ◌+◌, ◌-◌, ◌*◌, ◌/◌, ◌%◌, ◌≤◌, ◌<◌, ◌≡◌, refl, sym, ap, ◌∙◌, Option,
  none, some, [], ◌∷◌, ◌++◌, arith, Bytes, codes, length, replicate, length-append, take-all,
}
use icecast_server.Mp3.{
  Mp3State, Comments, opt_length, both, url_part, title_len, max_meta_len, stream_title, stream_url,
  printed, title_url, pad, set_title,
}
use icecast_server.Mp3.Demux.{block_size}

abbrev pub url_text : Option Bytes → Bytes
url_text none = []
url_text (some url) = stream_url url

-- The text that the comments ask for.
abbrev pub title_text : Comments → Bytes
title_text vc = stream_title vc.artist vc.title ++ url_text vc.url

length-replicate : (n c : ℕ) → length (replicate n c) ≡ n
length-replicate zero c = refl
length-replicate (suc n) c = ap suc (length-replicate n c)

length-stream_title :
    (artist title : Option Bytes)
    → length (stream_title artist title)
      ≤ 15 + opt_length artist + opt_length title + both artist title
length-stream_title (some a) (some t) = omega (
  arith,
  length-append {0} a (codes " - " ++ (t ++ codes "';")),
  length-append {0} t (codes "';"),
)
length-stream_title none (some t) = omega (arith, length-append {0} t (codes "';"))
length-stream_title (some a) none = omega arith
length-stream_title none none = omega arith

printed-whole : (room : ℕ) (text : Bytes) → length text < room → printed room text ≡ text
printed-whole room text h = take-all (room - 1) text (omega (arith, h))

length-pad : (size : ℕ) (text : Bytes) → length text ≤ size → length (pad size text) ≡ size
length-pad size text h = omega (
  arith,
  length-append {0} text (replicate (size - length text) 0),
  length-replicate (size - length text) 0,
  h,
)

record Room (len len_byte size : ℕ) : Type 0 where
  count : len_byte * 16 + 1 ≡ size
  enough : len < size
  byte : len_byte < 256

room :
    (len : ℕ)
    → 16 ≤ len
    → len ≤ max_meta_len
    → Room len (((len - 1) / 16 + 1) % 256) (((len - 1) / 16 + 1) % 256 * 16 + 1)
room len h k = record { count = refl; enough = omega arith; byte = omega arith }

url_whole :
    (url : Option Bytes) (size r : ℕ)
    → r + url_part none url < size
    → (title_url none url size r ≡ url_text url) × (length (url_text url) ≤ url_part none url)
unfolding title_url
url_whole none size r h = (refl, omega arith)
url_whole (some url) size r h =
    let len = length-append {0} url (codes "';") in
    (printed-whole (size - r) (stream_url url) (omega (arith, len, h)), omega (arith, len))

-- Without a link of the source's own, the text is there whole, with a NUL after it.
text_whole :
    (vc : Comments) (len_byte size : ℕ)
    → title_len none vc < size
    → (n : ℕ) × (pad size (
          printed size (len_byte ∷ stream_title vc.artist vc.title)
          ++ title_url none vc.url size (suc (length (stream_title vc.artist vc.title))))
        ≡ len_byte ∷ (title_text vc ++ replicate (suc n) 0))
      × (suc (length (title_text vc)) + suc n ≡ size)
unfolding title_len
text_whole vc len_byte size h =
    let t = stream_title vc.artist vc.title in
    let short = length-stream_title vc.artist vc.title in
    let (url, url_len) = url_whole vc.url size (suc (length t)) (omega (arith, short, h)) in
    let title = printed-whole size (len_byte ∷ t) (omega (arith, short, h)) in
    let all = len_byte ∷ title_text vc in
    let len : length all ≡ suc (length t + length (url_text vc.url)) =
      omega (arith, length-append t (url_text vc.url)) in
    let n = size - length all - 1 in
    let zeros : size - length all ≡ suc n = omega (arith, len, short, url_len, h) in
    let made : pad size (printed size (len_byte ∷ t) ++ title_url none vc.url size (suc (length t)))
        ≡ pad size all =
      ap (λ (x : Bytes). pad size (x ++ title_url none vc.url size (suc (length t)))) title
      ∙ ap (λ (x : Bytes). pad size (len_byte ∷ (t ++ x))) url in
    (n, made ∙ ap (λ (k : ℕ). all ++ replicate k 0) zeros, omega (arith, zeros))

-- If the source sent no link of its own, and the text that `mp3_set_title` makes of the comments is
-- within `max_meta_len` as it reckons, the metadata is then one whole block, its first byte counts the
-- others in units of 16, and it holds that text whole and a NUL after it. If it is longer, nothing
-- changes.
pub set_title-whole :
    (vc : Comments) (s : Mp3State)
    → s.inline_url ≡ none
    → (title_len none vc ≤ max_meta_len
        → (len_byte n : ℕ) × ((set_title vc s).metadata
            ≡ len_byte ∷ (title_text vc ++ replicate (suc n) 0))
          × (len_byte < 256)
          × (length (set_title vc s).metadata ≡ block_size (set_title vc s).metadata))
      × (max_meta_len < title_len none vc → set_title vc s ≡ s)
unfolding set_title
set_title-whole vc s e = (fits, λ h. simp (e, lt→ltb max_meta_len (title_len none vc) h) refl)
  where
    fits :
        title_len none vc ≤ max_meta_len
        → (len_byte n : ℕ) × ((set_title vc s).metadata
            ≡ len_byte ∷ (title_text vc ++ replicate (suc n) 0))
          × (len_byte < 256)
          × (length (set_title vc s).metadata ≡ block_size (set_title vc s).metadata)
    fits h =
        let len = title_len none vc in
        let at_least : 16 ≤ len = unfold title_len in omega arith in
        let r = room len at_least h in
        let len_byte = ((len - 1) / 16 + 1) % 256 in
        let size = len_byte * 16 + 1 in
        let (n, whole, count) = text_whole vc len_byte size r.enough in
        let made : (set_title vc s).metadata
            ≡ pad size (
                printed size (len_byte ∷ stream_title vc.artist vc.title)
                ++ title_url none vc.url size (suc (length (stream_title vc.artist vc.title)))) =
          simp (e, le→ltb max_meta_len len h) refl in
        let all : (set_title vc s).metadata ≡ len_byte ∷ (title_text vc ++ replicate (suc n) 0) =
          made ∙ whole in
        let len_all : length (set_title vc s).metadata ≡ 1 + len_byte * 16 = omega (
          arith,
          ap length all,
          length-append (title_text vc) (replicate (suc n) 0),
          length-replicate n 0,
          count,
        ) in
        (len_byte, n, all, r.byte, len_all ∙ sym (ap block_size all))
