-- ===== src/Tests/Header.antt =====
-- Tests of `Header`.
use icecast_server.Prelude.{length, codes, Bytes, ◌-◌, ◌<◌, ◌≡◌, refl, true, [], ◌∷◌, ◌++◌, arith}
use icecast_server.Header.{closed, failed, byte, read_header}
use icecast_server.Header.Whole.{of_bytes, ReadUpTo, read_header-within, read_header-ReadUpTo}

-- A request with two lines and its empty line, and a byte of the body.
abbrev request : Bytes
request = codes "GET" ++ 13 ∷ 10 ∷ codes "A:b" ++ 13 ∷ 10 ∷ 13 ∷ 10 ∷ codes "x"

reads :
    read_header 0 100 true (of_bytes request closed)
    ≡ (codes "GET" ++ 10 ∷ codes "A:b" ++ 10 ∷ 10 ∷ [], true)
unfolding read_header
reads = refl

-- A failing `recv` after a line stores the last byte again, which ends the header.
ends_by_failure :
    read_header 0 100 true (byte b'G' ∷ byte 13 ∷ byte 10 ∷ failed ∷ [])
    ≡ (b'G' ∷ 10 ∷ 10 ∷ [], true)
unfolding read_header
ends_by_failure = refl

read_header-within_example : length (read_header 0 4 true (of_bytes request failed)).0 < 4
read_header-within_example = read_header-within 0 4 true (of_bytes request failed) (omega arith)

read_header-ReadUpTo_example :
    ReadUpTo (100 - 1) true [] request (read_header 0 100 true (of_bytes request closed))
read_header-ReadUpTo_example = read_header-ReadUpTo 0 100 true request closed tt (omega arith)
