-- ===== src/Tests/Uri.antt =====
-- Tests of `Uri`.
use icecast_server.Prelude.{
  true, false, ◌++◌, ◌∷◌, [], ◌≡◌, refl, some, none, Bytes, codes, c_string, arith,
}
use icecast_server.Uri.{
  verify_path, normalise_uri, get_path_from_uri, url_escape, url_unescape, get_extension,
  check_valid_extension, xslt_content, unknown_content,
}
use icecast_server.Uri.RoundTrip.{url_unescape-escape}
use icecast_server.Uri.Segments.{segments, after_first, verify_path-segments}
use icecast_server.Uri.Confined.{IsConfined, get_path_from_uri-IsConfined}

escapes : url_escape (some (codes "a b/c")) ≡ some (codes "a%20b%2fc")
unfolding url_escape
escapes = refl

rejects :
    (normalise_uri (codes "/a/%2e%2E/b") ≡ none)
    × (normalise_uri (codes "/a//b") ≡ none)
    × (normalise_uri (codes "a/b") ≡ none)
    × (normalise_uri (codes "/a%2") ≡ none)
    × (normalise_uri (codes "/a/..b/c#d") ≡ some (codes "/a/..b/c"))
unfolding normalise_uri
rejects = (refl, refl, refl, refl, refl)

extensions :
    (get_extension (codes "/a.b/c.ogg") ≡ codes "ogg")
    × (check_valid_extension (some (codes "/status.xsl")) ≡ xslt_content)
    × (check_valid_extension (some (codes "/live")) ≡ unknown_content)
unfolding get_extension check_valid_extension
extensions = (refl, refl, refl)

abbrev mixed : Bytes
mixed = codes "a b%#" ++ (255 ∷ 1 ∷ [])

url_unescape-escape_example :
    (out : Bytes) × (url_escape (some mixed) ≡ some out) × (url_unescape out ≡ some mixed)
url_unescape-escape_example = url_unescape-escape mixed (omega arith)

verify_path-segments_example :
    verify_path (codes "/a/../b") ≡ after_first (segments (c_string (codes "/a/../b")))
verify_path-segments_example = verify_path-segments (codes "/a/../b")

encoded_path :
    get_path_from_uri (codes "/www") (codes "/a%2Fb/.c/..") ≡ some (codes "/www/a/b/.c/..")
unfolding get_path_from_uri c_string
encoded_path = refl

get_path_from_uri-IsConfined_example :
    (rest : Bytes) × (codes "/www/a/b/.c/.." ≡ c_string (codes "/www") ++ (b'/' ∷ rest))
    × IsConfined (segments rest)
get_path_from_uri-IsConfined_example =
    get_path_from_uri-IsConfined (codes "/www") (codes "/a%2Fb/.c/..") encoded_path

-- It leads out of the web root.
dots_at_end : verify_path (codes "/a/../..") ≡ false
unfolding verify_path
dots_at_end = refl

accepts_dots : verify_path (codes "/..") ≡ true
unfolding verify_path
accepts_dots = refl
