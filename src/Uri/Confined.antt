-- ===== src/Uri/Confined.antt =====
-- What a path under the web root can look like that `util_get_path_from_uri` returns.
use icecast_server.Prelude.{
  Bool, true, false, ◌||◌, List, [], ◌∷◌, ◌++◌, ◌≡◌, ◌≢◌, refl, subst, Option, none, some, arith,
  Bytes, codes, c_string, ◌==◌, if◌then◌else◌, Bool-cases, inl, inr, ==_iff,
}
use icecast_server.Uri.Coding.{emit, url_unescape}
use icecast_server.Uri.RoundTrip.{url_unescape-plain}
use icecast_server.Uri.Segments.{segments, all_dots, inner_ok, verify_path-segments}
use icecast_server.Uri.{
  verify_from, verify_path, normalise_uri, get_path_from_normalised_uri, get_path_from_uri,
}

-- No segment but the last is empty, "." or "..".
abbrev pub IsConfined : List Bytes → Type 0
IsConfined [] = Unit
IsConfined (s ∷ []) = Unit
IsConfined (s ∷ t ∷ rest) = ((s ≢ []) × (s ≢ codes ".") × (s ≢ codes "..")) × IsConfined (t ∷ rest)

inner_ok-IsConfined : (segs : List Bytes) → inner_ok segs ≡ true → IsConfined segs
inner_ok-IsConfined [] h = tt
inner_ok-IsConfined (s ∷ []) h = tt
inner_ok-IsConfined (s ∷ t ∷ rest) h =
    (dots s (ground arith), inner_ok-IsConfined (t ∷ rest) (ground arith))
  where
    dots : (s : Bytes) → all_dots s ≡ false → (s ≢ []) × (s ≢ codes ".") × (s ≢ codes "..")
    dots s e = (λ p. cc, λ p. cc, λ p. cc)

url_unescape-slash : (uri : Bytes) → url_unescape (b'/' ∷ uri) ≡ emit b'/' (url_unescape uri)
url_unescape-slash uri = url_unescape-plain b'/' uri refl

-- The test on a decoded path that begins with '/'.
abbrev checked : Bytes → Option Bytes
checked path = if verify_path path then some path else none

checked-IsConfined :
    (rest : Bytes) {path : Bytes}
    → checked (b'/' ∷ rest) ≡ some path
    → (path ≡ b'/' ∷ rest) × IsConfined (segments (c_string rest))
checked-IsConfined rest h = elim (Bool-cases (verify_path (b'/' ∷ rest))) [
  | inl e ↦ (
    cc (rw e at h),
    inner_ok-IsConfined _ (unfold segments c_string in rw verify_path-segments at e),
  )
  | inr e ↦ absurd (cc (rw e at h))
]

normalise_uri-slash :
    (uri : Bytes)
    → normalise_uri (b'/' ∷ uri)
      ≡ (elim (emit b'/' (url_unescape uri)) [ none ↦ none | some path ↦ checked path ])
unfolding normalise_uri
normalise_uri-slash uri = rw url_unescape-slash

decoded-IsConfined :
    (o : Option Bytes) {path : Bytes}
    → (elim (emit b'/' o) [ none ↦ none | some p ↦ checked p ]) ≡ some path
    → (rest : Bytes) × (path ≡ b'/' ∷ rest) × IsConfined (segments (c_string rest))
decoded-IsConfined none h = absurd (cc)
decoded-IsConfined (some rest) h = let (p, q) = checked-IsConfined rest h in (rest, p, q)

-- An accepted URI begins with '/', and so does its path; the rest of the path is confined.
normalise_uri-IsConfined :
    (uri : Bytes) {path : Bytes}
    → normalise_uri uri ≡ some path
    → (rest : Bytes) × (path ≡ b'/' ∷ rest) × IsConfined (segments (c_string rest))
normalise_uri-IsConfined [] h = absurd (unfold normalise_uri in cc)
normalise_uri-IsConfined (c ∷ uri) {path} h = elim (Bool-cases (c == b'/')) [
  | inr e ↦ absurd (unfold normalise_uri in cc (rw e at h))
  | inl e ↦ decoded-IsConfined (url_unescape uri) (
      rw normalise_uri-slash at
        (subst (λ d. normalise_uri (d ∷ uri) ≡ some path) ((==_iff c b'/').0 e) h))
]

-- A path that `util_get_path_from_uri` returns is the web root, a '/' and segments of which none but
-- the last is empty, "." or "..", whatever was percent-encoded in the URI.
pub get_path_from_uri-IsConfined :
    (webroot uri : Bytes) {full : Bytes}
    → get_path_from_uri webroot uri ≡ some full
    → (rest : Bytes) × (full ≡ c_string webroot ++ (b'/' ∷ rest)) × IsConfined (segments rest)
get_path_from_uri-IsConfined webroot uri {full} h =
    found (normalise_uri uri) refl (unfold get_path_from_uri in h)
  where
    found :
        (o : Option Bytes)
        → normalise_uri uri ≡ o
        → (elim o [ none ↦ none | some p ↦ some (get_path_from_normalised_uri webroot p) ])
          ≡ some full
        → (rest : Bytes) × (full ≡ c_string webroot ++ (b'/' ∷ rest)) × IsConfined (segments rest)
    found none e k = absurd (cc)
    found (some path) e k =
        let (rest, p, q) = normalise_uri-IsConfined uri e in
        (c_string rest, unfold get_path_from_normalised_uri c_string in cc, q)

verify_from-append_dots :
    (p : Bytes) (dir dots : Bool)
    → verify_from dir dots (p ++ codes "/..") ≡ verify_from dir dots (p ++ codes "/")
unfolding verify_from
verify_from-append_dots [] dir dots = refl
verify_from-append_dots (c ∷ cs) dir dots = ground (
  arith,
  verify_from-append_dots cs true dots,
  verify_from-append_dots cs false (if dir || dots then c == b'.' else dots),
)

-- A ".." behind the last slash is not looked at: it is accepted wherever the path that ends in the
-- slash is accepted.
pub verify_path-append_dots :
    (p : Bytes) → verify_path (p ++ codes "/..") ≡ verify_path (p ++ codes "/")
unfolding verify_path
verify_path-append_dots p = verify_from-append_dots p false false
