-- ===== src/Tests/Text.antt =====
-- Tests of `Base64` and `Dict`.
use icecast_server.Prelude.{
  [], ◌++◌, ◌≡◌, ◌≢◌, refl, some, arith, true, Bytes, codes, str_eq, replicate, inl, if◌then◌else◌,
}
use icecast_server.Base64.{base64_encode, base64_decode}
use icecast_server.Base64.RoundTrip.{base64_decode-encode}
use icecast_server.Uri.{escape_byte}
use icecast_server.Dict.{Dict, dict_new, dict_set, dict_get, dict_urlencode}
use icecast_server.Dict.Laws.{Keyed, dict_set-get}

abbrev user : Bytes
user = codes "user:pass"

base64_decode-encode_example :
    base64_decode (base64_encode 0 (codes "user:")) ≡ some (codes "user:" ++ replicate 1 0)
base64_decode-encode_example =
    base64_decode-encode 0 (omega arith) (codes "user:")
      (omega arith, (omega arith, (omega arith, (omega arith, (omega arith, tt)))))

encodes : base64_encode 0 (codes "user:") ≡ codes "dXNlcjo="
unfolding base64_encode
encodes = refl

dict_set-get_example :
    ((dict_set dict_new (some (codes "action")) user).0 ≡ true)
    × ((dict_set dict_new (some (codes "action")) user).1 ≢ [])
    × Keyed (dict_set dict_new (some (codes "action")) user).1
    × ((other : Bytes)
        → dict_get (dict_set dict_new (some (codes "action")) user).1 other
          ≡ (if str_eq other (codes "action") then some user else dict_get dict_new other))
dict_set-get_example = dict_set-get dict_new (codes "action") user (inl refl)

abbrev params : Dict
params =
    (dict_set (dict_set dict_new (some (codes "a")) (codes "b")).1 (some (codes "c")) (codes "/")).1

prints : dict_urlencode params b'&' ≡ some (codes "a=b&c=%2f")
unfolding dict_urlencode dict_set escape_byte
prints = refl
