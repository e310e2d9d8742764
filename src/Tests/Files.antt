-- ===== src/Tests/Files.antt =====
-- Tests of `MatchFile`.
use icecast_server.Prelude.{
  ◌<◌, List, ◌∷◌, [], ◌≡◌, refl, some, none, true, false, Bytes, codes, ◌↔◌, arith,
}
use icecast_server.MatchFile.{MatchFile, Disk, is_skipped, recheck, match_allow_deny, is_null}
use icecast_server.MatchFile.Rule.{Lists, Listed, match_allow_deny_iff, recheck-Lists}

abbrev written : List Bytes
written = codes "# hosts" ∷ codes "10.0.0.1" ∷ []

abbrev disk : Disk
disk = record { now = 100; mtime = some 7; lines = some written }

abbrev hosts : MatchFile
hosts = record { filename = codes "deny"; file_recheck = 0; file_mtime = 0; contents = none }

match_allow_deny_iff_example :
    ((match_allow_deny disk disk none (some hosts) (some (codes "10.0.0.1"))).allowed ≡ true) ↔ (
      (¬ Lists disk (some hosts) (codes "10.0.0.1"))
      × (is_null none ≡ false → Lists disk none (codes "10.0.0.1")))
match_allow_deny_iff_example = match_allow_deny_iff disk disk none (some hosts) (codes "10.0.0.1")

denies : (match_allow_deny disk disk none (some hosts) (some (codes "10.0.0.1"))).allowed ≡ false
unfolding match_allow_deny
denies = refl

recheck-Lists_example :
    ((key : Bytes) → Lists disk (some hosts) key ↔ (Listed key written × (is_skipped key ≡ false)))
    × ((later : Disk) → later.now < 110 → recheck later (recheck disk hosts) ≡ recheck disk hosts)
recheck-Lists_example =
    recheck-Lists disk hosts 7 written (omega arith) refl (λ e. absurd (omega (arith, e))) refl
