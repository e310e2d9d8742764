-- ===== src/Admin.antt =====
-- The commands of the admin interface: the table `handlers` and `admin_get_command` of src/admin.c.
use icecast_server.Prelude.{
  ℕ, ◌+◌, List, [], ◌∷◌, Option, none, some, Bytes, codes, str_eq, if◌then◌else◌,
}

-- The routes of `handlers`, in order.
abbrev pub routes : List Bytes
routes =
    codes "*"
    ∷ codes "fallbacks"
    ∷ codes "fallbacks.xsl"
    ∷ codes "metadata"
    ∷ codes "metadata.xsl"
    ∷ codes "admin.cgi"
    ∷ codes "listclients"
    ∷ codes "listclients.xsl"
    ∷ codes "stats"
    ∷ codes "stats.xsl"
    ∷ codes "stats.xml"
    ∷ codes "reloadconfig"
    ∷ codes "reloadconfig.xsl"
    ∷ codes "listmounts"
    ∷ codes "listmounts.xsl"
    ∷ codes "streamlist"
    ∷ codes "streamlist.txt"
    ∷ codes "streamlist.xsl"
    ∷ codes "moveclients"
    ∷ codes "moveclients.xsl"
    ∷ codes "killclient"
    ∷ codes "killclient.xsl"
    ∷ codes "killsource"
    ∷ codes "killsource.xsl"
    ∷ codes "manageauth"
    ∷ codes "manageauth.xsl"
    ∷ codes "updatemetadata"
    ∷ codes "updatemetadata.xsl"
    ∷ codes "buildm3u"
    ∷ codes ""
    ∷ codes ""
    ∷ []

-- The loop, at a handler's index.
unfoldable pub find_command : List Bytes → ℕ → Bytes → Option ℕ
unfolding str_eq
find_command [] i command = none
find_command (route ∷ rest) i command =
    let further = find_command rest (i + 1) command in
    if str_eq route command then some i else further

-- `none` is ADMIN_COMMAND_ERROR.
unfoldable pub admin_get_command : Bytes → Option ℕ
unfolding find_command
admin_get_command command = find_command routes 0 command
