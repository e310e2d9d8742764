-- ===== src/Tests/Players.antt =====
-- Tests of `Playlist` and `Auth`.
use icecast_server.Prelude.{
  suc, ℕ, ◌≤◌, ◌+◌, ◌∷◌, [], ◌++◌, ◌≡◌, refl, some, none, true, codes, pos, drop, length,
}
use icecast_server.Playlist.{Playlist, Comment, playlist_new, push_track, read_tags, blank}
use icecast_server.Playlist.Kept.{excess, push_track-Kept}
use icecast_server.Acl.{Acl, allow}
use icecast_server.Auth.{Auth, AuthClient, auth_ok, no_match, add_client, result}
use icecast_server.Auth.Granted.{Verdict, add_client-Verdict}

abbrev song : Comment
song key = some key

abbrev two : Playlist
two = push_track (some song) (push_track none (playlist_new (pos 2)))

push_track-Kept_example :
    ((push_track none two).tracks
      ≡ drop (excess two.max_tracks (length two.tracks + 1)) two.tracks
        ++ read_tags none blank ∷ [])
    × ((m : ℕ) → two.max_tracks ≡ pos (suc m) → length (push_track none two).tracks ≤ suc m)
    × ((push_track none two).max_tracks ≡ two.max_tracks)
    × ((push_track none two).refc ≡ two.refc)
push_track-Kept_example = push_track-Kept none two

-- The oldest of three goes.
drops_oldest : (push_track none two).tracks ≡ read_tags (some song) blank ∷ blank ∷ []
unfolding push_track
drops_oldest = refl

abbrev acl : Acl
acl = record {
  method = allow ∷ allow ∷ [];
  admin_commands = [];
  admin_command_policy = allow;
  web_policy = allow;
  max_connection_duration = pos 0;
  max_connections_per_user = 0;
}

abbrev static_auth : Auth
static_auth = record {
  id = 1;
  auth_type = codes "static";
  method = true ∷ true ∷ [];
  acl = acl;
  role = none;
  pending_count = 0;
  connected = true;
  answer = some no_match;
}

abbrev anonymous : Auth
anonymous = record static_auth { id = 2; auth_type = codes "anonymous"; answer = some auth_ok }

abbrev visitor : AuthClient
visitor = record { acl = none; role = none; auth = none; respcode = 0 }

add_client-Verdict_example :
    Verdict 1
      (static_auth ∷ anonymous ∷ [])
      visitor
      (add_client 1 (static_auth ∷ anonymous ∷ []) visitor)
add_client-Verdict_example = add_client-Verdict 1 (static_auth ∷ anonymous ∷ []) visitor

passes_on : (add_client 1 (static_auth ∷ anonymous ∷ []) visitor).1 ≡ result auth_ok
unfolding add_client
passes_on = refl
