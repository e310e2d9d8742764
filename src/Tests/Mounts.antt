-- ===== src/Tests/Mounts.antt =====
-- Tests of `Mounts` and `Moving`.
use icecast_server.Prelude.{ℕ, ◌<◌, List, ◌∷◌, [], ◌≡◌, refl, some, true, false, codes, str_eq, ◌↔◌}
use icecast_server.Trees.{node, leaf, str_compare, IsOrdered}
use icecast_server.Mounts.{
  mount_of, Entry, SourceTree, find_mount_raw, find_mount, MountProxy, normal_mount,
  max_fallback_depth,
}
use icecast_server.Trees.Searched.{InTree}
use icecast_server.Mounts.Search.{find_mount_raw_iff}
use icecast_server.Mounts.Fallback.{Route, find_mount-Route}
use icecast_server.Moving.{MovableSource, move_clients}
use icecast_server.Moving.Moved.{Moved, move_clients-Moved}
use icecast_server.Tests.Source.{by_id, source, source-IsSource}

abbrev low : Entry
low = record { mount = codes "/a"; running = false; on_demand = false }

abbrev high : Entry
high = record { mount = codes "/b"; running = true; on_demand = false }

abbrev tree : SourceTree
tree = node (node leaf low leaf) high leaf

abbrev mounts : List MountProxy
mounts =
    record {
      mountname = some (codes "/a");
      mounttype = normal_mount;
      fallback_mount = some (codes "/b");
    }
    ∷ []

tree-IsOrdered : IsOrdered mount_of tree
unfolding str_compare
tree-IsOrdered = ((tt, refl, tt), tt, (tt, tt, tt, tt), tt)

find_mount_raw_iff_example :
    (find_mount_raw tree (some (codes "/a")) ≡ some low)
    ↔ (InTree low tree × (low.mount ≡ codes "/a"))
find_mount_raw_iff_example = find_mount_raw_iff tree (codes "/a") low tree-IsOrdered

find_mount-Route_example :
    (find_mount str_eq tree mounts (some (codes "/a")) ≡ some high)
    ↔ ((k : ℕ) × (k < max_fallback_depth) × Route str_eq tree mounts high k (codes "/a"))
find_mount-Route_example = find_mount-Route str_eq tree mounts (codes "/a") high

-- The first source is down, and its mount falls back to the second.
falls_to_high : find_mount str_eq tree mounts (some (codes "/a")) ≡ some high
unfolding find_mount str_compare
falls_to_high = refl

abbrev leaving : MovableSource
leaving = record {
  mount = codes "/a";
  source = source;
  format = some 1;
  has_con = true;
  on_demand_req = false;
}

abbrev joined : MovableSource
joined = record {
  mount = codes "/b";
  source = source;
  format = some 1;
  has_con = true;
  on_demand_req = false;
}

move_clients-Moved_example : Moved leaving joined (move_clients by_id leaving joined)
move_clients-Moved_example = move_clients-Moved by_id leaving joined source-IsSource source-IsSource
