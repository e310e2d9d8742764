-- ===== src/Mounts/Search.antt =====
-- `source_find_mount_raw` of src/source.c on ordered trees.
use icecast_server.Prelude.{◌≡◌, ◌↔◌, some, Bytes, subst}
use icecast_server.Trees.{IsOrdered}
use icecast_server.Trees.Searched.{InTree, finds, tree_search-InTree, tree_search-key}
use icecast_server.Mounts.{Entry, SourceTree, mount_of, find_mount_raw}

-- In an ordered tree `source_find_mount_raw` returns a source exactly if the tree holds it and it has
-- the mount that was asked for.
pub find_mount_raw_iff :
    (t : SourceTree) (m : Bytes) (s : Entry)
    → IsOrdered mount_of t
    → (find_mount_raw t (some m) ≡ some s) ↔ (InTree s t × (s.mount ≡ m))
unfolding find_mount_raw
find_mount_raw_iff t m s o = (
  λ h. (tree_search-InTree mount_of m t s h, tree_search-key mount_of m t s h),
  λ (i, e). subst (λ k. find_mount_raw t (some k) ≡ some s) e (finds mount_of t s o i),
)
