-- ===== src/Mounts.antt =====
-- The mount points: `source_find_mount_raw` and `source_find_mount` of src/source.c, and
-- `config_find_mount` of src/cfgfile.c.
--
-- The tree of the sources is the AVL library's: its nodes are read here as src/source.c reads them. A
-- config is its list of mounts. `fnmatch` is a parameter.
pub mod Search
pub mod Fallback
use icecast_server.Prelude.{
  ◌+◌, ◌-◌, ◌*◌, ◌/◌, ◌%◌, ◌≤◌, ◌<◌, ◌≡◌, refl, sym, ap, ◌∙◌, ◌≢◌, ◌↔◌, ◌⊎◌, inl, inr, ◌++◌, arith,
  ltb, leb, Bool-cases, ℕ, zero, suc, ◌^◌, Bool, true, false, not, ◌&&◌, ◌||◌, List, [], ◌∷◌,
  Option, none, some, Bytes, str_eq, ◌==◌, if◌then◌else◌,
}
use icecast_server.Trees.{Tree, tree_search}

-- What the search reads of a source.
pub record Entry : Type 0 where
  pub mount : Bytes
  pub running : Bool
  pub on_demand : Bool

abbrev pub mount_of : Entry → Bytes
mount_of s = s.mount

abbrev pub SourceTree : Type 0
SourceTree = Tree Entry

-- `source_find_mount_raw`
unfoldable pub find_mount_raw : SourceTree → Option Bytes → Option Entry
unfolding tree_search
find_mount_raw t none = none
find_mount_raw t (some mount) = tree_search mount_of mount t

pub data MountType : Type 0 where
  normal_mount default_mount : MountType

pub record MountProxy : Type 0 where
  pub mountname : Option Bytes
  pub mounttype : MountType
  pub fallback_mount : Option Bytes

-- `strcmp(mountinfo->mountname, mount) == 0`, with neither NULL
unfoldable pub same_name : Option Bytes → Option Bytes → Bool
unfolding str_eq
same_name (some a) (some b) = str_eq a b
same_name _ _ = false

is_null : Option Bytes → Bool
is_null none = true
is_null (some a) = false

-- `source && (source->running || source->on_demand)`
unfoldable pub is_active : Option Entry → Bool
is_active none = false
is_active (some s) = s.running || s.on_demand

-- `mountinfo == NULL`, or on to its `fallback_mount`
unfoldable pub follow : (Option Bytes → Option Entry) → Option MountProxy → Option Entry
follow next none = none
follow next (some m) = next m.fallback_mount

-- `MAX_FALLBACK_DEPTH`
abbrev pub max_fallback_depth : ℕ
max_fallback_depth = 10

-- `fnmatch(pattern, name, FNM_PATHNAME) == 0`
module _ (fnmatch : Bytes → Bytes → Bool) where
  matches : Option Bytes → Option Bytes → Bool
  matches (some pattern) (some name) = fnmatch pattern name
  matches _ _ = true

  -- Does the loop of `config_find_mount` stop at this mount?
  unfoldable pub stops_at : MountType → Option Bytes → MountProxy → Bool
  unfolding same_name is_null matches
  stops_at normal_mount mount m = elim m.mounttype [
    | normal_mount ↦ (is_null mount && is_null m.mountname) || same_name m.mountname mount
    | default_mount ↦ false
  ]
  stops_at default_mount mount m = elim m.mounttype [
    | normal_mount ↦ false
    | default_mount ↦ matches m.mountname mount
  ]

  unfoldable pub find_typed : MountType → Option Bytes → List MountProxy → Option MountProxy
  unfolding stops_at
  find_typed type mount [] = none
  find_typed type mount (m ∷ ms) =
      if stops_at type mount m then some m else find_typed type mount ms

  retry_default : Option MountProxy → Option Bytes → List MountProxy → Option MountProxy
  unfolding find_typed
  retry_default (some m) mount ms = some m
  retry_default none mount ms = find_typed default_mount mount ms

  -- `config_find_mount(config, mount, MOUNT_TYPE_NORMAL)`
  unfoldable pub config_find_mount : Option Bytes → List MountProxy → Option MountProxy
  unfolding retry_default find_typed
  config_find_mount none ms = none
  config_find_mount (some mount) ms =
      retry_default (find_typed normal_mount (some mount) ms) (some mount) ms

  -- The loop of `source_find_mount`, with the rounds that `depth` leaves.
  unfoldable pub find_in_rounds : ℕ → SourceTree → List MountProxy → Option Bytes → Option Entry
  unfolding find_mount_raw is_active follow config_find_mount
  find_in_rounds zero t ms mount = none
  find_in_rounds (suc rounds) t ms none = none
  find_in_rounds (suc rounds) t ms (some mount) =
      let source = find_mount_raw t (some mount) in
      let further = follow (find_in_rounds rounds t ms) (config_find_mount (some mount) ms) in
      if is_active source then source else further

  unfoldable pub find_mount : SourceTree → List MountProxy → Option Bytes → Option Entry
  unfolding find_in_rounds
  find_mount = find_in_rounds max_fallback_depth
