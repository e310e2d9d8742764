-- ===== src/Tests/Stats.antt =====
-- Tests of `Stats`.
use icecast_server.Prelude.{
  str_eq, true, false, ◌++◌, arith, All, zero, suc, ◌+◌, ◌-◌, ◌*◌, ◌/◌, ◌%◌, ◌≡◌, refl, Option,
  none, some, List, [], ◌∷◌, ltb, ◌==◌, if◌then◌else◌, Bytes, ℕ, ℤ, pos, negsuc, codes,
}
use icecast_server.Stats.Records.{
  Stats, build_event, stats_event_inc, node_name, source_name, find_node,
}
use icecast_server.Stats.Changes.{Library}
use icecast_server.Stats.Thread.{
  StatsThread, Turn, emits, processes, registers, sends, turns, stats_initialize,
}
use icecast_server.Stats.View.{set_plain, remove_plain, inc_plain, value_of}
use icecast_server.Trees.{leaf, node, elements}
use icecast_server.Stats.Streams.{stats_get_streams, stats_clear_virtual_mounts}
use icecast_server.Stats.Listed.{joined_text, visible_lines, IsWhole, stats_get_streams-lines}
use icecast_server.Mounts.{SourceTree}
use icecast_server.Stats.Listeners.{RunDone, stats_initialize-RunDone}
use icecast_server.Tests.Avl.{search_tree}

abbrev read_digits : ℕ → Bytes → ℕ
read_digits acc [] = acc
read_digits acc (c ∷ cs) = read_digits (acc * 10 + (c - 48)) cs

abbrev read_number : Bytes → ℤ
read_number [] = pos 0
read_number (c ∷ cs) =
    if c == 45 then negsuc (read_digits 0 cs - 1) else pos (read_digits 0 (c ∷ cs))

abbrev print_digits : ℕ → ℕ → Bytes → Bytes
print_digits zero n acc = acc
print_digits (suc fuel) n acc =
    let more = print_digits fuel (n / 10) ((48 + n % 10) ∷ acc) in
    if ltb n 10 then (48 + n) ∷ acc else more

abbrev print_number : ℤ → Bytes
print_number (pos n) = print_digits 20 n []
print_number (negsuc n) = 45 ∷ print_digits 20 (suc n) []

abbrev library : Library
library = record {
  atoi = read_number;
  atoll = read_number;
  printed = print_number;
  nodes = search_tree node_name;
  sources = search_tree source_name;
}

abbrev mount : Option Bytes
mount = some (codes "/a")

-- A listener registers between the events of two mounts, and a source is removed.
abbrev day : List Turn
day =
    emits (build_event none (some (codes "clients")) (some (codes "9")))
    ∷ emits (build_event mount (some (codes "title")) (some (codes "x")))
    ∷ processes
    ∷ processes
    ∷ registers 1
    ∷ emits (stats_event_inc none (some (codes "clients")))
    ∷ sends 1
    ∷ emits (build_event mount none none)
    ∷ processes
    ∷ processes
    ∷ []

stats_initialize-RunDone_example : RunDone library day stats_initialize
stats_initialize-RunDone_example = stats_initialize-RunDone library day (
  set_plain none (codes "clients") (codes "9"),
  (
    set_plain mount (codes "title") (codes "x"),
    (
      tt,
      (
        tt,
        (tt, (inc_plain none (codes "clients"), (tt, (remove_plain mount none, (tt, (tt, tt)))))),
      ),
    ),
  ),
)

abbrev clients_of : Option StatsThread → Option Bytes
clients_of none = none
clients_of (some w) = value_of w.stats none (codes "clients")

-- The counter goes from 9 to 10.
counts_on : clients_of (turns library day stats_initialize) ≡ some (codes "10")
unfolding turns search_tree find_node build_event stats_event_inc
counts_on = refl

-- The second mount is hidden.
abbrev listed : Stats
listed = record {
  global_tree = leaf;
  source_tree =
      node (node leaf (record { source = codes "/a"; hidden = false; stats_tree = leaf }) leaf)
        (record { source = codes "/b"; hidden = true; stats_tree = leaf })
        (node leaf (record { source = codes "/c"; hidden = false; stats_tree = leaf }) leaf);
}

stats_get_streams-lines_example :
    (joined_text (stats_get_streams listed) ≡ visible_lines (elements listed.source_tree))
    × All IsWhole (stats_get_streams listed)
unfolding elements
stats_get_streams-lines_example = stats_get_streams-lines listed (omega arith)

one_block :
    stats_get_streams listed
    ≡ record { text = codes "/a" ++ 13 ∷ 10 ∷ codes "/c" ++ 13 ∷ 10 ∷ []; len = 8 } ∷ []
unfolding stats_get_streams
one_block = refl

-- Of the sources only "/a" is there.
abbrev mounts : SourceTree
mounts = node leaf (record { mount = codes "/a"; running = true; on_demand = false }) leaf

clears_others :
    elements (stats_clear_virtual_mounts library mounts listed).source_tree
    ≡ record { source = codes "/a"; hidden = false; stats_tree = leaf } ∷ []
unfolding stats_clear_virtual_mounts search_tree str_eq
clears_others = refl
