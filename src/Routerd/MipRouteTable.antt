-- ===== src/Routerd/MipRouteTable.antt =====
-- routerd/src/lib/mip_route_table.{h,c}: the distance-vector table of a routing daemon.
pub mod Lookup
pub mod Relax
pub mod Ageing
pub mod Package
-- A call of `get_now_milli` is the argument `now`; a loop that calls it in each round takes the
-- reading of round `i` from `clock i`.
use mathlib.Core.Option
use network_course_uio.Prelude.{
  ℕ, zero, suc, ◌+◌, ◌-◌, Bool, true, false, not, ◌&&◌, ◌||◌, Option, none, some, List, [], ◌∷◌,
  ◌++◌, map, ltb, leb, ◌==◌, if◌then◌else◌, length, get_or, replicate, ℤ, pos, minus_one,
}
use network_course_uio.Prelude.Bytes.{u32, uint_max}

abbrev pub mip_broadcast_address : ℕ
mip_broadcast_address = 255

abbrev pub mip_table_package_entries_max_size : ℕ
mip_table_package_entries_max_size = 64

abbrev pub mip_table_entry_max_age_milli : ℕ
mip_table_entry_max_age_milli = 5000

-- `MIPRouteEntry`
pub record MipRouteEntry : Type 0 where
  pub destination : ℕ
  pub next_hop : ℕ
  pub cost : ℕ
  pub last_updated_milli : ℕ

-- `MIPRouteTable`; `entries` is the `List` of entries, first to last.
pub record MipRouteTable : Type 0 where
  pub table_address : ℕ
  pub entry_max_age_milli : ℕ
  pub entries : List MipRouteEntry

-- `MIPRoutePackageEntry`
pub record MipRoutePackageEntry : Type 0 where
  pub destination : ℕ
  pub next_hop : ℕ
  pub cost : ℕ

-- `MIPRouteTablePackage`; `entries` is the array of 64 slots.
pub record MipRouteTablePackage : Type 0 where
  pub table_address : ℕ
  pub num_entries : ℕ
  pub entries : List MipRoutePackageEntry

-- `MIPRouteEntry_create`
unfoldable pub create_entry : ℕ → ℕ → ℕ → ℕ → Option MipRouteEntry
create_entry now destination next_hop cost =
    if leb destination mip_broadcast_address
    then some (record {
      destination = destination;
      next_hop = next_hop;
      cost = cost;
      last_updated_milli = now;
    })
    else none

-- `MIPRouteTable_create`
unfoldable pub create : MipRouteTable
create = record {
  table_address = 0;
  entry_max_age_milli = mip_table_entry_max_age_milli;
  entries = [];
}

-- The loop of `MIPRouteTable_remove`: the first entry for the destination is unlinked.
unfoldable pub remove_entry : ℕ → List MipRouteEntry → Option (List MipRouteEntry)
remove_entry destination [] = none
remove_entry destination (current ∷ rest) =
    if current.destination == destination
    then some rest
    else Option.map (λ l. current ∷ l) (remove_entry destination rest)

-- `MIPRouteTable_remove`
unfoldable pub remove : MipRouteTable → ℕ → ℤ × MipRouteTable
unfolding remove_entry
remove table destination =
    if length table.entries == 0
    then (pos 1, table)
    else elim (remove_entry destination table.entries) [
      | none ↦ (pos 0, table)
      | some rest ↦ (pos 1, record table { entries = rest })
    ]

-- `List_push` on the table's list
abbrev pub push_entry : MipRouteEntry → MipRouteTable → MipRouteTable
push_entry entry table = record table { entries = table.entries ++ entry ∷ [] }

-- `MIPRouteTable_update`
unfoldable pub update : ℕ → MipRouteTable → ℕ → ℕ → ℕ → ℤ × MipRouteTable
unfolding create_entry remove
update now table destination next_hop cost = elim (create_entry now destination next_hop cost) [
  | none ↦ (minus_one, table)
  | some entry ↦ (pos 1, push_entry entry (remove table destination).1)
]

unfoldable pub get_entry : ℕ → List MipRouteEntry → Option MipRouteEntry
get_entry destination [] = none
get_entry destination (current ∷ rest) =
    if current.destination == destination then some current else get_entry destination rest

-- `MIPRouteTable_get`
abbrev pub get : MipRouteTable → ℕ → Option MipRouteEntry
get table destination = get_entry destination table.entries

-- `MIPRouteTable_get_next_hop`
unfoldable pub get_next_hop : MipRouteTable → ℕ → ℕ
get_next_hop table destination =
    if destination == mip_broadcast_address
    then mip_broadcast_address
    else elim (get table destination) [ none ↦ 255 | some entry ↦ entry.next_hop ]

-- The test of `MIPRouteTable_update_routing`: is the challenger to be taken?
abbrev pub is_better : MipRouteEntry → Option MipRouteEntry → Bool
is_better challenger none = not (challenger.cost == uint_max)
is_better challenger (some champion) =
    leb (u32 (challenger.cost + 1)) champion.cost && not (challenger.cost == uint_max)

-- One round of `MIPRouteTable_update_routing`
unfoldable pub consider : ℕ → ℕ → MipRouteEntry → MipRouteTable → MipRouteTable
consider now neighbor challenger table =
    if is_better challenger (get table challenger.destination)
    then (update now table challenger.destination neighbor (u32 (challenger.cost + 1))).1
    else table

unfoldable pub update_routing_from :
    ℕ → (ℕ → ℕ) → ℕ → List MipRouteEntry → MipRouteTable → MipRouteTable
update_routing_from i clock neighbor [] table = table
update_routing_from i clock neighbor (challenger ∷ rest) table =
    update_routing_from (i + 1) clock neighbor rest (consider (clock i) neighbor challenger table)

-- `MIPRouteTable_update_routing`
unfoldable pub update_routing : (ℕ → ℕ) → MipRouteTable → MipRouteTable → MipRouteTable
unfolding update_routing_from
update_routing clock table neighbor_table =
    update_routing_from 0 clock neighbor_table.table_address neighbor_table.entries table

abbrev pub zero_entry : MipRoutePackageEntry
zero_entry = record { destination = 0; next_hop = 0; cost = 0 }

abbrev pub to_package_entry : MipRouteEntry → MipRoutePackageEntry
to_package_entry e = record { destination = e.destination; next_hop = e.next_hop; cost = e.cost }

-- `MIPRouteTable_create_package`; the slots that the loop does not fill keep `calloc`'s zeros.
unfoldable pub create_package : MipRouteTable → Option MipRouteTablePackage
create_package table =
    if ltb (length table.entries) mip_table_package_entries_max_size
    then some (record {
      table_address = 0;
      num_entries = length table.entries;
      entries =
          map to_package_entry table.entries
          ++ replicate (mip_table_package_entries_max_size - length table.entries) zero_entry;
    })
    else none

-- The loop of `MIPRouteTablePackage_create_table`, with the number of rounds left. `List_push` is
-- also given the null pointer that a refused entry would be.
unfoldable pub read_entries :
    ℕ → ℕ → (ℕ → ℕ) → List MipRoutePackageEntry → List (Option MipRouteEntry)
read_entries zero i clock slots = []
read_entries (suc n) i clock slots =
    let current = get_or slots i zero_entry in
    create_entry (clock i) current.destination current.next_hop current.cost
    ∷ read_entries n (i + 1) clock slots

-- The list that the pointers make if none of them is null; a null one is a fault in each later use.
abbrev pub all_present {ℓ} : {A : Type ℓ} → List (Option A) → Option (List A)
all_present [] = some []
all_present (none ∷ rest) = none
all_present (some a ∷ rest) = elim (all_present rest) [ none ↦ none | some l ↦ some (a ∷ l) ]

-- `MIPRouteTablePackage_create_table`
unfoldable pub create_table : (ℕ → ℕ) → MipRouteTablePackage → Option MipRouteTable
unfolding create read_entries
create_table clock table_package =
    if ltb table_package.num_entries mip_table_package_entries_max_size
    then elim (all_present (read_entries table_package.num_entries 0 clock table_package.entries)) [
      | none ↦ none
      | some l ↦ some (record create { table_address = table_package.table_address; entries = l })
    ]
    else none

-- `MIPRouteEntry_to_old`; the age limit is never negative, so the difference may stop at 0.
unfoldable pub to_old : ℕ → MipRouteTable → MipRouteEntry → Bool
to_old now table entry = ltb table.entry_max_age_milli (now - entry.last_updated_milli)

-- The loop of `MIPRouteTable_remove_old_entries`: the number removed, and the new list.
unfoldable pub sweep : ℕ → (ℕ → ℕ) → MipRouteTable → List MipRouteEntry → ℕ × List MipRouteEntry
unfolding to_old
sweep i clock table [] = (0, [])
sweep i clock table (entry ∷ rest) =
    let (removed, kept) = sweep (i + 1) clock table rest in
    if to_old (clock i) table entry && not (entry.cost == 0)
    then (removed + 1, kept)
    else (removed, entry ∷ kept)

-- `MIPRouteTable_remove_old_entries`
unfoldable pub remove_old_entries : (ℕ → ℕ) → MipRouteTable → ℕ × MipRouteTable
unfolding sweep
remove_old_entries clock table =
    let (removed, kept) = sweep 0 clock table table.entries in
    (removed, record table { entries = kept })
