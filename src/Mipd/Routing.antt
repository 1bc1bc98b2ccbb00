-- ===== src/Mipd/Routing.antt =====
-- mipd/src/lib/router/routing.c: the route tables that the MIP daemon carries between its router and
-- its neighbours.
pub mod Bytes
pub mod SplitHorizon
pub mod Broadcast
pub mod Exchange
pub mod Poisoned
mod Tests
use network_course_uio.Prelude.{
  ℕ, zero, suc, ◌+◌, Bool, Option, none, some, List, [], ◌∷◌, ◌++◌, ◌==◌, if◌then◌else◌, drop, ℤ,
  pos, minus_one, eq_int,
}
use network_course_uio.Prelude.Bytes.{uint_max, bytes32, read8, read32}
use network_course_uio.Routerd.MipRouteTable.{
  MipRoutePackageEntry, MipRouteTablePackage, mip_table_package_entries_max_size,
}
use network_course_uio.Mipd.InterfaceTable.{InterfaceTable, InterfaceRecord}
use network_course_uio.Mipd.MipArp.{MipArpCache, Outgoing, query_cache_socket_mip_address}
use network_course_uio.Mipd.Packaging.EtherFrame.{BytePointer}
use network_course_uio.Mipd.Packaging.MipPackage.{MipPackage, create_raw}

-- The bytes of a `MIPRoutePackageEntry`: its `cost` is aligned to four bytes, so two of padding stand
-- before it.
unfoldable pub slot_bytes : MipRoutePackageEntry → List ℕ
slot_bytes s = s.destination ∷ s.next_hop ∷ 0 ∷ 0 ∷ bytes32 s.cost

unfoldable pub slots_bytes : List MipRoutePackageEntry → List ℕ
unfolding slot_bytes
slots_bytes [] = []
slots_bytes (s ∷ rest) = slot_bytes s ++ slots_bytes rest

-- The bytes of a `MIPRouteTablePackage`, which is packed: `(BYTE *)tmp`
unfoldable pub package_bytes : MipRouteTablePackage → List ℕ
unfolding slots_bytes
package_bytes p = p.table_address ∷ p.num_entries ∷ slots_bytes p.entries

unfoldable pub parse_slots : ℕ → List ℕ → List MipRoutePackageEntry
parse_slots zero b = []
parse_slots (suc n) b =
    record { destination = read8 b 0; next_hop = read8 b 1; cost = read32 b 4 }
    ∷ parse_slots n (drop 8 b)

-- `parse_broadcasted_table`: a copy of the bytes of the message into the struct
unfoldable pub parse_broadcasted_table : (message : List ℕ) → MipRouteTablePackage
unfolding parse_slots
parse_broadcasted_table message = record {
  table_address = read8 message 0;
  num_entries = read8 message 1;
  entries = parse_slots mip_table_package_entries_max_size (drop 2 message);
}

-- The loop of `poison_reverse`, with the number of rounds left. A package has 64 slots and no more
-- entries, so that the loop never comes to their end.
unfoldable pub poison_slots : ℕ → ℕ → List MipRoutePackageEntry → List MipRoutePackageEntry
poison_slots zero destination slots = slots
poison_slots (suc n) destination [] = []
poison_slots (suc n) destination (s ∷ rest) =
    (if s.next_hop == destination then record s { cost = uint_max } else s)
    ∷ poison_slots n destination rest

-- `poison_reverse`
unfoldable pub poison_reverse : MipRouteTablePackage → ℕ → MipRouteTablePackage
unfolding poison_slots
poison_reverse p destination = record p {
  entries = poison_slots p.num_entries destination p.entries;
}

-- The table that goes out by an interface: the address of the interface is put in, and the routes
-- over the neighbour at its other end, or over itself where none is known, are poisoned.
unfoldable pub table_for :
    MipArpCache → MipRouteTablePackage → InterfaceRecord → MipRouteTablePackage
unfolding poison_reverse
table_for cache table_package r =
    let tmp : MipRouteTablePackage = record table_package { table_address = r.mip_address } in
    let destination = query_cache_socket_mip_address cache r.raw_socket in
    poison_reverse tmp (if destination == 255 then tmp.table_address else destination)

-- The loop of `broadcast_route_table`: the frames that are sent, or none for -1. `own_mac i` is the
-- pointer to the hardware address of interface `i`, `sent i` whether `sendto` succeeds there.
unfoldable pub broadcast_from :
    (own_mac : ℕ → BytePointer) (broadcast_mac : BytePointer) (sent : ℕ → Bool)
    → MipArpCache
    → MipRouteTablePackage
    → ℕ
    → List InterfaceRecord
    → Option (List Outgoing)
unfolding table_for
broadcast_from own_mac broadcast_mac sent cache table_package i [] = some []
broadcast_from own_mac broadcast_mac sent cache table_package i (r ∷ rest) =
    let later = broadcast_from own_mac broadcast_mac sent cache table_package (i + 1) rest in
    elim (create_raw r.mip_address (own_mac i) 255 broadcast_mac
      (package_bytes (table_for cache table_package r)) 2) [
        | none ↦ none
        | some out ↦
            if sent i
            then elim later [
              | none ↦ none
              | some l ↦
                  some (record { socket = r.raw_socket; so_name = r.so_name; frame = out } ∷ l)
            ]
            else none
      ]

-- `broadcast_route_table`
unfoldable pub broadcast_route_table :
    (own_mac : ℕ → BytePointer) (broadcast_mac : BytePointer) (sent : ℕ → Bool)
    → InterfaceTable
    → MipArpCache
    → MipRouteTablePackage
    → Option (List Outgoing)
unfolding broadcast_from
broadcast_route_table own_mac broadcast_mac sent i_table cache table_package =
    broadcast_from own_mac broadcast_mac sent cache table_package 0 i_table.interfaces

-- `recv_route_table_broadcast`: what is written to the routing daemon, if one is connected. The
-- outer none is -1, the inner one 0.
unfoldable pub recv_route_table_broadcast :
    (route_fd : ℤ) (written : Bool) → MipPackage → Option (Option MipRouteTablePackage)
unfolding parse_broadcasted_table
recv_route_table_broadcast route_fd written received =
    if eq_int route_fd minus_one
    then some none
    else if written
    then some (some (parse_broadcasted_table received.message))
    else none
