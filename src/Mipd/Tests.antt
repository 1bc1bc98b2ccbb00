-- ===== src/Mipd/Tests.antt =====
-- Runs of the MIP daemon on small inputs.
use network_course_uio.Prelude.{
  ℕ, ◌≡◌, refl, true, false, none, some, List, [], ◌∷◌, ◌++◌, map, ltb, if◌then◌else◌, length,
  replicate, arith, pos,
}
use network_course_uio.Prelude.Bytes.{uint_max}
use network_course_uio.Routerd.MipRouteTable.{
  MipRouteTable, MipRouteTablePackage, get, get_entry, update_routing, create_package, create_table,
  to_package_entry, zero_entry, create, read_entries, create_entry,
}
use network_course_uio.Routerd.MipRouteTable.Lookup.{IsUnique, route}
use network_course_uio.Routerd.MipRouteTable.Relax.{hop_of}
use network_course_uio.Mipd.CommandLine.{fetch_mip_addresses, fetch_mip_addresses_overrun}
use network_course_uio.Mipd.InterfaceTable.{
  InterfaceRecord, InterfaceTable, Ifaddr, collect_interfaces,
}
use network_course_uio.Mipd.InterfaceTable.Queries.{wanted, collect_interfaces_lem}
use network_course_uio.Mipd.Packaging.EtherFrame.{EtherFrame, BytePointer}
use network_course_uio.Mipd.Packaging.MipHeader.{MipHeader}
use network_course_uio.Mipd.Packaging.MipPackage.{MipPackage}
use network_course_uio.Mipd.Packaging.MipPackage
use network_course_uio.Mipd.Packaging.Payload.{IsPackageOf, create-IsPackageOf}
use network_course_uio.Mipd.MipArp.{
  MipArpCache, MipArpCacheEntry, append_to_cache, update_arp_cache, live, remove_from_cache,
  query_mip_address_pos, query_mip_address_src_socket, create_cache, Outgoing, cache_slots,
}
use network_course_uio.Mipd.MipArp
use network_course_uio.Mipd.MipArp.Live.{live-remove_from_cache, remove_nth}
use network_course_uio.Mipd.MipArp.Queries.{IsValid}
use network_course_uio.Mipd.MipArp.Update.{Updated, update_arp_cache-Updated}
use network_course_uio.Mipd.Routing.{poison_reverse, poison_slots, broadcast_route_table}
use network_course_uio.Mipd.Routing.Exchange.{OverrunsAll, broadcast-Overruns}
use network_course_uio.Mipd.Routing.SplitHorizon.{split_horizon}
use network_course_uio.Prelude.{minus_one}
use network_course_uio.Commons.DomainSocket.{close, unlink, bind, listen, Kernel}
use network_course_uio.Commons.DomainSocket.Names.{name_of}
use network_course_uio.Prelude.{◌⊎◌, ◌≤◌, ◌<◌}
use network_course_uio.Mipd.Server.Sockets.{create_lem}
use network_course_uio.Mipd.Server.Sockets

abbrev eth0 : InterfaceRecord
eth0 = record {
  interface = 1 ∷ 2 ∷ 3 ∷ 4 ∷ 5 ∷ 6 ∷ 0 ∷ 0 ∷ [];
  so_name = record { sll_ifindex = 2; sll_addr = 1 ∷ 2 ∷ 3 ∷ 4 ∷ 5 ∷ 6 ∷ 0 ∷ 0 ∷ [] };
  mip_address = 10;
  raw_socket = pos 4;
}

abbrev eth1 : InterfaceRecord
eth1 = record {
  interface = 1 ∷ 2 ∷ 3 ∷ 4 ∷ 5 ∷ 7 ∷ 0 ∷ 0 ∷ [];
  so_name = record { sll_ifindex = 3; sll_addr = 1 ∷ 2 ∷ 3 ∷ 4 ∷ 5 ∷ 7 ∷ 0 ∷ 0 ∷ [] };
  mip_address = 11;
  raw_socket = pos 5;
}

abbrev interfaces : InterfaceTable
interfaces = record { interfaces = eth0 ∷ eth1 ∷ [] }

abbrev frame : EtherFrame
frame = record { dst_addr = []; src_addr = []; eth_proto = [] }

abbrev header : MipHeader
header = record { tra = 3; ttl = 15; payload_len = 0; dst_addr = 20; src_addr = 10 }

abbrev five_bytes : List ℕ
five_bytes = 7 ∷ 8 ∷ 9 ∷ 10 ∷ 11 ∷ []

create-IsPackageOf_example :
    (p : MipPackage) × (MipPackage.create frame header five_bytes ≡ some p)
    × IsPackageOf frame header five_bytes p
create-IsPackageOf_example = create-IsPackageOf frame header five_bytes (omega arith)

abbrev many_bytes : List ℕ
many_bytes = replicate 1497 7

abbrev ifaces : List Ifaddr
ifaces =
    record { is_packet = true; address = record { sll_ifindex = 1; sll_addr = [] } }
    ∷ record { is_packet = true; address = eth0.so_name }
    ∷ record { is_packet = false; address = eth0.so_name }
    ∷ record { is_packet = true; address = eth1.so_name }
    ∷ []

collect_interfaces_example :
    collect_interfaces 3 (some ifaces)
    ≡ (if ltb (length (wanted ifaces)) 3 then some (wanted ifaces) else none)
collect_interfaces_example = collect_interfaces_lem 3 ifaces (omega arith)

-- 20 answered at 1000 ms by the first interface, 30 at 9000 ms by the second.
abbrev neighbors : List MipArpCacheEntry
neighbors =
    record { mip_address = 20; src_socket = pos 4; dst_interface = []; last_update = 1000 }
    ∷ record { mip_address = 30; src_socket = pos 5; dst_interface = []; last_update = 9000 }
    ∷ []

abbrev cache : MipArpCache
cache = record {
  entries = neighbors ++ replicate 62 MipArp.zero_entry;
  size = 2;
  update_freq = 4000;
  last_arp = 500;
}

cache-IsValid : IsValid cache
cache-IsValid = record {
  whole = refl;
  inside = omega arith;
  distinct = ((omega arith, tt), (tt, tt));
}

live-remove_from_cache_example : live (remove_from_cache cache 0) ≡ remove_nth 0 (live cache)
live-remove_from_cache_example = live-remove_from_cache cache 0 (omega arith) (omega arith)

abbrev stranger : ℕ
stranger = 40

-- At 9600 ms the entry of 20 is over age, and a new ARP is due.
update_arp_cache-Updated_example :
    (requests : List Outgoing) × (c' : MipArpCache) × (update_arp_cache
        (λ _. 9600)
        9601
        9602
        (λ _. true)
        interfaces
        cache
      ≡ some (pos 0, requests, c'))
    × Updated (λ _. 9600) 9601 9602 interfaces cache requests c'
update_arp_cache-Updated_example =
    update_arp_cache-Updated (λ _. 9600) 9601 9602 interfaces cache cache-IsValid

-- The table of 10, which reaches 40 and 50 over 20, and itself
abbrev sender : MipRouteTable
sender = record {
  table_address = 0;
  entry_max_age_milli = 5000;
  entries = route 0 10 10 0 ∷ route 100 40 20 1 ∷ route 100 50 30 2 ∷ [];
}

abbrev receiver : MipRouteTable
receiver = record { table_address = 20; entry_max_age_milli = 5000; entries = route 0 20 20 0 ∷ [] }

abbrev packed : MipRouteTablePackage
packed = record {
  table_address = 0;
  num_entries = 3;
  entries = map to_package_entry sender.entries ++ replicate 61 zero_entry;
}

abbrev arrived : MipRouteTable
arrived = record {
  table_address = 10;
  entry_max_age_milli = 5000;
  entries = route 7 10 10 0 ∷ route 7 40 20 uint_max ∷ route 7 50 30 2 ∷ [];
}

sender-packed : create_package sender ≡ some packed
unfolding create_package
sender-packed = refl

packed-arrives :
    create_table (λ _. 7) (poison_reverse (record packed { table_address = 10 }) 20) ≡ some arrived
unfolding create_table poison_reverse poison_slots create read_entries create_entry
packed-arrives = refl

sender-IsUnique : IsUnique sender.entries
unfolding get_entry
sender-IsUnique = (refl, (refl, (refl, tt)))

receiver-IsUnique : IsUnique receiver.entries
unfolding get_entry
receiver-IsUnique = (refl, tt)

sender-found : get sender 40 ≡ some (route 100 40 20 1)
unfolding get_entry
sender-found = refl

split_horizon_example :
    hop_of (get (update_routing (λ _. 8) receiver arrived) 40) ≡ hop_of (get receiver 40)
split_horizon_example =
    split_horizon (λ _. 7) (λ _. 8) sender receiver 10 20 40 (omega arith) sender-IsUnique
      receiver-IsUnique sender-packed packed-arrives sender-found refl

abbrev some_pointer : BytePointer
some_pointer = record { representation = replicate 8 7; target = replicate 6 255 }

abbrev old_package : MipPackage
old_package = record { e_frame = frame; m_header = header; message = replicate 1496 0 }

broadcast-Overruns_example :
    (p : MipRouteTablePackage) × (out : List Outgoing) × (create_package sender ≡ some p)
    × (broadcast_route_table (λ _. some_pointer) some_pointer (λ _. true) interfaces cache p
        ≡ some out)
    × OverrunsAll cache sender (replicate 8 9) old_package interfaces.interfaces out
broadcast-Overruns_example =
    broadcast-Overruns (λ _. some_pointer) some_pointer cache (replicate 8 9) (λ _. omega arith)
      (omega arith) refl old_package refl sender interfaces (omega arith) (omega arith)

-- Two addresses for three interfaces
fetch_mip_addresses_overrun_example :
    fetch_mip_addresses (λ argument. 7) ((55 ∷ []) ∷ (56 ∷ []) ∷ []) (replicate 3 0) 3 ≡ none
fetch_mip_addresses_overrun_example =
    fetch_mip_addresses_overrun (λ argument. 7) ((55 ∷ []) ∷ (56 ∷ []) ∷ []) 3 (omega arith)
      (omega arith)

abbrev willing : Kernel
willing = record { socket = pos 9; binds = λ fd a. true; listens = true; connects = λ fd a. true }

abbrev app_path : List ℕ
app_path = 97 ∷ 112 ∷ 112 ∷ []

create_example :
    ((3 ≤ 108)
      × (so_name : List ℕ) × (name_of so_name ≡ app_path)
      × (length so_name ≡ 108)
      × (Sockets.create willing true (app_path ++ 0 ∷ 5 ∷ [])
          ≡ some (
            some (record { listening_socket_fd = pos 9; connected_socket_fd = minus_one }, so_name),
            unlink so_name ∷ bind (pos 9) so_name ∷ listen (pos 9) ∷ [],
          )))
    ⊎ ((108 < 3)
        × (Sockets.create willing true (app_path ++ 0 ∷ 5 ∷ [])
            ≡ some (none, close (pos 0) ∷ close minus_one ∷ unlink (replicate 108 0) ∷ [])))
create_example = create_lem willing app_path (5 ∷ []) (omega arith) refl (λ a. refl) refl
