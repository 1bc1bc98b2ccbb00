-- ===== src/Ping/Tests.antt =====
-- A ping of thirteen bytes between two neighbours, whose hosts have the addresses 10 and 20.
use network_course_uio.Prelude.{ℕ, true, none, List, [], ◌∷◌, replicate, pos}
use network_course_uio.Commons.MipdMessage.{MipdMessage}
use network_course_uio.Mipd.InterfaceTable.{InterfaceRecord}
use network_course_uio.Mipd.MipArp.{MipArpCacheEntry}
use network_course_uio.Mipd.MipArp
use network_course_uio.Mipd.Packaging.EtherFrame.{BytePointer}
use network_course_uio.Mipd.Packaging.MipPackage.{MipPackage}
use network_course_uio.Mipd.Server.{MipdServer, LocalSocket, World}
use network_course_uio.Mipd.Server.Loop.{Event}

abbrev pointer : BytePointer
pointer = record { representation = replicate 8 7; target = replicate 6 255 }

abbrev interface : ℕ → InterfaceRecord
interface address = record {
  interface = replicate 8 address;
  so_name = record { sll_ifindex = 2; sll_addr = replicate 8 address };
  mip_address = address;
  raw_socket = pos 4;
}

abbrev known : ℕ → MipArpCacheEntry
known address = record {
  mip_address = address;
  src_socket = pos 4;
  dst_interface = replicate 6 address;
  last_update = 1000;
}

abbrev socket : LocalSocket
socket = record { listening_socket_fd = pos 6; connected_socket_fd = pos 7 }

-- The daemon of the address, which knows the neighbour
abbrev daemon : (address neighbor_address : ℕ) → MipdServer
daemon address neighbor_address = record {
  app_socket = socket;
  route_socket = socket;
  forward_socket = socket;
  i_table = record { interfaces = interface address ∷ [] };
  cache = record {
    entries = known neighbor_address ∷ replicate 63 MipArp.zero_entry;
    size = 1;
    update_freq = 4000;
    last_arp = 500;
  };
  forward_queue = [];
}

abbrev world : World
world = record {
  now = 1000;
  sent = true;
  written = true;
  pushed = pos 1;
  own_mac = pointer;
  peer_mac = pointer;
}

abbrev event : Event
event = record {
  fd = pos 7;
  accepted = pos 8;
  bytes = none;
  own_macs = λ i. pointer;
  broadcast_mac = pointer;
  default_mac = pointer;
  sends = λ i. true;
  world = world;
}

abbrev text : List ℕ
text = replicate 13 65
