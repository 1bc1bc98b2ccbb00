-- ===== src/Mipd/Server/Tests.antt =====
-- Runs of the handlers of the MIP daemon on small inputs.
use network_course_uio.Prelude.{
  ℕ, ◌+◌, ◌≡◌, refl, true, false, none, some, List, [], ◌∷◌, ◌++◌, take, replicate, arith, pos,
  minus_one, eq_int,
}
use network_course_uio.Commons.Queue.{waiting}
use network_course_uio.Commons.MipdMessage.{MipdMessage, deserialize}
use network_course_uio.Commons.MipdMessage.Roundtrip.{IsMessage}
use network_course_uio.Mipd.InterfaceTable.{
  InterfaceRecord, get_interface_pos_for_mip_address, get_interface_pos_for_socket, position_from,
}
use network_course_uio.Mipd.MipArp.{
  MipArpCacheEntry, MipArpCache, query_mip_address_src_socket, query_mip_address_pos, socket_from,
  pos_from,
}
use network_course_uio.Mipd.MipArp
use network_course_uio.Mipd.Packaging.EtherFrame.{
  BytePointer, create_ethernet_frame, create_transport_frame,
}
use network_course_uio.Mipd.Packaging.MipHeader.{create_transport}
use network_course_uio.Mipd.Packaging.MipPackage.{MipPackage}
use network_course_uio.Mipd.Packaging.Payload.{IsPackageOf}
use network_course_uio.Mipd.Server.{
  MipdServer, ForwardQueueEntry, LocalSocket, World, to_link, to_forward_socket, to_application,
  interface_at,
}
use network_course_uio.Mipd.Server.Forwarding.{
  neighbor, push, handle_forward_response, load_forward_package, request_forwarding,
}
use network_course_uio.Mipd.Server.Forwarding.Order.{
  IsForwarded, handle_forward_response-IsForwarded,
}
use network_course_uio.Mipd.Server.Applications.{handle_mip_package_for_application}
use network_course_uio.Mipd.Server.Applications.Delivery.{
  handle_message-neighbor, handle_message_forwarded, handle_mip_package_for_application_lem,
}
use network_course_uio.Mipd.Server.Frames.{handle_transport}
use network_course_uio.Mipd.Server.Frames.TimeToLive.{way-ttl, Hop, hop, arrived, onward}
use network_course_uio.Mipd.Server.Loop.{Event, handle_message}

abbrev pointer : BytePointer
pointer = record { representation = replicate 8 7; target = replicate 6 255 }

abbrev eth0 : InterfaceRecord
eth0 = record {
  interface = replicate 8 1;
  so_name = record { sll_ifindex = 2; sll_addr = replicate 8 1 };
  mip_address = 10;
  raw_socket = pos 4;
}

abbrev neighbor20 : MipArpCacheEntry
neighbor20 = record {
  mip_address = 20;
  src_socket = pos 4;
  dst_interface = replicate 6 2;
  last_update = 1000;
}

abbrev package40 : MipPackage
package40 = record {
  e_frame = record {
    dst_addr = replicate 6 1;
    src_addr = replicate 6 3;
    eth_proto = 0x88 ∷ 0xB5 ∷ [];
  };
  m_header = record { tra = 3; ttl = 5; payload_len = 1; dst_addr = 40; src_addr = 255 };
  message = 7 ∷ 8 ∷ 9 ∷ 0 ∷ [];
}

abbrev entry40 : ForwardQueueEntry
entry40 = record { destination = 40; queued = package40; age_milli = 900 }

abbrev entry50 : ForwardQueueEntry
entry50 = record { destination = 50; queued = package40; age_milli = 950 }

abbrev socket : LocalSocket
socket = record { listening_socket_fd = pos 6; connected_socket_fd = pos 7 }

abbrev server : MipdServer
server = record {
  app_socket = socket;
  route_socket = socket;
  forward_socket = socket;
  i_table = record { interfaces = eth0 ∷ [] };
  cache = record {
    entries = neighbor20 ∷ replicate 63 MipArp.zero_entry;
    size = 1;
    update_freq = 4000;
    last_arp = 500;
  };
  forward_queue = entry50 ∷ entry40 ∷ [];
}

abbrev world : World
world = record {
  now = 1000;
  sent = true;
  written = true;
  pushed = pos 1;
  own_mac = pointer;
  peer_mac = pointer;
}

found20 :
    neighbor server (query_mip_address_src_socket server.cache 20) 20
    ≡ some (some (eth0, neighbor20))
unfolding neighbor socket_from pos_from get_interface_pos_for_socket position_from interface_at
found20 = refl

known20 : eq_int (query_mip_address_src_socket server.cache 20) minus_one ≡ false
unfolding socket_from
known20 = refl

unknown40 : query_mip_address_src_socket server.cache 40 ≡ minus_one
unfolding socket_from
unknown40 = refl

handle_forward_response-IsForwarded_example :
    (p : MipPackage) × (left : MipdServer) × (handle_forward_response world server 20
      ≡ some (
        pos 1,
        to_link (record {
          socket = query_mip_address_src_socket server.cache 20;
          so_name = eth0.so_name;
          frame = p;
        })
            ∷ [],
        left,
      ))
    × IsForwarded entry40.queued eth0 neighbor20 p
    × (waiting left.forward_queue ≡ entry50 ∷ [])
handle_forward_response-IsForwarded_example =
    handle_forward_response-IsForwarded world server 20 entry40 (entry50 ∷ []) refl eth0 neighbor20
      known20 found20 refl

elsewhere40 : get_interface_pos_for_mip_address server.i_table 40 ≡ minus_one
unfolding get_interface_pos_for_mip_address position_from
elsewhere40 = refl

abbrev passed_on : MipPackage
passed_on = record package40 {
  e_frame = create_ethernet_frame neighbor20.dst_interface eth0.so_name.sll_addr;
  m_header = record (package40.m_header) { ttl = 4; src_addr = 10 };
}

one_hop : Hop package40 passed_on
unfolding handle_transport request_forwarding get_interface_pos_for_mip_address position_from push
    neighbor socket_from pos_from get_interface_pos_for_socket interface_at load_forward_package
one_hop =
    hop world server
      (push 1000 server (record package40 { m_header = record (package40.m_header) { ttl = 4 } }))
      server (to_forward_socket 40 ∷ [])
      (record {
        destination = 40;
        queued = record package40 { m_header = record (package40.m_header) { ttl = 4 } };
        age_milli = 1000;
      })
      20 refl refl refl

way-ttl_example :
    (passed_on.m_header.ttl + 1 ≡ package40.m_header.ttl)
    × (passed_on.m_header.dst_addr ≡ package40.m_header.dst_addr)
    × (passed_on.message ≡ package40.message)
way-ttl_example = way-ttl (onward one_hop arrived)

abbrev event : Event
event = record {
  fd = pos 7;
  accepted = pos 8;
  bytes = none;
  own_macs = λ _. pointer;
  broadcast_mac = pointer;
  default_mac = pointer;
  sends = λ _. true;
  world = world;
}

abbrev to20 : MipdMessage
to20 = record { mip_address = 20; data_size = 3; bytes = 7 ∷ 8 ∷ 9 ∷ [] }

to20-IsMessage : IsMessage to20
to20-IsMessage = record { stored = refl; small = omega arith }

handle_message-neighbor_example :
    (p : MipPackage) × (handle_message event to20 server
      ≡ some (
        pos 0,
        to_link (record {
          socket = query_mip_address_src_socket server.cache 20;
          so_name = eth0.so_name;
          frame = p;
        })
            ∷ [],
        server,
      ))
    × IsPackageOf
        (create_ethernet_frame neighbor20.dst_interface eth0.so_name.sll_addr)
        (create_transport 10 20)
        to20.bytes
        p
handle_message-neighbor_example =
    handle_message-neighbor event server to20 to20-IsMessage eth0 neighbor20 known20 found20 refl

abbrev to40 : MipdMessage
to40 = record { mip_address = 40; data_size = 3; bytes = 7 ∷ 8 ∷ 9 ∷ [] }

to40-IsMessage : IsMessage to40
to40-IsMessage = record { stored = refl; small = omega arith }

handle_message_forwarded_example :
    (p : MipPackage) × (handle_message event to40 server
      ≡ some (pos 0, to_forward_socket 40 ∷ [], push event.world.now server p))
    × IsPackageOf
        (create_transport_frame event.default_mac event.default_mac)
        (create_transport 255 40)
        to40.bytes
        p
handle_message_forwarded_example =
    handle_message_forwarded event server to40 to40-IsMessage unknown40 refl

handle_mip_package_for_application_example :
    (bytes : List ℕ) × (handle_mip_package_for_application world server package40
      ≡ some (pos 1, to_application bytes ∷ []))
    × (deserialize (bytes ++ [])
        ≡ some
            (some (record { mip_address = 255; data_size = 4; bytes = take 4 package40.message })))
handle_mip_package_for_application_example =
    handle_mip_package_for_application_lem world server package40 [] refl refl (omega arith)
      (omega arith)
