-- ===== src/Mipd/Server/Frames.antt =====
-- mipd/src/lib/server.c: what the daemon does with a frame from a raw socket.
-- The outermost none is an access to an object that is not there or behind a buffer.
pub mod TimeToLive
use network_course_uio.Prelude.{
  ℕ, ◌-◌, Option, none, some, List, [], ◌∷◌, ◌==◌, if◌then◌else◌, ℤ, pos, negsuc, minus_one, eq_int,
}
use network_course_uio.Mipd.InterfaceTable.{
  get_interface_pos_for_socket, get_interface_pos_for_mip_address,
}
use network_course_uio.Mipd.MipArp.{append_to_cache, handle_mip_arp_request}
use network_course_uio.Mipd.Packaging.MipPackage.{MipPackage, create_empty}
use network_course_uio.Mipd.Link.{recv_raw_mip_package}
use network_course_uio.Mipd.Routing.{recv_route_table_broadcast}
use network_course_uio.Mipd.Server.{
  MipdServer, World, Output, to_link, to_route_socket, interface_at,
}
use network_course_uio.Mipd.Server.Forwarding.{request_forwarding}
use network_course_uio.Mipd.Server.Applications.{handle_mip_package_for_application}

-- The return code of the handler after a call that returned `rc`
abbrev pub checked : ℤ → ℤ
checked rc = if eq_int rc minus_one then minus_one else pos 0

-- A MIP ARP response: its sender is entered in the cache.
unfoldable pub handle_arp_response :
    World → MipdServer → (fd : ℤ) → MipPackage → Option (ℤ × List Output × MipdServer)
handle_arp_response world server fd p =
    elim (interface_at server.i_table (get_interface_pos_for_socket server.i_table fd)) [
      | none ↦ none
      | some r ↦
          elim (append_to_cache world.now server.cache fd p.m_header.src_addr r.so_name.sll_addr) [
            | none ↦ none
            | some (rc, cache') ↦ some (checked rc, [], record server { cache = cache' })
          ]
    ]

-- A MIP ARP request: it is answered, and its sender is entered in the cache.
unfoldable pub handle_arp_request :
    World → MipdServer → (fd : ℤ) → MipPackage → Option (ℤ × List Output × MipdServer)
handle_arp_request world server fd p =
    elim (interface_at server.i_table (get_interface_pos_for_socket server.i_table fd)) [
      | none ↦ none
      | some r ↦
          elim (handle_mip_arp_request world.now world.sent server.cache p world.own_mac
            world.peer_mac r) [
              | none ↦ none
              | some (none, cache') ↦ some (minus_one, [], record server { cache = cache' })
              | some (some response, cache') ↦
                  some (pos 0, to_link response ∷ [], record server { cache = cache' })
            ]
    ]

-- A route table: it goes to the routing daemon.
unfoldable pub handle_route_table :
    World → MipdServer → MipPackage → Option (ℤ × List Output × MipdServer)
handle_route_table world server p =
    elim (recv_route_table_broadcast server.route_socket.connected_socket_fd world.written p) [
      | none ↦ some (minus_one, [], server)
      | some none ↦ some (pos 0, [], server)
      | some (some table) ↦ some (pos 0, to_route_socket table ∷ [], server)
    ]

-- A transport package: for this host, or to be forwarded while its time to live lasts
unfoldable pub handle_transport :
    World → MipdServer → MipPackage → Option (ℤ × List Output × MipdServer)
handle_transport world server p =
    if eq_int (get_interface_pos_for_mip_address server.i_table p.m_header.dst_addr) minus_one
    then (if p.m_header.ttl == 0
        then some (pos 0, [], server)
        else (let p' : MipPackage = record p {
          m_header = record (p.m_header) { ttl = p.m_header.ttl - 1 };
        } in
            let (rc, outputs, server') = request_forwarding world server p.m_header.dst_addr p' in
            some (checked rc, outputs, server')))
    else elim (handle_mip_package_for_application world server p) [
      | none ↦ none
      | some (rc, outputs) ↦ some (checked rc, outputs, server)
    ]

-- What `handle_raw_socket_frame` does with the package that it has received
unfoldable pub handle_received :
    World → MipdServer → (fd : ℤ) → MipPackage → Option (ℤ × List Output × MipdServer)
handle_received world server fd p =
    if p.m_header.tra == 0
    then handle_arp_response world server fd p
    else if p.m_header.tra == 1
    then handle_arp_request world server fd p
    else if p.m_header.tra == 2
    then handle_route_table world server p
    else if p.m_header.tra == 3
    then handle_transport world server p
    else some (pos 0, [], server)

-- `handle_raw_socket_frame`; `received` is the frame at the socket, or none if `recv` fails.
unfoldable pub handle_raw_socket_frame :
    World
    → MipdServer
    → (fd : ℤ) (received : Option (List ℕ)) → Option (ℤ × List Output × MipdServer)
handle_raw_socket_frame world server fd received = elim create_empty [
  | none ↦ some (minus_one, [], server)
  | some empty ↦ elim (recv_raw_mip_package received empty) [
    | none ↦ none
    | some (rc, p) ↦
        if eq_int rc minus_one
        then some (minus_one, [], server)
        else handle_received world server fd p
  ]
]
