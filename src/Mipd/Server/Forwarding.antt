-- ===== src/Mipd/Server/Forwarding.antt =====
-- mipd/src/lib/router/forwarding.{h,c}: packages wait in a queue until the routing daemon answers with
-- their next hops. The outermost none is an access to an object that is not there.
pub mod Order
use network_course_uio.Prelude.{
  ℕ, Bool, not, Option, none, some, List, [], ◌∷◌, ◌==◌, if◌then◌else◌, get_or, ℤ, pos, negsuc,
  minus_one, eq_int,
}
use network_course_uio.Commons.Queue.{send, recv}
use network_course_uio.Mipd.InterfaceTable.{InterfaceRecord, get_interface_pos_for_socket}
use network_course_uio.Mipd.MipArp.{
  MipArpCacheEntry, zero_entry, query_mip_address_src_socket, query_mip_address_pos,
}
use network_course_uio.Mipd.Packaging.EtherFrame.{create_ethernet_frame}
use network_course_uio.Mipd.Packaging.MipPackage.{MipPackage}
use network_course_uio.Mipd.Server.{
  MipdServer, World, Output, to_link, to_forward_socket, interface_at,
}

-- `ForwardQueue_push`
unfoldable pub push : (now : ℕ) → MipdServer → MipPackage → MipdServer
push now server p = record server {
  forward_queue =
      send server.forward_queue
        (record { destination = p.m_header.dst_addr; queued = p; age_milli = now });
}

-- `ForwardQueue_pop`: the package is none, for NULL, if the queue is empty.
unfoldable pub pop : MipdServer → Option MipPackage × MipdServer
pop server =
    let (entry, left) = recv server.forward_queue in
    (elim entry [ none ↦ none | some e ↦ some e.queued ], record server { forward_queue = left })

-- `forward_found`
unfoldable pub forward_found : ℕ → Bool
forward_found forward_response = not (forward_response == 255)

-- The lookups of a neighbour whose socket has been found: the interface of the socket and the cache
-- entry of the address, or the inner none if a check fails
unfoldable pub neighbor :
    MipdServer → (sock : ℤ) (address : ℕ) → Option (Option (InterfaceRecord × MipArpCacheEntry))
neighbor server sock address =
    let i_pos = get_interface_pos_for_socket server.i_table sock in
    if eq_int i_pos minus_one
    then some none
    else elim (query_mip_address_pos server.cache address) [
      | negsuc _ ↦ some none
      | pos cache_pos ↦ elim (interface_at server.i_table i_pos) [
        | none ↦ none
        | some r ↦ some (some (r, get_or server.cache.entries cache_pos zero_entry))
      ]
    ]

-- `load_forward_package`: the package with its frame and its source filled in, or the inner none
-- for -1
unfoldable pub load_forward_package :
    MipdServer → (forward_package : Option MipPackage) (next_hop : ℕ) → Option (Option MipPackage)
load_forward_package server forward_package next_hop =
    let sock = query_mip_address_src_socket server.cache next_hop in
    if eq_int sock minus_one then some none else elim (neighbor server sock next_hop) [
      | none ↦ none
      | some none ↦ some none
      | some (some (r, entry)) ↦ elim forward_package [
        | none ↦ none
        | some p ↦ some (
            some (record p {
              e_frame = create_ethernet_frame entry.dst_interface r.so_name.sll_addr;
              m_header = record (p.m_header) {
                src_addr =
                    if p.m_header.src_addr == 255 then r.mip_address else p.m_header.src_addr;
              };
            }))
      ]
    ]

-- `handle_forward_response`
unfoldable pub handle_forward_response :
    World → MipdServer → (next_hop : ℕ) → Option (ℤ × List Output × MipdServer)
handle_forward_response world server next_hop =
    let (forward_package, server') = pop server in
    elim (load_forward_package server forward_package next_hop) [
      | none ↦ none
      | some none ↦ some (minus_one, [], server')
      | some (some loaded) ↦
          let sock = query_mip_address_src_socket server.cache next_hop in
          if eq_int sock minus_one
          then some (minus_one, [], server')
          else elim (neighbor server sock next_hop) [
            | none ↦ none
            | some none ↦ some (minus_one, [], server')
            | some (some (r, entry)) ↦
                if world.sent
                then some (
                  pos 1,
                  to_link (record { socket = sock; so_name = r.so_name; frame = loaded }) ∷ [],
                  server',
                )
                else some (minus_one, [], server')
          ]
    ]

-- `request_forwarding`: 1 if the request went to the routing daemon, 0 if it could not be written,
-- and what `ForwardQueue_push` left if that is -1
unfoldable pub request_forwarding :
    World → MipdServer → (destination : ℕ) → MipPackage → ℤ × List Output × MipdServer
request_forwarding world server destination p =
    if world.written
    then (
      if eq_int world.pushed minus_one then minus_one else pos 1,
      to_forward_socket destination ∷ [],
      push world.now server p,
    )
    else (pos 0, [], server)
