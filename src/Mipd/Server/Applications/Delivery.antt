-- ===== src/Mipd/Server/Applications/Delivery.antt =====
-- A message on its way from an application to the network, and a package on its way to one.
use network_course_uio.Prelude.{
  ℕ, ◌+◌, ◌*◌, ◌≤◌, ◌≡◌, refl, true, false, some, List, [], ◌∷◌, ◌++◌, length, take, replicate,
  arith, length-take, length-replicate, le→leb, pos, minus_one, eq_int, if◌then◌else◌, Bool-cases,
  inl, inr,
}
use network_course_uio.Prelude.Bytes.{copy_out_inside}
use network_course_uio.Commons.MipdMessage.{MipdMessage, serialize, deserialize}
use network_course_uio.Commons.MipdMessage
use network_course_uio.Commons.MipdMessage.Roundtrip.{IsMessage, mipd_message_roundtrip}
use network_course_uio.Mipd.InterfaceTable.{InterfaceRecord}
use network_course_uio.Mipd.MipArp.{MipArpCacheEntry, query_mip_address_src_socket}
use network_course_uio.Mipd.Packaging.EtherFrame.{create_ethernet_frame, create_transport_frame}
use network_course_uio.Mipd.Packaging.MipHeader.{create_transport}
use network_course_uio.Mipd.Packaging.MipPackage.{MipPackage, create_raw}
use network_course_uio.Mipd.Packaging.Payload.{
  IsPackageOf, package_of, create_small, package_of-IsPackageOf,
}
use network_course_uio.Mipd.Server.{MipdServer, World, to_link, to_forward_socket, to_application}
use network_course_uio.Mipd.Server.Forwarding.{neighbor, push, request_forwarding}
use network_course_uio.Mipd.Server.Applications.{
  handle_domain_socket_request, create_queueable, handle_mip_package_for_application,
}
use network_course_uio.Mipd.Server.Loop.{Event, handle_message}

module _ (event : Event) (server : MipdServer) (m : MipdMessage) (valid : IsMessage m) where
  small : length m.bytes ≤ 1496
  small = omega (arith, valid.stored, valid.small)

  -- A message for a neighbour in the ARP cache whose interface is found goes out to it, when
  -- `sendto` succeeds, in a package that holds its bytes, and nothing of the daemon changes.
  pub handle_message-neighbor :
      (r : InterfaceRecord) (entry : MipArpCacheEntry)
      → eq_int (query_mip_address_src_socket server.cache m.mip_address) minus_one ≡ false
      → neighbor server (query_mip_address_src_socket server.cache m.mip_address) m.mip_address
        ≡ some (some (r, entry))
      → event.world.sent ≡ true
      → (p : MipPackage) × (handle_message event m server
          ≡ some (
            pos 0,
            to_link (record {
              socket = query_mip_address_src_socket server.cache m.mip_address;
              so_name = r.so_name;
              frame = p;
            })
                ∷ [],
            server,
          ))
        × IsPackageOf
            (create_ethernet_frame entry.dst_interface r.so_name.sll_addr)
            (create_transport r.mip_address m.mip_address)
            m.bytes
            p
  unfolding handle_message handle_domain_socket_request
  handle_message-neighbor r entry known found sent =
      let f = create_ethernet_frame entry.dst_interface r.so_name.sll_addr in
      let h = create_transport r.mip_address m.mip_address in
      let out = create_small f h m.bytes small in
      let request : handle_domain_socket_request event.world server m
          ≡ some (
            pos 1,
            to_link (record {
              socket = query_mip_address_src_socket server.cache m.mip_address;
              so_name = r.so_name;
              frame = package_of f h m.bytes;
            })
                ∷ [],
          ) =
        rw (known, handle_domain_socket_request)
          (rw (found, handle_domain_socket_request)
            (rw (out, handle_domain_socket_request) (rw sent refl))) in
      (
        package_of f h m.bytes,
        rw (request, handle_message) refl,
        package_of-IsPackageOf f h m.bytes small,
      )

  -- A message for an address that is not in the ARP cache is queued in a package that holds its
  -- bytes, and the routing daemon is asked for a next hop, if the question can be written. The event
  -- loop then goes on, unless `ForwardQueue_push`, which returns nothing, leaves -1 where its value is
  -- read: then it fails.
  pub handle_message_forwarded :
      query_mip_address_src_socket server.cache m.mip_address ≡ minus_one
      → event.world.written ≡ true
      → (p : MipPackage) × (handle_message event m server
          ≡ some (
            if eq_int event.world.pushed minus_one then minus_one else pos 0,
            to_forward_socket m.mip_address ∷ [],
            push event.world.now server p,
          ))
        × IsPackageOf
            (create_transport_frame event.default_mac event.default_mac)
            (create_transport 255 m.mip_address)
            m.bytes
            p
  unfolding handle_message handle_domain_socket_request create_queueable create_raw
      request_forwarding create_transport
  handle_message_forwarded unknown written =
      let f = create_transport_frame event.default_mac event.default_mac in
      let h = create_transport 255 m.mip_address in
      let request : handle_domain_socket_request event.world server m ≡ some (pos 0, []) =
        rw (unknown, handle_domain_socket_request) refl in
      let queueable : create_queueable event.default_mac m ≡ some (package_of f h m.bytes) =
        create_small f h m.bytes small in
      (
        package_of f h m.bytes,
        rw (request, handle_message)
            (rw (queueable, handle_message)
              (rw (written, request_forwarding)
                (elim (Bool-cases (eq_int event.world.pushed minus_one)) [
                  | inl failed ↦ rw failed refl
                  | inr kept ↦ rw kept refl
                ]))),
        package_of-IsPackageOf f h m.bytes small,
      )

-- A package for this host, of 374 words at most and all there, goes to the connected application,
-- when `send` succeeds, in bytes that are deserialised to its source and its payload.
pub handle_mip_package_for_application_lem :
    (world : World) (server : MipdServer) (p : MipPackage) (rest : List ℕ)
    → eq_int server.app_socket.connected_socket_fd minus_one ≡ false
    → world.sent ≡ true
    → p.m_header.payload_len ≤ 374
    → p.m_header.payload_len * 4 ≤ length p.message
    → (bytes : List ℕ) × (handle_mip_package_for_application world server p
        ≡ some (pos 1, to_application bytes ∷ []))
      × (deserialize (bytes ++ rest)
          ≡ some (
              some (record {
                mip_address = p.m_header.src_addr;
                data_size = p.m_header.payload_len * 4;
                bytes = take (p.m_header.payload_len * 4) p.message;
              })))
unfolding handle_mip_package_for_application
handle_mip_package_for_application_lem world server p rest connected sent words there =
    let n = p.m_header.payload_len * 4 in
    let m : MipdMessage = record {
      mip_address = p.m_header.src_addr;
      data_size = n;
      bytes = take n p.message;
    } in
    let valid : IsMessage m = record {
      stored = omega (arith, length-take n p.message);
      small = omega arith;
    } in
    let made : MipdMessage.create p.m_header.src_addr n p.message ≡ some (some m) =
      unfold MipdMessage.create in
      rw (le→leb n 1496 (omega arith), copy_out_inside 0 n p.message (omega (arith, there))) refl in
    let (written, out, back) =
      mipd_message_roundtrip (replicate 1500 0) rest m valid
        (omega (arith, length-replicate {A = ℕ} 1500 0)) in
    (
      take (3 + n) written,
      rw (connected, handle_mip_package_for_application)
          (rw (made, handle_mip_package_for_application)
            (rw (out, handle_mip_package_for_application) (rw sent refl))),
      back,
    )
