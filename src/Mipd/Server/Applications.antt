-- ===== src/Mipd/Server/Applications.antt =====
-- mipd/src/lib/app_connection.c and server.c: messages of the connected application to and from the
-- network. The outermost none is an access to an object that is not there.
pub mod Delivery
use network_course_uio.Prelude.{
  ℕ, ◌*◌, Option, none, some, List, [], ◌∷◌, if◌then◌else◌, take, replicate, ℤ, pos, negsuc,
  minus_one, eq_int,
}
use network_course_uio.Commons.MipdMessage.{MipdMessage, serialize, max_mipmessage_size}
use network_course_uio.Commons.MipdMessage
use network_course_uio.Mipd.MipArp.{query_mip_address_src_socket}
use network_course_uio.Mipd.Packaging.EtherFrame.{BytePointer, create_ethernet_frame}
use network_course_uio.Mipd.Packaging.MipHeader.{create_transport}
use network_course_uio.Mipd.Packaging.MipPackage.{MipPackage, create_raw}
use network_course_uio.Mipd.Packaging.MipPackage
use network_course_uio.Mipd.Server.{MipdServer, World, Output, to_link, to_application}
use network_course_uio.Mipd.Server.Forwarding.{neighbor}

-- `handle_MIPPackage_for_application`. The buffer is filled with zeros here, since the bytes that
-- are sent are those that are written to it.
unfoldable pub handle_mip_package_for_application :
    World → MipdServer → MipPackage → Option (ℤ × List Output)
handle_mip_package_for_application world server p =
    if eq_int server.app_socket.connected_socket_fd minus_one
    then some (pos 0, [])
    else elim (MipdMessage.create p.m_header.src_addr (p.m_header.payload_len * 4) p.message) [
      | none ↦ none
      | some none ↦ some (minus_one, [])
      | some (some m) ↦ elim (serialize (replicate max_mipmessage_size 0) m) [
        | none ↦ none
        | some (negsuc _, s_message) ↦ some (minus_one, [])
        | some (pos size, s_message) ↦
            if world.sent
            then some (pos 1, to_application (take size s_message) ∷ [])
            else some (minus_one, [])
      ]
    ]

-- `handle_domain_socket_request`: 1 if the message went to a neighbour, 0 if it is for no neighbour
unfoldable pub handle_domain_socket_request :
    World → MipdServer → MipdMessage → Option (ℤ × List Output)
handle_domain_socket_request world server m =
    let sock = query_mip_address_src_socket server.cache m.mip_address in
    if eq_int sock minus_one then some (pos 0, []) else elim (neighbor server sock m.mip_address) [
      | none ↦ none
      | some none ↦ some (minus_one, [])
      | some (some (r, entry)) ↦
          elim (MipPackage.create (create_ethernet_frame entry.dst_interface r.so_name.sll_addr)
            (create_transport r.mip_address m.mip_address) m.bytes) [
              | none ↦ none
              | some p ↦
                  if world.sent
                  then some (
                    pos 1,
                    to_link (record { socket = sock; so_name = r.so_name; frame = p }) ∷ [],
                  )
                  else some (minus_one, [])
            ]
    ]

-- `create_queueable_MIPDMessage_MIPPackage`: the source is filled in when the package is forwarded.
unfoldable pub create_queueable : (default_mac : BytePointer) → MipdMessage → Option MipPackage
create_queueable default_mac m = create_raw 255 default_mac m.mip_address default_mac m.bytes 3
