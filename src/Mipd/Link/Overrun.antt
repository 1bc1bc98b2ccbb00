-- ===== src/Mipd/Link/Overrun.antt =====
-- The route tables of the neighbours do not fit the buffer that they are received in.
use network_course_uio.Prelude.{
  ℕ, ◌≤◌, ◌≡◌, refl, none, some, List, length, arith, length-take, ◌∙◌,
}
use network_course_uio.Routerd.MipRouteTable.{MipRouteTablePackage}
use network_course_uio.Mipd.Packaging.EtherFrame.{BytePointer, create_transport_frame}
use network_course_uio.Mipd.Packaging.MipHeader.{MipHeader, create_transport, tra_field}
use network_course_uio.Mipd.Packaging.MipPackage.{
  MipPackage, create_raw, calculate_mip_payload_words,
}
use network_course_uio.Mipd.Packaging.Payload.{
  package_of, create_small, words_bounds, package_of-IsPackageOf,
}
use network_course_uio.Mipd.Routing.{package_bytes}
use network_course_uio.Mipd.Routing.Bytes.{IsWhole, length-package_bytes}
use network_course_uio.Mipd.Link.{sendto_raw_mip_package, recv_raw_mip_package}
use network_course_uio.Mipd.Link.Transfer.{IsSendable, recv-sendto}

-- The frame that a daemon makes of a route table is sent, and every receiver reads behind its
-- buffer: the table has 514 bytes, and the buffer room for 162.
pub route_table_overrun :
    (own_mac broadcast_mac : BytePointer) (address : ℕ) (p : MipRouteTablePackage)
    (pointer : List ℕ) (old : MipPackage)
    → 6 ≤ length own_mac.representation
    → 6 ≤ length broadcast_mac.representation
    → IsWhole p
    → length pointer ≡ 8
    → length old.message ≡ 1496
    → (made : MipPackage) × (frame : List ℕ) × (create_raw address own_mac 255 broadcast_mac
          (package_bytes p)
          2
        ≡ some made)
      × (sendto_raw_mip_package pointer made ≡ some frame)
      × (recv_raw_mip_package (some frame) old ≡ none)
unfolding create_raw create_transport create_transport_frame
route_table_overrun own_mac broadcast_mac address p pointer old own broadcast whole eight room =
    let bytes = package_bytes p in
    let f = create_transport_frame own_mac broadcast_mac in
    let h : MipHeader = record (create_transport address 255) { tra = tra_field 2 } in
    let size : length bytes ≡ 514 = omega (arith, length-package_bytes p, whole.0) in
    let words : calculate_mip_payload_words (length bytes) ≡ 129 =
      omega (arith, size, words_bounds (length bytes)) in
    let small : length bytes ≤ 1496 = omega (arith, size) in
    let made = package_of f h bytes in
    let ok : IsSendable made = record {
      dst = omega (arith, length-take 6 broadcast_mac.representation, broadcast);
      src = omega (arith, length-take 6 own_mac.representation, own);
      proto = refl;
      tra = omega arith;
      ttl = omega arith;
      payload_len = omega (arith, words);
      whole = (package_of-IsPackageOf f h bytes small).whole_words;
    } in
    let (frame, sent, received) = recv-sendto pointer made eight ok old room in
    (made, frame, create_small f h bytes small, sent, received ∙ rw words refl)
