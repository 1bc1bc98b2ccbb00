-- ===== src/Mipd/Routing/Broadcast.antt =====
-- What `broadcast_route_table` of the MIP daemon sends on each interface.
use network_course_uio.Prelude.{
  ℕ, zero, suc, ◌≡◌, refl, List, [], ◌∷◌, length, arith, All, ap, ◌∙◌, some, ◌==◌, if◌then◌else◌,
}
use network_course_uio.Routerd.MipRouteTable.{MipRoutePackageEntry, MipRouteTablePackage}
use network_course_uio.Routerd.MipRouteTable.Package.{SlotFits}
use network_course_uio.Mipd.InterfaceTable.{InterfaceRecord}
use network_course_uio.Mipd.MipArp.{MipArpCache, Outgoing, query_cache_socket_mip_address}
use network_course_uio.Mipd.Packaging.EtherFrame.{BytePointer, create_transport_frame}
use network_course_uio.Mipd.Packaging.MipHeader.{MipHeader, create_transport, tra_field}
use network_course_uio.Mipd.Packaging.MipPackage.{MipPackage, create_raw}
use network_course_uio.Mipd.Packaging.Payload.{package_of, create_small}
use network_course_uio.Mipd.Routing.{
  poison_slots, poison_reverse, table_for, package_bytes, parse_broadcasted_table,
}
use network_course_uio.Mipd.Routing.Bytes.{
  IsWhole, parse_broadcasted_table-package_bytes, length-package_bytes,
}

poison-IsWhole :
    (n d : ℕ) (slots : List MipRoutePackageEntry)
    → All SlotFits slots
    → (length (poison_slots n d slots) ≡ length slots) × All SlotFits (poison_slots n d slots)
unfolding poison_slots
poison-IsWhole zero d slots h = (refl, h)
poison-IsWhole (suc n) d [] h = (refl, tt)
poison-IsWhole (suc n) d (s ∷ slots) h =
    let rest = poison-IsWhole n d slots h.1 in (ap suc rest.0, (ground arith, rest.1))

pub table_for-IsWhole :
    (cache : MipArpCache) (p : MipRouteTablePackage) (r : InterfaceRecord)
    → IsWhole p
    → IsWhole (table_for cache p r)
unfolding table_for poison_reverse
table_for-IsWhole cache p r h =
    let d = query_cache_socket_mip_address cache r.raw_socket in
    let kept = poison-IsWhole p.num_entries (if d == 255 then r.mip_address else d) p.entries h.1 in
    (kept.0 ∙ h.0, kept.1)

-- The frame that goes out by an interface: a broadcast of a route table from the address of the
-- interface, out of whose message the receiver reads the table that is poisoned for it.
pub record Carries (cache : MipArpCache) (p : MipRouteTablePackage) (r : InterfaceRecord)
    (o : Outgoing) : Type 0 where
  pub by : o.socket ≡ r.raw_socket
  pub named : o.so_name ≡ r.so_name
  pub route_table : o.frame.m_header.tra ≡ 2
  pub to_all : o.frame.m_header.dst_addr ≡ 255
  pub sender : o.frame.m_header.src_addr ≡ r.mip_address
  pub reads : parse_broadcasted_table o.frame.message ≡ table_for cache p r

module _ (own_mac : ℕ → BytePointer) (broadcast_mac : BytePointer) (cache : MipArpCache)
    (p : MipRouteTablePackage) (whole : IsWhole p) where
  pub frame_for :
      (i : ℕ) (r : InterfaceRecord)
      → (out : MipPackage) × (create_raw r.mip_address
            (own_mac i)
            255
            broadcast_mac
            (package_bytes (table_for cache p r))
            2
          ≡ some out)
        × Carries cache p r (record { socket = r.raw_socket; so_name = r.so_name; frame = out })
  unfolding create_raw create_transport
  frame_for i r =
      let bytes = package_bytes (table_for cache p r) in
      let table' = table_for-IsWhole cache p r whole in
      let frame = create_transport_frame (own_mac i) broadcast_mac in
      let header : MipHeader = record (create_transport r.mip_address 255) { tra = tra_field 2 } in
      (
        package_of frame header bytes,
        create_small frame header bytes
            (omega (arith, length-package_bytes (table_for cache p r), table'.0)),
        record {
          by = refl;
          named = refl;
          route_table = refl;
          to_all = refl;
          sender = refl;
          reads = parse_broadcasted_table-package_bytes (table_for cache p r) _ table';
        },
      )
