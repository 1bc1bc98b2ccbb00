-- ===== src/Mipd/Link/Tests.antt =====
-- Packages on their way over a link.
use network_course_uio.Prelude.{
  ℕ, ◌+◌, ◌*◌, ◌≡◌, refl, none, some, List, [], ◌∷◌, ◌++◌, drop, replicate, arith, leb,
  if◌then◌else◌, pos,
}
use network_course_uio.Routerd.MipRouteTable.{MipRouteTablePackage, zero_entry}
use network_course_uio.Mipd.Packaging.EtherFrame.{BytePointer}
use network_course_uio.Mipd.Packaging.MipPackage.{MipPackage, create_raw}
use network_course_uio.Mipd.Link.{sendto_raw_mip_package, recv_raw_mip_package}
use network_course_uio.Mipd.Link.Transfer.{IsSendable, recv-sendto}
use network_course_uio.Mipd.Link.Overrun.{route_table_overrun}
use network_course_uio.Mipd.Routing.{package_bytes}

abbrev pointer : BytePointer
pointer = record { representation = replicate 8 7; target = replicate 6 255 }

abbrev package40 : MipPackage
package40 = record {
  e_frame = record {
    dst_addr = replicate 6 1;
    src_addr = replicate 6 3;
    eth_proto = 0x88 ∷ 0xB5 ∷ [];
  };
  m_header = record { tra = 3; ttl = 5; payload_len = 1; dst_addr = 40; src_addr = 255 };
  message = 7 ∷ 8 ∷ 9 ∷ 0 ∷ [];
}

package40-IsSendable : IsSendable package40
package40-IsSendable = record {
  dst = refl;
  src = refl;
  proto = refl;
  tra = omega arith;
  ttl = omega arith;
  payload_len = omega arith;
  whole = refl;
}

abbrev eight_bytes : List ℕ
eight_bytes = replicate 8 9

abbrev old : MipPackage
old = record package40 { message = replicate 1496 0 }

recv-sendto_example :
    (frame : List ℕ) × (sendto_raw_mip_package eight_bytes package40 ≡ some frame)
    × (recv_raw_mip_package (some frame) old ≡ (
        if leb 1 40
        then some (
          pos (26 + 4 * 1),
          record package40 { message = package40.message ++ drop 4 old.message },
        )
        else none))
recv-sendto_example = recv-sendto eight_bytes package40 refl package40-IsSendable old refl

abbrev table : MipRouteTablePackage
table = record { table_address = 10; num_entries = 0; entries = replicate 64 zero_entry }

route_table_overrun_example :
    (made : MipPackage) × (frame : List ℕ) × (create_raw 10 pointer 255 pointer
        (package_bytes table)
        2
      ≡ some made)
    × (sendto_raw_mip_package eight_bytes made ≡ some frame)
    × (recv_raw_mip_package (some frame) old ≡ none)
route_table_overrun_example =
    route_table_overrun pointer pointer 10 table eight_bytes old (omega arith) (omega arith)
      (omega arith) refl refl
