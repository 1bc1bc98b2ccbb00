-- ===== src/Mipd/Packaging/EtherFrame.antt =====
-- mipd/src/lib/packaging/ether_frame.{h,c}.
use network_course_uio.Prelude.{ℕ, List, [], ◌∷◌, take}

-- `struct ether_frame`: six, six and two bytes
pub record EtherFrame : Type 0 where
  pub dst_addr : List ℕ
  pub src_addr : List ℕ
  pub eth_proto : List ℕ

-- A `uint8_t *` argument: the bytes of the pointer itself, and the bytes that it points to
pub record BytePointer : Type 0 where
  pub representation : List ℕ
  pub target : List ℕ

abbrev pub mac_address_size : ℕ
mac_address_size = 6

abbrev pub eth_broadcast_addr : List ℕ
eth_broadcast_addr = 0xff ∷ 0xff ∷ 0xff ∷ 0xff ∷ 0xff ∷ 0xff ∷ []

abbrev pub mip_proto : List ℕ
mip_proto = 0x88 ∷ 0xB5 ∷ []

-- `create_response_ethernet_frame`
unfoldable pub create_response : EtherFrame → EtherFrame
create_response request_ethernet = record request_ethernet {
  dst_addr = request_ethernet.src_addr;
  src_addr = request_ethernet.dst_addr;
}

-- `create_transport_ethernet_frame`: `memcpy` is given `&dest` and `&src`, the addresses of the
-- pointer variables, so the bytes that it copies are those of the pointers.
unfoldable pub create_transport_frame : (src dest : BytePointer) → EtherFrame
create_transport_frame src dest = record {
  dst_addr = take mac_address_size dest.representation;
  src_addr = take mac_address_size src.representation;
  eth_proto = mip_proto;
}

-- `create_ethernet_frame`, on the bytes of the destination and the `sll_addr` of the interface
unfoldable pub create_ethernet_frame : (dest sll_addr : List ℕ) → EtherFrame
create_ethernet_frame dest sll_addr = record {
  dst_addr = take mac_address_size dest;
  src_addr = take mac_address_size sll_addr;
  eth_proto = mip_proto;
}

-- `create_ethernet_arp_frame`
unfoldable pub create_arp_frame : (sll_addr : List ℕ) → EtherFrame
create_arp_frame sll_addr = record {
  dst_addr = eth_broadcast_addr;
  src_addr = take mac_address_size sll_addr;
  eth_proto = mip_proto;
}

-- `create_ethernet_arp_frame_from_mac_addrs`
unfoldable pub create_arp_frame_from_mac : (mac_address : List ℕ) → EtherFrame
create_arp_frame_from_mac mac_address = record {
  dst_addr = eth_broadcast_addr;
  src_addr = take mac_address_size mac_address;
  eth_proto = mip_proto;
}
