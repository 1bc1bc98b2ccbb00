-- ===== src/Mipd/Packaging/MipHeader.antt =====
-- mipd/src/lib/packaging/mip_header.{h,c}.
use network_course_uio.Prelude.{ℕ, ◌%◌}

-- `struct mip_header`: `tra` has 3 bits, `ttl` 4 and `payload_len` 9.
pub record MipHeader : Type 0 where
  pub tra : ℕ
  pub ttl : ℕ
  pub payload_len : ℕ
  pub dst_addr : ℕ
  pub src_addr : ℕ

abbrev pub tra_arp_response : ℕ
tra_arp_response = 0

abbrev pub tra_arp_request : ℕ
tra_arp_request = 1

abbrev pub tra_route_table : ℕ
tra_route_table = 2

abbrev pub tra_transport : ℕ
tra_transport = 3

-- What an assignment leaves in the bit-field
abbrev pub tra_field : ℕ → ℕ
tra_field n = n % 8

abbrev pub payload_len_field : ℕ → ℕ
payload_len_field n = n % 512

-- `create_arp_request_mip_header`
unfoldable pub create_arp_request : ℕ → MipHeader
create_arp_request src_addr = record {
  tra = tra_arp_request;
  ttl = 15;
  payload_len = 0;
  dst_addr = 255;
  src_addr = src_addr;
}

-- `create_route_broadcast_mip_header`
unfoldable pub create_route_broadcast : ℕ → MipHeader
create_route_broadcast src_addr = record {
  tra = tra_route_table;
  ttl = 15;
  payload_len = 0;
  dst_addr = 255;
  src_addr = src_addr;
}

-- `create_arp_response_mip_header`, for a request that is not null
unfoldable pub create_arp_response : ℕ → MipHeader → MipHeader
unfolding create_arp_request
create_arp_response src_addr arp_request = record (create_arp_request src_addr) {
  tra = tra_arp_response;
  dst_addr = arp_request.src_addr;
}

-- `create_transport_mip_header`
unfoldable pub create_transport : ℕ → ℕ → MipHeader
unfolding create_arp_request
create_transport src_addr dest_addr = record (create_arp_request src_addr) {
  tra = tra_transport;
  dst_addr = dest_addr;
}
