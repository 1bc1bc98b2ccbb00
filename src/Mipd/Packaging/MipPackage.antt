-- ===== src/Mipd/Packaging/MipPackage.antt =====
-- mipd/src/lib/packaging/mip_package.{h,c}. A message is the list of its bytes, and its size is the
-- length of that list.
use network_course_uio.Prelude.{
  ℕ, ◌+◌, ◌-◌, ◌*◌, ◌/◌, ◌%◌, not, Option, none, some, List, [], ◌++◌, ltb, leb, ◌==◌,
  if◌then◌else◌, length, replicate,
}
use network_course_uio.Mipd.Packaging.MipHeader.{
  MipHeader, tra_field, payload_len_field, create_arp_request, create_transport,
}
use network_course_uio.Mipd.Packaging.EtherFrame.{
  EtherFrame, BytePointer, create_transport_frame, create_arp_frame_from_mac,
}

abbrev pub payload_max_size_bytes : ℕ
payload_max_size_bytes = 1496

abbrev pub payload_max_word_num : ℕ
payload_max_word_num = 374

abbrev pub mip_payload_word : ℕ
mip_payload_word = 4

-- `struct MIPPackage`; a null `message` is the empty list.
pub record MipPackage : Type 0 where
  pub e_frame : EtherFrame
  pub m_header : MipHeader
  pub message : List ℕ

-- `calculate_mip_payload_words`: `round` is applied to a quotient of integers.
unfoldable pub calculate_mip_payload_words : ℕ → ℕ
calculate_mip_payload_words message_size =
    if not (message_size % mip_payload_word == 0)
    then message_size / mip_payload_word + 1
    else message_size / mip_payload_word

-- `create_payload`: `calloc` fills up the last word with zeros.
unfoldable pub create_payload : MipPackage → (message : List ℕ) → Option MipPackage
unfolding calculate_mip_payload_words
create_payload new_package message =
    let words = calculate_mip_payload_words (length message) in
    if leb words payload_max_word_num
    then some (record new_package {
      m_header = record (new_package.m_header) { payload_len = payload_len_field words };
      message = message ++ replicate (words * mip_payload_word - length message) 0;
    })
    else none

-- `MIPPackage_create`
unfoldable pub create : EtherFrame → MipHeader → (message : List ℕ) → Option MipPackage
unfolding create_payload
create e_frame m_header message =
    let new_package : MipPackage = record {
      e_frame = e_frame;
      m_header = record m_header { payload_len = 0 };
      message = [];
    } in
    if ltb 0 (length message) then create_payload new_package message else some new_package

-- `MIPPackage_create_from_addrs`: the message is not used.
unfoldable pub create_from_addrs :
    (src_mip : ℕ) (src_mac : BytePointer) (dst_mip : ℕ) (dst_mac : BytePointer) (message : List ℕ)
    → Option MipPackage
unfolding create create_transport create_transport_frame
create_from_addrs src_mip src_mac dst_mip dst_mac message =
    create (create_transport_frame src_mac dst_mac) (create_transport src_mip dst_mip) []

-- `MIPPackage_create_raw`
unfoldable pub create_raw :
    (src_mip : ℕ) (src_mac : BytePointer) (dst_mip : ℕ) (dst_mac : BytePointer) (message : List ℕ)
    (tra : ℕ)
    → Option MipPackage
unfolding create create_transport create_transport_frame
create_raw src_mip src_mac dst_mip dst_mac message tra =
    if ltb tra 5
    then create (create_transport_frame src_mac dst_mac)
        (record (create_transport src_mip dst_mip) { tra = tra_field tra }) message
    else none

-- `MIPPackage_create_empty`: room for the largest message.
unfoldable pub create_empty : Option MipPackage
unfolding create
create_empty =
    create
      (record { dst_addr = replicate 6 0; src_addr = replicate 6 0; eth_proto = replicate 2 0 })
      (record { tra = 0; ttl = 0; payload_len = 0; dst_addr = 0; src_addr = 0 })
      (replicate (payload_max_word_num * mip_payload_word) 0)

-- `MIPPackage_create_mip_arp_request_packet`
unfoldable pub create_mip_arp_request_packet : (src_mip : ℕ) (src_mac : List ℕ) → Option MipPackage
unfolding create create_arp_request create_arp_frame_from_mac
create_mip_arp_request_packet src_mip src_mac =
    create (create_arp_frame_from_mac src_mac) (create_arp_request src_mip) []
