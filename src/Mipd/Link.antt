-- ===== src/Mipd/Link.antt =====
-- mipd/src/lib/link.c: a MIP package as the bytes of a raw frame.
-- The struct is packed: 14 bytes of Ethernet, 4 of MIP header and 8 of the pointer `message`.
mod Fields
pub mod Transfer
pub mod Overrun
mod Tests
use network_course_uio.Prelude.{
  ℕ, ◌+◌, ◌-◌, ◌*◌, ◌/◌, ◌%◌, Option, none, some, List, [], ◌∷◌, ◌++◌, length, take, replicate, ℤ,
  pos, minus_one,
}
use network_course_uio.Prelude.Bytes.{u16, bytes16, read8, read16, slice, copy_in, copy_out}
use network_course_uio.Mipd.Packaging.EtherFrame.{EtherFrame}
use network_course_uio.Mipd.Packaging.MipHeader.{MipHeader}
use network_course_uio.Mipd.Packaging.MipPackage.{MipPackage, mip_payload_word}

abbrev pub mip_package_max_size : ℕ
mip_package_max_size = 188

abbrev pub struct_size : ℕ
struct_size = 26

-- The bytes of a `struct mip_header`, whose bit-fields fill two bytes from the lowest bit on
unfoldable pub header_bytes : MipHeader → List ℕ
header_bytes h = bytes16 (h.tra + 8 * h.ttl + 128 * h.payload_len) ++ h.dst_addr ∷ h.src_addr ∷ []

-- The bytes of a `MIPPackage`, with those of its pointer
unfoldable pub struct_bytes : (pointer : List ℕ) → MipPackage → List ℕ
struct_bytes pointer p =
    p.e_frame.dst_addr
    ++ (p.e_frame.src_addr ++ (p.e_frame.eth_proto ++ (header_bytes p.m_header ++ pointer)))

-- `sendto_raw_mip_package`: the bytes that are given to `sendto`. A read behind the message is none.
unfoldable pub sendto_raw_mip_package : (pointer : List ℕ) → MipPackage → Option (List ℕ)
sendto_raw_mip_package pointer p =
    elim (copy_out 0 (p.m_header.payload_len * mip_payload_word) p.message) [
      | none ↦ none
      | some payload ↦ some (struct_bytes pointer p ++ payload)
    ]

-- The header that is read out of the bytes at an offset
unfoldable pub parse_header : (raw_package : List ℕ) (i : ℕ) → MipHeader
parse_header raw_package i = record {
  tra = read16 raw_package i % 8;
  ttl = read16 raw_package i / 8 % 16;
  payload_len = read16 raw_package i / 128 % 512;
  dst_addr = read8 raw_package (i + 2);
  src_addr = read8 raw_package (i + 3);
}

-- The zeroed buffer after `recv` has stored what fits of a frame
unfoldable pub recv_buffer : (frame : List ℕ) → List ℕ
recv_buffer frame =
    take mip_package_max_size frame ++ replicate (mip_package_max_size - length frame) 0

-- The package that is read out of the buffer; the message goes to where the old one stands. A read
-- behind the buffer or a write behind the message is none.
unfoldable pub read_package : (raw_package : List ℕ) → (old : MipPackage) → Option MipPackage
read_package raw_package old =
    let m_header = parse_header raw_package 14 in
    elim (copy_out struct_size (u16 (m_header.payload_len * mip_payload_word)) raw_package) [
      | none ↦ none
      | some payload ↦ elim (copy_in 0 payload old.message) [
        | none ↦ none
        | some message ↦ some (record {
          e_frame = record {
            dst_addr = slice 0 6 raw_package;
            src_addr = slice 6 6 raw_package;
            eth_proto = slice 12 2 raw_package;
          };
          m_header = m_header;
          message = message;
        })
      ]
    ]

-- `recv_raw_mip_package`: the return code and the package. `received` is the frame that waits at the
-- socket, or none if `recv` fails; the zeros are read into the package all the same.
unfoldable pub recv_raw_mip_package :
    (received : Option (List ℕ)) → (old : MipPackage) → Option (ℤ × MipPackage)
recv_raw_mip_package none old = elim (read_package (recv_buffer []) old) [
  | none ↦ none
  | some p ↦ some (minus_one, p)
]
recv_raw_mip_package (some frame) old = elim (read_package (recv_buffer frame) old) [
  | none ↦ none
  | some p ↦ some (pos (length (take mip_package_max_size frame)), p)
]
