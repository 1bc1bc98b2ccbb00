-- ===== src/Miptpd/MiptpPackage.antt =====
-- miptpd/src/lib/miptp_package.{h,c}: the packages of the transport protocol.
pub mod Shifted
use network_course_uio.Prelude.{
  ℕ, ◌+◌, ◌-◌, ◌*◌, ◌/◌, ◌%◌, ◌^◌, Option, none, some, List, [], ◌∷◌, ◌++◌, not, leb, ◌==◌,
  if◌then◌else◌,
}
use network_course_uio.Prelude.Bytes.{u16, bytes16, read16, copy_in, copy_out}

abbrev pub max_miptp_package_size : ℕ
max_miptp_package_size = 1496

abbrev pub max_miptp_package_data_size : ℕ
max_miptp_package_data_size = 1492

-- `struct MIPTPHeader`: `pl` has 2 bits, `port` 14 and `psn` 16.
pub record MiptpHeader : Type 0 where
  pub pl : ℕ
  pub port : ℕ
  pub psn : ℕ

-- `struct MIPTPPackage`: `bytes` is its `data`.
pub record MiptpPackage : Type 0 where
  pub miptp_header : MiptpHeader
  pub bytes : List ℕ
  pub data_size : ℕ

-- `calc_pl`
unfoldable pub calc_pl : ℕ → ℕ
calc_pl data_size = if not (data_size % 4 == 0) then 4 - data_size % 4 else 0

-- `MIPTPPackage_create`, for bytes that are not the null pointer, which it refuses: the outer none is
-- a read behind the bytes, the inner one NULL.
unfoldable pub create :
    (port psn : ℕ) (bytes : List ℕ) (data_size : ℕ) → Option (Option MiptpPackage)
create port psn bytes data_size =
    if leb data_size max_miptp_package_data_size
    then elim (copy_out 0 data_size bytes) [
      | none ↦ none
      | some copied ↦ some (
          some (record {
            miptp_header = record { pl = calc_pl data_size % 4; port = port % 2 ^ 14; psn = psn };
            bytes = copied;
            data_size = data_size;
          }))
    ]
    else some none

-- `MIPTPPackage_create`, for a pointer that may be `NULL`, which is none
unfoldable pub create_from :
    (port psn : ℕ) (bytes : Option (List ℕ)) (data_size : ℕ) → Option (Option MiptpPackage)
create_from port psn none data_size = some none
create_from port psn (some bytes) data_size = create port psn bytes data_size

-- The bytes of a `struct MIPTPHeader`, whose bit-fields fill two bytes from the lowest bit on
unfoldable pub header_bytes : MiptpHeader → List ℕ
header_bytes h = bytes16 (h.pl + 4 * h.port) ++ bytes16 h.psn

-- `MIPTPPackage_create_raw`, for bytes that are not the null pointer; none is a read behind the bytes.
unfoldable pub create_raw : (pl port psn : ℕ) (bytes : List ℕ) (data_size : ℕ) → Option MiptpPackage
create_raw pl port psn bytes data_size = elim (copy_out 0 data_size bytes) [
  | none ↦ none
  | some copied ↦ some (record {
    miptp_header = record { pl = pl % 4; port = port % 2 ^ 14; psn = psn };
    bytes = copied;
    data_size = data_size;
  })
]

-- `MIPTPPackage_serialize`: the size that it returns, which is 2^16 - 1 for -1, and the buffer. None
-- is an access behind an object.
unfoldable pub serialize : (buffer : List ℕ) → MiptpPackage → Option (ℕ × List ℕ)
serialize buffer p =
    let package_size = u16 (4 + p.data_size) in
    if leb package_size max_miptp_package_size
    then elim (copy_in 0 (header_bytes p.miptp_header) buffer) [
      | none ↦ none
      | some with_header ↦ elim (copy_in 4 (bytes16 p.data_size) with_header) [
        | none ↦ none
        | some with_size ↦ elim (copy_out 0 p.data_size p.bytes) [
          | none ↦ none
          | some bytes ↦ elim (copy_in 6 bytes with_size) [
            | none ↦ none
            | some written ↦ some (package_size, written)
          ]
        ]
      ]
    ]
    else some (2 ^ 16 - 1, buffer)

-- `MIPTPPackage_serialized_get_header`
unfoldable pub get_header : List ℕ → MiptpHeader
get_header s_package = record {
  pl = read16 s_package 0 % 4;
  port = read16 s_package 0 / 4 % 2 ^ 14;
  psn = read16 s_package 2;
}

-- `MIPTPPackage_serialized_get_data`
unfoldable pub get_data : List ℕ → (data_size : ℕ) → Option (List ℕ)
get_data s_package data_size = copy_out 4 data_size s_package

-- `MIPTPPackage_deserialize`
unfoldable pub deserialize : (s_package : List ℕ) (package_size : ℕ) → Option MiptpPackage
deserialize s_package package_size =
    let data_size = u16 (package_size + 2 ^ 16 - 4) in
    elim (get_data s_package data_size) [
      | none ↦ none
      | some bytes ↦
          let header = get_header s_package in
          create_raw header.pl header.port header.psn bytes data_size
    ]
