-- ===== src/Commons/ClientPackage.antt =====
-- commons/src/client_package.{h,c}: the packages between the transport daemon and an application.
-- A buffer is the list of its bytes; an access behind its end is none.
pub mod Roundtrip
use network_course_uio.Prelude.{ℕ, ◌+◌, ◌-◌, Option, none, some, List, leb, if◌then◌else◌, ◌∷◌, []}
use network_course_uio.Prelude.Bytes.{
  u16, bytes16, bytes32, read8, read16, read32, copy_in, copy_out,
}

abbrev pub max_data_size_bytes : ℕ
max_data_size_bytes = 65535

abbrev pub miptp_sender : ℕ
miptp_sender = 1

abbrev pub miptp_receiver : ℕ
miptp_receiver = 2

-- `struct ClientPackage`: `bytes` is its `data`, and `client_type` the value of its `type`.
pub record ClientPackage : Type 0 where
  pub port : ℕ
  pub destination : ℕ
  pub client_type : ℕ
  pub data_size : ℕ
  pub bytes : List ℕ

-- `calc_serialized_package_size`: the struct has 24 bytes, 8 of which are its pointer.
unfoldable pub calc_serialized_package_size : ClientPackage → ℕ
calc_serialized_package_size p = u16 (24 - 8 + p.data_size)

-- `ClientPackage_create`: the outer none is a read behind the bytes, the inner one NULL.
unfoldable pub create :
    (port destination client_type : ℕ) (bytes : List ℕ) (data_size : ℕ)
    → Option (Option ClientPackage)
create port destination client_type bytes data_size =
    if leb data_size max_data_size_bytes
    then elim (copy_out 0 data_size bytes) [
      | none ↦ none
      | some copied ↦ some (
          some (record {
            port = port;
            destination = destination;
            client_type = client_type;
            data_size = data_size;
            bytes = copied;
          }))
    ]
    else some none

-- `ClientPackage_serialize`: the size that it returns, and the buffer
unfoldable pub serialize : (buffer : List ℕ) → ClientPackage → Option (ℕ × List ℕ)
serialize buffer p = elim (copy_in 0 (bytes16 p.port) buffer) [
  | none ↦ none
  | some with_port ↦ elim (copy_in 2 (p.destination ∷ []) with_port) [
    | none ↦ none
    | some with_destination ↦ elim (copy_in 3 (bytes32 p.client_type) with_destination) [
      | none ↦ none
      | some with_type ↦ elim (copy_in 7 (bytes16 p.data_size) with_type) [
        | none ↦ none
        | some with_size ↦ elim (copy_out 0 p.data_size p.bytes) [
          | none ↦ none
          | some bytes ↦ elim (copy_in 9 bytes with_size) [
            | none ↦ none
            | some written ↦ some (calc_serialized_package_size p, written)
          ]
        ]
      ]
    ]
  ]
]

-- `ClientPackage_serialized_get_port`
unfoldable pub get_port : List ℕ → ℕ
get_port s_package = read16 s_package 0

-- `ClientPackage_serialized_get_destination`
unfoldable pub get_destination : List ℕ → ℕ
get_destination s_package = read8 s_package 2

-- `ClientPackage_serialized_get_type`
unfoldable pub get_type : List ℕ → ℕ
get_type s_package = read32 s_package 3

-- `ClientPackage_serialized_get_data_size`
unfoldable pub get_data_size : List ℕ → ℕ
get_data_size s_package = read16 s_package 7

-- `ClientPackage_serialized_get_data`
unfoldable pub get_data : List ℕ → Option (List ℕ)
get_data s_package = copy_out 9 (get_data_size s_package) s_package

-- `ClientPackage_deserialize`: the outer none is a read behind the buffer, the inner one NULL.
unfoldable pub deserialize : (serialized_package : List ℕ) → Option (Option ClientPackage)
deserialize serialized_package = elim (get_data serialized_package) [
  | none ↦ none
  | some bytes ↦
      create (get_port serialized_package) (get_destination serialized_package)
        (get_type serialized_package) bytes (get_data_size serialized_package)
]
