-- ===== src/Commons/MipdMessage.antt =====
-- commons/src/mipd_message.{h,c}: the messages between the MIP daemon and an application.
-- A buffer is the list of its bytes; an access behind its end is none.
pub mod Roundtrip
use network_course_uio.Prelude.{
  ℕ, ◌+◌, Option, none, some, List, leb, if◌then◌else◌, ℤ, pos, minus_one, ◌∷◌, [],
}
use network_course_uio.Prelude.Bytes.{u16, bytes16, read8, read16, copy_in, copy_out}

abbrev pub max_mipmessage_data_size : ℕ
max_mipmessage_data_size = 1496

abbrev pub max_mipmessage_size : ℕ
max_mipmessage_size = 1500

-- `struct MIPDMessage`: `bytes` is its `data`.
pub record MipdMessage : Type 0 where
  pub mip_address : ℕ
  pub data_size : ℕ
  pub bytes : List ℕ

-- `MIPDMessage_create`: the outer none is a read behind the bytes, the inner one NULL.
unfoldable pub create : (address data_size : ℕ) → (bytes : List ℕ) → Option (Option MipdMessage)
create address data_size bytes =
    if leb data_size max_mipmessage_data_size
    then elim (copy_out 0 data_size bytes) [
      | none ↦ none
      | some copied ↦
          some (some (record { mip_address = address; data_size = data_size; bytes = copied }))
    ]
    else some none

-- `calc_serialized_message_size`
unfoldable pub calc_serialized_message_size : MipdMessage → ℕ
calc_serialized_message_size message = u16 (1 + 2 + message.data_size)

-- `MIPDMessage_serialize`, for pointers that are not null: the return code and the buffer
unfoldable pub serialize : (buffer : List ℕ) → MipdMessage → Option (ℤ × List ℕ)
serialize buffer message =
    let size = calc_serialized_message_size message in
    if leb size max_mipmessage_size
    then elim (copy_in 0 (message.mip_address ∷ []) buffer) [
      | none ↦ none
      | some with_address ↦ elim (copy_in 1 (bytes16 message.data_size) with_address) [
        | none ↦ none
        | some with_size ↦ elim (copy_out 0 message.data_size message.bytes) [
          | none ↦ none
          | some bytes ↦ elim (copy_in 3 bytes with_size) [
            | none ↦ none
            | some written ↦ some (pos size, written)
          ]
        ]
      ]
    ]
    else some (minus_one, buffer)

-- `MIPDMessage_serialized_get_address`
unfoldable pub get_address : List ℕ → ℕ
get_address s_message = read8 s_message 0

-- `MIPDMessage_serialized_get_data_size`
unfoldable pub get_data_size : List ℕ → ℕ
get_data_size s_message = read16 s_message 1

-- `MIPDMessage_serialized_get_data`
unfoldable pub get_data : List ℕ → Option (List ℕ)
get_data s_message = copy_out 3 (get_data_size s_message) s_message

-- `MIPDMessage_deserialize`: the outer none is a read behind the buffer, the inner one NULL.
unfoldable pub deserialize : (serialized_message : List ℕ) → Option (Option MipdMessage)
deserialize serialized_message = elim (get_data serialized_message) [
  | none ↦ none
  | some bytes ↦ create (get_address serialized_message) (get_data_size serialized_message) bytes
]
