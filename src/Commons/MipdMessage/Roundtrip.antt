-- ===== src/Commons/MipdMessage/Roundtrip.antt =====
-- A message survives the way through a buffer.
use network_course_uio.Prelude.{
  ℕ, ◌+◌, ◌≤◌, ◌≡◌, some, List, [], ◌∷◌, ◌++◌, length, take, drop, take-append_left, pos, arith, ap,
  ◌∙◌, sym, length-drop,
}
use network_course_uio.Prelude.Bytes.{
  u16, bytes16, bytes16_lem, copy_out, copy_in_end, copy_out_lem, copy_whole,
}
use network_course_uio.Commons.MipdMessage.{
  MipdMessage, create, serialize, deserialize, calc_serialized_message_size, get_data,
  get_data_size, get_address,
}

-- The sizes of a message that `MIPDMessage_create` has made
pub record IsMessage (m : MipdMessage) : Type 0 where
  pub stored : length m.bytes ≡ m.data_size
  pub small : m.data_size ≤ 1496

-- The bytes that stand for a message
abbrev pub message_bytes : MipdMessage → List ℕ
message_bytes m = m.mip_address ∷ (bytes16 m.data_size ++ m.bytes)

pub serialize_lem :
    (buffer : List ℕ) (m : MipdMessage)
    → IsMessage m
    → 3 + m.data_size ≤ length buffer
    → serialize buffer m
      ≡ some
          (pos (3 + m.data_size), message_bytes m ++ drop (length m.bytes) (drop 2 (drop 1 buffer)))
unfolding serialize calc_serialized_message_size
serialize_lem buffer m valid fits =
    let size : u16 (1 + 2 + m.data_size) ≡ 3 + m.data_size = omega (arith, valid.small) in
    let address = copy_in_end [] (m.mip_address ∷ []) buffer (omega arith) in
    let data_size =
      copy_in_end (m.mip_address ∷ []) (bytes16 m.data_size) (drop 1 buffer)
        (omega (arith, length-drop 1 buffer)) in
    let source : copy_out 0 m.data_size m.bytes ≡ some m.bytes =
      ap (λ n. copy_out 0 n m.bytes) (sym valid.stored) ∙ copy_whole m.bytes in
    let copied =
      copy_in_end (m.mip_address ∷ bytes16 m.data_size) m.bytes (drop 2 (drop 1 buffer))
        (omega (arith, length-drop 1 buffer, length-drop 2 (drop 1 buffer), valid.stored)) in
    ground (arith, size, address, data_size, source, copied, valid.small)

get_data_size_lem :
    (m : MipdMessage) (rest : List ℕ)
    → IsMessage m
    → get_data_size (message_bytes m ++ rest) ≡ m.data_size
unfolding get_data_size
get_data_size_lem m rest valid = bytes16_lem m.data_size (omega (arith, valid.small))

get_data_lem :
    (m : MipdMessage) (rest : List ℕ)
    → IsMessage m
    → get_data (message_bytes m ++ rest) ≡ some m.bytes
unfolding get_data
get_data_lem m rest valid =
    rw (get_data_size_lem m rest valid, get_data)
      (ap (λ k. copy_out 3 k (message_bytes m ++ rest)) (sym valid.stored)
        ∙ copy_out_lem (m.mip_address ∷ bytes16 m.data_size) m.bytes rest)

pub create_lem :
    (m : MipdMessage) → IsMessage m → create m.mip_address m.data_size m.bytes ≡ some (some m)
unfolding create
create_lem m valid =
    let source : copy_out 0 m.data_size m.bytes ≡ some m.bytes =
      ap (λ k. copy_out 0 k m.bytes) (sym valid.stored) ∙ copy_whole m.bytes in
    ground (arith, source, valid.small)

pub deserialize_lem :
    (m : MipdMessage) (rest : List ℕ)
    → IsMessage m
    → deserialize (message_bytes m ++ rest) ≡ some (some m)
unfolding deserialize get_address
deserialize_lem m rest valid =
    rw (get_data_lem m rest valid, deserialize)
      (rw (get_data_size_lem m rest valid) (create_lem m valid))

-- A message that `MIPDMessage_create` can make, serialised into a buffer with room for it, takes
-- three bytes and its data; whatever bytes follow those, they are deserialised to the same message.
pub mipd_message_roundtrip :
    (buffer rest : List ℕ) (m : MipdMessage)
    → IsMessage m
    → 3 + m.data_size ≤ length buffer
    → (written : List ℕ) × (serialize buffer m ≡ some (pos (3 + m.data_size), written))
      × (deserialize (take (3 + m.data_size) written ++ rest) ≡ some (some m))
mipd_message_roundtrip buffer rest m valid fits =
    let left = drop (length m.bytes) (drop 2 (drop 1 buffer)) in
    let count : 3 + m.data_size ≡ length (message_bytes m) = omega (arith, valid.stored) in
    let front : take (3 + m.data_size) (message_bytes m ++ left) ≡ message_bytes m =
      ap (λ n. take n (message_bytes m ++ left)) count ∙ take-append_left (message_bytes m) left in
    (
      message_bytes m ++ left,
      serialize_lem buffer m valid fits,
      rw front (deserialize_lem m rest valid),
    )
