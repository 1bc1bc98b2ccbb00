-- ===== src/Commons/ClientPackage/Roundtrip.antt =====
-- A client package survives the way through a buffer.
use network_course_uio.Prelude.{
  ℕ, ◌+◌, ◌-◌, ◌≤◌, ◌<◌, ◌≡◌, ◌^◌, some, List, [], ◌∷◌, ◌++◌, length, take, drop, take-append_left,
  arith, ap, ◌∙◌, sym, length-drop,
}
use network_course_uio.Prelude.Bytes.{
  u16, bytes16, bytes32, bytes16_lem, bytes32_lem, copy_out, copy_in_end, copy_out_lem, copy_whole,
}
use network_course_uio.Commons.ClientPackage.{
  ClientPackage, create, serialize, deserialize, calc_serialized_package_size, get_data,
  get_data_size, get_destination, get_port, get_type,
}

-- The values of a package fit the fields of the struct, and the stored bytes are as many as it says.
pub record IsPackage (p : ClientPackage) : Type 0 where
  pub stored : length p.bytes ≡ p.data_size
  pub port_fits : p.port < 2 ^ 16
  pub type_fits : p.client_type < 2 ^ 32
  pub size_fits : p.data_size < 2 ^ 16

abbrev header : ClientPackage → List ℕ
header p = bytes16 p.port ++ p.destination ∷ bytes32 p.client_type ++ bytes16 p.data_size

-- The bytes that stand for a package
abbrev pub serialized_bytes : ClientPackage → List ℕ
serialized_bytes p = header p ++ p.bytes

-- What is left of a buffer behind the header
abbrev behind : List ℕ → List ℕ
behind buffer = drop 2 (drop 4 (drop 1 (drop 2 buffer)))

length-behind : (buffer : List ℕ) → length (behind buffer) ≡ length buffer - 9
length-behind buffer = omega (
  arith,
  length-drop 2 (drop 4 (drop 1 (drop 2 buffer))),
  length-drop 4 (drop 1 (drop 2 buffer)),
  length-drop 1 (drop 2 buffer),
  length-drop 2 buffer,
)

module _ (p : ClientPackage) (valid : IsPackage p) where
  source : copy_out 0 p.data_size p.bytes ≡ some p.bytes
  source = ap (λ k. copy_out 0 k p.bytes) (sym valid.stored) ∙ copy_whole p.bytes

  pub serialize_lem :
      (buffer : List ℕ)
      → 9 + p.data_size ≤ length buffer
      → serialize buffer p
        ≡ some (u16 (16 + p.data_size), serialized_bytes p ++ drop (length p.bytes) (behind buffer))
  unfolding serialize calc_serialized_package_size
  serialize_lem buffer fits =
      let b1 = drop 2 buffer in
      let b2 = drop 1 b1 in
      let b3 = drop 4 b2 in
      let l1 = length-drop 2 buffer in
      let l2 = length-drop 1 b1 in
      let l3 = length-drop 4 b2 in
      let h1 = bytes16 p.port in
      let h2 = h1 ++ p.destination ∷ [] in
      let h3 = h2 ++ bytes32 p.client_type in
      let c1 = copy_in_end [] h1 buffer (omega arith) in
      let c2 = copy_in_end h1 (p.destination ∷ []) b1 (omega arith) in
      let c3 = copy_in_end h2 (bytes32 p.client_type) b2 (omega arith) in
      let c4 = copy_in_end h3 (bytes16 p.data_size) b3 (omega arith) in
      let c5 =
        copy_in_end (header p) p.bytes (behind buffer)
          (omega (arith, length-behind buffer, valid.stored)) in
      ground (arith, c1, c2, c3, c4, source, c5)

  get_data_size_lem : (rest : List ℕ) → get_data_size (serialized_bytes p ++ rest) ≡ p.data_size
  unfolding get_data_size
  get_data_size_lem rest = bytes16_lem p.data_size valid.size_fits

  get_data_lem : (rest : List ℕ) → get_data (serialized_bytes p ++ rest) ≡ some p.bytes
  unfolding get_data
  get_data_lem rest =
      rw (get_data_size_lem rest, get_data)
        (ap (λ k. copy_out 9 k (serialized_bytes p ++ rest)) (sym valid.stored)
          ∙ copy_out_lem (header p) p.bytes rest)

  create_lem : create p.port p.destination p.client_type p.bytes p.data_size ≡ some (some p)
  unfolding create
  create_lem = ground (arith, source, valid.size_fits)

  get_port_lem : (rest : List ℕ) → get_port (serialized_bytes p ++ rest) ≡ p.port
  unfolding get_port
  get_port_lem rest = bytes16_lem p.port valid.port_fits

  get_type_lem : (rest : List ℕ) → get_type (serialized_bytes p ++ rest) ≡ p.client_type
  unfolding get_type
  get_type_lem rest = bytes32_lem p.client_type valid.type_fits

  pub deserialize_lem : (rest : List ℕ) → deserialize (serialized_bytes p ++ rest) ≡ some (some p)
  unfolding deserialize get_destination
  deserialize_lem rest =
      rw (get_data_lem rest, deserialize)
        (rw (get_data_size_lem rest, get_port_lem rest, get_type_lem rest) create_lem)

-- A package whose values fit their fields, serialised into a buffer with room for it, takes nine
-- bytes and its data, although the size that is returned counts sixteen modulo 2^16; whatever bytes
-- follow, they are deserialised to the same package.
pub client_package_roundtrip :
    (buffer rest : List ℕ) (p : ClientPackage)
    → IsPackage p
    → 9 + p.data_size ≤ length buffer
    → (written : List ℕ) × (serialize buffer p ≡ some (u16 (16 + p.data_size), written))
      × (deserialize (take (9 + p.data_size) written ++ rest) ≡ some (some p))
client_package_roundtrip buffer rest p valid fits =
    let left = drop (length p.bytes) (behind buffer) in
    let count : 9 + p.data_size ≡ length (serialized_bytes p) = omega (arith, valid.stored) in
    let front : take (9 + p.data_size) (serialized_bytes p ++ left) ≡ serialized_bytes p =
      ap (λ n. take n (serialized_bytes p ++ left)) count
      ∙ take-append_left (serialized_bytes p) left in
    (
      serialized_bytes p ++ left,
      serialize_lem p valid buffer fits,
      rw front (deserialize_lem p valid rest),
    )
