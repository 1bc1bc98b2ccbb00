-- ===== src/Miptpd/MiptpPackage/Shifted.antt =====
-- What arrives of a transport package: its data is shifted by the two bytes of its size.
use network_course_uio.Prelude.{
  ℕ, ◌+◌, ◌-◌, ◌*◌, ◌/◌, ◌%◌, ◌^◌, ◌≤◌, ◌<◌, ◌≡◌, refl, ◌∙◌, ap, sym, none, some, List, [], ◌++◌,
  length, take, drop, arith, append-nil, length-drop, length-take, take-append_beyond,
  take-append_within,
}
use network_course_uio.Prelude.Bytes.{
  u16, bytes16, bytes16_lem, copy_out, copy_in_end, copy_out_lem, copy_in_outside, copy_whole,
}
use network_course_uio.Miptpd.MiptpPackage.{
  MiptpPackage, MiptpHeader, header_bytes, create_raw, serialize, deserialize, get_header, get_data,
}

-- The values of a package fit the fields of its structs, and its data is as long as it says.
pub record IsMiptp (p : MiptpPackage) : Type 0 where
  pub pl : p.miptp_header.pl < 4
  pub port : p.miptp_header.port < 2 ^ 14
  pub psn : p.miptp_header.psn < 2 ^ 16
  pub stored : length p.bytes ≡ p.data_size

copy_tail :
    (h : MiptpHeader) (bytes : List ℕ)
    → copy_out 4 (length bytes) (header_bytes h ++ bytes) ≡ some bytes
unfolding header_bytes
copy_tail h bytes =
    ap (λ b. copy_out 4 (length bytes) (header_bytes h ++ b)) (sym (append-nil bytes))
    ∙ copy_out_lem (header_bytes h) bytes []

module _ (p : MiptpPackage) (ok : IsMiptp p) where
  -- The bytes behind the header
  body : List ℕ
  body = bytes16 p.data_size ++ p.bytes

  source : copy_out 0 p.data_size p.bytes ≡ some p.bytes
  source = ap (λ k. copy_out 0 k p.bytes) (sym ok.stored) ∙ copy_whole p.bytes

  pub serialize_lem :
      (buffer : List ℕ)
      → p.data_size ≤ 1490
      → length buffer ≡ 1496
      → serialize buffer p
        ≡ some (
          4 + p.data_size,
          header_bytes p.miptp_header
              ++ (bytes16 p.data_size ++ p.bytes ++ drop (length p.bytes) (drop 2 (drop 4 buffer))),
        )
  unfolding serialize header_bytes
  serialize_lem buffer small room =
      let h = header_bytes p.miptp_header in
      let size : u16 (4 + p.data_size) ≡ 4 + p.data_size = omega arith in
      let c1 = copy_in_end [] h buffer (omega (arith, room)) in
      let c2 =
        copy_in_end h (bytes16 p.data_size) (drop 4 buffer)
          (omega (arith, room, length-drop 4 buffer)) in
      let c3 =
        copy_in_end (h ++ bytes16 p.data_size) p.bytes (drop 2 (drop 4 buffer))
          (omega (arith, room, length-drop 4 buffer, length-drop 2 (drop 4 buffer), ok.stored)) in
      ground (arith, size, c1, c2, source, c3)

  get_header_lem :
      (rest : List ℕ) → get_header (header_bytes p.miptp_header ++ rest) ≡ p.miptp_header
  unfolding get_header header_bytes
  get_header_lem rest =
      let h = p.miptp_header in
      let v = h.pl + 4 * h.port in
      let word : v % 256 + 256 * (v / 256 % 256) ≡ v =
        bytes16_lem v (omega (arith, ok.pl, ok.port)) in
      let pl : v % 4 ≡ h.pl = omega (arith, ok.pl) in
      let port : v / 4 % 2 ^ 14 ≡ h.port = omega (arith, ok.pl, ok.port) in
      rw (word, bytes16_lem h.psn ok.psn) (rw (pl, port) refl)

  pub deserialize_lem :
      (shifted : List ℕ)
      → length shifted ≡ p.data_size
      → p.data_size ≤ 1490
      → deserialize (header_bytes p.miptp_header ++ shifted) (4 + p.data_size)
        ≡ some (record p { bytes = shifted })
  unfolding deserialize get_data create_raw
  deserialize_lem shifted size small =
      let all = header_bytes p.miptp_header ++ shifted in
      let count : u16 (4 + p.data_size + 2 ^ 16 - 4) ≡ p.data_size = omega arith in
      let out : copy_out 4 p.data_size all ≡ some shifted =
        ap (λ k. copy_out 4 k all) (sym size) ∙ copy_tail p.miptp_header shifted in
      let copied : copy_out 0 p.data_size shifted ≡ some shifted =
        ap (λ k. copy_out 0 k shifted) (sym size) ∙ copy_whole shifted in
      let header = get_header_lem shifted in
      let pl : p.miptp_header.pl % 4 ≡ p.miptp_header.pl = omega (arith, ok.pl) in
      let port : p.miptp_header.port % 2 ^ 14 ≡ p.miptp_header.port = omega (arith, ok.port) in
      rw (count, deserialize)
        (rw (out, deserialize) (rw (count, header) (rw (copied, create_raw) (rw (pl, port) refl))))

  pub front_lem :
      (left : List ℕ)
      → take
          (4 + p.data_size)
          (header_bytes p.miptp_header ++ (bytes16 p.data_size ++ p.bytes ++ left))
        ≡ header_bytes p.miptp_header ++ take p.data_size (bytes16 p.data_size ++ p.bytes)
  unfolding header_bytes
  front_lem left =
      take-append_beyond p.data_size (header_bytes p.miptp_header)
        (bytes16 p.data_size ++ p.bytes ++ left)
      ∙ ap (λ l. header_bytes p.miptp_header ++ l)
          (take-append_within p.data_size (bytes16 p.data_size ++ p.bytes) left
            (omega (arith, ok.stored)))

-- A package of 1490 bytes of data at most, serialised into the buffer of 1496 bytes and read by its
-- receiver, keeps its header and the number of its bytes; but the bytes are those of its size and
-- then its data without the last two.
pub package_shifted :
    (buffer : List ℕ) (p : MiptpPackage)
    → IsMiptp p
    → p.data_size ≤ 1490
    → length buffer ≡ 1496
    → (written : List ℕ) × (serialize buffer p ≡ some (4 + p.data_size, written))
      × (deserialize (take (4 + p.data_size) written) (4 + p.data_size)
          ≡ some (record p { bytes = take p.data_size (bytes16 p.data_size ++ p.bytes) }))
package_shifted buffer p ok small room =
    let n = p.data_size in
    let left = drop (length p.bytes) (drop 2 (drop 4 buffer)) in
    let front = front_lem p ok left in
    let shifted = take n (bytes16 n ++ p.bytes) in
    let size : length shifted ≡ n =
      omega (arith, length-take n (bytes16 n ++ p.bytes), ok.stored) in
    (
      header_bytes p.miptp_header ++ (bytes16 n ++ p.bytes ++ left),
      serialize_lem p ok buffer small room,
      rw front (deserialize_lem p ok shifted size small),
    )

-- A package of more data, 1492 bytes at most, is written behind the buffer.
pub package_overrun :
    (buffer : List ℕ) (p : MiptpPackage)
    → IsMiptp p
    → 1490 < p.data_size
    → p.data_size ≤ 1492
    → length buffer ≡ 1496
    → serialize buffer p ≡ none
unfolding serialize header_bytes
package_overrun buffer p ok large small room =
    let h = header_bytes p.miptp_header in
    let size : u16 (4 + p.data_size) ≡ 4 + p.data_size = omega arith in
    let c1 = copy_in_end [] h buffer (omega (arith, room)) in
    let c2 =
      copy_in_end h (bytes16 p.data_size) (drop 4 buffer)
        (omega (arith, room, length-drop 4 buffer)) in
    let c3 =
      copy_in_outside 6 p.bytes (h ++ (bytes16 p.data_size ++ drop 2 (drop 4 buffer)))
        (omega (arith, room, length-drop 4 buffer, length-drop 2 (drop 4 buffer), ok.stored)) in
    ground (arith, size, c1, c2, source p ok, c3)
