-- ===== src/Mipd/Link/Transfer.antt =====
-- What arrives of a package that one daemon sends and another receives.
use network_course_uio.Prelude.{
  take_all, take-append_beyond, ℕ, ◌+◌, ◌-◌, ◌*◌, ◌≤◌, ◌<◌, ◌≡◌, refl, none, some, List, [], ◌++◌,
  length, take, drop, replicate, pos, arith, ap, sym, ◌∙◌, length-append, length-take,
  length-replicate, append_assoc, leb→le, Bool-cases, inl, inr, drop-append_left, take-append_left,
  leb, if◌then◌else◌,
}
use network_course_uio.Prelude.Bytes.{
  u16, slice, copy_out, copy_out_inside, copy_out_outside, copy_in_end, copy_whole,
}
use network_course_uio.Mipd.Packaging.MipPackage.{MipPackage}
use network_course_uio.Mipd.Link.{
  header_bytes, struct_bytes, sendto_raw_mip_package, parse_header, recv_buffer, read_package,
  recv_raw_mip_package,
}
use network_course_uio.Mipd.Link.Fields.{slice_lem, fields, leb-false}

-- The sizes of the parts of a package, and the ranges of its bit-fields
pub record IsSendable (p : MipPackage) : Type 0 where
  pub dst : length p.e_frame.dst_addr ≡ 6
  pub src : length p.e_frame.src_addr ≡ 6
  pub proto : length p.e_frame.eth_proto ≡ 2
  pub tra : p.m_header.tra < 8
  pub ttl : p.m_header.ttl < 16
  pub payload_len : p.m_header.payload_len < 512
  pub whole : length p.message ≡ 4 * p.m_header.payload_len

module _ (pointer : List ℕ) (p : MipPackage) (eight : length pointer ≡ 8) (ok : IsSendable p) where
  length-struct : length (struct_bytes pointer p) ≡ 26
  unfolding struct_bytes header_bytes
  length-struct = omega (
    arith,
    length-append p.e_frame.dst_addr
        (p.e_frame.src_addr ++ (p.e_frame.eth_proto ++ (header_bytes p.m_header ++ pointer))),
    length-append p.e_frame.src_addr (p.e_frame.eth_proto ++ (header_bytes p.m_header ++ pointer)),
    length-append p.e_frame.eth_proto (header_bytes p.m_header ++ pointer),
    ok.dst,
    ok.src,
    ok.proto,
    eight,
  )

  -- The struct with what follows it, the parts nested to the right
  laid_out :
      (tail : List ℕ)
      → struct_bytes pointer p ++ tail
        ≡ p.e_frame.dst_addr
          ++ (p.e_frame.src_addr
              ++ (p.e_frame.eth_proto ++ (header_bytes p.m_header ++ (pointer ++ tail))))
  unfolding struct_bytes
  laid_out tail = simp (append_assoc) refl

  twelve : length (p.e_frame.dst_addr ++ p.e_frame.src_addr) ≡ 12
  twelve = omega (arith, length-append p.e_frame.dst_addr p.e_frame.src_addr, ok.dst, ok.src)

  read_dst : (tail : List ℕ) → slice 0 6 (struct_bytes pointer p ++ tail) ≡ p.e_frame.dst_addr
  read_dst tail = rw (laid_out tail) (slice_lem 0 6 [] p.e_frame.dst_addr _ refl ok.dst)

  read_src : (tail : List ℕ) → slice 6 6 (struct_bytes pointer p ++ tail) ≡ p.e_frame.src_addr
  read_src tail =
      rw (laid_out tail) (slice_lem 6 6 p.e_frame.dst_addr p.e_frame.src_addr _ ok.dst ok.src)

  read_proto : (tail : List ℕ) → slice 12 2 (struct_bytes pointer p ++ tail) ≡ p.e_frame.eth_proto
  read_proto tail =
      rw
        (
          laid_out tail,
          ← append_assoc p.e_frame.dst_addr p.e_frame.src_addr
              (p.e_frame.eth_proto ++ (header_bytes p.m_header ++ (pointer ++ tail))),
        )
        (slice_lem 12 2 (p.e_frame.dst_addr ++ p.e_frame.src_addr) p.e_frame.eth_proto _ twelve
          ok.proto)

  read_header : (tail : List ℕ) → parse_header (struct_bytes pointer p ++ tail) 14 ≡ p.m_header
  read_header tail =
      let front = p.e_frame.dst_addr ++ p.e_frame.src_addr ++ p.e_frame.eth_proto in
      let size : length front ≡ 14 = omega (
        arith,
        length-append (p.e_frame.dst_addr ++ p.e_frame.src_addr) p.e_frame.eth_proto,
        twelve,
        ok.proto,
      ) in
      let nested : struct_bytes pointer p ++ tail
          ≡ front ++ (header_bytes p.m_header ++ (pointer ++ tail)) =
        laid_out tail ∙ simp (append_assoc) refl in
      rw nested (fields p.m_header front (pointer ++ tail) ok.tra ok.ttl ok.payload_len size)

  -- What the buffer holds behind the struct
  left_behind : List ℕ → List ℕ
  left_behind payload = take 162 payload ++ replicate (162 - length payload) 0

  buffer_lem :
      (payload : List ℕ)
      → recv_buffer (struct_bytes pointer p ++ payload)
        ≡ struct_bytes pointer p ++ left_behind payload
  unfolding recv_buffer left_behind
  buffer_lem payload =
      let all = struct_bytes pointer p in
      let at : 188 ≡ length all + 162 = omega (arith, length-struct) in
      let kept : take 188 (all ++ payload) ≡ all ++ take 162 payload =
        ap (λ n. take n (all ++ payload)) at ∙ take-append_beyond 162 all payload in
      let zeros : 188 - length (all ++ payload) ≡ 162 - length payload =
        omega (arith, length-append all payload, length-struct) in
      rw (kept, zeros) (append_assoc all (take 162 payload) (replicate (162 - length payload) 0))

  copied :
      (payload : List ℕ)
      → length payload ≡ 4 * p.m_header.payload_len
      → copy_out 26
          (u16 (p.m_header.payload_len * 4))
          (struct_bytes pointer p ++ left_behind payload)
        ≡ (if leb p.m_header.payload_len 40 then some payload else none)
  unfolding left_behind
  copied payload size =
      let all = struct_bytes pointer p in
      let rest = left_behind payload in
      let count : u16 (p.m_header.payload_len * 4) ≡ length payload =
        omega (arith, size, ok.payload_len) in
      let whole : length (all ++ rest) ≡ 188 = omega (
        arith,
        length-append all rest,
        length-struct,
        length-append (take 162 payload) (replicate (162 - length payload) 0),
        length-take 162 payload,
        length-replicate {A = ℕ} (162 - length payload) 0,
      ) in
      let behind : drop 26 (all ++ rest) ≡ rest =
        ap (λ n. drop n (all ++ rest)) (sym length-struct) ∙ drop-append_left all rest in
      elim (Bool-cases (leb p.m_header.payload_len 40)) [
        | inl small ↦
            let fits : length payload ≤ 162 = omega (arith, size, leb→le _ _ small) in
            let all_taken : take (length payload) rest ≡ payload =
              rw (take_all 162 payload fits) (take-append_left payload _) in
            let inside : 26 + length payload ≤ length (all ++ rest) = omega (arith, whole, fits) in
            rw (count, small)
              (copy_out_inside 26 (length payload) (all ++ rest) inside
                ∙ ap (λ b. some (take (length payload) b)) behind
                ∙ ap some all_taken)
        | inr large ↦
            let words : 40 < p.m_header.payload_len = leb-false _ _ large in
            rw (count, large)
              (copy_out_outside 26 (length payload) (all ++ rest)
                (omega (arith, whole, size, words)))
      ]

  -- The package that is read: the message stands at the front of the old one.
  arrived : (old : MipPackage) → MipPackage
  arrived old = record p { message = p.message ++ drop (length p.message) old.message }

  read_lem :
      (old : MipPackage)
      → length old.message ≡ 1496
      → read_package (struct_bytes pointer p ++ left_behind p.message) old
        ≡ (if leb p.m_header.payload_len 40 then some (arrived old) else none)
  unfolding read_package arrived
  read_lem old room =
      let tail = left_behind p.message in
      let raw = struct_bytes pointer p ++ tail in
      let out : copy_out 26 (u16 ((parse_header raw 14).payload_len * 4)) raw
          ≡ (if leb p.m_header.payload_len 40 then some p.message else none) =
        rw (read_header tail) (copied p.message ok.whole) in
      elim (Bool-cases (leb p.m_header.payload_len 40)) [
        | inl small ↦
            let in_place =
              copy_in_end [] p.message old.message
                (omega (arith, room, ok.whole, leb→le _ _ small)) in
            let got = rw small at out in
            rw small (
              rw (got, read_package)
                (rw (in_place, read_package)
                  (rw (read_header tail, read_dst tail, read_src tail, read_proto tail) refl)))
        | inr large ↦ let missed = rw large at out in rw large (rw (missed, read_package) refl)
      ]

  sent : sendto_raw_mip_package pointer p ≡ some (struct_bytes pointer p ++ p.message)
  unfolding sendto_raw_mip_package
  sent =
      let count : p.m_header.payload_len * 4 ≡ length p.message = omega (arith, ok.whole) in
      let payload : copy_out 0 (p.m_header.payload_len * 4) p.message ≡ some p.message =
        ap (λ n. copy_out 0 n p.message) count ∙ copy_whole p.message in
      rw (payload, sendto_raw_mip_package) refl

  -- A package that is sent is read by the receiver as it was, its message at the front of the old
  -- one, if it has 40 words at most; a larger one is read behind the receiver's buffer of 188 bytes.
  pub recv-sendto :
      (old : MipPackage)
      → length old.message ≡ 1496
      → (frame : List ℕ) × (sendto_raw_mip_package pointer p ≡ some frame)
        × (recv_raw_mip_package (some frame) old ≡ (
            if leb p.m_header.payload_len 40
            then some (
              pos (26 + 4 * p.m_header.payload_len),
              record p { message = p.message ++ drop (length p.message) old.message },
            )
            else none))
  unfolding recv_raw_mip_package arrived
  recv-sendto old room =
      let frame = struct_bytes pointer p ++ p.message in
      let size : length frame ≡ 26 + 4 * p.m_header.payload_len =
        omega (arith, length-append (struct_bytes pointer p) p.message, length-struct, ok.whole) in
      let read : read_package (recv_buffer frame) old
          ≡ (if leb p.m_header.payload_len 40 then some (arrived old) else none) =
        rw (buffer_lem p.message) (read_lem old room) in
      (
        frame,
        sent,
        elim (Bool-cases (leb p.m_header.payload_len 40)) [
          | inl small ↦
              let whole : take 188 frame ≡ frame =
                take_all 188 frame (omega (arith, size, leb→le _ _ small)) in
              let got = rw small at read in
              rw small (rw (got, recv_raw_mip_package) (rw (whole, size) refl))
          | inr large ↦
              let missed = rw large at read in rw large (rw (missed, recv_raw_mip_package) refl)
        ],
      )
