-- ===== src/Mipd/Link/Fields.antt =====
-- The parts of a frame, read back out of its bytes.
use network_course_uio.Prelude.{
  ℕ, suc, ◌+◌, ◌*◌, ◌/◌, ◌%◌, ◌<◌, ◌≡◌, refl, List, [], ◌∷◌, ◌++◌, length, arith, ap, get_or, false,
  drop-append_left, take-append_left, leb,
}
use network_course_uio.Prelude.Bytes.{bytes16_lem, slice}
use network_course_uio.Mipd.Packaging.MipHeader.{MipHeader}
use network_course_uio.Mipd.Link.{header_bytes, parse_header}

get_or-append :
    (front bytes : List ℕ) (i : ℕ) → get_or (front ++ bytes) (length front + i) 0 ≡ get_or bytes i 0
get_or-append [] bytes i = ap (λ k. get_or bytes k 0) (omega arith)
get_or-append (x ∷ front) bytes i =
    let step : suc (length front) + i ≡ suc (length front + i) = omega arith in
    rw step (get_or-append front bytes i)

get_or-at :
    (front bytes : List ℕ) (i k : ℕ)
    → k ≡ length front + i
    → get_or (front ++ bytes) k 0 ≡ get_or bytes i 0
get_or-at front bytes i k at = rw at (get_or-append front bytes i)

pub slice_lem :
    (i n : ℕ) (front bytes rest : List ℕ)
    → length front ≡ i
    → length bytes ≡ n
    → slice i n (front ++ (bytes ++ rest)) ≡ bytes
slice_lem i n front bytes rest hi hn =
    rw (← hi, ← hn) (rw (drop-append_left front (bytes ++ rest)) (take-append_left bytes rest))

-- The fields come out of the two bytes as they went in.
pub fields :
    (h : MipHeader) (front rest : List ℕ)
    → h.tra < 8
    → h.ttl < 16
    → h.payload_len < 512
    → length front ≡ 14
    → parse_header (front ++ (header_bytes h ++ rest)) 14 ≡ h
unfolding parse_header header_bytes
fields h front rest tra ttl len size =
    let v = h.tra + 8 * h.ttl + 128 * h.payload_len in
    let bytes = header_bytes h ++ rest in
    let at0 = get_or-at front bytes 0 14 (omega (arith, size)) in
    let at1 = get_or-at front bytes 1 15 (omega (arith, size)) in
    let at2 = get_or-at front bytes 2 16 (omega (arith, size)) in
    let at3 = get_or-at front bytes 3 17 (omega (arith, size)) in
    let word : v % 256 + 256 * (v / 256 % 256) ≡ v = bytes16_lem v (omega arith) in
    let tra' : v % 8 ≡ h.tra = omega arith in
    let ttl' : v / 8 % 16 ≡ h.ttl = omega arith in
    let len' : v / 128 % 512 ≡ h.payload_len = omega arith in
    rw (at0, at1, at2, at3) (rw word (rw (tra', ttl', len') refl))

pub leb-false : (a b : ℕ) → leb a b ≡ false → b < a
leb-false a b h = ground arith
