-- ===== src/Prelude/Bytes.antt =====
-- Unsigned words of 8, 16 and 32 bits, and their little-endian bytes in memory.
use network_course_uio.Prelude.Lists.{take, drop, get_or, length, length-append}
use network_course_uio.Prelude.Tests.{leb, le→leb, if◌then◌else◌}
use Prim.Native.Nat.{ℕ, suc, ◌≤◌, ◌+◌, ◌-◌, ◌*◌, ◌/◌, ◌%◌, ◌^◌, ◌<◌}
use mathlib.Core.Path.{◌≡◌, refl, ap, sym, ◌∙◌}
use mathlib.Core.List.{List, [], ◌∷◌, ◌++◌, append-nil}
use mathlib.Core.Option.{Option, none, some}
use native.Mathlib.Omega.{arith}

-- The value that a `uint8_t`, `uint16_t` or `uint32_t` holds after an assignment of `n`.
abbrev pub u8 : ℕ → ℕ
u8 n = n % 2 ^ 8

abbrev pub u16 : ℕ → ℕ
u16 n = n % 2 ^ 16

abbrev pub u32 : ℕ → ℕ
u32 n = n % 2 ^ 32

abbrev pub uint_max : ℕ
uint_max = 2 ^ 32 - 1

-- The bytes that `memcpy` moves out of a two-byte or four-byte object.
abbrev pub bytes16 : ℕ → List ℕ
bytes16 n = n % 256 ∷ n / 256 % 256 ∷ []

abbrev pub bytes32 : ℕ → List ℕ
bytes32 n = n % 256 ∷ n / 256 % 256 ∷ n / 65536 % 256 ∷ n / 16777216 % 256 ∷ []

-- The object that `memcpy` fills from the bytes at an offset.
abbrev pub read8 : List ℕ → ℕ → ℕ
read8 b i = get_or b i 0

abbrev pub read16 : List ℕ → ℕ → ℕ
read16 b i = get_or b i 0 + 256 * get_or b (i + 1) 0

abbrev pub read32 : List ℕ → ℕ → ℕ
read32 b i =
    get_or b i 0
    + 256 * get_or b (i + 1) 0
    + 65536 * get_or b (i + 2) 0
    + 16777216 * get_or b (i + 3) 0

-- `memcpy(dst, src + i, n)`.
abbrev pub slice : ℕ → ℕ → List ℕ → List ℕ
slice i n b = take n (drop i b)

pub bytes16_lem : (n : ℕ) → n < 2 ^ 16 → n % 256 + 256 * (n / 256 % 256) ≡ n
bytes16_lem n h = omega arith

pub bytes32_lem :
    (n : ℕ)
    → n < 2 ^ 32
    → n % 256 + 256 * (n / 256 % 256) + 65536 * (n / 65536 % 256) + 16777216 * (n / 16777216 % 256)
      ≡ n
bytes32_lem n h = omega arith

-- `memcpy` of `n` bytes out of an object from offset `i` on; none is a read behind it.
unfoldable pub copy_out : (i n : ℕ) → List ℕ → Option (List ℕ)
copy_out i n object = if leb (i + n) (length object) then some (slice i n object) else none

-- `memcpy` of bytes into an object from offset `i` on; none is a write behind it.
unfoldable pub copy_in : (i : ℕ) → (bytes object : List ℕ) → Option (List ℕ)
copy_in i bytes object =
    if leb (i + length bytes) (length object)
    then some (take i object ++ (bytes ++ drop (i + length bytes) object))
    else none

pub drop-append :
    (front bytes : List ℕ) (n : ℕ) → drop (length front + n) (front ++ bytes) ≡ drop n bytes
drop-append [] bytes n = ap (λ k. drop k bytes) (omega arith)
drop-append (x ∷ front) bytes n =
    let step : suc (length front) + n ≡ suc (length front + n) = omega arith in
    rw step (drop-append front bytes n)

pub take-append : (front bytes : List ℕ) → take (length front) (front ++ bytes) ≡ front
take-append [] bytes = refl
take-append (x ∷ front) bytes = ap (λ l. x ∷ l) (take-append front bytes)

-- A copy to the end of what has been written already
pub copy_in_end :
    (front bytes object : List ℕ)
    → length bytes ≤ length object
    → copy_in (length front) bytes (front ++ object)
      ≡ some (front ++ (bytes ++ drop (length bytes) object))
unfolding copy_in
copy_in_end front bytes object fits = ground (
  arith,
  length-append front object,
  take-append front object,
  drop-append front object (length bytes),
)

-- A copy out of the part that stands behind the front
pub copy_out_lem :
    (front bytes rest : List ℕ)
    → copy_out (length front) (length bytes) (front ++ (bytes ++ rest)) ≡ some bytes
unfolding copy_out
copy_out_lem front bytes rest = ground (
  arith,
  length-append front (bytes ++ rest),
  length-append bytes rest,
  drop-append front (bytes ++ rest) 0,
  take-append bytes rest,
)

-- A copy of all bytes of an object
pub copy_whole : (bytes : List ℕ) → copy_out 0 (length bytes) bytes ≡ some bytes
copy_whole bytes =
    ap (λ b. copy_out 0 (length bytes) b) (sym (append-nil bytes)) ∙ copy_out_lem [] bytes []

pub copy_out_inside :
    (i n : ℕ) (object : List ℕ)
    → i + n ≤ length object
    → copy_out i n object ≡ some (slice i n object)
unfolding copy_out
copy_out_inside i n object inside = rw (le→leb (i + n) (length object) inside) refl

pub copy_out_outside :
    (i n : ℕ) (object : List ℕ) → length object < i + n → copy_out i n object ≡ none
unfolding copy_out
copy_out_outside i n object outside = ground arith

pub copy_in_outside :
    (i : ℕ) (bytes object : List ℕ)
    → length object < i + length bytes
    → copy_in i bytes object ≡ none
unfolding copy_in
copy_in_outside i bytes object outside = ground arith
