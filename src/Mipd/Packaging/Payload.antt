-- ===== src/Mipd/Packaging/Payload.antt =====
-- The rules of the MIP protocol for a payload: whole words, and 1500 bytes with the header.
use network_course_uio.Prelude.{
  ℕ, ◌+◌, ◌-◌, ◌*◌, ◌≤◌, ◌<◌, ◌≡◌, none, some, List, [], ◌∷◌, ◌++◌, length, replicate, take,
  length-append, length-replicate, take-append_left, arith, ap, refl, ◌∙◌,
}
use network_course_uio.Mipd.Packaging.MipHeader.{MipHeader}
use network_course_uio.Mipd.Packaging.EtherFrame.{EtherFrame}
use network_course_uio.Mipd.Packaging.MipPackage.{
  MipPackage, calculate_mip_payload_words, create_payload, create,
}

-- The words of a message hold it, and no word fewer would.
pub words_bounds :
    (n : ℕ) → (n ≤ calculate_mip_payload_words n * 4) × (calculate_mip_payload_words n * 4 < n + 4)
unfolding calculate_mip_payload_words
words_bounds n = ground arith

-- The package that is made of a message of 1496 bytes at most.
abbrev pub package_of : EtherFrame → MipHeader → List ℕ → MipPackage
package_of f h message = record {
  e_frame = f;
  m_header = record h { payload_len = calculate_mip_payload_words (length message) };
  message =
      message ++ replicate (calculate_mip_payload_words (length message) * 4 - length message) 0;
}

-- `MIPPackage_create` refuses every message of more than 1496 bytes.
pub create_large :
    (f : EtherFrame) (h : MipHeader) (message : List ℕ)
    → 1496 < length message
    → create f h message ≡ none
unfolding create create_payload
create_large f h message large = ground (arith, words_bounds (length message))

pub create_small :
    (f : EtherFrame) (h : MipHeader) (message : List ℕ)
    → length message ≤ 1496
    → create f h message ≡ some (package_of f h message)
unfolding create create_payload
create_small f h [] small = unfold calculate_mip_payload_words in refl
create_small f h (x ∷ xs) small = ground (arith, words_bounds (length (x ∷ xs)))

-- What a package of a message holds: the message filled up with fewer than four zeros to whole
-- words, their number in the header, 1500 bytes at most with the header of four bytes, and the frame
-- and the rest of the header as they were given.
pub record IsPackageOf (f : EtherFrame) (h : MipHeader) (message : List ℕ) (p : MipPackage)
    : Type 0 where
  pub framed : p.e_frame ≡ f
  pub headed : p.m_header ≡ record h { payload_len = p.m_header.payload_len }
  pub whole_words : length p.message ≡ 4 * p.m_header.payload_len
  pub fits : 4 + length p.message ≤ 1500
  pub starts : take (length message) p.message ≡ message
  pub padded : length p.message < length message + 4

pub package_of-IsPackageOf :
    (f : EtherFrame) (h : MipHeader) (message : List ℕ)
    → length message ≤ 1496
    → IsPackageOf f h message (package_of f h message)
package_of-IsPackageOf f h message small = record {
  framed = refl;
  headed = refl;
  whole_words = omega (arith, size, words_bounds (length message));
  fits = omega (arith, size, words_bounds (length message));
  starts = take-append_left message _;
  padded = omega (arith, size, words_bounds (length message));
}
  where
    rest : ℕ
    rest = calculate_mip_payload_words (length message) * 4 - length message

    size : length (message ++ replicate rest 0) ≡ length message + rest
    size =
        length-append message (replicate rest 0)
        ∙ ap (λ n. length message + n) (length-replicate rest 0)

-- `MIPPackage_create` makes a package of every message of 1496 bytes at most, which holds the
-- message in whole words as the MIP protocol asks.
pub create-IsPackageOf :
    (f : EtherFrame) (h : MipHeader) (message : List ℕ)
    → length message ≤ 1496
    → (p : MipPackage) × (create f h message ≡ some p) × IsPackageOf f h message p
create-IsPackageOf f h message small = (
  package_of f h message,
  create_small f h message small,
  package_of-IsPackageOf f h message small,
)
