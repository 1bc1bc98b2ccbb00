-- ===== src/Mipd/Routing/Bytes.antt =====
-- A route table package survives the way through the bytes of a message.
use network_course_uio.Prelude.{
  ℕ, ◌+◌, ◌*◌, ◌≡◌, refl, List, [], ◌∷◌, ◌++◌, length, arith, All, ap, sym, ◌∙◌,
}
use network_course_uio.Prelude.Bytes.{bytes32_lem}
use network_course_uio.Routerd.MipRouteTable.{MipRoutePackageEntry, MipRouteTablePackage}
use network_course_uio.Routerd.MipRouteTable.Package.{SlotFits}
use network_course_uio.Mipd.Routing.{
  slots_bytes, package_bytes, parse_slots, parse_broadcasted_table,
}

-- Of a whole package, 64 slots
abbrev pub IsWhole : MipRouteTablePackage → Type 0
IsWhole p = (length p.entries ≡ 64) × All SlotFits p.entries

parse_slots-slots_bytes :
    (slots : List MipRoutePackageEntry) (rest : List ℕ)
    → All SlotFits slots
    → parse_slots (length slots) (slots_bytes slots ++ rest) ≡ slots
unfolding parse_slots slots_bytes
parse_slots-slots_bytes [] rest h = refl
parse_slots-slots_bytes (s ∷ slots) rest h =
    ground
      (arith, bytes32_lem s.cost (omega (arith, h.0.1)), parse_slots-slots_bytes slots rest h.1)

-- What a receiver parses out of a message that begins with the bytes of a package is that package,
-- whatever padding follows.
pub parse_broadcasted_table-package_bytes :
    (p : MipRouteTablePackage) (rest : List ℕ)
    → IsWhole p
    → parse_broadcasted_table (package_bytes p ++ rest) ≡ p
unfolding parse_broadcasted_table package_bytes
parse_broadcasted_table-package_bytes p rest h =
    let slots : parse_slots 64 (slots_bytes p.entries ++ rest) ≡ p.entries =
      ap (λ n. parse_slots n (slots_bytes p.entries ++ rest)) (sym h.0)
      ∙ parse_slots-slots_bytes p.entries rest h.1 in
    ground (arith, slots)

length-slots_bytes :
    (slots : List MipRoutePackageEntry) → length (slots_bytes slots) ≡ 8 * length slots
unfolding slots_bytes
length-slots_bytes [] = omega arith
length-slots_bytes (s ∷ slots) = omega (arith, length-slots_bytes slots)

pub length-package_bytes :
    (p : MipRouteTablePackage) → length (package_bytes p) ≡ 2 + 8 * length p.entries
unfolding package_bytes
length-package_bytes p = omega (arith, length-slots_bytes p.entries)
