-- ===== src/Routerd/MipRouteTable/Package.antt =====
-- The package that carries a table: `MIPRouteTable_create_package` and
-- `MIPRouteTablePackage_create_table`.
use network_course_uio.Prelude.{
  ℕ, zero, suc, ◌+◌, ◌-◌, ◌≤◌, ◌<◌, ◌≡◌, refl, Option, none, some, List, [], ◌∷◌, ◌++◌, ltb,
  if◌then◌else◌, arith, length, All, map, replicate, get_or, drop, length-map, Option-cases, inl,
  inr,
}
use network_course_uio.Prelude.Bytes.{uint_max}
use network_course_uio.Routerd.MipRouteTable.Relax.{Fits}
use native.Mathlib.Numerals.{add-one}
use network_course_uio.Routerd.MipRouteTable.{
  MipRouteEntry, MipRouteTable, MipRoutePackageEntry, MipRouteTablePackage, to_package_entry,
  zero_entry, create_entry, create, create_package, create_table, read_entries, all_present,
  mip_table_entry_max_age_milli,
}
use network_course_uio.Routerd.MipRouteTable.Lookup.{route, create_entry_lem}

-- The entries as the receiver stamps them, the clock read once for each.
abbrev pub stamped : ℕ → (ℕ → ℕ) → List MipRouteEntry → List MipRouteEntry
stamped i clock [] = []
stamped i clock (e ∷ es) =
    route (clock i) e.destination e.next_hop e.cost ∷ stamped (i + 1) clock es

-- `read_entries` at an offset into the array, as a reading of what stands behind it.
abbrev pub stamp_slots : ℕ → (ℕ → ℕ) → List MipRoutePackageEntry → List (Option MipRouteEntry)
stamp_slots i clock [] = []
stamp_slots i clock (s ∷ ss) =
    create_entry (clock i) s.destination s.next_hop s.cost ∷ stamp_slots (i + 1) clock ss

slot_at :
    (slots : List MipRoutePackageEntry) (i : ℕ) {s : MipRoutePackageEntry}
    {rest : List MipRoutePackageEntry}
    → drop i slots ≡ s ∷ rest
    → (get_or slots i zero_entry ≡ s) × (drop (suc i) slots ≡ rest)
slot_at [] zero h = cc
slot_at [] (suc i) h = cc
slot_at (x ∷ xs) zero h = (cc, cc)
slot_at (x ∷ xs) (suc i) h = slot_at xs i h

pub read_entries_lem :
    (clock : ℕ → ℕ) (ss pad slots : List MipRoutePackageEntry) (i : ℕ)
    → drop i slots ≡ ss ++ pad
    → read_entries (length ss) i clock slots ≡ stamp_slots i clock ss
unfolding read_entries
read_entries_lem clock [] pad slots i h = refl
read_entries_lem clock (s ∷ ss) pad slots i h =
    let at = slot_at slots i h in
    let next : drop (i + 1) slots ≡ ss ++ pad = rw add-one at.1 in
    rw (at.0, read_entries_lem clock ss pad slots (i + 1) next)

abbrev pub InRange : MipRouteEntry → Type 0
InRange e = e.destination ≤ 255

pub all_present_lem :
    (clock : ℕ → ℕ) (i : ℕ) (es : List MipRouteEntry)
    → All InRange es
    → all_present (stamp_slots i clock (map to_package_entry es)) ≡ some (stamped i clock es)
all_present_lem clock i [] h = refl
all_present_lem clock i (e ∷ es) h =
    rw (create_entry_lem (clock i) e.destination e.next_hop e.cost h.0)
      (rw (all_present_lem clock (i + 1) es h.1))

-- A table of fewer than 64 entries whose destinations are in range is packed, and the package is
-- unpacked to the same routes in the same order, each with the receiver's time; the address of the
-- sender is not in it. A larger table is not packed.
pub package_roundtrip :
    (clock : ℕ → ℕ) (t : MipRouteTable)
    → All InRange t.entries
    → (elim (create_package t) [ none ↦ none | some p ↦ create_table clock p ]) ≡ (
        if ltb (length t.entries) 64
        then some (record {
          table_address = 0;
          entry_max_age_milli = mip_table_entry_max_age_milli;
          entries = stamped 0 clock t.entries;
        })
        else none)
unfolding create_package create_table create
package_roundtrip clock t h =
    let ss = map to_package_entry t.entries in
    let pad = replicate (64 - length t.entries) zero_entry in
    let unpack =
      rw (length-map to_package_entry t.entries) at
        (read_entries_lem clock ss pad (ss ++ pad) 0 refl) in
    ground (arith, unpack, all_present_lem clock 0 t.entries h)

-- The slots of a package hold what their C types can hold.
abbrev pub SlotFits : MipRoutePackageEntry → Type 0
SlotFits s = (s.destination ≤ 255) × (s.cost ≤ uint_max)

slot-SlotFits :
    (slots : List MipRoutePackageEntry) (i : ℕ)
    → All SlotFits slots
    → SlotFits (get_or slots i zero_entry)
slot-SlotFits [] i h = omega arith
slot-SlotFits (s ∷ slots) zero h = h.0
slot-SlotFits (s ∷ slots) (suc i) h = slot-SlotFits slots i h.1

read_entries-Fits :
    (n i : ℕ) (clock : ℕ → ℕ) (slots : List MipRoutePackageEntry) (es : List MipRouteEntry)
    → All SlotFits slots
    → all_present (read_entries n i clock slots) ≡ some es
    → All Fits es
unfolding read_entries create_entry
read_entries-Fits zero i clock slots [] h e = tt
read_entries-Fits zero i clock slots (x ∷ es) h e = cc
read_entries-Fits (suc n) i clock slots es h e =
    elim (Option-cases (all_present (read_entries n (i + 1) clock slots))) [
      | inl missing ↦ ground (arith, slot-SlotFits slots i h)
      | inr (rest, present) ↦
          ground
            (arith, slot-SlotFits slots i h, read_entries-Fits n (i + 1) clock slots rest h present)
    ]

pub create_table-Fits :
    (clock : ℕ → ℕ) (p : MipRouteTablePackage) {t : MipRouteTable}
    → All SlotFits p.entries
    → create_table clock p ≡ some t
    → All Fits t.entries
unfolding create_table
create_table-Fits clock p h e =
    elim (Option-cases (all_present (read_entries p.num_entries 0 clock p.entries))) [
      | inl missing ↦ ground arith
      | inr (es, present) ↦
          ground (arith, read_entries-Fits p.num_entries 0 clock p.entries es h present)
    ]

read_entries_total :
    (n i : ℕ) (clock : ℕ → ℕ) (slots : List MipRoutePackageEntry)
    → All SlotFits slots
    → (es : List MipRouteEntry) × (all_present (read_entries n i clock slots) ≡ some es)
unfolding read_entries
read_entries_total zero i clock slots h = ([], refl)
read_entries_total (suc n) i clock slots h =
    let (es, present) = read_entries_total n (i + 1) clock slots h in
    let s = get_or slots i zero_entry in
    (
      route (clock i) s.destination s.next_hop s.cost ∷ es,
      rw (create_entry_lem (clock i) s.destination s.next_hop s.cost (slot-SlotFits slots i h).0)
          (rw present),
    )

-- A package of fewer than 64 entries in range makes a table.
pub create_table_total :
    (clock : ℕ → ℕ) (p : MipRouteTablePackage)
    → p.num_entries < 64
    → All SlotFits p.entries
    → (t : MipRouteTable) × (create_table clock p ≡ some t)
unfolding create_table create
create_table_total clock p small h =
    let (es, present) = read_entries_total p.num_entries 0 clock p.entries h in
    let t : MipRouteTable = record {
      table_address = p.table_address;
      entry_max_age_milli = mip_table_entry_max_age_milli;
      entries = es;
    } in
    (t, ground (arith, present))
