-- ===== src/Mipd/Routing/SplitHorizon.antt =====
-- Split horizon with poisoned reverse: a neighbour never takes up a route that leads back over
-- itself.
use network_course_uio.Prelude.{
  ℕ, suc, ◌+◌, ◌-◌, ◌≡◌, refl, List, [], ◌∷◌, ◌++◌, length, length-map, arith, All, ap, ◌∙◌, map,
  replicate, Option, none, some, ◌==◌, if◌then◌else◌, eq→==,
}
use network_course_uio.Prelude.Bytes.{uint_max}
use network_course_uio.Routerd.MipRouteTable.{
  MipRoutePackageEntry, MipRouteTablePackage, MipRouteEntry, MipRouteTable, create, create_package,
  create_table, get, get_entry, update_routing, to_package_entry, zero_entry, read_entries,
}
use network_course_uio.Routerd.MipRouteTable.Package.{
  stamped, stamp_slots, read_entries_lem, all_present_lem, InRange,
}
use network_course_uio.Routerd.MipRouteTable.Lookup.{IsUnique}
use network_course_uio.Routerd.MipRouteTable.Relax.{Fits, hop_of, get-update_routing, Hop, relax}
use network_course_uio.Mipd.Routing.{poison_slots, poison_reverse}

-- The entries with the routes over `d` poisoned
abbrev pub poison_entries : ℕ → List MipRouteEntry → List MipRouteEntry
poison_entries d [] = []
poison_entries d (e ∷ es) =
    record e { cost = if e.next_hop == d then uint_max else e.cost } ∷ poison_entries d es

pub poison_slots-map :
    (d : ℕ) (es : List MipRouteEntry) (pad : List MipRoutePackageEntry)
    → poison_slots (length es) d (map to_package_entry es ++ pad)
      ≡ map to_package_entry (poison_entries d es) ++ pad
unfolding poison_slots
poison_slots-map d [] pad = refl
poison_slots-map d (e ∷ es) pad = ground (arith, poison_slots-map d es pad)

length-poison_entries : (d : ℕ) (es : List MipRouteEntry) → length (poison_entries d es) ≡ length es
length-poison_entries d [] = refl
length-poison_entries d (e ∷ es) = ap suc (length-poison_entries d es)

InRange-poison : (d : ℕ) (es : List MipRouteEntry) → All Fits es → All InRange (poison_entries d es)
InRange-poison d [] h = tt
InRange-poison d (e ∷ es) h = (h.0.0, InRange-poison d es h.1)

-- What the neighbour reads out of the poisoned package
pub arrives :
    (clock : ℕ → ℕ) (t : MipRouteTable) (a b : ℕ) {p : MipRouteTablePackage} {n : MipRouteTable}
    → All Fits t.entries
    → create_package t ≡ some p
    → create_table clock (poison_reverse (record p { table_address = a }) b) ≡ some n
    → (n.table_address ≡ a) × (n.entries ≡ stamped 0 clock (poison_entries b t.entries))
unfolding create_package create_table poison_reverse create
arrives clock t a b {p} {n} fits packed unpacked =
    let es = poison_entries b t.entries in
    let pad = replicate (64 - length t.entries) zero_entry in
    let count : length (map to_package_entry es) ≡ length t.entries =
      length-map to_package_entry es ∙ length-poison_entries b t.entries in
    let slots = poison_slots-map b t.entries pad in
    let read : read_entries (length t.entries) 0 clock (map to_package_entry es ++ pad)
        ≡ stamp_slots 0 clock (map to_package_entry es) =
      rw count at (
        read_entries_lem clock (map to_package_entry es) pad (map to_package_entry es ++ pad) 0
          refl) in
    ground (arith, slots, read, all_present_lem clock 0 es (InRange-poison b t.entries fits))

-- The route of an entry in the table of the sender, as the neighbour over `d` reads it
abbrev pub poisoned : ℕ → Option Hop → Option Hop
poisoned d none = none
poisoned d (some (hop, cost)) = if hop == d then some (hop, uint_max) else some (hop, cost)

module _ (clock : ℕ → ℕ) (d : ℕ) where
  absent :
      (i k : ℕ) (es : List MipRouteEntry)
      → get_entry k es ≡ none
      → get_entry k (stamped i clock (poison_entries d es)) ≡ none
  unfolding get_entry
  absent i k [] h = refl
  absent i k (e ∷ es) h = ground (arith, absent (i + 1) k es)

  pub IsUnique-stamped :
      (i : ℕ) (es : List MipRouteEntry)
      → IsUnique es
      → IsUnique (stamped i clock (poison_entries d es))
  IsUnique-stamped i [] u = tt
  IsUnique-stamped i (e ∷ es) u =
      (absent (i + 1) e.destination es u.0, IsUnique-stamped (i + 1) es u.1)

  pub Fits-stamped :
      (i : ℕ) (es : List MipRouteEntry)
      → All Fits es
      → All Fits (stamped i clock (poison_entries d es))
  Fits-stamped i [] h = tt
  Fits-stamped i (e ∷ es) h = (ground arith, Fits-stamped (i + 1) es h.1)

  hop-stamped :
      (i k : ℕ) (es : List MipRouteEntry)
      → hop_of (get_entry k (stamped i clock (poison_entries d es)))
        ≡ poisoned d (hop_of (get_entry k es))
  unfolding get_entry
  hop-stamped i k [] = refl
  hop-stamped i k (e ∷ es) = ground (arith, hop-stamped (i + 1) k es)

declined : (a hop : ℕ) (own : Option Hop) → relax a own (some (hop, uint_max)) ≡ own
declined a hop none = refl
declined a hop (some own) = refl

-- The neighbour `b` that receives the poisoned table of `a` relaxes each of its routes once over `a`,
-- by the routes of `a` that do not lead over `b`.
pub relax-arrives :
    (clock clock' : ℕ → ℕ) (t own : MipRouteTable) (a b k : ℕ) {p : MipRouteTablePackage}
    {n : MipRouteTable}
    → All Fits t.entries
    → IsUnique t.entries
    → IsUnique own.entries
    → create_package t ≡ some p
    → create_table clock (poison_reverse (record p { table_address = a }) b) ≡ some n
    → hop_of (get (update_routing clock' own n) k)
      ≡ relax a (hop_of (get own k)) (poisoned b (hop_of (get t k)))
relax-arrives clock clock' t own a b k {p} {n} fits u u' packed unpacked =
    let (sender, entries) = arrives clock t a b fits packed unpacked in
    let fits' : All Fits n.entries = rw entries (Fits-stamped clock b 0 t.entries fits) in
    let unique' : IsUnique n.entries = rw entries (IsUnique-stamped clock b 0 t.entries u) in
    let offer : hop_of (get n k) ≡ poisoned b (hop_of (get t k)) =
      rw entries (hop-stamped clock b 0 k t.entries) in
    get-update_routing clock' own n fits' unique' u' k
    ∙ (λ i. relax (sender i) (hop_of (get own k)) (offer i))

-- The neighbour `b` that receives the poisoned table of `a` keeps its own route, or keeps having
-- none, to every destination that `a` reaches over `b`.
pub split_horizon :
    (clock clock' : ℕ → ℕ) (t own : MipRouteTable) (a b k : ℕ) {e : MipRouteEntry}
    {p : MipRouteTablePackage} {n : MipRouteTable}
    → All Fits t.entries
    → IsUnique t.entries
    → IsUnique own.entries
    → create_package t ≡ some p
    → create_table clock (poison_reverse (record p { table_address = a }) b) ≡ some n
    → get t k ≡ some e
    → e.next_hop ≡ b
    → hop_of (get (update_routing clock' own n) k) ≡ hop_of (get own k)
split_horizon clock clock' t own a b k {e} fits u u' packed unpacked found over =
    let bad : poisoned b (hop_of (get t k)) ≡ some (e.next_hop, uint_max) =
      rw (found, eq→== e.next_hop b over) refl in
    relax-arrives clock clock' t own a b k fits u u' packed unpacked
    ∙ rw bad (declined a e.next_hop (hop_of (get own k)))
