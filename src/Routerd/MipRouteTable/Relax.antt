-- ===== src/Routerd/MipRouteTable/Relax.antt =====
-- What `MIPRouteTable_update_routing` does with a neighbour's table: one step of distance-vector
-- relaxation.
use network_course_uio.Prelude.{
  ℕ, ◌+◌, ◌≤◌, ◌≡◌, refl, not, ◌&&◌, Option, none, some, List, [], ◌∷◌, leb, ◌==◌, if◌then◌else◌,
  arith, All,
}
use network_course_uio.Prelude.Bytes.{u32, uint_max}
use network_course_uio.Routerd.MipRouteTable.{
  MipRouteEntry, MipRouteTable, get, get_entry, consider, update_routing_from, update_routing,
}
use network_course_uio.Routerd.MipRouteTable.Lookup.{IsUnique, get-update, update-IsUnique}

-- The fields of an entry are in the range of their C types.
abbrev pub Fits : MipRouteEntry → Type 0
Fits e = (e.destination ≤ 255) × (e.cost ≤ uint_max)

-- A route as a client sees it: the next hop and the cost.
abbrev pub Hop : Type 0
Hop = ℕ × ℕ

abbrev pub hop_of : Option MipRouteEntry → Option Hop
hop_of none = none
hop_of (some e) = some (e.next_hop, e.cost)

-- One step of Bellman and Ford over the link to the neighbour, of cost 1. An offer of the largest
-- cost means that there is no route.
abbrev pub relax : ℕ → Option Hop → Option Hop → Option Hop
relax neighbor own none = own
relax neighbor none (some (_, cost)) = if cost == uint_max then none else some (neighbor, cost + 1)
relax neighbor (some (hop, own_cost)) (some (_, cost)) =
    if not (cost == uint_max) && leb (cost + 1) own_cost
    then some (neighbor, cost + 1)
    else some (hop, own_cost)

module _ (now neighbor : ℕ) (e : MipRouteEntry) (fits : Fits e) (t : MipRouteTable)
    (u : IsUnique t.entries) where
  pub consider-IsUnique : IsUnique (consider now neighbor e t).entries
  unfolding consider
  consider-IsUnique =
      ground (arith, update-IsUnique now t e.destination neighbor (u32 (e.cost + 1)) fits.0 u)

  pub get-consider :
      (k : ℕ)
      → hop_of (get (consider now neighbor e t) k) ≡ (
          if e.destination == k
          then relax neighbor (hop_of (get t k)) (some (e.next_hop, e.cost))
          else hop_of (get t k))
  unfolding consider
  get-consider k =
      ground (arith, get-update now t e.destination neighbor (u32 (e.cost + 1)) k fits.0 u)

-- No route of the table is lost or grows in cost, whatever the neighbour sends.
abbrev pub NoWorse : Option MipRouteEntry → Option MipRouteEntry → Type 0
NoWorse none _ = Unit
NoWorse (some _) none = ⊥
NoWorse (some e) (some e') = e'.cost ≤ e.cost

NoWorse-refl : (o : Option MipRouteEntry) → NoWorse o o
NoWorse-refl none = tt
NoWorse-refl (some e) = omega arith

NoWorse-trans : (a b c : Option MipRouteEntry) → NoWorse a b → NoWorse b c → NoWorse a c
NoWorse-trans none b c h h' = tt
NoWorse-trans (some x) none c h h' = elim h [ ]
NoWorse-trans (some x) (some y) none h h' = elim h' [ ]
NoWorse-trans (some x) (some y) (some z) h h' = omega arith

module _ (now neighbor : ℕ) (e : MipRouteEntry) (fits : Fits e) (t : MipRouteTable)
    (u : IsUnique t.entries) where
  consider-NoWorse : (k : ℕ) → NoWorse (get t k) (get (consider now neighbor e t) k)
  unfolding consider
  consider-NoWorse k = ground (
    arith,
    get-update now t e.destination neighbor (u32 (e.cost + 1)) k fits.0 u,
    NoWorse-refl (get t k),
  )

  -- A local address, of cost 0, is never given up to a neighbour.
  consider_local :
      (k : ℕ) {own : MipRouteEntry}
      → get t k ≡ some own
      → own.cost ≡ 0
      → get (consider now neighbor e t) k ≡ some own
  unfolding consider
  consider_local k h z =
      ground (arith, get-update now t e.destination neighbor (u32 (e.cost + 1)) k fits.0 u)

module _ (clock : ℕ → ℕ) (neighbor : ℕ) where
  from-IsUnique :
      (i : ℕ) (es : List MipRouteEntry) (t : MipRouteTable)
      → All Fits es
      → IsUnique t.entries
      → IsUnique (update_routing_from i clock neighbor es t).entries
  unfolding update_routing_from
  from-IsUnique i [] t fits u = u
  from-IsUnique i (e ∷ es) t fits u =
      from-IsUnique (i + 1) es (consider (clock i) neighbor e t) fits.1
        (consider-IsUnique (clock i) neighbor e fits.0 t u)

  from-NoWorse :
      (i : ℕ) (es : List MipRouteEntry) (t : MipRouteTable)
      → All Fits es
      → IsUnique t.entries
      → (k : ℕ) → NoWorse (get t k) (get (update_routing_from i clock neighbor es t) k)
  unfolding update_routing_from
  from-NoWorse i [] t fits u k = NoWorse-refl (get t k)
  from-NoWorse i (e ∷ es) t fits u k =
      let t' = consider (clock i) neighbor e t in
      NoWorse-trans (get t k) (get t' k) (get (update_routing_from (i + 1) clock neighbor es t') k)
        (consider-NoWorse (clock i) neighbor e fits.0 t u k)
        (from-NoWorse (i + 1) es t' fits.1 (consider-IsUnique (clock i) neighbor e fits.0 t u) k)

  from_local :
      (i : ℕ) (es : List MipRouteEntry) (t : MipRouteTable)
      → All Fits es
      → IsUnique t.entries
      → (k : ℕ) {own : MipRouteEntry} → get t k ≡ some own
      → own.cost ≡ 0
      → get (update_routing_from i clock neighbor es t) k ≡ some own
  unfolding update_routing_from
  from_local i [] t fits u k h z = h
  from_local i (e ∷ es) t fits u k h z =
      from_local (i + 1) es (consider (clock i) neighbor e t) fits.1
        (consider-IsUnique (clock i) neighbor e fits.0 t u) k
        (consider_local (clock i) neighbor e fits.0 t u k h z) z

  get-from :
      (i : ℕ) (es : List MipRouteEntry) (t : MipRouteTable)
      → All Fits es
      → IsUnique es
      → IsUnique t.entries
      → (k : ℕ)
      → hop_of (get (update_routing_from i clock neighbor es t) k)
        ≡ relax neighbor (hop_of (get t k)) (hop_of (get_entry k es))
  unfolding update_routing_from get_entry
  get-from i [] t fits distinct u k = refl
  get-from i (e ∷ es) t fits distinct u k = ground (
    arith,
    get-from (i + 1) es (consider (clock i) neighbor e t) fits.1 distinct.1
        (consider-IsUnique (clock i) neighbor e fits.0 t u) k,
    get-consider (clock i) neighbor e fits.0 t u k,
  )

-- A neighbour's table, if its fields are in range, leaves one entry at most for each destination,
-- also if it repeats destinations itself.
pub update_routing-IsUnique :
    (clock : ℕ → ℕ) (t n : MipRouteTable)
    → All Fits n.entries
    → IsUnique t.entries
    → IsUnique (update_routing clock t n).entries
unfolding update_routing
update_routing-IsUnique clock t n = from-IsUnique clock n.table_address 0 n.entries t

-- Whatever a neighbour's table holds, its fields being in range, no route is lost by
-- `MIPRouteTable_update_routing`, and none grows in cost.
pub update_routing-NoWorse :
    (clock : ℕ → ℕ) (t n : MipRouteTable)
    → All Fits n.entries
    → IsUnique t.entries
    → (k : ℕ) → NoWorse (get t k) (get (update_routing clock t n) k)
unfolding update_routing
update_routing-NoWorse clock t n = from-NoWorse clock n.table_address 0 n.entries t

-- An entry of cost 0, which is a local address, is kept as it is whatever a neighbour sends.
pub update_routing_local :
    (clock : ℕ → ℕ) (t n : MipRouteTable)
    → All Fits n.entries
    → IsUnique t.entries
    → (k : ℕ) {own : MipRouteEntry} → get t k ≡ some own
    → own.cost ≡ 0
    → get (update_routing clock t n) k ≡ some own
unfolding update_routing
update_routing_local clock t n = from_local clock n.table_address 0 n.entries t

-- Where the neighbour's table has one entry at most for each destination, the next hop and cost
-- that the table then has for every destination are those of one Bellman-Ford step.
pub get-update_routing :
    (clock : ℕ → ℕ) (t n : MipRouteTable)
    → All Fits n.entries
    → IsUnique n.entries
    → IsUnique t.entries
    → (k : ℕ)
    → hop_of (get (update_routing clock t n) k)
      ≡ relax n.table_address (hop_of (get t k)) (hop_of (get n k))
unfolding update_routing
get-update_routing clock t n = get-from clock n.table_address 0 n.entries t
