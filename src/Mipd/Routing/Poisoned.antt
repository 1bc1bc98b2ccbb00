-- ===== src/Mipd/Routing/Poisoned.antt =====
-- What the tables of several routing daemons come to with the poisoned reverse of their MIP daemons.
-- Each daemon goes by the one MIP address of its host. The tables are taken to come as they are sent: the
-- link is not part of this, whose receive buffer is too small for them (Link/Overrun).
use network_course_uio.Prelude.{
  ℕ, ◌+◌, ◌-◌, ◌≤◌, ◌<◌, ◌≡◌, ◌≢◌, ◌⊎◌, refl, ◌∙◌, ap, sym, subst, Option, none, some, List, [],
  ◌∷◌, ◌==◌, ==→eq, ==→ne, ==-refl, arith, if◌then◌else◌, All, inl, inr, Bool-cases, leb, not, ◌&&◌,
}
use network_course_uio.Prelude.Bytes.{uint_max}
use network_course_uio.Routerd.MipRouteTable.{
  MipRouteEntry, MipRouteTable, MipRouteTablePackage, get, update_routing, create_package,
  create_table,
}
use network_course_uio.Routerd.MipRouteTable.Lookup.{IsUnique}
use network_course_uio.Routerd.MipRouteTable.Relax.{
  Fits, Hop, hop_of, relax, update_routing-NoWorse, update_routing-IsUnique,
}
use network_course_uio.Routerd.Convergence.{
  Tables, Relays, arrived, other, relayed, Sound, Knows, from-Fits, relax_cost, entry_of,
  NoWorse-Knows,
}
use network_course_uio.Mipd.Routing.{poison_reverse}
use network_course_uio.Mipd.Routing.SplitHorizon.{
  poisoned, arrives, relax-arrives, Fits-stamped, IsUnique-stamped,
}

-- The tables after one has changed
abbrev pub replace : Tables → ℕ → MipRouteTable → Tables
replace tables r t a = if a == r then t else tables a

-- The daemons take in tables by a schedule of receivers and senders: each table is packed by the
-- sender, poisoned for the receiver, and unpacked by it.
pub data Runs (clock clock' : ℕ → ℕ) : Tables → List (ℕ × ℕ) → Tables → Type 0 where
  done : {tables : Tables} → Runs clock clock' tables [] tables
  takes :
      {tables last : Tables} {r s : ℕ} {rest : List (ℕ × ℕ)} {p : MipRouteTablePackage}
      {n : MipRouteTable}
      → r ≢ s
      → create_package (tables s) ≡ some p
      → create_table clock (poison_reverse (record p { table_address = s }) r) ≡ some n
      → Runs clock clock' (replace tables r (update_routing clock' (tables r) n)) rest last
      → Runs clock clock' tables ((r, s) ∷ rest) last

-- The next hop of a route is the daemon itself, or one that has a shorter route.
abbrev pub Honest : Tables → Type 0
Honest tables =
    (a k : ℕ) (e : MipRouteEntry)
    → get (tables a) k ≡ some e
    → (e.next_hop ≡ a) ⊎ ((1 ≤ e.cost) × Knows (tables e.next_hop) k (e.cost - 1))

-- A route that comes out of a relaxation is the old one, or the offer at one more.
relax_cases :
    (neighbor : ℕ) (own offer : Option Hop) (hop cost : ℕ)
    → relax neighbor own offer ≡ some (hop, cost)
    → (own ≡ some (hop, cost))
      ⊎ ((h : ℕ) × (c : ℕ) × (offer ≡ some (h, c))
          × (c ≢ uint_max)
          × (hop ≡ neighbor)
          × (cost ≡ c + 1))
relax_cases neighbor own none hop cost e = inl e
relax_cases neighbor none (some (h, c)) hop cost e = elim (Bool-cases (c == uint_max)) [
  | inl bad ↦ absurd (ground (arith, e, bad))
  | inr good ↦
      inr (h, c, refl, ==→ne c uint_max good, ground (arith, e, good), ground (arith, e, good))
]
relax_cases neighbor (some (h', c')) (some (h, c)) hop cost e =
    elim (Bool-cases (not (c == uint_max) && leb (c + 1) c')) [
      | inl better ↦
          inr (
            h,
            c,
            refl,
            ground (arith, better),
            ground (arith, e, better),
            ground (arith, e, better),
          )
      | inr worse ↦ inl (ground (arith, e, worse))
    ]

poisoned_cases :
    (d : ℕ) (o : Option Hop) (hop cost : ℕ)
    → poisoned d o ≡ some (hop, cost)
    → cost ≢ uint_max
    → o ≡ some (hop, cost)
poisoned_cases d none hop cost e real = absurd (ground (arith, e))
poisoned_cases d (some (h, c)) hop cost e real = elim (Bool-cases (h == d)) [
  | inl over ↦ absurd (real (ground (arith, e, over)))
  | inr other_way ↦ ground (arith, e, other_way)
]

route_of :
    (o : Option MipRouteEntry) (hop cost : ℕ)
    → hop_of o ≡ some (hop, cost)
    → (e : MipRouteEntry) × (o ≡ some e) × (e.next_hop ≡ hop) × (e.cost ≡ cost)
route_of none hop cost h = absurd (ground (arith, h))
route_of (some e) hop cost h = (e, refl, ground (arith, h), ground (arith, h))

-- One daemon takes in the poisoned table of another.
module _ (clock clock' : ℕ → ℕ) (tables : Tables) (r s : ℕ) {p : MipRouteTablePackage}
    {n : MipRouteTable} (sound : Sound tables) (packed : create_package (tables s) ≡ some p)
    (unpacked : create_table clock (poison_reverse (record p { table_address = s }) r)
      ≡ some n) where
  abbrev taken : MipRouteTable
  taken = update_routing clock' (tables r) n

  abbrev next : Tables
  next = replace tables r taken

  arrives-Fits : All Fits n.entries
  arrives-Fits =
      rw ((arrives clock (tables s) s r (sound s).0 packed unpacked).1)
        (Fits-stamped clock r 0 (tables s).entries (sound s).0)

  arrives-IsUnique : IsUnique n.entries
  arrives-IsUnique =
      rw ((arrives clock (tables s) s r (sound s).0 packed unpacked).1)
        (IsUnique-stamped clock r 0 (tables s).entries (sound s).1)

  taken-route :
      (k : ℕ)
      → hop_of (get taken k)
        ≡ relax s (hop_of (get (tables r) k)) (poisoned r (hop_of (get (tables s) k)))
  taken-route k =
      relax-arrives clock clock' (tables s) (tables r) s r k (sound s).0 (sound s).1 (sound r).1
        packed unpacked

  next-Sound : Sound next
  unfolding update_routing
  next-Sound a = elim (Bool-cases (a == r)) [
    | inl here ↦ rw here (
      from-Fits 0 clock' n.table_address n.entries (tables r) (sound r).0,
      update_routing-IsUnique clock' (tables r) n arrives-Fits (sound r).1,
    )
    | inr elsewhere ↦ rw elsewhere (sound a)
  ]

  next-Knows : (a k c : ℕ) → Knows (tables a) k c → Knows (next a) k c
  next-Knows a k c knows = elim (Bool-cases (a == r)) [
    | inl here ↦
        let own = subst (λ x. Knows (tables x) k c) (==→eq a r here) knows in
        rw here (
          NoWorse-Knows (tables r) taken k c
            (update_routing-NoWorse clock' (tables r) n arrives-Fits (sound r).1 k) own)
    | inr elsewhere ↦ rw elsewhere knows
  ]

  -- The route of a daemon by which its table is honest
  abbrev Backed : (self k : ℕ) → MipRouteEntry → Type 0
  Backed self k e = (e.next_hop ≡ self) ⊎ ((1 ≤ e.cost) × Knows (next e.next_hop) k (e.cost - 1))

  still_Backed :
      (a k : ℕ) (e : MipRouteEntry) → Honest tables → get (tables a) k ≡ some e → Backed a k e
  still_Backed a k e honest here = elim (honest a k e here) [
    | inl own ↦ inl own
    | inr (positive, knows) ↦ inr (positive, next-Knows e.next_hop k (e.cost - 1) knows)
  ]

  taken-Backed : (k : ℕ) (e : MipRouteEntry) → Honest tables → get taken k ≡ some e → Backed r k e
  taken-Backed k e honest here =
      let route = sym (taken-route k) ∙ ap hop_of here in
      elim (relax_cases s (hop_of (get (tables r) k)) (poisoned r (hop_of (get (tables s) k)))
        e.next_hop e.cost route) [
          | inl kept ↦
              let (e', there, hop, cost) = route_of (get (tables r) k) e.next_hop e.cost kept in
              let back = still_Backed r k e' honest there in
              subst (λ x. (x ≡ r) ⊎ ((1 ≤ e.cost) × Knows (next x) k (e.cost - 1))) hop
                (subst (λ x. (e'.next_hop ≡ r) ⊎ ((1 ≤ x) × Knows (next e'.next_hop) k (x - 1)))
                  cost back)
          | inr (h, c, offered, real, hop, cost) ↦
              let (e', there, hop', cost') =
                route_of (get (tables s) k) h c
                  (poisoned_cases r (hop_of (get (tables s) k)) h c offered real) in
              inr (
                omega (arith, cost),
                rw hop (next-Knows s k (e.cost - 1) (e', there, omega (arith, cost, cost'))),
              )
        ]

  next-Honest : Honest tables → Honest next
  next-Honest honest a k e here = elim (Bool-cases (a == r)) [
    | inl same ↦
        let at : a ≡ r = ==→eq a r same in
        let own : get taken k ≡ some e = rw same at here in
        elim (taken-Backed k e honest own) [ inl self ↦ inl (self ∙ sym at) | inr back ↦ inr back ]
    | inr elsewhere ↦
        let old : get (tables a) k ≡ some e = rw elsewhere at here in still_Backed a k e honest old
  ]

  next-new :
      (k c : ℕ)
      → r ≢ s
      → Honest tables
      → c < uint_max
      → Knows (tables s) k c
      → Knows (next r) k (c + 1)
  next-new k c apart honest small (e, here, cost) = elim (Bool-cases (e.next_hop == r)) [
    | inl over ↦
        let back : e.next_hop ≡ r = ==→eq e.next_hop r over in
        elim (honest s k e here) [
          | inl self ↦ absurd (apart (sym back ∙ self))
          | inr (positive, knows) ↦
              let (e', there, cost') =
                next-Knows r k (e.cost - 1)
                  (subst (λ x. Knows (tables x) k (e.cost - 1)) back knows) in
              (e', there, omega (arith, cost, cost'))
        ]
    | inr direct ↦
        let (hop, cost', offer, bound) =
          relax_cost s (hop_of (get (tables r) k)) e.next_hop e.cost (omega (arith, cost)) in
        let offered : poisoned r (hop_of (get (tables s) k)) ≡ some (e.next_hop, e.cost) =
          rw (here, direct) refl in
        let route : hop_of (get taken k) ≡ some (hop, cost') = taken-route k ∙ rw offered offer in
        let (e', there, is_cost) = entry_of (get taken k) hop cost' route in
        rw (==-refl r) (e', there, omega (arith, is_cost, bound, cost))
  ]

-- Daemons take in each other's tables one after the other, each table packed by its sender and
-- poisoned for its receiver. If every table has fields in range and one entry at most for each
-- destination, no daemon starts with a route over another that has no shorter one, and among the
-- deliveries a chain of `n` leads from the first daemon to the second, then the second has in the end a
-- route to each destination of the first at `n` more at most, if that is no more than 2^32 - 1; and
-- each route over another daemon still has a shorter one there. So no poisoned route is missed.
pub Runs-Knows :
    (clock clock' : ℕ → ℕ) {schedule : List (ℕ × ℕ)} {from to n : ℕ} {tables last : Tables}
    (k c : ℕ)
    → Sound tables
    → Honest tables
    → Relays schedule from to n
    → Runs clock clock' tables schedule last
    → c + n ≤ uint_max
    → Knows (tables from) k c
    → Knows (last to) k (c + n) × Honest last
Runs-Knows clock clock' k c sound honest arrived done small (e, here, cost) =
    ((e, here, omega (arith, cost)), honest)
Runs-Knows clock clock' k c sound honest (other {a = a} later)
      (takes {tables = tables} {r = r} {s = s} apart packed unpacked run) small knows =
    Runs-Knows clock clock' k c (next-Sound clock clock' tables r s sound packed unpacked)
      (next-Honest clock clock' tables r s sound packed unpacked honest) later run small
      (next-Knows clock clock' tables r s sound packed unpacked a k c knows)
Runs-Knows clock clock' k c sound honest (relayed {n = n} later)
      (takes {tables = tables} {r = r} {s = s} apart packed unpacked run) small knows =
    let next =
      next-new clock clock' tables r s sound packed unpacked k c apart honest (omega arith) knows in
    let ((e, here, cost), still) =
      Runs-Knows clock clock' k (c + 1) (next-Sound clock clock' tables r s sound packed unpacked)
        (next-Honest clock clock' tables r s sound packed unpacked honest) later run (omega arith)
        next in
    ((e, here, omega (arith, cost)), still)
