-- ===== src/Routerd/Convergence.antt =====
-- routerd/src/lib/mip_route_table.c: what the tables of several routing daemons come to, as they take
-- in each other's tables.
use network_course_uio.Prelude.{
  ℕ, suc, ◌+◌, ◌≤◌, ◌<◌, ◌≡◌, refl, ◌∙◌, ap, subst, false, Option, none, some, List, [], ◌∷◌, ◌==◌,
  ==→eq, ==-refl, arith, if◌then◌else◌, All, All-append, inl, inr, Bool-cases, Option-cases, leb,
  leb→le,
}
use network_course_uio.Prelude.Bytes.{u32, uint_max}
use network_course_uio.Routerd.MipRouteTable.{
  MipRouteEntry, MipRouteTable, get, create_entry, update, is_better, consider, update_routing_from,
  update_routing,
}
use network_course_uio.Routerd.MipRouteTable.Lookup.{IsUnique, without, remove_lem}
use network_course_uio.Routerd.MipRouteTable.Relax.{
  Fits, Hop, NoWorse, hop_of, relax, get-update_routing, update_routing-NoWorse,
  update_routing-IsUnique,
}

-- The table of every daemon, by its number
abbrev pub Tables : Type 0
Tables = ℕ → MipRouteTable

-- The daemon `receiver` takes in the table of `sender`.
unfoldable pub deliver : (clock : ℕ → ℕ) → (receiver sender : ℕ) → Tables → Tables
deliver clock receiver sender tables a =
    if a == receiver then update_routing clock (tables receiver) (tables sender) else tables a

-- Deliveries in order, each from a sender to a receiver
abbrev pub deliver_all : (clock : ℕ → ℕ) → List (ℕ × ℕ) → Tables → Tables
deliver_all clock [] tables = tables
deliver_all clock ((receiver, sender) ∷ rest) tables =
    deliver_all clock rest (deliver clock receiver sender tables)

-- Among the deliveries are, in this order, `n` that lead from daemon to daemon from the first to the
-- second; any others may stand between them.
pub data Relays : List (ℕ × ℕ) → (from to n : ℕ) → Type 0 where
  arrived : {a : ℕ} → Relays [] a a 0
  other :
      {x : ℕ × ℕ} {rest : List (ℕ × ℕ)} {a b n : ℕ} → Relays rest a b n → Relays (x ∷ rest) a b n
  relayed :
      {rest : List (ℕ × ℕ)} {a b c n : ℕ} → Relays rest b c n → Relays ((b, a) ∷ rest) a c (suc n)

-- Every table has fields in range, and one entry at most for each destination.
abbrev pub Sound : Tables → Type 0
Sound tables = (a : ℕ) → All Fits (tables a).entries × IsUnique (tables a).entries

-- A table has a route to `k` whose cost is `c` at most.
abbrev pub Knows : MipRouteTable → (k c : ℕ) → Type 0
Knows t k c = (e : MipRouteEntry) × (get t k ≡ some e) × (e.cost ≤ c)

without-Fits : (d : ℕ) (es : List MipRouteEntry) → All Fits es → All Fits (without d es)
without-Fits d [] fits = tt
without-Fits d (e ∷ es) fits = elim (Bool-cases (e.destination == d)) [
  | inl same ↦ rw same fits.1
  | inr differs ↦ rw differs (fits.0, without-Fits d es fits.1)
]

update-Fits :
    (now : ℕ) (t : MipRouteTable) (d hop cost : ℕ)
    → cost ≤ uint_max
    → All Fits t.entries
    → All Fits ((update now t d hop cost).1).entries
unfolding update create_entry
update-Fits now t d hop cost small fits = elim (Bool-cases (leb d 255)) [
  | inl valid ↦
      let entry : MipRouteEntry = record {
        destination = d;
        next_hop = hop;
        cost = cost;
        last_updated_milli = now;
      } in
      rw (valid, update)
        (rw (remove_lem t d) (
          All-append Fits (without d t.entries) (entry ∷ []) (without-Fits d t.entries fits)
            ((leb→le d 255 valid, small), tt)))
  | inr invalid ↦ rw (invalid, update) fits
]

consider-Fits :
    (now neighbor : ℕ) (e : MipRouteEntry) (t : MipRouteTable)
    → All Fits t.entries
    → All Fits (consider now neighbor e t).entries
unfolding consider
consider-Fits now neighbor e t fits = elim (Bool-cases (is_better e (get t e.destination))) [
  | inl better ↦
      rw better (update-Fits now t e.destination neighbor (u32 (e.cost + 1)) (omega arith) fits)
  | inr worse ↦ rw worse fits
]

pub from-Fits :
    (i : ℕ) (clock : ℕ → ℕ) (neighbor : ℕ) (es : List MipRouteEntry) (t : MipRouteTable)
    → All Fits t.entries
    → All Fits (update_routing_from i clock neighbor es t).entries
unfolding update_routing_from
from-Fits i clock neighbor [] t fits = fits
from-Fits i clock neighbor (e ∷ es) t fits =
    from-Fits (i + 1) clock neighbor es (consider (clock i) neighbor e t)
      (consider-Fits (clock i) neighbor e t fits)

deliver-Sound :
    (clock : ℕ → ℕ) (r s : ℕ) (tables : Tables) → Sound tables → Sound (deliver clock r s tables)
unfolding deliver update_routing
deliver-Sound clock r s tables sound a = elim (Bool-cases (a == r)) [
  | inl here ↦ rw here (
    from-Fits 0 clock (tables s).table_address (tables s).entries (tables r) (sound r).0,
    update_routing-IsUnique clock (tables r) (tables s) (sound s).0 (sound r).1,
  )
  | inr elsewhere ↦ rw elsewhere (sound a)
]

pub NoWorse-Knows :
    (t u : MipRouteTable) (k c : ℕ) → NoWorse (get t k) (get u k) → Knows t k c → Knows u k c
NoWorse-Knows t u k c h (e, here, cost) = elim (Option-cases (get u k)) [
  | inl gone ↦ absurd (subst (λ o. NoWorse o none) here (subst (λ o. NoWorse (get t k) o) gone h))
  | inr (e', there) ↦
      let no_worse : e'.cost ≤ e.cost =
        subst (λ o. NoWorse o (some e')) here (subst (λ o. NoWorse (get t k) o) there h) in
      (e', there, omega (arith, cost, no_worse))
]

deliver-Knows :
    (clock : ℕ → ℕ) (r s a k c : ℕ) (tables : Tables)
    → Sound tables
    → Knows (tables a) k c
    → Knows (deliver clock r s tables a) k c
unfolding deliver
deliver-Knows clock r s a k c tables sound knows = elim (Bool-cases (a == r)) [
  | inl here ↦
      let own = subst (λ x. Knows (tables x) k c) (==→eq a r here) knows in
      rw here (
        NoWorse-Knows (tables r) (update_routing clock (tables r) (tables s)) k c
          (update_routing-NoWorse clock (tables r) (tables s) (sound s).0 (sound r).1 k) own)
  | inr elsewhere ↦ rw elsewhere knows
]

pub relax_cost :
    (neighbor : ℕ) (own : Option Hop) (hop cost : ℕ)
    → cost < uint_max
    → (hop' : ℕ) × (cost' : ℕ) × (relax neighbor own (some (hop, cost)) ≡ some (hop', cost'))
      × (cost' ≤ cost + 1)
relax_cost neighbor none hop cost small =
    let offered : (cost == uint_max) ≡ false = ground arith in
    (neighbor, cost + 1, rw offered refl, omega arith)
relax_cost neighbor (some (own_hop, own_cost)) hop cost small =
    let offered : (cost == uint_max) ≡ false = ground arith in
    elim (Bool-cases (leb (cost + 1) own_cost)) [
      | inl better ↦ (neighbor, cost + 1, rw (offered, better) refl, omega arith)
      | inr worse ↦ (own_hop, own_cost, rw (offered, worse) refl, ground (arith, worse))
    ]

pub entry_of :
    (o : Option MipRouteEntry) (hop cost : ℕ)
    → hop_of o ≡ some (hop, cost)
    → (e : MipRouteEntry) × (o ≡ some e) × (e.cost ≡ cost)
entry_of none hop cost h = absurd (ground (arith, h))
entry_of (some e) hop cost h = (e, refl, ground (arith, h))

deliver_new :
    (clock : ℕ → ℕ) (r s k c : ℕ) (tables : Tables)
    → Sound tables
    → c < uint_max
    → Knows (tables s) k c
    → Knows (deliver clock r s tables r) k (c + 1)
unfolding deliver
deliver_new clock r s k c tables sound small (e, here, cost) =
    let table = update_routing clock (tables r) (tables s) in
    let (hop, cost', offer, bound) =
      relax_cost (tables s).table_address (hop_of (get (tables r) k)) e.next_hop e.cost
        (omega (arith, cost)) in
    let route : hop_of (get table k) ≡ some (hop, cost') =
      get-update_routing clock (tables r) (tables s) (sound s).0 (sound s).1 (sound r).1 k
      ∙ ap (λ o. relax (tables s).table_address (hop_of (get (tables r) k)) (hop_of o)) here
      ∙ offer in
    let (e', there, is_cost) = entry_of (get table k) hop cost' route in
    rw (==-refl r) (e', there, omega (arith, is_cost, bound, cost))

-- If a daemon has a route to a destination, and its table is then passed on in `n` deliveries along a
-- chain of daemons, with any other deliveries before, between and after them, then the last daemon of
-- the chain has a route to the destination in the end, at `n` more than that cost at most.
pub deliver_all-Knows :
    (clock : ℕ → ℕ) {schedule : List (ℕ × ℕ)} {from to n : ℕ} (tables : Tables) (k c : ℕ)
    → Sound tables
    → Relays schedule from to n
    → c + n ≤ uint_max
    → Knows (tables from) k c
    → Knows (deliver_all clock schedule tables to) k (c + n)
deliver_all-Knows clock tables k c sound arrived small (e, here, cost) =
    (e, here, omega (arith, cost))
deliver_all-Knows clock tables k c sound (other {x = (r, s)} {a = a} later) small knows =
    deliver_all-Knows clock (deliver clock r s tables) k c (deliver-Sound clock r s tables sound)
      later small (deliver-Knows clock r s a k c tables sound knows)
deliver_all-Knows clock tables k c sound (relayed {a = s} {b = r} {n = n} later) small knows =
    let next = deliver_new clock r s k c tables sound (omega arith) knows in
    let (e, here, cost) =
      deliver_all-Knows clock (deliver clock r s tables) k (c + 1)
        (deliver-Sound clock r s tables sound) later (omega arith) next in
    (e, here, omega (arith, cost))
