-- ===== src/Routerd/RouterServer/Local.antt =====
-- The local addresses of a routing daemon stay in its table, at cost 0, through every run of
-- router_server.c, and the daemon answers for each of them with itself.
use network_course_uio.Prelude.{
  ℕ, ◌+◌, ◌≤◌, ◌≡◌, refl, ◌⊎◌, none, some, List, [], ◌∷◌, All, arith, Option-cases, inl, inr,
  eq_cases, sym,
}
use network_course_uio.Routerd.MipRouteTable.{
  MipRouteEntry, MipRouteTable, MipRouteTablePackage, get, get_entry, update, update_routing,
  remove_old_entries, create_table, get_next_hop, create_package,
}
use network_course_uio.Routerd.MipRouteTable
use network_course_uio.Routerd.MipRouteTable.Lookup.{IsUnique, route, get-update, update-IsUnique}
use network_course_uio.Routerd.MipRouteTable.Relax.{
  Fits, update_routing_local, update_routing-IsUnique,
}
use network_course_uio.Routerd.MipRouteTable.Ageing.{
  remove_old_entries_keeps, remove_old_entries-IsUnique,
}
use network_course_uio.Routerd.MipRouteTable.Package.{SlotFits, create_table-Fits}
use network_course_uio.Routerd.Handlers.{handle_route_request}
use network_course_uio.Routerd.RouterServer.{
  RouterEvent, routing, forward, stdin, Arrival, Round, Loop, add_addresses, create, handle_event,
  handle_events,
}

-- The table has a route of cost 0 from `a` to itself.
pub record IsLocal (t : MipRouteTable) (a : ℕ) : Type 0 where
  pub entry : MipRouteEntry
  pub found : get t a ≡ some entry
  pub free : entry.cost ≡ 0
  pub self : entry.next_hop ≡ a

pub record Serves (addresses : List ℕ) (t : MipRouteTable) : Type 0 where
  pub distinct : IsUnique t.entries
  pub local : All (IsLocal t) addresses

All-map : (P Q : ℕ → Type 0) (ks : List ℕ) → ((a : ℕ) → P a → Q a) → All P ks → All Q ks
All-map P Q [] f h = tt
All-map P Q (a ∷ ks) f h = (f a h.0, All-map P Q ks f h.1)

update-IsLocal :
    (now : ℕ) (t : MipRouteTable) (b a : ℕ)
    → b ≤ 255
    → IsUnique t.entries
    → (a ≡ b) ⊎ IsLocal t a
    → IsLocal (update now t b b 0).1 a
update-IsLocal now t b a le u c = elim (eq_cases b a) [
  | inl same ↦ record {
    entry = route now b b 0;
    found = ground (arith, get-update now t b b 0 a le u);
    free = refl;
    self = same;
  }
  | inr other ↦ elim c [
    | inl same ↦ absurd (other (sym same))
    | inr l ↦ record {
      entry = l.entry;
      found = ground (arith, get-update now t b b 0 a le u, l.found);
      free = l.free;
      self = l.self;
    }
  ]
]

module _ (addresses : List ℕ) where
  update_routing-Serves :
      (clock : ℕ → ℕ) (t n : MipRouteTable)
      → All Fits n.entries
      → Serves addresses t
      → Serves addresses (update_routing clock t n)
  update_routing-Serves clock t n fits s = record {
    distinct = update_routing-IsUnique clock t n fits s.distinct;
    local =
        All-map (IsLocal t) (IsLocal (update_routing clock t n)) addresses
          (λ a l. record {
            entry = l.entry;
            found = update_routing_local clock t n fits s.distinct a l.found l.free;
            free = l.free;
            self = l.self;
          })
          s.local;
  }

  pub remove_old_entries-Serves :
      (clock : ℕ → ℕ) (t : MipRouteTable)
      → Serves addresses t
      → Serves addresses (remove_old_entries clock t).1
  remove_old_entries-Serves clock t s = record {
    distinct = remove_old_entries-IsUnique clock t s.distinct;
    local =
        All-map (IsLocal t) (IsLocal (remove_old_entries clock t).1) addresses
          (λ a l. record {
            entry = l.entry;
            found = (remove_old_entries_keeps clock t).1 a l.entry l.found l.free;
            free = l.free;
            self = l.self;
          })
          s.local;
  }

add_address-Serves :
    (now b : ℕ) (seen : List ℕ) (t : MipRouteTable)
    → b ≤ 255
    → Serves seen t
    → Serves (b ∷ seen) (update now t b b 0).1
add_address-Serves now b seen t le s = record {
  distinct = update-IsUnique now t b b 0 le s.distinct;
  local = (
    update-IsLocal now t b b le s.distinct (inl refl),
    All-map (IsLocal t) (IsLocal (update now t b b 0).1) seen
        (λ a l. update-IsLocal now t b a le s.distinct (inr l)) s.local,
  );
}

-- The addresses that have been added so far are local, and so are those still to come at the end.
add_addresses-Serves :
    (i : ℕ) (clock : ℕ → ℕ) (seen rest : List ℕ) (t : MipRouteTable)
    → All (λ a. a ≤ 255) rest
    → Serves seen t
    → Serves seen (add_addresses i clock rest t) × Serves rest (add_addresses i clock rest t)
unfolding add_addresses
add_addresses-Serves i clock seen [] t le s = (s, record { distinct = s.distinct; local = tt })
add_addresses-Serves i clock seen (b ∷ rest) t le s =
    let later =
      add_addresses-Serves (i + 1) clock (b ∷ seen) rest (update (clock i) t b b 0).1 le.1
        (add_address-Serves (clock i) b seen t le.0 s) in
    (
      record { distinct = later.0.distinct; local = later.0.local.1 },
      record { distinct = later.1.distinct; local = (later.0.local.0, later.1.local) },
    )

-- A fresh daemon has a local route for each of its addresses.
pub create-Serves :
    (clock : ℕ → ℕ) (addresses : List ℕ) (freq : ℕ)
    → All (λ a. a ≤ 255) addresses
    → Serves addresses (create clock addresses freq).table
unfolding create MipRouteTable.create
create-Serves clock addresses freq le =
    (add_addresses-Serves 0 clock [] addresses MipRouteTable.create le
      (record { distinct = tt; local = tt })).1

-- The packages of an event hold what their C types can hold.
abbrev pub EventFits : RouterEvent → Type 0
EventFits (routing none) = Unit
EventFits (routing (some p)) = All SlotFits p.entries
EventFits (forward _) = Unit
EventFits (stdin _) = Unit

abbrev pub ArrivalFits : Arrival → Type 0
ArrivalFits a = EventFits a.event

abbrev pub RoundFits : Round → Type 0
RoundFits r = All ArrivalFits r.events

module _ (addresses : List ℕ) where
  handle_event-Serves :
      (l : Loop) (a : Arrival) (e : RouterEvent) {l' : Loop}
      → EventFits e
      → Serves addresses l.server.table
      → handle_event l a e ≡ some l'
      → Serves addresses l'.server.table
  unfolding handle_event handle_route_request
  handle_event-Serves l a (routing none) fits s e = cc
  handle_event-Serves l a (routing (some p)) {l'} fits s e =
      elim (Option-cases (create_table (a.clock 0) p)) [
        | inl refused ↦ ground arith
        | inr (n, made) ↦
            let t = update_routing (a.clock 1) l.server.table n in
            let same : l'.server.table ≡ t = ground arith in
            rw same (
              update_routing-Serves addresses (a.clock 1) l.server.table n
                (create_table-Fits (a.clock 0) p fits made) s)
      ]
  handle_event-Serves l a (forward q) {l'} fits s e =
      let same : l'.server.table ≡ l.server.table = ground arith in rw same s
  handle_event-Serves l a (stdin b) {l'} fits s e =
      let same : l'.server.table ≡ l.server.table = ground arith in rw same s

  pub handle_events-Serves :
      (arrivals : List Arrival) (l : Loop) {l' : Loop}
      → All ArrivalFits arrivals
      → Serves addresses l.server.table
      → handle_events arrivals l ≡ some l'
      → Serves addresses l'.server.table
  unfolding handle_events
  handle_events-Serves [] l {l'} fits s e =
      let same : l'.server.table ≡ l.server.table = ground arith in rw same s
  handle_events-Serves (a ∷ rest) l fits s e = elim (Option-cases (handle_event l a a.event)) [
    | inl failed ↦ ground arith
    | inr (m, handled) ↦
        handle_events-Serves rest m fits.1 (handle_event-Serves l a a.event fits.0 s handled)
          (rw (handled, handle_events) at e)
  ]
