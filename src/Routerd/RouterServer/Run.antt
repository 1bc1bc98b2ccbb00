-- ===== src/Routerd/RouterServer/Run.antt =====
-- Whole runs of router_server.c: what a run keeps, when a round goes on and when it gives up.
use network_course_uio.Prelude.{
  ℕ, ◌≤◌, ◌<◌, ◌≡◌, ◌≢◌, refl, ◌⊎◌, true, false, none, some, List, [], ◌∷◌, ◌++◌, if◌then◌else◌,
  All, arith, Option-cases, inl, inr, Bool-cases, length, ◌↔◌,
}
use network_course_uio.Routerd.MipRouteTable.{
  MipRouteTable, get_next_hop, create_package, remove_old_entries, update_routing,
}
use network_course_uio.Routerd.Handlers.{
  broadcast_route_table, handle_route_request, handle_forwarding_request,
  should_complete_route_broadcast,
}
use network_course_uio.Routerd.MipRouteTable.Package.{SlotFits, create_table_total}
use network_course_uio.Routerd.RouterServer.{
  RouterServer, RouterEvent, routing, forward, stdin, Arrival, Round, Loop, create, handle_event,
  handle_events, broadcast, round, run, is_stop, next_hop,
}
use network_course_uio.Routerd.RouterServer.Local.{
  IsLocal, Serves, create-Serves, remove_old_entries-Serves, RoundFits, handle_events-Serves,
}

broadcast-table :
    (r : Round) (l : Loop) {l' : Loop} → broadcast r l ≡ some l' → l'.server.table ≡ l.server.table
unfolding broadcast
broadcast-table r l e = ground arith

round-Serves :
    (addresses : List ℕ) (r : Round) (l : Loop) {l' : Loop}
    → RoundFits r
    → Serves addresses l.server.table
    → round r l ≡ some l'
    → Serves addresses l'.server.table
unfolding round
round-Serves addresses r l fits s e = elim (Option-cases (broadcast r l)) [
  | inl failed ↦ ground arith
  | inr (m, sent) ↦
      handle_events-Serves addresses r.events
        (record m {
          server = record (m.server) {
            table = (remove_old_entries r.sweep_clock m.server.table).1;
          };
        })
        fits
        (remove_old_entries-Serves addresses r.sweep_clock m.server.table
          (rw (broadcast-table r l sent) s))
        (rw (sent, round) at e)
]

run-Serves :
    (addresses : List ℕ) (rounds : List Round) (l : Loop) {l' : Loop}
    → All RoundFits rounds
    → Serves addresses l.server.table
    → run rounds l ≡ some l'
    → Serves addresses l'.server.table
unfolding run
run-Serves addresses [] l {l'} fits s e =
    let same : l'.server.table ≡ l.server.table = ground arith in rw same s
run-Serves addresses (r ∷ rest) l {l'} fits s e = elim (Bool-cases l.running) [
  | inl on ↦ elim (Option-cases (round r l)) [
    | inl failed ↦ ground arith
    | inr (m, went) ↦
        run-Serves addresses rest m {l' = l'} fits.1 (round-Serves addresses r l fits.0 s went)
          (ground arith)
  ]
  | inr off ↦ let same : l'.server.table ≡ l.server.table = ground arith in rw same s
]

answers :
    (t : MipRouteTable) (ks : List ℕ)
    → All (λ a. a ≤ 255) ks
    → All (IsLocal t) ks
    → All (λ a. handle_forwarding_request t (some a) ≡ a) ks
unfolding handle_forwarding_request get_next_hop
answers t [] le h = tt
answers t (a ∷ ks) le h = (ground (arith, h.0.found, h.0.self), answers t ks le.1 h.1)

abbrev pub start : RouterServer → Loop
start server = record { server = server; running = true; sent = [] }

-- In every run of a daemon, as long as it has not given up, whatever tables it receives and however
-- much time passes, it answers a forwarding request for each of its own addresses with that address.
pub run_answers_local :
    (clock : ℕ → ℕ) (addresses : List ℕ) (freq : ℕ) (rounds : List Round) {l : Loop}
    → All (λ a. a ≤ 255) addresses
    → All RoundFits rounds
    → run rounds (start (create clock addresses freq)) ≡ some l
    → All (λ a. handle_forwarding_request l.server.table (some a) ≡ a) addresses
run_answers_local clock addresses freq rounds {l} le fits e =
    answers l.server.table addresses le
      (run-Serves addresses rounds (start (create clock addresses freq)) fits
        (create-Serves clock addresses freq le) e).local

-- Where a broadcast is due, the daemon gives up at it exactly if its table has 64 entries or more
-- or the write fails.
pub broadcast-eq-none :
    (r : Round) (l : Loop)
    → should_complete_route_broadcast r.now l.server.last_broadcast_milli
        l.server.broadcast_freq_milli
      ≡ true
    → (broadcast r l ≡ none) ↔ ((64 ≤ length l.server.table.entries) ⊎ (r.written ≡ false))
unfolding broadcast broadcast_route_table create_package
broadcast-eq-none r l due = ground arith

broadcast_total :
    (r : Round) (l : Loop)
    → length l.server.table.entries < 64
    → r.written ≡ true
    → broadcast r l ≢ none
unfolding broadcast broadcast_route_table create_package
broadcast_total r l small ok failed = ground arith

-- An event that the daemon can serve
abbrev pub Served : RouterEvent → Type 0
Served (routing none) = ⊥
Served (routing (some p)) = (p.num_entries < 64) × All SlotFits p.entries
Served (forward _) = Unit
Served (stdin _) = Unit

handle_event_total :
    (l : Loop) (a : Arrival) (e : RouterEvent)
    → Served e
    → (l' : Loop) × (handle_event l a e ≡ some l')
unfolding handle_event handle_route_request
handle_event_total l a (routing none) h = elim h [ ]
handle_event_total l a (routing (some p)) h =
    let (n, made) = create_table_total (a.clock 0) p h.0 h.1 in
    (
      record l {
        server = record (l.server) { table = update_routing (a.clock 1) l.server.table n };
      },
      rw (made, handle_event),
    )
handle_event_total l a (forward q) h =
    (record l { sent = l.sent ++ next_hop (handle_forwarding_request l.server.table q) ∷ [] }, refl)
handle_event_total l a (stdin b) h = (if is_stop b then record l { running = false } else l, refl)

handle_events_total :
    (arrivals : List Arrival) (l : Loop)
    → All (λ a. Served a.event) arrivals
    → (l' : Loop) × (handle_events arrivals l ≡ some l')
unfolding handle_events
handle_events_total [] l h = (l, refl)
handle_events_total (a ∷ rest) l h =
    let (m, handled) = handle_event_total l a a.event h.0 in
    let (l', done) = handle_events_total rest m h.1 in (l', rw (handled, handle_events) done)

-- A round goes on if the table has fewer than 64 entries, the write succeeds, and every routing
-- event brings a package of fewer than 64 entries in range.
pub round_total :
    (r : Round) (l : Loop)
    → length l.server.table.entries < 64
    → r.written ≡ true
    → All (λ a. Served a.event) r.events
    → (l' : Loop) × (round r l ≡ some l')
unfolding round
round_total r l small ok h = elim (Option-cases (broadcast r l)) [
  | inl failed ↦ absurd (broadcast_total r l small ok failed)
  | inr (m, sent) ↦
      let (l', done) =
        handle_events_total r.events
          (record m {
            server = record (m.server) {
              table = (remove_old_entries r.sweep_clock m.server.table).1;
            };
          })
          h in
      (l', rw (sent, round) done)
]
