-- ===== src/Routerd/RouterServer.antt =====
-- routerd/src/lib/router_server.{h,c}: the state of the routing daemon and its event loop.
-- The file descriptors are left out: an event says which of them it came from. The times that a
-- round or an event reads from the clock, and what the socket calls return, are part of the round
-- and of the event.
pub mod Local
pub mod Run
pub mod Sockets
use network_course_uio.Prelude.{
  ℕ, ◌+◌, ◌-◌, Bool, true, false, Option, none, some, List, [], ◌∷◌, ◌++◌, ltb, ◌==◌, ◌&&◌,
  if◌then◌else◌,
}
use network_course_uio.Routerd.MipRouteTable.{
  MipRouteTable, MipRouteTablePackage, update, update_routing, remove_old_entries,
}
use network_course_uio.Routerd.MipRouteTable
use network_course_uio.Routerd.Handlers.{
  broadcast_route_table, handle_route_request, should_complete_route_broadcast,
  handle_forwarding_request,
}

-- The fields of `RouterServer` other than its sockets
pub record RouterServer : Type 0 where
  pub table : MipRouteTable
  pub broadcast_freq_milli : ℕ
  pub last_broadcast_milli : ℕ

-- What the daemon writes to its two sockets
pub data Sent : Type 0 where
  route_table : MipRouteTablePackage → Sent
  next_hop : ℕ → Sent

-- An event that `epoll_wait` reports: on the routing socket, the forwarding socket or stdin
pub data RouterEvent : Type 0 where
  routing : Option MipRouteTablePackage → RouterEvent
  forward : Option ℕ → RouterEvent
  stdin : List ℕ → RouterEvent

-- An event with the clock of its loops: `clock j i` is the reading of round `i` of the `j`-th loop.
pub record Arrival : Type 0 where
  pub clock : ℕ → ℕ → ℕ
  pub event : RouterEvent

-- What one round of the event loop meets
pub record Round : Type 0 where
  pub now : ℕ
  pub written : Bool
  pub broadcast_time : ℕ
  pub sweep_clock : ℕ → ℕ
  pub events : List Arrival

-- The variables of the event loop, and what has been sent so far
pub record Loop : Type 0 where
  pub server : RouterServer
  pub running : Bool
  pub sent : List Sent

-- The loop of `RouterServer_create` over the local addresses
unfoldable pub add_addresses : ℕ → (ℕ → ℕ) → List ℕ → MipRouteTable → MipRouteTable
add_addresses i clock [] table = table
add_addresses i clock (address ∷ rest) table =
    add_addresses (i + 1) clock rest (update (clock i) table address address 0).1

-- `RouterServer_create`
unfoldable pub create : (ℕ → ℕ) → (mip_addresses : List ℕ) → (broadcast_freq : ℕ) → RouterServer
unfolding add_addresses MipRouteTable.create
create clock mip_addresses broadcast_freq = record {
  table = add_addresses 0 clock mip_addresses MipRouteTable.create;
  broadcast_freq_milli = broadcast_freq;
  last_broadcast_milli = 0;
}

-- `!strncmp(read_buffer, "stop\n", 5)`
abbrev pub is_stop : List ℕ → Bool
is_stop (s ∷ t ∷ o ∷ p ∷ n ∷ rest) =
    (s == b's') && (t == b't') && (o == b'o') && (p == b'p') && (n == 10)
is_stop _ = false

-- The body of the loop over the events; none is the jump to the error label.
unfoldable pub handle_event : Loop → Arrival → RouterEvent → Option Loop
handle_event l a (routing received) = elim (handle_route_request (a.clock 0) received) [
  | none ↦ none
  | some neighbor_table ↦ some (record l {
    server = record (l.server) { table = update_routing (a.clock 1) l.server.table neighbor_table };
  })
]
handle_event l a (forward received) = some (record l {
  sent = l.sent ++ next_hop (handle_forwarding_request l.server.table received) ∷ [];
})
handle_event l a (stdin bytes) = some (if is_stop bytes then record l { running = false } else l)

unfoldable pub handle_events : List Arrival → Loop → Option Loop
unfolding handle_event
handle_events [] l = some l
handle_events (a ∷ rest) l = elim (handle_event l a a.event) [
  | none ↦ none
  | some l' ↦ handle_events rest l'
]

-- The broadcast at the head of a round, where it is due
unfoldable pub broadcast : Round → Loop → Option Loop
broadcast r l =
    if should_complete_route_broadcast r.now l.server.last_broadcast_milli
      l.server.broadcast_freq_milli
    then elim (broadcast_route_table r.written l.server.table) [
      | none ↦ none
      | some route_package ↦ some (record l {
        server = record (l.server) { last_broadcast_milli = r.broadcast_time };
        sent = l.sent ++ route_table route_package ∷ [];
      })
    ]
    else some l

-- One round of `while(running)`
unfoldable pub round : Round → Loop → Option Loop
unfolding broadcast handle_events
round r l = elim (broadcast r l) [
  | none ↦ none
  | some l' ↦ handle_events r.events (record l' {
    server = record (l'.server) { table = (remove_old_entries r.sweep_clock l'.server.table).1 };
  })
]

-- `RouterServer_run` over the rounds that it meets: none if it has returned -1, and otherwise the
-- state after them. It makes no round once it is told to stop.
unfoldable pub run : List Round → Loop → Option Loop
unfolding round
run [] l = some l
run (r ∷ rest) l =
    if l.running then elim (round r l) [ none ↦ none | some l' ↦ run rest l' ] else some l
