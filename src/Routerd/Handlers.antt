-- ===== src/Routerd/Handlers.antt =====
-- routerd/src/lib/routing_handler.c and forwarding_handler.c: what the daemon does with one request.
-- What `recv` and `write` do is an argument: the object that was received, or none if the call
-- failed.
use network_course_uio.Prelude.{ℕ, ◌-◌, Bool, Option, none, some, ltb, leb, ◌&&◌, if◌then◌else◌}
use network_course_uio.Routerd.MipRouteTable.{
  MipRouteTable, MipRouteTablePackage, create_package, create_table, get_next_hop,
}

-- `broadcast_route_table`: the package that is written, or none for -1.
unfoldable pub broadcast_route_table :
    (written : Bool) → MipRouteTable → Option MipRouteTablePackage
broadcast_route_table written table = elim (create_package table) [
  | none ↦ none
  | some route_package ↦ if written then some route_package else none
]

-- `handle_route_request`: the table that a neighbour sent, or none for NULL.
unfoldable pub handle_route_request :
    (ℕ → ℕ) → (received : Option MipRouteTablePackage) → Option MipRouteTable
handle_route_request clock none = none
handle_route_request clock (some routing_package) = create_table clock routing_package

-- `should_complete_route_broadcast`; the frequency is not negative, so the difference may stop at 0.
unfoldable pub should_complete_route_broadcast :
    (now last_broadcast_milli broadcast_freq_milli : ℕ) → Bool
should_complete_route_broadcast now last_broadcast_milli broadcast_freq_milli =
    ltb broadcast_freq_milli (now - last_broadcast_milli)

-- `handle_forwarding_request`: the answer to a request for the next hop to a destination. The
-- request is none if `recv` failed or the other end has closed the socket.
unfoldable pub handle_forwarding_request : MipRouteTable → (received : Option ℕ) → ℕ
handle_forwarding_request table none = 255
handle_forwarding_request table (some destination) =
    if leb 0 destination && ltb destination 256 then get_next_hop table destination else 255
