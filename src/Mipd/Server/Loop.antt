-- ===== src/Mipd/Server/Loop.antt =====
-- mipd/src/lib/server.c: the event loop of the MIP daemon.
use network_course_uio.Prelude.{
  ℕ, ◌-◌, Bool, ◌&&◌, Option, none, some, List, [], ◌∷◌, ◌++◌, map, ltb, ◌==◌, if◌then◌else◌,
  length, take, replicate, get_or, ℤ, pos, minus_one, eq_int,
}
use network_course_uio.Commons.MipdMessage.{
  MipdMessage, deserialize, max_mipmessage_size, max_mipmessage_data_size,
}
use network_course_uio.Mipd.InterfaceTable.{is_socket_in_table}
use network_course_uio.Mipd.MipArp.{complete_mip_arp, update_arp_cache}
use network_course_uio.Mipd.Packaging.EtherFrame.{BytePointer}
use network_course_uio.Mipd.Routing.{parse_broadcasted_table, broadcast_route_table}
use network_course_uio.Mipd.Server.{MipdServer, LocalSocket, World, Output, to_link}
use network_course_uio.Mipd.Server.Forwarding.{
  pop, forward_found, handle_forward_response, request_forwarding,
}
use network_course_uio.Mipd.Server.Applications.{handle_domain_socket_request, create_queueable}
use network_course_uio.Mipd.Server.Frames.{checked, handle_raw_socket_frame}

-- An event: its descriptor; the socket that `accept` gives, or -1 if it cannot be polled; the bytes
-- that a read gives, or none for -1; and, for a route table that is broadcast, what the interfaces
-- make of it.
pub record Event : Type 0 where
  pub fd : ℤ
  pub accepted : ℤ
  pub bytes : Option (List ℕ)
  pub own_macs : ℕ → BytePointer
  pub broadcast_mac : BytePointer
  pub default_mac : BytePointer
  pub sends : ℕ → Bool
  pub world : World

-- The return code of an event is -1 for an error, 1 for the end of the loop and 0 otherwise.
abbrev pub Turn : Type 0
Turn = Option (ℤ × List Output × MipdServer)

-- A zeroed object of `size` bytes after a read has filled its front
abbrev pub filled : (size : ℕ) → List ℕ → List ℕ
filled size bytes = take size bytes ++ replicate (size - length bytes) 0

abbrev pub connect : LocalSocket → ℤ → LocalSocket
connect socket fd = record socket { connected_socket_fd = fd }

-- A new connection, which takes the place of the one before
unfoldable pub handle_connection : (accepted : ℤ) → (MipdServer → MipdServer) → MipdServer → Turn
handle_connection accepted bind server =
    if eq_int accepted minus_one
    then some (minus_one, [], server)
    else some (pos 0, [], bind server)

-- The routing daemon has sent its route table, or has gone.
unfoldable pub handle_route_event : Event → MipdServer → Turn
handle_route_event event server = elim event.bytes [
  | none ↦ some (minus_one, [], server)
  | some [] ↦
      some (pos 0, [], record server { route_socket = connect server.route_socket minus_one })
  | some (x ∷ rest) ↦
      elim (broadcast_route_table event.own_macs event.broadcast_mac event.sends server.i_table
        server.cache (parse_broadcasted_table (filled 514 (x ∷ rest)))) [
          | none ↦ some (minus_one, [], server)
          | some frames ↦ some (pos 0, map to_link frames, server)
        ]
]

-- The routing daemon has answered with a next hop, or has gone.
unfoldable pub handle_forward_event : Event → MipdServer → Turn
handle_forward_event event server = elim event.bytes [
  | none ↦ some (minus_one, [], server)
  | some [] ↦
      some (pos 0, [], record server { forward_socket = connect server.forward_socket minus_one })
  | some (forward_response ∷ rest) ↦
      if forward_found forward_response
      then elim (handle_forward_response event.world server forward_response) [
        | none ↦ none
        | some (rc, outputs, server') ↦ some (checked rc, outputs, server')
      ]
      else (let (popped, server') = pop server in
          elim popped [ none ↦ some (minus_one, [], server') | some p ↦ some (pos 0, [], server') ])
]

-- A message of the application that has been read whole
unfoldable pub handle_message : Event → MipdMessage → MipdServer → Turn
handle_message event m server = elim (handle_domain_socket_request event.world server m) [
  | none ↦ none
  | some (rc, outputs) ↦
      if eq_int rc minus_one
      then some (minus_one, outputs, server)
      else if eq_int rc (pos 0)
      then elim (create_queueable event.default_mac m) [
        | none ↦ some (minus_one, outputs, server)
        | some p ↦
            let (rc', outputs', server') =
              request_forwarding event.world server p.m_header.dst_addr p in
            some (checked rc', outputs ++ outputs', server')
      ]
      else some (pos 0, outputs, server)
]

-- The application has sent a message, or has gone; fewer bytes than `sizeof(MIPDMessage)` are left
-- alone. A message that cannot be deserialised is used all the same.
unfoldable pub handle_application_event : Event → MipdServer → Turn
handle_application_event event server =
    let gone : MipdServer = record server { app_socket = connect server.app_socket minus_one } in
    elim event.bytes [
      | none ↦ some (pos 0, [], gone)
      | some [] ↦ some (pos 0, [], gone)
      | some (x ∷ rest) ↦
          let read = take max_mipmessage_data_size (x ∷ rest) in
          if ltb (length read) 16
          then some (pos 0, [], server)
          else elim (deserialize (filled max_mipmessage_size read)) [
            | none ↦ none
            | some none ↦ none
            | some (some m) ↦ handle_message event m server
          ]
    ]

-- `strncmp(read_buffer, "stop\n", 5)` is 0.
abbrev pub is_stop : List ℕ → Bool
is_stop bytes =
    get_or bytes 0 0 == 115
    && get_or bytes 1 0 == 116
    && get_or bytes 2 0 == 111
    && get_or bytes 3 0 == 112
    && get_or bytes 4 0 == 10

unfoldable pub handle_stdin : Event → MipdServer → Turn
handle_stdin event server = elim event.bytes [
  | none ↦ some (pos 0, [], server)
  | some bytes ↦ some (if is_stop bytes then pos 1 else pos 0, [], server)
]

-- The body of the loop over the events of `MIPDServer_run`
unfoldable pub handle_event : Event → MipdServer → Turn
handle_event event server =
    if eq_int event.fd server.app_socket.listening_socket_fd
    then handle_connection event.accepted
        (λ s. record s { app_socket = connect s.app_socket event.accepted }) server
    else if eq_int event.fd server.route_socket.listening_socket_fd
    then handle_connection event.accepted
        (λ s. record s { route_socket = connect s.route_socket event.accepted }) server
    else if eq_int event.fd server.forward_socket.listening_socket_fd
    then handle_connection event.accepted
        (λ s. record s { forward_socket = connect s.forward_socket event.accepted }) server
    else if eq_int event.fd server.route_socket.connected_socket_fd
    then handle_route_event event server
    else if eq_int event.fd server.forward_socket.connected_socket_fd
    then handle_forward_event event server
    else if is_socket_in_table server.i_table event.fd
    then elim (handle_raw_socket_frame event.world server event.fd event.bytes) [
      | none ↦ none
      | some (rc, outputs, server') ↦ some (checked rc, outputs, server')
    ]
    else if eq_int event.fd server.app_socket.connected_socket_fd
    then handle_application_event event server
    else if eq_int event.fd (pos 0)
    then handle_stdin event server
    else some (pos 0, [], server)

-- The loop over the events, which goes on after a stop and ends at an error
unfoldable pub handle_events : List Event → MipdServer → Turn
handle_events [] server = some (pos 0, [], server)
handle_events (event ∷ rest) server = elim (handle_event event server) [
  | none ↦ none
  | some (rc, outputs, server') ↦
      if eq_int rc minus_one
      then some (minus_one, outputs, server')
      else elim (handle_events rest server') [
        | none ↦ none
        | some (rc', outputs', server'') ↦
            some (if eq_int rc' (pos 0) then rc else rc', outputs ++ outputs', server'')
      ]
]

-- What one round of `while(running)` takes from the host
pub record Round : Type 0 where
  pub clock : ℕ → ℕ
  pub due : ℕ
  pub now : ℕ
  pub sends : ℕ → Bool
  pub events : List Event

-- One round; what `update_arp_cache` returns is not looked at.
unfoldable pub round : Round → MipdServer → Turn
round r server = elim (update_arp_cache r.clock r.due r.now r.sends server.i_table server.cache) [
  | none ↦ none
  | some (_, requests, cache') ↦ elim (handle_events r.events (record server { cache = cache' })) [
    | none ↦ none
    | some (rc, outputs, server') ↦ some (rc, map to_link requests ++ outputs, server')
  ]
]

-- `while(running)`, for as many rounds as are given; 0 means that it is still running.
unfoldable pub rounds : List Round → MipdServer → Turn
rounds [] server = some (pos 0, [], server)
rounds (r ∷ rest) server = elim (round r server) [
  | none ↦ none
  | some (rc, outputs, server') ↦
      if eq_int rc (pos 0)
      then elim (rounds rest server') [
        | none ↦ none
        | some (rc', outputs', server'') ↦ some (rc', outputs ++ outputs', server'')
      ]
      else some (rc, outputs, server')
]

-- `MIPDServer_run`
unfoldable pub run : (now : ℕ) (sends : ℕ → Bool) → List Round → MipdServer → Turn
run now sends rs server =
    let (rc, requests, cache') = complete_mip_arp now sends server.i_table server.cache in
    if eq_int rc minus_one
    then some (minus_one, map to_link requests, server)
    else elim (rounds rs (record server { cache = cache' })) [
      | none ↦ none
      | some (rc', outputs, server') ↦ some (rc', map to_link requests ++ outputs, server')
    ]
