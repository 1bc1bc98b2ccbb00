-- ===== src/Miptpd/MiptpServer.antt =====
-- miptpd/src/lib/miptp_server.{h,c}: the event loop of the transport daemon.
pub mod Total
use network_course_uio.Prelude.{
  ℕ, Bool, true, false, Option, none, some, List, [], ◌∷◌, ◌++◌, ◌==◌, ◌&&◌, not, if◌then◌else◌, ℤ,
  pos, minus_one, eq_int, take, replicate, length, get_or, ◌-◌,
}
use network_course_uio.Miptpd.AppController.{
  AppController, World, handle_outgoing, handle_connection, is_a_connection, disconnect,
  handle_app_package,
}
use network_course_uio.Miptpd.AppController

-- `struct MIPTPServer`, without its paths and its epoll instance: `app_connections_fd` is the
-- descriptor of its `app_connections_socket`.
pub record MiptpServer : Type 0 where
  pub mipd_fd : ℤ
  pub app_connections_fd : ℤ
  pub app_controller : AppController

abbrev max_app_connections : ℕ
max_app_connections = 10

abbrev packet_buffer_size : ℕ
packet_buffer_size = 65535

-- `MIPTPServer_create` and `MIPTPServer_init`, which set up the sockets
unfoldable pub create : (mipd_fd app_connections_fd : ℤ) → MiptpServer
create mipd_fd app_connections_fd = record {
  mipd_fd = mipd_fd;
  app_connections_fd = app_connections_fd;
  app_controller = record (AppController.create minus_one max_app_connections) {
    mipd_socket = mipd_fd;
  };
}

-- An event: its descriptor, the socket that is accepted or -1, the bytes that a read gives or none for
-- -1, and the clock
pub record Event : Type 0 where
  pub fd : ℤ
  pub accepted : ℤ
  pub bytes : Option (List ℕ)
  pub now : ℕ

-- The zeroed read buffer after a read has filled its front
abbrev pub filled : Option (List ℕ) → List ℕ
filled none = replicate packet_buffer_size 0
filled (some bytes) =
    take packet_buffer_size bytes ++ replicate (packet_buffer_size - length bytes) 0

-- `strncmp(read_buffer, "stop\n", 5)` is 0.
abbrev pub is_stop : List ℕ → Bool
is_stop b =
    get_or b 0 0 == 115
    && get_or b 1 0 == 116
    && get_or b 2 0 == 111
    && get_or b 3 0 == 112
    && get_or b 4 0 == 10

-- What an event leaves: a return code below 0, or whether the loop goes on
pub data Outcome : Type 0 where
  failed : Outcome
  running : Outcome
  stopped : Outcome

abbrev pub after : MiptpServer → ℤ × AppController → Outcome × MiptpServer
after server (rc, controller) =
    (if eq_int rc minus_one then failed else running, record server { app_controller = controller })

abbrev pub closed : Option (List ℕ) → Bool
closed none = true
closed (some []) = true
closed (some (x ∷ rest)) = false

-- An application has sent something, or has gone.
unfoldable pub handle_application_event :
    (now : ℕ) (fd : ℤ) → Option (List ℕ) → MiptpServer → Option (Outcome × MiptpServer)
handle_application_event now fd (some []) server =
    some (after server (disconnect server.app_controller fd))
handle_application_event now fd bytes server =
    elim (handle_app_package now server.app_controller fd (filled bytes)) [
      | none ↦ none
      | some handled ↦ some (after server handled)
    ]

-- The body of the loop over the events of `MIPTPServer_run`. The bytes of a message of the MIP daemon
-- are used as a `struct MIPDMessage`, whose pointer they are taken for: none.
unfoldable pub handle_event : Event → MiptpServer → Option (Outcome × MiptpServer)
handle_event event server =
    let controller = server.app_controller in
    if eq_int event.fd server.mipd_fd
    then if closed event.bytes then some (stopped, server) else none
    else if eq_int event.fd server.app_connections_fd
    then elim (handle_connection event.now controller event.accepted) [
      | none ↦ none
      | some handled ↦ some (after server handled)
    ]
    else if not (eq_int (is_a_connection controller event.fd) (pos 0))
    then handle_application_event event.now event.fd event.bytes server
    else if eq_int event.fd (pos 0)
    then some (if is_stop (filled event.bytes) then stopped else running, server)
    else some (running, server)

-- The loop over the events: a stop does not keep the remaining events from being handled.
unfoldable pub handle_events : List Event → Bool → MiptpServer → Option (Outcome × MiptpServer)
handle_events [] go_on server = some (if go_on then running else stopped, server)
handle_events (event ∷ rest) go_on server = elim (handle_event event server) [
  | none ↦ none
  | some (failed, server') ↦ some (failed, server')
  | some (running, server') ↦ handle_events rest go_on server'
  | some (stopped, server') ↦ handle_events rest false server'
]

-- A round of the loop of `MIPTPServer_run`: the packages that are due are sent before the events.
unfoldable pub round :
    World → List Event → MiptpServer → Option (List (List ℕ) × Outcome × MiptpServer)
round world events server = elim (handle_outgoing world server.app_controller) [
  | none ↦ none
  | some (rc, sent, controller) ↦
      let server' = record server { app_controller = controller } in
      if eq_int rc minus_one
      then some (sent, failed, server')
      else elim (handle_events events true server') [
        | none ↦ none
        | some (outcome, server'') ↦ some (sent, outcome, server'')
      ]
]

-- `MIPTPServer_run` over the rounds that it comes to: what it sends, and how it ends
unfoldable pub run :
    List (World × List Event) → MiptpServer → Option (List (List ℕ) × Outcome × MiptpServer)
run [] server = some ([], running, server)
run ((world, events) ∷ rounds) server = elim (round world events server) [
  | none ↦ none
  | some (sent, failed, server') ↦ some (sent, failed, server')
  | some (sent, stopped, server') ↦ some (sent, stopped, server')
  | some (sent, running, server') ↦ elim (run rounds server') [
    | none ↦ none
    | some (sent', outcome, server'') ↦ some (sent ++ sent', outcome, server'')
  ]
]
