-- ===== src/Miptpd/MiptpServer/Total.antt =====
-- miptpd/src/lib/miptp_server.c: when the event loop has defined behaviour.
use network_course_uio.Prelude.{
  ℕ, zero, ◌≤◌, ◌-◌, ◌≡◌, ◌∙◌, refl, sym, subst, Bool, true, false, Option, none, some, List, [],
  ◌∷◌, ◌++◌, All, All-append, arith, ℤ, pos, minus_one, eq_int, if◌then◌else◌, inl, inr, Bool-cases,
  length, take, replicate, length-take, length-append, length-replicate,
}
use network_course_uio.Commons.ClientPackage.{get_data_size}
use network_course_uio.Miptpd.AppConnection.{AppConnection, conn_not_ready, create_not_ready}
use network_course_uio.Miptpd.AppConnection
use network_course_uio.Miptpd.AppController.{
  AppController, World, handle_connection, disconnect, without_socket, handle_outgoing,
  is_a_connection,
}
use network_course_uio.Miptpd.AppController.Sending.{IsWorld}
use network_course_uio.Miptpd.AppController.Outgoing.{IsConnection, waits, send_all_total}
use network_course_uio.Miptpd.AppController.Requests.{handle_app_package_total}
use network_course_uio.Miptpd.AppController.Making.{IsRequest}
use network_course_uio.Miptpd.MiptpServer.{
  MiptpServer, Event, Outcome, failed, running, stopped, filled, closed, is_stop, after,
  handle_event, handle_application_event, handle_events, round, run,
}

abbrev pub Sound : MiptpServer → Type 0
Sound server = All IsConnection server.app_controller.connections

-- The MIP daemon says nothing but that it is gone, and an application sends 1490 bytes of data at most.
pub record IsQuiet (mipd_fd : ℤ) (event : Event) : Type 0 where
  pub mipd : eq_int event.fd mipd_fd ≡ true → closed event.bytes ≡ true
  pub small : get_data_size (filled event.bytes) ≤ 1490

filled-IsRequest :
    (bytes : Option (List ℕ)) → get_data_size (filled bytes) ≤ 1490 → IsRequest (filled bytes)
filled-IsRequest none small = record { room = length-replicate 65535 zero; small = small }
filled-IsRequest (some bytes) small = record {
  room = omega (
    arith,
    length-append (take 65535 bytes) (replicate (65535 - length bytes) 0),
    length-take 65535 bytes,
    length-replicate (65535 - length bytes) zero,
  );
  small = small;
}

-- A connection that has just been accepted
abbrev fresh : ℤ → AppConnection
fresh socket = record {
  port = 16383;
  socket = socket;
  connected_mip = 0;
  status = conn_not_ready;
  s_job = none;
  r_job = none;
}

handle_connection_total :
    (now : ℕ) (controller : AppController) (accepted : ℤ)
    → All IsConnection controller.connections
    → (rc : ℤ) × (next : AppController) × (handle_connection now controller accepted
        ≡ some (rc, next))
      × All IsConnection next.connections
unfolding handle_connection create_not_ready AppConnection.create
handle_connection_total now controller accepted sound =
    elim (Bool-cases (eq_int accepted minus_one)) [
      | inl refused ↦ (minus_one, controller, rw refused refl, sound)
      | inr taken ↦ (
        accepted,
        record controller { connections = controller.connections ++ fresh accepted ∷ [] },
        rw taken refl,
        All-append IsConnection controller.connections (fresh accepted ∷ []) sound (waits, tt),
      )
    ]

disconnect_sound :
    (socket : ℤ) (cs : List AppConnection)
    → All IsConnection cs
    → All IsConnection (without_socket socket cs).1
unfolding without_socket
disconnect_sound socket [] sound = tt
disconnect_sound socket (c ∷ cs) sound = elim (Bool-cases (eq_int c.socket socket)) [
  | inl here ↦ rw (here, without_socket) sound.1
  | inr other ↦ rw (other, without_socket) (sound.0, disconnect_sound socket cs sound.1)
]

-- What a step of the loop leaves
abbrev Goes : {A : Type 0} → MiptpServer → Option A → (A → MiptpServer) → Type 0
Goes {A} server step next =
    (a : A) × (step ≡ some a) × Sound (next a) × ((next a).mipd_fd ≡ server.mipd_fd)

application_event_total :
    (now : ℕ) (fd : ℤ) (bytes : Option (List ℕ)) (server : MiptpServer)
    → IsRequest (filled bytes)
    → Sound server
    → Goes server (handle_application_event now fd bytes server) λ r. r.1
unfolding handle_application_event disconnect
application_event_total now fd (some []) server request sound =
    (_, refl, disconnect_sound fd server.app_controller.connections sound, refl)
application_event_total now fd none server request sound =
    let (rc, next, go, rest) =
      handle_app_package_total now server.app_controller fd (filled none) request sound in
    (after server (rc, next), rw (go, handle_application_event) refl, rest, refl)
application_event_total now fd (some (x ∷ bytes)) server request sound =
    let (rc, next, go, rest) =
      handle_app_package_total now server.app_controller fd (filled (some (x ∷ bytes))) request
        sound in
    (after server (rc, next), rw (go, handle_application_event) refl, rest, refl)

handle_event_total :
    (event : Event) (server : MiptpServer)
    → IsQuiet server.mipd_fd event
    → Sound server
    → Goes server (handle_event event server) λ r. r.1
unfolding handle_event
handle_event_total event server quiet sound = elim (Bool-cases (eq_int event.fd server.mipd_fd)) [
  | inl mipd ↦ ((stopped, server), rw (mipd, quiet.mipd mipd) refl, sound, refl)
  | inr a ↦ elim (Bool-cases (eq_int event.fd server.app_connections_fd)) [
    | inl connects ↦
        let (rc, next, go, rest) =
          handle_connection_total event.now server.app_controller event.accepted sound in
        (after server (rc, next), rw (a, connects) (rw go refl), rest, refl)
    | inr b ↦ elim (Bool-cases (eq_int (is_a_connection server.app_controller event.fd) (pos 0))) [
      | inr app ↦
          let (r, go, rest, same) =
            application_event_total event.now event.fd event.bytes server
              (filled-IsRequest event.bytes quiet.small) sound in
          (r, rw (a, b, app) go, rest, same)
      | inl c ↦ elim (Bool-cases (eq_int event.fd (pos 0))) [
        | inl stdin ↦ (
          (if is_stop (filled event.bytes) then stopped else running, server),
          rw (a, b) (rw c (rw stdin refl)),
          sound,
          refl,
        )
        | inr nothing ↦ ((running, server), rw (a, b) (rw c (rw nothing refl)), sound, refl)
      ]
    ]
  ]
]

handle_events_total :
    (events : List Event) (go_on : Bool) (server : MiptpServer)
    → All (IsQuiet server.mipd_fd) events
    → Sound server
    → Goes server (handle_events events go_on server) λ r. r.1
unfolding handle_events
handle_events_total [] go_on server quiet sound =
    ((if go_on then running else stopped, server), refl, sound, refl)
handle_events_total (event ∷ events) go_on server quiet sound =
    let ((outcome, next), go, next_sound, same) = handle_event_total event server quiet.0 sound in
    let rest_quiet = subst (λ fd. All (IsQuiet fd) events) (sym same) quiet.1 in
    then_events outcome next go next_sound same
      (λ on. handle_events_total events on next rest_quiet next_sound)
  where
    then_events :
        (outcome : Outcome) (next : MiptpServer)
        → handle_event event server ≡ some (outcome, next)
        → Sound next
        → next.mipd_fd ≡ server.mipd_fd
        → ((on : Bool) → Goes next (handle_events events on next) λ r. r.1)
        → Goes server (handle_events (event ∷ events) go_on server) λ r. r.1
    then_events failed next go next_sound same again =
        ((failed, next), rw (go, handle_events) refl, next_sound, same)
    then_events running next go next_sound same again =
        let (r, go', rest, same') = again go_on in
        (r, rw (go, handle_events) go', rest, same' ∙ same)
    then_events stopped next go next_sound same again =
        let (r, go', rest, same') = again false in
        (r, rw (go, handle_events) go', rest, same' ∙ same)

round-Goes :
    (world : World) (events : List Event) (server : MiptpServer)
    → IsWorld world
    → All (IsQuiet server.mipd_fd) events
    → Sound server
    → Goes server (round world events server) λ r. r.2
unfolding round handle_outgoing
round-Goes world events server room quiet sound =
    let (rc, sent, sends) = send_all_total world 0 server.app_controller.connections room sound in
    elim (Bool-cases (eq_int rc minus_one)) [
      | inl refused ↦ ((sent, failed, server), rw (sends, round) (rw refused refl), sound, refl)
      | inr taken ↦
          let ((outcome, next), go, rest, same) =
            handle_events_total events true server quiet sound in
          ((sent, outcome, next), rw (sends, round) (rw (taken, go) refl), rest, same)
    ]

-- What a round of the loop is given: buffers of their sizes, and quiet events
abbrev pub IsRound : (mipd_fd : ℤ) → World × List Event → Type 0
IsRound mipd_fd (world, events) = IsWorld world × All (IsQuiet mipd_fd) events

-- Where the pointers to connections are kept by the conversion to `int` and back that the result type
-- of `AppConnection_create` makes, and as long as the MIP daemon sends no message and no application
-- more than 1490 bytes of data, the event loop has defined behaviour, whatever the applications send, connect and disconnect and whatever the
-- socket of the MIP daemon refuses: every connection waits for a request or sends its data.
pub run-Sound :
    (rounds : List (World × List Event)) (server : MiptpServer)
    → All (IsRound server.mipd_fd) rounds
    → Sound server
    → Goes server (run rounds server) λ r. r.2
unfolding run
run-Sound [] server quiet sound = (([], running, server), refl, sound, refl)
run-Sound ((world, events) ∷ rounds) server quiet sound =
    let ((sent, outcome, next), go, next_sound, same) =
      round-Goes world events server quiet.0.0 quiet.0.1 sound in
    then_rounds sent outcome next go next_sound same
      (run-Sound rounds next (subst (λ fd. All (IsRound fd) rounds) (sym same) quiet.1) next_sound)
  where
    then_rounds :
        (sent : List (List ℕ)) (outcome : Outcome) (next : MiptpServer)
        → round world events server ≡ some (sent, outcome, next)
        → Sound next
        → next.mipd_fd ≡ server.mipd_fd
        → Goes next (run rounds next) (λ r. r.2)
        → Goes server (run ((world, events) ∷ rounds) server) λ r. r.2
    then_rounds sent failed next go next_sound same again =
        ((sent, failed, next), rw (go, run) refl, next_sound, same)
    then_rounds sent stopped next go next_sound same again =
        ((sent, stopped, next), rw (go, run) refl, next_sound, same)
    then_rounds sent running next go next_sound same again =
        let ((sent', outcome, last), go', rest, same') = again in
        ((sent ++ sent', outcome, last), rw (go, run) (rw go' refl), rest, same' ∙ same)
