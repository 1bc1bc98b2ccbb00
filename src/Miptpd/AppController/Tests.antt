-- ===== src/Miptpd/AppController/Tests.antt =====
-- Runs of the transport daemon with one waiting connection, and of its list of connections.
use network_course_uio.Prelude.{
  ℕ, zero, suc, get_or, ◌≤◌, ◌<◌, ◌≡◌, refl, true, false, none, some, List, [], ◌∷◌, ◌++◌, arith, ℤ,
  pos, minus_one, replicate, ◌==◌, if◌then◌else◌, eq_int,
}
use network_course_uio.Commons.MipdMessage.Roundtrip.{message_bytes}
use network_course_uio.Commons.ClientPackage.{ClientPackage, get_data_size}
use network_course_uio.Commons.ClientPackage
use network_course_uio.Commons.ClientPackage.Roundtrip.{IsPackage, serialized_bytes}
use network_course_uio.Commons.LinkedList.{Ptr, null, LinkedList, Heap}
use network_course_uio.Commons.LinkedList.Chain.{Cells}
use network_course_uio.Miptpd.SendJob.Small.{package_for}
use network_course_uio.Miptpd.AppConnection.{
  AppConnection, conn_not_ready, conn_complete, create, create_not_ready,
}
use network_course_uio.Miptpd.AppController.{
  AppController, World, handle_app_package, handle_connection, disconnect, without_socket,
  handle_outgoing,
}
use network_course_uio.Miptpd.AppController.Sending.{IsWorld, message_of}
use network_course_uio.Miptpd.AppController.Outgoing.{waits}
use network_course_uio.Miptpd.AppController.Opening.{
  handle_app_package_receiver, handle_outgoing-handle_app_package,
}
use network_course_uio.Miptpd.AppController.Sockets.{sockets, Distinct}
use network_course_uio.Miptpd.AppController.Reachable.{
  ◌⟶*◌, connects, requests, leaves, here, further, steps-Distinct,
}
use network_course_uio.Miptpd.MiptpServer.{MiptpServer, Event, Outcome, run}
use network_course_uio.Miptpd.MiptpServer.Total.{Sound, IsQuiet, run-Sound}

abbrev world : World
world = record { p_buffer = replicate 1496 0; m_buffer = replicate 1500 0; sends = λ i. true }

world-IsWorld : IsWorld world
world-IsWorld = record { p_room = refl; m_room = refl }

abbrev waiting_on : ℤ → AppConnection
waiting_on socket = record {
  port = 16383;
  socket = socket;
  connected_mip = 0;
  status = conn_not_ready;
  s_job = none;
  r_job = none;
}

abbrev controller : AppController
controller = record {
  connections = waiting_on (pos 5) ∷ waiting_on (pos 6) ∷ [];
  max_connections = 10;
  timeout = 0;
  mipd_socket = pos 3;
}

abbrev request : (client_type : ℕ) → ClientPackage
request client_type = record {
  port = 700;
  destination = 20;
  client_type = client_type;
  data_size = 2;
  bytes = 8 ∷ 9 ∷ [];
}

request-IsPackage : (client_type : ℕ) → client_type < 3 → IsPackage (request client_type)
request-IsPackage client_type small = record {
  stored = refl;
  port_fits = omega arith;
  type_fits = omega (arith, small);
  size_fits = omega arith;
}

handle_outgoing-handle_app_package_example :
    (after : AppController) × (handle_app_package 0 controller
        (pos 6)
        (serialized_bytes (request 1) ++ replicate 9 0)
      ≡ some (pos 1, after))
    × (handle_outgoing world after
        ≡ some (pos 1, message_bytes (message_of 20 (package_for 700 (8 ∷ 9 ∷ []) 2)) ∷ [], after))
handle_outgoing-handle_app_package_example =
    handle_outgoing-handle_app_package 0 controller (pos 6) (request 1) (replicate 9 0)
      (request-IsPackage 1 (omega arith)) (omega arith) (omega arith) (waiting_on (pos 5) ∷ [])
      (waiting_on (pos 6)) [] refl refl refl world refl (omega arith) world-IsWorld (λ k. refl)
      (waits, tt) tt

handle_app_package_receiver_example :
    handle_app_package 0 controller (pos 6) (serialized_bytes (request 2) ++ replicate 9 0)
    ≡ some (minus_one, controller)
handle_app_package_receiver_example =
    handle_app_package_receiver 0 controller (pos 6) (request 2) (replicate 9 0)
      (request-IsPackage 2 (omega arith)) (omega arith) (omega arith) (waiting_on (pos 5) ∷ [])
      (waiting_on (pos 6)) [] refl refl refl refl

-- A list of a waiting and a complete connection, at the addresses 7 and 8
abbrev nodes : Heap
nodes a =
    if a == 10
    then some (record { next = 20; prev = null; value = 7 })
    else if a == 20
    then some (record { next = null; prev = 10; value = 8 })
    else none

abbrev connection_at : Ptr → AppConnection
connection_at p =
    if p == 8 then record (waiting_on (pos 6)) { status = conn_complete } else waiting_on (pos 5)

abbrev list : LinkedList
list = record { count = 2; first = 10; last = 20 }

abbrev cells : Cells
cells = (10, 7) ∷ (20, 8) ∷ []

abbrev server : MiptpServer
server = record { mipd_fd = pos 3; app_connections_fd = pos 4; app_controller = controller }

-- A new connection, and then the end of one
abbrev events : List Event
events =
    record { fd = pos 4; accepted = pos 7; bytes = some []; now = 0 }
    ∷ record { fd = pos 5; accepted = minus_one; bytes = some []; now = 0 }
    ∷ []

get_or-replicate : (n i : ℕ) → get_or {A = ℕ} (replicate n 0) i 0 ≡ 0
get_or-replicate zero i = refl
get_or-replicate (suc n) zero = refl
get_or-replicate (suc n) (suc i) = get_or-replicate n i

-- A zeroed buffer asks for no data.
zeroed : (n : ℕ) → get_data_size (replicate n 0) ≤ 1490
unfolding get_data_size
zeroed n = omega (arith, get_or-replicate n 7, get_or-replicate n 8)

event-IsQuiet :
    (fd accepted : ℤ)
    → eq_int fd (pos 3) ≡ false
    → IsQuiet (pos 3) (record { fd = fd; accepted = accepted; bytes = some []; now = 0 })
event-IsQuiet fd accepted other = record { mipd = λ h. refl; small = zeroed 65535 }

run-Sound_example :
    (r : List (List ℕ) × Outcome × MiptpServer) × (run ((world, events) ∷ []) server ≡ some r)
    × Sound (r.2)
    × ((r.2).mipd_fd ≡ pos 3)
run-Sound_example =
    run-Sound ((world, events) ∷ []) server
      (
        (
          world-IsWorld,
          (event-IsQuiet (pos 4) (pos 7) refl, (event-IsQuiet (pos 5) minus_one refl, tt)),
        ),
        tt,
      )
      (waits, (waits, tt))

-- A connection is made, a request without a port is refused, and a connection is closed.
abbrev before : AppController
before = record controller {
  connections = waiting_on (pos 5) ∷ waiting_on (pos 6) ∷ waiting_on (pos 7) ∷ [];
}

abbrev later : AppController
later = record controller { connections = waiting_on (pos 6) ∷ waiting_on (pos 7) ∷ [] }

connected : handle_connection 0 controller (pos 7) ≡ some (pos 7, before)
unfolding handle_connection create_not_ready create
connected = refl

refused : handle_app_package 0 before (pos 6) (replicate 24 0) ≡ some (minus_one, before)
unfolding handle_app_package ClientPackage.deserialize ClientPackage.get_data
    network_course_uio.Prelude.Bytes.copy_out get_data_size ClientPackage.create
    ClientPackage.get_port
refused = refl

controller-⟶*-later : controller ⟶* later
unfolding disconnect without_socket
controller-⟶*-later = further (connects 0 (pos 7) (pos 7) refl connected) (
    further (requests 0 (pos 6) minus_one (replicate 24 0) refused)
      (further (leaves (pos 5) (pos 1) refl) here))

steps-Distinct_example : Distinct (sockets later.connections)
steps-Distinct_example = steps-Distinct controller-⟶*-later (refl, (refl, tt))
