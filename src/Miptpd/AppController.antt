-- ===== src/Miptpd/AppController.antt =====
-- miptpd/src/lib/miptp_app_controller.{h,c}: the connections of the transport daemon.
pub mod Sending
pub mod Outgoing
pub mod Completes
pub mod Making
pub mod Requests
pub mod Opening
pub mod Sockets
pub mod Reachable
mod Tests
use network_course_uio.Prelude.{
  ℕ, suc, ◌+◌, Bool, true, false, ◌||◌, Option, none, some, List, [], ◌∷◌, ◌++◌, ◌==◌,
  if◌then◌else◌, ℤ, pos, negsuc, minus_one, eq_int, take, replicate, length,
}
use network_course_uio.Commons.MipdMessage.{MipdMessage}
use network_course_uio.Commons.MipdMessage
use network_course_uio.Commons.ClientPackage.{ClientPackage}
use network_course_uio.Commons.ClientPackage
use network_course_uio.Commons.Queue.{waiting}
use network_course_uio.Miptpd.MiptpPackage.{MiptpPackage}
use network_course_uio.Miptpd.MiptpPackage
use network_course_uio.Miptpd.AppConnection.{
  AppConnection, connection_type, create_not_ready, next_packages, receive_package,
}
use network_course_uio.Miptpd.AppConnection

-- `struct MIPTPAppController`
pub record AppController : Type 0 where
  pub connections : List AppConnection
  pub max_connections : ℕ
  pub timeout : ℕ
  pub mipd_socket : ℤ

-- `MIPTPAppController_create`; the timeout is never set.
unfoldable pub create : (mipd_socket : ℤ) (max_connections : ℕ) → AppController
create mipd_socket max_connections = record {
  connections = [];
  max_connections = max_connections;
  timeout = 0;
  mipd_socket = mipd_socket;
}

-- What a call does: none for an access without defined behaviour, and otherwise the return code, what
-- was sent, and the controller.
abbrev pub Turn : Type 0
Turn = Option (ℤ × List (List ℕ) × AppController)

-- The loop of `MIPTPAppController_handle_app_package`: the first connection with the socket gives way
-- to one for the package, at the end of the list. The inner none is a connection that cannot be made.
unfoldable pub complete_connection :
    (now timeout : ℕ) (socket : ℤ)
    → ClientPackage
    → List AppConnection
    → Option (Option (List AppConnection))
complete_connection now timeout socket p [] = some (some [])
complete_connection now timeout socket p (c ∷ rest) = elim (eq_int c.socket socket) [
  | true ↦
      elim (AppConnection.create now (connection_type p.client_type) socket p.port p.destination
        p.bytes p.data_size timeout) [
          | none ↦ none
          | some none ↦ some none
          | some (some new) ↦ some (some (rest ++ new ∷ []))
        ]
  | false ↦ elim (complete_connection now timeout socket p rest) [
    | none ↦ none
    | some none ↦ some none
    | some (some rest') ↦ some (some (c ∷ rest'))
  ]
]

-- `MIPTPAppController_handle_app_package`
unfoldable pub handle_app_package :
    (now : ℕ) → AppController → (socket : ℤ) → (s_package : List ℕ) → Option (ℤ × AppController)
handle_app_package now controller socket s_package = elim (ClientPackage.deserialize s_package) [
  | none ↦ none
  | some none ↦ some (minus_one, controller)
  | some (some p) ↦
      if (p.port == 0) || (p.destination == 0)
      then some (minus_one, controller)
      else elim (complete_connection now controller.timeout socket p controller.connections) [
        | none ↦ none
        | some none ↦ some (minus_one, controller)
        | some (some connections) ↦ some (pos 1, record controller { connections = connections })
      ]
]

-- The loop of `MIPTPAppController_handle_mipd_package`, which stops at the first failure
unfoldable pub receive_all :
    (sender : ℕ) → MiptpPackage → List AppConnection → Option (ℤ × List AppConnection)
receive_all sender p [] = some (pos 1, [])
receive_all sender p (c ∷ rest) =
    elim (if c.port == p.miptp_header.port then receive_package c sender p else some (pos 1, c)) [
      | none ↦ none
      | some (rc, c') ↦ elim (eq_int rc minus_one) [
        | true ↦ some (minus_one, c' ∷ rest)
        | false ↦ elim (receive_all sender p rest) [
          | none ↦ none
          | some (rc', rest') ↦ some (rc', c' ∷ rest')
        ]
      ]
    ]

-- `MIPTPAppController_handle_mipd_package`, for pointers that are not null
unfoldable pub handle_mipd_package : AppController → MipdMessage → Option (ℤ × AppController)
handle_mipd_package controller message =
    elim (MiptpPackage.deserialize message.bytes message.data_size) [
      | none ↦ none
      | some p ↦ elim (receive_all message.mip_address p controller.connections) [
        | none ↦ none
        | some (rc, connections) ↦ some (rc, record controller { connections = connections })
      ]
    ]

-- `MIPTPAppController_handle_connection`, where `accepted` is the new socket, or -1 if there is none or
-- it cannot be polled
unfoldable pub handle_connection :
    (now : ℕ) → AppController → (accepted : ℤ) → Option (ℤ × AppController)
handle_connection now controller accepted =
    if eq_int accepted minus_one
    then some (minus_one, controller)
    else elim (create_not_ready now accepted) [
      | none ↦ none
      | some none ↦ some (minus_one, controller)
      | some (some connection) ↦
          some (
            accepted,
            record controller { connections = controller.connections ++ connection ∷ [] },
          )
    ]

abbrev pub has_socket : ℤ → List AppConnection → Bool
has_socket socket [] = false
has_socket socket (c ∷ rest) = eq_int c.socket socket || has_socket socket rest

-- `MIPTPAppController_is_a_connection`
unfoldable pub is_a_connection : AppController → (socket : ℤ) → ℤ
is_a_connection controller (negsuc n) = minus_one
is_a_connection controller (pos n) =
    if has_socket (pos n) controller.connections then pos 1 else pos 0

-- The loop of `MIPTPAppController_disconnect`
unfoldable pub without_socket : ℤ → List AppConnection → ℤ × List AppConnection
without_socket socket [] = (pos 0, [])
without_socket socket (c ∷ rest) = elim (eq_int c.socket socket) [
  | true ↦ (pos 1, rest)
  | false ↦ let (rc, rest') = without_socket socket rest in (rc, c ∷ rest')
]

-- `MIPTPAppController_disconnect`
unfoldable pub disconnect : AppController → (socket : ℤ) → ℤ × AppController
disconnect controller socket =
    let (rc, connections) = without_socket socket controller.connections in
    (rc, record controller { connections = connections })

-- What a call finds on its stack and on the socket: the buffers before they are written, and whether
-- the sends from now on succeed
pub record World : Type 0 where
  pub p_buffer : List ℕ
  pub m_buffer : List ℕ
  pub sends : ℕ → Bool

-- `MIPTPAppController_send_MIPDMessage`: what it sends, or the inner none for -1. The size is a word of
-- 16 bits, which never is -1.
unfoldable pub send_mipd_message : World → (i : ℕ) → MipdMessage → Option (Option (List ℕ))
send_mipd_message world i message = elim (MipdMessage.serialize world.m_buffer message) [
  | none ↦ none
  | some (negsuc n, written) ↦ none
  | some (pos size, written) ↦ some (if world.sends i then some (take size written) else none)
]

-- `MIPTPAppController_send_ClientPackage`, for a package that is `NULL` if it is none
unfoldable pub send_client_package :
    World → (i : ℕ) → Option ClientPackage → Option (Option (List ℕ))
send_client_package world i none = some none
send_client_package world i (some p) =
    elim (ClientPackage.serialize (replicate (24 + p.data_size) 0) p) [
      | none ↦ none
      | some (size, written) ↦ some (if world.sends i then some (take size written) else none)
    ]

-- The body of the loop over the packages of `MIPTPAppController_handle_outgoing`
unfoldable pub send_package :
    World → (i : ℕ) → (destination : ℕ) → MiptpPackage → Option (Option (List ℕ))
send_package world i destination p = elim (MiptpPackage.serialize world.p_buffer p) [
  | none ↦ none
  | some (size, written) ↦ elim (MipdMessage.create destination size written) [
    | none ↦ none
    | some none ↦ some none
    | some (some message) ↦ send_mipd_message world i message
  ]
]

-- That loop, from the `i`-th send on: the return code and what was sent
unfoldable pub send_packages :
    World → (i : ℕ) → (destination : ℕ) → List MiptpPackage → Option (ℤ × List (List ℕ))
send_packages world i destination [] = some (pos 1, [])
send_packages world i destination (p ∷ rest) = elim (send_package world i destination p) [
  | none ↦ none
  | some none ↦ some (minus_one, [])
  | some (some bytes) ↦ elim (send_packages world (suc i) destination rest) [
    | none ↦ none
    | some (rc, sent) ↦ some (rc, bytes ∷ sent)
  ]
]

-- The loop over the connections of `MIPTPAppController_handle_outgoing`, from the `i`-th send on
unfoldable pub send_all :
    World → (i : ℕ) → List AppConnection → Option (ℤ × List (List ℕ) × List AppConnection)
send_all world i [] = some (pos 1, [], [])
send_all world i (c ∷ rest) = elim (next_packages c) [
  | none ↦ none
  | some (none, c') ↦ some (minus_one, [], c' ∷ rest)
  | some (some packages, c') ↦ elim (send_packages world i c.connected_mip (waiting packages)) [
    | none ↦ none
    | some (rc, sent) ↦ elim (eq_int rc minus_one) [
      | true ↦ some (minus_one, sent, c' ∷ rest)
      | false ↦ elim (send_all world (i + length sent) rest) [
        | none ↦ none
        | some (rc', sent', rest') ↦ some (rc', sent ++ sent', c' ∷ rest')
      ]
    ]
  ]
]

-- `MIPTPAppController_handle_outgoing`
unfoldable pub handle_outgoing : World → AppController → Turn
handle_outgoing world controller = elim (send_all world 0 controller.connections) [
  | none ↦ none
  | some (rc, sent, connections) ↦ some (rc, sent, record controller { connections = connections })
]
