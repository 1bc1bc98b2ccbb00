-- ===== src/Commons/BoundSocket.antt =====
-- commons/src/bound_socket.c: the socket that a daemon listens on, named by a path.
use network_course_uio.Prelude.{
  ℕ, ◌<◌, ◌≡◌, refl, true, false, Option, none, some, List, [], ◌∷◌, ◌++◌, length, ℤ, pos, eq_int,
  minus_one, if◌then◌else◌, arith,
}
use network_course_uio.Prelude.Bytes.{copy_out, copy_out_lem}
use network_course_uio.Commons.DomainSocket.{
  Call, close, unlink, bind, listen, Kernel, strnlen, strncpy, create_domain_socket,
  connect_to_domain_socket,
}
use network_course_uio.Commons.DomainSocket
use network_course_uio.Commons.DomainSocket.Names.{IsText, name_of, strnlen-text, strncpy-name_of}

-- `struct BoundSocket`; `so_name` is the path in its address.
pub record BoundSocket : Type 0 where
  pub file_path : List ℕ
  pub socket_fd : ℤ
  pub so_name : List ℕ

-- `BoundSocket_create`
unfoldable pub create : (file_path : List ℕ) → Option BoundSocket
create file_path = elim (strnlen file_path 256) [
  | none ↦ none
  | some n ↦ elim (copy_out 0 n file_path) [
    | none ↦ none
    | some copy ↦ elim (strncpy file_path 107) [
      | none ↦ none
      | some name ↦
          some (record { file_path = copy; socket_fd = minus_one; so_name = name ++ 0 ∷ [] })
    ]
  ]
]

-- `BoundSocket_connect`
unfoldable pub connect : Kernel → BoundSocket → ℤ × BoundSocket × List Call
connect kernel b_socket =
    let opened = record b_socket { socket_fd = kernel.socket } in
    let made = unlink b_socket.so_name ∷ create_domain_socket kernel in
    let bound = made ++ bind kernel.socket b_socket.so_name ∷ [] in
    if eq_int kernel.socket minus_one
    then (minus_one, opened, made)
    else if kernel.binds kernel.socket b_socket.so_name
    then (if kernel.listens then pos 1 else minus_one, opened, bound ++ listen kernel.socket ∷ [])
    else (minus_one, opened, bound)

-- `BoundSocket_destroy`
unfoldable pub destroy : BoundSocket → List Call
destroy b_socket = unlink b_socket.so_name ∷ close b_socket.socket_fd ∷ []

-- A daemon that creates a bound socket from a path of fewer than 107 bytes and connects it listens,
-- where the system lets it, at an address of that name, which is the name that an application asks for
-- when it connects by the same path.
pub connect-create :
    (daemon client : Kernel) (last : ℕ) (text rest rest' : List ℕ)
    → IsText text
    → length text < 107
    → eq_int daemon.socket minus_one ≡ false
    → eq_int client.socket minus_one ≡ false
    → ((a : List ℕ) → daemon.binds daemon.socket a ≡ true)
    → daemon.listens ≡ true
    → (b : BoundSocket) × (asked : List ℕ) × (create (text ++ 0 ∷ rest) ≡ some b)
      × (connect daemon b ≡ (
        pos 1,
        record b { socket_fd = daemon.socket },
        unlink b.so_name ∷ bind daemon.socket b.so_name ∷ listen daemon.socket ∷ [],
      ))
      × (connect_to_domain_socket client last (text ++ 0 ∷ rest')
          ≡ some (
            if client.connects client.socket asked then client.socket else minus_one,
            DomainSocket.connect client.socket asked ∷ [],
          ))
      × (name_of b.so_name ≡ text)
      × (name_of asked ≡ text)
unfolding create connect connect_to_domain_socket create_domain_socket
connect-create daemon client last text rest rest' t short made opened binds listens =
    let (bound, copied, _, _, named) = strncpy-name_of text rest t in
    let (asked, copied', _, _, named') = strncpy-name_of text rest' t in
    let b : BoundSocket = record {
      file_path = text;
      socket_fd = minus_one;
      so_name = bound ++ 0 ∷ [];
    } in
    (
      b,
      asked ++ last ∷ [],
      rw (strnlen-text text rest 256 t (omega (arith, short)), create)
          (rw (copy_out_lem [] text (0 ∷ rest)) (rw copied refl)),
      rw (made, connect, create_domain_socket) (rw (binds, listens) refl),
      rw (opened, connect_to_domain_socket) (rw copied' (rw (opened, create_domain_socket) refl)),
      named 0 short,
      named' last short,
    )
