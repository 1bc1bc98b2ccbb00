-- ===== src/Mipd/Server/Sockets.antt =====
-- mipd/src/lib/app_connection.c: how the daemon opens the sockets that applications and the routing
-- daemon connect to.
use network_course_uio.Prelude.{
  ℕ, ◌<◌, ◌≡◌, refl, Bool, true, false, Option, none, some, List, [], ◌∷◌, ◌++◌, length, replicate,
  ltb, pos, eq_int, minus_one, if◌then◌else◌, arith,
}
use network_course_uio.Commons.DomainSocket.{
  Call, close, unlink, bind, listen, Kernel, sun_path_size, strnlen, strncpy, create_domain_socket,
}
use network_course_uio.Commons.DomainSocket.Names.{
  IsText, name_of, strnlen-text, strnlen-long, strncpy-name_of,
}
use network_course_uio.Prelude.{◌≤◌, ◌⊎◌, inl, inr, Bool-cases, ltb→lt, take, length-append}
use network_course_uio.Mipd.Server.{LocalSocket}
use Prim.Native.Nat.{min}

-- `LocalSocket_destroy` of a socket with the address
unfoldable pub destroy : LocalSocket → (sun_path : List ℕ) → List Call
destroy s so_name = close s.listening_socket_fd ∷ close s.connected_socket_fd ∷ unlink so_name ∷ []

-- `LocalSocket_create` after the test of the length
unfoldable pub open_at :
    Kernel → (stream : Bool) → (path : List ℕ) → Option (Option (LocalSocket × List ℕ) × List Call)
open_at kernel stream path = elim (strncpy path 107) [
  | none ↦ none
  | some name ↦
      let so_name = name ++ 0 ∷ [] in
      let made : LocalSocket = record {
        listening_socket_fd = kernel.socket;
        connected_socket_fd = minus_one;
      } in
      let bound = create_domain_socket kernel ++ unlink so_name ∷ bind kernel.socket so_name ∷ [] in
      some (
        if kernel.binds kernel.socket so_name
        then if stream
          then if kernel.listens
            then (some (made, so_name), bound ++ listen kernel.socket ∷ [])
            else (none, bound ++ listen kernel.socket ∷ destroy made so_name)
          else (some (made, so_name), bound)
        else (none, bound ++ destroy made so_name))
]

-- `LocalSocket_create`, with the address of the socket in its result; `stream` is whether its type is
-- SOCK_STREAM. The fields are 0 where `calloc` left them.
unfoldable pub create :
    Kernel → (stream : Bool) → (path : List ℕ) → Option (Option (LocalSocket × List ℕ) × List Call)
create kernel stream path = elim (strnlen path 255) [
  | none ↦ none
  | some path_len ↦
      if ltb sun_path_size path_len
      then some (
        none,
        destroy (record { listening_socket_fd = pos 0; connected_socket_fd = minus_one })
            (replicate sun_path_size 0),
      )
      else open_at kernel stream path
]

short_enough : (n : ℕ) → ltb sun_path_size n ≡ false → n ≤ 108
short_enough n h = ground (arith, h)

path_len :
    (text rest : List ℕ)
    → IsText text
    → (n : ℕ) × (strnlen (text ++ 0 ∷ rest) 255 ≡ some n) × (n ≡ min 255 (length text))
path_len text rest t = elim (Bool-cases (ltb 255 (length text))) [
  | inl long ↦
      let more = ltb→lt 255 (length text) long in
      (255, strnlen-long text (0 ∷ rest) 255 t (omega (arith, more)), omega (arith, more))
  | inr fits ↦
      let most : length text ≤ 255 = ground (arith, fits) in
      (length text, strnlen-text text rest 255 t most, omega (arith, most))
]

-- `LocalSocket_create` of a path of the command line, which a 0 ends, where the system makes a
-- descriptor, binds it and listens, binds and listens at an address whose name is the first 107 bytes
-- of the path, if the path has 108 bytes at most: one of 108 bytes is cut off. A longer path is refused,
-- and what is closed then is the descriptor 0, which was not opened here.
pub create_lem :
    (kernel : Kernel) (text rest : List ℕ)
    → IsText text
    → eq_int kernel.socket minus_one ≡ false
    → ((a : List ℕ) → kernel.binds kernel.socket a ≡ true)
    → kernel.listens ≡ true
    → ((length text ≤ 108)
        × (so_name : List ℕ) × (name_of so_name ≡ take 107 text)
        × (length so_name ≡ 108)
        × (create kernel true (text ++ 0 ∷ rest)
            ≡ some (
              some (
                record { listening_socket_fd = kernel.socket; connected_socket_fd = minus_one },
                so_name,
              ),
              unlink so_name ∷ bind kernel.socket so_name ∷ listen kernel.socket ∷ [],
            )))
      ⊎ ((108 < length text)
          × (create kernel true (text ++ 0 ∷ rest)
              ≡ some (none, close (pos 0) ∷ close minus_one ∷ unlink (replicate 108 0) ∷ [])))
unfolding create open_at create_domain_socket destroy
create_lem kernel text rest t made binds listens =
    let (n, size, whole) = path_len text rest t in
    elim (Bool-cases (ltb sun_path_size n)) [
      | inl long ↦ inr (omega (arith, ltb→lt 108 n long, whole), rw (size, create) (rw long refl))
      | inr fits ↦
          let (path, copied, named, count, _) = strncpy-name_of text rest t in
          inl (
            omega (arith, short_enough n fits, whole),
            path ++ 0 ∷ [],
            named,
            omega (arith, length-append path (0 ∷ []), count),
            rw (size, create)
                (rw fits
                  (rw (copied, open_at) (rw (made, binds, listens, create_domain_socket) refl))),
          )
    ]
