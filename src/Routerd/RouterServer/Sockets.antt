-- ===== src/Routerd/RouterServer/Sockets.antt =====
-- routerd/src/lib/router_server.c: the sockets of the routing daemon.
use network_course_uio.Prelude.{
  ℕ, ◌<◌, ◌≡◌, refl, false, Option, none, some, List, [], ◌∷◌, ◌++◌, length, ℤ, pos, eq_int,
  minus_one, if◌then◌else◌,
}
use network_course_uio.Prelude.Bytes.{copy_out, copy_out_lem}
use network_course_uio.Commons.DomainSocket.{Call, Kernel, strlen, connect_to_domain_socket}
use network_course_uio.Prelude.{Bool, true, if◌then◌else◌, map}
use network_course_uio.Routerd.CommandLine.{
  RouterdConfig, parse_args, parse_args_lem, is_option, address_of,
}
use network_course_uio.Commons.DomainSocket.Names.{
  strlen-behind, IsText, strlen-text, strncpy-behind,
}

-- The sockets of `RouterServer`
pub record Sockets : Type 0 where
  pub epoll_fd : ℤ
  pub routing_fd : ℤ
  pub routing_domain_sock : List ℕ
  pub forward_fd : ℤ
  pub forward_domain_sock : List ℕ

-- `calloc(1, strlen(text))` and the `memcpy` of as many bytes: the object that they make
unfoldable pub copy_name : (text : List ℕ) → Option (List ℕ)
copy_name text = elim (strlen text) [ none ↦ none | some n ↦ copy_out 0 n text ]

-- The sockets that `RouterServer_create` makes from the names in the configuration
unfoldable pub create_sockets : (routing_socket forwarding_socket : List ℕ) → Option Sockets
create_sockets routing_socket forwarding_socket = elim (copy_name routing_socket) [
  | none ↦ none
  | some routing ↦ elim (copy_name forwarding_socket) [
    | none ↦ none
    | some forwarding ↦ some (record {
      epoll_fd = minus_one;
      routing_fd = minus_one;
      routing_domain_sock = routing;
      forward_fd = minus_one;
      forward_domain_sock = forwarding;
    })
  ]
]

-- `RouterServer_init`, for each socket with what the system returns and the byte of its address that is
-- not written; `epoll` is what `setup_epoll` returns.
unfoldable pub init :
    (first second : Kernel × ℕ) → (epoll : ℤ) → Sockets → Option (ℤ × Sockets × List Call)
init first second epoll s = elim (connect_to_domain_socket first.0 first.1 s.routing_domain_sock) [
  | none ↦ none
  | some (routing, calls) ↦
      if eq_int routing minus_one
      then some (minus_one, record s { routing_fd = routing }, calls)
      else elim (connect_to_domain_socket second.0 second.1 s.forward_domain_sock) [
        | none ↦ none
        | some (forward, more) ↦ some (
            if eq_int forward minus_one
            then (minus_one, record s { routing_fd = routing; forward_fd = forward }, calls ++ more)
            else (
              if eq_int epoll minus_one then minus_one else pos 1,
              record s { routing_fd = routing; forward_fd = forward; epoll_fd = epoll },
              calls ++ more,
            ))
      ]
]

copy_name-text : (text rest : List ℕ) → IsText text → copy_name (text ++ 0 ∷ rest) ≡ some text
unfolding copy_name
copy_name-text text rest t =
    rw (strlen-text text rest t, copy_name) (copy_out_lem [] text (0 ∷ rest))

-- Of names that are ended by a 0, that of the routing socket of fewer than 107 bytes,
-- `RouterServer_create` makes copies without it, and `RouterServer_init` reads behind the first, if a
-- descriptor can be made.
init-create_sockets :
    (first second : Kernel × ℕ) (epoll : ℤ) (routing forwarding rest rest' : List ℕ)
    → IsText routing
    → IsText forwarding
    → length routing < 107
    → eq_int first.0.socket minus_one ≡ false
    → (s : Sockets) × (create_sockets (routing ++ 0 ∷ rest) (forwarding ++ 0 ∷ rest') ≡ some s)
      × (init first second epoll s ≡ none)
unfolding create_sockets init connect_to_domain_socket
init-create_sockets first second epoll routing forwarding rest rest' t t' short made =
    let s : Sockets = record {
      epoll_fd = minus_one;
      routing_fd = minus_one;
      routing_domain_sock = routing;
      forward_fd = minus_one;
      forward_domain_sock = forwarding;
    } in
    (
      s,
      rw (copy_name-text routing rest t, create_sockets)
          (rw (copy_name-text forwarding rest' t') refl),
      rw (made, init, connect_to_domain_socket) (rw (strncpy-behind routing 107 t short) refl),
    )

-- For every command line of the routing daemon with 1 to 253 addresses, `-d` in front or not, and a path
-- of the routing socket that is no option and has fewer than 107 bytes, that path has no 0 at its end in
-- the configuration, and `RouterServer_create` reads behind it. Even if a 0 stood there,
-- `RouterServer_init` would read behind the copy that `RouterServer_create` makes, where a descriptor
-- can be made.
pub create_sockets-parse_args :
    (scan : List ℕ → Option ℕ) (debug : Bool) (option routing forwarding address : List ℕ)
    (addresses : List (List ℕ)) (first second : Kernel × ℕ) (epoll : ℤ)
    → is_option 100 option ≡ true
    → is_option 104 routing ≡ false
    → is_option 100 routing ≡ false
    → length addresses < 253
    → IsText routing
    → IsText forwarding
    → length routing < 107
    → eq_int first.0.socket minus_one ≡ false
    → (config : RouterdConfig) × (parse_args scan
          ((if debug then option ∷ [] else []) ++ routing ∷ forwarding ∷ address ∷ addresses)
        ≡ some (some config))
      × (create_sockets config.routing_socket config.forwarding_socket ≡ none)
      × ((rest : List ℕ)
          → (s : Sockets) × (create_sockets
                (config.routing_socket ++ 0 ∷ rest)
                config.forwarding_socket
              ≡ some s)
            × (init first second epoll s ≡ none))
unfolding create_sockets copy_name
create_sockets-parse_args scan debug option routing forwarding address addresses first second epoll
      is_debug no_help no_debug few t t' short made =
    (
      record {
        routing_socket = routing;
        forwarding_socket = forwarding ++ 0 ∷ [];
        mip_addresses = map (address_of scan) (address ∷ addresses);
        debug_active = debug;
        broadcast_freq = 2000;
      },
      parse_args_lem scan debug option routing forwarding address addresses is_debug no_help
          no_debug few,
      rw (strlen-behind routing t, create_sockets, copy_name) refl,
      λ rest. init-create_sockets first second epoll routing forwarding rest [] t t' short made,
    )
