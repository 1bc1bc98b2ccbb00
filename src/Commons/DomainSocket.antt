-- ===== src/Commons/DomainSocket.antt =====
-- commons/src/domain_socket.c, and the C strings that name its sockets. A string is read from the bytes
-- of the object that holds it, from the first on; none is a read behind the object. What the calls of
-- the system return is an argument, and the calls that are made are part of the result.
pub mod Names
use network_course_uio.Prelude.{
  ℕ, zero, suc, Bool, Option, none, some, List, [], ◌∷◌, ◌++◌, replicate, ◌==◌, ℤ, pos, eq_int,
  minus_one, if◌then◌else◌,
}

-- `strlen`
unfoldable pub strlen : List ℕ → Option ℕ
strlen [] = none
strlen (b ∷ bs) =
    if b == 0 then some 0 else elim (strlen bs) [ none ↦ none | some n ↦ some (suc n) ]

-- `strnlen`, which reads `max` bytes at most
unfoldable pub strnlen : List ℕ → (max : ℕ) → Option ℕ
strnlen object zero = some 0
strnlen [] (suc max) = none
strnlen (b ∷ bs) (suc max) =
    if b == 0 then some 0 else elim (strnlen bs max) [ none ↦ none | some n ↦ some (suc n) ]

-- The `n` bytes that `strncpy` writes: the string, cut off or filled up with zeros
unfoldable pub strncpy : List ℕ → (n : ℕ) → Option (List ℕ)
strncpy object zero = some []
strncpy [] (suc n) = none
strncpy (b ∷ bs) (suc n) =
    if b == 0
    then some (replicate (suc n) 0)
    else elim (strncpy bs n) [ none ↦ none | some rest ↦ some (b ∷ rest) ]

-- The calls of the system that name a descriptor or a file; an address is its `sun_path` of 108 bytes.
pub data Call : Type 0 where
  close : (fd : ℤ) → Call
  unlink : (sun_path : List ℕ) → Call
  bind : (fd : ℤ) → (sun_path : List ℕ) → Call
  listen : (fd : ℤ) → Call
  connect : (fd : ℤ) → (sun_path : List ℕ) → Call

-- What the calls return: `socket` a descriptor or -1, and whether the others succeed
pub record Kernel : Type 0 where
  pub socket : ℤ
  pub binds : (fd : ℤ) → (sun_path : List ℕ) → Bool
  pub listens : Bool
  pub connects : (fd : ℤ) → (sun_path : List ℕ) → Bool

abbrev pub sun_path_size : ℕ
sun_path_size = 108

-- `create_domain_socket`: what it calls; it returns what `socket` returns.
unfoldable pub create_domain_socket : Kernel → List Call
create_domain_socket kernel = if eq_int kernel.socket minus_one then close minus_one ∷ [] else []

-- `connect_to_domain_socket`, where `last` is the last byte of the address, which is not written. If
-- there is no socket it returns `rc`, which is 0 by then.
unfoldable pub connect_to_domain_socket :
    Kernel → (last : ℕ) → (socket_file : List ℕ) → Option (ℤ × List Call)
connect_to_domain_socket kernel last socket_file =
    if eq_int kernel.socket minus_one
    then some (pos 0, create_domain_socket kernel)
    else elim (strncpy socket_file 107) [
      | none ↦ none
      | some path ↦
          let so_name = path ++ last ∷ [] in
          some (
            if kernel.connects kernel.socket so_name then kernel.socket else minus_one,
            create_domain_socket kernel ++ connect kernel.socket so_name ∷ [],
          )
    ]
