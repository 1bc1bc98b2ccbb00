-- ===== src/Mipd/CommandLine.antt =====
-- mipd/src/main/cli.{h,c}: the command line of the MIP daemon. An argument is the list of its bytes,
-- without the 0 at its end.
use network_course_uio.Prelude.{
  ℕ, zero, suc, ◌+◌, ◌*◌, ◌<◌, ◌≤◌, ◌≡◌, refl, Bool, true, false, ◌&&◌, Option, none, some, List,
  [], ◌∷◌, ◌++◌, leb, ◌==◌, if◌then◌else◌, length, get_or, arith, ℤ, pos, minus_one, replicate,
  length-append, length-take, length-drop, length-replicate, take, drop, inl, inr, Bool-cases,
  leb→le, le→leb,
}
use network_course_uio.Prelude.Bytes.{u8, copy_in}

-- `struct UserConfig`; a string is the object that holds its bytes, and so are the addresses.
pub record UserConfig : Type 0 where
  pub is_debug : Bool
  pub app_socket : List ℕ
  pub route_socket : List ℕ
  pub forward_socket : List ℕ
  pub mip_addresses : List ℕ
  pub num_mip_addresses : ℕ

-- `atoi` is a parameter: the word of 32 bits that it gives.
module _ (atoi : List ℕ → ℕ) where
  -- The loop of `fetch_mip_addresses` from the slot `k` on. A slot is a pointer of eight bytes, as the
  -- parameter of the function is an array of pointers; none is a write behind the object.
  unfoldable pub store_addresses : (k : ℕ) → List (List ℕ) → (object : List ℕ) → Option (List ℕ)
  store_addresses k [] object = some object
  store_addresses k (argument ∷ rest) object =
      elim (copy_in (8 * k) (u8 (atoi argument) ∷ replicate 7 0) object) [
        | none ↦ none
        | some written ↦ store_addresses (suc k) rest written
      ]

  -- `fetch_mip_addresses`, for the arguments behind the offset: the return code and the object
  unfoldable pub fetch_mip_addresses :
      (arguments : List (List ℕ)) (object : List ℕ) (address_n : ℕ) → Option (ℤ × List ℕ)
  fetch_mip_addresses arguments object address_n =
      if leb (length arguments) address_n
      then elim (store_addresses 0 arguments object) [
        | none ↦ none
        | some written ↦ some (pos (length arguments), written)
      ]
      else some (minus_one, object)

  -- The paths and the addresses of `UserConfig_from_cli`; none is a read behind the arguments.
  unfoldable pub config_of :
      (is_debug : Bool) → List (List ℕ) → (n_interfaces : ℕ) → Option (Option UserConfig)
  config_of is_debug (app ∷ route ∷ forward ∷ addresses) n_interfaces =
      elim (fetch_mip_addresses addresses (replicate n_interfaces 0) n_interfaces) [
        | none ↦ none
        | some (pos n, written) ↦ some (
            some (record {
              is_debug = is_debug;
              app_socket = app ++ 0 ∷ [];
              route_socket = route ++ 0 ∷ [];
              forward_socket = forward ++ 0 ∷ [];
              mip_addresses = written;
              num_mip_addresses = n;
            }))
        | some (_, written) ↦ some none
      ]
  config_of is_debug _ n_interfaces = none

  -- `UserConfig_from_cli`, for the arguments behind the name of the program: the inner none is NULL.
  unfoldable pub from_cli : List (List ℕ) → (n_interfaces : ℕ) → Option (Option UserConfig)
  from_cli [] n_interfaces = none
  from_cli (argument ∷ rest) n_interfaces =
      if (get_or argument 0 0 == 45) && (get_or argument 1 0 == 100)
      then config_of true rest n_interfaces
      else config_of false (argument ∷ rest) n_interfaces

  store_addresses_overrun :
      (k : ℕ) (arguments : List (List ℕ)) (object : List ℕ)
      → 8 * k ≤ length object
      → length object < 8 * (k + length arguments)
      → store_addresses k arguments object ≡ none
  unfolding store_addresses copy_in
  store_addresses_overrun k [] object inside short = absurd (omega (arith, inside, short))
  store_addresses_overrun k (argument ∷ rest) object inside short =
      let bytes = u8 (atoi argument) ∷ replicate 7 0 in
      elim (Bool-cases (leb (8 * k + 8) (length object))) [
        | inr outside ↦ rw (outside, store_addresses) refl
        | inl fits ↦
            let written = take (8 * k) object ++ (bytes ++ drop (8 * k + 8) object) in
            let room = leb→le (8 * k + 8) (length object) fits in
            let size : length written ≡ length object = omega (
              arith,
              room,
              length-append (take (8 * k) object) (bytes ++ drop (8 * k + 8) object),
              length-append bytes (drop (8 * k + 8) object),
              length-take (8 * k) object,
              length-drop (8 * k + 8) object,
            ) in
            rw (fits, store_addresses)
              (store_addresses_overrun (suc k) rest written (omega (arith, size, room))
                (omega (arith, size, short)))
      ]

  -- Unless there are eight interfaces for every address, the addresses of the command line, which may
  -- be as many as the interfaces, are written behind the object that is made for them: each takes the
  -- eight bytes of a pointer, and the object has one byte for an interface.
  pub fetch_mip_addresses_overrun :
      (arguments : List (List ℕ)) (n_interfaces : ℕ)
      → length arguments ≤ n_interfaces
      → n_interfaces < 8 * length arguments
      → fetch_mip_addresses arguments (replicate n_interfaces 0) n_interfaces ≡ none
  unfolding fetch_mip_addresses
  fetch_mip_addresses_overrun arguments n few short =
      let room = length-replicate n zero in
      let overrun =
        store_addresses_overrun 0 arguments (replicate n 0) (omega arith)
          (omega (arith, room, short)) in
      rw (le→leb (length arguments) n few) (rw overrun refl)
