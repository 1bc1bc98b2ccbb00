-- ===== src/Routerd/CommandLine.antt =====
-- routerd/src/lib/cli.{h,c}: the command line of the routing daemon. An argument is the list of its
-- bytes, without the 0 at its end.
use network_course_uio.Prelude.{
  ℕ, suc, ◌<◌, ◌≡◌, ◌∙◌, ap, Bool, true, false, ◌&&◌, Option, none, some, List, [], ◌∷◌, ◌++◌, map,
  ltb, ◌==◌, if◌then◌else◌, length, get_or, arith, append_assoc, append-nil, sym,
}

abbrev pub broadcast_freq_milli : ℕ
broadcast_freq_milli = 2000

-- `struct RouterdConfig`; a string is the object that holds its bytes.
pub record RouterdConfig : Type 0 where
  pub routing_socket : List ℕ
  pub forwarding_socket : List ℕ
  pub mip_addresses : List ℕ
  pub debug_active : Bool
  pub broadcast_freq : ℕ

-- `strncmp` of the two bytes of `-`, which is 45, and of `letter` with an argument is 0.
abbrev pub is_option : (letter : ℕ) → List ℕ → Bool
is_option letter argument = (get_or argument 0 0 == 45) && (get_or argument 1 0 == letter)

-- `sscanf` for an address is `scan`, which is none if it finds no number: the address is 0 then.
module _ (scan : List ℕ → Option ℕ) where
  abbrev pub address_of : List ℕ → ℕ
  address_of argument = elim (scan argument) [ none ↦ 0 | some address ↦ address ]

  -- The last branch of the loop of `RouterdConfig_create`, for the arguments that are left
  unfoldable pub add_addresses_from : List (List ℕ) → RouterdConfig → RouterdConfig
  add_addresses_from [] config = config
  add_addresses_from (argument ∷ rest) config =
      add_addresses_from rest
        (record config { mip_addresses = config.mip_addresses ++ address_of argument ∷ [] })

  -- Its second branch: the argument behind that of the routing socket
  unfoldable pub set_forwarding_socket : List (List ℕ) → RouterdConfig → RouterdConfig
  set_forwarding_socket [] config = config
  set_forwarding_socket (argument ∷ rest) config =
      add_addresses_from rest (record config { forwarding_socket = argument ++ 0 ∷ [] })

  -- Its first branch: the routing socket is kept without the 0 at its end. The outer none is a read
  -- behind the arguments.
  unfoldable pub set_routing_socket : List (List ℕ) → RouterdConfig → Option RouterdConfig
  set_routing_socket [] config = none
  set_routing_socket (argument ∷ rest) config =
      some (set_forwarding_socket rest (record config { routing_socket = argument }))

  -- `RouterdConfig_create`, for the arguments behind the name of the program: the inner none is NULL.
  unfoldable pub config_create : List (List ℕ) → Option (Option RouterdConfig)
  config_create arguments =
      let config : RouterdConfig = record {
        routing_socket = [];
        forwarding_socket = [];
        mip_addresses = [];
        debug_active = false;
        broadcast_freq = broadcast_freq_milli;
      } in
      elim arguments [
        | [] ↦ some (some config)
        | argument ∷ rest ↦
            if is_option 104 argument
            then some none
            else elim (if is_option 100 argument
                then set_routing_socket rest (record config { debug_active = true })
                else set_routing_socket (argument ∷ rest) config) [
                  | none ↦ none
                  | some made ↦ some (some made)
                ]
      ]

  -- `parse_args`; `argc` counts the name of the program too.
  unfoldable pub parse_args : List (List ℕ) → Option (Option RouterdConfig)
  parse_args arguments =
      let argc = suc (length arguments) in
      if ltb 3 argc && ltb argc 258 then config_create arguments else some none

  add_addresses_from_lem :
      (arguments : List (List ℕ)) (config : RouterdConfig)
      → add_addresses_from arguments config
        ≡ record config { mip_addresses = config.mip_addresses ++ map address_of arguments }
  unfolding add_addresses_from
  add_addresses_from_lem [] config =
      ap (λ l. record config { mip_addresses = l }) (sym (append-nil config.mip_addresses))
  add_addresses_from_lem (argument ∷ rest) config =
      add_addresses_from_lem rest _
      ∙ ap (λ l. record config { mip_addresses = l })
          (append_assoc config.mip_addresses (address_of argument ∷ []) (map address_of rest))

  -- With at least one address and at most 254, the arguments are the path of the routing socket, that
  -- of the forwarding socket and the addresses, in this order; a first argument `-d` is not among them
  -- and turns the debug mode on. The path of the routing socket is kept without a 0 behind it.
  pub parse_args_lem :
      (debug : Bool) (option routing forwarding address : List ℕ) (addresses : List (List ℕ))
      → is_option 100 option ≡ true
      → is_option 104 routing ≡ false
      → is_option 100 routing ≡ false
      → length addresses < 253
      → parse_args
          ((if debug then option ∷ [] else []) ++ routing ∷ forwarding ∷ address ∷ addresses)
        ≡ some (
            some (record {
              routing_socket = routing;
              forwarding_socket = forwarding ++ 0 ∷ [];
              mip_addresses = map address_of (address ∷ addresses);
              debug_active = debug;
              broadcast_freq = 2000;
            }))
  unfolding parse_args config_create set_routing_socket set_forwarding_socket
  parse_args_lem true option routing forwarding address addresses is_debug no_help no_debug few =
      let argc = suc (length (option ∷ routing ∷ forwarding ∷ address ∷ addresses)) in
      let size : (ltb 3 argc && ltb argc 258) ≡ true = ground arith in
      let no_help' : is_option 104 option ≡ false = ground (arith, is_debug) in
      rw (size, parse_args)
        (rw (no_help', is_debug)
          (ap (λ c. some (some c)) (add_addresses_from_lem (address ∷ addresses) _)))
  parse_args_lem false option routing forwarding address addresses is_debug no_help no_debug few =
      let argc = suc (length (routing ∷ forwarding ∷ address ∷ addresses)) in
      let size : (ltb 3 argc && ltb argc 258) ≡ true = ground arith in
      rw (size, parse_args)
        (rw (no_help, no_debug)
          (ap (λ c. some (some c)) (add_addresses_from_lem (address ∷ addresses) _)))
