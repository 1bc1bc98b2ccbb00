-- ===== src/Mipd/InterfaceTable.antt =====
-- mipd/src/lib/interface.{h,c}: the network interfaces of the host, with their MIP addresses and raw
-- sockets. The array of 32 records is the list of those in use, so its length is `size`.
pub mod Queries
use network_course_uio.Prelude.{
  ℕ, zero, suc, ◌+◌, Bool, true, false, not, ◌&&◌, Option, none, some, List, [], ◌∷◌, ◌++◌, map,
  ltb, leb, ◌==◌, if◌then◌else◌, length, get_or, take, replicate, ℤ, pos, minus_one, eq_int,
}
use mathlib.Core.Option

-- The fields of `struct sockaddr_ll` that the code reads
pub record SockaddrLl : Type 0 where
  pub sll_ifindex : ℕ
  pub sll_addr : List ℕ

-- `struct interface_record`
pub record InterfaceRecord : Type 0 where
  pub interface : List ℕ
  pub so_name : SockaddrLl
  pub mip_address : ℕ
  pub raw_socket : ℤ

-- `struct interface_table`
pub record InterfaceTable : Type 0 where
  pub interfaces : List InterfaceRecord

abbrev pub max_interfaces : ℕ
max_interfaces = 32

abbrev pub interface_buff_size : ℕ
interface_buff_size = 10

abbrev pub size : InterfaceTable → ℕ
size table = length table.interfaces

-- `create_interface_table`
unfoldable pub create_interface_table : InterfaceTable
create_interface_table = record { interfaces = [] }

-- `append_interface_table`; `calloc` has left the other fields at zero. A write behind the array is
-- none.
unfoldable pub append_interface_table : InterfaceTable → SockaddrLl → Option (ℤ × InterfaceTable)
append_interface_table table so_name =
    if ltb (size table) max_interfaces
    then some (
      pos 1,
      record {
        interfaces =
            table.interfaces
            ++ record {
              interface = take 6 so_name.sll_addr ++ replicate 2 0;
              so_name = so_name;
              mip_address = 0;
              raw_socket = pos 0;
            }
              ∷ [];
      },
    )
    else none

-- The loop of `interface_equal`, with the number of rounds left
unfoldable pub equal_from : ℕ → ℕ → List ℕ → List ℕ → ℕ
equal_from zero i interface_1 interface_2 = i
equal_from (suc n) i interface_1 interface_2 =
    let rest = equal_from n (i + 1) interface_1 interface_2 in
    if get_or interface_1 i 0 == get_or interface_2 i 0 then rest else 0

-- `interface_equal`: 6 if the six bytes agree, and 0 otherwise
unfoldable pub interface_equal : List ℕ → List ℕ → ℕ
unfolding equal_from
interface_equal interface_1 interface_2 = equal_from 6 0 interface_1 interface_2

-- The first position at which the test of a loop over the table passes
unfoldable pub position_from : (InterfaceRecord → Bool) → ℕ → List InterfaceRecord → ℤ → ℤ
position_from test i [] missing = missing
position_from test i (r ∷ rest) missing =
    let later = position_from test (i + 1) rest missing in if test r then pos i else later

-- `is_interface_in_table`, and the result of `get_interface`
unfoldable pub is_interface_in_table : InterfaceTable → List ℕ → ℤ
unfolding position_from interface_equal
is_interface_in_table table wanted =
    position_from (λ r. not (interface_equal wanted r.interface == 0)) 0 table.interfaces minus_one

-- `is_socket_in_table`
unfoldable pub is_socket_in_table : InterfaceTable → ℤ → Bool
unfolding position_from
is_socket_in_table table fd =
    not
      (eq_int (position_from (λ r. eq_int r.raw_socket fd) 0 table.interfaces minus_one) minus_one)

-- `get_interface_pos_for_socket`: 0 where the socket is not in the table
unfoldable pub get_interface_pos_for_socket : InterfaceTable → ℤ → ℤ
unfolding position_from
get_interface_pos_for_socket table fd =
    position_from (λ r. eq_int r.raw_socket fd) 0 table.interfaces (pos 0)

-- `get_interface_pos_for_mip_address`
unfoldable pub get_interface_pos_for_mip_address : InterfaceTable → ℕ → ℤ
unfolding position_from
get_interface_pos_for_mip_address table address =
    position_from (λ r. r.mip_address == address) 0 table.interfaces minus_one

-- What `getifaddrs` reports of an address: whether it is of the packet family, and what it holds
pub record Ifaddr : Type 0 where
  pub is_packet : Bool
  pub address : SockaddrLl

-- The test of the loop of `collect_intefaces`: no other family and no loopback interface
abbrev pub is_wanted : Ifaddr → Bool
is_wanted a = a.is_packet && not (a.address.sll_ifindex == 1)

-- The loop of `collect_intefaces`: the addresses that it stores from position `i` on, or none for -1
unfoldable pub collect_from : ℕ → ℕ → List Ifaddr → Option (List SockaddrLl)
collect_from buffer_n i [] = some []
collect_from buffer_n i (a ∷ rest) =
    let later = collect_from buffer_n (if is_wanted a then i + 1 else i) rest in
    if is_wanted a
    then if ltb (i + 1) buffer_n then Option.map (λ l. a.address ∷ l) later else none
    else later

-- `collect_intefaces`; `getifaddrs` may fail.
unfoldable pub collect_interfaces : ℕ → Option (List Ifaddr) → Option (List SockaddrLl)
unfolding collect_from
collect_interfaces buffer_n none = none
collect_interfaces buffer_n (some ifaces) = collect_from buffer_n 0 ifaces

unfoldable pub append_all : List SockaddrLl → InterfaceTable → Option InterfaceTable
append_all [] table = some table
append_all (so_name ∷ rest) table = elim (append_interface_table table so_name) [
  | none ↦ none
  | some (rc, table') ↦ append_all rest table'
]

-- `create_loaded_interface_table`: the loop makes no round where the collection has failed.
unfoldable pub create_loaded_interface_table : Option (List Ifaddr) → Option InterfaceTable
unfolding collect_interfaces create_interface_table append_all
create_loaded_interface_table ifaces = elim (collect_interfaces interface_buff_size ifaces) [
  | none ↦ some create_interface_table
  | some so_names ↦ append_all so_names create_interface_table
]

abbrev pub zero_record : InterfaceRecord
zero_record = record {
  interface = replicate 8 0;
  so_name = record { sll_ifindex = 0; sll_addr = [] };
  mip_address = 0;
  raw_socket = pos 0;
}

unfoldable pub apply_from : ℕ → InterfaceTable → List ℕ → List InterfaceRecord
apply_from i table [] = []
apply_from i table (mip_address ∷ rest) =
    record (get_or table.interfaces i zero_record) {
      mip_address = mip_address;
      raw_socket = minus_one;
    }
    ∷ apply_from (i + 1) table rest

-- `apply_mip_addresses`, for no more addresses than the array has records
unfoldable pub apply_mip_addresses : InterfaceTable → List ℕ → InterfaceTable
unfolding apply_from
apply_mip_addresses table mip_addresses = record { interfaces = apply_from 0 table mip_addresses }
