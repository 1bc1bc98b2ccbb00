-- ===== src/Mipd/MipArp.antt =====
-- mipd/src/lib/mip_arp.{h,c}: the cache of the neighbours that answered an ARP request.
-- `entries` is the array of 64 slots, of which the first `size` are in use. A call of `get_milli` is
-- the argument `now`; a loop that calls it takes the reading of round `i` from `clock i`.
pub mod Live
pub mod Queries
pub mod Expiry
pub mod Update
use network_course_uio.Prelude.{
  ℕ, zero, suc, ◌+◌, ◌-◌, ◌*◌, ◌%◌, ◌^◌, Bool, true, false, Option, none, some, List, [], ◌∷◌, ltb,
  ◌==◌, ◌&&◌, if◌then◌else◌, length, get_or, set, take, replicate, ℤ, pos, negsuc, minus_one,
  eq_int,
}
use network_course_uio.Mipd.InterfaceTable.{InterfaceTable, InterfaceRecord, SockaddrLl}
use network_course_uio.Mipd.Packaging.EtherFrame.{BytePointer}
use network_course_uio.Mipd.Packaging.MipPackage.{
  MipPackage, create_mip_arp_request_packet, create_raw,
}

-- `struct mip_arp_cache_entry`
pub record MipArpCacheEntry : Type 0 where
  pub mip_address : ℕ
  pub src_socket : ℤ
  pub dst_interface : List ℕ
  pub last_update : ℕ

-- `struct mip_arp_cache`
pub record MipArpCache : Type 0 where
  pub entries : List MipArpCacheEntry
  pub size : ℕ
  pub update_freq : ℕ
  pub last_arp : ℕ

abbrev pub cache_slots : ℕ
cache_slots = 64

abbrev pub zero_entry : MipArpCacheEntry
zero_entry = record {
  mip_address = 0;
  src_socket = pos 0;
  dst_interface = replicate 6 0;
  last_update = 0;
}

-- `create_cache`
unfoldable pub create_cache : ℕ → MipArpCache
create_cache update_freq = record {
  entries = replicate cache_slots zero_entry;
  size = 0;
  update_freq = update_freq;
  last_arp = 0;
}

-- The slots that the loops `for (i = 0; i < cache->size; i++)` visit
abbrev pub live : MipArpCache → List MipArpCacheEntry
live cache = take cache.size cache.entries

unfoldable pub socket_from : ℕ → List MipArpCacheEntry → ℤ
socket_from mip_address [] = minus_one
socket_from mip_address (e ∷ rest) =
    if mip_address == e.mip_address then e.src_socket else socket_from mip_address rest

-- `query_mip_address_src_socket`
abbrev pub query_mip_address_src_socket : MipArpCache → ℕ → ℤ
query_mip_address_src_socket cache mip_address = socket_from mip_address (live cache)

unfoldable pub pos_from : ℕ → ℕ → List MipArpCacheEntry → ℤ
pos_from i mip_address [] = minus_one
pos_from i mip_address (e ∷ rest) =
    let later = pos_from (i + 1) mip_address rest in
    if mip_address == e.mip_address then pos i else later

-- `query_mip_address_pos`
abbrev pub query_mip_address_pos : MipArpCache → ℕ → ℤ
query_mip_address_pos cache mip_address = pos_from 0 mip_address (live cache)

unfoldable pub address_from : ℤ → List MipArpCacheEntry → ℕ
address_from sock [] = 255
address_from sock (e ∷ rest) =
    if eq_int sock e.src_socket
    then if ltb e.mip_address 255 then e.mip_address else 255
    else address_from sock rest

-- `query_cache_socket_mip_address`
abbrev pub query_cache_socket_mip_address : MipArpCache → ℤ → ℕ
query_cache_socket_mip_address cache sock = address_from sock (live cache)

-- `append_to_cache`. A write behind the array is none.
unfoldable pub append_to_cache :
    (now : ℕ)
    → MipArpCache
    → (src_socket : ℤ) (mip_address : ℕ) (interface : List ℕ) → Option (ℤ × MipArpCache)
append_to_cache now cache src_socket mip_address interface =
    let new_entry : MipArpCacheEntry = record {
      mip_address = mip_address;
      src_socket = src_socket;
      dst_interface = take 6 interface;
      last_update = now;
    } in
    if mip_address == 255
    then some (minus_one, cache)
    else elim (query_mip_address_pos cache mip_address) [
      | pos entry_pos ↦
          some (pos entry_pos, record cache { entries = set cache.entries entry_pos new_entry })
      | negsuc _ ↦
          if ltb cache.size cache_slots
          then some (
            pos (cache.size + 1),
            record cache {
              entries = set cache.entries cache.size new_entry;
              size = cache.size + 1;
            },
          )
          else none
    ]

-- The loop of `remove_from_cache`, with the number of rounds left: `entries[i] = entries[i + 1]`
unfoldable pub shift_left : ℕ → ℕ → List MipArpCacheEntry → List MipArpCacheEntry
shift_left zero i entries = entries
shift_left (suc n) i entries =
    shift_left n (i + 1) (set entries i (get_or entries (i + 1) zero_entry))

-- `remove_from_cache`, at a position below `size`; it returns the position.
unfoldable pub remove_from_cache : MipArpCache → ℕ → MipArpCache
unfolding shift_left
remove_from_cache cache position =
    let shifted =
      if position == cache.size - 1
      then cache.entries
      else shift_left (cache.size - (position + 1)) position cache.entries in
    record cache { entries = set shifted (cache.size - 1) zero_entry; size = cache.size - 1 }

-- `should_complete_new_arp`: the difference is compared as an `unsigned long`.
unfoldable pub should_complete_new_arp : (now : ℕ) → MipArpCache → Bool
should_complete_new_arp now cache = ltb cache.update_freq ((now + 2 ^ 64 - cache.last_arp) % 2 ^ 64)

-- `is_cache_entry_expired`: the difference is signed and the frequency not negative, so it may stop
-- at 0.
unfoldable pub is_cache_entry_expired : (now : ℕ) → MipArpCacheEntry → (update_freq : ℕ) → Bool
is_cache_entry_expired now entry update_freq = ltb update_freq (now - entry.last_update)

-- The loop of `update_arp_cache`, on fuel: `j` counts the rounds, and none means that the fuel has
-- run out. Twice the frequency is taken to fit a `long`, as it does for the 8000 ms of the daemon.
unfoldable pub expire_from : ℕ → (ℕ → ℕ) → (j i : ℕ) → MipArpCache → Option MipArpCache
expire_from zero clock j i cache = none
expire_from (suc fuel) clock j i cache =
    let entry = get_or cache.entries i zero_entry in
    let expired = is_cache_entry_expired (clock j) entry (cache.update_freq * 2) in
    let rest =
      expire_from fuel clock (j + 1) (if expired then i else i + 1)
        (if expired then remove_from_cache cache i else cache) in
    if ltb i cache.size then rest else some cache

-- A frame that is given to `sendto`, and the socket and interface that it goes out by
pub record Outgoing : Type 0 where
  pub socket : ℤ
  pub so_name : SockaddrLl
  pub frame : MipPackage

-- The loop of `complete_mip_arp`: the return code, and the requests that are sent until `sendto`
-- fails. `sent i` says whether it succeeds in round `i`.
unfoldable pub arp_requests : (sent : ℕ → Bool) → ℕ → List InterfaceRecord → ℤ × List Outgoing
arp_requests sent i [] = (pos 1, [])
arp_requests sent i (r ∷ rest) =
    let later = arp_requests sent (i + 1) rest in
    elim (create_mip_arp_request_packet r.mip_address r.interface) [
      | none ↦ (minus_one, [])
      | some request ↦
          if sent i
          then (
            later.0,
            record { socket = r.raw_socket; so_name = r.so_name; frame = request } ∷ later.1,
          )
          else (minus_one, [])
    ]

-- `complete_mip_arp`
unfoldable pub complete_mip_arp :
    (now : ℕ) (sent : ℕ → Bool) → InterfaceTable → MipArpCache → ℤ × List Outgoing × MipArpCache
unfolding arp_requests
complete_mip_arp now sent table cache =
    let (rc, requests) = arp_requests sent 0 table.interfaces in
    (rc, requests, if eq_int rc minus_one then cache else record cache { last_arp = now })

-- `update_arp_cache`: first the loop, then a new ARP if one is due. The two readings of the clock
-- for the latter are `due` and `now`. None means that the loop has run out of fuel.
unfoldable pub update_arp_cache :
    (clock : ℕ → ℕ) (due now : ℕ) (sent : ℕ → Bool)
    → InterfaceTable
    → MipArpCache
    → Option (ℤ × List Outgoing × MipArpCache)
update_arp_cache clock due now sent table cache =
    elim (expire_from (cache.size + 1) clock 0 0 cache) [
      | none ↦ none
      | some cache' ↦
          if should_complete_new_arp due cache'
          then (let (rc, requests, cache'') = complete_mip_arp now sent table cache' in
              some (if eq_int rc minus_one then minus_one else pos 0, requests, cache''))
          else some (pos 0, [], cache')
    ]

-- `handle_mip_arp_request`: the response that is sent, and the cache with the sender in it. The
-- outer none is a write behind the array; the inner one is -1.
unfoldable pub handle_mip_arp_request :
    (now : ℕ) (sent : Bool)
    → MipArpCache
    → (received : MipPackage) (own_mac peer_mac : BytePointer) (received_on : InterfaceRecord)
    → Option (Option Outgoing × MipArpCache)
unfolding append_to_cache create_raw
handle_mip_arp_request now sent cache received own_mac peer_mac received_on =
    elim (create_raw received_on.mip_address own_mac received.m_header.src_addr peer_mac [] 0) [
      | none ↦ some (none, cache)
      | some response ↦
          if sent
          then elim (append_to_cache now cache received_on.raw_socket received.m_header.src_addr
              received_on.so_name.sll_addr) [
                | none ↦ none
                | some (rc, cache') ↦ some (
                  some (record {
                    socket = received_on.raw_socket;
                    so_name = received_on.so_name;
                    frame = response;
                  }),
                  cache',
                )
              ]
          else some (none, cache)
    ]
