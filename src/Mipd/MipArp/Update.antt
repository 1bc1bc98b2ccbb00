-- ===== src/Mipd/MipArp/Update.antt =====
-- What one call of `update_arp_cache` of mip_arp.c does.
use network_course_uio.Prelude.{
  suc, ℕ, ◌+◌, ◌*◌, ◌≤◌, ◌≡◌, refl, pos, List, [], ◌∷◌, if◌then◌else◌, length, arith, ◌∙◌,
  Bool-cases, inl, inr, some, true,
}
use network_course_uio.Mipd.InterfaceTable.{InterfaceTable, InterfaceRecord}
use network_course_uio.Mipd.MipArp.{
  MipArpCache, live, expire_from, update_arp_cache, should_complete_new_arp, complete_mip_arp,
  Outgoing, arp_requests,
}
use network_course_uio.Mipd.Packaging.MipPackage.{MipPackage, create_mip_arp_request_packet}
use network_course_uio.Mipd.Packaging.Payload.{
  package_of, create_small, IsPackageOf, package_of-IsPackageOf,
}
use network_course_uio.Mipd.MipArp.Expiry.{
  unexpired, Expired, expire_from_lem, length-live, Distinct-unexpired,
}
use network_course_uio.Mipd.Packaging.EtherFrame.{create_arp_frame_from_mac}
use network_course_uio.Mipd.Packaging.MipHeader.{create_arp_request}
use network_course_uio.Mipd.MipArp.Queries.{IsValid}

-- A request by the interface: on its socket, from its MAC address to all, as the MIP protocol makes it,
-- with no payload
pub record Requests (r : InterfaceRecord) (o : Outgoing) : Type 0 where
  pub by : o.socket ≡ r.raw_socket
  pub named : o.so_name ≡ r.so_name
  pub request :
      IsPackageOf
        (create_arp_frame_from_mac r.interface)
        (create_arp_request r.mip_address)
        []
        o.frame

-- One by each interface, in their order
abbrev pub RequestsAll : List InterfaceRecord → List Outgoing → Type 0
RequestsAll [] [] = Unit
RequestsAll [] (o ∷ out) = ⊥
RequestsAll (r ∷ rest) [] = ⊥
RequestsAll (r ∷ rest) (o ∷ out) = Requests r o × RequestsAll rest out

-- What `update_arp_cache` leaves: a valid cache of the entries that were not over age when the loop
-- came to them, in their order; and a request on every interface if an ARP was due.
pub record Updated (clock : ℕ → ℕ) (due now : ℕ) (t : InterfaceTable) (c : MipArpCache)
    (requests : List Outgoing) (c' : MipArpCache) : Type 0 where
  pub valid : IsValid c'
  pub kept : live c' ≡ unexpired clock 0 (c.update_freq * 2) (live c)
  pub sent : RequestsAll (if should_complete_new_arp due c then t.interfaces else []) requests
  pub stamped : c'.last_arp ≡ (if should_complete_new_arp due c then now else c.last_arp)

arp_request_of :
    (r : InterfaceRecord)
    → (p : MipPackage) × (create_mip_arp_request_packet r.mip_address r.interface ≡ some p)
      × IsPackageOf (create_arp_frame_from_mac r.interface) (create_arp_request r.mip_address) [] p
unfolding create_mip_arp_request_packet
arp_request_of r = (
  package_of (create_arp_frame_from_mac r.interface) (create_arp_request r.mip_address) [],
  create_small (create_arp_frame_from_mac r.interface) (create_arp_request r.mip_address) []
      (omega arith),
  package_of-IsPackageOf (create_arp_frame_from_mac r.interface) (create_arp_request r.mip_address)
      [] (omega arith),
)

arp_requests_total :
    (i : ℕ) (l : List InterfaceRecord)
    → (requests : List Outgoing) × (arp_requests (λ _. true) i l ≡ (pos 1, requests))
      × RequestsAll l requests
unfolding arp_requests
arp_requests_total i [] = ([], refl, tt)
arp_requests_total i (r ∷ rest) =
    let (requests, made, all) = arp_requests_total (i + 1) rest in
    let request = arp_request_of r in
    (
      record { socket = r.raw_socket; so_name = r.so_name; frame = request.0 } ∷ requests,
      rw (request.1, arp_requests) (rw (made, arp_requests)),
      (record { by = refl; named = refl; request = request.2 }, all),
    )

same_due :
    (due : ℕ) (c c' : MipArpCache)
    → c'.update_freq ≡ c.update_freq
    → c'.last_arp ≡ c.last_arp
    → should_complete_new_arp due c' ≡ should_complete_new_arp due c
unfolding should_complete_new_arp
same_due due c c' f l = rw (f, l)

-- From a valid cache, with every `sendto` succeeding, `update_arp_cache` ends within its rounds,
-- returns 0, leaves a valid cache of exactly the entries that are not over age, in their order, and, if
-- an ARP is due, sends one request on the socket of every interface, in their order, with the addresses
-- of that interface; otherwise it sends none.
pub update_arp_cache-Updated :
    (clock : ℕ → ℕ) (due now : ℕ) (t : InterfaceTable) (c : MipArpCache)
    → IsValid c
    → (requests : List Outgoing) × (c' : MipArpCache) × (update_arp_cache clock due now
          (λ _. true)
          t
          c
        ≡ some (pos 0, requests, c'))
      × Updated clock due now t c requests c'
unfolding update_arp_cache complete_mip_arp
update_arp_cache-Updated clock due now t c v = elim (Bool-cases (should_complete_new_arp due c)) [
  | inl is_due ↦
      let (requests, made, all) = arp_requests_total 0 t.interfaces in
      (
        requests,
        record c' { last_arp = now },
        rw (ran, update_arp_cache) (rw (same ∙ is_due) (rw (made, complete_mip_arp))),
        record {
          valid = record {
            whole = valid'.whole;
            inside = valid'.inside;
            distinct = valid'.distinct;
          };
          kept = left.kept;
          sent = rw is_due all;
          stamped = rw is_due;
        },
      )
  | inr not_due ↦ (
    [],
    c',
    rw (ran, update_arp_cache) (rw (same ∙ not_due)),
    record {
      valid = valid';
      kept = left.kept;
      sent = rw not_due tt;
      stamped = rw not_due left.same_arp;
    },
  )
]
  where
    fits : c.size ≤ length c.entries
    fits = omega (arith, v.whole, v.inside)

    loop :
        (c' : MipArpCache) × (expire_from (suc (length (live c))) clock 0 0 c ≡ some c')
        × Expired clock 0 [] (live c) c c'
    loop = expire_from_lem clock (live c) [] 0 c fits refl

    c' : MipArpCache
    c' = loop.0

    left : Expired clock 0 [] (live c) c c'
    left = loop.2

    fuel_used : c.size + 1 ≡ suc (length (live c))
    fuel_used = omega (arith, length-live c fits)

    ran : expire_from (c.size + 1) clock 0 0 c ≡ some c'
    ran = rw fuel_used loop.1

    same : should_complete_new_arp due c' ≡ should_complete_new_arp due c
    same = same_due due c c' left.same_freq left.same_arp

    valid' : IsValid c'
    valid' = record {
      whole = left.whole ∙ v.whole;
      inside = omega (arith, left.inside, v.inside);
      distinct =
          rw (left.kept) (Distinct-unexpired clock 0 (c.update_freq * 2) (live c) v.distinct);
    }
