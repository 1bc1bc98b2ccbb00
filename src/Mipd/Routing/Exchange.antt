-- ===== src/Mipd/Routing/Exchange.antt =====
-- A route table on its way from the routing daemon of a host, over its MIP daemon, to the neighbours.
use network_course_uio.Prelude.{
  ℕ, zero, suc, ◌+◌, ◌-◌, ◌<◌, ◌≤◌, ◌≡◌, refl, List, [], ◌∷◌, ◌++◌, length, length-map,
  length-append, length-replicate, arith, All, All-append, map, replicate, none, some, true, lt→ltb,
  subst, ap, ◌∙◌, ◌==◌, if◌then◌else◌,
}
use network_course_uio.Routerd.MipRouteTable.{
  MipRouteTablePackage, MipRouteEntry, MipRouteTable, create_package, to_package_entry, zero_entry,
}
use network_course_uio.Routerd.MipRouteTable.Package.{SlotFits}
use network_course_uio.Routerd.MipRouteTable.Relax.{Fits}
use network_course_uio.Mipd.InterfaceTable.{InterfaceTable, InterfaceRecord}
use network_course_uio.Mipd.MipArp.{MipArpCache, Outgoing, query_cache_socket_mip_address}
use network_course_uio.Mipd.Packaging.EtherFrame.{BytePointer}
use network_course_uio.Mipd.Packaging.MipPackage.{MipPackage, create_raw}
use network_course_uio.Mipd.Link.{sendto_raw_mip_package, recv_raw_mip_package}
use network_course_uio.Mipd.Link.Overrun.{route_table_overrun}
use network_course_uio.Mipd.Routing.{
  poison_reverse, parse_broadcasted_table, package_bytes, table_for, broadcast_route_table,
  broadcast_from,
}
use network_course_uio.Mipd.Routing.SplitHorizon.{poison_entries, poison_slots-map}
use network_course_uio.Mipd.Routing.Bytes.{IsWhole}
use network_course_uio.Mipd.Routing.Broadcast.{table_for-IsWhole, frame_for}

map-SlotFits : (es : List MipRouteEntry) → All Fits es → All SlotFits (map to_package_entry es)
map-SlotFits [] fits = tt
map-SlotFits (e ∷ es) fits = (fits.0, map-SlotFits es fits.1)

replicate-SlotFits : (n : ℕ) → All SlotFits (replicate n zero_entry)
replicate-SlotFits zero = tt
replicate-SlotFits (suc n) = (omega arith, replicate-SlotFits n)

-- What `create_package` makes of a table
abbrev package_of : MipRouteTable → MipRouteTablePackage
package_of t = record {
  table_address = 0;
  num_entries = length t.entries;
  entries = map to_package_entry t.entries ++ replicate (64 - length t.entries) zero_entry;
}

packed-IsWhole :
    (t : MipRouteTable)
    → All Fits t.entries
    → length t.entries < 64
    → (p : MipRouteTablePackage) × (create_package t ≡ some p) × IsWhole p × (p ≡ package_of t)
unfolding create_package
packed-IsWhole t fits small =
    let n = length t.entries in
    let slots = map to_package_entry t.entries in
    let pad = replicate (64 - n) zero_entry in
    let count : length (slots ++ pad) ≡ 64 = omega (
      arith,
      length-append slots pad,
      length-map to_package_entry t.entries,
      length-replicate (64 - n) zero_entry,
    ) in
    (
      record { table_address = 0; num_entries = n; entries = slots ++ pad },
      rw (lt→ltb n 64 small) refl,
      (
        count,
        All-append SlotFits slots pad (map-SlotFits t.entries fits) (replicate-SlotFits (64 - n)),
      ),
      refl,
    )

-- The neighbour for which the table on an interface is poisoned: the one at its other end, or the host
-- itself where none is known
abbrev pub neighbor : MipArpCache → InterfaceRecord → ℕ
neighbor cache r =
    let known = query_cache_socket_mip_address cache r.raw_socket in
    if known == 255 then r.mip_address else known

-- The package for an interface: every route of the table, in order, those over the neighbour there at
-- the cost that stands for none, and empty slots behind them
abbrev pub poisoned_package : MipArpCache → MipRouteTable → InterfaceRecord → MipRouteTablePackage
poisoned_package cache t r = record {
  table_address = r.mip_address;
  num_entries = length t.entries;
  entries =
      map to_package_entry (poison_entries (neighbor cache r) t.entries)
      ++ replicate (64 - length t.entries) zero_entry;
}

-- What becomes of the frame for an interface: it is the one that carries the table poisoned for the
-- neighbour there, it is sent, and the daemon that receives it in place of the package `old` reads
-- behind its buffer.
pub record Overruns (cache : MipArpCache) (t : MipRouteTable) (pointer : List ℕ) (old : MipPackage)
    (r : InterfaceRecord) (o : Outgoing) : Type 0 where
  pub by : o.socket ≡ r.raw_socket
  pub named : o.so_name ≡ r.so_name
  pub to_all : o.frame.m_header.dst_addr ≡ 255
  pub sender : o.frame.m_header.src_addr ≡ r.mip_address
  pub carries : parse_broadcasted_table o.frame.message ≡ poisoned_package cache t r
  pub bytes : List ℕ
  pub sent : sendto_raw_mip_package pointer o.frame ≡ some bytes
  pub lost : recv_raw_mip_package (some bytes) old ≡ none

-- That of every frame, in the order of the interfaces
abbrev pub OverrunsAll :
    MipArpCache
    → MipRouteTable
    → (pointer : List ℕ) → (old : MipPackage) → List InterfaceRecord
    → List Outgoing
    → Type 0
OverrunsAll cache t pointer old [] [] = Unit
OverrunsAll cache t pointer old [] (o ∷ out) = ⊥
OverrunsAll cache t pointer old (r ∷ rest) [] = ⊥
OverrunsAll cache t pointer old (r ∷ rest) (o ∷ out) =
    Overruns cache t pointer old r o × OverrunsAll cache t pointer old rest out

table_for-poisoned :
    (t : MipRouteTable) (p : MipRouteTablePackage)
    → p ≡ package_of t
    → (cache : MipArpCache) (r : InterfaceRecord) → table_for cache p r ≡ poisoned_package cache t r
unfolding table_for poison_reverse
table_for-poisoned t p is_table cache r =
    ap (λ q. table_for cache q r) is_table
    ∙ ap (λ slots. record (package_of t) { table_address = r.mip_address; entries = slots })
        (poison_slots-map (neighbor cache r) t.entries
          (replicate (64 - length t.entries) zero_entry))

module _ (own_mac : ℕ → BytePointer) (broadcast_mac : BytePointer) (cache : MipArpCache)
    (pointer : List ℕ) (own_addresses : (i : ℕ) → 6 ≤ length (own_mac i).representation)
    (broadcast_address : 6 ≤ length broadcast_mac.representation) (eight : length pointer ≡ 8)
    (old : MipPackage) (room : length old.message ≡ 1496) (t : MipRouteTable) where
  frame-Overruns :
      (p : MipRouteTablePackage)
      → IsWhole p
      → ((r : InterfaceRecord) → table_for cache p r ≡ poisoned_package cache t r)
      → (i : ℕ) (r : InterfaceRecord)
      → (frame : MipPackage) × (create_raw r.mip_address
            (own_mac i)
            255
            broadcast_mac
            (package_bytes (table_for cache p r))
            2
          ≡ some frame)
        × Overruns cache t pointer old r
            (record { socket = r.raw_socket; so_name = r.so_name; frame = frame })
  frame-Overruns p whole poisons i r =
      let (frame, made, carries) = frame_for own_mac broadcast_mac cache p whole i r in
      let (frame', bytes, made', sent, lost) =
        route_table_overrun (own_mac i) broadcast_mac r.mip_address (table_for cache p r) pointer
          old (own_addresses i) broadcast_address (table_for-IsWhole cache p r whole) eight room in
      let same : frame' ≡ frame = cc in
      (
        frame,
        made,
        record {
          by = carries.by;
          named = carries.named;
          to_all = carries.to_all;
          sender = carries.sender;
          carries = carries.reads ∙ poisons r;
          bytes = bytes;
          sent = subst (λ f. sendto_raw_mip_package pointer f ≡ some bytes) same sent;
          lost = lost;
        },
      )

  frames-Overruns :
      (p : MipRouteTablePackage)
      → IsWhole p
      → ((r : InterfaceRecord) → table_for cache p r ≡ poisoned_package cache t r)
      → (i : ℕ) (l : List InterfaceRecord)
      → (out : List Outgoing) × (broadcast_from own_mac broadcast_mac (λ _. true) cache p i l
          ≡ some out)
        × OverrunsAll cache t pointer old l out
  unfolding broadcast_from
  frames-Overruns p whole poisons i [] = ([], refl, tt)
  frames-Overruns p whole poisons i (r ∷ rest) =
      let (frame, made, overruns) = frame-Overruns p whole poisons i r in
      let (out, sent, all) = frames-Overruns p whole poisons (i + 1) rest in
      (
        record { socket = r.raw_socket; so_name = r.so_name; frame = frame } ∷ out,
        rw (made, broadcast_from) (rw (sent, broadcast_from)),
        (overruns, all),
      )

  -- A routing table of fewer than 64 routes, its fields in range, is packed, and where every `sendto`
  -- succeeds and pointers have eight bytes, one frame goes out on every interface of the host, which
  -- carries each route of the table in order, those over the neighbour there poisoned. But no neighbour
  -- gets it: a daemon that receives one of the frames, whatever package it had before, reads behind its
  -- buffer.
  pub broadcast-Overruns :
      (i_table : InterfaceTable)
      → All Fits t.entries
      → length t.entries < 64
      → (p : MipRouteTablePackage) × (out : List Outgoing) × (create_package t ≡ some p)
        × (broadcast_route_table own_mac broadcast_mac (λ _. true) i_table cache p ≡ some out)
        × OverrunsAll cache t pointer old i_table.interfaces out
  unfolding broadcast_route_table
  broadcast-Overruns i_table fits small =
      let (p, packed, whole, is_table) = packed-IsWhole t fits small in
      let (out, sent, overruns) =
        frames-Overruns p whole (table_for-poisoned t p is_table cache) 0 i_table.interfaces in
      (p, out, packed, sent, overruns)
