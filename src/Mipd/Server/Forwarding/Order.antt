-- ===== src/Mipd/Server/Forwarding/Order.antt =====
-- The forward queue is first in, first out, and an answer of the routing daemon is for its oldest
-- package.
use network_course_uio.Prelude.{
  ℕ, ◌≡◌, ◌≢◌, ◌⊎◌, inl, inr, refl, ap, ◌∙◌, true, false, none, some, List, [], ◌∷◌, ◌++◌, ◌==◌,
  if◌then◌else◌, pos, minus_one, eq_int,
}
use network_course_uio.Commons.Queue.{recv, waiting}
use network_course_uio.Mipd.InterfaceTable.{InterfaceRecord}
use network_course_uio.Mipd.MipArp.{MipArpCacheEntry, query_mip_address_src_socket}
use network_course_uio.Mipd.Packaging.EtherFrame.{create_ethernet_frame}
use network_course_uio.Mipd.Packaging.MipPackage.{MipPackage}
use network_course_uio.Mipd.Server.{MipdServer, ForwardQueueEntry, World, to_link}
use network_course_uio.Mipd.Server.Forwarding.{
  pop, neighbor, load_forward_package, handle_forward_response,
}

-- The entry that comes out is the oldest, and the others wait on in their order.
waiting-cases :
    (q : List ForwardQueueEntry)
    → (waiting q ≡ [])
      ⊎ ((e : ForwardQueueEntry) × (rest : List ForwardQueueEntry) × (waiting q ≡ e ∷ rest))
waiting-cases q =
    elim (waiting q)
      as (λ w.
        (w ≡ []) ⊎ ((e : ForwardQueueEntry) × (rest : List ForwardQueueEntry) × (w ≡ e ∷ rest))) [
          | [] ↦ inl refl
          | e ∷ rest ↦ inr (e, rest, refl)
        ]

append_ne_nil : (q : List ForwardQueueEntry) (x : ForwardQueueEntry) → q ++ x ∷ [] ≢ []
append_ne_nil [] x h = cc
append_ne_nil (y ∷ q) x h = cc

recv-waiting :
    (q : List ForwardQueueEntry) (e : ForwardQueueEntry) (rest : List ForwardQueueEntry)
    → waiting q ≡ e ∷ rest
    → ((recv q).0 ≡ some e) × (waiting (recv q).1 ≡ rest)
recv-waiting [] e rest h = absurd cc
recv-waiting (x ∷ []) e rest h = (cc, cc)
recv-waiting (x ∷ y ∷ q) e rest h = elim (waiting-cases (y ∷ q)) [
  | inl (none_left) ↦ absurd (append_ne_nil (waiting q) y none_left)
  | inr (e', rest', more) ↦
      let (first, others) = recv-waiting (y ∷ q) e' rest' more in
      let both : e' ∷ (rest' ++ x ∷ []) ≡ e ∷ rest = rw more at h in
      let same : e' ≡ e = cc in
      let tail : rest' ++ x ∷ [] ≡ rest = cc in
      (first ∙ ap some same, ap (λ w. w ++ x ∷ []) others ∙ tail)
]

-- What becomes of the oldest package: it goes to the neighbour with its frame and, if it has none
-- yet, its source filled in, and with all the rest as it was.
pub record IsForwarded (p : MipPackage) (r : InterfaceRecord) (entry : MipArpCacheEntry)
    (p' : MipPackage) : Type 0 where
  pub framed : p'.e_frame ≡ create_ethernet_frame entry.dst_interface r.so_name.sll_addr
  pub source :
      p'.m_header.src_addr
      ≡ (if p.m_header.src_addr == 255 then r.mip_address else p.m_header.src_addr)
  pub destination : p'.m_header.dst_addr ≡ p.m_header.dst_addr
  pub kind : p'.m_header.tra ≡ p.m_header.tra
  pub ttl : p'.m_header.ttl ≡ p.m_header.ttl
  pub words : p'.m_header.payload_len ≡ p.m_header.payload_len
  pub message : p'.message ≡ p.message

module _ (world : World) (server : MipdServer) (next_hop : ℕ) (e : ForwardQueueEntry)
    (rest : List ForwardQueueEntry) (first : waiting server.forward_queue ≡ e ∷ rest) where
  popped : ((pop server).0 ≡ some e.queued) × (waiting (pop server).1.forward_queue ≡ rest)
  unfolding pop
  popped =
      let (out, others) = recv-waiting server.forward_queue e rest first in
      (rw (out, pop) refl, others)

  loaded : InterfaceRecord → MipArpCacheEntry → MipPackage
  loaded r entry = record (e.queued) {
    e_frame = create_ethernet_frame entry.dst_interface r.so_name.sll_addr;
    m_header = record (e.queued.m_header) {
      src_addr =
          if e.queued.m_header.src_addr == 255 then r.mip_address else e.queued.m_header.src_addr;
    };
  }

  load_known :
      (r : InterfaceRecord) (entry : MipArpCacheEntry)
      → eq_int (query_mip_address_src_socket server.cache next_hop) minus_one ≡ false
      → neighbor server (query_mip_address_src_socket server.cache next_hop) next_hop
        ≡ some (some (r, entry))
      → load_forward_package server (some e.queued) next_hop ≡ some (some (loaded r entry))
  unfolding load_forward_package loaded
  load_known r entry known found = rw known (rw (found, load_forward_package) refl)

  load_unknown :
      query_mip_address_src_socket server.cache next_hop ≡ minus_one
      → load_forward_package server (pop server).0 next_hop ≡ some none
  unfolding load_forward_package
  load_unknown unknown = rw unknown refl

  -- Where the ARP cache has the next hop, the neighbour's interface is found and `sendto` succeeds,
  -- an answer of the routing daemon sends the package that has waited longest to that neighbour,
  -- unchanged but for the frame and a missing source, and the others wait on in their order.
  pub handle_forward_response-IsForwarded :
      (r : InterfaceRecord) (entry : MipArpCacheEntry)
      → eq_int (query_mip_address_src_socket server.cache next_hop) minus_one ≡ false
      → neighbor server (query_mip_address_src_socket server.cache next_hop) next_hop
        ≡ some (some (r, entry))
      → world.sent ≡ true
      → (p : MipPackage) × (left : MipdServer) × (handle_forward_response world server next_hop
          ≡ some (
            pos 1,
            to_link (record {
              socket = query_mip_address_src_socket server.cache next_hop;
              so_name = r.so_name;
              frame = p;
            })
                ∷ [],
            left,
          ))
        × IsForwarded e.queued r entry p
        × (waiting left.forward_queue ≡ rest)
  unfolding handle_forward_response loaded
  handle_forward_response-IsForwarded r entry known found sent =
      let (out, others) = popped in
      (
        loaded r entry,
        (pop server).1,
        rw (out, handle_forward_response)
            (rw (load_known r entry known found, handle_forward_response)
              (rw known (rw (found, handle_forward_response) (rw sent refl)))),
        record {
          framed = refl;
          source = refl;
          destination = refl;
          kind = refl;
          ttl = refl;
          words = refl;
          message = refl;
        },
        others,
      )

  -- Where the ARP cache does not have the next hop, the answer fails with -1, which ends the event
  -- loop, and the package that has waited longest is lost.
  pub handle_forward_response_unknown :
      query_mip_address_src_socket server.cache next_hop ≡ minus_one
      → (left : MipdServer) × (handle_forward_response world server next_hop
          ≡ some (minus_one, [], left))
        × (waiting left.forward_queue ≡ rest)
  unfolding handle_forward_response
  handle_forward_response_unknown unknown =
      let (out, others) = popped in
      ((pop server).1, rw (load_unknown unknown, handle_forward_response) refl, others)
