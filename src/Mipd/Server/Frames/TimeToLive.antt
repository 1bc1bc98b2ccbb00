-- ===== src/Mipd/Server/Frames/TimeToLive.antt =====
-- The time to live of a transport package on its way through several daemons.
use network_course_uio.Prelude.{
  ℕ, suc, ◌+◌, ◌-◌, ◌≡◌, ◌≢◌, refl, ◌∙◌, ap, sym, subst, length, get_or, Option-cases, true, false,
  Option, none, some, List, [], ◌∷◌, ◌==◌, if◌then◌else◌, arith, ℤ, pos, minus_one, eq_int,
  Bool-cases, inl, inr, ◌⊎◌, ==→ne,
}
use network_course_uio.Mipd.InterfaceTable.{get_interface_pos_for_mip_address}
use network_course_uio.Mipd.MipArp.{query_mip_address_src_socket}
use network_course_uio.Mipd.Packaging.MipPackage.{MipPackage}
use network_course_uio.Mipd.Server.{MipdServer, ForwardQueueEntry, World, Output, to_forward_socket}
use network_course_uio.Mipd.Server.Forwarding.{
  push, request_forwarding, load_forward_package, neighbor,
}
use network_course_uio.Mipd.Server.Applications.{handle_mip_package_for_application}
use network_course_uio.Mipd.Server.Frames.{handle_transport, handle_received}

-- What a daemon does with a transport package that is for another host: it drops one whose time to
-- live is over; it queues any other with one less, asks the routing daemon for a next hop, and
-- leaves the rest of the package and of its state as they are.
pub handle_received_transport :
    (world : World) (server : MipdServer) (fd : ℤ) (p : MipPackage)
    → p.m_header.tra ≡ 3
    → get_interface_pos_for_mip_address server.i_table p.m_header.dst_addr ≡ minus_one
    → eq_int world.pushed minus_one ≡ false
    → world.written ≡ true
    → handle_received world server fd p
      ≡ some (
        pos 0,
        (if p.m_header.ttl == 0 then [] else to_forward_socket p.m_header.dst_addr ∷ []),
        (if p.m_header.ttl == 0
            then server
            else push world.now server
                (record p { m_header = record (p.m_header) { ttl = p.m_header.ttl - 1 } })),
      )
unfolding handle_received handle_transport request_forwarding
handle_received_transport world server fd p transport elsewhere pushed written =
    elim (Bool-cases (p.m_header.ttl == 0)) [
      | inl spent ↦ rw transport (rw (elsewhere, handle_transport) (rw spent refl))
      | inr left ↦
          rw transport (rw (elsewhere, handle_transport) (rw left (rw written (rw pushed refl))))
    ]

-- A package goes over one daemon: it comes in as `p`, is queued, and after an answer of the routing
-- daemon, at which the daemon may be in another state, it goes out as `q`.
pub data Hop : MipPackage → MipPackage → Type 0 where
  hop :
      (world : World) (server server' answering : MipdServer) (outputs : List Output)
      (e : ForwardQueueEntry) (next_hop : ℕ) {p q : MipPackage}
      → handle_transport world server p ≡ some (pos 0, outputs, server')
      → server'.forward_queue ≡ e ∷ server.forward_queue
      → load_forward_package answering (some e.queued) next_hop ≡ some (some q)
      → Hop p q

-- A way over `n` daemons
pub data Way : ℕ → MipPackage → MipPackage → Type 0 where
  arrived : {p : MipPackage} → Way 0 p p
  onward : {n : ℕ} {p q r : MipPackage} → Hop p q → Way n q r → Way (suc n) p r

ne_cons : (q : List ForwardQueueEntry) (e : ForwardQueueEntry) → q ≢ e ∷ q
ne_cons q e h = let same : length q ≡ suc (length q) = ap length h in absurd (omega arith)

-- The server that a handler leaves
left_by : (server : MipdServer) → Option (ℤ × List Output × MipdServer) → MipdServer
left_by server none = server
left_by server (some (rc, outputs, server')) = server'

abbrev one_less : MipPackage → MipPackage
one_less p = record p { m_header = record (p.m_header) { ttl = p.m_header.ttl - 1 } }

handle_transport-left_by :
    (world : World) (server : MipdServer) (p : MipPackage)
    → let left = left_by server (handle_transport world server p) in
      (left ≡ server) ⊎ ((p.m_header.ttl ≢ 0) × (left ≡ push world.now server (one_less p)))
unfolding handle_transport request_forwarding left_by
handle_transport-left_by world server p =
    elim (Bool-cases
      (eq_int (get_interface_pos_for_mip_address server.i_table p.m_header.dst_addr) minus_one)) [
        | inl elsewhere ↦ elim (Bool-cases (p.m_header.ttl == 0)) [
          | inl spent ↦ inl (rw (elsewhere, handle_transport) (rw spent refl))
          | inr alive ↦ elim (Bool-cases world.written) [
            | inl written ↦
                inr (==→ne _ _ alive, rw (elsewhere, handle_transport) (rw alive (rw written refl)))
            | inr unwritten ↦ inl (rw (elsewhere, handle_transport) (rw alive (rw unwritten refl)))
          ]
        ]
        | inr ours ↦ elim (Option-cases (handle_mip_package_for_application world server p)) [
          | inl faulty ↦ inl (rw (ours, handle_transport) (rw faulty refl))
          | inr (result, made) ↦ inl (rw (ours, handle_transport) (rw made refl))
        ]
      ]

queued_lem :
    (world : World) (server server' : MipdServer) (outputs : List Output) (e : ForwardQueueEntry)
    (p : MipPackage)
    → handle_transport world server p ≡ some (pos 0, outputs, server')
    → server'.forward_queue ≡ e ∷ server.forward_queue
    → (p.m_header.ttl ≢ 0) × (e.queued ≡ one_less p)
unfolding push left_by
queued_lem world server server' outputs e p handled queued =
    let result : left_by server (handle_transport world server p) ≡ server' =
      ap (left_by server) handled in
    elim (handle_transport-left_by world server p) [
      | inl same ↦
          let kept : server.forward_queue ≡ e ∷ server.forward_queue =
            ap (λ s. s.forward_queue) (sym same ∙ result) ∙ queued in
          absurd (ne_cons server.forward_queue e kept)
      | inr (alive, pushed) ↦
          let grown = ap (λ s. s.forward_queue) (sym pushed ∙ result) ∙ queued in
          (alive, sym (ap (λ q. (get_or q 0 e).queued) grown))
    ]

-- A package that comes of another one keeps its time to live, its destination and its message.
abbrev Keeps : MipPackage → Option (Option MipPackage) → Type 0
Keeps q none = Unit
Keeps q (some none) = Unit
Keeps q (some (some p)) =
    (p.m_header.ttl ≡ q.m_header.ttl)
    × (p.m_header.dst_addr ≡ q.m_header.dst_addr)
    × (p.message ≡ q.message)

load_forward_package-Keeps :
    (server : MipdServer) (q : MipPackage) (next_hop : ℕ)
    → Keeps q (load_forward_package server (some q) next_hop)
unfolding load_forward_package
load_forward_package-Keeps server q next_hop =
    let sock = query_mip_address_src_socket server.cache next_hop in
    elim (Bool-cases (eq_int sock minus_one)) [
      | inl unknown ↦ rw (unknown, load_forward_package) tt
      | inr known ↦ elim (Option-cases (neighbor server sock next_hop)) [
        | inl faulty ↦ rw (known, load_forward_package) (rw faulty tt)
        | inr (none, failed) ↦ rw (known, load_forward_package) (rw failed tt)
        | inr (some (r, entry), found) ↦
            rw (known, load_forward_package) (rw found (refl, refl, refl))
      ]
    ]

hop-ttl :
    {p q : MipPackage}
    → Hop p q
    → (q.m_header.ttl + 1 ≡ p.m_header.ttl)
      × (q.m_header.dst_addr ≡ p.m_header.dst_addr)
      × (q.message ≡ p.message)
hop-ttl (hop world server server' answering outputs e next_hop {p} {q} handled queued loaded) =
    let (alive, less) = queued_lem world server server' outputs e p handled queued in
    let (ttl, dst, message) =
      subst (Keeps e.queued) loaded (load_forward_package-Keeps answering e.queued next_hop) in
    let ttl' : e.queued.m_header.ttl ≡ p.m_header.ttl - 1 = ap (λ x. x.m_header.ttl) less in
    (
      omega (arith, ttl, ttl', alive),
      dst ∙ ap (λ x. x.m_header.dst_addr) less,
      message ∙ ap (λ x. x.message) less,
    )

-- Over `n` daemons a package loses exactly `n` of its time to live, and nothing of its destination
-- and its message: it goes over no more daemons than its time to live says.
pub way-ttl :
    {n : ℕ} {p q : MipPackage}
    → Way n p q
    → (q.m_header.ttl + n ≡ p.m_header.ttl)
      × (q.m_header.dst_addr ≡ p.m_header.dst_addr)
      × (q.message ≡ p.message)
way-ttl arrived = (omega arith, refl, refl)
way-ttl (onward first rest) =
    let (ttl, dst, message) = hop-ttl first in
    let (ttl', dst', message') = way-ttl rest in
    (omega (arith, ttl, ttl'), dst' ∙ dst, message' ∙ message)
