-- ===== src/Miptpd/AppController/Reachable.antt =====
-- miptpd/src/lib/miptp_app_controller.c: the events of the event loop, and the sockets after them.
use network_course_uio.Prelude.{
  ℕ, ◌≡◌, ◌∙◌, ap, sym, subst, false, ◌||◌, none, some, List, [], ◌∷◌, ◌++◌, arith, ℤ, minus_one,
  eq_int, inl, inr, Bool-cases, Option-cases, ◌==◌,
}
use network_course_uio.Commons.MipdMessage.{MipdMessage}
use network_course_uio.Commons.ClientPackage.{ClientPackage}
use network_course_uio.Commons.ClientPackage
use network_course_uio.Miptpd.MiptpPackage
use network_course_uio.Miptpd.MiptpPackage.{MiptpPackage}
use network_course_uio.Miptpd.AppConnection.{AppConnection, create, create_not_ready}
use network_course_uio.Miptpd.AppController.{
  AppController, World, handle_connection, handle_app_package, handle_mipd_package, handle_outgoing,
  disconnect, complete_connection, receive_all, send_all,
}
use network_course_uio.Miptpd.AppController.Sockets.{
  sockets, among, Distinct, without, receive_all-sockets, send_all-sockets, sockets-append,
  Distinct-append, without-Distinct, gone, without_socket-without, complete_connection-sockets,
}

-- What the event loop does to the controller: the socket that `accept` gives is in no use.
infix 40 ◌⟶◌ ◌⟶*◌
pub data ◌⟶◌ : AppController → AppController → Type 0 where
  connects :
      {k k' : AppController} (now : ℕ) (accepted rc : ℤ)
      → among (sockets k.connections) accepted ≡ false
      → handle_connection now k accepted ≡ some (rc, k')
      → k ⟶ k'
  requests :
      {k k' : AppController} (now : ℕ) (socket rc : ℤ) (buffer : List ℕ)
      → handle_app_package now k socket buffer ≡ some (rc, k')
      → k ⟶ k'
  receives :
      {k k' : AppController} (message : MipdMessage) (rc : ℤ)
      → handle_mipd_package k message ≡ some (rc, k')
      → k ⟶ k'
  sends :
      {k k' : AppController} (world : World) (rc : ℤ) (sent : List (List ℕ))
      → handle_outgoing world k ≡ some (rc, sent, k')
      → k ⟶ k'
  leaves : {k k' : AppController} (socket rc : ℤ) → disconnect k socket ≡ (rc, k') → k ⟶ k'

pub data ◌⟶*◌ : AppController → AppController → Type 0 where
  here : {k : AppController} → k ⟶* k
  further : {k l m : AppController} → k ⟶ l → l ⟶* m → k ⟶* m

create_not_ready-socket :
    (now : ℕ) (socket : ℤ) (c : AppConnection)
    → create_not_ready now socket ≡ some (some c)
    → c.socket ≡ socket
unfolding create_not_ready create
create_not_ready-socket now socket c h = ground (arith, h)

-- A new connection has a socket that no other one has.
connected-Distinct :
    (now : ℕ) (k k' : AppController) (accepted rc : ℤ)
    → among (sockets k.connections) accepted ≡ false
    → handle_connection now k accepted ≡ some (rc, k')
    → Distinct (sockets k.connections)
    → Distinct (sockets k'.connections)
unfolding handle_connection
connected-Distinct now k k' accepted rc new h distinct =
    elim (Bool-cases (eq_int accepted minus_one)) [
      | inl none_there ↦
          let after : k'.connections ≡ k.connections = ground (arith, h, none_there) in
          subst (λ cs. Distinct (sockets cs)) (sym after) distinct
      | inr there ↦ elim (Option-cases (create_not_ready now accepted)) [
        | inl stuck ↦ ground (arith, h, there, stuck)
        | inr (none, refused) ↦
            let after : k'.connections ≡ k.connections = ground (arith, h, there, refused) in
            subst (λ cs. Distinct (sockets cs)) (sym after) distinct
        | inr (some c, made) ↦
            let after : k'.connections ≡ k.connections ++ c ∷ [] = ground (arith, h, there, made) in
            let its : c.socket ≡ accepted = create_not_ready-socket now accepted c made in
            let list : sockets k'.connections ≡ sockets k.connections ++ accepted ∷ [] =
              ap sockets after
              ∙ sockets-append k.connections (c ∷ [])
              ∙ ap (λ s. sockets k.connections ++ s ∷ []) its in
            subst Distinct (sym list)
              (Distinct-append (sockets k.connections) accepted distinct new)
      ]
    ]

requested-Distinct :
    (now : ℕ) (k k' : AppController) (socket rc : ℤ) (buffer : List ℕ)
    → handle_app_package now k socket buffer ≡ some (rc, k')
    → Distinct (sockets k.connections)
    → Distinct (sockets k'.connections)
unfolding handle_app_package
requested-Distinct now k k' socket rc buffer h distinct =
    let unchanged : k'.connections ≡ k.connections → Distinct (sockets k'.connections) =
      λ after. subst (λ cs. Distinct (sockets cs)) (sym after) distinct in
    elim (Option-cases (ClientPackage.deserialize buffer)) [
      | inl stuck ↦ ground (arith, h, stuck)
      | inr (none, refused) ↦ unchanged (ground (arith, h, refused))
      | inr (some p, made) ↦ elim (Bool-cases ((p.port == 0) || (p.destination == 0))) [
        | inl bad ↦ unchanged (ground (arith, h, made, bad))
        | inr good ↦
            elim (Option-cases (complete_connection now k.timeout socket p k.connections)) [
              | inl stuck ↦ ground (arith, h, made, good, stuck)
              | inr (none, refused) ↦ unchanged (ground (arith, h, made, good, refused))
              | inr (some cs, run) ↦
                  let after : k'.connections ≡ cs = ground (arith, h, made, good, run) in
                  elim (complete_connection-sockets now k.timeout socket p k.connections cs run) [
                    | inl same ↦ subst Distinct (sym (ap sockets after ∙ same)) distinct
                    | inr moved ↦ subst Distinct (sym (ap sockets after ∙ moved)) (
                        Distinct-append (without socket (sockets k.connections)) socket
                          (without-Distinct socket (sockets k.connections) distinct)
                          (gone socket (sockets k.connections) distinct))
                  ]
            ]
      ]
    ]

received-sockets :
    (k k' : AppController) (message : MipdMessage) (rc : ℤ)
    → handle_mipd_package k message ≡ some (rc, k')
    → sockets k'.connections ≡ sockets k.connections
unfolding handle_mipd_package
received-sockets k k' message rc h =
    elim (Option-cases (MiptpPackage.deserialize message.bytes message.data_size)) [
      | inl stuck ↦ ground (arith, h, stuck)
      | inr (p, made) ↦ elim (Option-cases (receive_all message.mip_address p k.connections)) [
        | inl stuck ↦ ground (arith, h, made, stuck)
        | inr ((rc1, cs), run) ↦
            let after : k'.connections ≡ cs = ground (arith, h, made, run) in
            ap sockets after ∙ receive_all-sockets message.mip_address p k.connections cs rc1 run
      ]
    ]

sent-sockets :
    (world : World) (k k' : AppController) (rc : ℤ) (sent : List (List ℕ))
    → handle_outgoing world k ≡ some (rc, sent, k')
    → sockets k'.connections ≡ sockets k.connections
unfolding handle_outgoing
sent-sockets world k k' rc sent h = elim (Option-cases (send_all world 0 k.connections)) [
  | inl stuck ↦ ground (arith, h, stuck)
  | inr ((rc1, sent1, cs), run) ↦
      let after : k'.connections ≡ cs = ground (arith, h, run) in
      ap sockets after ∙ send_all-sockets world 0 k.connections cs rc1 sent1 run
]

left-sockets :
    (k k' : AppController) (socket rc : ℤ)
    → disconnect k socket ≡ (rc, k')
    → sockets k'.connections ≡ without socket (sockets k.connections)
unfolding disconnect
left-sockets k k' socket rc h =
    ap (λ r. sockets r.1.connections) (sym h) ∙ without_socket-without socket k.connections

step-Distinct :
    {k k' : AppController}
    → k ⟶ k'
    → Distinct (sockets k.connections)
    → Distinct (sockets k'.connections)
step-Distinct {k} {k'} (connects now accepted rc new h) distinct =
    connected-Distinct now k k' accepted rc new h distinct
step-Distinct {k} {k'} (requests now socket rc buffer h) distinct =
    requested-Distinct now k k' socket rc buffer h distinct
step-Distinct {k} {k'} (receives message rc h) distinct =
    subst Distinct (sym (received-sockets k k' message rc h)) distinct
step-Distinct {k} {k'} (sends world rc sent h) distinct =
    subst Distinct (sym (sent-sockets world k k' rc sent h)) distinct
step-Distinct {k} {k'} (leaves socket rc h) distinct =
    subst Distinct (sym (left-sockets k k' socket rc h))
      (without-Distinct socket (sockets k.connections) distinct)

-- If no two connections have the same socket, then none have after any events of the event loop, in
-- any order, as long as each socket that is accepted is in no use by then.
pub steps-Distinct :
    {k k' : AppController}
    → k ⟶* k'
    → Distinct (sockets k.connections)
    → Distinct (sockets k'.connections)
steps-Distinct here distinct = distinct
steps-Distinct (further step rest) distinct = steps-Distinct rest (step-Distinct step distinct)
