-- ===== src/Miptpd/AppController/Sockets.antt =====
-- miptpd/src/lib/miptp_app_controller.c: a socket belongs to one connection at most.
use network_course_uio.Prelude.{
  ℕ, ◌≡◌, refl, ◌∙◌, ap, subst, Bool, false, ◌||◌, Option, none, some, List, [], ◌∷◌, ◌++◌, arith,
  ℤ, pos, eq_int, ◌+◌, length, eq_int→eq, if◌then◌else◌, inl, inr, Bool-cases, Option-cases, ◌==◌,
  ◌⊎◌,
}
use network_course_uio.Commons.Queue.{waiting}
use network_course_uio.Commons.ClientPackage.{ClientPackage}
use network_course_uio.Miptpd.MiptpPackage.{MiptpPackage}
use network_course_uio.Miptpd.AppConnection.{
  AppConnection, AppConnectionStatus, conn_sender, conn_receiver, conn_not_ready, conn_complete,
  conn_finished, connection_type, create, receive_package, next_packages,
}
use network_course_uio.Miptpd.AppController.{
  World, complete_connection, receive_all, send_all, send_packages, without_socket,
}

abbrev pub sockets : List AppConnection → List ℤ
sockets [] = []
sockets (c ∷ rest) = c.socket ∷ sockets rest

abbrev pub among : List ℤ → ℤ → Bool
among [] socket = false
among (s ∷ rest) socket = eq_int s socket || among rest socket

abbrev pub Distinct : List ℤ → Type 0
Distinct [] = Unit
Distinct (s ∷ rest) = (among rest s ≡ false) × Distinct rest

pub create-socket :
    (now : ℕ) (status : AppConnectionStatus) (socket : ℤ) (port destination : ℕ) (bytes : List ℕ)
    (data_size timeout : ℕ) (c : AppConnection)
    → create now status socket port destination bytes data_size timeout ≡ some (some c)
    → c.socket ≡ socket
unfolding create
create-socket now conn_sender socket port destination bytes data_size timeout c h =
    ground (arith, h)
create-socket now conn_receiver socket port destination bytes data_size timeout c h =
    ground (arith, h)
create-socket now conn_not_ready socket port destination bytes data_size timeout c h =
    ground (arith, h)
create-socket now conn_complete socket port destination bytes data_size timeout c h =
    ground (arith, h)
create-socket now conn_finished socket port destination bytes data_size timeout c h =
    ground (arith, h)

next_packages-socket :
    (c c' : AppConnection) (packages : Option (List MiptpPackage))
    → next_packages c ≡ some (packages, c')
    → c'.socket ≡ c.socket
unfolding next_packages
next_packages-socket c c' packages h = ground (arith, h)

receive_package-socket :
    (c c' : AppConnection) (sender : ℕ) (p : MiptpPackage) (rc : ℤ)
    → receive_package c sender p ≡ some (rc, c')
    → c'.socket ≡ c.socket
unfolding receive_package
receive_package-socket c c' sender p rc h = ground (arith, h)

pub receive_all-sockets :
    (sender : ℕ) (p : MiptpPackage) (cs cs' : List AppConnection) (rc : ℤ)
    → receive_all sender p cs ≡ some (rc, cs')
    → sockets cs' ≡ sockets cs
unfolding receive_all
receive_all-sockets sender p [] cs' rc h = ground (arith, h)
receive_all-sockets sender p (c ∷ rest) cs' rc h =
    elim (Option-cases
      (if c.port == p.miptp_header.port then receive_package c sender p else some (pos 1, c))) [
        | inl stuck ↦ ground (arith, h, stuck)
        | inr ((rc1, c'), run) ↦
            let same : c'.socket ≡ c.socket = elim (Bool-cases (c.port == p.miptp_header.port)) [
              | inl found ↦ receive_package-socket c c' sender p rc1 (ground (arith, run, found))
              | inr other ↦ ground (arith, run, other)
            ] in
            elim (Option-cases (receive_all sender p rest)) [
              | inl stuck ↦ ground (arith, h, run, stuck, same)
              | inr ((rc2, rest'), ran) ↦
                  let kept : sockets rest' ≡ sockets rest =
                    receive_all-sockets sender p rest rest' rc2 ran in
                  ground (arith, h, run, ran, same, kept)
            ]
      ]

pub send_all-sockets :
    (world : World) (i : ℕ) (cs cs' : List AppConnection) (rc : ℤ) (sent : List (List ℕ))
    → send_all world i cs ≡ some (rc, sent, cs')
    → sockets cs' ≡ sockets cs
unfolding send_all
send_all-sockets world i [] cs' rc sent h = ground (arith, h)
send_all-sockets world i (c ∷ rest) cs' rc sent h = elim (Option-cases (next_packages c)) [
  | inl stuck ↦ ground (arith, h, stuck)
  | inr ((none, c'), run) ↦ ground (arith, h, run, next_packages-socket c c' none run)
  | inr ((some packages, c'), run) ↦
      let same : c'.socket ≡ c.socket = next_packages-socket c c' (some packages) run in
      elim (Option-cases (send_packages world i c.connected_mip (waiting packages))) [
        | inl stuck ↦ ground (arith, h, run, stuck)
        | inr ((rc1, sent1), all_sent) ↦
            elim (Option-cases (send_all world (i + length sent1) rest)) [
              | inl stuck ↦ ground (arith, h, run, all_sent, stuck, same)
              | inr ((rc2, sent2, rest'), ran) ↦
                  let kept : sockets rest' ≡ sockets rest =
                    send_all-sockets world (i + length sent1) rest rest' rc2 sent2 ran in
                  ground (arith, h, run, all_sent, ran, same, kept)
            ]
      ]
]

among-append : (xs ys : List ℤ) (s : ℤ) → among (xs ++ ys) s ≡ (among xs s || among ys s)
among-append [] ys s = refl
among-append (x ∷ xs) ys s = ground (arith, among-append xs ys s)

pub sockets-append : (xs ys : List AppConnection) → sockets (xs ++ ys) ≡ sockets xs ++ sockets ys
sockets-append [] ys = refl
sockets-append (x ∷ xs) ys = ap (λ l. x.socket ∷ l) (sockets-append xs ys)

pub Distinct-append :
    (xs : List ℤ) (s : ℤ) → Distinct xs → among xs s ≡ false → Distinct (xs ++ s ∷ [])
Distinct-append [] s distinct new = (refl, tt)
Distinct-append (x ∷ xs) s distinct new = (
  ground (arith, among-append xs (s ∷ []) x, new, distinct.0),
  Distinct-append xs s distinct.1 (ground (arith, new)),
)

-- The sockets after the first connection with a socket is gone
abbrev pub without : ℤ → List ℤ → List ℤ
without socket [] = []
without socket (s ∷ rest) = if eq_int s socket then rest else s ∷ without socket rest

among-without :
    (socket s : ℤ) (xs : List ℤ) → among xs s ≡ false → among (without socket xs) s ≡ false
among-without socket s [] h = refl
among-without socket s (x ∷ xs) h = ground (arith, h, among-without socket s xs)

pub without-Distinct : (socket : ℤ) (xs : List ℤ) → Distinct xs → Distinct (without socket xs)
without-Distinct socket [] distinct = tt
without-Distinct socket (x ∷ xs) distinct = elim (Bool-cases (eq_int x socket)) [
  | inl same ↦ rw same distinct.1
  | inr other ↦
      rw other (among-without socket x xs distinct.0, without-Distinct socket xs distinct.1)
]

pub gone : (socket : ℤ) (xs : List ℤ) → Distinct xs → among (without socket xs) socket ≡ false
gone socket [] distinct = refl
gone socket (x ∷ xs) distinct = elim (Bool-cases (eq_int x socket)) [
  | inl same ↦ rw same (subst (λ s. among xs s ≡ false) (eq_int→eq x socket same) distinct.0)
  | inr other ↦ rw other (rw other (gone socket xs distinct.1))
]

pub without_socket-without :
    (socket : ℤ) (cs : List AppConnection)
    → sockets ((without_socket socket cs).1) ≡ without socket (sockets cs)
unfolding without_socket
without_socket-without socket [] = refl
without_socket-without socket (c ∷ cs) = ground (arith, without_socket-without socket cs)

-- A request leaves the sockets, or moves the one that it comes from to the end.
pub complete_connection-sockets :
    (now timeout : ℕ) (socket : ℤ) (p : ClientPackage) (cs cs' : List AppConnection)
    → complete_connection now timeout socket p cs ≡ some (some cs')
    → (sockets cs' ≡ sockets cs) ⊎ (sockets cs' ≡ without socket (sockets cs) ++ socket ∷ [])
unfolding complete_connection
complete_connection-sockets now timeout socket p [] cs' h = inl (ground (arith, h))
complete_connection-sockets now timeout socket p (c ∷ cs) cs' h =
    elim (Bool-cases (eq_int c.socket socket)) [
      | inl found ↦
          elim (Option-cases (
            create now (connection_type p.client_type) socket p.port p.destination p.bytes
              p.data_size timeout)) [
                | inl stuck ↦ ground (arith, h, found, stuck)
                | inr (none, refused) ↦ ground (arith, h, found, refused)
                | inr (some new, made) ↦
                    let its : new.socket ≡ socket =
                      create-socket now (connection_type p.client_type) socket p.port p.destination
                        p.bytes p.data_size timeout new made in
                    let list : sockets (cs ++ new ∷ []) ≡ sockets cs ++ new.socket ∷ [] =
                      sockets-append cs (new ∷ []) in
                    let after : cs' ≡ cs ++ new ∷ [] = ground (arith, h, found, made) in
                    inr (rw found (ap sockets after ∙ list ∙ ap (λ s. sockets cs ++ s ∷ []) its))
              ]
      | inr other ↦ elim (Option-cases (complete_connection now timeout socket p cs)) [
        | inl stuck ↦ ground (arith, h, other, stuck)
        | inr (none, refused) ↦ ground (arith, h, other, refused)
        | inr (some rest', ran) ↦
            let after : cs' ≡ c ∷ rest' = ground (arith, h, other, ran) in
            elim (complete_connection-sockets now timeout socket p cs rest' ran) [
              | inl same ↦ inl (ap sockets after ∙ ap (λ l. c.socket ∷ l) same)
              | inr moved ↦ inr (rw other (ap sockets after ∙ ap (λ l. c.socket ∷ l) moved))
            ]
      ]
    ]
