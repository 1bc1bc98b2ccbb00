-- ===== src/Miptpd/AppController/Outgoing.antt =====
-- miptpd/src/lib/miptp_app_controller.c: what the connections send in a round.
use network_course_uio.Prelude.{
  ℕ, ◌+◌, ◌≡◌, refl, ◌∙◌, ap, true, none, some, Option, List, [], ◌∷◌, ◌++◌, length, All, arith, ℤ,
  pos, minus_one, eq_int, if◌then◌else◌, Bool, inl, inr, Bool-cases,
}
use network_course_uio.Commons.Queue.{waiting}
use network_course_uio.Commons.MipdMessage.Roundtrip.{message_bytes}
use network_course_uio.Miptpd.MiptpPackage.{MiptpPackage, calc_pl}
use network_course_uio.Miptpd.MiptpPackage.Shifted.{IsMiptp}
use network_course_uio.Miptpd.SendJob.{SendJob}
use network_course_uio.Miptpd.SendJob.Small.{IsSmall, only_package}
use network_course_uio.Miptpd.SendJob.Small
use network_course_uio.Miptpd.ReceiveJob.{ReceiveJob}
use network_course_uio.Miptpd.AppConnection.{
  AppConnection, conn_sender, conn_not_ready, next_packages,
}
use network_course_uio.Miptpd.AppController.{
  AppController, World, send_packages, send_all, handle_outgoing,
}
use network_course_uio.Miptpd.AppController.Sending.{IsWorld, message_of, send_package_lem}

-- A connection that waits for its application's package, or sends the data of one
pub data IsConnection : AppConnection → Type 0 where
  waits :
      {port mip : ℕ} {socket : ℤ} {s : Option SendJob} {r : Option ReceiveJob}
      → IsConnection (record {
        port = port;
        socket = socket;
        connected_mip = mip;
        status = conn_not_ready;
        s_job = s;
        r_job = r;
      })
  sends_job :
      {port mip : ℕ} {socket : ℤ} {job : SendJob} {r : Option ReceiveJob}
      → IsSmall job
      → IsConnection (record {
        port = port;
        socket = socket;
        connected_mip = mip;
        status = conn_sender;
        s_job = some job;
        r_job = r;
      })

-- The packages that such a connection sends
abbrev pub due : AppConnection → List MiptpPackage
due c = elim c.status [
  | conn_sender ↦ elim c.s_job [ none ↦ [] | some job ↦ only_package job ∷ [] ]
  | _ ↦ []
]

-- The messages that carry them
abbrev pub messages : (destination : ℕ) → List MiptpPackage → List (List ℕ)
messages destination [] = []
messages destination (p ∷ ps) = message_bytes (message_of destination p) ∷ messages destination ps

abbrev pub due_messages : List AppConnection → List (List ℕ)
due_messages [] = []
due_messages (c ∷ rest) = messages c.connected_mip (due c) ++ due_messages rest

next_packages-due : (c : AppConnection) → IsConnection c → next_packages c ≡ some (some (due c), c)
unfolding next_packages
next_packages-due c waits = refl
next_packages-due c (sends_job {job = job} small) =
    rw (Small.next_packages_lem job small, next_packages) refl

only_package-IsMiptp : (job : SendJob) → IsSmall job → IsMiptp (only_package job)
unfolding calc_pl
only_package-IsMiptp job small = record {
  pl = omega arith;
  port = small.port;
  psn = omega arith;
  stored = small.stored;
}

abbrev outcome : Bool → AppConnection → ℤ × List (List ℕ)
outcome success c =
    if success
    then (pos 1, messages c.connected_mip (due c))
    else (elim (due c) [ [] ↦ pos 1 | _ ↦ minus_one ], [])

-- What becomes of the packages of a connection, whether the socket takes them or not
send_due :
    (world : World) (i : ℕ) (c : AppConnection)
    → IsWorld world
    → IsConnection c
    → send_packages world i c.connected_mip (waiting (due c)) ≡ some (outcome (world.sends i) c)
unfolding send_packages
send_due world i c room waits = elim (Bool-cases (world.sends i)) [
  | inl success ↦ rw success refl
  | inr failure ↦ rw failure refl
]
send_due world i c room (sends_job {mip = mip} {job = job} small) =
    let sent =
      send_package_lem world i mip (only_package job) room (only_package-IsMiptp job small)
        small.small in
    elim (Bool-cases (world.sends i)) [
      | inl success ↦ rw (sent, send_packages) (rw success refl)
      | inr failure ↦ rw (sent, send_packages) (rw failure refl)
    ]

-- Whatever the socket takes, the connections stay as they are.
pub send_all_total :
    (world : World) (i : ℕ) (cs : List AppConnection)
    → IsWorld world
    → All IsConnection cs
    → (rc : ℤ) × (sent : List (List ℕ)) × (send_all world i cs ≡ some (rc, sent, cs))
unfolding send_all
send_all_total world i [] room ok = (pos 1, [], refl)
send_all_total world i (c ∷ cs) room ok =
    let rc = (outcome (world.sends i) c).0 in
    let sent = (outcome (world.sends i) c).1 in
    elim (Bool-cases (eq_int rc minus_one)) [
      | inl refused ↦ (
        minus_one,
        sent,
        rw (next_packages-due c ok.0, send_all)
            (rw (send_due world i c room ok.0) (rw refused refl)),
      )
      | inr taken ↦
          let (rc', sent', run) = send_all_total world (i + length sent) cs room ok.1 in
          (
            rc',
            sent ++ sent',
            rw (next_packages-due c ok.0, send_all)
                (rw (send_due world i c room ok.0) (rw (taken, run) refl)),
          )
    ]

send_all_ok :
    (world : World) (i : ℕ) (cs : List AppConnection)
    → IsWorld world
    → ((k : ℕ) → world.sends k ≡ true)
    → All IsConnection cs
    → send_all world i cs ≡ some (pos 1, due_messages cs, cs)
unfolding send_all
send_all_ok world i [] room success ok = refl
send_all_ok world i (c ∷ cs) room success ok =
    let sent = send_due world i c room ok.0 ∙ ap (λ b. some (outcome b c)) (success i) in
    rw (next_packages-due c ok.0, send_all)
      (rw sent (
        rw (send_all_ok world (i + length (messages c.connected_mip (due c))) cs room success ok.1)
          refl))

-- If the socket takes everything, a round sends for every connection that sends one message, in the
-- order of the connections, and leaves the connections as they are.
pub handle_outgoing_lem :
    (world : World) (controller : AppController)
    → IsWorld world
    → ((k : ℕ) → world.sends k ≡ true)
    → All IsConnection controller.connections
    → handle_outgoing world controller
      ≡ some (pos 1, due_messages controller.connections, controller)
unfolding handle_outgoing
handle_outgoing_lem world controller room success ok =
    rw (send_all_ok world 0 controller.connections room success ok, handle_outgoing) refl
