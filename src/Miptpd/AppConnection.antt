-- ===== src/Miptpd/AppConnection.antt =====
-- miptpd/src/lib/app_connection.{h,c}: the connection of an application to the transport daemon.
use network_course_uio.Prelude.{
  ℕ, ◌-◌, ◌^◌, ◌%◌, Bool, true, false, Option, none, some, List, [], ◌==◌, if◌then◌else◌, ℤ, pos,
  minus_one, eq_int,
}
use network_course_uio.Commons.ClientPackage.{ClientPackage, miptp_sender, miptp_receiver}
use network_course_uio.Miptpd.MiptpPackage.{MiptpPackage}
use network_course_uio.Miptpd.SendJob.{SendJob}
use network_course_uio.Miptpd.SendJob
use network_course_uio.Miptpd.ReceiveJob.{ReceiveJob}
use network_course_uio.Miptpd.ReceiveJob

-- `enum AppConnectionStatus`
pub data AppConnectionStatus : Type 0 where
  conn_sender conn_receiver conn_not_ready conn_complete conn_finished : AppConnectionStatus

-- `struct AppConnection`: a job that is none is `NULL`.
pub record AppConnection : Type 0 where
  pub port : ℕ
  pub socket : ℤ
  pub connected_mip : ℕ
  pub status : AppConnectionStatus
  pub s_job : Option SendJob
  pub r_job : Option ReceiveJob

-- `connection_type`
unfoldable pub connection_type : (client_type : ℕ) → AppConnectionStatus
connection_type client_type =
    if client_type == miptp_sender
    then conn_sender
    else if client_type == miptp_receiver
    then conn_receiver
    else conn_not_ready

-- `AppConnection_create`: the outer none is a read behind the bytes, the inner one NULL. For a receiver
-- the send job is tested, and not the receive job. The function is declared to return an `int`: the
-- pointer that it returns is taken to be kept by the conversion to `int` and back, as it is where it
-- has a value of less than 2^31.
unfoldable pub create :
    (now : ℕ)
    → AppConnectionStatus
    → (socket : ℤ) → (port destination : ℕ) → (bytes : List ℕ) → (data_size timeout : ℕ)
    → Option (Option AppConnection)
create now status socket port destination bytes data_size timeout =
    let connection : AppConnection = record {
      port = port % 2 ^ 14;
      socket = socket;
      connected_mip = destination;
      status = status;
      s_job = none;
      r_job = none;
    } in
    elim status [
      | conn_sender ↦
          elim (SendJob.create now connection.port connection.connected_mip bytes data_size
            timeout) [
              | none ↦ none
              | some job ↦ some (some (record connection { s_job = some job }))
            ]
      | conn_receiver ↦
          let with_job = record connection {
            r_job = some (ReceiveJob.create connection.port timeout);
          } in
          elim with_job.s_job [ none ↦ some none | some job ↦ some (some with_job) ]
      | _ ↦ some (some connection)
    ]

-- `AppConnection_create_not_ready`: the port is -1 as a word of 16 bits. It returns the pointer as an
-- `int` too, which is taken to keep it.
unfoldable pub create_not_ready : (now : ℕ) (socket : ℤ) → Option (Option AppConnection)
create_not_ready now socket = create now conn_not_ready socket (2 ^ 16 - 1) 0 [] 0 0

-- `AppConnection_next_packages`: the outer none is a null pointer that is used, the inner one NULL.
unfoldable pub next_packages : AppConnection → Option (Option (List MiptpPackage) × AppConnection)
next_packages connection = elim connection.status [
  | conn_sender ↦ elim connection.s_job [
    | none ↦ none
    | some job ↦ elim (SendJob.next_packages job) [
      | none ↦ none
      | some packages ↦ some (some packages, connection)
    ]
  ]
  | conn_receiver ↦ elim connection.r_job [
    | none ↦ none
    | some job ↦ elim (ReceiveJob.next_packages job) [
      | none ↦ none
      | some (packages, job') ↦ some (packages, record connection { r_job = some job' })
    ]
  ]
  | _ ↦ some (some [], connection)
]

-- `AppConnection_receive_package`: the return code and the connection
unfoldable pub receive_package :
    AppConnection → (sender : ℕ) → MiptpPackage → Option (ℤ × AppConnection)
receive_package connection sender p = elim connection.status [
  | conn_sender ↦ elim connection.s_job [
    | none ↦ none
    | some job ↦
        let job' = SendJob.receive_package job p in
        let received = record connection { s_job = some job' } in
        some (
          pos 1,
          if SendJob.is_complete job' then record received { status = conn_complete } else received,
        )
  ]
  | conn_receiver ↦ elim connection.r_job [
    | none ↦ none
    | some job ↦ elim (ReceiveJob.receive_package job sender p) [
      | none ↦ none
      | some (rc, job') ↦
          let received = record connection { r_job = some job' } in
          some (
            if eq_int rc minus_one
            then (minus_one, received)
            else if ReceiveJob.is_complete job'
            then (pos 1, record received { status = conn_complete })
            else (pos 1, received))
    ]
  ]
  | _ ↦ some (pos 1, connection)
]

-- `AppConnection_result`: the outer none is a null pointer that is used, the inner one NULL.
unfoldable pub result : AppConnection → Option (Option ClientPackage)
result connection = elim connection.status [
  | conn_sender ↦ elim connection.s_job [
    | none ↦ none
    | some job ↦ if SendJob.is_complete job then SendJob.result job else some none
  ]
  | conn_receiver ↦ elim connection.r_job [
    | none ↦ none
    | some job ↦ if ReceiveJob.is_complete job then ReceiveJob.result job else some none
  ]
  | _ ↦ some none
]

-- `AppConnection_is_complete`
unfoldable pub is_complete : AppConnection → Bool
is_complete connection = elim connection.status [ conn_complete ↦ true | _ ↦ false ]
