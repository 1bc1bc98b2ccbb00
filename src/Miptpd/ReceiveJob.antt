-- ===== src/Miptpd/ReceiveJob.antt =====
-- miptpd/src/lib/miptp_receive_job.{h,c}: the data of a connection whose application receives.
use network_course_uio.Prelude.{
  ℕ, ◌+◌, ◌-◌, ◌^◌, ◌%◌, Bool, Option, none, some, List, [], ltb, ◌==◌, if◌then◌else◌, replicate, ℤ,
  pos, minus_one, eq_int,
}
use network_course_uio.Prelude.Bytes.{read16, copy_in, copy_out}
use network_course_uio.Commons.ClientPackage.{ClientPackage, miptp_sender, max_data_size_bytes}
use network_course_uio.Commons.ClientPackage
use network_course_uio.Miptpd.MiptpPackage.{MiptpPackage, create_from}

-- `enum MIPTPReceiveJobStatus`; a job begins with none of them, the 0 of `calloc`.
abbrev pub rjob_waiting_for_connection : ℕ
rjob_waiting_for_connection = 1

abbrev pub rjob_waiting_for_package : ℕ
rjob_waiting_for_package = 2

abbrev pub rjob_ack_ready : ℕ
rjob_ack_ready = 3

-- `struct MIPTPReceiveJob`: `bytes` is its `data`.
pub record ReceiveJob : Type 0 where
  pub port : ℕ
  pub sender : ℕ
  pub status : ℕ
  pub timeout : ℕ
  pub last_package_time : ℕ
  pub bytes : List ℕ
  pub data_received : ℕ
  pub data_size : ℕ
  pub request_nr : ℕ

-- `MIPTPReceiveJob_create`
unfoldable pub create : (port timeout : ℕ) → ReceiveJob
create port timeout = record {
  port = port % 2 ^ 14;
  sender = 0;
  status = 0;
  timeout = timeout;
  last_package_time = 0;
  bytes = replicate max_data_size_bytes 0;
  data_received = 0;
  data_size = 0;
  request_nr = 0;
}

-- `MIPTPReceiveJob_next_package`, which gives the null pointer for the data
unfoldable pub next_package : ReceiveJob → (sequence_nr : ℕ) → Option (Option MiptpPackage)
next_package job sequence_nr = create_from job.port sequence_nr none 0

-- `MIPTPReceiveJob_next_packages`: the inner none is NULL. A package would be returned in the place of
-- a queue, which is the outer none.
unfoldable pub next_packages : ReceiveJob → Option (Option (List MiptpPackage) × ReceiveJob)
next_packages job =
    if job.status == rjob_ack_ready
    then elim (next_package job job.request_nr) [
      | none ↦ none
      | some none ↦ some (none, job)
      | some (some ack_package) ↦ none
    ]
    else some (some [], job)

-- `MIPTPReceiveJob_get_data_size_from_package`; none is a read behind the data.
unfoldable pub get_data_size_from_package : MiptpPackage → Option ℕ
get_data_size_from_package p = elim (copy_out 0 2 p.bytes) [
  | none ↦ none
  | some size ↦ some (read16 size 0)
]

-- `MIPTPReceiveJob_append_data`: it comes to its error label after the copy too.
unfoldable pub append_data :
    ReceiveJob → (bytes : List ℕ) → (data_size : ℕ) → Option (ℤ × ReceiveJob)
append_data job bytes data_size = elim (copy_out 0 data_size bytes) [
  | none ↦ none
  | some copied ↦ elim (copy_in job.data_received copied job.bytes) [
    | none ↦ none
    | some written ↦ some (minus_one, record job { bytes = written })
  ]
]

-- `MIPTPReceiveJob_is_complete`
unfoldable pub is_complete : ReceiveJob → Bool
is_complete job = job.data_received == job.data_size

-- `MIPTPReceiveJob_receive_package`: the return code and the job
unfoldable pub receive_package : ReceiveJob → (sender : ℕ) → MiptpPackage → Option (ℤ × ReceiveJob)
receive_package job sender p =
    if job.status == rjob_waiting_for_connection
    then elim (get_data_size_from_package p) [
      | none ↦ none
      | some size ↦ some (
        pos 1,
        record job { sender = sender; data_size = size; status = rjob_waiting_for_package },
      )
    ]
    else if is_complete job
    then some (pos 1, job)
    else elim (append_data job p.bytes p.data_size) [
      | none ↦ none
      | some (rc, appended) ↦ some (if eq_int rc minus_one then minus_one else pos 1, appended)
    ]

-- `MIPTPReceiveJob_timedout`: the difference is an `unsigned long`.
unfoldable pub timedout : (now : ℕ) → ReceiveJob → Bool
timedout now job = ltb job.timeout ((now + 2 ^ 64 - job.last_package_time) % 2 ^ 64)

-- `MIPTPReceiveJob_result`: the inner none is NULL.
unfoldable pub result : ReceiveJob → Option (Option ClientPackage)
result job =
    if is_complete job
    then ClientPackage.create 0 0 miptp_sender job.bytes job.data_received
    else some none
