-- ===== src/Miptpd/SendJob.antt =====
-- miptpd/src/lib/miptp_send_job.{h,c}: the data of an application, sent in packages of 1492 bytes.
pub mod Segments
pub mod Completion
pub mod Small
pub mod Window
use network_course_uio.Prelude.{
  ℕ, zero, suc, ◌+◌, ◌-◌, ◌*◌, ◌/◌, ◌%◌, ◌^◌, Bool, not, Option, none, some, List, [], ◌∷◌, ltb,
  leb, ◌==◌, if◌then◌else◌,
}
use network_course_uio.Prelude.Bytes.{u16, u32, copy_out}
use network_course_uio.Commons.ClientPackage.{ClientPackage, miptp_receiver}
use network_course_uio.Commons.ClientPackage
use network_course_uio.Commons.Queue.{send}
use network_course_uio.Miptpd.SlidingWindow.{SlidingWindow, update}
use network_course_uio.Miptpd.SlidingWindow
use network_course_uio.Miptpd.MiptpPackage.{MiptpPackage}
use network_course_uio.Miptpd.MiptpPackage

abbrev pub window_size : ℕ
window_size = 10

abbrev pub max_data_batch_size_bytes : ℕ
max_data_batch_size_bytes = 1492

-- `struct MIPTPSendJob`: `bytes` is its `data`.
pub record SendJob : Type 0 where
  pub port : ℕ
  pub destination : ℕ
  pub timeout : ℕ
  pub last_ack : ℕ
  pub bytes : List ℕ
  pub data_size : ℕ
  pub sliding_window : SlidingWindow

-- `MIPTPSendJob_create`; none is a read behind the bytes.
unfoldable pub create :
    (now port destination : ℕ) (bytes : List ℕ) (data_size timeout : ℕ) → Option SendJob
create now port destination bytes data_size timeout = elim (copy_out 0 data_size bytes) [
  | none ↦ none
  | some copied ↦ some (record {
    port = port % 2 ^ 14;
    destination = destination;
    timeout = timeout;
    last_ack = now;
    bytes = copied;
    data_size = data_size;
    sliding_window = SlidingWindow.create 0 window_size;
  })
]

-- `MIPTPSendJob_next_package`: the offset is a word of 16 bits. The outer none is a read behind the
-- data, the inner one NULL.
unfoldable pub next_package : SendJob → (sequence_nr : ℕ) → Option (Option MiptpPackage)
next_package job sequence_nr =
    let index = u16 (sequence_nr * max_data_batch_size_bytes) in
    let end = index + max_data_batch_size_bytes in
    let limit = u16 (if ltb job.data_size end then job.data_size else end) in
    if ltb job.data_size index then some none else elim (copy_out index (limit - index) job.bytes) [
      | none ↦ none
      | some batch ↦ MiptpPackage.create job.port sequence_nr batch (limit - index)
    ]

-- The loop of `MIPTPSendJob_next_packages`, with the number of rounds that the condition allows
unfoldable pub packages_from :
    SendJob → ℕ → (i : ℕ) → List MiptpPackage → Option (List MiptpPackage)
packages_from job zero i packages = some packages
packages_from job (suc n) i packages = elim (next_package job i) [
  | none ↦ none
  | some none ↦ some packages
  | some (some p) ↦ packages_from job n (i + 1) (send packages p)
]

-- `MIPTPSendJob_next_packages`
unfoldable pub next_packages : SendJob → Option (List MiptpPackage)
next_packages job =
    let base = job.sliding_window.sequence_base in
    packages_from job (job.sliding_window.sequence_max - base) base []

-- `MIPTPSendJob_receive_package`
unfoldable pub receive_package : SendJob → MiptpPackage → SendJob
receive_package job p = record job { sliding_window = update job.sliding_window p.miptp_header.psn }

-- `MIPTPSendJob_is_complete`: one is taken from the number of packages as an `unsigned int`.
unfoldable pub is_complete : SendJob → Bool
is_complete job =
    let whole = job.data_size / max_data_batch_size_bytes in
    let num_packages =
      if job.data_size % max_data_batch_size_bytes == 0 then whole else whole + 1 in
    leb (u32 (num_packages + 2 ^ 32 - 1)) job.sliding_window.sequence_base

-- `MIPTPSendJob_is_timed_out`: the difference is an `unsigned long`.
unfoldable pub is_timed_out : (now : ℕ) → SendJob → Bool
is_timed_out now job = ltb job.timeout ((now + 2 ^ 64 - job.last_ack) % 2 ^ 64)

-- `MIPTPSendJob_result`: the three bytes of "OK", or the inner none for NULL
unfoldable pub result : SendJob → Option (Option ClientPackage)
result job =
    if is_complete job
    then ClientPackage.create job.port job.destination miptp_receiver (79 ∷ 75 ∷ 0 ∷ []) 3
    else some none
