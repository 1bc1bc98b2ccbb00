-- ===== src/Miptpd/SendJob/Completion.antt =====
-- When a send job counts as complete.
use network_course_uio.Prelude.{
  ◌+◌, ◌*◌, ◌%◌, ◌^◌, ◌<◌, ◌≡◌, false, leb, ◌==◌, if◌then◌else◌, arith, Bool-cases, inl, inr,
}
use network_course_uio.Miptpd.SendJob.{SendJob, is_complete}

-- A job with data is complete as soon as the packages up to and with the one that its window begins
-- at cover the data, although that package is not acknowledged yet; a job without data never is.
pub is_complete_lem :
    (job : SendJob)
    → job.data_size < 2 ^ 16
    → job.sliding_window.sequence_base < 2 ^ 16
    → is_complete job ≡ (
        if job.data_size == 0
        then false
        else leb job.data_size ((job.sliding_window.sequence_base + 1) * 1492))
unfolding is_complete
is_complete_lem job fits base = elim (Bool-cases (job.data_size % 1492 == 0)) [
  | inl even ↦ ground arith
  | inr odd ↦ ground arith
]
