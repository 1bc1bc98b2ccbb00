-- ===== src/Miptpd/SendJob/Small.antt =====
-- Send jobs whose data fits one package.
use network_course_uio.Prelude.{
  ℕ, ◌-◌, ◌%◌, ◌^◌, ◌≤◌, ◌<◌, ◌≡◌, refl, ◌∙◌, ap, sym, false, some, List, [], ◌∷◌, ltb, length,
  arith, if◌then◌else◌,
}
use network_course_uio.Prelude.Bytes.{u16, copy_out, copy_whole}
use network_course_uio.Miptpd.SlidingWindow.{SlidingWindow}
use network_course_uio.Miptpd.SlidingWindow
use network_course_uio.Miptpd.MiptpPackage.{MiptpPackage, calc_pl}
use network_course_uio.Miptpd.SendJob.{SendJob, create, next_package, packages_from, next_packages}
use network_course_uio.Miptpd.SendJob.Segments.{create_lem, next_package_outside}

-- A job of 1490 bytes at most of which nothing is acknowledged
pub record IsSmall (job : SendJob) : Type 0 where
  pub stored : length job.bytes ≡ job.data_size
  pub small : job.data_size ≤ 1490
  pub port : job.port < 2 ^ 14
  pub base : job.sliding_window.sequence_base ≡ 0
  pub end : job.sliding_window.sequence_max ≡ 11

-- The package that carries all of some bytes
abbrev pub package_for : (port : ℕ) (bytes : List ℕ) (data_size : ℕ) → MiptpPackage
package_for port bytes data_size = record {
  miptp_header = record { pl = calc_pl data_size % 4; port = port; psn = 0 };
  bytes = bytes;
  data_size = data_size;
}

-- The package of such a job
abbrev pub only_package : SendJob → MiptpPackage
only_package job = package_for job.port job.bytes job.data_size

pub create-IsSmall :
    (now port destination : ℕ) (bytes : List ℕ) (data_size timeout : ℕ)
    → length bytes ≡ data_size
    → data_size ≤ 1490
    → (job : SendJob) × (create now port destination bytes data_size timeout ≡ some job)
      × IsSmall job
      × (only_package job ≡ package_for (port % 2 ^ 14) bytes data_size)
unfolding create SlidingWindow.create
create-IsSmall now port destination bytes n timeout stored small =
    let copied : copy_out 0 n bytes ≡ some bytes =
      ap (λ k. copy_out 0 k bytes) (sym stored) ∙ copy_whole bytes in
    (
      record {
        port = port % 2 ^ 14;
        destination = destination;
        timeout = timeout;
        last_ack = now;
        bytes = bytes;
        data_size = n;
        sliding_window = SlidingWindow.create 0 10;
      },
      rw (copied, create) refl,
      record { stored = stored; small = small; port = omega arith; base = refl; end = refl },
      refl,
    )

module _ (job : SendJob) (ok : IsSmall job) where
  next_package_zero : next_package job 0 ≡ some (some (only_package job))
  unfolding next_package
  next_package_zero =
      let copied : copy_out 0 job.data_size job.bytes ≡ some job.bytes =
        ap (λ k. copy_out 0 k job.bytes) (sym ok.stored) ∙ copy_whole job.bytes in
      let limit : u16 (if ltb job.data_size 1492 then job.data_size else 1492) - 0 ≡ job.data_size =
        ground (arith, ok.small) in
      let port : job.port % 2 ^ 14 ≡ job.port = omega (arith, ok.port) in
      let not_behind : ltb job.data_size 0 ≡ false = ground arith in
      rw not_behind (
        rw (limit, copied)
          (rw limit (
            create_lem job.port 0 job.data_size job.bytes ok.stored (omega (arith, ok.small))
            ∙ ap (λ c. some (some (package_for c job.bytes job.data_size))) port)))

  packages_from_zero : packages_from job 11 0 [] ≡ some (only_package job ∷ [])
  unfolding packages_from
  packages_from_zero =
      rw (next_package_zero, packages_from)
        (rw (next_package_outside job 1 (omega arith) (omega (arith, ok.small)), packages_from)
          refl)

  -- The window has room for eleven packages, and the job sends one.
  pub next_packages_lem : next_packages job ≡ some (only_package job ∷ [])
  unfolding next_packages
  next_packages_lem =
      (λ i. packages_from job (ok.end i - ok.base i) (ok.base i) []) ∙ packages_from_zero
