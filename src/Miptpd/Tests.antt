-- ===== src/Miptpd/Tests.antt =====
-- Runs of the transport daemon on small inputs.
use network_course_uio.Prelude.{
  ℕ, ◌++◌, ◌+◌, ◌*◌, ◌≡◌, refl, false, List, [], ◌∷◌, ◌==◌, leb, if◌then◌else◌, take, drop,
  length-replicate, inl, replicate, arith, some,
}
use network_course_uio.Prelude.Bytes.{bytes16, slice}
use network_course_uio.Miptpd.MiptpPackage.{MiptpPackage}
use network_course_uio.Miptpd.MiptpPackage
use network_course_uio.Miptpd.MiptpPackage.Shifted.{IsMiptp, package_shifted}
use network_course_uio.Miptpd.SendJob.{SendJob, is_complete}
use network_course_uio.Miptpd.SendJob.Segments.{IsJob}
use network_course_uio.Miptpd.SendJob.Window.{Sends, next_packages_window, next_packages_wraps}
use network_course_uio.Miptpd.SendJob.Completion.{is_complete_lem}

abbrev acknowledged : List ℕ
acknowledged = 3 ∷ 2 ∷ 7 ∷ 7 ∷ []

abbrev job : SendJob
job = record {
  port = 700;
  destination = 20;
  timeout = 1000;
  last_ack = 0;
  bytes = 1 ∷ 2 ∷ 3 ∷ [];
  data_size = 3;
  sliding_window = record { window_size = 10; sequence_base = 0; sequence_max = 11 };
}

job-IsJob : IsJob job
job-IsJob = record { stored = refl; fits = omega arith }

is_complete_example : is_complete job ≡ (
    if job.data_size == 0
    then false
    else leb job.data_size ((job.sliding_window.sequence_base + 1) * 1492))
is_complete_example = is_complete_lem job (omega arith) (omega arith)

abbrev buffer : List ℕ
buffer = replicate 1496 0

abbrev short : MiptpPackage
short = record {
  miptp_header = record { pl = 1; port = 700; psn = 2 };
  bytes = 7 ∷ 8 ∷ 9 ∷ [];
  data_size = 3;
}

short-IsMiptp : IsMiptp short
short-IsMiptp = record { pl = omega arith; port = omega arith; psn = omega arith; stored = refl }

package_shifted_example :
    (written : List ℕ) × (MiptpPackage.serialize buffer short ≡ some (4 + short.data_size, written))
    × (MiptpPackage.deserialize (take (4 + short.data_size) written) (4 + short.data_size)
        ≡ some (record short { bytes = take 3 (bytes16 3 ++ short.bytes) }))
package_shifted_example = package_shifted buffer short short-IsMiptp (omega arith) refl

next_packages_window_example : Sends job job-IsJob 0 (1 ∷ 2 ∷ 3 ∷ [])
next_packages_window_example =
    next_packages_window job job-IsJob 0 refl refl (omega arith) (inl (omega arith))

-- 44 packages of data, of which 40 are acknowledged
abbrev long_data : List ℕ
long_data = replicate 64156 0

abbrev long_job : SendJob
long_job = record {
  port = 700;
  destination = 20;
  timeout = 1000;
  last_ack = 0;
  bytes = long_data;
  data_size = 64156;
  sliding_window = record { window_size = 10; sequence_base = 40; sequence_max = 51 };
}

long_job-IsJob : IsJob long_job
long_job-IsJob = record { stored = length-replicate {A = ℕ} 64156 0; fits = omega arith }

next_packages_wraps_example :
    Sends long_job long_job-IsJob 40 (drop 59680 long_data ++ slice 112 10444 long_data)
next_packages_wraps_example =
    next_packages_wraps long_job long_job-IsJob 40 refl refl (omega arith) (omega arith)
      (omega arith)
