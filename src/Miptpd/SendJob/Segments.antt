-- ===== src/Miptpd/SendJob/Segments.antt =====
-- The packages of a send job carry its data.
use network_course_uio.Prelude.{
  ℕ, zero, suc, ◌+◌, ◌-◌, ◌*◌, ◌%◌, ◌^◌, ◌≤◌, ◌<◌, ◌≡◌, refl, ◌∙◌, ap, sym, false, none, some, List,
  [], ◌∷◌, ◌++◌, ltb, leb, le→leb, leb→le, lt→ltb, take_all, take_nil, if◌then◌else◌, length, take,
  drop, arith, Bool-cases, inl, inr, length-take, length-drop, append-nil,
}
use network_course_uio.Prelude.Bytes.{u16, slice, copy_out, copy_out_inside, copy_whole}
use network_course_uio.Miptpd.MiptpPackage.{MiptpPackage, MiptpHeader, calc_pl}
use network_course_uio.Miptpd.MiptpPackage
use network_course_uio.Miptpd.SendJob.{SendJob, next_package}

-- The data of a job is as long as it says, and no longer than a word of 16 bits can say.
pub record IsJob (job : SendJob) : Type 0 where
  pub stored : length job.bytes ≡ job.data_size
  pub fits : job.data_size < 2 ^ 16

-- What a receiver takes out of the packages with the numbers below `n`, in order
abbrev pub received : SendJob → ℕ → List ℕ
received job zero = []
received job (suc n) =
    received job n ++ elim (next_package job n) [ some (some p) ↦ p.bytes | _ ↦ [] ]

-- How many bytes the package whose data begins at `k` carries
abbrev count : SendJob → (k : ℕ) → ℕ
count job k = if ltb job.data_size (k + 1492) then job.data_size - k else 1492

slice-count :
    (job : SendJob) (k : ℕ)
    → IsJob job
    → k ≤ job.data_size
    → slice k (count job k) job.bytes ≡ slice k 1492 job.bytes
slice-count job k ok inside = elim (Bool-cases (ltb job.data_size (k + 1492))) [
  | inl short ↦
      let left : length (drop k job.bytes) ≡ job.data_size - k =
        omega (arith, length-drop k job.bytes, ok.stored) in
      let below : job.data_size - k ≤ 1492 = ground arith in
      rw short (
        take_all (job.data_size - k) _ (omega (arith, left))
        ∙ sym (take_all 1492 _ (omega (arith, left, below))))
  | inr long ↦ rw long refl
]

pub create_lem :
    (port psn n : ℕ) (batch : List ℕ)
    → length batch ≡ n
    → n ≤ 1492
    → MiptpPackage.create port psn batch n
      ≡ some (
          some (record {
            miptp_header = record { pl = calc_pl n % 4; port = port % 2 ^ 14; psn = psn };
            bytes = batch;
            data_size = n;
          }))
create_lem port psn n batch carried small =
    let copied : copy_out 0 n batch ≡ some batch =
      ap (λ k. copy_out 0 k batch) (sym carried) ∙ copy_whole batch in
    unfold MiptpPackage.create in rw (le→leb n 1492 small, copied) refl

not_behind : (size k : ℕ) → k ≤ size → ltb size k ≡ false
not_behind size k inside = ground arith

limit_lem :
    (size k : ℕ)
    → size < 2 ^ 16
    → k ≤ size
    → u16 (if ltb size (k + 1492) then size else k + 1492) - k
      ≡ (if ltb size (k + 1492) then size - k else 1492)
limit_lem size k fits inside = elim (Bool-cases (ltb size (k + 1492))) [
  | inl short ↦ rw short (omega arith)
  | inr long ↦ rw long (ground arith)
]

-- The package with the number `i` carries the data from `k` on, where `k` is the offset as a word.
pub next_package_at :
    (job : SendJob) (i k : ℕ)
    → IsJob job
    → u16 (i * 1492) ≡ k
    → k ≤ job.data_size
    → (p : MiptpPackage) × (next_package job i ≡ some (some p))
      × (p.bytes ≡ slice k 1492 job.bytes)
      × (p.miptp_header.psn ≡ i)
unfolding next_package
next_package_at job i k ok index inside =
    let n = count job k in
    let there : k + n ≤ length job.bytes = ground (arith, ok.stored) in
    let limit : u16 (if ltb job.data_size (k + 1492) then job.data_size else k + 1492) - k ≡ n =
      limit_lem job.data_size k ok.fits inside in
    let batch = slice k n job.bytes in
    let p : MiptpPackage = record {
      miptp_header = record { pl = calc_pl n % 4; port = job.port % 2 ^ 14; psn = i };
      bytes = batch;
      data_size = n;
    } in
    let carried : length batch ≡ n =
      ground (arith, length-take n (drop k job.bytes), length-drop k job.bytes) in
    let size : n ≤ 1492 = ground arith in
    let same : batch ≡ slice k 1492 job.bytes = slice-count job k ok inside in
    (
      p,
      rw (index, next_package)
          (rw (not_behind job.data_size k inside) (
            rw (limit, copy_out_inside k n job.bytes there)
              (rw (index, limit) (create_lem job.port i n batch carried size)))),
      same,
      refl,
    )

pub next_package_behind :
    (job : SendJob) (i k : ℕ)
    → u16 (i * 1492) ≡ k
    → job.data_size < k
    → next_package job i ≡ some none
unfolding next_package
next_package_behind job i k index outside =
    rw (index, next_package) (rw (lt→ltb job.data_size k outside) refl)

pub next_package_outside :
    (job : SendJob) (i : ℕ) → i < 44 → job.data_size < i * 1492 → next_package job i ≡ some none
next_package_outside job i small outside =
    next_package_behind job i (i * 1492) (omega arith) outside

pub take_add : (n m : ℕ) (l : List ℕ) → take n l ++ take m (drop n l) ≡ take (n + m) l
take_add zero m l = ap (λ k. take k l) (omega arith)
take_add (suc n) m [] = take_nil m ∙ sym (take_nil (suc n + m))
take_add (suc n) m (x ∷ l) =
    let step : suc n + m ≡ suc (n + m) = omega arith in rw step (ap (λ t. x ∷ t) (take_add n m l))

-- The packages with the numbers below `n`, of 44 at most, carry the first `n * 1492` bytes of the
-- data, in order and nothing twice.
pub received_lem :
    (job : SendJob) (n : ℕ) → IsJob job → n ≤ 44 → received job n ≡ take (n * 1492) job.bytes
received_lem job zero ok small = refl
received_lem job (suc n) ok small =
    let before = received_lem job n ok (omega arith) in
    let next : suc n * 1492 ≡ n * 1492 + 1492 = omega arith in
    elim (Bool-cases (leb (n * 1492) job.data_size)) [
      | inl inside ↦
          let (p, made, bytes, number) =
            next_package_at job n (n * 1492) ok (omega arith) (leb→le _ _ inside) in
          rw (before, made) (rw (bytes, next) (take_add (n * 1492) 1492 job.bytes))
      | inr beyond ↦
          let outside : job.data_size < n * 1492 = ground arith in
          let none_made = next_package_outside job n (omega arith) outside in
          rw (before, none_made)
            (append-nil (take (n * 1492) job.bytes)
              ∙ take_all (n * 1492) job.bytes (omega (arith, ok.stored, outside))
              ∙ sym (take_all (suc n * 1492) job.bytes (omega (arith, ok.stored, outside))))
    ]
