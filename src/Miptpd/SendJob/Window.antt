-- ===== src/Miptpd/SendJob/Window.antt =====
-- miptpd/src/lib/miptp_send_job.c: the packages of a window.
use network_course_uio.Prelude.{
  ℕ, zero, suc, ◌+◌, ◌-◌, ◌*◌, ◌/◌, ◌%◌, ◌^◌, ◌≤◌, ◌<◌, ◌≡◌, false, refl, ◌∙◌, ap, sym, subst, ◌⊎◌,
  leb→le, some, List, [], ◌∷◌, ◌++◌, arith, drop, append-nil, append_assoc, length, take_all,
  length-drop, length-append, Bool-cases, inl, inr, leb,
}
use network_course_uio.Prelude.Bytes.{u16, slice}
use network_course_uio.Commons.Queue.{waiting}
use network_course_uio.Miptpd.MiptpPackage.{MiptpPackage}
use network_course_uio.Miptpd.SendJob.{SendJob, next_package, packages_from, next_packages}
use network_course_uio.Miptpd.SendJob.Segments.{
  IsJob, next_package_at, next_package_behind, take_add,
}

-- The data that packages carry, in order
abbrev pub payload : List MiptpPackage → List ℕ
payload [] = []
payload (p ∷ rest) = p.bytes ++ payload rest

-- The packages have the numbers from `i` on.
abbrev pub NumberedFrom : ℕ → List MiptpPackage → Type 0
NumberedFrom i [] = Unit
NumberedFrom i (p ∷ rest) = (p.miptp_header.psn ≡ i) × NumberedFrom (i + 1) rest

payload-append : (ps qs : List MiptpPackage) → payload (ps ++ qs) ≡ payload ps ++ payload qs
payload-append [] qs = refl
payload-append (p ∷ ps) qs =
    ap (λ l. p.bytes ++ l) (payload-append ps qs)
    ∙ sym (append_assoc p.bytes (payload ps) (payload qs))

not_le : (a b : ℕ) → leb a b ≡ false → b < a
not_le a b h = ground arith

NumberedFrom-append :
    (ps qs : List MiptpPackage) (i j : ℕ)
    → NumberedFrom i ps
    → j ≡ i + length ps
    → NumberedFrom j qs
    → NumberedFrom i (ps ++ qs)
NumberedFrom-append [] qs i j first at rest =
    let same : j ≡ i = omega (arith, at) in subst (λ n. NumberedFrom n qs) same rest
NumberedFrom-append (p ∷ ps) qs i j first at rest =
    (first.0, NumberedFrom-append ps qs (i + 1) j first.1 (omega (arith, at)) rest)

drop_nil : (n : ℕ) → drop {A = ℕ} n [] ≡ []
drop_nil zero = refl
drop_nil (suc n) = refl

drop_add : (k n : ℕ) (l : List ℕ) → drop n (drop k l) ≡ drop (k + n) l
drop_add zero n l = ap (λ j. drop j l) (omega arith)
drop_add (suc k) n [] = drop_nil n ∙ sym (drop_nil (suc k + n))
drop_add (suc k) n (x ∷ l) =
    let step : suc k + n ≡ suc (k + n) = omega arith in rw step (drop_add k n l)

-- What `n` rounds from the number `i` on add to a queue
pub record Adds (job : SendJob) (i n k : ℕ) (before after : List MiptpPackage)
    (ps : List MiptpPackage) : Type 0 where
  pub queued : waiting after ≡ waiting before ++ ps
  pub carried : payload ps ≡ slice k (n * 1492) job.bytes
  pub numbered : NumberedFrom i ps
  pub many : length ps ≡ n

module _ (job : SendJob) (ok : IsJob job) where
  one_round :
      (m i : ℕ) (p : MiptpPackage) (queue : List MiptpPackage)
      → next_package job i ≡ some (some p)
      → packages_from job (suc m) i queue ≡ packages_from job m (i + 1) (p ∷ queue)
  unfolding packages_from
  one_round m i p queue made = rw (made, packages_from) refl

  two_slices :
      (k n : ℕ)
      → slice k (n * 1492) job.bytes ++ slice (k + n * 1492) 1492 job.bytes
        ≡ slice k (suc n * 1492) job.bytes
  two_slices k n =
      let next : suc n * 1492 ≡ n * 1492 + 1492 = omega arith in
      rw (next, ← drop_add k (n * 1492) job.bytes) (take_add (n * 1492) 1492 (drop k job.bytes))

  pub packages_from_run :
      (n m i k : ℕ) (before : List MiptpPackage)
      → i * 1492 % 2 ^ 16 ≡ k
      → k + n * 1492 < job.data_size + 1493
      → (ps after : List MiptpPackage) × (packages_from job (n + m) i before
          ≡ packages_from job m (i + n) after)
        × Adds job i n k before after ps
  packages_from_run zero m i k before index inside = (
    [],
    before,
    (λ t. packages_from job (start m t) (there t) before),
    record {
      queued = sym (append-nil (waiting before));
      carried = refl;
      numbered = tt;
      many = refl;
    },
  )
    where
      start : (m : ℕ) → 0 + m ≡ m
      start m = omega arith

      there : i ≡ i + 0
      there = omega arith
  packages_from_run (suc n) m i k before index inside =
      let (ps, after, run, adds) = packages_from_run n (suc m) i k before index (omega arith) in
      let index_n : u16 ((i + n) * 1492) ≡ k + n * 1492 = omega (arith, ok.fits) in
      let inside_n : k + n * 1492 ≤ job.data_size = omega arith in
      let (p, made, bytes, number) =
        next_package_at job (i + n) (k + n * 1492) ok index_n inside_n in
      let rounds : suc n + m ≡ n + suc m = omega arith in
      let next : i + n + 1 ≡ i + suc n = omega arith in
      (
        ps ++ p ∷ [],
        p ∷ after,
        (λ t. packages_from job (rounds t) i before)
            ∙ run
            ∙ one_round m (i + n) p after made
            ∙ (λ t. packages_from job m (next t) (p ∷ after)),
        record {
          queued = ap (λ q. q ++ p ∷ []) adds.queued ∙ append_assoc (waiting before) ps (p ∷ []);
          carried =
              payload-append ps (p ∷ [])
              ∙ ap (λ l. payload ps ++ l) (append-nil p.bytes ∙ bytes)
              ∙ ap (λ l. l ++ slice (k + n * 1492) 1492 job.bytes) adds.carried
              ∙ two_slices k n;
          numbered =
              NumberedFrom-append ps (p ∷ []) i (i + n) adds.numbered (omega (arith, adds.many))
                (number, tt);
          many = omega (arith, adds.many, length-append ps (p ∷ []));
        },
      )

  stops :
      (m i k : ℕ) (queue : List MiptpPackage)
      → u16 (i * 1492) ≡ k
      → job.data_size < k
      → packages_from job m i queue ≡ some queue
  unfolding packages_from
  stops zero i k queue index outside = refl
  stops (suc m) i k queue index outside =
      rw (next_package_behind job i k index outside, packages_from) refl

  packages_from_zero :
      (i : ℕ) (queue : List MiptpPackage) → packages_from job 0 i queue ≡ some queue
  unfolding packages_from
  packages_from_zero i queue = refl

  short_slice :
      (k n m : ℕ)
      → job.data_size ≤ k + n
      → job.data_size ≤ k + m
      → slice k n job.bytes ≡ slice k m job.bytes
  short_slice k n m short_n short_m =
      let left = length-drop k job.bytes in
      take_all n (drop k job.bytes) (omega (arith, left, ok.stored))
      ∙ sym (take_all m (drop k job.bytes) (omega (arith, left, ok.stored)))

  -- What a window from the number `b` on sends: the queue, whose packages carry `bytes`
  abbrev pub Sends : (b : ℕ) (bytes : List ℕ) → Type 0
  Sends b bytes =
      (queue : List MiptpPackage) × (next_packages job ≡ some queue)
      × (payload (waiting queue) ≡ bytes)
      × NumberedFrom b (waiting queue)

  module _ (b : ℕ) (base : job.sliding_window.sequence_base ≡ b)
      (end : job.sliding_window.sequence_max ≡ b + 11) where
    eleven_rounds : next_packages job ≡ packages_from job 11 b []
    unfolding next_packages
    eleven_rounds =
        let eleven : b + 11 - b ≡ 11 = omega arith in
        (λ t. packages_from job (end t - base t) (base t) [])
        ∙ (λ t. packages_from job (eleven t) b [])

    sends :
        (n m : ℕ)
        → n + m ≡ 11
        → b * 1492 < 2 ^ 16
        → b * 1492 + n * 1492 < job.data_size + 1493
        → ((after : List MiptpPackage) → packages_from job m (b + n) after ≡ some after)
        → Sends b (slice (b * 1492) (n * 1492) job.bytes)
    sends n m eleven word inside ends =
        let index : u16 (b * 1492) ≡ b * 1492 = omega arith in
        let (ps, after, run, adds) = packages_from_run n m b (b * 1492) [] index inside in
        (
          after,
          eleven_rounds ∙ ap (λ r. packages_from job r b []) (sym eleven) ∙ run ∙ ends after,
          ap payload adds.queued ∙ adds.carried,
          subst (NumberedFrom b) (sym adds.queued) adds.numbered,
        )

    -- A window that begins at the package `b`, inside the data, sends the packages from `b` on, of eleven
    -- at most, and they carry the data from there on; if the window ends in front of the package 44, or
    -- the data fills fewer than 43 packages.
    pub next_packages_window :
        b * 1492 ≤ job.data_size
        → (b < 34) ⊎ (job.data_size < 43 * 1492)
        → Sends b (slice (b * 1492) (11 * 1492) job.bytes)
    next_packages_window inside small =
        elim (Bool-cases (leb (b * 1492 + 11 * 1492) (job.data_size + 1492))) [
          | inl full ↦
              sends 11 0 (omega arith) (omega (arith, ok.fits)) (omega (arith, leb→le _ _ full))
                (λ after. packages_from_zero (b + 11) after)
          | inr partial ↦
              let behind : job.data_size + 1492 < b * 1492 + 11 * 1492 = not_le _ _ partial in
              let n = (job.data_size - b * 1492) / 1492 + 1 in
              let all : n + (11 - n) ≡ 11 = omega arith in
              let index : u16 ((b + n) * 1492) ≡ (b + n) * 1492 = elim small [
                | inl early ↦ omega (arith, early)
                | inr short ↦ omega (arith, short)
              ] in
              subst (Sends b)
                (short_slice (b * 1492) (n * 1492) (11 * 1492) (omega arith) (omega arith))
                (sends n (11 - n) all (omega (arith, ok.fits)) (omega arith)
                  (λ after. stops (11 - n) (b + n) ((b + n) * 1492) after index (omega arith)))
        ]

    -- A window that reaches behind the 44 packages of a job of 64156 bytes or more sends the rest of the
    -- data and then, with the next numbers, packages with the data from byte 112 on again.
    pub next_packages_wraps :
        33 < b
        → b < 44
        → 43 * 1492 ≤ job.data_size
        → Sends b (drop (b * 1492) job.bytes ++ slice 112 ((b - 33) * 1492) job.bytes)
    next_packages_wraps late inside large =
        let first_rounds : 11 ≡ (44 - b) + (b - 33) = omega arith in
        let then_rounds : b - 33 ≡ (b - 33) + 0 = omega arith in
        let at : b + (44 - b) ≡ 44 = omega arith in
        let index : u16 (b * 1492) ≡ b * 1492 = omega arith in
        let room : b * 1492 + (44 - b) * 1492 < job.data_size + 1493 = omega arith in
        let room_again : 112 + (b - 33) * 1492 < job.data_size + 1493 = omega arith in
        let (ps, after, run, adds) =
          packages_from_run (44 - b) (b - 33) b (b * 1492) [] index room in
        let (qs, last, again, more) = packages_from_run (b - 33) 0 44 112 after refl room_again in
        let all : slice (b * 1492) ((44 - b) * 1492) job.bytes ≡ drop (b * 1492) job.bytes =
          take_all ((44 - b) * 1492) (drop (b * 1492) job.bytes)
            (omega (arith, length-drop (b * 1492) job.bytes, ok.stored, ok.fits)) in
        let queued : waiting last ≡ ps ++ qs = more.queued ∙ ap (λ l. l ++ qs) adds.queued in
        (
          last,
          eleven_rounds
              ∙ ap (λ r. packages_from job r b []) first_rounds
              ∙ run
              ∙ (λ t. packages_from job (then_rounds t) (at t) after)
              ∙ again
              ∙ packages_from_zero (44 + (b - 33)) last,
          ap payload queued
              ∙ payload-append ps qs
              ∙ (λ t. adds.carried t ++ more.carried t)
              ∙ ap (λ l. l ++ slice 112 ((b - 33) * 1492) job.bytes) all,
          subst (NumberedFrom b) (sym queued) (
              NumberedFrom-append ps qs b 44 adds.numbered (omega (arith, adds.many))
                more.numbered),
        )
