-- ===== src/Commons/DArray/Popping.antt =====
-- commons/src/darray.{h,c}: what is taken out of an array, and the cells below its end.
use network_course_uio.Prelude.{
  ℕ, zero, suc, ◌+◌, ◌-◌, ◌%◌, ◌^◌, ◌≤◌, ◌<◌, ◌≡◌, refl, ◌∙◌, ap, sym, true, false, some, List, [],
  ◌∷◌, ◌++◌, map, arith, ◌==◌, ltb, lt→ltb, ltb→lt, pos, length, set as set_nth, get_elem?,
  Bool-cases, inl, inr, length-append, not, ◌&&◌, length-set,
}
use network_course_uio.Commons.DArray.{
  Cell, null, at, DArray, realloc, contract, push, remove, pop, set, get,
}
use network_course_uio.Commons.DArray.Cells.{
  not_zero, not_below, both, popped_cells, contracted_cells,
}
use network_course_uio.Commons.DArray.Stack.{Holds, resize_lem, push-Holds}

module _ {ℓ} {A : Type ℓ} where
  contract_lem :
      (array : DArray A)
      → array.expand_rate < array.end
      → array.end + 1 < 2 ^ 31
      → contract array
        ≡ some (
          pos 0,
          record array { max = array.end + 1; contents = realloc (array.end + 1) array.contents },
        )
  unfolding contract
  contract_lem array long fits =
      let behind : ltb array.end array.expand_rate ≡ false = not_below _ _ (omega arith) in
      rw behind (resize_lem array (array.end + 1) (omega arith) fits)

  removed_lem :
      (array : DArray A) (i : ℕ) (el : Cell A)
      → get_elem? array.contents i ≡ some el
      → remove array i ≡ some (el, record array { contents = set_nth array.contents i null })
  unfolding remove
  removed_lem array i el found = rw (found, remove) refl

  -- A pop takes the last pointer and gives the others back.
  pub pop-Holds :
      (array : DArray A) (xs : List A) (x : A)
      → Holds array (xs ++ x ∷ [])
      → (after : DArray A) × (pop array ≡ some (at x, after))
        × Holds after xs
        × (after.max ≤ array.max)
        × (after.expand_rate ≡ array.expand_rate)
  unfolding pop
  pop-Holds array xs x h =
      let i = array.end - 1 in
      let last : i ≡ length xs = omega (arith, h.ends, length-append xs (x ∷ [])) in
      let (found, left) = popped_cells xs x h.rest in
      let there : get_elem? array.contents i ≡ some (at x) =
        (λ t. get_elem? (h.stored t) (last t)) ∙ found in
      let stored : set_nth array.contents i null ≡ map at xs ++ null ∷ h.rest =
        (λ t. set_nth (h.stored t) (last t) null) ∙ left in
      let some_there : (array.end == 0) ≡ false =
        not_zero array.end (omega (arith, h.ends, length-append xs (x ∷ []))) in
      let popped = record array { contents = set_nth array.contents i null; end = i } in
      elim (Bool-cases (ltb array.expand_rate i && not (i % array.expand_rate == 0))) [
        | inl shrinks ↦
            let long : array.expand_rate < i =
              ltb→lt _ _ (both _ (not (i % array.expand_rate == 0)) shrinks) in
            let (more, cells, total) =
              contracted_cells xs (null ∷ h.rest) (i + 1) (omega (arith, last)) in
            (
              record popped { max = i + 1; contents = map at xs ++ more },
              rw some_there (
                  rw (removed_lem array i (at x) there) (
                    rw shrinks (
                      rw (contract_lem popped long (omega (arith, h.fits, h.room))) (
                        ap (λ l. some (at x, record popped { max = i + 1; contents = l }))
                          (ap (realloc (i + 1)) stored ∙ cells))))),
              record {
                rest = more;
                stored = refl;
                ends = last;
                sized = total;
                room = omega arith;
                fits = omega (arith, h.fits, h.room);
                rate = h.rate;
                rate_fits = h.rate_fits;
              },
              omega (arith, h.room),
              refl,
            )
        | inr stays ↦ (
          popped,
          rw some_there (rw (removed_lem array i (at x) there) (rw stays refl)),
          record {
            rest = null ∷ h.rest;
            stored = stored;
            ends = last;
            sized = length-set array.contents i null ∙ h.sized;
            room = omega (arith, h.room);
            fits = h.fits;
            rate = h.rate;
            rate_fits = h.rate_fits;
          },
          omega arith,
          refl,
        )
      ]

  get_cell :
      (xs : List A) (rest : List (Cell A)) (i : ℕ) (x : A)
      → get_elem? xs i ≡ some x
      → get_elem? (map at xs ++ rest) i ≡ some (at x)
  get_cell [] rest i x h = cc
  get_cell (y ∷ xs) rest zero x h = cc
  get_cell (y ∷ xs) rest (suc i) x h = get_cell xs rest i x h

  set_cell :
      (xs : List A) (rest : List (Cell A)) (i : ℕ) (x : A)
      → i < length xs
      → set_nth (map at xs ++ rest) i (at x) ≡ map at (set_nth xs i x) ++ rest
  set_cell [] rest i x h = absurd (omega arith)
  set_cell (y ∷ xs) rest zero x h = refl
  set_cell (y ∷ xs) rest (suc i) x h = ap (λ l. at y ∷ l) (set_cell xs rest i x (omega arith))

  get_inside : (xs : List A) (i : ℕ) (x : A) → get_elem? xs i ≡ some x → i < length xs
  get_inside [] i x h = cc
  get_inside (y ∷ xs) zero x h = omega arith
  get_inside (y ∷ xs) (suc i) x h = omega (arith, get_inside xs i x h)

  pub get-Holds :
      (array : DArray A) (xs : List A) (i : ℕ) (x : A)
      → Holds array xs
      → get_elem? xs i ≡ some x
      → get array i ≡ some (at x)
  unfolding get
  get-Holds array xs i x h found =
      let inside : ltb i array.max ≡ true =
        lt→ltb _ _ (omega (arith, get_inside xs i x found, h.ends, h.room)) in
      rw inside (ap (λ l. get_elem? l i) h.stored ∙ get_cell xs h.rest i x found)

  pub set-Holds :
      (array : DArray A) (xs : List A) (i : ℕ) (x : A)
      → Holds array xs
      → i < length xs
      → (after : DArray A) × (set array i (at x) ≡ some after)
        × Holds after (set_nth xs i x)
        × (after.max ≡ array.max)
        × (after.expand_rate ≡ array.expand_rate)
  unfolding set
  set-Holds array xs i x h below =
      let inside : ltb i array.max ≡ true = lt→ltb _ _ (omega (arith, h.ends, h.room)) in
      let there : ltb i (length array.contents) ≡ true =
        lt→ltb _ _ (omega (arith, h.ends, h.room, h.sized)) in
      let reached : ltb array.end i ≡ false = not_below _ _ (omega (arith, h.ends)) in
      (
        record array { contents = set_nth array.contents i (at x) },
        rw inside (rw there (rw reached refl)),
        record {
          rest = h.rest;
          stored = ap (λ l. set_nth l i (at x)) h.stored ∙ set_cell xs h.rest i x below;
          ends = h.ends ∙ sym (length-set xs i x);
          sized = length-set array.contents i (at x) ∙ h.sized;
          room = h.room;
          fits = h.fits;
          rate = h.rate;
          rate_fits = h.rate_fits;
        },
        refl,
        refl,
      )

  -- A push and then a pop give the pointer that was pushed, and leave the others, whether the array
  -- expands or not.
  pub pop-push :
      (array : DArray A) (xs : List A) (x : A)
      → Holds array xs
      → array.max + array.expand_rate < 2 ^ 31
      → (pushed popped : DArray A) × (push array x ≡ some (pos 0, pushed))
        × Holds pushed (xs ++ x ∷ [])
        × (pop pushed ≡ some (at x, popped))
        × Holds popped xs
  pop-push array xs x h grows =
      let (pushed, run, holds, _, _) = push-Holds array xs x h grows in
      let (popped, back, left, _, _) = pop-Holds pushed xs x holds in
      (pushed, popped, run, holds, back, left)
