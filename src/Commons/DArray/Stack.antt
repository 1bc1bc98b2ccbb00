-- ===== src/Commons/DArray/Stack.antt =====
-- commons/src/darray.{h,c}: the array as the sequence of the pointers below its end.
use network_course_uio.Prelude.{
  ℕ, zero, suc, ◌+◌, ◌/◌, ◌^◌, ◌≤◌, ◌<◌, ◌≡◌, refl, ◌∙◌, ap, true, some, List, [], ◌∷◌, ◌++◌, map,
  arith, ltb, lt→ltb, ltb→lt, pos, drop, replicate, length, set as set_nth, Bool-cases, inl, inr,
  length-append, length-set, length-replicate, length-map, append_assoc,
}
use network_course_uio.Commons.DArray.{
  Cell, null, at, DArray, default_expand_rate, create, realloc, resize, zeroed, expand, push,
}
use network_course_uio.Commons.DArray.Cells.{not_zero, set_end, cells_snoc, expanded_cells}

-- The first cells hold the pointers `xs`, and there is room for another one.
pub record Holds {ℓ} {A : Type ℓ} (array : DArray A) (xs : List A) : Type ℓ where
  pub rest : List (Cell A)
  pub stored : array.contents ≡ map at xs ++ rest
  pub ends : array.end ≡ length xs
  pub sized : length array.contents ≡ array.max
  pub room : array.end < array.max
  pub fits : array.max < 2 ^ 31
  pub rate : 0 < array.expand_rate
  pub rate_fits : array.expand_rate + 1 < 2 ^ 31

module _ {ℓ} {A : Type ℓ} where
  pub create-Holds :
      (element_size n : ℕ)
      → 0 < n
      → n < 2 ^ 31
      → (array : DArray A) × (create element_size n ≡ some array)
        × Holds array []
        × (array.expand_rate ≡ default_expand_rate)
        × (array.max ≡ n)
  unfolding create
  create-Holds element_size zero h fits = absurd (omega arith)
  create-Holds element_size (suc n) h fits = (
    record {
      end = 0;
      max = suc n;
      element_size = element_size;
      expand_rate = default_expand_rate;
      contents = replicate (suc n) null;
    },
    rw (lt→ltb (suc n) (2 ^ 31) fits) refl,
    record {
      rest = replicate (suc n) null;
      stored = refl;
      ends = refl;
      sized = length-replicate (suc n) null;
      room = omega arith;
      fits = fits;
      rate = omega arith;
      rate_fits = omega arith;
    },
    refl,
    refl,
  )

  pub pushed_cells :
      (array : DArray A) (xs : List A) (x : A) (h : Holds array xs)
      → set_nth array.contents array.end (at x) ≡ map at (xs ++ x ∷ []) ++ drop 1 h.rest
  pushed_cells array xs x h =
      let front : length array.contents ≡ length xs + length h.rest =
        ap length h.stored ∙ omega (arith, length-append (map at xs) h.rest, length-map at xs) in
      let more : 0 < length h.rest = omega (arith, front, h.sized, h.room, h.ends) in
      (λ t. set_nth (h.stored t) (h.ends t) (at x))
      ∙ set_end xs h.rest (at x) more
      ∙ cells_snoc xs x (drop 1 h.rest)

  pub resize_lem :
      (array : DArray A) (n : ℕ)
      → 0 < n
      → n < 2 ^ 31
      → resize array n ≡ some (pos 0, record array { max = n; contents = realloc n array.contents })
  unfolding resize
  resize_lem array n positive fits = rw (not_zero n positive) (rw (lt→ltb n (2 ^ 31) fits) refl)

  pub expand_lem :
      (array : DArray A)
      → 0 < array.expand_rate
      → array.max + array.expand_rate < 2 ^ 31
      → expand array
        ≡ some (
          pos 0,
          record array {
            max = array.max + array.expand_rate;
            contents =
                zeroed array.max
                  (array.expand_rate / 8)
                  (realloc (array.max + array.expand_rate) array.contents);
          },
        )
  unfolding expand
  expand_lem array rate fits =
      rw (resize_lem array (array.max + array.expand_rate) (omega arith) fits, expand) refl

  -- A push puts the pointer behind the others and leaves room for another one.
  pub push-Holds :
      (array : DArray A) (xs : List A) (x : A)
      → Holds array xs
      → array.max + array.expand_rate < 2 ^ 31
      → (after : DArray A) × (push array x ≡ some (pos 0, after))
        × Holds after (xs ++ x ∷ [])
        × (after.max ≤ array.max + array.expand_rate)
        × (after.expand_rate ≡ array.expand_rate)
  unfolding push
  push-Holds array xs x h grows =
      let pushed = record array {
        contents = set_nth array.contents array.end (at x);
        end = array.end + 1;
      } in
      let inside : ltb array.end (length array.contents) ≡ true =
        lt→ltb _ _ (omega (arith, h.sized, h.room)) in
      let stored = pushed_cells array xs x h in
      let full : length pushed.contents ≡ array.max =
        length-set array.contents array.end (at x) ∙ h.sized in
      let many = length-append xs (x ∷ []) in
      elim (Bool-cases (ltb (array.end + 1) array.max)) [
        | inl more ↦ (
          pushed,
          rw inside (rw more refl),
          record {
            rest = drop 1 h.rest;
            stored = stored;
            ends = omega (arith, h.ends, many);
            sized = full;
            room = ltb→lt _ _ more;
            fits = h.fits;
            rate = h.rate;
            rate_fits = h.rate_fits;
          },
          omega arith,
          refl,
        )
        | inr last ↦
            let (added, cells, total, _) =
              expanded_cells pushed.contents array.max array.expand_rate full in
            (
              record pushed {
                max = array.max + array.expand_rate;
                contents = pushed.contents ++ added;
              },
              rw inside (
                  rw last (
                    expand_lem pushed h.rate grows
                    ∙ ap
                        (λ l. some (
                          pos 0,
                          record pushed { max = array.max + array.expand_rate; contents = l },
                        ))
                        cells)),
              record {
                rest = drop 1 h.rest ++ added;
                stored = ap (λ l. l ++ added) stored ∙ append_assoc _ (drop 1 h.rest) added;
                ends = omega (arith, h.ends, many);
                sized = total;
                room = omega (arith, h.room, h.rate);
                fits = grows;
                rate = h.rate;
                rate_fits = h.rate_fits;
              },
              omega arith,
              refl,
            )
      ]
