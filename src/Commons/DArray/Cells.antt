-- ===== src/Commons/DArray/Cells.antt =====
-- commons/src/darray.{h,c}: the cells of an array before and after a change.
use network_course_uio.Prelude.{
  ℕ, zero, suc, ◌+◌, ◌-◌, ◌/◌, ◌≤◌, ◌<◌, ◌≡◌, refl, ◌∙◌, ap, sym, true, false, none, some, List, [],
  ◌∷◌, ◌++◌, map, arith, ◌==◌, ltb, take, drop, replicate, length, set as set_nth, get_elem?,
  length-append, take_all, take-append_left, take-append_beyond, Bool, ◌&&◌, length-take,
  length-replicate, length-map, length-drop, append_assoc,
}
use network_course_uio.Commons.DArray.{Cell, null, at, indeterminate, realloc, zeroed, freed}

pub not_zero : (m : ℕ) → 0 < m → (m == 0) ≡ false
not_zero m h = ground arith

pub not_below : (n m : ℕ) → m ≤ n → ltb n m ≡ false
not_below n m h = ground arith

pub both : (a b : Bool) → (a && b) ≡ true → a ≡ true
both true b h = refl
both false b h = h

module _ {ℓ} {A : Type ℓ} where
  pub set_end :
      (xs : List A) (rest : List (Cell A)) (c : Cell A)
      → 0 < length rest
      → set_nth (map at xs ++ rest) (length xs) c ≡ map at xs ++ c ∷ drop 1 rest
  set_end [] [] c room = absurd (omega arith)
  set_end [] (r ∷ rest) c room = refl
  set_end (x ∷ xs) rest c room = ap (λ l. at x ∷ l) (set_end xs rest c room)

  pub cells_snoc :
      (xs : List A) (x : A) (rest : List (Cell A))
      → map at xs ++ at x ∷ rest ≡ map at (xs ++ x ∷ []) ++ rest
  cells_snoc [] x rest = refl
  cells_snoc (y ∷ xs) x rest = ap (λ l. at y ∷ l) (cells_snoc xs x rest)

  pub freed-append : (front rest : List (Cell A)) → freed rest ≡ none → freed (front ++ rest) ≡ none
  freed-append [] rest h = h
  freed-append (null ∷ front) rest h = freed-append front rest h
  freed-append (at p ∷ front) rest h = rw (freed-append front rest h) refl
  freed-append (indeterminate ∷ front) rest h = refl

  freed_left : (k n : ℕ) → k < n → freed (drop k (replicate {A = Cell A} n indeterminate)) ≡ none
  freed_left zero zero h = absurd (omega arith)
  freed_left zero (suc n) h = refl
  freed_left (suc k) zero h = absurd (omega arith)
  freed_left (suc k) (suc n) h = freed_left k n (omega arith)

  skipped :
      (front rest : List (Cell A)) (k n : ℕ)
      → length front ≡ n
      → drop (n + k) (front ++ rest) ≡ drop k rest
  skipped [] rest k n h = ap (λ j. drop j rest) (omega (arith, h))
  skipped (c ∷ front) rest k n h =
      let step : n + k ≡ suc (length front + k) = omega (arith, h) in
      rw step (skipped front rest k (length front) refl)

  -- What `realloc` and the `memset` of an expansion make of full cells
  pub expanded_cells :
      (cells : List (Cell A)) (max rate : ℕ)
      → length cells ≡ max
      → (more : List (Cell A)) × (zeroed max (rate / 8) (realloc (max + rate) cells)
          ≡ cells ++ more)
        × (length (cells ++ more) ≡ max + rate)
        × (0 < rate → freed more ≡ none)
  expanded_cells cells max rate full =
      let added = max + rate - length cells in
      let zero_cell : Cell A = null in
      let left_cell : Cell A = indeterminate in
      let new : List (Cell A) = replicate added indeterminate in
      let grown : realloc (max + rate) cells ≡ cells ++ new =
        ap (λ l. l ++ new) (take_all (max + rate) cells (omega (arith, full))) in
      let kept : take max (cells ++ new) ≡ cells =
        ap (λ n. take n (cells ++ new)) (sym full) ∙ take-append_left cells new in
      let zeros : List (Cell A) = replicate (rate / 8) null in
      let behind = drop (max + rate / 8) (cells ++ new) in
      (
        zeros ++ behind,
        rw grown (ap (λ l. l ++ zeros ++ behind) kept ∙ append_assoc cells zeros behind),
        omega (
          arith,
          full,
          length-append cells (zeros ++ behind),
          length-append zeros behind,
          length-replicate (rate / 8) zero_cell,
          length-drop (max + rate / 8) (cells ++ new),
          length-append cells new,
          length-replicate added left_cell,
        ),
        λ positive. freed-append zeros behind (
            ap freed (skipped cells new (rate / 8) max full)
            ∙ freed_left (rate / 8) added (omega (arith, full, positive))),
      )

  pub popped_cells :
      (xs : List A) (x : A) (rest : List (Cell A))
      → (get_elem? (map at (xs ++ x ∷ []) ++ rest) (length xs) ≡ some (at x))
        × (set_nth (map at (xs ++ x ∷ []) ++ rest) (length xs) null ≡ map at xs ++ null ∷ rest)
  popped_cells [] x rest = (refl, refl)
  popped_cells (y ∷ xs) x rest =
      let (found, left) = popped_cells xs x rest in (found, ap (λ l. at y ∷ l) left)

  -- The new size of a contraction has room for the pointers and one more.
  pub contracted_cells :
      (xs : List A) (rest : List (Cell A)) (n : ℕ)
      → length xs < n
      → (more : List (Cell A)) × (realloc n (map at xs ++ rest) ≡ map at xs ++ more)
        × (length (map at xs ++ more) ≡ n)
  contracted_cells xs rest n room =
      let cells : List (Cell A) = map at xs in
      let front : length cells ≡ length xs = length-map {A = A} at xs in
      let k = n - length xs in
      let split : n ≡ length cells + k = omega (arith, front) in
      let added = n - length (cells ++ rest) in
      let left_cell : Cell A = indeterminate in
      let new = replicate added left_cell in
      let kept : take n (cells ++ rest) ≡ cells ++ take k rest =
        ap (λ j. take j (cells ++ rest)) split ∙ take-append_beyond k cells rest in
      (
        take k rest ++ new,
        ap (λ l. l ++ new) kept ∙ append_assoc cells (take k rest) new,
        omega (
          arith,
          front,
          length-append cells (take k rest ++ new),
          length-append (take k rest) new,
          length-append cells rest,
          length-take k rest,
          length-replicate added left_cell,
        ),
      )
