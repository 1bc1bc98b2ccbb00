-- ===== src/Commons/DArray/Clearing.antt =====
-- commons/src/darray.{h,c}: an array that is cleared after it has grown.
use network_course_uio.Prelude.{
  ◌+◌, ◌^◌, ◌<◌, ◌≡◌, ◌∙◌, ap, true, false, none, some, List, ◌++◌, arith, ltb, lt→ltb, pos, length,
  set as set_nth, take_all, length-set,
}
use network_course_uio.Commons.DArray.{at, DArray, push, clear, freed}
use network_course_uio.Commons.DArray.Cells.{freed-append, not_zero, not_below, expanded_cells}
use network_course_uio.Commons.DArray.Stack.{Holds, expand_lem}

-- A push that fills the array expands it, and `DArray_clear` then frees what no one has written.
pub clear-push {ℓ} :
    {A : Type ℓ} (array : DArray A) (xs : List A) (x : A)
    → Holds array xs
    → array.end + 1 ≡ array.max
    → 0 < array.element_size
    → array.max + array.expand_rate < 2 ^ 31
    → (after : DArray A) × (push array x ≡ some (pos 0, after)) × (clear after ≡ none)
unfolding push clear
clear-push array xs x h full elements grows =
    let pushed = record array {
      contents = set_nth array.contents array.end (at x);
      end = array.end + 1;
    } in
    let inside : ltb array.end (length array.contents) ≡ true =
      lt→ltb _ _ (omega (arith, h.sized, h.room)) in
    let last : ltb (array.end + 1) array.max ≡ false = not_below _ _ (omega (arith, full)) in
    let sized : length pushed.contents ≡ array.max =
      length-set array.contents array.end (at x) ∙ h.sized in
    let (added, cells, total, bad) =
      expanded_cells pushed.contents array.max array.expand_rate sized in
    let after = record pushed {
      max = array.max + array.expand_rate;
      contents = pushed.contents ++ added;
    } in
    (
      after,
      rw inside (
          rw last (
            expand_lem pushed h.rate grows
            ∙ ap
                (λ l.
                  some (pos 0, record pushed { max = array.max + array.expand_rate; contents = l }))
                cells)),
      rw (not_zero array.element_size elements) (
          ap freed (take_all after.max after.contents (omega (arith, total)))
          ∙ freed-append pushed.contents added (bad h.rate)),
    )
