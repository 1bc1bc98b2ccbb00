-- ===== src/Commons/DArray.antt =====
-- commons/src/darray.{h,c}: an array of pointers that grows. An `int` is a natural number here: an
-- array whose size is no `int` is none, like every access without defined behaviour.
pub mod Cells
pub mod Stack
pub mod Popping
pub mod Clearing
use network_course_uio.Prelude.{
  ℕ, zero, suc, ◌+◌, ◌-◌, ◌/◌, ◌%◌, ◌^◌, Bool, not, ◌&&◌, Option, none, some, List, [], ◌∷◌, ◌++◌,
  ◌==◌, ltb, if◌then◌else◌, ℤ, pos, minus_one, eq_int, take, drop, replicate, length,
  set as set_nth, get_elem?,
}

-- What a cell of the array holds: `NULL`, a pointer, or what was in the memory before
pub data Cell {ℓ} (A : Type ℓ) : Type ℓ where
  null : Cell A
  at : A → Cell A
  indeterminate : Cell A

-- `struct DArray`
pub record DArray {ℓ} (A : Type ℓ) : Type ℓ where
  pub end : ℕ
  pub max : ℕ
  pub element_size : ℕ
  pub expand_rate : ℕ
  pub contents : List (Cell A)

abbrev pub default_expand_rate : ℕ
default_expand_rate = 300

module _ {ℓ} {A : Type ℓ} where
  -- `DArray_create`: for no cells it destroys the array that it has just begun, whose `contents` are
  -- indeterminate.
  unfoldable pub create : (element_size initial_max : ℕ) → Option (DArray A)
  create element_size zero = none
  create element_size (suc n) =
      if ltb (suc n) (2 ^ 31)
      then some (record {
        end = 0;
        max = suc n;
        element_size = element_size;
        expand_rate = default_expand_rate;
        contents = replicate (suc n) null;
      })
      else none

  -- The pointers that a loop with `free` gives back; none is the `free` of an indeterminate one.
  abbrev pub freed : List (Cell A) → Option (List A)
  freed [] = some []
  freed (null ∷ rest) = freed rest
  freed (at p ∷ rest) = elim (freed rest) [ none ↦ none | some ps ↦ some (p ∷ ps) ]
  freed (indeterminate ∷ rest) = none

  -- `DArray_clear`: what it frees
  unfoldable pub clear : DArray A → Option (List A)
  clear array = if array.element_size == 0 then some [] else freed (take array.max array.contents)

  -- `realloc`: cells behind the old end are indeterminate.
  abbrev pub realloc : (newsize : ℕ) → List (Cell A) → List (Cell A)
  realloc newsize contents =
      take newsize contents ++ replicate (newsize - length contents) indeterminate

  -- `DArray_resize`
  unfoldable pub resize : DArray A → (newsize : ℕ) → Option (ℤ × DArray A)
  resize array newsize =
      if newsize == 0
      then some (minus_one, record array { max = 0 })
      else if ltb newsize (2 ^ 31)
      then some (pos 0, record array { max = newsize; contents = realloc newsize array.contents })
      else none

  -- `memset` with 0 from the cell `i` on, for a number of bytes that covers `n` whole cells of 8 bytes
  abbrev pub zeroed : (i n : ℕ) → List (Cell A) → List (Cell A)
  zeroed i n contents = take i contents ++ replicate n null ++ drop (i + n) contents

  -- `DArray_expand`: the `memset` takes the number of new cells for a number of bytes.
  unfoldable pub expand : DArray A → Option (ℤ × DArray A)
  expand array = elim (resize array (array.max + array.expand_rate)) [
    | none ↦ none
    | some (rc, grown) ↦
        if eq_int rc (pos 0)
        then some (
          pos 0,
          record grown { contents = zeroed array.max (array.expand_rate / 8) grown.contents },
        )
        else some (minus_one, grown)
  ]

  -- `DArray_contract`
  unfoldable pub contract : DArray A → Option (ℤ × DArray A)
  contract array =
      let new_size = if ltb array.end array.expand_rate then array.expand_rate else array.end in
      resize array (new_size + 1)

  -- `DArray_push`
  unfoldable pub push : DArray A → A → Option (ℤ × DArray A)
  push array el =
      let pushed = record array {
        contents = set_nth array.contents array.end (at el);
        end = array.end + 1;
      } in
      if ltb array.end (length array.contents)
      then (if ltb pushed.end pushed.max then some (pos 0, pushed) else expand pushed)
      else none

  -- `DArray_remove`
  unfoldable pub remove : DArray A → (i : ℕ) → Option (Cell A × DArray A)
  remove array i = elim (get_elem? array.contents i) [
    | none ↦ none
    | some el ↦ some (el, record array { contents = set_nth array.contents i null })
  ]

  -- `DArray_pop`
  unfoldable pub pop : DArray A → Option (Cell A × DArray A)
  pop array = if array.end == 0 then some (null, array) else elim (remove array (array.end - 1)) [
    | none ↦ none
    | some (el, removed) ↦
        let popped = record removed { end = removed.end - 1 } in
        if ltb popped.expand_rate popped.end && not (popped.end % popped.expand_rate == 0)
        then elim (contract popped) [
          | none ↦ none
          | some (rc, contracted) ↦ some (if eq_int rc minus_one then null else el, contracted)
        ]
        else some (el, popped)
  ]

  -- `DArray_set`: behind the end, the end moves to `i`, in front of what is written.
  unfoldable pub set : DArray A → (i : ℕ) → Cell A → Option (DArray A)
  set array i el =
      let reached = if ltb array.end i then i else array.end in
      if ltb i array.max
      then (if ltb i (length array.contents)
          then some (record array { end = reached; contents = set_nth array.contents i el })
          else none)
      else some array

  -- `DArray_get`
  unfoldable pub get : DArray A → (i : ℕ) → Option (Cell A)
  get array i = if ltb i array.max then get_elem? array.contents i else some null
