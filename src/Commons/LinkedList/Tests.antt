-- ===== src/Commons/LinkedList/Tests.antt =====
-- Runs of commons/src/list.c on a list of two nodes.
use network_course_uio.Prelude.{
  ◌≡◌, refl, false, none, some, Option, [], ◌∷◌, ◌==◌, if◌then◌else◌, arith,
}
use network_course_uio.Commons.LinkedList.{
  Ptr, null, LinkedList, Heap, write, load, set_next, set_prev, free, push, pop, shift, remove,
  destroy,
}
use network_course_uio.Commons.LinkedList.Chain.{Cells, ◌∈◌, ◌∉◌, nil, cons, Yields}
use network_course_uio.Commons.LinkedList.Ends.{IsList}
use network_course_uio.Commons.LinkedList.Removal.{Removed, remove_cells}
use network_course_uio.Commons.LinkedList.Destruction.{destroy_cells}
use network_course_uio.Commons.LinkedList.Queues.{Holds, pop-recv}

abbrev two_nodes : Heap
two_nodes a =
    if a == 10
    then some (record { next = 20; prev = null; value = 7 })
    else if a == 20
    then some (record { next = null; prev = 10; value = 8 })
    else none

abbrev two : LinkedList
two = record { count = 2; first = 10; last = 20 }

abbrev two_cells : Cells
two_cells = (10, 7) ∷ (20, 8) ∷ []

two-IsList : IsList two_nodes two two_cells
two-IsList = record {
  chain =
      cons (record { nonnull = refl; there = refl }) refl
        (cons (record { nonnull = refl; there = refl }) refl nil);
  ends = refl;
  counts = refl;
}

two-Holds : Holds two_nodes two (7 ∷ 8 ∷ [])
two-Holds = (two_cells, two-IsList, refl)

-- Two nodes pushed onto a new list, and the first one taken again
abbrev pushed_and_shifted : Option Ptr
pushed_and_shifted =
    elim (push 10 (record { count = 0; first = null; last = null }) 7 (λ a. none)) [
      | none ↦ none
      | some (one, h) ↦ elim (push 20 one 8 h) [
        | none ↦ none
        | some (both, g) ↦ elim (shift both g) [ none ↦ none | some ((v, _), _) ↦ some v ]
      ]
    ]

pushed_and_shifted_run : pushed_and_shifted ≡ some 7
unfolding push shift remove load free set_next set_prev write
pushed_and_shifted_run = refl

-- The node that was removed cannot be read any more.
read_after_remove :
    elim (remove two 10 two_nodes) [
      | none ↦ none
      | some (_, g) ↦ elim (load 10 g) [ none ↦ none | some (n, _) ↦ some n.next ]
    ]
    ≡ none
unfolding remove load free set_next set_prev write
read_after_remove = refl

pop-recv_example :
    Yields (pop two two_nodes) λ result g. (result.0 ≡ 8) × Holds g (result.1) (7 ∷ [])
pop-recv_example = pop-recv two_nodes two (7 ∷ 8 ∷ []) two-Holds

remove_cells_example : Yields (remove two 20 two_nodes) (Removed two_nodes ((10, 7) ∷ []) 20 8 [])
remove_cells_example = remove_cells two_nodes two 20 8 ((10, 7) ∷ []) [] two-IsList

destroy_cells_example : Yields (destroy 3 two two_nodes) λ _ g.
    ((a : Ptr) → a ∈ two_cells → g a ≡ none)
    × ((a : Ptr) → (a == null) ≡ false → a ∉ two_cells → g a ≡ two_nodes a)
destroy_cells_example = destroy_cells 3 two_nodes two two_cells two-IsList (omega arith)
