-- ===== src/Commons/LinkedList/Queues.antt =====
-- commons/src/queue.h: the queue that `List_unshift` and `List_pop` make of a list.
use network_course_uio.Prelude.{
  ◌≡◌, refl, ◌∙◌, sym, ap, subst, false, none, some, Option, List, [], ◌∷◌, ◌++◌, ◌==◌, append-nil,
  inl, inr, ◌⊎◌,
}
use network_course_uio.Commons.Queue.{send, recv}
use network_course_uio.Commons.LinkedList.{
  Ptr, null, LinkedList, Heap, unshift, push, pop, shift, remove,
}
use network_course_uio.Commons.LinkedList.Chain.{Cells, Yields, last_of, last_of-append, split}
use network_course_uio.Commons.LinkedList.Ends.{
  IsList, unshift_cells, push_cells, empty_first, Chain-nonnull,
}
use network_course_uio.Commons.LinkedList.Removal.{remove_cells}

abbrev pub values : Cells → List Ptr
values [] = []
values ((_, v) ∷ cells) = v ∷ values cells

-- The list holds these values, from its first node to its last.
abbrev pub Holds : Heap → LinkedList → List Ptr → Type 0
Holds h list vs = (cells : Cells) × IsList h list cells × (values cells ≡ vs)

-- What a list of these values gives from its front
abbrev pub first_out : List Ptr → Ptr × List Ptr
first_out [] = (null, [])
first_out (v ∷ rest) = (v, rest)

-- A pointer that may be `NULL`
abbrev pub or_null : Option Ptr → Ptr
or_null none = null
or_null (some v) = v

values-append : (xs ys : Cells) → values (xs ++ ys) ≡ values xs ++ values ys
values-append [] ys = refl
values-append ((p, v) ∷ xs) ys = ap (λ l. v ∷ l) (values-append xs ys)

recv_end : (vs : List Ptr) (w : Ptr) → recv (vs ++ w ∷ []) ≡ (some w, vs)
recv_end [] w = refl
recv_end (v ∷ []) w = refl
recv_end (v ∷ u ∷ vs) w = rw (recv_end (u ∷ vs) w) refl

end_cases :
    (cells : Cells)
    → (cells ≡ []) ⊎ ((xs : Cells) × (q : Ptr) × (w : Ptr) × (cells ≡ xs ++ (q, w) ∷ []))
end_cases [] = inl refl
end_cases ((p, v) ∷ cells) = elim (end_cases cells) [
  | inl empty ↦ inr ([], p, v, ap (λ l. (p, v) ∷ l) empty)
  | inr (xs, q, w, eq) ↦ inr ((p, v) ∷ xs, q, w, ap (λ l. (p, v) ∷ l) eq)
]

pop-remove :
    (h : Heap) (list : LinkedList) (q : Ptr)
    → list.last ≡ q
    → (q == null) ≡ false
    → pop list h ≡ remove list q h
unfolding pop
pop-remove h list q last_q nonnull =
    let some_last : (list.last == null) ≡ false = ap (λ p. p == null) last_q ∙ nonnull in
    rw some_last (ap (λ p. remove list p h) last_q)

shift-remove :
    (h : Heap) (list : LinkedList) (q : Ptr)
    → list.first ≡ q
    → (q == null) ≡ false
    → shift list h ≡ remove list q h
unfolding shift
shift-remove h list q first_q nonnull =
    let some_first : (list.first == null) ≡ false = ap (λ p. p == null) first_q ∙ nonnull in
    rw some_first (ap (λ p. remove list p h) first_q)

module _ (h : Heap) (list : LinkedList) (vs : List Ptr) (holds : Holds h list vs) where
  -- `Queue_send` of a value with a node that is allocated for it
  pub unshift-send :
      (fresh value : Ptr)
      → (fresh == null) ≡ false
      → h fresh ≡ none
      → Yields (unshift fresh list value h) λ after g. Holds g after (send vs value)
  unshift-send fresh value nonnull unused =
      let (cells, ok, same) = holds in
      let (after, g, run, (now, _)) = unshift_cells h list fresh value nonnull unused cells ok in
      (after, g, run, ((fresh, value) ∷ cells, now, ap (λ l. value ∷ l) same))

  -- `List_push` of a value with a node that is allocated for it
  pub push-append :
      (fresh value : Ptr)
      → (fresh == null) ≡ false
      → h fresh ≡ none
      → Yields (push fresh list value h) λ after g. Holds g after (vs ++ value ∷ [])
  push-append fresh value nonnull unused =
      let (cells, ok, same) = holds in
      let (after, g, run, (now, _)) = push_cells h list fresh value nonnull unused cells ok in
      (
        after,
        g,
        run,
        (cells ++ (fresh, value) ∷ [], now, values-append cells _ ∙ ap (λ l. l ++ value ∷ []) same),
      )

  -- `Queue_recv`, which is `List_pop`, takes the value that was sent first from the list of a queue, and
  -- leaves the list of the queue without it; from an empty queue it takes a null pointer.
  pub pop-recv :
      Yields
        (pop list h)
        λ result g. (result.0 ≡ or_null ((recv vs).0)) × Holds g (result.1) ((recv vs).1)
  unfolding pop
  pop-recv =
      let (cells, ok, same) = holds in
      elim (end_cases cells) [
        | inl empty ↦
            let no_values : vs ≡ [] = sym same ∙ ap values empty in
            let no_last : list.last ≡ null = ok.ends ∙ ap (last_of null) empty in
            (
              (null, list),
              h,
              rw no_last refl,
              rw no_values (refl, ([], subst (IsList h list) empty ok, refl)),
            )
        | inr (xs, q, w, eq) ↦
            let ok' : IsList h list (xs ++ (q, w) ∷ []) = subst (IsList h list) eq ok in
            let ends : vs ≡ values xs ++ w ∷ [] =
              sym same ∙ ap values eq ∙ values-append xs ((q, w) ∷ []) in
            let is_last : list.last ≡ q = ok'.ends ∙ last_of-append null xs ((q, w) ∷ []) in
            let (_, _, back, _) = split xs ok'.chain in
            let nonnull = (Chain-nonnull back).1 in
            let ((r, after), g, run, removed) = remove_cells h list q w xs [] ok' in
            (
              (r, after),
              g,
              pop-remove h list q is_last nonnull ∙ run,
              rw (ends, recv_end (values xs) w)
                  (removed.value, (xs, subst (IsList g after) (append-nil xs) removed.rest, refl)),
            )
      ]

-- `List_shift`
pub shift_lem :
    (h : Heap) (list : LinkedList) (vs : List Ptr)
    → Holds h list vs
    → Yields
        (shift list h)
        λ result g. (result.0 ≡ (first_out vs).0) × Holds g (result.1) ((first_out vs).1)
unfolding shift
shift_lem h list vs ([], ok, same) = (
  (null, list),
  h,
  rw (empty_first ok.chain) refl,
  subst (λ vs. (null ≡ (first_out vs).0) × Holds h list ((first_out vs).1)) same
      (refl, ([], ok, refl)),
)
shift_lem h list vs ((q, w) ∷ cells, ok, same) =
    let (start, nonnull) = Chain-nonnull ok.chain in
    let (result, g, run, removed) = remove_cells h list q w [] cells ok in
    (
      result,
      g,
      shift-remove h list q start nonnull ∙ run,
      subst (λ vs. (result.0 ≡ (first_out vs).0) × Holds g (result.1) ((first_out vs).1)) same
          (removed.value, (cells, removed.rest, refl)),
    )
