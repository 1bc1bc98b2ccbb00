-- ===== src/Commons/LinkedList/Removal.antt =====
-- commons/src/list.c: what `List_remove`, `List_pop` and `List_shift` do to the chain of a list.
use network_course_uio.Prelude.{
  ℕ, ◌+◌, ◌-◌, ◌^◌, ◌≡◌, refl, ◌∙◌, sym, ap, false, none, some, [], ◌∷◌, ◌++◌, arith, ◌==◌, ==-refl,
  ==→eq, inl, inr, Bool-cases, length-append, append-nil, subst,
}
use network_course_uio.Prelude.Bytes.{u32}
use network_course_uio.Commons.LinkedList.{
  Ptr, null, LinkedList, Heap, write, leave, remove, count_down,
}
use network_course_uio.Commons.LinkedList.Chain.{
  Cells, ◌∈◌, ◌∉◌, Apart, Spares, last_of, last_of-append, last_of-mem, Points, nil, Yields,
  among-append, load-ok, free-ok, write-same, write-other, carry, carry-write, split, uncons, join,
  relink_last, relink_first,
}
use network_course_uio.Commons.LinkedList.Ends.{IsList, Chain-nonnull, last-nonnull}

count_down_lem : (count n m : ℕ) → count ≡ u32 n → n ≡ m + 1 → u32 (count + 2 ^ 32 - 1) ≡ u32 m
count_down_lem count n m counts more = omega (arith, counts, more)

leave-ok :
    {h : Heap} {q n b w : Ptr} (list : LinkedList)
    → Points h q n b w
    → leave list q h ≡ some ((w, record list { count = count_down list.count }), write h q none)
leave-ok list e = rw (load-ok e) (rw (free-ok e) refl)

not_last : (q r u : Ptr) (ys : Cells) → q ∉ (r, u) ∷ ys → (q == last_of q ((r, u) ∷ ys)) ≡ false
not_last q r u ys out = elim (Bool-cases (q == last_of q ((r, u) ∷ ys))) [
  | inl eq ↦ absurd (ground (arith, last_of-mem q r u ys, ==→eq q (last_of q ((r, u) ∷ ys)) eq))
  | inr ne ↦ ne
]

not_first : (q p v : Ptr) (xs : Cells) → q ∉ (p, v) ∷ xs → (q == p) ≡ false
not_first q p v xs out = ground (arith, out)

apart_behind : (a q w : Ptr) (ys : Cells) → a ∉ (q, w) ∷ ys → a ∉ ys
apart_behind a q w ys out = ground (arith, out)

apart_before :
    (a : Ptr) (xs : Cells) (q w : Ptr) (ys : Cells) → Apart xs ((q, w) ∷ ys) → a ∈ ys → a ∉ xs
apart_before a xs q w ys apart i = ground (arith, apart a, i)

other_side : (xs : Cells) (q w : Ptr) (ys : Cells) → Apart xs ((q, w) ∷ ys) → q ∉ xs
other_side xs q w ys apart = ground (arith, apart q)

outside :
    (a : Ptr) (xs : Cells) (q w : Ptr) (ys : Cells)
    → a ∉ xs ++ (q, w) ∷ ys
    → (a ∉ xs) × ((a == q) ≡ false) × (a ∉ ys)
outside a xs q w ys out = ground (arith, among-append a xs ((q, w) ∷ ys), out)

-- What the removal of the node `q` from between `xs` and `ys` leaves
pub record Removed (h : Heap) (xs : Cells) (q w : Ptr) (ys : Cells) (result : Ptr × LinkedList)
    (g : Heap) : Type 0 where
  pub value : result.0 ≡ w
  pub rest : IsList g (result.1) (xs ++ ys)
  pub freed : g q ≡ none
  pub same : Spares (xs ++ (q, w) ∷ ys) h g

module _ (h : Heap) (list : LinkedList) (q w : Ptr) where
  remove_only_cells : IsList h list ((q, w) ∷ []) → Yields (remove list q h) (Removed h [] q w [])
  unfolding remove
  remove_only_cells ok =
      let (next, start, e, out, s) = uncons ok.chain in
      (
        (w, record { count = count_down list.count; first = null; last = null }),
        write h q none,
        rw (start, ok.ends) (rw (e.nonnull, ==-refl q) (leave-ok _ e)),
        record {
          value = refl;
          rest = record {
            chain = nil;
            ends = refl;
            counts = count_down_lem list.count 1 0 ok.counts refl;
          };
          freed = write-same h q none;
          same = λ a o. write-other h q none a (ground (arith, o));
        },
      )

  remove_first_cells :
      (y : Ptr × Ptr) (ys : Cells)
      → IsList h list ((q, w) ∷ y ∷ ys)
      → Yields (remove list q h) (Removed h [] q w (y ∷ ys))
  unfolding remove
  remove_first_cells (r, u) ys ok =
      let (next, start, e, out, s) = uncons ok.chain in
      let (next_r, nonnull) = Chain-nonnull s in
      let (_, g, run, (chain, same)) = relink_first null s in
      let e' : Points g q next null w = record {
        nonnull = e.nonnull;
        there = same q out ∙ e.there;
      } in
      let end : (q == last_of q ((r, u) ∷ ys)) ≡ false = not_last q r u ys out in
      (
        (w, record { count = count_down list.count; first = next; last = list.last }),
        write g q none,
        rw (start, ok.ends)
            (rw (e.nonnull, ==-refl q, last-nonnull ys s, end)
              (rw (load-ok e) (rw (ap (λ p. p == null) next_r ∙ nonnull, run) (leave-ok _ e')))),
        record {
          value = refl;
          rest = record {
            chain = carry-write q none chain out;
            ends = ok.ends;
            counts = count_down_lem list.count _ _ ok.counts (omega arith);
          };
          freed = write-same g q none;
          same = λ a o. write-other g q none a (ground (arith, o)) ∙ same a (ground (arith, o));
        },
      )

  remove_last_cells :
      (x : Ptr × Ptr) (xs : Cells)
      → IsList h list (x ∷ xs ++ (q, w) ∷ [])
      → Yields (remove list q h) (Removed h (x ∷ xs) q w [])
  unfolding remove
  remove_last_cells (p, v) xs ok =
      let front_cells = (p, v) ∷ xs in
      let (m, front, back, apart) = split front_cells ok.chain in
      let (next, start, e, out, s) = uncons back in
      let (first_p, nonnull) = Chain-nonnull front in
      let l = last_of null front_cells in
      let (_, g, run, (chain, same)) = relink_last xs null front in
      let q_out : q ∉ front_cells = other_side front_cells q w [] apart in
      let e' : Points g q next l w = record {
        nonnull = e.nonnull;
        there = same q q_out ∙ e.there;
      } in
      let some_first : (list.first == null) ≡ false = ap (λ c. c == null) first_p ∙ nonnull in
      let not_start : (q == list.first) ≡ false =
        ap (λ c. q == c) first_p ∙ not_first q p v xs q_out in
      let q_last : list.last ≡ q = ok.ends ∙ last_of-append null front_cells ((q, w) ∷ []) in
      (
        (w, record { count = count_down list.count; first = list.first; last = l }),
        write g q none,
        rw (some_first, not_start, q_last)
            (rw (e.nonnull, ==-refl q)
              (rw (load-ok e)
                (rw (last-nonnull xs front, run) (leave-ok (record list { last = l }) e')))),
        record {
          value = refl;
          rest = subst (IsList (write g q none) _) (sym (append-nil front_cells)) (record {
            chain = carry-write q none chain q_out;
            ends = refl;
            counts =
                count_down_lem list.count _ _ ok.counts (length-append front_cells ((q, w) ∷ []));
          });
          freed = write-same g q none;
          same = λ a o.
              let (before, other, _) = outside a front_cells q w [] o in
              write-other g q none a other ∙ same a before;
        },
      )

  remove_between_cells :
      (x y : Ptr × Ptr) (xs ys : Cells)
      → IsList h list (x ∷ xs ++ (q, w) ∷ y ∷ ys)
      → Yields (remove list q h) (Removed h (x ∷ xs) q w (y ∷ ys))
  unfolding remove
  remove_between_cells (p, v) (r, u) xs ys ok =
      let front_cells = (p, v) ∷ xs in
      let back_cells = (r, u) ∷ ys in
      let (m, front, back, apart) = split front_cells ok.chain in
      let (next, start, e, out, s) = uncons back in
      let (first_p, nonnull) = Chain-nonnull front in
      let l = last_of null front_cells in
      let (_, g, run, (chain, same)) = relink_first l s in
      let spared : (a : Ptr) → a ∈ front_cells → g a ≡ h a =
        λ a i. same a (apart_behind a q w back_cells (apart a i)) in
      let (_, g', run', (chain', same')) = relink_last xs next (carry spared front) in
      let spared' : (a : Ptr) → a ∈ back_cells → g' a ≡ g a =
        λ a i. same' a (apart_before a front_cells q w back_cells apart i) in
      let q_out : q ∉ front_cells = other_side front_cells q w back_cells apart in
      let e1 : Points g q next l w = record { nonnull = e.nonnull; there = same q out ∙ e.there } in
      let e' : Points g' q next l w = record {
        nonnull = e.nonnull;
        there = same' q q_out ∙ e1.there;
      } in
      let some_first : (list.first == null) ≡ false = ap (λ c. c == null) first_p ∙ nonnull in
      let not_start : (q == list.first) ≡ false =
        ap (λ c. q == c) first_p ∙ not_first q p v xs q_out in
      let q_last : list.last ≡ last_of q back_cells =
        ok.ends ∙ last_of-append null front_cells ((q, w) ∷ back_cells) in
      let some_last : (list.last == null) ≡ false =
        ap (λ c. c == null) q_last ∙ last-nonnull ys s in
      let not_end : (q == list.last) ≡ false = ap (λ c. q == c) q_last ∙ not_last q r u ys out in
      (
        (w, record { count = count_down list.count; first = list.first; last = list.last }),
        write g' q none,
        rw (some_first, not_start, some_last, e.nonnull, not_end)
            (rw (load-ok e) (rw run (rw run' (leave-ok list e')))),
        record {
          value = refl;
          rest = record {
            chain =
                join (λ a i. apart_behind a q w back_cells (apart a i))
                  (carry-write q none chain' q_out) (carry-write q none (carry spared' chain) out);
            ends =
                ok.ends
                ∙ last_of-append null front_cells ((q, w) ∷ back_cells)
                ∙ sym (last_of-append null front_cells back_cells);
            counts = count_down_lem list.count _ _ ok.counts (
                length-append front_cells ((q, w) ∷ back_cells)
                ∙ omega (arith, length-append front_cells back_cells));
          };
          freed = write-same g' q none;
          same = λ a o.
              let (before, other, behind) = outside a front_cells q w back_cells o in
              write-other g' q none a other ∙ same' a before ∙ same a behind;
        },
      )

  -- A node of a list is removed: the list keeps its other nodes in their order, the value of the node is
  -- the result, the node is freed, and no node outside the list is touched.
  pub remove_cells :
      (xs ys : Cells)
      → IsList h list (xs ++ (q, w) ∷ ys)
      → Yields (remove list q h) (Removed h xs q w ys)
  remove_cells [] [] ok = remove_only_cells ok
  remove_cells [] (y ∷ ys) ok = remove_first_cells y ys ok
  remove_cells (x ∷ xs) [] ok = remove_last_cells x xs ok
  remove_cells (x ∷ xs) (y ∷ ys) ok = remove_between_cells x y xs ys ok
