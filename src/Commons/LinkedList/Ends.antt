-- ===== src/Commons/LinkedList/Ends.antt =====
-- commons/src/list.c: what `List_push` and `List_unshift` do to the chain of a list.
use network_course_uio.Prelude.{
  ℕ, suc, Option, ◌+◌, ◌≡◌, refl, ◌∙◌, sym, ap, Bool, false, ◌||◌, none, some, [], ◌∷◌, ◌++◌, arith,
  ◌==◌, ==→eq, length, length-append,
}
use network_course_uio.Prelude.Bytes.{u32}
use network_course_uio.Commons.LinkedList.{
  Ptr, null, LinkedList, Heap, write, push, unshift, ListNode,
}
use network_course_uio.Commons.LinkedList.Chain.{
  Cells, ◌∈◌, ◌∉◌, Spares, last_of, last_of-append, Points, Chain, nil, cons, Yields, among,
  among-append, set_next-ok, set_prev-ok, write-same, write-other, carry-write, not-mem_of_unused,
  join, relink_last, relink_first,
}

-- The list has these cells: they are chained from `first` to `last`, and `count` counts them.
pub record IsList (h : Heap) (list : LinkedList) (cells : Cells) : Type 0 where
  pub chain : Chain h null null list.first cells
  pub ends : list.last ≡ last_of null cells
  pub counts : list.count ≡ u32 (length cells)

pub Chain-nonnull :
    {h : Heap} {after b p q v : Ptr} {xs : Cells}
    → Chain h after b p ((q, v) ∷ xs)
    → (p ≡ q) × ((q == null) ≡ false)
Chain-nonnull (cons e out s) = (refl, e.nonnull)

pub empty_first : {h : Heap} {after b p : Ptr} → Chain h after b p [] → p ≡ after
empty_first nil = refl

pub last-nonnull :
    {h : Heap} {after b p q v : Ptr} (xs : Cells)
    → Chain h after b p ((q, v) ∷ xs)
    → (last_of b ((q, v) ∷ xs) == null) ≡ false
last-nonnull [] (cons e out s) = e.nonnull
last-nonnull ((r, w) ∷ xs) (cons e out s) = last-nonnull xs s

count_up_lem : (count n m : ℕ) → count ≡ u32 n → m ≡ n + 1 → u32 (count + 1) ≡ u32 m
count_up_lem count n m counts more = omega (arith, counts, more)

-- The first cell of a list: its only node
single :
    (h : Heap) (fresh value c n : Ptr)
    → (fresh == null) ≡ false
    → n ≡ u32 0
    → IsList
        (write h fresh (some (record { next = null; prev = null; value = value })))
        (record { count = u32 (n + 1); first = fresh; last = fresh })
        ((fresh, value) ∷ [])
single h fresh value c n nonnull zero_of = record {
  chain = cons (record { nonnull = nonnull; there = write-same h fresh _ }) refl nil;
  ends = refl;
  counts = ap (λ k. u32 (k + 1)) zero_of;
}

or-false : (a b : Bool) → (a || (b || false)) ≡ false → (a ≡ false) × (b ≡ false)
or-false a b h = ground arith

disjoint_single : (a p v : Ptr) (xs : Cells) → p ∉ xs → a ∈ xs → a ∉ (p, v) ∷ []
disjoint_single a p v xs out i = ground (arith, ==→eq a p)

module _ (h : Heap) (list : LinkedList) (fresh value : Ptr) (nonnull : (fresh == null) ≡ false)
    (unused : h fresh ≡ none) where
  -- An allocated node is appended; no other node is touched.
  pub push_cells :
      (cells : Cells)
      → IsList h list cells
      → Yields (push fresh list value h) λ after g.
        IsList g after (cells ++ (fresh, value) ∷ []) × Spares (cells ++ (fresh, value) ∷ []) h g
  unfolding push
  push_cells [] ok = (
    record { count = u32 (list.count + 1); first = fresh; last = fresh },
    write h fresh (some (record { next = null; prev = null; value = value })),
    rw (nonnull, ok.ends) refl,
    (
      single h fresh value null list.count nonnull ok.counts,
      λ a o. write-other h fresh _ a (ground (arith, o)),
    ),
  )
  push_cells ((q, v) ∷ cells) ok =
      let new : Option ListNode = some (record { next = null; prev = null; value = value }) in
      let end = last_of null ((q, v) ∷ cells) in
      let out = not-mem_of_unused fresh ok.chain unused in
      let (u, g, run, (chain, same)) =
        relink_last cells fresh (carry-write fresh new ok.chain out) in
      let node : Points g fresh null null value = record {
        nonnull = nonnull;
        there = same fresh out ∙ write-same h fresh _;
      } in
      (
        record { count = u32 (list.count + 1); first = list.first; last = fresh },
        write g fresh (some (record { next = null; prev = end; value = value })),
        rw (nonnull, ok.ends)
            (rw (last-nonnull cells ok.chain, run) (rw (set_prev-ok end node) refl)),
        (
          record {
            chain =
                join (λ a i. disjoint_single a fresh value ((q, v) ∷ cells) out i)
                  (carry-write fresh _ chain out)
                  (cons (record { nonnull = nonnull; there = write-same g fresh _ }) refl nil);
            ends = sym (last_of-append null ((q, v) ∷ cells) ((fresh, value) ∷ []));
            counts =
                count_up_lem list.count _ _ ok.counts
                  (ap suc (length-append cells ((fresh, value) ∷ [])) ∙ omega arith);
          },
          λ a o.
              let apart = sym (among-append a ((q, v) ∷ cells) ((fresh, value) ∷ [])) ∙ o in
              let (before, other) = or-false (among ((q, v) ∷ cells) a) (a == fresh) apart in
              write-other g fresh _ a other ∙ same a before ∙ write-other h fresh _ a other,
        ),
      )

  -- An allocated node is put in front; no other node is touched.
  pub unshift_cells :
      (cells : Cells)
      → IsList h list cells
      → Yields
          (unshift fresh list value h)
          λ after g. IsList g after ((fresh, value) ∷ cells) × Spares ((fresh, value) ∷ cells) h g
  unfolding unshift
  unshift_cells [] ok = (
    record { count = u32 (list.count + 1); first = fresh; last = fresh },
    write h fresh (some (record { next = null; prev = null; value = value })),
    rw (nonnull, empty_first ok.chain) refl,
    (
      single h fresh value null list.count nonnull ok.counts,
      λ a o. write-other h fresh _ a (ground (arith, o)),
    ),
  )
  unshift_cells ((q, v) ∷ cells) ok =
      let new : Option ListNode = some (record { next = null; prev = null; value = value }) in
      let linked : Option ListNode =
        some (record { next = list.first; prev = null; value = value }) in
      let out = not-mem_of_unused fresh ok.chain unused in
      let h1 = write h fresh new in
      let h2 = write h1 fresh linked in
      let node : Points h1 fresh null null value = record {
        nonnull = nonnull;
        there = write-same h fresh _;
      } in
      let (start, some_first) = Chain-nonnull ok.chain in
      let (u, g, run, (chain, same)) =
        relink_first fresh (carry-write fresh linked (carry-write fresh new ok.chain out) out) in
      (
        record { count = u32 (list.count + 1); first = fresh; last = list.last },
        g,
        rw nonnull (
            rw (ap (λ p. p == null) start ∙ some_first)
              (rw (set_next-ok list.first node, run) refl)),
        (
          record {
            chain =
                cons
                  (record {
                    nonnull = nonnull;
                    there = same fresh out ∙ write-same h1 fresh linked;
                  })
                  out chain;
            ends = ok.ends;
            counts = count_up_lem list.count _ _ ok.counts (omega arith);
          },
          λ a o.
              same a (ground (arith, o))
              ∙ write-other h1 fresh _ a (ground (arith, o))
              ∙ write-other h fresh _ a (ground (arith, o)),
        ),
      )
