-- ===== src/Commons/LinkedList/Destruction.antt =====
-- commons/src/list.c: `List_destroy` gives every node of a list back.
use network_course_uio.Prelude.{
  ℕ, zero, suc, ◌<◌, ◌≡◌, refl, ◌∙◌, false, true, none, ◌∷◌, arith, ◌==◌, ==→eq, Bool-cases, length,
  ◌⊎◌, inl, inr, ap,
}
use network_course_uio.Commons.LinkedList.{
  Ptr, null, LinkedList, Heap, write, free, destroy_nodes, destroy, ◌>>◌,
}
use network_course_uio.Commons.LinkedList.Chain.{
  Cells, ◌∈◌, ◌∉◌, last_of, Points, Chain, nil, cons, Yields, load-ok, free-ok, write-same,
  write-other, carry,
}
use network_course_uio.Commons.LinkedList.Ends.{IsList}

mem-ne : (a b : Ptr) (cells : Cells) → b ∉ cells → a ∈ cells → (a == b) ≡ false
mem-ne a b cells out i = ground (arith, ==→eq a b)

null-not-mem : {h : Heap} {after b p : Ptr} {cells : Cells} → Chain h after b p cells → null ∉ cells
null-not-mem nil = refl
null-not-mem (cons e out s) = ground (arith, e.nonnull, null-not-mem s)

-- `b` is null or a node.
abbrev Behind : Heap → Ptr → Type 0
Behind h b = ((b == null) ≡ true) ⊎ ((q : Ptr) × (c : Ptr) × (v : Ptr) × Points h b q c v)

free-Behind :
    {h : Heap} (b : Ptr)
    → Behind h b
    → Yields
        (free b h)
        λ _ g. ((b == null) ≡ false → g b ≡ none) × ((a : Ptr) → (a == b) ≡ false → g a ≡ h a)
unfolding free
free-Behind {h} b (inl is_null) =
    (tt, h, rw is_null refl, (λ n. absurd (ground (arith, is_null, n)), λ a o. refl))
free-Behind {h} b (inr (q, c, v, e)) =
    (tt, write h b none, free-ok e, (λ n. write-same h b none, write-other h b none))

-- All that is left of the nodes from `b` on is freed.
record Freed (h : Heap) (b : Ptr) (cells : Cells) (g : Heap) : Type 0 where
  before : (b == null) ≡ false → g b ≡ none
  nodes : (a : Ptr) → a ∈ cells → g a ≡ none
  same : (a : Ptr) → (a == b) ≡ false → a ∉ cells → g a ≡ h a

destroy_nodes-Freed :
    (fuel : ℕ) {h : Heap} {b cur : Ptr} {cells : Cells}
    → Chain h null b cur cells
    → Behind h b
    → b ∉ cells
    → length cells < fuel
    → Yields ((destroy_nodes fuel cur >> free (last_of b cells)) h) λ _ g. Freed h b cells g
unfolding destroy_nodes
destroy_nodes-Freed zero s behind out enough = absurd (omega arith)
destroy_nodes-Freed (suc fuel) {h} {b} nil behind out enough =
    let (_, g, run, (freed, same)) = free-Behind b behind in
    (
      tt,
      g,
      run,
      record {
        before = freed;
        nodes = λ a i. absurd (ground (arith, i));
        same = λ a o _. same a o;
      },
    )
destroy_nodes-Freed (suc fuel) {h} {b} {cur} {cells = (c, v) ∷ cells} (cons {q = next} e c_out s)
      behind out enough =
    let (_, h1, run, (freed, same)) = free-Behind b behind in
    let e1 : Points h1 c next b v = record {
      nonnull = e.nonnull;
      there = same c (ground (arith, out)) ∙ e.there;
    } in
    let s1 : Chain h1 null c next cells =
      carry (λ a i. same a (mem-ne a b cells (ground (arith, out)) i)) s in
    let (u, g, run', rest) =
      destroy_nodes-Freed fuel s1 (inr (next, b, v, e1)) c_out (omega arith) in
    (
      u,
      g,
      rw (e.nonnull, load-ok e) (rw run (rw (load-ok e1) run')),
      record {
        before = λ n. rest.same b (ground (arith, out)) (ground (arith, out)) ∙ freed n;
        nodes = λ a i. elim (Bool-cases (a == c)) [
          | inl same_node ↦ ap g (==→eq a c same_node) ∙ rest.before e.nonnull
          | inr other ↦ rest.nodes a (ground (arith, i, other))
        ];
        same = λ a o away. rest.same a (ground (arith, away)) (ground (arith, away)) ∙ same a o;
      },
    )

-- `List_destroy` of a list ends without a fault, whatever its length, if the rounds are more than its
-- nodes: every node is freed, and no address outside the list is touched.
pub destroy_cells :
    (fuel : ℕ) (h : Heap) (list : LinkedList) (cells : Cells)
    → IsList h list cells
    → length cells < fuel
    → Yields (destroy fuel list h) λ _ g.
      ((a : Ptr) → a ∈ cells → g a ≡ none)
      × ((a : Ptr) → (a == null) ≡ false → a ∉ cells → g a ≡ h a)
unfolding destroy
destroy_cells fuel h list cells ok enough =
    let (u, g, run, rest) =
      destroy_nodes-Freed fuel ok.chain (inl refl) (null-not-mem ok.chain) enough in
    (u, g, rw ok.ends run, (rest.nodes, rest.same))
