-- ===== src/Commons/Hashmap/Traversal.antt =====
-- commons/src/hashmap.c: the nodes that `Hashmap_traverse` comes to.
use network_course_uio.Prelude.{
  ℕ, ◌+◌, ◌≤◌, ◌≡◌, refl, ◌∙◌, ap, sym, subst, true, some, List, [], ◌∷◌, ◌++◌, append_assoc, arith,
  if◌then◌else◌, ℤ, pos, eq_int, length, get_elem?, Bool-cases, inl, inr, lt→ltb, ltb,
  length-append,
}
use network_course_uio.Commons.DArray.{DArray, Cell, null, at}
use network_course_uio.Commons.DArray
use network_course_uio.Commons.DArray.Stack.{Holds}
use network_course_uio.Commons.DArray.Popping.{get-Holds}
use network_course_uio.Commons.Hashmap.{HashmapNode, traverse_bucket, traverse_from, traverse}
use network_course_uio.Commons.Hashmap.Search.{get_behind}
use network_course_uio.Commons.Hashmap.Rows.{absent, present, Rows, Rows-length, nil, cons}
use network_course_uio.Commons.Hashmap.Buckets.{IsTable, map_of}

module _ {ℓ} {N S : Type ℓ} (callback : N → S → ℤ × S) where
  -- The callback on the nodes of a list, up to the first one for which it does not give 0
  abbrev pub visit_all : List N → S → ℤ × S
  visit_all [] s = (pos 0, s)
  visit_all (n ∷ ns) s =
      let (rc, s') = callback n s in if eq_int rc (pos 0) then visit_all ns s' else (rc, s')

  pub visit_all-append :
      (xs ys : List N) (s : S)
      → visit_all (xs ++ ys) s ≡ (
          if eq_int (visit_all xs s).0 (pos 0)
          then visit_all ys (visit_all xs s).1
          else visit_all xs s)
  visit_all-append [] ys s = refl
  visit_all-append (x ∷ xs) ys s = elim (Bool-cases (eq_int (callback x s).0 (pos 0))) [
    | inl goes_on ↦ rw goes_on (visit_all-append xs ys (callback x s).1)
    | inr ends ↦ rw ends (rw ends refl)
  ]

-- The nodes of all buckets, in their order
abbrev pub all_nodes {ℓ} : {A : Type ℓ} → List (List A) → List A
all_nodes [] = []
all_nodes (ns ∷ table) = ns ++ all_nodes table

module _ {ℓ} {K V S : Type ℓ} (callback : HashmapNode K V → S → ℤ × S) where
  traverse_bucket_lem :
      (bucket : DArray (HashmapNode K V)) (front ns : List (HashmapNode K V)) (s : S)
      → Holds bucket (front ++ ns)
      → traverse_bucket callback bucket (length ns) (length front) s
        ≡ some (visit_all callback ns s)
  unfolding traverse_bucket
  traverse_bucket_lem bucket front [] s holds = refl
  traverse_bucket_lem bucket front (n ∷ ns) s holds =
      let there : DArray.get bucket (length front) ≡ some (at n) =
        get-Holds bucket (front ++ n ∷ ns) (length front) n holds (get_behind front ns n) in
      let next = front ++ n ∷ [] in
      let many : length next ≡ length front + 1 = omega (arith, length-append front (n ∷ [])) in
      elim (Bool-cases (eq_int (callback n s).0 (pos 0))) [
        | inl goes_on ↦
            rw (there, traverse_bucket)
              (rw goes_on (
                ap (λ j. traverse_bucket callback bucket (length ns) j (callback n s).1) (sym many)
                ∙ traverse_bucket_lem bucket next ns (callback n s).1
                    (subst (Holds bucket) (sym (append_assoc front (n ∷ []) ns)) holds)))
        | inr ends ↦ rw (there, traverse_bucket) (rw ends refl)
      ]

  module _ (buckets : DArray (DArray (HashmapNode K V)))
      (whole : length buckets.contents ≤ buckets.max) where
    got :
        (before rest : List (Cell (DArray (HashmapNode K V)))) (c : Cell (DArray (HashmapNode K V)))
        → buckets.contents ≡ before ++ c ∷ rest
        → DArray.get buckets (length before) ≡ some c
    unfolding DArray.get
    got before rest c split =
        let inside : ltb (length before) buckets.max ≡ true =
          lt→ltb _ _ (omega (arith, whole, ap length split, length-append before (c ∷ rest))) in
        rw inside (ap (λ l. get_elem? l (length before)) split ∙ get_behind before rest c)

    one_more :
        (before : List (Cell (DArray (HashmapNode K V)))) (c : Cell (DArray (HashmapNode K V)))
        → length (before ++ c ∷ []) ≡ length before + 1
    one_more before c = omega (arith, length-append before (c ∷ []))

    traverse_from_lem :
        {limit : ℕ} {cs : List (Cell (DArray (HashmapNode K V)))}
        {table : List (List (HashmapNode K V))} (before : List (Cell (DArray (HashmapNode K V))))
        (s : S)
        → Rows limit cs table
        → buckets.contents ≡ before ++ cs
        → traverse_from callback buckets (length cs) (length before) s
          ≡ some (visit_all callback (all_nodes table) s)
    unfolding traverse_from
    traverse_from_lem before s nil split = refl
    traverse_from_lem before s (cons {cs = cs} absent rows) split =
        rw (got before cs null split, traverse_from)
          (ap (λ i. traverse_from callback buckets (length cs) i s) (sym (one_more before null))
            ∙ traverse_from_lem (before ++ null ∷ []) s rows
                (split ∙ sym (append_assoc before (null ∷ []) cs)))
    traverse_from_lem before s
          (cons {cs = cs} {table = table} (present {bucket} {ns} holds _ _) rows) split =
        let nodes = all_nodes table in
        let bucket_run : traverse_bucket callback bucket bucket.end 0 s
            ≡ some (visit_all callback ns s) =
          ap (λ n. traverse_bucket callback bucket n 0 s) holds.ends
          ∙ traverse_bucket_lem bucket [] ns s holds in
        let rest = λ (s' : S).
          ap (λ i. traverse_from callback buckets (length cs) i s')
            (sym (one_more before (at bucket)))
          ∙ traverse_from_lem (before ++ at bucket ∷ []) s' rows
              (split ∙ sym (append_assoc before (at bucket ∷ []) cs)) in
        elim (Bool-cases (eq_int (visit_all callback ns s).0 (pos 0))) [
          | inl goes_on ↦
              rw (got before cs (at bucket) split, traverse_from)
                (rw (bucket_run, traverse_from)
                  (rw goes_on (
                    rest (visit_all callback ns s).1
                    ∙ ap some (sym (rw goes_on at (visit_all-append callback ns nodes s))))))
          | inr ends ↦
              rw (got before cs (at bucket) split, traverse_from)
                (rw (bucket_run, traverse_from)
                  (rw ends (ap some (sym (rw ends at (visit_all-append callback ns nodes s))))))
        ]

  -- `Hashmap_traverse`, with its two loops over the cells of arrays, is the visit of the nodes of all
  -- buckets in their order, up to the first for which the callback does not return 0.
  pub traverse-visit_all :
      (compare : K → K → ℤ) (hash : K → ℕ) {limit : ℕ} {buckets : DArray (DArray (HashmapNode K V))}
      {table : List (List (HashmapNode K V))} (s : S)
      → IsTable hash limit buckets table
      → traverse (map_of compare hash buckets) callback s
        ≡ some (visit_all callback (all_nodes table) s)
  unfolding traverse
  traverse-visit_all compare hash {buckets = buckets} s t =
      let cells : length buckets.contents ≡ 100 = Rows-length t.rows ∙ t.hundred in
      let rounds : buckets.end ≡ length buckets.contents = t.end ∙ sym cells in
      ap (λ n. traverse_from callback buckets n 0 s) rounds
      ∙ traverse_from_lem buckets (omega (arith, cells, t.max)) [] s t.rows refl
