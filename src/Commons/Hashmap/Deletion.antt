-- ===== src/Commons/Hashmap/Deletion.antt =====
-- commons/src/hashmap.c: `Hashmap_delete`, which moves the last node of a bucket.
use network_course_uio.Prelude.{
  ℕ, ◌+◌, ◌≤◌, ◌<◌, ◌≡◌, refl, ◌∙◌, ap, sym, subst, true, false, none, some, List, [], ◌∷◌, ◌++◌,
  All, All-append, append_assoc, length-append, arith, ◌==◌, if◌then◌else◌, ℤ, length,
  set as set_nth, Bool-cases, inl, inr,
}
use network_course_uio.Commons.DArray.{DArray, at}
use network_course_uio.Commons.DArray.Stack.{Holds}
use network_course_uio.Commons.Hashmap.{HashmapNode, delete, delete_at, with_bucket}
use network_course_uio.Commons.Hashmap.Chain.{Lawful, same, find, count, count-append}
use network_course_uio.Commons.Hashmap.Rows.{IsBucket, present}
use network_course_uio.Commons.Hashmap.Buckets.{
  home, chain, IsTable, map_of, set-get_or, find_bucket_seen,
}
use network_course_uio.Commons.Hashmap.Lookup.{
  opened, chain_hashed, get_node-Search, find_split, get_split,
}
use network_course_uio.Commons.DArray.Popping.{pop-Holds, set-Holds}
use network_course_uio.Commons.Hashmap.Chain.{last_cases, count-closed, find-closed, find-last_gone}
use network_course_uio.Commons.Hashmap.Changes.{changed, IsTable-changed}

All-parts {ℓ κ} :
    {A : Type ℓ} (P : A → Type κ) (xs ys : List A) → All P (xs ++ ys) → All P xs × All P ys
All-parts P [] ys all = (tt, all)
All-parts P (x ∷ xs) ys all = let (a, b) = All-parts P xs ys all.1 in ((all.0, a), b)

set_middle {ℓ} :
    {A : Type ℓ} (xs ys : List A) (x y : A) → set_nth (xs ++ x ∷ ys) (length xs) y ≡ xs ++ y ∷ ys
set_middle [] ys x y = refl
set_middle (z ∷ xs) ys x y = ap (λ l. z ∷ l) (set_middle xs ys x y)

zero_left : (n : ℕ) → 0 + n ≡ n
zero_left n = omega arith

not_last : (i n : ℕ) → i < n → (i == n) ≡ false
not_last i n h = ground arith

is_last : (i n : ℕ) → n ≡ i → (i == n) ≡ true
is_last i n h = ground arith

module _ {ℓ} {K V : Type ℓ} (compare : K → K → ℤ) (hash : K → ℕ) (lawful : Lawful compare) where
  -- The nodes `ns'` are those of `ns` without the one with a key.
  pub record Without (key : K) (ns ns' : List (HashmapNode K V)) : Type ℓ where
    pub fewer : (q : K) → count compare q ns' ≤ count compare q ns
    pub finds :
        (q : K)
        → count compare q ns ≤ 1
        → find compare q ns' ≡ (if same compare key q then none else find compare q ns)
    pub hashed : All (λ n. n.hash ≡ hash n.key) ns'

  last-Without :
      (key : K) (a : List (HashmapNode K V)) (node : HashmapNode K V)
      → node.key ≡ key
      → All (λ n. n.hash ≡ hash n.key) (a ++ node ∷ [])
      → Without key (a ++ node ∷ []) a
  last-Without key a node its hashed = record {
    fewer = λ q. omega (arith, count-append compare q a (node ∷ []));
    finds = λ q once. find-last_gone compare key q a node its once;
    hashed = (All-parts (λ n. n.hash ≡ hash n.key) a (node ∷ []) hashed).0;
  }

  moved-Without :
      (key : K) (a c : List (HashmapNode K V)) (node last : HashmapNode K V)
      → node.key ≡ key
      → All (λ n. n.hash ≡ hash n.key) (a ++ node ∷ (c ++ last ∷ []))
      → Without key (a ++ node ∷ (c ++ last ∷ [])) (a ++ last ∷ c)
  moved-Without key a c node last its hashed =
      let (left, right) = All-parts (λ n. n.hash ≡ hash n.key) a _ hashed in
      let (middle, end) = All-parts (λ n. n.hash ≡ hash n.key) c (last ∷ []) right.1 in
      record {
        fewer = λ q. count-closed compare q a c node last;
        finds = λ q once. find-closed compare key q a c node last its once;
        hashed = All-append (λ n. n.hash ≡ hash n.key) a (last ∷ c) left (end.0, middle);
      }

  module _ (limit : ℕ) (buckets : DArray (DArray (HashmapNode K V)))
      (bucket : DArray (HashmapNode K V)) (key : K) (a : List (HashmapNode K V))
      (node : HashmapNode K V) (its : node.key ≡ key) where
    -- What `delete_at` makes of a bucket with the nodes `ns`
    abbrev pub Deletes : List (HashmapNode K V) → Type ℓ
    Deletes ns =
        (after : DArray (HashmapNode K V)) × (ns' : List (HashmapNode K V)) × (delete_at
            (map_of compare hash buckets) (hash key) bucket (0 + length a)
          ≡ some (some node.value, with_bucket (map_of compare hash buckets) (hash key) after))
        × IsBucket limit (at after) ns'
        × Without key ns ns'

    delete_last :
        IsBucket limit (at bucket) (a ++ node ∷ [])
        → All (λ n. n.hash ≡ hash n.key) (a ++ node ∷ [])
        → Deletes (a ++ node ∷ [])
    unfolding delete_at
    delete_last is hashed =
        let (holds, rate, small) = opened is in
        let there = get_split compare hash lawful bucket _ a [] node holds refl in
        let (popped, run, left, max, same_rate) = pop-Holds bucket a node holds in
        let end : popped.end ≡ 0 + length a = omega (arith, left.ends) in
        (
          popped,
          a,
          rw (there, delete_at)
              (rw (run, delete_at) (rw (is_last (0 + length a) popped.end end) refl)),
          present left (same_rate ∙ rate) (omega (arith, max, small)),
          last-Without key a node its hashed,
        )

    delete_moved :
        (c : List (HashmapNode K V)) (last : HashmapNode K V)
        → IsBucket limit (at bucket) (a ++ node ∷ (c ++ last ∷ []))
        → All (λ n. n.hash ≡ hash n.key) (a ++ node ∷ (c ++ last ∷ []))
        → Deletes (a ++ node ∷ (c ++ last ∷ []))
    unfolding delete_at
    delete_moved c last is hashed =
        let (holds, rate, small) = opened is in
        let there = get_split compare hash lawful bucket _ a (c ++ last ∷ []) node holds refl in
        let rest = a ++ node ∷ c in
        let regrouped : a ++ node ∷ (c ++ last ∷ []) ≡ rest ++ last ∷ [] =
          sym (append_assoc a (node ∷ c) (last ∷ [])) in
        let (popped, run, left, max, same_rate) =
          pop-Holds bucket rest last (subst (Holds bucket) regrouped holds) in
        let many = length-append a (node ∷ c) in
        let inside : 0 + length a < length rest = omega (arith, many) in
        let (filled, put, holds', max', rate') =
          set-Holds popped rest (0 + length a) last left inside in
        let place : set_nth rest (0 + length a) last ≡ a ++ last ∷ c =
          (λ t. set_nth rest (zero_left (length a) t) last) ∙ set_middle a c node last in
        (
          filled,
          a ++ last ∷ c,
          rw (there, delete_at)
              (rw (run, delete_at)
                (rw (not_last (0 + length a) popped.end (omega (arith, left.ends, inside)))
                  (rw (put, delete_at) refl))),
          present (subst (Holds filled) place holds') (rate' ∙ same_rate ∙ rate)
              (omega (arith, max, max', small)),
          moved-Without key a c node last its hashed,
        )

    delete_at-Deletes :
        (ns b : List (HashmapNode K V))
        → ns ≡ a ++ node ∷ b
        → IsBucket limit (at bucket) ns
        → All (λ n. n.hash ≡ hash n.key) ns
        → Deletes ns
    delete_at-Deletes ns b split is hashed = elim (last_cases b) [
      | inl empty ↦
          let whole = split ∙ ap (λ l. a ++ node ∷ l) empty in
          subst Deletes (sym whole) (
            delete_last (subst (IsBucket limit (at bucket)) whole is)
              (subst (All (λ n. n.hash ≡ hash n.key)) whole hashed))
      | inr (c, last, ends) ↦
          let whole = split ∙ ap (λ l. a ++ node ∷ l) ends in
          subst Deletes (sym whole) (
            delete_moved c last (subst (IsBucket limit (at bucket)) whole is)
              (subst (All (λ n. n.hash ≡ hash n.key)) whole hashed))
    ]

  absent-Without :
      (key : K) (ns : List (HashmapNode K V))
      → find compare key ns ≡ none
      → All (λ n. n.hash ≡ hash n.key) ns
      → Without key ns ns
  absent-Without key ns absent hashed = record {
    fewer = λ q. omega arith;
    finds = λ q once. elim (Bool-cases (same compare key q)) [
      | inl equal ↦ rw equal (subst (λ k. find compare k ns ≡ none) ((lawful key q).0 equal) absent)
      | inr other ↦ rw other refl
    ];
    hashed = hashed;
  }

  unchanged :
      {limit : ℕ} {buckets : DArray (DArray (HashmapNode K V))}
      {table : List (List (HashmapNode K V))} (key : K)
      → IsTable hash limit buckets table
      → IsTable hash limit buckets (changed hash table key (chain hash table key))
  unchanged {limit} {buckets} {table} key t =
      subst (IsTable hash limit buckets) (sym (set-get_or table (home hash key) [])) t

  -- `Hashmap_delete` gives the value under a key, and leaves the nodes without the one with the key.
  pub delete-Without :
      {limit : ℕ} {buckets : DArray (DArray (HashmapNode K V))}
      {table : List (List (HashmapNode K V))} (key : K)
      → IsTable hash limit buckets table
      → (after : DArray (DArray (HashmapNode K V))) × (ns : List (HashmapNode K V)) × (delete
            (map_of compare hash buckets)
            key
          ≡ some (find compare key (chain hash table key), map_of compare hash after))
        × IsTable hash limit after (changed hash table key ns)
        × Without key (chain hash table key) ns
  unfolding delete
  delete-Without {limit} {buckets} {table} key t = elim (find_bucket_seen compare hash key t) [
    | inl (empty, run) ↦ (
      buckets,
      chain hash table key,
      rw (run, delete)
          (ap (λ o. some (o, map_of compare hash buckets)) (sym (ap (find compare key) empty))),
      unchanged key t,
      absent-Without key _ (ap (find compare key) empty) (chain_hashed compare hash lawful key t),
    )
    | inr (bucket, b, run) ↦
        let hashed = chain_hashed compare hash lawful key t in
        elim (get_node-Search compare hash lawful buckets bucket key (chain hash table key)
          (opened b).0 hashed) [
            | inl (absent, found) ↦ (
              buckets,
              chain hash table key,
              rw (run, delete)
                  (rw (found, delete)
                    (ap (λ o. some (o, map_of compare hash buckets)) (sym absent))),
              unchanged key t,
              absent-Without key _ absent hashed,
            )
            | inr (x, node, y, split, its, first, found) ↦
                let (after, ns, deletes, is, without) =
                  delete_at-Deletes limit buckets bucket key x node its (chain hash table key) y
                    split b hashed in
                (
                  record buckets { contents = set_nth buckets.contents (home hash key) (at after) },
                  ns,
                  rw (run, delete)
                      (rw (found, delete)
                        (deletes
                          ∙ ap
                              (λ o.
                                some
                                  (o, with_bucket (map_of compare hash buckets) (hash key) after))
                              (sym (
                                ap (find compare key) split
                                ∙ find_split compare hash lawful key x y node its first)))),
                  IsTable-changed compare hash lawful key t is without.hashed,
                  without,
                )
          ]
  ]
