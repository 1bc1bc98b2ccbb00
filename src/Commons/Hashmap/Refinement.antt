-- ===== src/Commons/Hashmap/Refinement.antt =====
-- commons/src/hashmap.c: the hash map as a map, a function from keys to values.
use network_course_uio.Prelude.{
  ℕ, zero, suc, ◌+◌, ◌*◌, ◌^◌, ◌≤◌, ◌<◌, ◌≡◌, refl, ◌∙◌, ap, sym, subst, Option, none, some, List,
  [], ◌∷◌, ◌++◌, arith, ◌==◌, if◌then◌else◌, ℤ, pos, length, get_or, Bool-cases, inl, inr,
  replicate,
}
use network_course_uio.Commons.DArray.{DArray}
use network_course_uio.Commons.Hashmap.{HashmapNode, Hashmap, create, get, set, delete}
use network_course_uio.Commons.Hashmap.Chain.{
  Lawful, same, find, count, or_else, count-append, count-eq-zero,
}
use network_course_uio.Commons.Hashmap.Buckets.{home, chain, IsTable, map_of, create-IsTable}
use network_course_uio.Commons.Hashmap.Lookup.{chain-set, view, get-view}
use network_course_uio.Commons.Hashmap.Changes.{changed, set-IsTable}
use network_course_uio.Commons.Hashmap.Deletion.{Without, delete-Without}
use network_course_uio.Commons.Hashmap.Values.{other_home, or_else-none, chain_same, view-set}
use network_course_uio.Commons.Hashmap.Client.{
  Operation, sets, gets, deletes, perform, run, update, answers, AllFresh,
}

empty_chain {ℓ} : {A : Type ℓ} (n i : ℕ) → get_or {A = List A} (replicate n []) i [] ≡ []
empty_chain zero i = refl
empty_chain (suc n) zero = refl
empty_chain (suc n) (suc i) = empty_chain n i

module _ {ℓ} {K V : Type ℓ} (compare : K → K → ℤ) (hash : K → ℕ) (lawful : Lawful compare) where
  -- The buckets hold each value of a function once.
  pub record Models (f : K → Option V) (limit : ℕ) (buckets : DArray (DArray (HashmapNode K V)))
      : Type ℓ where
    pub table : List (List (HashmapNode K V))
    pub is : IsTable hash limit buckets table
    pub once : (q : K) → count compare q (chain hash table q) ≤ 1
    pub reads : (q : K) → view compare hash table q ≡ f q

  get-Models :
      (f : K → Option V) (limit : ℕ) (buckets : DArray (DArray (HashmapNode K V))) (key : K)
      → Models f limit buckets
      → get (map_of compare hash buckets) key ≡ some (f key)
  get-Models f limit buckets key m =
      get-view compare hash lawful buckets m.table key m.is ∙ ap some (m.reads key)

  once-set :
      (table : List (List (HashmapNode K V))) (key q : K) (node : HashmapNode K V)
      → length table ≡ 100
      → node.key ≡ key
      → view compare hash table key ≡ none
      → count compare q (chain hash table q) ≤ 1
      → count compare q (chain hash (changed hash table key (chain hash table key ++ node ∷ [])) q)
        ≤ 1
  once-set table key q node hundred its fresh once =
      let nodes = chain hash table key in
      let read = chain-set hash table key q (nodes ++ node ∷ []) hundred in
      let end : count compare q (node ∷ []) ≡ (if same compare key q then 1 else 0) + 0 =
        ap (λ k. (if same compare k q then 1 else 0) + 0) its in
      elim (Bool-cases (home hash key == home hash q)) [
        | inr away ↦ subst (λ l. count compare q l ≤ 1) (sym (rw away at read)) once
        | inl found ↦
            let counted = ap (count compare q) (rw found at read) in
            let total = count-append compare q nodes (node ∷ []) in
            elim (Bool-cases (same compare key q)) [
              | inl equal ↦
                  let absent : count compare q nodes ≡ 0 =
                    subst (λ k. count compare k nodes ≡ 0) ((lawful key q).0 equal)
                      (count-eq-zero compare key nodes fresh) in
                  omega (arith, counted, total, absent, rw equal at end)
              | inr other ↦
                  let old : count compare q nodes ≤ 1 =
                    subst (λ l. count compare q l ≤ 1)
                      (sym (chain_same compare hash lawful table key q found)) once in
                  omega (arith, counted, total, old, rw other at end)
            ]
      ]

  set_reads :
      (f : K → Option V) (table : List (List (HashmapNode K V))) (key q : K) (value : V)
      → ((q : K) → view compare hash table q ≡ f q)
      → f key ≡ none
      → or_else (view compare hash table q) (if same compare key q then some value else none)
        ≡ update compare f key (some value) q
  set_reads f table key q value reads fresh = elim (Bool-cases (same compare key q)) [
    | inl equal ↦
        let absent : view compare hash table q ≡ none =
          reads q ∙ subst (λ k. f k ≡ none) ((lawful key q).0 equal) fresh in
        rw equal (rw absent refl)
    | inr other ↦ rw other (or_else-none (view compare hash table q) ∙ reads q)
  ]

  set-Models :
      (f : K → Option V) (limit : ℕ) (buckets : DArray (DArray (HashmapNode K V))) (key : K)
      (value : V)
      → Models f limit buckets
      → f key ≡ none
      → 100 ≤ limit
      → limit + 300 < 2 ^ 31
      → (after : DArray (DArray (HashmapNode K V))) × (set (map_of compare hash buckets) key value
          ≡ some (pos 0, map_of compare hash after))
        × Models (update compare f key (some value)) (limit + 300) after
  set-Models f limit buckets key value m fresh wide grows =
      let (after, runs, t) = set-IsTable compare hash lawful key value m.is wide grows in
      let none_there = m.reads key ∙ fresh in
      (
        after,
        runs,
        record {
          table = _;
          is = t;
          once = λ q. once-set m.table key q _ m.is.hundred refl none_there (m.once q);
          reads = λ q.
              view-set compare hash lawful m.table key q value m.is.hundred
              ∙ set_reads f m.table key q value m.reads fresh;
        },
      )

  deleted :
      (f : K → Option V) (limit : ℕ) (buckets : DArray (DArray (HashmapNode K V))) (key : K)
      (m : Models f limit buckets) (ns : List (HashmapNode K V))
      → Without compare hash lawful key (chain hash m.table key) ns
      → (q : K)
      → (count compare q (chain hash (changed hash m.table key ns) q) ≤ 1)
        × (view compare hash (changed hash m.table key ns) q ≡ update compare f key none q)
  deleted f limit buckets key m ns without q =
      let read = chain-set hash m.table key q ns m.is.hundred in
      elim (Bool-cases (home hash key == home hash q)) [
        | inr away ↦ (
          subst (λ l. count compare q l ≤ 1) (sym (rw away at read)) (m.once q),
          ap (find compare q) (rw away at read)
              ∙ rw (other_home compare hash lawful key q away) (m.reads q),
        )
        | inl found ↦
            let shared = chain_same compare hash lawful m.table key q found in
            let old : count compare q (chain hash m.table key) ≤ 1 =
              subst (λ l. count compare q l ≤ 1) (sym shared) (m.once q) in
            let less : count compare q ns ≤ 1 = omega (arith, without.fewer q, old) in
            (
              subst (λ l. count compare q l ≤ 1) (sym (rw found at read)) less,
              ap (find compare q) (rw found at read)
                  ∙ without.finds q old
                  ∙ ap (λ o. if same compare key q then none else o)
                      (ap (find compare q) shared ∙ m.reads q),
            )
      ]

  delete-Models :
      (f : K → Option V) (limit : ℕ) (buckets : DArray (DArray (HashmapNode K V))) (key : K)
      → Models f limit buckets
      → (after : DArray (DArray (HashmapNode K V))) × (delete (map_of compare hash buckets) key
          ≡ some (f key, map_of compare hash after))
        × Models (update compare f key none) limit after
  delete-Models f limit buckets key m =
      let (after, ns, runs, t, without) = delete-Without compare hash lawful key m.is in
      (
        after,
        runs ∙ ap (λ o. some (o, map_of compare hash after)) (m.reads key),
        record {
          table = changed hash m.table key ns;
          is = t;
          once = λ q. (deleted f limit buckets key m ns without q).0;
          reads = λ q. (deleted f limit buckets key m ns without q).1;
        },
      )

  create-Models :
      (limit : ℕ)
      → (buckets : DArray (DArray (HashmapNode K V))) × (create compare hash
          ≡ some (map_of compare hash buckets))
        × Models (λ _. none) limit buckets
  create-Models limit =
      let (buckets, made, t) = create-IsTable {K = K} {V = V} compare hash limit in
      (
        buckets,
        made,
        record {
          table = replicate 100 [];
          is = t;
          once = λ q.
              subst (λ l. count compare q l ≤ 1) (sym (empty_chain 100 (home hash q)))
                (omega arith);
          reads = λ q. ap (find compare q) (empty_chain {A = HashmapNode K V} 100 (home hash q));
        },
      )

  run-Models :
      (operations : List (Operation K V)) (f : K → Option V) (limit : ℕ)
      (buckets : DArray (DArray (HashmapNode K V)))
      → Models f limit buckets
      → AllFresh compare f operations
      → 100 ≤ limit
      → limit + 300 * length operations < 2 ^ 31
      → (after : Hashmap K V) × (run (map_of compare hash buckets) operations
          ≡ some (answers compare f operations, after))
  unfolding run perform
  run-Models [] f limit buckets m fresh wide room = (map_of compare hash buckets, refl)
  run-Models (sets key value ∷ rest) f limit buckets m fresh wide room =
      let (after, runs, m') =
        set-Models f limit buckets key value m fresh.0 wide (omega (arith, room)) in
      let (last, more) =
        run-Models rest (update compare f key (some value)) (limit + 300) after m' fresh.1
          (omega (arith, wide)) (omega (arith, room)) in
      (last, rw (runs, run, perform) (rw (more, run) refl))
  run-Models (gets key ∷ rest) f limit buckets m fresh wide room =
      let (last, more) = run-Models rest f limit buckets m fresh.1 wide (omega (arith, room)) in
      (last, rw (get-Models f limit buckets key m, run, perform) (rw (more, run) refl))
  run-Models (deletes key ∷ rest) f limit buckets m fresh wide room =
      let (after, runs, m') = delete-Models f limit buckets key m in
      let (last, more) =
        run-Models rest (update compare f key none) limit after m' fresh.1 wide
          (omega (arith, room)) in
      (last, rw (runs, run, perform) (rw (more, run) refl))

  -- A new hash map answers every sequence of operations as a function from keys to values does, if
  -- nothing is set under a key that has a value, and the array of a bucket cannot outgrow an `int`.
  pub run-answers :
      (operations : List (Operation K V))
      → AllFresh compare (λ _. none) operations
      → 100 + 300 * length operations < 2 ^ 31
      → (map after : Hashmap K V) × (create compare hash ≡ some map)
        × (run map operations ≡ some (answers compare (λ _. none) operations, after))
  run-answers operations fresh room =
      let (buckets, made, m) = create-Models 100 in
      let (after, runs) =
        run-Models operations (λ _. none) 100 buckets m fresh (omega arith) room in
      (map_of compare hash buckets, after, made, runs)
