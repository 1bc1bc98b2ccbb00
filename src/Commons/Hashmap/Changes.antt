-- ===== src/Commons/Hashmap/Changes.antt =====
-- commons/src/hashmap.c: the buckets after `Hashmap_set`.
use network_course_uio.Prelude.{
  ℕ, ◌+◌, ◌^◌, ◌≤◌, ◌<◌, ◌≡◌, refl, ◌∙◌, some, List, [], ◌∷◌, ◌++◌, All, All-append, arith, ℤ, pos,
  set as set_nth, length-set,
}
use network_course_uio.Commons.DArray.{DArray, at}
use network_course_uio.Commons.DArray.Stack.{push-Holds}
use network_course_uio.Commons.Hashmap.{HashmapNode, node_create, set}
use network_course_uio.Commons.Hashmap.Chain.{Lawful}
use network_course_uio.Commons.Hashmap.Rows.{IsBucket, present, Rows-weaken, Rows-set}
use network_course_uio.Commons.Hashmap.Buckets.{home, chain, IsTable, map_of, find_bucket_made}
use network_course_uio.Commons.Hashmap.Lookup.{All-set, opened, chain_hashed}

-- A table after the nodes of the bucket of a key have changed
abbrev pub changed {ℓ} :
    {K V : Type ℓ}
    → (hash : K → ℕ) → List (List (HashmapNode K V))
    → K
    → List (HashmapNode K V)
    → List (List (HashmapNode K V))
changed hash table key ns = set_nth table (home hash key) ns

module _ {ℓ} {K V : Type ℓ} (compare : K → K → ℤ) (hash : K → ℕ) (lawful : Lawful compare) where
  pub IsTable-changed :
      {limit : ℕ} {buckets : DArray (DArray (HashmapNode K V))}
      {table : List (List (HashmapNode K V))} (key : K) {bucket : DArray (HashmapNode K V)}
      {ns : List (HashmapNode K V)}
      → IsTable hash limit buckets table
      → IsBucket limit (at bucket) ns
      → All (λ n. n.hash ≡ hash n.key) ns
      → IsTable hash limit
          (record buckets { contents = set_nth buckets.contents (home hash key) (at bucket) })
          (changed hash table key ns)
  IsTable-changed {table = table} key {ns = ns} t b hashed = record {
    rows = Rows-set (home hash key) t.rows b;
    hundred = length-set table (home hash key) ns ∙ t.hundred;
    max = t.max;
    end = t.end;
    hashed = All-set (All (λ n. n.hash ≡ hash n.key)) table (home hash key) ns t.hashed hashed;
  }

  IsTable-weaken :
      {limit more : ℕ} {buckets : DArray (DArray (HashmapNode K V))}
      {table : List (List (HashmapNode K V))}
      → limit ≤ more
      → IsTable hash limit buckets table
      → IsTable hash more buckets table
  IsTable-weaken le t = record {
    rows = Rows-weaken le t.rows;
    hundred = t.hundred;
    max = t.max;
    end = t.end;
    hashed = t.hashed;
  }

  -- `Hashmap_set` puts a node behind the others of its bucket.
  pub set-IsTable :
      {limit : ℕ} {buckets : DArray (DArray (HashmapNode K V))}
      {table : List (List (HashmapNode K V))} (key : K) (value : V)
      → IsTable hash limit buckets table
      → 100 ≤ limit
      → limit + 300 < 2 ^ 31
      → (after : DArray (DArray (HashmapNode K V))) × (set (map_of compare hash buckets) key value
          ≡ some (pos 0, map_of compare hash after))
        × IsTable hash (limit + 300) after (
            changed hash table key
              (chain hash table key ++ record { key = key; value = value; hash = hash key } ∷ []))
  unfolding set node_create
  set-IsTable {limit} {buckets} {table} key value t wide grows =
      let (bucket, found, run, b, t') = find_bucket_made compare hash key t wide in
      let (holds, rate, small) = opened b in
      let node : HashmapNode K V = record { key = key; value = value; hash = hash key } in
      let (pushed, pushes, holds', max, rate') =
        push-Holds bucket (chain hash table key) node holds (omega (arith, rate, small)) in
      (
        record found { contents = set_nth found.contents (home hash key) (at pushed) },
        rw (run, set) (rw (pushes, set) refl),
        IsTable-changed key (IsTable-weaken (omega arith) t')
            (present holds' (rate' ∙ rate) (omega (arith, max, rate, small)))
            (All-append (λ n. n.hash ≡ hash n.key) (chain hash table key) (node ∷ [])
              (chain_hashed compare hash lawful key t) (refl, tt)),
      )
