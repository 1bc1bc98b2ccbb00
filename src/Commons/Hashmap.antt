-- ===== src/Commons/Hashmap.antt =====
-- commons/src/hashmap.{h,c}: a hash map of 100 buckets, which are arrays of darray.c. A bucket that the
-- code changes through its pointer is written back to the cell that holds the pointer. None is an access
-- without defined behaviour.
pub mod Chain
pub mod Search
pub mod Rows
pub mod Buckets
pub mod Lookup
pub mod Changes
pub mod Deletion
pub mod Values
pub mod Client
pub mod Refinement
pub mod Traversal
mod Tests
use network_course_uio.Prelude.{
  ℕ, zero, suc, ◌+◌, ◌-◌, ◌*◌, ◌/◌, ◌%◌, ◌^◌, Bool, true, false, ◌&&◌, Option, none, some, List, [],
  ◌∷◌, ◌++◌, ◌==◌, ltb, if◌then◌else◌, ℤ, pos, negsuc, minus_one, eq_int, set as set_nth,
}
use Prim.Native.Nat.{bit_xor}
use network_course_uio.Prelude.Bytes.{u32}
use network_course_uio.Commons.DArray.{DArray, Cell, null, at, indeterminate, push, pop}
use network_course_uio.Commons.DArray

-- `struct HashmapNode`: `value` is its `data`.
pub record HashmapNode {ℓ} (K V : Type ℓ) : Type ℓ where
  pub key : K
  pub value : V
  pub hash : ℕ

-- `struct Hashmap`
pub record Hashmap {ℓ} (K V : Type ℓ) : Type ℓ where
  pub buckets : DArray (DArray (HashmapNode K V))
  pub compare : K → K → ℤ
  pub hash : K → ℕ

abbrev pub default_number_of_buckets : ℕ
default_number_of_buckets = 100

-- A `char` that is added to a `uint32_t`
unfoldable pub char_as_word : ℕ → ℕ
char_as_word c = if ltb c 128 then c else c + 2 ^ 32 - 256

-- The body of the loop of `default_hash`
unfoldable pub mix : (hash c : ℕ) → ℕ
mix hash c =
    let added = u32 (hash + char_as_word c) in
    let shifted = u32 (added + added * 2 ^ 10) in bit_xor shifted (shifted / 2 ^ 6)

abbrev pub mix_all : (hash : ℕ) → List ℕ → ℕ
mix_all hash [] = hash
mix_all hash (c ∷ key) = mix_all (mix hash c) key

-- `default_hash`, for the bytes of a string
unfoldable pub default_hash : List ℕ → ℕ
default_hash key =
    let mixed = mix_all 0 key in
    let added = u32 (mixed + mixed * 2 ^ 3) in
    let spread = bit_xor added (added / 2 ^ 11) in u32 (spread + spread * 2 ^ 15)

-- The bucket, or none for `NULL`, what became of the map, and the hash
abbrev pub Found {ℓ} : (K V : Type ℓ) → Type ℓ
Found K V = Option (DArray (HashmapNode K V)) × Hashmap K V × ℕ

module _ {ℓ} {K V : Type ℓ} where
  -- `Hashmap_create`, for pointers that are not `NULL`
  unfoldable pub create : (compare : K → K → ℤ) (hash : K → ℕ) → Option (Hashmap K V)
  create compare hash =
      elim (DArray.create {A = DArray (HashmapNode K V)} 8 default_number_of_buckets) [
        | none ↦ none
        | some buckets ↦ some (record {
          buckets = record buckets { end = buckets.max };
          compare = compare;
          hash = hash;
        })
      ]

  -- `Hashmap_node_create`: the hash is passed as an `int` and stored as a `uint32_t`, which is the same.
  unfoldable pub node_create : (hash : ℕ) → K → V → HashmapNode K V
  node_create hash key value = record { key = key; value = value; hash = hash }

  -- `Hashmap_find_bucket`
  unfoldable pub find_bucket : Hashmap K V → K → (make : Bool) → Option (Found K V)
  find_bucket map key make =
      let hash = map.hash key in
      let bucket_n = hash % default_number_of_buckets in
      elim (DArray.get map.buckets bucket_n) [
        | none ↦ none
        | some indeterminate ↦ none
        | some (at bucket) ↦ some (some bucket, map, hash)
        | some null ↦ elim make [
          | false ↦ some (none, map, hash)
          | true ↦ elim (DArray.create {A = HashmapNode K V} 8 default_number_of_buckets) [
            | none ↦ none
            | some bucket ↦ elim (DArray.set map.buckets bucket_n (at bucket)) [
              | none ↦ none
              | some buckets ↦ some (some bucket, record map { buckets = buckets }, hash)
            ]
          ]
        ]
      ]

  -- The map after a change of the bucket of a hash through its pointer
  abbrev pub with_bucket : Hashmap K V → (hash : ℕ) → DArray (HashmapNode K V) → Hashmap K V
  with_bucket map hash bucket =
      let buckets = map.buckets in
      record map {
        buckets = record buckets {
          contents = set_nth buckets.contents (hash % default_number_of_buckets) (at bucket);
        };
      }

  -- `Hashmap_set`: the result of the push is not looked at.
  unfoldable pub set : Hashmap K V → K → V → Option (ℤ × Hashmap K V)
  set map key value = elim (find_bucket map key true) [
    | none ↦ none
    | some (none, found, hash) ↦ some (minus_one, found)
    | some (some bucket, found, hash) ↦ elim (push bucket (node_create hash key value)) [
      | none ↦ none
      | some (rc, pushed) ↦ some (pos 0, with_bucket found hash pushed)
    ]
  ]

  -- The loop of `Hashmap_get_node`, from `i` on, with the number of rounds that are left
  unfoldable pub get_node_from :
      Hashmap K V → (hash : ℕ) → DArray (HashmapNode K V) → K → (rounds i : ℕ) → Option ℤ
  get_node_from map hash bucket key zero i = some minus_one
  get_node_from map hash bucket key (suc rounds) i = elim (DArray.get bucket i) [
    | some (at node) ↦
        if (node.hash == hash) && eq_int (map.compare node.key key) (pos 0)
        then some (pos i)
        else get_node_from map hash bucket key rounds (i + 1)
    | _ ↦ none
  ]

  -- `Hashmap_get_node`
  unfoldable pub get_node : Hashmap K V → (hash : ℕ) → DArray (HashmapNode K V) → K → Option ℤ
  get_node map hash bucket key = get_node_from map hash bucket key bucket.end 0

  -- `Hashmap_get`: the inner none is `NULL`.
  unfoldable pub get : Hashmap K V → K → Option (Option V)
  get map key = elim (find_bucket map key false) [
    | none ↦ none
    | some (none, found, hash) ↦ some none
    | some (some bucket, found, hash) ↦ elim (get_node found hash bucket key) [
      | none ↦ none
      | some (negsuc n) ↦ some none
      | some (pos i) ↦ elim (DArray.get bucket i) [
        | some (at node) ↦ some (some node.value)
        | some null ↦ some none
        | _ ↦ none
      ]
    ]
  ]

  -- The end of `Hashmap_delete`: the last node takes the place of the one that is freed. The node that is
  -- popped is another one if and only if it did not stand at `i`.
  unfoldable pub delete_at :
      Hashmap K V
      → (hash : ℕ) → DArray (HashmapNode K V)
      → (i : ℕ) → Option (Option V × Hashmap K V)
  delete_at map hash bucket i = elim (DArray.get bucket i) [
    | some (at node) ↦ elim (pop bucket) [
      | none ↦ none
      | some (ending, popped) ↦
          if i == popped.end
          then some (some node.value, with_bucket map hash popped)
          else elim (DArray.set popped i ending) [
            | none ↦ none
            | some filled ↦ some (some node.value, with_bucket map hash filled)
          ]
    ]
    | _ ↦ none
  ]

  -- `Hashmap_delete`
  unfoldable pub delete : Hashmap K V → K → Option (Option V × Hashmap K V)
  delete map key = elim (find_bucket map key false) [
    | none ↦ none
    | some (none, found, hash) ↦ some (none, found)
    | some (some bucket, found, hash) ↦ elim (get_node found hash bucket key) [
      | none ↦ none
      | some (negsuc n) ↦ some (none, found)
      | some (pos i) ↦ delete_at found hash bucket i
    ]
  ]

  -- The inner loop of `Hashmap_traverse`, for a callback that has a state
  unfoldable pub traverse_bucket :
      {S : Type ℓ}
      → (HashmapNode K V → S → ℤ × S)
      → DArray (HashmapNode K V)
      → (rounds j : ℕ) → S
      → Option (ℤ × S)
  traverse_bucket callback bucket zero j s = some (pos 0, s)
  traverse_bucket callback bucket (suc rounds) j s = elim (DArray.get bucket j) [
    | some (at node) ↦
        let (rc, s') = callback node s in
        if eq_int rc (pos 0)
        then traverse_bucket callback bucket rounds (j + 1) s'
        else some (rc, s')
    | _ ↦ none
  ]

  -- The outer loop of `Hashmap_traverse`
  unfoldable pub traverse_from :
      {S : Type ℓ}
      → (HashmapNode K V → S → ℤ × S)
      → DArray (DArray (HashmapNode K V))
      → (rounds i : ℕ) → S
      → Option (ℤ × S)
  traverse_from callback buckets zero i s = some (pos 0, s)
  traverse_from callback buckets (suc rounds) i s = elim (DArray.get buckets i) [
    | some null ↦ traverse_from callback buckets rounds (i + 1) s
    | some (at bucket) ↦ elim (traverse_bucket callback bucket bucket.end 0 s) [
      | none ↦ none
      | some (rc, s') ↦
          if eq_int rc (pos 0)
          then traverse_from callback buckets rounds (i + 1) s'
          else some (rc, s')
    ]
    | _ ↦ none
  ]

  -- `Hashmap_traverse`
  unfoldable pub traverse :
      {S : Type ℓ} → Hashmap K V → (HashmapNode K V → S → ℤ × S) → S → Option (ℤ × S)
  traverse map callback s = traverse_from callback map.buckets map.buckets.end 0 s
