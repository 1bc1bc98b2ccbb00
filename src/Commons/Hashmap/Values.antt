-- ===== src/Commons/Hashmap/Values.antt =====
-- commons/src/hashmap.c: the values under the keys after `Hashmap_set`.
use network_course_uio.Prelude.{
  ℕ, ◌+◌, ◌^◌, ◌≤◌, ◌<◌, ◌≡◌, refl, ◌∙◌, ap, sym, true, false, Option, none, some, List, [], ◌∷◌,
  ◌++◌, ◌==◌, if◌then◌else◌, ℤ, pos, length, get_or, Bool-cases, ==→eq, ==→ne, inl, inr,
}
use network_course_uio.Commons.DArray.{DArray}
use network_course_uio.Commons.Hashmap.{HashmapNode, get, set}
use network_course_uio.Commons.Hashmap.Chain.{Lawful, same, find, or_else, find-append}
use network_course_uio.Commons.Hashmap.Buckets.{home, chain, IsTable, map_of}
use network_course_uio.Commons.Hashmap.Lookup.{chain-set, view, get-view}
use network_course_uio.Commons.Hashmap.Changes.{changed, set-IsTable}

-- Keys of different buckets are different.
pub other_home {ℓ} :
    {K : Type ℓ} (compare : K → K → ℤ) (hash : K → ℕ)
    → Lawful compare
    → (key q : K) → (home hash key == home hash q) ≡ false
    → same compare key q ≡ false
other_home compare hash lawful key q e = elim (Bool-cases (same compare key q)) [
  | inl equal ↦ absurd (==→ne _ _ e (ap (home hash) ((lawful key q).0 equal)))
  | inr other ↦ other
]

pub or_else-none {ℓ} : {A : Type ℓ} (o : Option A) → or_else o none ≡ o
or_else-none none = refl
or_else-none (some a) = refl

some_eq {ℓ} : {A : Type ℓ} {x y : A} → some x ≡ some y → x ≡ y
some_eq h = cc

module _ {ℓ} {K V : Type ℓ} (compare : K → K → ℤ) (hash : K → ℕ) (lawful : Lawful compare) where
  pub chain_same :
      (table : List (List (HashmapNode K V))) (key q : K)
      → (home hash key == home hash q) ≡ true
      → chain hash table key ≡ chain hash table q
  chain_same table key q e = ap (λ i. get_or table i []) (==→eq _ _ e)

  pub view-set :
      (table : List (List (HashmapNode K V))) (key q : K) (value : V)
      → length table ≡ 100
      → view compare hash
          (changed hash table key
            (chain hash table key ++ record { key = key; value = value; hash = hash key } ∷ []))
          q
        ≡ or_else (view compare hash table q) (if same compare key q then some value else none)
  view-set table key q value hundred =
      let node : HashmapNode K V = record { key = key; value = value; hash = hash key } in
      let read = chain-set hash table key q (chain hash table key ++ node ∷ []) hundred in
      elim (Bool-cases (home hash key == home hash q)) [
        | inl here ↦
            ap (find compare q) (rw here at read)
            ∙ find-append compare q (chain hash table key) (node ∷ [])
            ∙ ap (λ l. or_else (find compare q l) (if same compare key q then some value else none))
                (chain_same table key q here)
        | inr away ↦
            ap (find compare q) (rw away at read)
            ∙ rw (other_home compare hash lawful key q away)
                (sym (or_else-none (find compare q (chain hash table q))))
      ]

  -- After a set, a key has the value that it had, and the new one only if it is the key and had none.
  pub get-set :
      {limit : ℕ} {buckets : DArray (DArray (HashmapNode K V))}
      {table : List (List (HashmapNode K V))} (key : K) (value : V)
      → IsTable hash limit buckets table
      → 100 ≤ limit
      → limit + 300 < 2 ^ 31
      → (after : DArray (DArray (HashmapNode K V))) × (set (map_of compare hash buckets) key value
          ≡ some (pos 0, map_of compare hash after))
        × ((q : K) (old : Option V)
            → get (map_of compare hash buckets) q ≡ some old
            → get (map_of compare hash after) q
              ≡ some (or_else old (if same compare key q then some value else none)))
  get-set {limit} {buckets} {table} key value t wide grows =
      let (after, runs, t') = set-IsTable compare hash lawful key value t wide grows in
      (
        after,
        runs,
        λ q old reads.
            get-view compare hash lawful after _ q t'
            ∙ ap some (view-set table key q value t.hundred)
            ∙ ap (λ o. some (or_else o (if same compare key q then some value else none)))
                (some_eq (sym (get-view compare hash lawful buckets table q t) ∙ reads)),
      )
