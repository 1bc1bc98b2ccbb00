-- ===== src/Commons/Hashmap/Lookup.antt =====
-- commons/src/hashmap.c: what `Hashmap_get` and `Hashmap_set` do to the nodes.
use network_course_uio.Prelude.{
  ℕ, zero, suc, ◌+◌, ◌≤◌, ◌<◌, ◌≡◌, refl, ◌∙◌, ap, sym, subst, true, false, Option, none, some,
  List, [], ◌∷◌, ◌++◌, All, arith, ◌==◌, if◌then◌else◌, ℤ, length, get_elem?, get_or,
  set as set_nth, inl, inr,
}
use network_course_uio.Commons.DArray.{DArray, Cell, at, default_expand_rate, push}
use network_course_uio.Commons.DArray
use network_course_uio.Commons.DArray.Stack.{Holds}
use network_course_uio.Commons.DArray.Popping.{get-Holds}
use network_course_uio.Commons.Hashmap.{HashmapNode, get_node, get_node_from, get}
use network_course_uio.Commons.Hashmap.Chain.{Lawful, same, find, find-append}
use network_course_uio.Commons.Hashmap.Search.{Search, get_behind, get_node_from-Search}
use network_course_uio.Commons.Hashmap.Rows.{IsBucket, present}
use network_course_uio.Commons.Hashmap.Buckets.{home, chain, IsTable, map_of, find_bucket_seen}

pub All-get {ℓ κ} :
    {A : Type ℓ} (P : List A → Type κ) (table : List (List A)) (i : ℕ)
    → All P table
    → P []
    → P (get_or table i [])
All-get P [] i all empty = empty
All-get P (ns ∷ table) zero all empty = all.0
All-get P (ns ∷ table) (suc i) all empty = All-get P table i all.1 empty

pub All-set {ℓ κ} :
    {A : Type ℓ} (P : A → Type κ) (xs : List A) (i : ℕ) (x : A)
    → All P xs
    → P x
    → All P (set_nth xs i x)
All-set P [] i x all new = tt
All-set P (y ∷ xs) zero x all new = (new, all.1)
All-set P (y ∷ xs) (suc i) x all new = (all.0, All-set P xs i x all.1 new)

pub get_or-set {ℓ} :
    {A : Type ℓ} (xs : List A) (i j : ℕ) (v d : A)
    → i < length xs
    → get_or (set_nth xs i v) j d ≡ (if i == j then v else get_or xs j d)
get_or-set [] i j v d h = absurd (omega arith)
get_or-set (x ∷ xs) zero zero v d h = refl
get_or-set (x ∷ xs) zero (suc j) v d h = rw (differs j) refl
  where
    differs : (j : ℕ) → (0 == suc j) ≡ false
    differs j = ground arith
get_or-set (x ∷ xs) (suc i) zero v d h = rw (differs i) refl
  where
    differs : (i : ℕ) → (suc i == 0) ≡ false
    differs i = ground arith
get_or-set (x ∷ xs) (suc i) (suc j) v d h = rw (equal i j) (get_or-set xs i j v d (omega arith))
  where
    equal : (i j : ℕ) → (suc i == suc j) ≡ (i == j)
    equal i j = ground arith

pub chain-set {ℓ} :
    {K V : Type ℓ} (hash : K → ℕ) (table : List (List (HashmapNode K V))) (key q : K)
    (ns : List (HashmapNode K V))
    → length table ≡ 100
    → chain hash (set_nth table (home hash key) ns) q
      ≡ (if home hash key == home hash q then ns else chain hash table q)
chain-set hash table key q ns hundred =
    get_or-set table (home hash key) (home hash q) ns [] (omega (arith, hundred))

pub opened {ℓ} :
    {K V : Type ℓ} {limit : ℕ} {bucket : DArray (HashmapNode K V)} {ns : List (HashmapNode K V)}
    → IsBucket limit (at bucket) ns
    → Holds bucket ns × (bucket.expand_rate ≡ default_expand_rate) × (bucket.max ≤ limit)
opened (present holds rate small) = (holds, rate, small)

-- The value under a key
abbrev pub view {ℓ} :
    {K V : Type ℓ}
    → (compare : K → K → ℤ) (hash : K → ℕ) → List (List (HashmapNode K V))
    → K
    → Option V
view compare hash table q = find compare q (chain hash table q)

module _ {ℓ} {K V : Type ℓ} (compare : K → K → ℤ) (hash : K → ℕ) (lawful : Lawful compare) where
  pub chain_hashed :
      {limit : ℕ} {buckets : DArray (DArray (HashmapNode K V))}
      {table : List (List (HashmapNode K V))} (key : K)
      → IsTable hash limit buckets table
      → All (λ n. n.hash ≡ hash n.key) (chain hash table key)
  chain_hashed {table = table} key t =
      All-get (All (λ n. n.hash ≡ hash n.key)) table (home hash key) t.hashed tt

  pub get_node-Search :
      (buckets : DArray (DArray (HashmapNode K V))) (bucket : DArray (HashmapNode K V)) (key : K)
      (ns : List (HashmapNode K V))
      → Holds bucket ns
      → All (λ n. n.hash ≡ hash n.key) ns
      → Search
          (map_of compare hash buckets)
          key
          ns
          0
          (get_node (map_of compare hash buckets) (hash key) bucket key)
  unfolding get_node
  get_node-Search buckets bucket key ns holds hashed =
      let map = map_of compare hash buckets in
      subst (λ n. Search map key ns 0 (get_node_from map (hash key) bucket key n 0))
        (sym holds.ends) (get_node_from-Search map lawful bucket key [] ns holds hashed)

  pub find_split :
      (key : K) (a b : List (HashmapNode K V)) (node : HashmapNode K V)
      → node.key ≡ key
      → find compare key a ≡ none
      → find compare key (a ++ node ∷ b) ≡ some node.value
  find_split key a b node equal before =
      let here : same compare node.key key ≡ true = (lawful node.key key).1 equal in
      find-append compare key a (node ∷ b) ∙ rw before (rw here refl)

  pub get_split :
      (bucket : DArray (HashmapNode K V)) (ns a b : List (HashmapNode K V)) (node : HashmapNode K V)
      → Holds bucket ns
      → ns ≡ a ++ node ∷ b
      → DArray.get bucket (0 + length a) ≡ some (at node)
  get_split bucket ns a b node holds split =
      let at_a : 0 + length a ≡ length a = omega arith in
      ap (DArray.get bucket) at_a
      ∙ get-Holds bucket ns (length a) node holds
          (ap (λ l. get_elem? l (length a)) split ∙ get_behind a b node)

  -- `Hashmap_get` gives the value under the key.
  pub get-view :
      {limit : ℕ} (buckets : DArray (DArray (HashmapNode K V)))
      (table : List (List (HashmapNode K V))) (key : K)
      → IsTable hash limit buckets table
      → get (map_of compare hash buckets) key ≡ some (view compare hash table key)
  unfolding get
  get-view buckets table key t = elim (find_bucket_seen compare hash key t) [
    | inl (empty, run) ↦ rw (run, get) (rw empty refl)
    | inr (bucket, b, run) ↦
        let holds = (opened b).0 in
        elim (get_node-Search buckets bucket key (chain hash table key) holds
          (chain_hashed key t)) [
            | inl (absent, found) ↦ rw (run, get) (rw (found, get) (rw absent refl))
            | inr (x, node, y, split, equal, before, found) ↦
                rw (run, get)
                  (rw (found, get)
                    (rw (get_split bucket (chain hash table key) x y node holds split, get)
                      (ap some (
                        sym (ap (find compare key) split ∙ find_split key x y node equal before)))))
          ]
  ]
