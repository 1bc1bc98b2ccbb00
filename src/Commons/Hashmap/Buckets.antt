-- ===== src/Commons/Hashmap/Buckets.antt =====
-- commons/src/hashmap.c: the buckets of a map as the lists of their nodes.
use network_course_uio.Prelude.{
  ℕ, zero, suc, ◌%◌, ◌≤◌, ◌<◌, ◌≡◌, refl, ◌∙◌, ap, sym, subst, true, false, none, some, List, [],
  ◌∷◌, All, arith, ltb, lt→ltb, ℤ, length, get_elem?, get_or, set as set_nth, replicate, inl, inr,
  ◌⊎◌,
}
use network_course_uio.Commons.DArray.{DArray, Cell, null, at, default_expand_rate}
use network_course_uio.Commons.DArray
use network_course_uio.Commons.DArray.Cells.{not_below}
use network_course_uio.Commons.DArray.Stack.{create-Holds}
use network_course_uio.Commons.Hashmap.{HashmapNode, Hashmap, create, find_bucket}
use network_course_uio.Commons.Hashmap.Rows.{
  IsBucket, absent, present, Rows, nil, cons, Rows-length, Rows-get, Rows-set,
}

abbrev pub home {ℓ} : {K : Type ℓ} → (hash : K → ℕ) → K → ℕ
home hash key = hash key % 100

-- The nodes of the bucket to which a key belongs
abbrev pub chain {ℓ} :
    {K V : Type ℓ} → (hash : K → ℕ) → List (List (HashmapNode K V)) → K → List (HashmapNode K V)
chain hash table key = get_or table (home hash key) []

-- The buckets hold the lists of a table, whose nodes store their hashes.
pub record IsTable {ℓ} {K V : Type ℓ} (hash : K → ℕ) (limit : ℕ)
    (buckets : DArray (DArray (HashmapNode K V))) (table : List (List (HashmapNode K V)))
    : Type ℓ where
  pub rows : Rows limit buckets.contents table
  pub hundred : length table ≡ 100
  pub max : buckets.max ≡ 100
  pub end : buckets.end ≡ 100
  pub hashed : All (All (λ n. n.hash ≡ hash n.key)) table

get_at {ℓ} :
    {A : Type ℓ} (array : DArray A) (i : ℕ) (c : Cell A)
    → i < array.max
    → get_elem? array.contents i ≡ some c
    → DArray.get array i ≡ some c
unfolding DArray.get
get_at array i c inside there = rw (lt→ltb i array.max inside) there

set_at {ℓ} :
    {A : Type ℓ} (array : DArray A) (i : ℕ) (c : Cell A)
    → i < array.max
    → array.max ≤ length array.contents
    → array.max ≤ array.end
    → DArray.set array i c ≡ some (record array { contents = set_nth array.contents i c })
unfolding DArray.set
set_at array i c inside there end =
    let below : ltb i (length array.contents) ≡ true = lt→ltb _ _ (omega arith) in
    let reached : ltb array.end i ≡ false = not_below _ _ (omega arith) in
    rw (lt→ltb i array.max inside) (rw below (rw reached refl))

abbrev pub map_of {ℓ} :
    {K V : Type ℓ}
    → (compare : K → K → ℤ) (hash : K → ℕ) → DArray (DArray (HashmapNode K V))
    → Hashmap K V
map_of compare hash buckets = record { buckets = buckets; compare = compare; hash = hash }

pub home-lt {ℓ} : {K : Type ℓ} (hash : K → ℕ) (key : K) → home hash key < 100
home-lt hash key = omega arith

All-nil {ℓ} :
    {K : Type ℓ} (V : Type ℓ) (hash : K → ℕ) (n : ℕ)
    → All (All (λ (m : HashmapNode K V). m.hash ≡ hash m.key)) (replicate n [])
All-nil V hash zero = tt
All-nil V hash (suc n) = (tt, All-nil V hash n)

pub set-get_or {ℓ} : {A : Type ℓ} (xs : List A) (i : ℕ) (d : A) → set_nth xs i (get_or xs i d) ≡ xs
set-get_or [] i d = refl
set-get_or (x ∷ xs) zero d = refl
set-get_or (x ∷ xs) (suc i) d = ap (λ l. x ∷ l) (set-get_or xs i d)

module _ {ℓ} {K V : Type ℓ} (compare : K → K → ℤ) (hash : K → ℕ) where
  Rows-null : (limit n : ℕ) → Rows {K = K} {V = V} limit (replicate n null) (replicate n [])
  Rows-null limit zero = nil
  Rows-null limit (suc n) = cons absent (Rows-null limit n)

  -- The map begins with empty buckets.
  pub create-IsTable :
      (limit : ℕ)
      → (buckets : DArray (DArray (HashmapNode K V))) × (create compare hash
          ≡ some (map_of compare hash buckets))
        × IsTable hash limit buckets (replicate 100 [])
  unfolding create DArray.create
  create-IsTable limit = (
    _,
    refl,
    record {
      rows = Rows-null limit 100;
      hundred = refl;
      max = refl;
      end = refl;
      hashed = All-nil V hash 100;
    },
  )

  -- With the order to make it, the bucket of a key is there.
  pub find_bucket_made :
      {limit : ℕ} {buckets : DArray (DArray (HashmapNode K V))}
      {table : List (List (HashmapNode K V))} (key : K)
      → IsTable hash limit buckets table
      → 100 ≤ limit
      → (bucket : DArray (HashmapNode K V)) × (after : DArray (DArray (HashmapNode K V)))
        × (find_bucket (map_of compare hash buckets) key true
            ≡ some (some bucket, map_of compare hash after, hash key))
        × IsBucket limit (at bucket) (chain hash table key)
        × IsTable hash limit after table
  unfolding find_bucket
  find_bucket_made {limit} {buckets} {table} key t wide =
      let i = home hash key in
      let (c, there, b) = Rows-get i t.rows (omega (arith, t.hundred)) in
      let got : DArray.get buckets i ≡ some c = get_at buckets i c (omega (arith, t.max)) there in
      go c (chain hash table key) b refl got
    where
      go :
          (c : Cell (DArray (HashmapNode K V))) (ns : List (HashmapNode K V))
          → IsBucket limit c ns
          → ns ≡ chain hash table key
          → DArray.get buckets (home hash key) ≡ some c
          → (bucket : DArray (HashmapNode K V)) × (after : DArray (DArray (HashmapNode K V)))
            × (find_bucket (map_of compare hash buckets) key true
                ≡ some (some bucket, map_of compare hash after, hash key))
            × IsBucket limit (at bucket) (chain hash table key)
            × IsTable hash limit after table
      go (at bucket) ns b is got =
          (bucket, buckets, rw (got, find_bucket) refl, subst (IsBucket limit (at bucket)) is b, t)
      go null (n ∷ ns) b is got = elim b [ ]
      go DArray.indeterminate ns b is got = elim b [ ]
      go null [] absent is got =
          let (bucket, made, holds, rate, max) =
            create-Holds {A = HashmapNode K V} 8 100 (omega arith) (omega arith) in
          let i = home hash key in
          let full : buckets.max ≤ length buckets.contents =
            omega (arith, Rows-length t.rows, t.hundred, t.max) in
          let put =
            set_at buckets i (at bucket) (omega (arith, t.max)) full
              (omega (arith, t.max, t.end)) in
          let b = present holds rate (omega (arith, max, wide)) in
          let same : set_nth table i [] ≡ table = ap (set_nth table i) is ∙ set-get_or table i [] in
          (
            bucket,
            record buckets { contents = set_nth buckets.contents i (at bucket) },
            rw (got, find_bucket) (rw (made, find_bucket) (rw (put, find_bucket) refl)),
            subst (IsBucket limit (at bucket)) is b,
            record {
              rows =
                  subst (Rows limit (set_nth buckets.contents i (at bucket))) same
                    (Rows-set i t.rows b);
              hundred = t.hundred;
              max = t.max;
              end = t.end;
              hashed = t.hashed;
            },
          )

  -- Without it, a bucket is there or the key has no nodes.
  pub find_bucket_seen :
      {limit : ℕ} {buckets : DArray (DArray (HashmapNode K V))}
      {table : List (List (HashmapNode K V))} (key : K)
      → IsTable hash limit buckets table
      → ((chain hash table key ≡ [])
          × (find_bucket (map_of compare hash buckets) key false
              ≡ some (none, map_of compare hash buckets, hash key)))
        ⊎ ((bucket : DArray (HashmapNode K V)) × IsBucket limit (at bucket) (chain hash table key)
            × (find_bucket (map_of compare hash buckets) key false
                ≡ some (some bucket, map_of compare hash buckets, hash key)))
  unfolding find_bucket
  find_bucket_seen {limit} {buckets} {table} key t =
      let i = home hash key in
      let (c, there, b) = Rows-get i t.rows (omega (arith, t.hundred)) in
      let got : DArray.get buckets i ≡ some c = get_at buckets i c (omega (arith, t.max)) there in
      go c (chain hash table key) b refl got
    where
      go :
          (c : Cell (DArray (HashmapNode K V))) (ns : List (HashmapNode K V))
          → IsBucket limit c ns
          → ns ≡ chain hash table key
          → DArray.get buckets (home hash key) ≡ some c
          → ((chain hash table key ≡ [])
              × (find_bucket (map_of compare hash buckets) key false
                  ≡ some (none, map_of compare hash buckets, hash key)))
            ⊎ ((bucket : DArray (HashmapNode K V)) × IsBucket limit
                  (at bucket)
                  (chain hash table key)
                × (find_bucket (map_of compare hash buckets) key false
                    ≡ some (some bucket, map_of compare hash buckets, hash key)))
      go (at bucket) ns b is got =
          inr (bucket, subst (IsBucket limit (at bucket)) is b, rw (got, find_bucket) refl)
      go null (n ∷ ns) b is got = elim b [ ]
      go DArray.indeterminate ns b is got = elim b [ ]
      go null [] absent is got = inl (sym is, rw (got, find_bucket) refl)
