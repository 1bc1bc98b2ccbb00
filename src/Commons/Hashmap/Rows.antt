-- ===== src/Commons/Hashmap/Rows.antt =====
-- commons/src/hashmap.c: the cells of the buckets and the lists of nodes that they hold.
use network_course_uio.Prelude.{
  ℕ, zero, suc, ◌≤◌, ◌<◌, ◌≡◌, refl, ap, some, List, [], ◌∷◌, arith, length, get_elem?, get_or,
  set as set_nth,
}
use network_course_uio.Commons.DArray.{DArray, Cell, null, at, default_expand_rate}
use network_course_uio.Commons.DArray.Stack.{Holds}
use network_course_uio.Commons.Hashmap.{HashmapNode}

module _ {ℓ} {K V : Type ℓ} where
  -- A cell of the buckets holds the nodes `ns`, in an array of `limit` cells at most.
  pub data IsBucket (limit : ℕ)
      : Cell (DArray (HashmapNode K V)) → List (HashmapNode K V) → Type ℓ where
    absent : IsBucket limit null []
    present :
        {bucket : DArray (HashmapNode K V)} {ns : List (HashmapNode K V)}
        → Holds bucket ns
        → bucket.expand_rate ≡ default_expand_rate
        → bucket.max ≤ limit
        → IsBucket limit (at bucket) ns

  pub data Rows (limit : ℕ)
      : List (Cell (DArray (HashmapNode K V))) → List (List (HashmapNode K V)) → Type ℓ where
    nil : Rows limit [] []
    cons :
        {c : Cell (DArray (HashmapNode K V))} {ns : List (HashmapNode K V)}
        {cs : List (Cell (DArray (HashmapNode K V)))} {table : List (List (HashmapNode K V))}
        → IsBucket limit c ns
        → Rows limit cs table
        → Rows limit (c ∷ cs) (ns ∷ table)

  pub Rows-length :
      {limit : ℕ} {cs : List (Cell (DArray (HashmapNode K V)))}
      {table : List (List (HashmapNode K V))}
      → Rows limit cs table
      → length cs ≡ length table
  Rows-length nil = refl
  Rows-length (cons c rows) = ap suc (Rows-length rows)

  pub Rows-get :
      {limit : ℕ} {cs : List (Cell (DArray (HashmapNode K V)))}
      {table : List (List (HashmapNode K V))} (i : ℕ)
      → Rows limit cs table
      → i < length table
      → (c : Cell (DArray (HashmapNode K V))) × (get_elem? cs i ≡ some c)
        × IsBucket limit c (get_or table i [])
  Rows-get i nil inside = absurd (omega arith)
  Rows-get zero (cons {c} b rows) inside = (c, refl, b)
  Rows-get (suc i) (cons b rows) inside = Rows-get i rows (omega arith)

  pub IsBucket-weaken :
      {limit more : ℕ} {c : Cell (DArray (HashmapNode K V))} {ns : List (HashmapNode K V)}
      → limit ≤ more
      → IsBucket limit c ns
      → IsBucket more c ns
  IsBucket-weaken le absent = absent
  IsBucket-weaken le (present holds rate small) = present holds rate (omega (arith, le, small))

  pub Rows-weaken :
      {limit more : ℕ} {cs : List (Cell (DArray (HashmapNode K V)))}
      {table : List (List (HashmapNode K V))}
      → limit ≤ more
      → Rows limit cs table
      → Rows more cs table
  Rows-weaken le nil = nil
  Rows-weaken le (cons b rows) = cons (IsBucket-weaken le b) (Rows-weaken le rows)

  pub Rows-set :
      {limit : ℕ} {cs : List (Cell (DArray (HashmapNode K V)))}
      {table : List (List (HashmapNode K V))} (i : ℕ) {c : Cell (DArray (HashmapNode K V))}
      {ns : List (HashmapNode K V)}
      → Rows limit cs table
      → IsBucket limit c ns
      → Rows limit (set_nth cs i c) (set_nth table i ns)
  Rows-set i nil b = nil
  Rows-set zero (cons a rows) b = cons b rows
  Rows-set (suc i) (cons a rows) b = cons a (Rows-set i rows b)
