-- ===== src/Commons/Hashmap/Chain.antt =====
-- commons/src/hashmap.c: the nodes of a bucket as a list.
use network_course_uio.Prelude.{
  ℕ, ◌+◌, ◌≤◌, ◌≡◌, refl, ◌∙◌, ap, ◌↔◌, ◌⊎◌, inl, inr, Bool, true, false, Option, none, some, List,
  [], ◌∷◌, ◌++◌, arith, if◌then◌else◌, ℤ, pos, eq_int, Bool-cases, Option-cases,
}
use network_course_uio.Commons.Hashmap.{HashmapNode}

abbrev pub or_else {ℓ} : {A : Type ℓ} → Option A → Option A → Option A
or_else (some a) o = some a
or_else none o = o

-- The function `compare` of a map is 0 for equal keys and no others.
abbrev pub Lawful {ℓ} : {K : Type ℓ} → (K → K → ℤ) → Type ℓ
Lawful {K} compare = (a b : K) → (eq_int (compare a b) (pos 0) ≡ true) ↔ (a ≡ b)

abbrev pub same {ℓ} : {K : Type ℓ} → (K → K → ℤ) → K → K → Bool
same compare a b = eq_int (compare a b) (pos 0)

module _ {ℓ} {K V : Type ℓ} (compare : K → K → ℤ) where
  -- The value of the first node with a key
  abbrev pub find : K → List (HashmapNode K V) → Option V
  find q [] = none
  find q (n ∷ ns) = if same compare n.key q then some n.value else find q ns

  abbrev pub count : K → List (HashmapNode K V) → ℕ
  count q [] = 0
  count q (n ∷ ns) = (if same compare n.key q then 1 else 0) + count q ns

  pub find-append :
      (q : K) (xs ys : List (HashmapNode K V)) → find q (xs ++ ys) ≡ or_else (find q xs) (find q ys)
  find-append q [] ys = refl
  find-append q (x ∷ xs) ys = elim (Bool-cases (same compare x.key q)) [
    | inl found ↦ rw found refl
    | inr other ↦ rw other (find-append q xs ys)
  ]

  pub count-append :
      (q : K) (xs ys : List (HashmapNode K V)) → count q (xs ++ ys) ≡ count q xs + count q ys
  count-append q [] ys = omega arith
  count-append q (x ∷ xs) ys = omega (arith, count-append q xs ys)

  pub find-eq-none : (q : K) (xs : List (HashmapNode K V)) → count q xs ≡ 0 → find q xs ≡ none
  find-eq-none q [] h = refl
  find-eq-none q (x ∷ xs) h = elim (Bool-cases (same compare x.key q)) [
    | inl found ↦ absurd (one_more (same compare x.key q) (count q xs) found h)
    | inr other ↦ rw other (find-eq-none q xs (less (same compare x.key q) (count q xs) h))
  ]
    where
      one_more : (b : Bool) (n : ℕ) → b ≡ true → (if b then 1 else 0) + n ≡ 0 → ⊥
      one_more b n e h = ground (arith, e, h)

      less : (b : Bool) (n : ℕ) → (if b then 1 else 0) + n ≡ 0 → n ≡ 0
      less b n h = omega (arith, h)

  pub count-eq-zero : (q : K) (xs : List (HashmapNode K V)) → find q xs ≡ none → count q xs ≡ 0
  count-eq-zero q [] h = refl
  count-eq-zero q (x ∷ xs) h = elim (Bool-cases (same compare x.key q)) [
    | inl found ↦ absurd (clash found (rw found at h))
    | inr other ↦ rw other (omega (arith, count-eq-zero q xs (rw other at h)))
  ]
    where
      clash : same compare x.key q ≡ true → some x.value ≡ none → ⊥
      clash found h = cc

once_cases :
    (x y : Bool) (m n : ℕ)
    → m + ((if x then 1 else 0) + (n + (if y then 1 else 0))) ≤ 1
    → (x ≡ true → (m ≡ 0) × (n ≡ 0) × (y ≡ false)) × (y ≡ true → (m ≡ 0) × (n ≡ 0))
once_cases true true m n h = absurd (omega arith)
once_cases true false m n h = (λ _. (omega arith, omega arith, refl), λ e. cc)
once_cases false true m n h = (λ e. cc, λ _. (omega arith, omega arith))
once_cases false false m n h = (λ e. cc, λ e. cc)

-- A list is empty or has a last element.
pub last_cases {ℓ} :
    {A : Type ℓ} (xs : List A)
    → (xs ≡ []) ⊎ ((front : List A) × (last : A) × (xs ≡ front ++ last ∷ []))
last_cases [] = inl refl
last_cases (x ∷ xs) = elim (last_cases xs) [
  | inl empty ↦ inr ([], x, ap (λ l. x ∷ l) empty)
  | inr (front, last, split) ↦ inr (x ∷ front, last, ap (λ l. x ∷ l) split)
]

module _ {ℓ} {K V : Type ℓ} (compare : K → K → ℤ) where
  -- A node that is not the last one gives its place to the last one.
  pub count-closed :
      (q : K) (a c : List (HashmapNode K V)) (node last : HashmapNode K V)
      → count compare q (a ++ last ∷ c) ≤ count compare q (a ++ node ∷ (c ++ last ∷ []))
  count-closed q a c node last = omega (
    arith,
    count-append compare q a (last ∷ c),
    count-append compare q a (node ∷ (c ++ last ∷ [])),
    count-append compare q c (last ∷ []),
  )

  pub find-closed :
      (key q : K) (a c : List (HashmapNode K V)) (node last : HashmapNode K V)
      → node.key ≡ key
      → count compare q (a ++ node ∷ (c ++ last ∷ [])) ≤ 1
      → find compare q (a ++ last ∷ c)
        ≡ (if same compare key q then none else find compare q (a ++ node ∷ (c ++ last ∷ [])))
  find-closed key q a c node last its once =
      let equal : same compare node.key q ≡ same compare key q = ap (λ k. same compare k q) its in
      let room =
        once_cases (same compare node.key q) (same compare last.key q) (count compare q a)
          (count compare q c)
          (omega (
            arith,
            count-append compare q a (node ∷ (c ++ last ∷ [])),
            count-append compare q c (last ∷ []),
          )) in
      let before = find-append compare q a (last ∷ c) in
      let after = find-append compare q a (node ∷ (c ++ last ∷ [])) in
      let behind = find-append compare q c (last ∷ []) in
      elim (Bool-cases (same compare key q)) [
        | inl gone ↦
            let (no_a, no_c, no_last) = room.0 (equal ∙ gone) in
            let a_none = find-eq-none compare q a no_a in
            let c_none = find-eq-none compare q c no_c in
            ground (arith, gone, equal, before, no_last, a_none, c_none)
        | inr other ↦ elim (Bool-cases (same compare last.key q)) [
          | inl moved ↦
              let (no_a, no_c) = room.1 moved in
              let a_none = find-eq-none compare q a no_a in
              let c_none = find-eq-none compare q c no_c in
              ground (arith, other, equal, before, after, behind, moved, a_none, c_none)
          | inr stays ↦ elim (Option-cases (find compare q c)) [
            | inl c_none ↦ ground (arith, other, equal, before, after, behind, stays, c_none)
            | inr (v, found) ↦ ground (arith, other, equal, before, after, behind, stays, found)
          ]
        ]
      ]

  pub find-last_gone :
      (key q : K) (a : List (HashmapNode K V)) (node : HashmapNode K V)
      → node.key ≡ key
      → count compare q (a ++ node ∷ []) ≤ 1
      → find compare q a ≡ (if same compare key q then none else find compare q (a ++ node ∷ []))
  find-last_gone key q a node its once =
      let equal : same compare node.key q ≡ same compare key q = ap (λ k. same compare k q) its in
      ground (
        arith,
        equal,
        find-append compare q a (node ∷ []),
        count-append compare q a (node ∷ []),
        find-eq-none compare q a,
      )
