-- ===== src/Commons/Hashmap/Search.antt =====
-- commons/src/hashmap.c: the loop that looks for a key in a bucket.
use network_course_uio.Prelude.{
  ℕ, suc, ◌+◌, ◌≡◌, refl, ◌∙◌, ap, sym, subst, ◌⊎◌, inl, inr, Bool, true, false, ◌&&◌, Option, none,
  some, List, [], ◌∷◌, ◌++◌, append_assoc, All, arith, ◌==◌, ℤ, pos, minus_one, length,
  length-append, get_elem?, Bool-cases,
}
use network_course_uio.Commons.DArray.{DArray}
use network_course_uio.Commons.DArray
use network_course_uio.Commons.DArray.Stack.{Holds}
use network_course_uio.Commons.DArray.Popping.{get-Holds}
use network_course_uio.Commons.Hashmap.{HashmapNode, Hashmap, get_node_from}
use network_course_uio.Commons.Hashmap.Chain.{Lawful, same, find}

and_false : (b : Bool) → (b && false) ≡ false
and_false true = refl
and_false false = refl

==_refl : (n : ℕ) → (n == n) ≡ true
==_refl n = ground arith

pub get_behind {ℓ} :
    {A : Type ℓ} (front rest : List A) (x : A)
    → get_elem? (front ++ x ∷ rest) (length front) ≡ some x
get_behind [] rest x = refl
get_behind (y ∷ front) rest x = get_behind front rest x

-- Where the loop of `Hashmap_get_node` ends: at no node, or at the first one with the key
abbrev pub Search {ℓ} :
    {K V : Type ℓ} → Hashmap K V → K → List (HashmapNode K V) → (start : ℕ) → Option ℤ → Type ℓ
Search map key ns start result =
    ((find map.compare key ns ≡ none) × (result ≡ some minus_one))
    ⊎ ((a : List (HashmapNode _ _)) × (node : HashmapNode _ _) × (b : List (HashmapNode _ _)) × (ns
          ≡ a ++ node ∷ b)
        × (node.key ≡ key)
        × (find map.compare key a ≡ none)
        × (result ≡ some (pos (start + length a))))

module _ {ℓ} {K V : Type ℓ} (map : Hashmap K V) (lawful : Lawful map.compare) where
  -- The nodes store the hashes of their keys.
  abbrev pub Hashed : HashmapNode K V → Type 0
  Hashed n = n.hash ≡ map.hash n.key

  pub get_node_from-Search :
      (bucket : DArray (HashmapNode K V)) (key : K) (front ns : List (HashmapNode K V))
      → Holds bucket (front ++ ns)
      → All Hashed ns
      → Search map key ns
          (length front)
          (get_node_from map (map.hash key) bucket key (length ns) (length front))
  unfolding get_node_from
  get_node_from-Search bucket key front [] holds hashed = inl (refl, refl)
  get_node_from-Search bucket key front (n ∷ ns) holds hashed =
      let there : DArray.get bucket (length front) ≡ some (DArray.at n) =
        get-Holds bucket (front ++ n ∷ ns) (length front) n holds (get_behind front ns n) in
      elim (Bool-cases (same map.compare n.key key)) [
        | inl found ↦
            let last : length front ≡ length front + 0 = omega arith in
            let equal : n.key ≡ key = (lawful n.key key).0 found in
            let hash : (n.hash == map.hash key) ≡ true =
              ap (λ h. h == map.hash key) (hashed.0 ∙ ap map.hash equal) ∙ ==_refl (map.hash key) in
            inr (
              [],
              n,
              ns,
              refl,
              equal,
              refl,
              rw (there, get_node_from) (rw hash (rw found (ap (λ k. some (pos k)) last))),
            )
        | inr other ↦
            let skipped : (n.hash == map.hash key && same map.compare n.key key) ≡ false =
              ap (λ b. n.hash == map.hash key && b) other ∙ and_false (n.hash == map.hash key) in
            let next = front ++ n ∷ [] in
            let many : length next ≡ length front + 1 =
              omega (arith, length-append front (n ∷ [])) in
            let rest =
              get_node_from-Search bucket key next ns
                (subst (Holds bucket) (sym (append_assoc front (n ∷ []) ns)) holds) hashed.1 in
            let step : get_node_from map (map.hash key) bucket key (suc (length ns)) (length front)
                ≡ get_node_from map (map.hash key) bucket key (length ns) (length next) =
              rw (there, get_node_from)
                (rw skipped
                  (ap (get_node_from map (map.hash key) bucket key (length ns)) (sym many))) in
            elim rest [
              | inl (absent, run) ↦ inl (rw other absent, step ∙ run)
              | inr (a, node, b, split, equal, before, run) ↦ inr (
                n ∷ a,
                node,
                b,
                ap (λ l. n ∷ l) split,
                equal,
                rw other before,
                step ∙ run ∙ ap (λ k. some (pos k)) (omega (arith, many)),
              )
            ]
      ]
