-- ===== src/Commons/Hashmap/Tests.antt =====
-- Runs of an array and a hash map with numbers for keys.
use network_course_uio.Prelude.{
  ℕ, ◌≡◌, refl, Option, none, some, List, [], ◌∷◌, arith, ◌==◌, if◌then◌else◌, ℤ, pos, replicate,
}
use network_course_uio.Commons.DArray.{DArray, null, at, push, pop, clear}
use network_course_uio.Commons.DArray.Stack.{Holds}
use network_course_uio.Commons.DArray.Popping.{pop-push}
use network_course_uio.Commons.DArray.Clearing.{clear-push}
use network_course_uio.Commons.Hashmap.{HashmapNode, Hashmap, create, get, set, traverse}
use network_course_uio.Commons.Hashmap.Chain.{Lawful, same, or_else}
use network_course_uio.Commons.Hashmap.Buckets.{IsTable, map_of, create-IsTable}
use network_course_uio.Commons.Hashmap.Changes.{changed, set-IsTable}
use network_course_uio.Commons.Hashmap.Values.{get-set}
use network_course_uio.Commons.Hashmap.Client.{Operation, sets, gets, deletes, run}
use network_course_uio.Commons.Hashmap.Refinement.{run-answers}
use network_course_uio.Commons.Hashmap.Traversal.{traverse-visit_all}

-- An array of two cells, one of which is filled
abbrev array : DArray ℕ
array = record {
  end = 1;
  max = 2;
  element_size = 8;
  expand_rate = 300;
  contents = at 5 ∷ null ∷ [];
}

array-Holds : Holds array (5 ∷ [])
array-Holds = record {
  rest = null ∷ [];
  stored = refl;
  ends = refl;
  sized = refl;
  room = omega arith;
  fits = omega arith;
  rate = omega arith;
  rate_fits = omega arith;
}

pop-push_example :
    (pushed popped : DArray ℕ) × (push array 7 ≡ some (pos 0, pushed))
    × Holds pushed (5 ∷ 7 ∷ [])
    × (pop pushed ≡ some (at 7, popped))
    × Holds popped (5 ∷ [])
pop-push_example = pop-push array (5 ∷ []) 7 array-Holds (omega arith)

clear-push_example :
    (after : DArray ℕ) × (push array 7 ≡ some (pos 0, after)) × (clear after ≡ none)
clear-push_example = clear-push array (5 ∷ []) 7 array-Holds refl (omega arith) (omega arith)

abbrev compare_ℕ : ℕ → ℕ → ℤ
compare_ℕ a b = if a == b then pos 0 else pos 1

compare_ℕ-Lawful : Lawful compare_ℕ
compare_ℕ-Lawful a b = (λ h. ground (arith, h), λ h. ground (arith, h))

abbrev hash_ℕ : ℕ → ℕ
hash_ℕ k = k

-- Two keys of one bucket
abbrev operations : List (Operation ℕ ℕ)
operations = sets 1 10 ∷ sets 101 20 ∷ deletes 1 ∷ gets 101 ∷ gets 1 ∷ []

run-answers_example :
    (m after : Hashmap ℕ ℕ) × (create compare_ℕ hash_ℕ ≡ some m)
    × (run m operations ≡ some (none ∷ none ∷ some 10 ∷ some 20 ∷ none ∷ [], after))
run-answers_example =
    run-answers compare_ℕ hash_ℕ compare_ℕ-Lawful operations (refl, (refl, (tt, (tt, (tt, tt)))))
      (omega arith)

abbrev empty : DArray (DArray (HashmapNode ℕ ℕ))
empty = (create-IsTable {V = ℕ} compare_ℕ hash_ℕ 100).0

empty-IsTable : IsTable hash_ℕ 100 empty (replicate 100 [])
empty-IsTable = (create-IsTable {V = ℕ} compare_ℕ hash_ℕ 100).2

-- The map with 30 under 3
abbrev node : HashmapNode ℕ ℕ
node = record { key = 3; value = 30; hash = 3 }

abbrev table : List (List (HashmapNode ℕ ℕ))
table = changed {V = ℕ} hash_ℕ (replicate 100 []) 3 (node ∷ [])

stored :
    (buckets : DArray (DArray (HashmapNode ℕ ℕ))) × (set (map_of compare_ℕ hash_ℕ empty) 3 30
      ≡ some (pos 0, map_of compare_ℕ hash_ℕ buckets))
    × IsTable hash_ℕ 400 buckets table
stored =
    set-IsTable compare_ℕ hash_ℕ compare_ℕ-Lawful {limit = 100} {buckets = empty}
      {table = replicate 100 []} 3 30 empty-IsTable (omega arith) (omega arith)

get-set_example :
    (after : DArray (DArray (HashmapNode ℕ ℕ))) × (set (map_of compare_ℕ hash_ℕ stored.0) 3 31
      ≡ some (pos 0, map_of compare_ℕ hash_ℕ after))
    × ((q : ℕ) (old : Option ℕ)
        → get (map_of compare_ℕ hash_ℕ stored.0) q ≡ some old
        → get (map_of compare_ℕ hash_ℕ after) q
          ≡ some (or_else old (if same compare_ℕ 3 q then some 31 else none)))
get-set_example =
    get-set compare_ℕ hash_ℕ compare_ℕ-Lawful {limit = 400} {buckets = stored.0} {table = table} 3
      31 stored.2 (omega arith) (omega arith)

abbrev collect : HashmapNode ℕ ℕ → List ℕ → ℤ × List ℕ
collect n keys = (pos 0, n.key ∷ keys)

traverse-visit_all_example :
    traverse (map_of compare_ℕ hash_ℕ stored.0) collect [] ≡ some (pos 0, 3 ∷ [])
traverse-visit_all_example =
    traverse-visit_all collect compare_ℕ hash_ℕ {limit = 400} {table = table} [] stored.2
