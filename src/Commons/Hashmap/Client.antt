-- ===== src/Commons/Hashmap/Client.antt =====
-- commons/src/hashmap.c: operations that a client performs, and the answers that a function gives to them.
use network_course_uio.Prelude.{◌≡◌, Option, none, some, List, [], ◌∷◌, if◌then◌else◌, ℤ}
use network_course_uio.Commons.Hashmap.{Hashmap, get, set, delete}
use network_course_uio.Commons.Hashmap.Chain.{same}

-- What a client asks of a map
pub data Operation {ℓ} (K V : Type ℓ) : Type ℓ where
  sets : K → V → Operation K V
  gets : K → Operation K V
  deletes : K → Operation K V

module _ {ℓ} {K V : Type ℓ} where
  unfoldable pub perform : Hashmap K V → Operation K V → Option (Option V × Hashmap K V)
  perform map (sets key value) = elim (set map key value) [
    | none ↦ none
    | some (rc, after) ↦ some (none, after)
  ]
  perform map (gets key) = elim (get map key) [ none ↦ none | some value ↦ some (value, map) ]
  perform map (deletes key) = delete map key

  -- The answers to the operations, and the map after them
  unfoldable pub run : Hashmap K V → List (Operation K V) → Option (List (Option V) × Hashmap K V)
  run map [] = some ([], map)
  run map (o ∷ rest) = elim (perform map o) [
    | none ↦ none
    | some (answer, after) ↦ elim (run after rest) [
      | none ↦ none
      | some (answers, last) ↦ some (answer ∷ answers, last)
    ]
  ]

module _ {ℓ} {K V : Type ℓ} (compare : K → K → ℤ) where
  -- A function from keys to values, changed at one key
  abbrev pub update : (K → Option V) → K → Option V → K → Option V
  update f key value q = if same compare key q then value else f q

  -- The answer that a function gives, and the function after the operation
  abbrev pub step : (K → Option V) → Operation K V → Option V × (K → Option V)
  step f (sets key value) = (none, update f key (some value))
  step f (gets key) = (f key, f)
  step f (deletes key) = (f key, update f key none)

  abbrev pub answers : (K → Option V) → List (Operation K V) → List (Option V)
  answers f [] = []
  answers f (o ∷ rest) = (step f o).0 ∷ answers (step f o).1 rest

  -- Nothing is set under a key that has a value.
  abbrev pub IsFresh : (K → Option V) → Operation K V → Type ℓ
  IsFresh f (sets key value) = f key ≡ none
  IsFresh f (gets key) = Unit
  IsFresh f (deletes key) = Unit

  abbrev pub AllFresh : (K → Option V) → List (Operation K V) → Type ℓ
  AllFresh f [] = Unit
  AllFresh f (o ∷ rest) = IsFresh f o × AllFresh (step f o).1 rest
