-- ===== src/Routerd/MipRouteTable/Lookup.antt =====
-- Lookups in the table of mip_route_table.c after an update or a removal, and the property that a
-- destination has one entry at most.
use network_course_uio.Prelude.{
  ℕ, ◌≤◌, ◌≡◌, refl, none, some, List, [], ◌∷◌, ◌++◌, ◌==◌, if◌then◌else◌, arith, pos, length,
  ==-refl, ◌∙◌, Option-cases, inl, inr,
}
use network_course_uio.Routerd.MipRouteTable.{
  MipRouteEntry, MipRouteTable, create_entry, remove_entry, remove, update, get_entry, get,
}

-- No two entries share a destination.
abbrev pub IsUnique : List MipRouteEntry → Type 0
IsUnique [] = Unit
IsUnique (e ∷ rest) = (get_entry e.destination rest ≡ none) × IsUnique rest

-- The list with the first entry for `d` taken out.
abbrev pub without : ℕ → List MipRouteEntry → List MipRouteEntry
without d [] = []
without d (e ∷ rest) = if e.destination == d then rest else e ∷ without d rest

remove_entry-none : (d : ℕ) (es : List MipRouteEntry) → remove_entry d es ≡ none → without d es ≡ es
unfolding remove_entry
remove_entry-none d [] h = refl
remove_entry-none d (e ∷ rest) h = ground (arith, remove_entry-none d rest)

remove_entry-some :
    (d : ℕ) (es : List MipRouteEntry) {r : List MipRouteEntry}
    → remove_entry d es ≡ some r
    → without d es ≡ r
unfolding remove_entry
remove_entry-some d [] h = cc
remove_entry-some d (e ∷ rest) h = elim (Option-cases (remove_entry d rest)) [
  | inl n ↦ ground (arith)
  | inr (l, n) ↦ ground (arith, remove_entry-some d rest n)
]

without_of_empty : (d : ℕ) (es : List MipRouteEntry) → length es ≡ 0 → without d es ≡ es
without_of_empty d [] h = refl
without_of_empty d (e ∷ rest) h = absurd (omega arith)

pub remove_lem :
    (t : MipRouteTable) (d : ℕ) → (remove t d).1 ≡ record t { entries = without d t.entries }
unfolding remove
remove_lem t d = elim (Option-cases (remove_entry d t.entries)) [
  | inl n ↦ ground (arith, without_of_empty d t.entries, remove_entry-none d t.entries)
  | inr (l, n) ↦ ground (arith, without_of_empty d t.entries, remove_entry-some d t.entries n)
]

get_entry-without :
    (d k : ℕ) (es : List MipRouteEntry)
    → IsUnique es
    → get_entry k (without d es) ≡ (if d == k then none else get_entry k es)
unfolding get_entry
get_entry-without d k [] u = ground arith
get_entry-without d k (e ∷ rest) u = ground (arith, get_entry-without d k rest u.1)

get_entry-push :
    (k : ℕ) (es : List MipRouteEntry) (x : MipRouteEntry)
    → get_entry k (es ++ x ∷ []) ≡ (elim (get_entry k es) [
      | none ↦ if x.destination == k then some x else none
      | some y ↦ some y
    ])
unfolding get_entry
get_entry-push k [] x = refl
get_entry-push k (e ∷ rest) x = ground (arith, get_entry-push k rest x)

without-IsUnique : (d : ℕ) (es : List MipRouteEntry) → IsUnique es → IsUnique (without d es)
unfolding get_entry
without-IsUnique d [] u = tt
without-IsUnique d (e ∷ rest) u =
    ground (arith, without-IsUnique d rest u.1, get_entry-without d e.destination rest u.1)

push-IsUnique :
    (es : List MipRouteEntry) (x : MipRouteEntry)
    → get_entry x.destination es ≡ none
    → IsUnique es
    → IsUnique (es ++ x ∷ [])
unfolding get_entry
push-IsUnique [] x h u = (refl, tt)
push-IsUnique (e ∷ rest) x h u =
    ground (arith, push-IsUnique rest x, get_entry-push e.destination rest x)

-- The entry that `MIPRouteTable_update` makes.
abbrev pub route : ℕ → ℕ → ℕ → ℕ → MipRouteEntry
route now d h c = record { destination = d; next_hop = h; cost = c; last_updated_milli = now }

pub create_entry_lem : (now d h c : ℕ) → d ≤ 255 → create_entry now d h c ≡ some (route now d h c)
unfolding create_entry
create_entry_lem now d h c le = ground arith

pub update_lem :
    (now : ℕ) (t : MipRouteTable) (d h c : ℕ)
    → d ≤ 255
    → update now t d h c
      ≡ (pos 1, record t { entries = without d t.entries ++ route now d h c ∷ [] })
unfolding update
update_lem now t d h c le = ground (arith, create_entry_lem now d h c le, remove_lem t d)

-- An update keeps one entry at most for each destination.
pub update-IsUnique :
    (now : ℕ) (t : MipRouteTable) (d h c : ℕ)
    → d ≤ 255
    → IsUnique t.entries
    → IsUnique (update now t d h c).1.entries
update-IsUnique now t d h c le u = rw (update_lem now t d h c le) (
    push-IsUnique (without d t.entries) (route now d h c)
      (get_entry-without d d t.entries u ∙ rw (==-refl d)) (without-IsUnique d t.entries u))

-- After an update of `d` the table has exactly the new route for `d`, and for every other
-- destination the entry that it had.
pub get-update :
    (now : ℕ) (t : MipRouteTable) (d h c k : ℕ)
    → d ≤ 255
    → IsUnique t.entries
    → get (update now t d h c).1 k ≡ (if d == k then some (route now d h c) else get t k)
get-update now t d h c k le u = rw (update_lem now t d h c le) (
    ground (
      arith,
      get_entry-push k (without d t.entries) (route now d h c),
      get_entry-without d k t.entries u,
    ))

-- A removal takes out the route for `d` and no other.
pub get-remove :
    (t : MipRouteTable) (d k : ℕ)
    → IsUnique t.entries
    → get (remove t d).1 k ≡ (if d == k then none else get t k)
get-remove t d k u = rw (remove_lem t d) (get_entry-without d k t.entries u)
