-- ===== src/Routerd/MipRouteTable/Ageing.antt =====
-- What `MIPRouteTable_remove_old_entries` keeps and removes.
use network_course_uio.Prelude.{
  ℕ, ◌+◌, ◌-◌, ◌≡◌, refl, not, ◌&&◌, Option, none, some, List, [], ◌∷◌, ltb, ◌==◌, if◌then◌else◌,
  arith, length,
}
use network_course_uio.Routerd.MipRouteTable.{
  MipRouteEntry, MipRouteTable, get, get_entry, to_old, sweep, remove_old_entries,
}
use network_course_uio.Routerd.MipRouteTable.Lookup.{IsUnique}

-- What one reading of the clock leaves of an entry.
abbrev pub survives : ℕ → MipRouteTable → Option MipRouteEntry → Option MipRouteEntry
survives now t none = none
survives now t (some e) = if to_old now t e && not (e.cost == 0) then none else some e

module _ (clock : ℕ → ℕ) (t : MipRouteTable) where
  sweep_count :
      (i : ℕ) (es : List MipRouteEntry)
      → (sweep i clock t es).0 + length (sweep i clock t es).1 ≡ length es
  unfolding sweep
  sweep_count i [] = refl
  sweep_count i (e ∷ es) = ground (arith, sweep_count (i + 1) es)

  sweep_absent :
      (i : ℕ) (es : List MipRouteEntry) (k : ℕ)
      → get_entry k es ≡ none
      → get_entry k (sweep i clock t es).1 ≡ none
  unfolding sweep get_entry
  sweep_absent i [] k h = refl
  sweep_absent i (e ∷ es) k h = ground (arith, sweep_absent (i + 1) es k)

  sweep-IsUnique : (i : ℕ) (es : List MipRouteEntry) → IsUnique es → IsUnique (sweep i clock t es).1
  unfolding sweep
  sweep-IsUnique i [] u = tt
  sweep-IsUnique i (e ∷ es) u =
      ground (arith, sweep-IsUnique (i + 1) es u.1, sweep_absent (i + 1) es e.destination u.0)

  sweep_local :
      (i : ℕ) (es : List MipRouteEntry) (k : ℕ) (own : MipRouteEntry)
      → get_entry k es ≡ some own
      → own.cost ≡ 0
      → get_entry k (sweep i clock t es).1 ≡ some own
  unfolding sweep get_entry
  sweep_local i [] k own h z = h
  sweep_local i (e ∷ es) k own h z = ground (arith, sweep_local (i + 1) es k own)

get-sweep :
    (now i : ℕ) (t : MipRouteTable) (es : List MipRouteEntry) (k : ℕ)
    → IsUnique es
    → get_entry k (sweep i (λ _. now) t es).1 ≡ survives now t (get_entry k es)
unfolding sweep get_entry
get-sweep now i t [] k u = refl
get-sweep now i t (e ∷ es) k u =
    ground (arith, get-sweep now (i + 1) t es k u.1, sweep_absent (λ _. now) t (i + 1) es k)

pub remove_old_entries-IsUnique :
    (clock : ℕ → ℕ) (t : MipRouteTable)
    → IsUnique t.entries
    → IsUnique (remove_old_entries clock t).1.entries
unfolding remove_old_entries
remove_old_entries-IsUnique clock t = sweep-IsUnique clock t 0 t.entries

-- The number that `MIPRouteTable_remove_old_entries` returns is the number of entries that are
-- gone, and an entry of cost 0 outlives every sweep, whatever its age and the clock.
pub remove_old_entries_keeps :
    (clock : ℕ → ℕ) (t : MipRouteTable)
    → let (removed, t') = remove_old_entries clock t in
      (removed + length t'.entries ≡ length t.entries)
      × ((k : ℕ) (own : MipRouteEntry) → get t k ≡ some own → own.cost ≡ 0 → get t' k ≡ some own)
unfolding remove_old_entries
remove_old_entries_keeps clock t =
    (sweep_count clock t 0 t.entries, λ k own h z. sweep_local clock t 0 t.entries k own h z)

-- At a clock that stands still during the sweep, a lookup afterwards finds the entry that was
-- there, unless it is over age and no local address.
pub get-remove_old_entries :
    (now : ℕ) (t : MipRouteTable) (k : ℕ)
    → IsUnique t.entries
    → get (remove_old_entries (λ _. now) t).1 k ≡ (elim (get t k) [
      | none ↦ none
      | some e ↦
          if ltb t.entry_max_age_milli (now - e.last_updated_milli) && not (e.cost == 0)
          then none
          else some e
    ])
unfolding remove_old_entries to_old
get-remove_old_entries now t k u = ground (arith, get-sweep now 0 t t.entries k u)
