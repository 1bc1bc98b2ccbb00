-- ===== src/Mipd/Routing/Tests.antt =====
-- Runs of several routing daemons, with the poisoned reverse of their MIP daemons, on small inputs.
use network_course_uio.Prelude.{
  ℕ, ◌+◌, refl, [], ◌∷◌, ◌==◌, if◌then◌else◌, arith, List, replicate, Bool-cases, inl, inr,
}
use network_course_uio.Routerd.MipRouteTable.{
  MipRouteEntry, MipRouteTable, MipRouteTablePackage, get_entry, create_package, create_table,
  update_routing, update_routing_from, consider, update, create_entry, remove, remove_entry, create,
  read_entries, to_package_entry, zero_entry,
}
use network_course_uio.Routerd.MipRouteTable.Lookup.{route}
use network_course_uio.Routerd.Convergence.{Tables, arrived, other, relayed, Sound, Knows}
use network_course_uio.Mipd.Routing.{poison_reverse, poison_slots}
use network_course_uio.Mipd.Routing.Poisoned.{replace, Runs, done, takes, Honest, Runs-Knows}

abbrev table : ℕ → List MipRouteEntry → MipRouteTable
table a es = record { table_address = a; entry_max_age_milli = 5000; entries = es }

-- The daemon 10 has its own address in its table, and the others know nothing yet.
abbrev hosts : Tables
hosts a = if a == 10 then table 0 (route 0 10 10 0 ∷ []) else table 0 []

hosts-Sound : Sound hosts
unfolding get_entry
hosts-Sound a = elim (Bool-cases (a == 10)) [
  | inl first ↦ rw first ((omega arith, tt), (refl, tt))
  | inr behind ↦ rw behind (tt, tt)
]

hosts-Honest : Honest hosts
unfolding get_entry
hosts-Honest a k e here = elim (Bool-cases (a == 10)) [
  | inl first ↦ inl (ground (arith, here, first))
  | inr behind ↦ absurd (ground (arith, here, behind))
]

hosts-Knows : Knows (hosts 10) 10 0
unfolding get_entry
hosts-Knows = (route 0 10 10 0, refl, omega arith)

abbrev clock : ℕ → ℕ
clock i = 7

-- The package of a table with one route
abbrev one_route : ℕ → ℕ → ℕ → MipRouteTablePackage
one_route destination next_hop cost = record {
  table_address = 0;
  num_entries = 1;
  entries = to_package_entry (route 0 destination next_hop cost) ∷ replicate 63 zero_entry;
}

-- The daemon 20 learns of 10, which gets the poisoned route back, and 30 learns of 10 from 20.
abbrev at_end : Tables
at_end =
    replace
      (replace (replace hosts 20 (table 0 (route 7 10 10 1 ∷ []))) 10
        (table 0 (route 0 10 10 0 ∷ [])))
      30 (table 0 (route 7 10 20 2 ∷ []))

hosts-Runs : Runs clock clock hosts ((20, 10) ∷ (10, 20) ∷ (30, 20) ∷ []) at_end
unfolding create_package create_table poison_reverse poison_slots create read_entries create_entry
    update_routing update_routing_from consider update remove remove_entry get_entry
hosts-Runs =
    takes {p = one_route 10 10 0} {n = table 10 (route 7 10 10 0 ∷ [])} (omega arith) refl refl (
      takes {p = one_route 10 10 1} {n = table 20 (route 7 10 10 4294967295 ∷ [])} (omega arith)
        refl refl
        (takes {p = one_route 10 10 1} {n = table 20 (route 7 10 10 1 ∷ [])} (omega arith) refl refl
          done))

Runs-Knows_example : Knows (at_end 30) 10 (0 + 2) × Honest at_end
Runs-Knows_example =
    Runs-Knows clock clock 10 0 hosts-Sound hosts-Honest (relayed (other (relayed arrived)))
      hosts-Runs (omega arith) hosts-Knows
