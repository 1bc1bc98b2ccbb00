-- ===== src/Routerd/Tests.antt =====
-- Runs of the routing daemon on small inputs.
use network_course_uio.Prelude.{
  ◌+◌, ◌-◌, ◌≡◌, refl, true, false, none, some, [], ◌∷◌, ◌==◌, if◌then◌else◌, arith, replicate, ℕ,
}
use network_course_uio.Routerd.MipRouteTable.{
  MipRouteTable, MipRouteTablePackage, get, get_entry, update, remove, create_entry, update_routing,
  consider, create_package, create_table, remove_old_entries, zero_entry, get_next_hop,
}
use network_course_uio.Routerd.MipRouteTable.Lookup.{IsUnique, route}
use network_course_uio.Routerd.MipRouteTable.Relax.{
  get-update_routing, update_routing-NoWorse, NoWorse, hop_of, relax,
}
use network_course_uio.Prelude.{Option, List}
use network_course_uio.Routerd.Convergence.{Tables}
use network_course_uio.Routerd.MipRouteTable.Package.{package_roundtrip, stamped}
use network_course_uio.Routerd.Handlers.{
  handle_forwarding_request, should_complete_route_broadcast, broadcast_route_table,
  handle_route_request,
}
use network_course_uio.Prelude.{pos}
use network_course_uio.Commons.DomainSocket.{Kernel}
use network_course_uio.Routerd.CommandLine.{RouterdConfig, parse_args}
use network_course_uio.Prelude.{◌++◌}
use network_course_uio.Routerd.RouterServer.Sockets.{
  Sockets, create_sockets, init, create_sockets-parse_args,
}
use network_course_uio.Routerd.RouterServer.{
  Round, Loop, routing, forward, stdin, route_table, next_hop, create, run, round,
}
use network_course_uio.Routerd.RouterServer.Run.{run_answers_local, round_total, start}

-- 10 is local; 20 is two hops away over 30.
abbrev own : MipRouteTable
own = record {
  table_address = 0;
  entry_max_age_milli = 5000;
  entries = route 0 10 10 0 ∷ route 100 20 30 2 ∷ [];
}

-- The neighbour 40 has 20 at cost 0, 50 poisoned and 10 at cost 3.
abbrev neighbor : MipRouteTable
neighbor = record {
  table_address = 40;
  entry_max_age_milli = 5000;
  entries = route 0 20 20 0 ∷ route 0 50 60 4294967295 ∷ route 0 10 60 3 ∷ [];
}

abbrev ticks : ℕ → ℕ
ticks i = 7000 + i

update_routing_runs :
    (update_routing ticks own neighbor).entries ≡ route 0 10 10 0 ∷ route 7000 20 40 1 ∷ []
unfolding update_routing consider update create_entry remove get_entry
update_routing_runs = refl

own-IsUnique : IsUnique own.entries
unfolding get_entry
own-IsUnique = (refl, (refl, tt))

neighbor-IsUnique : IsUnique neighbor.entries
unfolding get_entry
neighbor-IsUnique = (refl, (refl, (refl, tt)))

get-update_routing_example :
    hop_of (get (update_routing ticks own neighbor) 20)
    ≡ relax 40 (hop_of (get own 20)) (hop_of (get neighbor 20))
get-update_routing_example =
    get-update_routing ticks own neighbor (omega arith) neighbor-IsUnique own-IsUnique 20

update_routing-NoWorse_example : NoWorse (get own 20) (get (update_routing ticks own neighbor) 20)
update_routing-NoWorse_example =
    update_routing-NoWorse ticks own neighbor (omega arith) own-IsUnique 20

remove_old_entries_runs :
    remove_old_entries ticks own ≡ (1, record own { entries = route 0 10 10 0 ∷ [] })
unfolding remove_old_entries
remove_old_entries_runs = refl

package_roundtrip_example :
    (elim (create_package own) [ none ↦ none | some p ↦ create_table ticks p ])
    ≡ some (record {
      table_address = 0;
      entry_max_age_milli = 5000;
      entries = stamped 0 ticks own.entries;
    })
package_roundtrip_example = package_roundtrip ticks own (omega arith)

-- A round at 2001 ms: the table goes out, a neighbour's package comes in, 20 is asked for.
abbrev from_neighbor : MipRouteTablePackage
from_neighbor = record {
  table_address = 40;
  num_entries = 1;
  entries = record { destination = 20; next_hop = 20; cost = 0 } ∷ zero_entry ∷ [];
}

abbrev first_round : Round
first_round = record {
  now = 2001;
  written = true;
  broadcast_time = 2001;
  sweep_clock = λ _. 2001;
  events =
      record { clock = λ _ i. 2002 + i; event = routing (some from_neighbor) }
      ∷ record { clock = λ _ _. 0; event = forward (some 20) }
      ∷ record { clock = λ _ _. 0; event = stdin (b's' ∷ b't' ∷ b'o' ∷ b'p' ∷ 10 ∷ []) }
      ∷ [];
}

abbrev fresh : Loop
fresh = start (create ticks (10 ∷ 11 ∷ []) 2000)

abbrev after_round : Loop
after_round = record {
  server = record {
    table = record {
      table_address = 0;
      entry_max_age_milli = 5000;
      entries = route 7000 10 10 0 ∷ route 7001 11 11 0 ∷ route 2002 20 40 1 ∷ [];
    };
    broadcast_freq_milli = 2000;
    last_broadcast_milli = 2001;
  };
  running = false;
  sent =
      route_table (record {
        table_address = 0;
        num_entries = 2;
        entries =
            record { destination = 10; next_hop = 10; cost = 0 }
            ∷ record { destination = 11; next_hop = 11; cost = 0 }
            ∷ replicate 62 zero_entry;
      })
      ∷ next_hop 40
      ∷ [];
}

run-fresh : run (first_round ∷ []) fresh ≡ some after_round
unfolding run create handle_route_request create_table update_routing consider update create_entry
    remove_old_entries handle_forwarding_request get_next_hop get_entry broadcast_route_table
    create_package should_complete_route_broadcast remove
run-fresh = refl

run_answers_local_example :
    (handle_forwarding_request after_round.server.table (some 10) ≡ 10)
    × ((handle_forwarding_request after_round.server.table (some 11) ≡ 11) × Unit {0})
run_answers_local_example =
    run_answers_local ticks (10 ∷ 11 ∷ []) 2000 (first_round ∷ []) (omega arith) (omega arith)
      run-fresh

round_total_example : (l : Loop) × (round first_round fresh ≡ some l)
unfolding create update create_entry remove
round_total_example = round_total first_round fresh (omega arith) refl (omega arith)

-- The daemon 0 has the local address 10, and the others know nothing yet.
abbrev three : Tables
three a =
    if a == 0
    then record { table_address = 10; entry_max_age_milli = 5000; entries = route 0 10 10 0 ∷ [] }
    else record { table_address = a; entry_max_age_milli = 5000; entries = [] }

-- A number of one digit
abbrev digit : List ℕ → Option ℕ
digit [] = none
digit (d ∷ rest) = some (d - 48)

abbrev willing : Kernel
willing = record { socket = pos 9; binds = λ fd a. true; listens = true; connects = λ fd a. true }

abbrev arguments : List (List ℕ)
arguments = (45 ∷ 100 ∷ []) ∷ (114 ∷ 116 ∷ []) ∷ (102 ∷ 119 ∷ []) ∷ (49 ∷ []) ∷ []

create_sockets-parse_args_example :
    (config : RouterdConfig) × (parse_args digit arguments ≡ some (some config))
    × (create_sockets config.routing_socket config.forwarding_socket ≡ none)
    × ((rest : List ℕ)
        → (s : Sockets) × (create_sockets
              (config.routing_socket ++ 0 ∷ rest)
              config.forwarding_socket
            ≡ some s)
          × (init (willing, 77) (willing, 78) (pos 11) s ≡ none))
create_sockets-parse_args_example =
    create_sockets-parse_args digit true (45 ∷ 100 ∷ []) (114 ∷ 116 ∷ []) (102 ∷ 119 ∷ []) (49 ∷ [])
      [] (willing, 77) (willing, 78) (pos 11) refl refl refl (omega arith) (omega arith)
      (omega arith) (omega arith) refl
