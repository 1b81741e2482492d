-- ===== src/Swarm/Topology/Tests.antt =====
-- Two managers with three workers, and configurations that are refused.
use flash_loan.Prelude.{◌≡◌, refl, some, [], ◌∷◌, map, Text, codes}
use flash_loan.Prelude.Results.{ok, error, IfOk}
use flash_loan.Prelude.Dict
use flash_loan.Swarm.Allocator.{WorkerSpec}
use flash_loan.Swarm.Topology.{
  WorkerRow, SwarmConfig, pair_not_defined, worker_count_differs, tokens_of, add_worker,
  add_workers, add_manager, add_managers, check_counts, build_topology,
}
use flash_loan.Swarm.Topology.Accepts.{IsValid, manager_spec, worker_specs, build_topology-ok}
use flash_loan.Swarm.Topology.Valid.{IsTopology, build_topology-IsTopology}

abbrev worker : Text → WorkerRow
worker id = record {
  id = id;
  pair = some (codes "WETH" ∷ codes "USDC" ∷ []);
  role = codes "scanner";
}

abbrev config : SwarmConfig
config = record {
  managers =
      record { id = codes "m1"; workers = worker (codes "w1") ∷ worker (codes "w2") ∷ [] }
      ∷ record { id = codes "m2"; workers = worker (codes "w3") ∷ [] }
      ∷ [];
  manager_count = 2;
  worker_count = 3;
}

abbrev spec : Text → Text → WorkerSpec
spec manager_id id = record {
  worker_id = id;
  manager_id = manager_id;
  primary_pair = (codes "WETH", codes "USDC");
  role = codes "scanner";
}

topology_run :
    build_topology config
    ≡ ok (
      record { manager_id = codes "m1"; worker_ids = codes "w1" ∷ codes "w2" ∷ [] }
          ∷ record { manager_id = codes "m2"; worker_ids = codes "w3" ∷ [] }
          ∷ [],
      spec (codes "m1") (codes "w1")
          ∷ spec (codes "m1") (codes "w2")
          ∷ spec (codes "m2") (codes "w3")
          ∷ [],
    )
unfolding build_topology add_managers add_manager add_workers add_worker tokens_of check_counts
    Dict.contains
topology_run = refl

count_run : build_topology (record config { worker_count = 4 }) ≡ error worker_count_differs
unfolding build_topology add_managers add_manager add_workers add_worker tokens_of check_counts
    Dict.contains
count_run = refl

pair_run :
    build_topology (record config {
      managers =
          record {
            id = codes "m1";
            workers =
                record { id = codes "w1"; pair = some (codes "WETH" ∷ []); role = codes "scanner" }
                ∷ [];
          }
          ∷ [];
    })
    ≡ error (pair_not_defined (codes "w1"))
unfolding build_topology add_managers add_manager add_workers add_worker tokens_of Dict.contains
pair_run = refl

build_topology-IsTopology_example : IfOk (IsTopology config) (build_topology config)
build_topology-IsTopology_example = build_topology-IsTopology config

config-IsValid : IsValid config
config-IsValid =
    unfold Dict.contains tokens_of in
    record {
      rows = ((refl, ((refl, refl), ((refl, refl), tt))), ((refl, ((refl, refl), tt)), tt));
      managers_once = (refl, (refl, tt));
      workers_once = (refl, (refl, (refl, tt)));
      managers_counted = refl;
      workers_counted = refl;
    }

build_topology-ok_example :
    build_topology config ≡ ok (map manager_spec config.managers, worker_specs config.managers)
build_topology-ok_example = build_topology-ok config config-IsValid
