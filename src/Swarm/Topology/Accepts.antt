-- ===== src/Swarm/Topology/Accepts.antt =====
-- Every valid configuration is accepted.
use mathlib.Core.List.{append-nil, append_assoc}
use flash_loan.Prelude.{
  ◌≡◌, refl, ◌∙◌, true, false, Option, none, some, List, [], ◌∷◌, ◌++◌, Text, ◌==◌, Eq_text, length,
  map, arith, text_eq_iff,
}
use flash_loan.Prelude.Results.{ok}
use flash_loan.Prelude.Dict.{contains, Distinct}
use flash_loan.Prelude.Sort.{All}
use flash_loan.Swarm.Allocator.{WorkerSpec}
use flash_loan.Swarm.Topology.{
  ManagerSpec, WorkerRow, ManagerRow, SwarmConfig, is_empty, tokens_of, Build, add_spec, add_worker,
  add_workers, add_manager, add_managers, no_build, check_counts, build_topology,
}

-- The tokens of a pair that is well formed.
abbrev pub tokens : Option (Text × Text) → Text × Text
tokens none = ([], [])
tokens (some pair) = pair

abbrev pub worker_spec : Text → WorkerRow → WorkerSpec
worker_spec manager_id w = record {
  worker_id = w.id;
  manager_id = manager_id;
  primary_pair = tokens (tokens_of w.pair);
  role = w.role;
}

abbrev pub row_ids : List WorkerRow → List Text
row_ids ws = map (λ w. w.id) ws

abbrev pub manager_spec : ManagerRow → ManagerSpec
manager_spec m = record { manager_id = m.id; worker_ids = row_ids m.workers }

abbrev pub worker_specs : List ManagerRow → List WorkerSpec
worker_specs [] = []
worker_specs (m ∷ ms) = map (worker_spec m.id) m.workers ++ worker_specs ms

abbrev pub all_rows : List ManagerRow → List Text
all_rows [] = []
all_rows (m ∷ ms) = row_ids m.workers ++ all_rows ms

-- A worker's row with an id and exactly two tokens.
abbrev pub IsRow : WorkerRow → Type 0
IsRow w = (is_empty w.id ≡ false) × (tokens_of w.pair ≡ some (tokens (tokens_of w.pair)))

abbrev pub IsManagerRow : ManagerRow → Type 0
IsManagerRow m = (is_empty m.id ≡ false) × All IsRow m.workers

-- None of the ids was seen before, and none is repeated.
abbrev AreNew : List Text → List Text → Type 0
AreNew seen [] = Unit
AreNew seen (k ∷ ks) = (contains seen k ≡ false) × AreNew (k ∷ seen) ks

-- The seen ids after these.
abbrev seen_after : List Text → List Text → List Text
seen_after seen [] = seen
seen_after seen (k ∷ ks) = seen_after (k ∷ seen) ks

add_worker-ok :
    (manager_id : Text) (w : WorkerRow) (pair : Text × Text) (b : Build) (owned : List Text)
    → is_empty w.id ≡ false
    → contains b.worker_ids w.id ≡ false
    → add_worker manager_id w (some pair) (b, owned)
      ≡ ok (add_spec manager_id w pair b, owned ++ w.id ∷ [])
unfolding add_worker
add_worker-ok manager_id w pair b owned given new = rw (given, new)

add_workers-ok :
    (manager_id : Text) (ws : List WorkerRow) (b : Build) (owned : List Text)
    → All IsRow ws
    → AreNew b.worker_ids (row_ids ws)
    → add_workers manager_id ws (b, owned)
      ≡ ok (
        record b {
          workers = b.workers ++ map (worker_spec manager_id) ws;
          worker_ids = seen_after b.worker_ids (row_ids ws);
        },
        owned ++ row_ids ws,
      )
unfolding add_workers
add_workers-ok manager_id [] b owned rows new = rw (append-nil b.workers, append-nil owned)
add_workers-ok manager_id (w ∷ ws) b owned rows new =
    rw (one, add_workers)
      (add_workers-ok manager_id ws (add_spec manager_id w (tokens (tokens_of w.pair)) b)
          (owned ++ w.id ∷ []) rows.1 new.1
        ∙ rw (
          append_assoc b.workers (worker_spec manager_id w ∷ []) (map (worker_spec manager_id) ws),
          append_assoc owned (w.id ∷ []) (row_ids ws),
        ))
  where
    one :
        add_worker manager_id w (tokens_of w.pair) (b, owned)
        ≡ ok (add_spec manager_id w (tokens (tokens_of w.pair)) b, owned ++ w.id ∷ [])
    one =
        rw rows.0.1 (add_worker-ok manager_id w (tokens (tokens_of w.pair)) b owned rows.0.0 new.0)

AreNew-append :
    (seen ks js : List Text)
    → AreNew seen (ks ++ js)
    → AreNew seen ks × AreNew (seen_after seen ks) js
AreNew-append seen [] js h = (tt, h)
AreNew-append seen (k ∷ ks) js h =
    let rest = AreNew-append (k ∷ seen) ks js h.1 in ((h.0, rest.0), rest.1)

seen_after-append :
    (seen ks js : List Text) → seen_after seen (ks ++ js) ≡ seen_after (seen_after seen ks) js
seen_after-append seen [] js = refl
seen_after-append seen (k ∷ ks) js = seen_after-append (k ∷ seen) ks js

Distinct-AreNew :
    (seen ks : List Text)
    → Distinct ks
    → ((k : Text) → contains ks k ≡ true → contains seen k ≡ false)
    → AreNew seen ks
unfolding contains
Distinct-AreNew seen [] d fresh = tt
Distinct-AreNew seen (k ∷ ks) d fresh = (
  fresh k (ground (arith, text_eq_iff k k)),
  Distinct-AreNew (k ∷ seen) ks d.1 (λ j h. ground (arith, h, d.0, fresh j, text_eq_iff k j)),
)

-- The build after some managers.
abbrev with_managers : Build → List ManagerRow → Build
with_managers b ms = record {
  managers = b.managers ++ map manager_spec ms;
  workers = b.workers ++ worker_specs ms;
  manager_ids = seen_after b.manager_ids (map (λ m. m.id) ms);
  worker_ids = seen_after b.worker_ids (all_rows ms);
}

abbrev with_manager : Build → ManagerRow → Build
with_manager b m = record {
  managers = b.managers ++ manager_spec m ∷ [];
  workers = b.workers ++ map (worker_spec m.id) m.workers;
  manager_ids = m.id ∷ b.manager_ids;
  worker_ids = seen_after b.worker_ids (row_ids m.workers);
}

add_manager-ok :
    (m : ManagerRow) (b : Build)
    → IsManagerRow m
    → contains b.manager_ids m.id ≡ false
    → AreNew b.worker_ids (row_ids m.workers)
    → add_manager m b ≡ ok (with_manager b m)
unfolding add_manager
add_manager-ok m b row fresh new = rw (
  row.0,
  fresh,
  add_workers-ok m.id m.workers (record b { manager_ids = m.id ∷ b.manager_ids }) [] row.1 new,
)

add_managers-ok :
    (ms : List ManagerRow) (b : Build)
    → All IsManagerRow ms
    → AreNew b.manager_ids (map (λ m. m.id) ms)
    → AreNew b.worker_ids (all_rows ms)
    → add_managers ms b ≡ ok (with_managers b ms)
unfolding add_managers
add_managers-ok [] b rows fresh new = rw (append-nil b.managers, append-nil b.workers)
add_managers-ok (m ∷ ms) b rows fresh new =
    let parts = AreNew-append b.worker_ids (row_ids m.workers) (all_rows ms) new in
    rw (add_manager-ok m b rows.0 fresh.0 parts.0, add_managers)
      (add_managers-ok ms (with_manager b m) rows.1 fresh.1 parts.1
        ∙ rw (
          append_assoc b.managers (manager_spec m ∷ []) (map manager_spec ms),
          append_assoc b.workers (map (worker_spec m.id) m.workers) (worker_specs ms),
          seen_after-append b.worker_ids (row_ids m.workers) (all_rows ms),
        ))

-- Every id is given and used once, every worker has two tokens that are not empty, and the counts
-- are those of the rows.
pub record IsValid (config : SwarmConfig) : Type 0 where
  pub rows : All IsManagerRow config.managers
  pub managers_once : Distinct (map (λ m. m.id) config.managers)
  pub workers_once : Distinct (all_rows config.managers)
  pub managers_counted : length (map manager_spec config.managers) ≡ config.manager_count
  pub workers_counted : length (worker_specs config.managers) ≡ config.worker_count

-- From a configuration in which every id is given and used once, every worker has two tokens that
-- are not empty and the counts are right, the topology is built: one manager for each row, with its
-- workers' ids, and the workers in the order of the configuration.
pub build_topology-ok :
    (config : SwarmConfig)
    → IsValid config
    → build_topology config ≡ ok (map manager_spec config.managers, worker_specs config.managers)
unfolding build_topology check_counts
build_topology-ok config v =
    let m : (length (map manager_spec config.managers) == config.manager_count) ≡ true =
      ground (arith, v.managers_counted) in
    let w : (length (worker_specs config.managers) == config.worker_count) ≡ true =
      ground (arith, v.workers_counted) in
    rw
      (
        add_managers-ok config.managers no_build v.rows
            (Distinct-AreNew [] (map (λ m. m.id) config.managers) v.managers_once
              (λ k h. unfold contains in refl))
            (Distinct-AreNew [] (all_rows config.managers) v.workers_once
              (λ k h. unfold contains in refl)),
        build_topology,
      )
      (rw (m, w))
