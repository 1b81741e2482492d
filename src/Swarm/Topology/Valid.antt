-- ===== src/Swarm/Topology/Valid.antt =====
-- A topology that is built is well formed.
use mathlib.Core.List.{append-nil, append_assoc, map-append}
use flash_loan.Prelude.{
  ◌≡◌, refl, ap, sym, ◌∙◌, false, ◌||◌, Option, none, some, List, [], ◌∷◌, ◌++◌, Text, ◌==◌,
  Eq_text, length, map, arith, Bool-cases, inl, inr,
}
use flash_loan.Prelude.Results.{ok, IfOk, bind-IfOk}
use flash_loan.Prelude.Dict.{contains, contains-append, Distinct, append-Distinct}
use flash_loan.Prelude.Sort.{All, All-append}
use flash_loan.Swarm.Allocator.{WorkerSpec}
use flash_loan.Swarm.Topology.{
  ManagerSpec, WorkerRow, ManagerRow, SwarmConfig, is_empty, tokens_of, Build, add_spec, add_worker,
  add_workers, add_manager, add_managers, no_build, check_counts, build_topology,
}

abbrev pub worker_names : List WorkerSpec → List Text
worker_names ws = map (λ w. w.worker_id) ws

abbrev pub manager_names : List ManagerSpec → List Text
manager_names ms = map (λ m. m.manager_id) ms

-- The workers that the managers own, in order.
abbrev pub owned_by : List ManagerSpec → List Text
owned_by [] = []
owned_by (m ∷ ms) = m.worker_ids ++ owned_by ms

owned_by-snoc :
    (ms : List ManagerSpec) (m : ManagerSpec)
    → owned_by (ms ++ m ∷ []) ≡ owned_by ms ++ m.worker_ids
owned_by-snoc [] m = append-nil m.worker_ids
owned_by-snoc (n ∷ ms) m =
    rw (owned_by-snoc ms m) (sym (append_assoc n.worker_ids (owned_by ms) m.worker_ids))

-- A worker has an id and two tokens.
abbrev pub IsWorker : WorkerSpec → Type 0
IsWorker w =
    (is_empty w.worker_id ≡ false)
    × (is_empty w.primary_pair.0 ≡ false)
    × (is_empty w.primary_pair.1 ≡ false)

-- The workers so far: those of the managers, then those of the manager at hand.
record HasWorkers (b : Build) (owned : List Text) : Type 0 where
  known : (k : Text) → contains b.worker_ids k ≡ contains (worker_names b.workers) k
  once : Distinct (worker_names b.workers)
  split : worker_names b.workers ≡ owned_by b.managers ++ owned
  valid : All IsWorker b.workers

-- The managers so far.
record HasManagers (ms : List ManagerSpec) (ids : List Text) : Type 0 where
  known : (k : Text) → contains ids k ≡ contains (manager_names ms) k
  once : Distinct (manager_names ms)

-- The loop over workers leaves the managers alone.
record InManager (ms : List ManagerSpec) (ids : List Text) (s : Build × List Text) : Type 0 where
  workers : HasWorkers s.0 s.1
  managers_same : s.0.managers ≡ ms
  ids_same : s.0.manager_ids ≡ ids

-- Tokens that are accepted are not empty.
abbrev AreTokens : Option (Text × Text) → Type 0
AreTokens none = Unit
AreTokens (some pair) = (is_empty pair.0 ≡ false) × (is_empty pair.1 ≡ false)

tokens_of-AreTokens : (o : Option (List Text)) → AreTokens (tokens_of o)
unfolding tokens_of
tokens_of-AreTokens none = tt
tokens_of-AreTokens (some []) = tt
tokens_of-AreTokens (some (s ∷ [])) = tt
tokens_of-AreTokens (some (s ∷ t ∷ [])) = elim (Bool-cases (is_empty s || is_empty t)) [
  | inl bad ↦ rw bad tt
  | inr good ↦ rw good (ground (arith, good), ground (arith, good))
]
tokens_of-AreTokens (some (s ∷ t ∷ u ∷ pair)) = tt

add_spec-HasWorkers :
    (manager_id : Text) (w : WorkerRow) (pair : Text × Text) (b : Build) (owned : List Text)
    → (is_empty w.id || contains b.worker_ids w.id) ≡ false
    → (is_empty pair.0 ≡ false) × (is_empty pair.1 ≡ false)
    → HasWorkers b owned
    → HasWorkers (add_spec manager_id w pair b) (owned ++ w.id ∷ [])
add_spec-HasWorkers manager_id w pair b owned new tokens h =
    let spec : WorkerSpec = record {
      worker_id = w.id;
      manager_id = manager_id;
      primary_pair = pair;
      role = w.role;
    } in
    let names : worker_names (b.workers ++ spec ∷ []) ≡ worker_names b.workers ++ w.id ∷ [] =
      map-append (λ (x : WorkerSpec). x.worker_id) b.workers (spec ∷ []) in
    record {
      known = λ k.
          unfold contains in
          rw (names, contains-append (worker_names b.workers) (w.id ∷ []) k)
            (ground (arith, h.known k));
      once = rw names (
          append-Distinct (worker_names b.workers) w.id h.once (ground (arith, h.known w.id, new)));
      split = rw (names, h.split) (append_assoc (owned_by b.managers) owned (w.id ∷ []));
      valid = All-append IsWorker b.workers spec h.valid (ground (arith, new), tokens.0, tokens.1);
    }

module _ (manager_id : Text) (ms : List ManagerSpec) (ids : List Text) where
  add_worker-InManager :
      (w : WorkerRow) (o : Option (Text × Text)) (s : Build × List Text)
      → AreTokens o
      → InManager ms ids s
      → IfOk (InManager ms ids) (add_worker manager_id w o s)
  unfolding add_worker
  add_worker-InManager w none (b, owned) tokens h =
      elim (Bool-cases (is_empty w.id || contains b.worker_ids w.id)) [
        | inl old ↦ rw old tt
        | inr new ↦ rw new tt
      ]
  add_worker-InManager w (some pair) (b, owned) tokens h =
      elim (Bool-cases (is_empty w.id || contains b.worker_ids w.id)) [
        | inl old ↦ rw old tt
        | inr new ↦ rw new (record {
          workers = add_spec-HasWorkers manager_id w pair b owned new tokens h.workers;
          managers_same = h.managers_same;
          ids_same = h.ids_same;
        })
      ]

  add_workers-InManager :
      (ws : List WorkerRow) (s : Build × List Text)
      → InManager ms ids s
      → IfOk (InManager ms ids) (add_workers manager_id ws s)
  unfolding add_workers
  add_workers-InManager [] s h = h
  add_workers-InManager (w ∷ ws) s h =
      bind-IfOk (InManager ms ids) (InManager ms ids) (add_worker manager_id w (tokens_of w.pair) s)
        (λ s'. add_workers manager_id ws s')
        (add_worker-InManager w (tokens_of w.pair) s (tokens_of-AreTokens w.pair) h)
        (λ s' h'. add_workers-InManager ws s' h')

-- Between two managers.
record IsBuild (b : Build) : Type 0 where
  workers : HasWorkers b []
  managers : HasManagers b.managers b.manager_ids

-- A manager with the workers that were added for it.
close_manager :
    (m : ManagerRow) (b : Build) (s : Build × List Text)
    → contains b.manager_ids m.id ≡ false
    → HasManagers b.managers b.manager_ids
    → InManager b.managers (m.id ∷ b.manager_ids) s
    → IsBuild (record s.0 {
      managers = s.0.managers ++ record { manager_id = m.id; worker_ids = s.1 } ∷ [];
    })
close_manager m b s new h i =
    let spec : ManagerSpec = record { manager_id = m.id; worker_ids = s.1 } in
    let names : manager_names (s.0.managers ++ spec ∷ []) ≡ manager_names b.managers ++ m.id ∷ [] =
      map-append (λ (x : ManagerSpec). x.manager_id) s.0.managers (spec ∷ [])
      ∙ ap (λ (ms : List ManagerSpec). manager_names ms ++ m.id ∷ []) i.managers_same in
    record {
      workers = record {
        known = i.workers.known;
        once = i.workers.once;
        split = i.workers.split ∙ sym (owned_by-snoc s.0.managers spec) ∙ sym (append-nil _);
        valid = i.workers.valid;
      };
      managers = record {
        known = λ k.
            unfold contains in
            rw (i.ids_same, names, contains-append (manager_names b.managers) (m.id ∷ []) k)
              (ground (arith, h.known k));
        once = rw names (
            append-Distinct (manager_names b.managers) m.id h.once
              (ground (arith, h.known m.id, new)));
      };
    }

add_manager-IsBuild : (m : ManagerRow) (b : Build) → IsBuild b → IfOk IsBuild (add_manager m b)
unfolding add_manager
add_manager-IsBuild m b h = elim (Bool-cases (is_empty m.id || contains b.manager_ids m.id)) [
  | inl old ↦ rw old tt
  | inr new ↦ rw new (
      bind-IfOk (InManager b.managers (m.id ∷ b.manager_ids)) IsBuild
        (add_workers m.id m.workers (record b { manager_ids = m.id ∷ b.manager_ids }, []))
        (λ s. ok (record s.0 {
          managers = s.0.managers ++ record { manager_id = m.id; worker_ids = s.1 } ∷ [];
        }))
        (add_workers-InManager m.id b.managers (m.id ∷ b.manager_ids) m.workers
          (record b { manager_ids = m.id ∷ b.manager_ids }, [])
          (record {
            workers = record {
              known = h.workers.known;
              once = h.workers.once;
              split = h.workers.split;
              valid = h.workers.valid;
            };
            managers_same = refl;
            ids_same = refl;
          }))
        (λ s i. close_manager m b s (ground (arith, new)) h.managers i))
]

add_managers-IsBuild :
    (ms : List ManagerRow) (b : Build) → IsBuild b → IfOk IsBuild (add_managers ms b)
unfolding add_managers
add_managers-IsBuild [] b h = h
add_managers-IsBuild (m ∷ ms) b h =
    bind-IfOk IsBuild IsBuild (add_manager m b) (λ b'. add_managers ms b')
      (add_manager-IsBuild m b h) (λ b' h'. add_managers-IsBuild ms b' h')

no_build-IsBuild : IsBuild no_build
no_build-IsBuild =
    unfold contains in
    record {
      workers = record { known = λ k. refl; once = tt; split = refl; valid = tt };
      managers = record { known = λ k. refl; once = tt };
    }

-- The numbers that the configuration declares; each id once; every worker with an id and two
-- tokens; and the workers are those of the managers, in order.
abbrev pub IsTopology : SwarmConfig → List ManagerSpec × List WorkerSpec → Type 0
IsTopology config (ms, ws) =
    (length ms ≡ config.manager_count)
    × (length ws ≡ config.worker_count)
    × Distinct (manager_names ms)
    × Distinct (worker_names ws)
    × All IsWorker ws
    × (worker_names ws ≡ owned_by ms)

-- Whatever the configuration, if a topology is built from it, then it has as many managers and
-- workers as declared, no two managers and no two workers have one id, every worker has an id and
-- two tokens that are not empty, and each worker is owned by exactly one manager.
pub build_topology-IsTopology :
    (config : SwarmConfig) → IfOk (IsTopology config) (build_topology config)
unfolding build_topology check_counts
build_topology-IsTopology config =
    bind-IfOk IsBuild (IsTopology config) (add_managers config.managers no_build)
      (λ b. check_counts config b) (add_managers-IsBuild config.managers no_build no_build-IsBuild)
      (λ b h. checked b h)
  where
    checked : (b : Build) → IsBuild b → IfOk (IsTopology config) (check_counts config b)
    checked b h = elim (Bool-cases (length b.managers == config.manager_count)) [
      | inl m ↦ elim (Bool-cases (length b.workers == config.worker_count)) [
        | inl w ↦
            rw (m, w)
              (
                ground (arith, m),
                ground (arith, w),
                h.managers.once,
                h.workers.once,
                h.workers.valid,
                h.workers.split ∙ append-nil (owned_by b.managers),
              )
        | inr w ↦ rw (m, w) tt
      ]
      | inr m ↦ rw m tt
    ]
