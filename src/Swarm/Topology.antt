-- ===== src/Swarm/Topology.antt =====
-- `ManagerSpec` and `build_topology` of zero/swarm.py: the managers and workers that the configuration
-- declares, or the `ValueError` that says what is wrong with it.
pub mod Valid
pub mod Accepts
mod Tests
use flash_loan.Prelude.{
  ℕ, Bool, true, false, ◌&&◌, ◌||◌, not, Option, none, some, List, [], ◌∷◌, ◌++◌, Text, ◌==◌,
  if◌then◌else◌, Eq_text, length, map,
}
use flash_loan.Prelude.Results.{Result, ok, error}
use flash_loan.Prelude.Dict.{contains}
use flash_loan.Swarm.Allocator.{WorkerSpec}

pub record ManagerSpec : Type 0 where
  pub manager_id : Text
  pub worker_ids : List Text

-- A worker's row in the configuration; `pair` is `none` if it is not a list.
pub record WorkerRow : Type 0 where
  pub id : Text
  pub pair : Option (List Text)
  pub role : Text

pub record ManagerRow : Type 0 where
  pub id : Text
  pub workers : List WorkerRow

-- The section `swarm` of the configuration.
pub record SwarmConfig : Type 0 where
  pub managers : List ManagerRow
  pub manager_count : ℕ
  pub worker_count : ℕ

pub data TopologyError : Type 0 where
  manager_ids_not_unique worker_ids_not_unique manager_count_differs worker_count_differs :
      TopologyError
  pair_not_defined : Text → TopologyError

abbrev pub is_empty : Text → Bool
is_empty [] = true
is_empty (c ∷ s) = false

-- `isinstance(pair, list) and len(pair) == 2 and all(pair)`, with the two tokens.
unfoldable pub tokens_of : Option (List Text) → Option (Text × Text)
tokens_of none = none
tokens_of (some []) = none
tokens_of (some (a ∷ [])) = none
tokens_of (some (a ∷ b ∷ [])) = if is_empty a || is_empty b then none else some (a, b)
tokens_of (some (a ∷ b ∷ c ∷ pair)) = none

-- What the loops have so far.
pub record Build : Type 0 where
  pub managers : List ManagerSpec
  pub workers : List WorkerSpec
  pub manager_ids : List Text
  pub worker_ids : List Text

abbrev pub add_spec : Text → WorkerRow → Text × Text → Build → Build
add_spec manager_id w pair b = record b {
  worker_ids = w.id ∷ b.worker_ids;
  workers =
      b.workers
      ++ record { worker_id = w.id; manager_id = manager_id; primary_pair = pair; role = w.role }
        ∷ [];
}

-- One worker, from the tokens of its pair: the build and the worker ids of the manager.
unfoldable pub add_worker :
    Text
    → WorkerRow
    → Option (Text × Text)
    → Build × List Text
    → Result TopologyError (Build × List Text)
add_worker manager_id w none (b, owned) =
    if is_empty w.id || contains b.worker_ids w.id
    then error worker_ids_not_unique
    else error (pair_not_defined w.id)
add_worker manager_id w (some pair) (b, owned) =
    if is_empty w.id || contains b.worker_ids w.id
    then error worker_ids_not_unique
    else ok (add_spec manager_id w pair b, owned ++ w.id ∷ [])

-- The loop over a manager's workers.
unfoldable pub add_workers :
    Text → List WorkerRow → Build × List Text → Result TopologyError (Build × List Text)
add_workers manager_id [] s = ok s
add_workers manager_id (w ∷ ws) s = elim (add_worker manager_id w (tokens_of w.pair) s) [
  | error e ↦ error e
  | ok s' ↦ add_workers manager_id ws s'
]

-- One manager.
unfoldable pub add_manager : ManagerRow → Build → Result TopologyError Build
add_manager m b =
    if is_empty m.id || contains b.manager_ids m.id
    then error manager_ids_not_unique
    else elim (add_workers m.id m.workers (record b { manager_ids = m.id ∷ b.manager_ids }, [])) [
      | error e ↦ error e
      | ok s ↦ ok (record s.0 {
        managers = s.0.managers ++ record { manager_id = m.id; worker_ids = s.1 } ∷ [];
      })
    ]

unfoldable pub add_managers : List ManagerRow → Build → Result TopologyError Build
add_managers [] b = ok b
add_managers (m ∷ ms) b = elim (add_manager m b) [ error e ↦ error e | ok b' ↦ add_managers ms b' ]

abbrev pub no_build : Build
no_build = record { managers = []; workers = []; manager_ids = []; worker_ids = [] }

-- The two counts are looked at last.
unfoldable pub check_counts :
    SwarmConfig → Build → Result TopologyError (List ManagerSpec × List WorkerSpec)
check_counts config b =
    if not (length b.managers == config.manager_count)
    then error manager_count_differs
    else if not (length b.workers == config.worker_count)
    then error worker_count_differs
    else ok (b.managers, b.workers)

unfoldable pub build_topology :
    SwarmConfig → Result TopologyError (List ManagerSpec × List WorkerSpec)
build_topology config = elim (add_managers config.managers no_build) [
  | error e ↦ error e
  | ok b ↦ check_counts config b
]
