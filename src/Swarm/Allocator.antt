-- ===== src/Swarm/Allocator.antt =====
-- `WorkerSpec` and `WorkAllocator` of zero/swarm.py: a queue of routes for each worker, an overflow
-- queue, and work stealing. Each call of `next_route` runs under the allocator's lock.
pub mod Queues
pub mod Building
pub mod Conservation
pub mod Completeness
mod Tests
use flash_loan.Prelude.{
  ℕ, ◌+◌, ◌%◌, Bool, true, false, ◌&&◌, ◌||◌, Option, none, some, List, [], ◌∷◌, ◌++◌, Text, ltb,
  ◌==◌, text_eq, if◌then◌else◌, Eq_text, Eq_text_pair, length, get_elem?,
}
use flash_loan.Prelude.Dict.{Dict, lookup, insert}
use flash_loan.Prelude.Sort.{sort}

abbrev pub Pair : Type 0
Pair = Text × Text

pub record WorkerSpec : Type 0 where
  pub worker_id : Text
  pub manager_id : Text
  pub primary_pair : Pair
  pub role : Text

-- The fields of a route's dict that the swarm reads.
pub record Route : Type 0 where
  pub route_id : Text
  pub base_symbol : Text
  pub quote_symbol : Text
  pub route_kind : Text

abbrev pub Queues : Type 0
Queues = Dict Text (List Route)

pub record WorkAllocator : Type 0 where
  pub primary : Queues
  pub overflow : List Route

-- `d.get(k, default)`
abbrev pub get_list {ℓ} : {A : Type ℓ} → Option (List A) → List A
get_list none = []
get_list (some xs) = xs

abbrev pub get_index : Option ℕ → ℕ
get_index none = 0
get_index (some i) = i

-- `{worker.worker_id: deque() for worker in workers}`
unfoldable pub empty_queues : List WorkerSpec → Queues → Queues
empty_queues [] d = d
empty_queues (w ∷ ws) d = empty_queues ws (insert w.worker_id [] d)

-- `pair_workers.setdefault(worker.primary_pair, []).append(worker.worker_id)` for each worker
unfoldable pub group_workers : List WorkerSpec → Dict Pair (List Text) → Dict Pair (List Text)
group_workers [] d = d
group_workers (w ∷ ws) d =
    group_workers ws
      (insert w.primary_pair (get_list (lookup w.primary_pair d) ++ w.worker_id ∷ []) d)

-- `self._primary[worker_id].append(route)`; `none` is the `KeyError`.
unfoldable pub append_route : Text → Route → Queues → Option Queues
append_route w r d = elim (lookup w d) [ none ↦ none | some q ↦ some (insert w (q ++ r ∷ []) d) ]

-- One round of the loop of `__init__` over the routes, on the allocator and `pair_index`: the route
-- goes to the workers of its pair in turn, or to the overflow if the pair has none. `none` stands
-- for an exception.
unfoldable pub place :
    List Text → Pair → Route → WorkAllocator × Dict Pair ℕ → Option (WorkAllocator × Dict Pair ℕ)
place [] pair r (a, pair_index) = some (record a { overflow = a.overflow ++ r ∷ [] }, pair_index)
place (o ∷ os) pair r (a, pair_index) =
    let index = get_index (lookup pair pair_index) in
    elim (get_elem? (o ∷ os) (index % length (o ∷ os))) [
      | none ↦ none
      | some worker_id ↦ elim (append_route worker_id r a.primary) [
        | none ↦ none
        | some primary ↦ some (record a { primary = primary }, insert pair (index + 1) pair_index)
      ]
    ]

abbrev pub pair_of : Route → Pair
pair_of r = (r.base_symbol, r.quote_symbol)

unfoldable pub assign :
    Dict Pair (List Text)
    → List Route
    → WorkAllocator × Dict Pair ℕ
    → Option (WorkAllocator × Dict Pair ℕ)
assign pair_workers [] s = some s
assign pair_workers (r ∷ rs) s =
    elim (place (get_list (lookup (pair_of r) pair_workers)) (pair_of r) r s) [
      | none ↦ none
      | some s' ↦ assign pair_workers rs s'
    ]

-- `WorkAllocator(workers, routes)`
abbrev pub fresh : List WorkerSpec → WorkAllocator × Dict Pair ℕ
fresh workers = (record { primary = empty_queues workers []; overflow = [] }, [])

unfoldable pub build : List WorkerSpec → List Route → Option WorkAllocator
build workers routes = elim (assign (group_workers workers []) routes (fresh workers)) [
  | none ↦ none
  | some s ↦ some s.0
]

-- Python's order on strings.
unfoldable pub text_lt : Text → Text → Bool
text_lt s [] = false
text_lt [] (d ∷ t) = true
text_lt (c ∷ s) (d ∷ t) = ltb c d || (c == d && text_lt s t)

-- `(len(queue), wid)` for the other workers with a queue that is not empty
unfoldable pub donors : Text → Queues → List (ℕ × Text)
donors worker_id [] = []
donors worker_id ((wid, []) ∷ d) = donors worker_id d
donors worker_id ((wid, r ∷ q) ∷ d) =
    let rest = donors worker_id d in
    if text_eq wid worker_id then rest else (length (r ∷ q), wid) ∷ rest

-- The order of the keys `(-item[0], item[1])`.
abbrev pub donor_less : ℕ × Text → ℕ × Text → Bool
donor_less (n, w) (m, v) = ltb m n || (n == m && text_lt w v)

pub data Reply : Type 0 where
  route : Option Route → Reply
  unknown_worker : Reply
  -- `popleft` of an empty queue, or of a queue that is not there
  pop_error : Reply

-- `self._primary[w].popleft()`, from the queue that is found.
unfoldable pub pop_queue : Option (List Route) → Text → WorkAllocator → Reply × WorkAllocator
pop_queue none w a = (pop_error, a)
pop_queue (some []) w a = (pop_error, a)
pop_queue (some (r ∷ q)) w a = (route (some r), record a { primary = insert w q a.primary })

-- From the sorted donors: `None`, or the first route of the first donor.
unfoldable pub steal_from : List (ℕ × Text) → WorkAllocator → Reply × WorkAllocator
unfolding pop_queue
steal_from [] a = (route none, a)
steal_from (d ∷ ds) a = pop_queue (lookup d.1 a.primary) d.1 a

-- The overflow goes first.
unfoldable pub steal : List Route → Text → WorkAllocator → Reply × WorkAllocator
unfolding steal_from
steal [] worker_id a = steal_from (sort donor_less (donors worker_id a.primary)) a
steal (r ∷ o) worker_id a = (route (some r), record a { overflow = o })

-- `next_route`, from the worker's own queue.
unfoldable pub next_from : Option (List Route) → Text → Bool → WorkAllocator → Reply × WorkAllocator
unfolding steal
next_from none worker_id allow_steal a = (unknown_worker, a)
next_from (some []) worker_id false a = (route none, a)
next_from (some []) worker_id true a = steal a.overflow worker_id a
next_from (some (r ∷ q)) worker_id allow_steal a =
    (route (some r), record a { primary = insert worker_id q a.primary })

unfoldable pub next_route : Text → Bool → WorkAllocator → Reply × WorkAllocator
unfolding next_from
next_route worker_id allow_steal a = next_from (lookup worker_id a.primary) worker_id allow_steal a
