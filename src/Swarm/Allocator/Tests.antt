-- ===== src/Swarm/Allocator/Tests.antt =====
-- Two workers, three routes: runs, and each theorem at a concrete input.
use mathlib.Core.List.{Perm}
use flash_loan.Prelude.{◌≡◌, refl, Bool, true, some, List, [], ◌∷◌, ◌++◌, Text, codes, Eq_text}
use flash_loan.Prelude.Dict.{lookup, insert, keys, found, Distinct}
use flash_loan.Prelude.Dict
use flash_loan.Prelude.Sort.{All, sort}
use flash_loan.Swarm.Allocator.{
  WorkerSpec, Route, WorkAllocator, empty_queues, group_workers, append_route, place, assign, build,
  text_lt, donors, pop_queue, steal_from, steal, next_from, next_route,
}
use flash_loan.Swarm.Allocator.Queues.{pending}
use flash_loan.Swarm.Allocator.Building.{build-places}
use flash_loan.Swarm.Allocator.Conservation.{serve, serve-Conserves}
use flash_loan.Swarm.Allocator.Completeness.{Serves, next_route-Serves}

abbrev worker : Text → WorkerSpec
worker id = record {
  worker_id = id;
  manager_id = codes "m";
  primary_pair = (codes "WETH", codes "USDC");
  role = codes "scanner";
}

abbrev route_at : Text → Text → Route
route_at id base = record {
  route_id = id;
  base_symbol = base;
  quote_symbol = codes "USDC";
  route_kind = codes "";
}

abbrev r1 : Route
r1 = route_at (codes "1") (codes "WETH")

abbrev r2 : Route
r2 = route_at (codes "2") (codes "WETH")

abbrev r3 : Route
r3 = route_at (codes "3") (codes "ARB")

abbrev two_workers : List WorkerSpec
two_workers = worker (codes "a") ∷ worker (codes "b") ∷ []

abbrev allocator : WorkAllocator
allocator = record {
  primary = (codes "a", r1 ∷ []) ∷ (codes "b", r2 ∷ []) ∷ [];
  overflow = r3 ∷ [];
}

build_run : build two_workers (r1 ∷ r2 ∷ r3 ∷ []) ≡ some allocator
unfolding build assign place append_route empty_queues group_workers lookup insert
build_run = refl

-- Worker a takes its own route, the overflow, and then the route of worker b.
abbrev calls : List (Text × Bool)
calls = (codes "a", true) ∷ (codes "a", true) ∷ (codes "a", true) ∷ (codes "a", true) ∷ []

serve_run : (serve calls allocator).0 ≡ r1 ∷ r3 ∷ r2 ∷ []
unfolding serve next_route next_from steal steal_from pop_queue lookup insert donors sort text_lt
serve_run = refl

build-places_example :
    (a : WorkAllocator) × (build two_workers (r1 ∷ r2 ∷ r3 ∷ []) ≡ some a)
    × Perm (pending a) (r1 ∷ r2 ∷ r3 ∷ [])
    × All (λ w. found (lookup w.worker_id a.primary) ≡ true) two_workers
    × Distinct (keys a.primary)
build-places_example = build-places two_workers (r1 ∷ r2 ∷ r3 ∷ [])

serve-Conserves_example :
    Perm (pending allocator) ((serve calls allocator).0 ++ pending (serve calls allocator).1)
serve-Conserves_example = serve-Conserves calls allocator

next_route-Serves_example : Serves true allocator (next_route (codes "b") true allocator).0
unfolding lookup
next_route-Serves_example =
    next_route-Serves (codes "b") true allocator refl (unfold Dict.contains in (refl, (refl, tt)))
