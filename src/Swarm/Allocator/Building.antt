-- ===== src/Swarm/Allocator/Building.antt =====
-- Building an allocator: the round robin raises nothing and places every route.
use mathlib.Core.List.{Perm, perm_append_singleton, perm_middle, append-nil}
use mathlib.Core.List.Perm
use flash_loan.Prelude.{
  ℕ, zero, suc, ◌+◌, ◌<◌, ◌%◌, ◌≡◌, refl, true, Option, none, some, List, [], ◌∷◌, ◌++◌, Text,
  Eq_text, Eq_text_pair, text_eq, text_eq_iff, arith, Bool-cases, inl, inr, length, get_elem?, ◌∙◌,
}
use flash_loan.Prelude.Dict.{
  Dict, lookup, insert, keys, found, Distinct, lookup-insert, contains-keys, keys-insert_old,
  insert-Distinct,
}
use flash_loan.Prelude.Sort.{All, All-imp, All-append}
use flash_loan.Swarm.Allocator.{
  Pair, WorkerSpec, Route, Queues, WorkAllocator, get_list, get_index, empty_queues, group_workers,
  append_route, place, pair_of, assign, fresh, build,
}
use flash_loan.Swarm.Allocator.Queues.{queued, pending, queued_push}

-- The worker has a queue.
abbrev pub HasQueue : Queues → Text → Type 0
HasQueue d w = found (lookup w d) ≡ true

get_elem?-All :
    (P : Text → Type 0) (xs : List Text) (i : ℕ)
    → i < length xs
    → All P xs
    → (x : Text) × (get_elem? xs i ≡ some x) × P x
get_elem?-All P [] i h all = absurd (omega arith)
get_elem?-All P (x ∷ xs) zero h all = (x, refl, all.0)
get_elem?-All P (x ∷ xs) (suc i) h all = get_elem?-All P xs i (omega arith) all.1

-- The worker groups hold workers with `P` only.
abbrev GroupsOf : (Text → Type 0) → Dict Pair (List Text) → Type 0
GroupsOf P d = All (λ e. All P e.1) d

lookup-GroupsOf :
    (P : Text → Type 0) (pair : Pair) (d : Dict Pair (List Text))
    → GroupsOf P d
    → All P (get_list (lookup pair d))
unfolding lookup
lookup-GroupsOf P pair [] h = tt
lookup-GroupsOf P pair ((k, ws) ∷ d) h = elim (Bool-cases (Eq_text_pair.beq k pair)) [
  | inl same ↦ rw same h.0
  | inr ne ↦ rw ne (lookup-GroupsOf P pair d h.1)
]

insert-GroupsOf :
    (P : Text → Type 0) (pair : Pair) (ws : List Text) (d : Dict Pair (List Text))
    → All P ws
    → GroupsOf P d
    → GroupsOf P (insert pair ws d)
unfolding insert
insert-GroupsOf P pair ws [] h g = (h, tt)
insert-GroupsOf P pair ws ((k, vs) ∷ d) h g = elim (Bool-cases (Eq_text_pair.beq k pair)) [
  | inl same ↦ rw same (h, g.1)
  | inr ne ↦ rw ne (g.0, insert-GroupsOf P pair ws d h g.1)
]

group_workers-GroupsOf :
    (P : Text → Type 0) (ws : List WorkerSpec) (d : Dict Pair (List Text))
    → All (λ w. P w.worker_id) ws
    → GroupsOf P d
    → GroupsOf P (group_workers ws d)
unfolding group_workers
group_workers-GroupsOf P [] d h g = g
group_workers-GroupsOf P (w ∷ ws) d h g =
    group_workers-GroupsOf P ws
      (insert w.primary_pair (get_list (lookup w.primary_pair d) ++ w.worker_id ∷ []) d) h.1
      (insert-GroupsOf P w.primary_pair (get_list (lookup w.primary_pair d) ++ w.worker_id ∷ []) d
        (All-append P (get_list (lookup w.primary_pair d)) w.worker_id
          (lookup-GroupsOf P w.primary_pair d g) h.0)
        g)

insert-HasQueue :
    (w v : Text) (q : List Route) (d : Queues) → HasQueue d v → HasQueue (insert w q d) v
insert-HasQueue w v q d h = ground (arith, lookup-insert w v q d)

insert-HasQueue_self : (w : Text) (q : List Route) (d : Queues) → HasQueue (insert w q d) w
insert-HasQueue_self w q d = ground (arith, lookup-insert w w q d, text_eq_iff w w)

-- Every worker gets a queue, and a queue that is there stays.
empty_queues-HasQueue :
    (ws : List WorkerSpec) (d : Queues) (v : Text) → HasQueue d v → HasQueue (empty_queues ws d) v
unfolding empty_queues
empty_queues-HasQueue [] d v h = h
empty_queues-HasQueue (w ∷ ws) d v h =
    empty_queues-HasQueue ws (insert w.worker_id [] d) v (insert-HasQueue w.worker_id v [] d h)

workers-HasQueue :
    (ws : List WorkerSpec) (d : Queues) → All (λ w. HasQueue (empty_queues ws d) w.worker_id) ws
unfolding empty_queues
workers-HasQueue [] d = tt
workers-HasQueue (w ∷ ws) d = (
  empty_queues-HasQueue ws (insert w.worker_id [] d) w.worker_id
      (insert-HasQueue_self w.worker_id [] d),
  workers-HasQueue ws (insert w.worker_id [] d),
)

empty_queues-Distinct :
    (ws : List WorkerSpec) (d : Queues) → Distinct (keys d) → Distinct (keys (empty_queues ws d))
unfolding empty_queues
empty_queues-Distinct [] d h = h
empty_queues-Distinct (w ∷ ws) d h =
    empty_queues-Distinct ws (insert w.worker_id [] d) (insert-Distinct w.worker_id [] d h)

queued-insert_nil : (w : Text) (d : Queues) → queued d ≡ [] → queued (insert w [] d) ≡ []
unfolding insert
queued-insert_nil w [] h = refl
queued-insert_nil w ((v, []) ∷ d) h = elim (Bool-cases (text_eq v w)) [
  | inl same ↦ rw same h
  | inr ne ↦ rw ne (queued-insert_nil w d h)
]
queued-insert_nil w ((v, r ∷ p) ∷ d) h = absurd (ground arith)

queued-empty_queues :
    (ws : List WorkerSpec) (d : Queues) → queued d ≡ [] → queued (empty_queues ws d) ≡ []
unfolding empty_queues
queued-empty_queues [] d h = h
queued-empty_queues (w ∷ ws) d h =
    queued-empty_queues ws (insert w.worker_id [] d) (queued-insert_nil w.worker_id d h)

found-some : {A : Type 0} (o : Option A) → found o ≡ true → (x : A) × (o ≡ some x)
found-some none h = absurd (cc)
found-some (some x) h = (x, refl)

-- What one round of the assignment keeps.
abbrev Placed : Route → WorkAllocator × Dict Pair ℕ → WorkAllocator × Dict Pair ℕ → Type 0
Placed r s s' = Perm (pending s'.0) (r ∷ pending s.0) × (keys s'.0.primary ≡ keys s.0.primary)

place_lem :
    (owners : List Text) (pair : Pair) (r : Route) (s : WorkAllocator × Dict Pair ℕ)
    → All (HasQueue s.0.primary) owners
    → (s' : WorkAllocator × Dict Pair ℕ) × (place owners pair r s ≡ some s') × Placed r s s'
unfolding place append_route
place_lem [] pair r (a, index) h = (
  (record a { overflow = a.overflow ++ r ∷ [] }, index),
  refl,
  (
    Perm.trans (Perm.append_left (queued a.primary) (perm_append_singleton r a.overflow))
        (perm_middle (queued a.primary) a.overflow),
    refl,
  ),
)
place_lem (o ∷ os) pair r (a, index) h =
    let i = get_index (lookup pair index) in
    let chosen =
      get_elem?-All (HasQueue a.primary) (o ∷ os) (i % length (o ∷ os)) (omega arith) h in
    at_queue chosen.0 chosen.1 (found-some (lookup chosen.0 a.primary) chosen.2)
  where
    at_queue :
        (w : Text)
        → get_elem? (o ∷ os) (get_index (lookup pair index) % length (o ∷ os)) ≡ some w
        → ((q : List Route) × (lookup w a.primary ≡ some q))
        → (s' : WorkAllocator × Dict Pair ℕ) × (place (o ∷ os) pair r (a, index) ≡ some s')
          × Placed r (a, index) s'
    at_queue w e (q, f) = (
      (
        record a { primary = insert w (q ++ r ∷ []) a.primary },
        insert pair (get_index (lookup pair index) + 1) index,
      ),
      ground (arith, e, f),
      (
        Perm.append_right a.overflow (queued_push w r q a.primary f),
        keys-insert_old w (q ++ r ∷ []) a.primary (rw f),
      ),
    )

HasQueue-keys : (d d' : Queues) (v : Text) → keys d' ≡ keys d → HasQueue d v → HasQueue d' v
HasQueue-keys d d' v e h = cc (contains-keys d v, contains-keys d' v, e, h)

assign_lem :
    (pair_workers : Dict Pair (List Text)) (rs : List Route) (s : WorkAllocator × Dict Pair ℕ)
    → GroupsOf (HasQueue s.0.primary) pair_workers
    → (s' : WorkAllocator × Dict Pair ℕ) × (assign pair_workers rs s ≡ some s')
      × Perm (pending s'.0) (rs ++ pending s.0)
      × (keys s'.0.primary ≡ keys s.0.primary)
unfolding assign
assign_lem pw [] s g = (s, refl, Perm.refl _, refl)
assign_lem pw (r ∷ rs) s g =
    let p = pair_of r in
    let one =
      place_lem (get_list (lookup p pw)) p r s (lookup-GroupsOf (HasQueue s.0.primary) p pw g) in
    let g' : GroupsOf (HasQueue one.0.0.primary) pw =
      All-imp (λ e. All (HasQueue s.0.primary) e.1) (λ e. All (HasQueue one.0.0.primary) e.1) pw
        (λ e all.
          All-imp (HasQueue s.0.primary) (HasQueue one.0.0.primary) e.1
            (λ v. HasQueue-keys s.0.primary one.0.0.primary v one.2.1) all)
        g in
    let rest = assign_lem pw rs one.0 g' in
    (
      rest.0,
      rw (one.1, assign) rest.1,
      Perm.trans rest.2 (Perm.trans (Perm.append_left rs one.2.0) (perm_middle rs (pending s.0))),
      rest.3 ∙ one.2.1,
    )

-- An allocator can be built from any workers and routes, without an exception: every route is in
-- one queue or in the overflow, once for each time that it is listed, every worker has a queue,
-- and no worker has two.
pub build-places :
    (workers : List WorkerSpec) (routes : List Route)
    → (a : WorkAllocator) × (build workers routes ≡ some a)
      × Perm (pending a) routes
      × All (λ w. found (lookup w.worker_id a.primary) ≡ true) workers
      × Distinct (keys a.primary)
unfolding build
build-places workers routes =
    let d = empty_queues workers [] in
    let all =
      assign_lem (group_workers workers []) routes (fresh workers)
        (group_workers-GroupsOf (HasQueue d) workers [] (workers-HasQueue workers []) tt) in
    (
      all.0.0,
      rw (all.1, build),
      Perm.trans all.2 (rw (queued-empty_queues workers [] refl, append-nil) (Perm.refl routes)),
      All-imp (λ w. HasQueue d w.worker_id) (λ w. HasQueue all.0.0.primary w.worker_id) workers
          (λ w. HasQueue-keys d all.0.0.primary w.worker_id all.3) (workers-HasQueue workers []),
      rw all.3 (empty_queues-Distinct workers [] tt),
    )
