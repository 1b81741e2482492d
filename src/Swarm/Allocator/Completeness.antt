-- ===== src/Swarm/Allocator/Completeness.antt =====
-- A worker that may steal is told to stop only when no route is left, and no call raises.
use flash_loan.Prelude.{
  ℕ, ◌≡◌, refl, Bool, true, false, Option, none, some, List, [], ◌∷◌, Text, Eq_text, text_eq,
  text_eq_iff, arith, Bool-cases, inl, inr, ◌⊎◌, subst,
}
use flash_loan.Prelude.Dict.{
  lookup, contains, keys, found, Distinct, contains-keys, lookup-none, keys-insert_old,
}
use flash_loan.Prelude.Sort.{All, All-imp, sort, All-sort, sort-eq-nil}
use flash_loan.Swarm.Allocator.{
  Route, Queues, WorkAllocator, donors, donor_less, Reply, route, unknown_worker, pop_error,
  pop_queue, steal_from, steal, next_from, next_route,
}
use flash_loan.Swarm.Allocator.Queues.{queued, pending}

-- A donor's queue is there and has a first route.
abbrev pub IsDonor : Queues → ℕ × Text → Type 0
IsDonor d (n, v) = (r : Route) × (q : List Route) × (lookup v d ≡ some (r ∷ q))

lookup_other :
    (k : Text) (p : List Route) (d : Queues) (v : Text) (q : List Route)
    → contains (keys d) k ≡ false
    → lookup v d ≡ some q
    → lookup v ((k, p) ∷ d) ≡ some q
lookup_other k p d v q new h = elim (Bool-cases (text_eq k v)) [
  | inl same ↦ absurd (cc (contains-keys d v, (text_eq_iff k v).0 same, h, new))
  | inr ne ↦ unfold lookup in rw ne h
]

donors-IsDonor : (w : Text) (d : Queues) → Distinct (keys d) → All (IsDonor d) (donors w d)
unfolding donors
donors-IsDonor w [] h = tt
donors-IsDonor w ((k, []) ∷ d) h =
    All-imp (IsDonor d) (IsDonor ((k, []) ∷ d)) (donors w d)
      (λ v e. (e.0, e.1, lookup_other k [] d v.1 (e.0 ∷ e.1) h.0 e.2)) (donors-IsDonor w d h.1)
donors-IsDonor w ((k, r ∷ p) ∷ d) h =
    let rest : All (IsDonor ((k, r ∷ p) ∷ d)) (donors w d) =
      All-imp (IsDonor d) (IsDonor ((k, r ∷ p) ∷ d)) (donors w d)
        (λ v e. (e.0, e.1, lookup_other k (r ∷ p) d v.1 (e.0 ∷ e.1) h.0 e.2))
        (donors-IsDonor w d h.1) in
    elim (Bool-cases (text_eq k w)) [
      | inl own ↦ rw own rest
      | inr other ↦ rw other ((r, p, unfold lookup in rw ((text_eq_iff k k).1 refl)), rest)
    ]

-- The worker's own queue is empty or not among these.
abbrev OwnEmpty : Text → Queues → Type 0
OwnEmpty w d = (lookup w d ≡ none) ⊎ (lookup w d ≡ some [])

own_tail :
    (w k : Text) (p : List Route) (d : Queues)
    → contains (keys d) k ≡ false
    → OwnEmpty w ((k, p) ∷ d)
    → OwnEmpty w d
unfolding lookup
own_tail w k p d new own = elim (Bool-cases (text_eq k w)) [
  | inl same ↦
      inl (subst (λ (v : Text). lookup v d ≡ none) ((text_eq_iff k w).0 same) (lookup-none d k new))
  | inr ne ↦ rw ne at own
]

own_head :
    (w k : Text) (r : Route) (p : List Route) (d : Queues)
    → OwnEmpty w ((k, r ∷ p) ∷ d)
    → text_eq k w ≡ false
unfolding lookup
own_head w k r p d own = ground arith

queued_nil :
    (w : Text) (d : Queues) → Distinct (keys d) → OwnEmpty w d → donors w d ≡ [] → queued d ≡ []
unfolding donors
queued_nil w [] h own e = refl
queued_nil w ((k, []) ∷ d) h own e = queued_nil w d h.1 (own_tail w k [] d h.0 own) e
queued_nil w ((k, r ∷ p) ∷ d) h own e = absurd (ground (arith, own_head w k r p d own))

-- What a call by a known worker may reply: never an exception, and "no route" to a worker that may
-- steal only when nothing is pending.
abbrev pub Serves : Bool → WorkAllocator → Reply → Type 0
Serves allow_steal a (route (some r)) = Unit
Serves true a (route none) = pending a ≡ []
Serves false a (route none) = Unit
Serves allow_steal a unknown_worker = ⊥
Serves allow_steal a pop_error = ⊥

pop-Serves :
    (o : Option (List Route)) (v : Text) (a : WorkAllocator) (r : Route) (q : List Route)
    → o ≡ some (r ∷ q)
    → Serves true a (pop_queue o v a).0
unfolding pop_queue
pop-Serves none v a r q e = absurd (cc)
pop-Serves (some []) v a r q e = absurd (ground arith)
pop-Serves (some (s ∷ p)) v a r q e = tt

steal_from-Serves :
    (ds : List (ℕ × Text)) (a : WorkAllocator)
    → All (IsDonor a.primary) ds
    → (ds ≡ [] → pending a ≡ [])
    → Serves true a (steal_from ds a).0
unfolding steal_from
steal_from-Serves [] a all empty = empty refl
steal_from-Serves (d ∷ ds) a all empty =
    pop-Serves (lookup d.1 a.primary) d.1 a all.0.0 all.0.1 all.0.2

steal-Serves :
    (o : List Route) (w : Text) (a : WorkAllocator)
    → a.overflow ≡ o
    → Distinct (keys a.primary)
    → lookup w a.primary ≡ some []
    → Serves true a (steal o w a).0
unfolding steal
steal-Serves (r ∷ o) w a e distinct own = tt
steal-Serves [] w a e distinct own =
    steal_from-Serves (sort donor_less (donors w a.primary)) a
      (All-sort donor_less (IsDonor a.primary) (donors w a.primary)
        (donors-IsDonor w a.primary distinct))
      (λ none_left.
        rw
          (
            e,
            queued_nil w a.primary distinct (inr own)
                (sort-eq-nil donor_less (donors w a.primary) none_left),
          )
          refl)

next_from-Serves :
    (o : Option (List Route)) (w : Text) (allow_steal : Bool) (a : WorkAllocator)
    → lookup w a.primary ≡ o
    → found o ≡ true
    → Distinct (keys a.primary)
    → Serves allow_steal a (next_from o w allow_steal a).0
unfolding next_from
next_from-Serves none w b a e known distinct = absurd (cc)
next_from-Serves (some []) w false a e known distinct = tt
next_from-Serves (some []) w true a e known distinct = steal-Serves a.overflow w a refl distinct e
next_from-Serves (some (r ∷ q)) w b a e known distinct = tt

-- A known worker never meets an exception, and one that may steal is told that there is no route
-- only when none is pending anywhere.
pub next_route-Serves :
    (w : Text) (allow_steal : Bool) (a : WorkAllocator)
    → found (lookup w a.primary) ≡ true
    → Distinct (keys a.primary)
    → Serves allow_steal a (next_route w allow_steal a).0
unfolding next_route
next_route-Serves w b a known distinct =
    next_from-Serves (lookup w a.primary) w b a refl known distinct

-- No call adds a worker or takes one away.
pub keys-next_route :
    (w : Text) (allow_steal : Bool) (a : WorkAllocator)
    → keys (next_route w allow_steal a).1.primary ≡ keys a.primary
unfolding next_route
keys-next_route w b a = keys-next_from (lookup w a.primary) w b a refl
  where
    keys-pop :
        (o : Option (List Route)) (v : Text) (a : WorkAllocator)
        → lookup v a.primary ≡ o
        → keys (pop_queue o v a).1.primary ≡ keys a.primary
    keys-pop none v a e = refl
    keys-pop (some []) v a e = refl
    keys-pop (some (r ∷ q)) v a e = keys-insert_old v q a.primary (rw e)

    keys-steal_from :
        (ds : List (ℕ × Text)) (a : WorkAllocator)
        → keys (steal_from ds a).1.primary ≡ keys a.primary
    keys-steal_from [] a = refl
    keys-steal_from (d ∷ ds) a = keys-pop (lookup d.1 a.primary) d.1 a refl

    keys-steal :
        (o : List Route) (w : Text) (a : WorkAllocator)
        → keys (steal o w a).1.primary ≡ keys a.primary
    keys-steal [] w a = keys-steal_from (sort donor_less (donors w a.primary)) a
    keys-steal (r ∷ o) w a = refl

    keys-next_from :
        (o : Option (List Route)) (w : Text) (b : Bool) (a : WorkAllocator)
        → lookup w a.primary ≡ o
        → keys (next_from o w b a).1.primary ≡ keys a.primary
    keys-next_from none w b a e = refl
    keys-next_from (some []) w false a e = refl
    keys-next_from (some []) w true a e = keys-steal a.overflow w a
    keys-next_from (some (r ∷ q)) w b a e = keys-insert_old w q a.primary (rw e)
