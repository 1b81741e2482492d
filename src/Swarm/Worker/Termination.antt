-- ===== src/Swarm/Worker/Termination.antt =====
-- The loop of a worker ends, and accounts for every route that it took.
use flash_loan.Prelude.{
  ℕ, zero, suc, ◌+◌, ◌<◌, ◌≤◌, ◌≡◌, refl, Bool, true, false, Option, none, some, List, [], ◌∷◌,
  Text, Eq_text, arith, length, length-append, ap, ◌∙◌, subst,
}
use flash_loan.Prelude.Perms.{length-perm}
use flash_loan.Prelude.Dict.{lookup, keys, found, Distinct, contains-keys}
use flash_loan.Swarm.Leases.{Leases}
use flash_loan.Swarm.Allocator.{
  WorkerSpec, Route, WorkAllocator, Reply, route, unknown_worker, pop_error, next_route,
}
use flash_loan.Swarm.Allocator.Queues.{pending}
use flash_loan.Swarm.Allocator.Conservation.{handed, next_route-Conserves}
use flash_loan.Swarm.Allocator.Completeness.{Serves, next_route-Serves, keys-next_route}
use flash_loan.Swarm.Worker.{
  claim, Scan, row, no_row, raised, Scans, scan_route, Tally, record_scan, record_route, WorkerEnd,
  finished, failed, out_of_fuel, run_worker,
}

nothing_left : (rs : List Route) → length rs ≡ 0 → rs ≡ []
nothing_left [] e = refl
nothing_left (r ∷ rs) e = absurd (omega arith)

length-next_route :
    (w : Text) (b : Bool) (a : WorkAllocator)
    → length (pending a)
      ≡ length (handed (next_route w b a).0) + length (pending (next_route w b a).1)
length-next_route w b a =
    length-perm (next_route-Conserves w b a)
    ∙ length-append (handed (next_route w b a).0) (pending (next_route w b a).1)

count_next :
    (w : Text) (a : WorkAllocator) {reply : Reply}
    → (next_route w true a).0 ≡ reply
    → length (pending a) ≡ length (handed reply) + length (pending (next_route w true a).1)
count_next w a e =
    subst
      (λ (y : Reply).
        length (pending a) ≡ length (handed y) + length (pending (next_route w true a).1))
      e (length-next_route w true a)

module _ {Row : Type 0} where
  -- The routes that a tally accounts for.
  abbrev pub counted : Tally Row → ℕ
  counted t = t.routes_scanned + t.duplicates_suppressed

  -- Every scan gave at most one row or one error.
  abbrev pub IsTally : Tally Row → Type 0
  IsTally t = length t.rows + length t.route_errors ≤ t.routes_scanned

  -- The loop has ended with nothing pending and `n` more routes accounted for.
  abbrev pub Drained : ℕ → Tally Row → WorkerEnd Row → Type 0
  Drained n t (finished t' a leases) = (pending a ≡ []) × (counted t' ≡ counted t + n) × IsTally t'
  Drained n t failed = ⊥
  Drained n t out_of_fuel = ⊥

  abbrev Counts : Tally Row → Tally Row → Type 0
  Counts t t' = (counted t' ≡ counted t + 1) × IsTally t'

  record_scan-Counts :
      (w : WorkerSpec) (r : Route) (s : Scan Row) (t : Tally Row)
      → IsTally t
      → Counts t (record_scan w r s t)
  unfolding record_scan
  record_scan-Counts w r (row result) t h = (omega arith, omega (arith, length-append {0}))
  record_scan-Counts w r no_row t h = (omega arith, omega arith)
  record_scan-Counts w r (raised message) t h = (omega arith, omega (arith, length-append {0}))

  record_route-Counts :
      (scans : Scans Row) (w : WorkerSpec) (r : Route) (claimed : Bool) (t : Tally Row)
      → IsTally t
      → Counts t (record_route scans w r claimed t)
  unfolding record_route
  record_route-Counts scans w r false t h = (omega arith, h)
  record_route-Counts scans w r true t h = record_scan-Counts w r (scan_route scans r) t h

  Drained-Counts :
      (n m : ℕ) (t t' : Tally Row) (e : WorkerEnd Row)
      → Counts t t'
      → n ≡ m + 1
      → Drained m t' e
      → Drained n t e
  Drained-Counts n m t t' (finished u a leases) c e d = (d.0, omega (arith, d.1, c.0), d.2)
  Drained-Counts n m t t' failed c e d = d
  Drained-Counts n m t t' out_of_fuel c e d = d

  module _ (scans : Scans Row) (w : WorkerSpec) (block : Option ℕ) where
    -- The loop from a state does what is claimed of it.
    abbrev Ends : ℕ → WorkAllocator → Type 0
    Ends fuel a =
        (leases : Option Leases) (t : Tally Row)
        → length (pending a) < fuel
        → IsTally t
        → Drained (length (pending a)) t (run_worker fuel scans w true block a leases t)

    after_reply :
        (reply : Reply) (fuel : ℕ) (a : WorkAllocator)
        → (next_route w.worker_id true a).0 ≡ reply
        → Serves true a reply
        → Ends fuel (next_route w.worker_id true a).1
        → Ends (suc fuel) a
    unfolding run_worker
    after_reply (route none) fuel a e left ih leases t h v =
        rw (e, run_worker)
          (
            nothing_left (pending (next_route w.worker_id true a).1)
                (omega (arith, count_next w.worker_id a e, ap length left)),
            rw left (omega arith),
            v,
          )
    after_reply (route (some r)) fuel a e left ih leases t h v =
        let claimed = claim block w.worker_id r leases in
        let t' = record_route scans w r claimed.0 t in
        let a' = (next_route w.worker_id true a).1 in
        let count = count_next w.worker_id a e in
        let counts = record_route-Counts scans w r claimed.0 t v in
        rw (e, run_worker)
          (Drained-Counts (length (pending a)) (length (pending a')) t t'
            (run_worker fuel scans w true block a' claimed.1 t') counts (omega (arith, count))
            (ih claimed.1 t' (omega (arith, count)) counts.1))
    after_reply unknown_worker fuel a e left ih leases t h v = absurd left
    after_reply pop_error fuel a e left ih leases t h v = absurd left

    -- A worker that may steal, running on its own, ends after at most one round for each pending
    -- route and one more, without an exception, if it has a queue of its own, no worker has two,
    -- and the tally at the start has no more rows and errors than scans. Nothing is left pending,
    -- every route was scanned or suppressed as a duplicate, and the tally at the end has no more
    -- rows and errors than scans.
    pub run_worker-Drained :
        (fuel : ℕ) (a : WorkAllocator) (leases : Option Leases) (t : Tally Row)
        → length (pending a) < fuel
        → found (lookup w.worker_id a.primary) ≡ true
        → Distinct (keys a.primary)
        → IsTally t
        → Drained (length (pending a)) t (run_worker fuel scans w true block a leases t)
    run_worker-Drained zero a leases t h known distinct v = absurd (omega arith)
    run_worker-Drained (suc fuel) a leases t h known distinct v =
        let next = next_route w.worker_id true a in
        let kept = keys-next_route w.worker_id true a in
        after_reply next.0 fuel a refl (next_route-Serves w.worker_id true a known distinct)
          (λ leases' t' h' v'.
            run_worker-Drained fuel next.1 leases' t' h'
              (cc (
                contains-keys a.primary w.worker_id,
                contains-keys next.1.primary w.worker_id,
                kept,
                known,
              ))
              (rw kept distinct) v')
          leases t h v
