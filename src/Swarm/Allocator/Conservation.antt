-- ===== src/Swarm/Allocator/Conservation.antt =====
-- No route is lost and none is handed out twice, whoever asks and however work is stolen.
use mathlib.Core.List.{Perm, perm_middle, append_assoc}
use mathlib.Core.List.Perm
use flash_loan.Prelude.{
  ℕ, ◌≡◌, refl, Bool, true, false, Option, none, some, List, [], ◌∷◌, ◌++◌, Text, Eq_text,
}
use flash_loan.Prelude.Dict.{lookup, insert}
use flash_loan.Prelude.Sort.{sort}
use flash_loan.Swarm.Allocator.{
  Route, WorkAllocator, donors, donor_less, Reply, route, pop_queue, steal_from, steal, next_from,
  next_route,
}
use flash_loan.Swarm.Allocator.Queues.{queued, pending, queued_pop}

-- The routes that a reply hands out.
abbrev pub handed : Reply → List Route
handed (route (some r)) = r ∷ []
handed _ = []

-- A call hands out a route that was pending, or leaves everything as it was.
abbrev pub Conserves : WorkAllocator → Reply × WorkAllocator → Type 0
Conserves a (reply, a') = Perm (pending a) (handed reply ++ pending a')

pop_Conserves :
    (w : Text) (r : Route) (q : List Route) (a : WorkAllocator)
    → lookup w a.primary ≡ some (r ∷ q)
    → Conserves a (route (some r), record a { primary = insert w q a.primary })
pop_Conserves w r q a h = Perm.append_right a.overflow (queued_pop w r q a.primary h)

pop_queue-Conserves :
    (o : Option (List Route)) (w : Text) (a : WorkAllocator)
    → lookup w a.primary ≡ o
    → Conserves a (pop_queue o w a)
unfolding pop_queue
pop_queue-Conserves none w a e = Perm.refl _
pop_queue-Conserves (some []) w a e = Perm.refl _
pop_queue-Conserves (some (r ∷ q)) w a e = pop_Conserves w r q a e

steal-Conserves :
    (o : List Route) (w : Text) (a : WorkAllocator) → a.overflow ≡ o → Conserves a (steal o w a)
unfolding steal
steal-Conserves [] w a e = by_donors (sort donor_less (donors w a.primary))
  where
    by_donors : (ds : List (ℕ × Text)) → Conserves a (steal_from ds a)
    by_donors [] = Perm.refl _
    by_donors (d ∷ ds) = pop_queue-Conserves (lookup d.1 a.primary) d.1 a refl
steal-Conserves (r ∷ o) w a e = rw e (perm_middle (queued a.primary) o)

next_from-Conserves :
    (o : Option (List Route)) (w : Text) (allow_steal : Bool) (a : WorkAllocator)
    → lookup w a.primary ≡ o
    → Conserves a (next_from o w allow_steal a)
unfolding next_from
next_from-Conserves none w b a e = Perm.refl _
next_from-Conserves (some []) w false a e = Perm.refl _
next_from-Conserves (some []) w true a e = steal-Conserves a.overflow w a refl
next_from-Conserves (some (r ∷ q)) w b a e = pop_Conserves w r q a e

-- One call of `next_route`, by any worker, hands out a route that was pending and keeps the others,
-- or hands out none and keeps them all.
pub next_route-Conserves :
    (w : Text) (allow_steal : Bool) (a : WorkAllocator) → Conserves a (next_route w allow_steal a)
unfolding next_route
next_route-Conserves w b a = next_from-Conserves (lookup w a.primary) w b a refl

-- The routes that a sequence of calls hands out, and the allocator after it: the workers' calls in
-- the order in which they get the lock.
unfoldable pub serve : List (Text × Bool) → WorkAllocator → List Route × WorkAllocator
serve [] a = ([], a)
serve ((w, b) ∷ calls) a =
    let (reply, a') = next_route w b a in
    let (routes, a'') = serve calls a' in (handed reply ++ routes, a'')

-- In any interleaving of the workers' calls, with stealing or without, the routes handed out and
-- those still pending are the routes that were pending: none is lost or handed out twice.
pub serve-Conserves :
    (calls : List (Text × Bool)) (a : WorkAllocator)
    → Perm (pending a) ((serve calls a).0 ++ pending (serve calls a).1)
unfolding serve
serve-Conserves [] a = Perm.refl _
serve-Conserves ((w, b) ∷ calls) a =
    let (reply, a') = next_route w b a in
    Perm.trans (next_route-Conserves w b a) (
      Perm.trans (Perm.append_left (handed reply) (serve-Conserves calls a'))
        (rw append_assoc (Perm.refl _)))
