-- ===== src/Swarm/Allocator/Queues.antt =====
-- The routes in all queues, and what appending to one queue and popping from one do to them.
use mathlib.Core.List.{Perm, perm_middle, perm_append_singleton}
use mathlib.Core.List.Perm
use flash_loan.Prelude.{
  ◌≡◌, some, List, [], ◌∷◌, ◌++◌, Text, Eq_text, text_eq, arith, Bool-cases, inl, inr,
}
use flash_loan.Prelude.Dict.{lookup, insert}
use flash_loan.Swarm.Allocator.{Route, Queues, WorkAllocator}

-- The routes of all workers' queues.
abbrev pub queued : Queues → List Route
queued [] = []
queued ((w, q) ∷ d) = q ++ queued d

-- The routes that an allocator has yet to hand out.
abbrev pub pending : WorkAllocator → List Route
pending a = queued a.primary ++ a.overflow

-- Popping the first route of a queue takes one route out.
pub queued_pop :
    (w : Text) (r : Route) (q : List Route) (d : Queues)
    → lookup w d ≡ some (r ∷ q)
    → Perm (queued d) (r ∷ queued (insert w q d))
unfolding lookup insert
queued_pop w r q [] h = absurd (cc)
queued_pop w r q ((v, p) ∷ d) h = elim (Bool-cases (text_eq v w)) [
  | inl same ↦ let e : p ≡ r ∷ q = ground arith in rw (same, e) (Perm.refl _)
  | inr ne ↦ rw ne (
      Perm.trans (Perm.append_left p (queued_pop w r q d (ground arith)))
        (perm_middle p (queued (insert w q d))))
]

-- Appending a route to a queue adds one route.
pub queued_push :
    (w : Text) (r : Route) (q : List Route) (d : Queues)
    → lookup w d ≡ some q
    → Perm (queued (insert w (q ++ r ∷ []) d)) (r ∷ queued d)
unfolding lookup insert
queued_push w r q [] h = absurd (cc)
queued_push w r q ((v, p) ∷ d) h = elim (Bool-cases (text_eq v w)) [
  | inl same ↦
      let e : p ≡ q = ground arith in
      rw (same, e) (Perm.append_right (queued d) (perm_append_singleton r q))
  | inr ne ↦ rw ne (
      Perm.trans (Perm.append_left p (queued_push w r q d (ground arith)))
        (perm_middle p (queued d)))
]
