-- ===== src/Swarm/Worker/Dedupe.antt =====
-- The supervisor hands each route id to the workers once.
use flash_loan.Prelude.{
  ◌+◌, ◌≡◌, refl, true, false, ◌&&◌, ◌||◌, not, List, [], ◌∷◌, Text, if◌then◌else◌, Eq_text,
  text_eq, text_eq_iff, arith, Bool-cases, inl, inr, length,
}
use flash_loan.Prelude.Dict.{contains, Distinct}
use flash_loan.Prelude.Sort.{keep}
use flash_loan.Swarm.Allocator.{Route}
use flash_loan.Swarm.Worker.{has_id, remember, dedupe}

-- The ids of the routes that have one.
abbrev pub ids : List Route → List Text
ids [] = []
ids (r ∷ rs) = if has_id r then r.route_id ∷ ids rs else ids rs

length-dedupe :
    (seen : List Text) (rs : List Route)
    → length (dedupe seen rs).0 + (dedupe seen rs).1 ≡ length rs
unfolding dedupe
length-dedupe seen [] = omega arith
length-dedupe seen (r ∷ rs) = elim (Bool-cases (has_id r && contains seen r.route_id)) [
  | inl dup ↦ rw dup (omega (arith, length-dedupe seen rs))
  | inr new ↦ rw new (omega (arith, length-dedupe (remember r seen) rs))
]

contains-remember :
    (r : Route) (seen : List Text) (k : Text)
    → contains (remember r seen) k ≡ (has_id r && text_eq r.route_id k || contains seen k)
unfolding contains
contains-remember r seen k = elim (Bool-cases (has_id r)) [
  | inl yes_id ↦ rw yes_id
  | inr no_id ↦ rw no_id
]

contains-ids :
    (r : Route) (rs : List Route) (k : Text)
    → contains (ids (r ∷ rs)) k ≡ (has_id r && text_eq r.route_id k || contains (ids rs) k)
unfolding contains
contains-ids r rs k = elim (Bool-cases (has_id r)) [ inl yes_id ↦ rw yes_id | inr no_id ↦ rw no_id ]

-- What is kept was not seen before.
dedupe_new :
    (seen : List Text) (rs : List Route) (k : Text)
    → contains seen k ≡ true
    → contains (ids (dedupe seen rs).0) k ≡ false
unfolding dedupe
dedupe_new seen [] k h = unfold contains in refl
dedupe_new seen (r ∷ rs) k h = elim (Bool-cases (has_id r && contains seen r.route_id)) [
  | inl dup ↦ rw dup (dedupe_new seen rs k h)
  | inr new ↦ rw new (
      ground (
        arith,
        contains-ids r (dedupe (remember r seen) rs).0 k,
        contains-remember r seen k,
        dedupe_new (remember r seen) rs k,
        text_eq_iff r.route_id k,
      ))
]

dedupe-Distinct : (seen : List Text) (rs : List Route) → Distinct (ids (dedupe seen rs).0)
unfolding dedupe
dedupe-Distinct seen [] = tt
dedupe-Distinct seen (r ∷ rs) = elim (Bool-cases (has_id r && contains seen r.route_id)) [
  | inl dup ↦ rw dup (dedupe-Distinct seen rs)
  | inr new ↦ rw new (elim (Bool-cases (has_id r)) [
    | inl yes_id ↦ rw yes_id (
      dedupe_new (r.route_id ∷ seen) rs r.route_id
          (unfold contains in rw ((text_eq_iff r.route_id r.route_id).1 refl)),
      dedupe-Distinct (r.route_id ∷ seen) rs,
    )
    | inr no_id ↦ rw no_id (dedupe-Distinct seen rs)
  ])
]

-- An id of the input is kept, unless it was seen before.
dedupe_covers :
    (seen : List Text) (rs : List Route) (k : Text)
    → contains (ids rs) k ≡ true
    → (contains (ids (dedupe seen rs).0) k || contains seen k) ≡ true
unfolding dedupe
dedupe_covers seen [] k h = absurd (unfold contains in cc)
dedupe_covers seen (r ∷ rs) k h = elim (Bool-cases (has_id r && contains seen r.route_id)) [
  | inl dup ↦
      rw dup
        (ground (arith, contains-ids r rs k, dedupe_covers seen rs k, text_eq_iff r.route_id k))
  | inr new ↦ rw new (
      ground (
        arith,
        contains-ids r rs k,
        contains-ids r (dedupe (remember r seen) rs).0 k,
        contains-remember r seen k,
        dedupe_covers (remember r seen) rs k,
      ))
]

dedupe_within :
    (seen : List Text) (rs : List Route) (k : Text)
    → contains (ids (dedupe seen rs).0) k ≡ true
    → contains (ids rs) k ≡ true
unfolding dedupe
dedupe_within seen [] k h = h
dedupe_within seen (r ∷ rs) k h = elim (Bool-cases (has_id r && contains seen r.route_id)) [
  | inl dup ↦ ground (arith, contains-ids r rs k, dedupe_within seen rs k)
  | inr new ↦ ground (
    arith,
    contains-ids r rs k,
    contains-ids r (dedupe (remember r seen) rs).0 k,
    dedupe_within (remember r seen) rs k,
  )
]

-- The routes without an id.
abbrev pub anonymous : List Route → List Route
anonymous = keep (λ r. not (has_id r))

anonymous-dedupe :
    (seen : List Text) (rs : List Route) → anonymous (dedupe seen rs).0 ≡ anonymous rs
unfolding dedupe
anonymous-dedupe seen [] = refl
anonymous-dedupe seen (r ∷ rs) = elim (Bool-cases (has_id r && contains seen r.route_id)) [
  | inl dup ↦ ground (arith, anonymous-dedupe seen rs)
  | inr new ↦ rw new (ground (arith, anonymous-dedupe (remember r seen) rs))
]

-- Of the routes with an id the supervisor keeps exactly one of each id that occurs, and it keeps
-- every route without an id, in order; the number that it reports is that of the routes dropped.
pub dedupe_lem :
    (rs : List Route) (k : Text)
    → Distinct (ids (dedupe [] rs).0)
      × (contains (ids (dedupe [] rs).0) k ≡ contains (ids rs) k)
      × (anonymous (dedupe [] rs).0 ≡ anonymous rs)
      × (length (dedupe [] rs).0 + (dedupe [] rs).1 ≡ length rs)
dedupe_lem rs k = (
  dedupe-Distinct [] rs,
  unfold contains in ground (arith, dedupe_covers [] rs k, dedupe_within [] rs k),
  anonymous-dedupe [] rs,
  length-dedupe [] rs,
)
