-- ===== src/Routes/Walks.antt =====
-- The search from any point on keeps every predicate on the routes found that each cycle keeps.
use mathlib.Core.List.{map-append}
use flash_loan.Prelude.{
  ℕ, zero, suc, ◌+◌, ◌≤◌, ◌≡◌, sym, true, false, ◌||◌, some, List, [], ◌∷◌, ◌++◌, Text, lower,
  text_eq, text_eq_iff, leb, Eq_text, length, length-append, arith, subst, Bool-cases, inl, inr,
}
use flash_loan.Prelude.Dict.{contains, contains-append, insert}
use flash_loan.Prelude.Sort.{All, All-append, All-with_In, In}
use flash_loan.Prelude.Succeeds.{Succeeds, bind-Succeeds}
use flash_loan.Routes.{RouteLeg, RouteCandidate, no_repeats, leg_id, route_id, make_route}
use flash_loan.Routes.Graph.{Edges, Found, Walk, add_route, visit_leg, visit_legs, walk}
use flash_loan.Routes.Paths.{
  IsPath, IsPath-append, targets, legs_from, leg_ids, IsCycle, make_route-cycle, no_repeats-snoc,
}

module _ (digest : Text → Text) (edges : Edges) (start : Text) (max_hops : ℕ) where
  -- What the arguments of a call of `walk` have to do with each other.
  pub record IsAt (hops : ℕ) (current : Text) (legs : List RouteLeg) (used visited : List Text)
      : Type 0 where
    pub path : IsPath start legs current
    pub room : length legs + hops ≡ max_hops
    pub pools_once : no_repeats (leg_ids digest legs) ≡ true
    pub tokens_once : no_repeats (targets legs) ≡ true
    pub away : contains (targets legs) start ≡ false
    pub used_same : (k : Text) → contains used k ≡ contains (leg_ids digest legs) k
    pub visited_same :
        (k : Text) → contains visited k ≡ (text_eq start k || contains (targets legs) k)
    pub known : All (λ l. In l (legs_from edges l.token_in)) legs

  module _ {hops : ℕ} {current : Text} {legs : List RouteLeg} {used visited : List Text}
      (at : IsAt (suc hops) current legs used visited) (leg : RouteLeg)
      (from : leg.token_in ≡ current) (out : In leg (legs_from edges current))
      (unused : contains used (leg_id digest leg) ≡ false) where
    known-snoc : All (λ l. In l (legs_from edges l.token_in)) (legs ++ leg ∷ [])
    known-snoc =
        All-append (λ l. In l (legs_from edges l.token_in)) legs leg at.known
          (subst (λ (t : Text). In leg (legs_from edges t)) (sym from) out)

    pools-snoc : no_repeats (leg_ids digest (legs ++ leg ∷ [])) ≡ true
    pools-snoc =
        rw
          (
            map-append (leg_id digest) legs (leg ∷ []),
            no_repeats-snoc (leg_ids digest legs) (leg_id digest leg),
          )
          (ground (arith, at.pools_once, at.used_same (leg_id digest leg)))

    tokens-snoc :
        contains (targets legs) leg.token_out ≡ false
        → no_repeats (targets (legs ++ leg ∷ [])) ≡ true
    tokens-snoc new =
        rw
          (
            map-append (λ (l : RouteLeg). l.token_out) legs (leg ∷ []),
            no_repeats-snoc (targets legs) leg.token_out,
          )
          (ground (arith, at.tokens_once))

    -- A leg back to the start closes a cycle.
    pub closing-IsCycle :
        leg.token_out ≡ start
        → 2 ≤ length (legs ++ leg ∷ [])
        → IsCycle digest edges start max_hops (legs ++ leg ∷ [])
    closing-IsCycle home two = record {
      closed =
          subst (λ (t : Text). IsPath start (legs ++ leg ∷ []) t) home
            (IsPath-append legs leg start current at.path from);
      at_least = two;
      at_most = omega (arith, at.room, length-append legs (leg ∷ []));
      pools_once = pools-snoc;
      tokens_once = tokens-snoc (rw home at.away);
      known = known-snoc;
    }

    -- A leg to a token not visited yet leads on.
    pub step-IsAt :
        contains visited leg.token_out ≡ false
        → IsAt hops leg.token_out
            (legs ++ leg ∷ [])
            (leg_id digest leg ∷ used)
            (leg.token_out ∷ visited)
    unfolding contains
    step-IsAt new = record {
      path = IsPath-append legs leg start current at.path from;
      room = omega (arith, at.room, length-append legs (leg ∷ []));
      pools_once = pools-snoc;
      tokens_once = tokens-snoc (ground (arith, at.visited_same leg.token_out));
      away =
          rw
            (
              map-append (λ (l : RouteLeg). l.token_out) legs (leg ∷ []),
              contains-append (targets legs) (leg.token_out ∷ []) start,
            )
            (ground (
              arith,
              at.away,
              at.visited_same leg.token_out,
              text_eq_iff start leg.token_out,
              text_eq_iff leg.token_out start,
            ));
      used_same = λ k.
          rw
            (
              map-append (leg_id digest) legs (leg ∷ []),
              contains-append (leg_ids digest legs) (leg_id digest leg ∷ []) k,
            )
            (ground (arith, at.used_same k));
      visited_same = λ k.
          rw
            (
              map-append (λ (l : RouteLeg). l.token_out) legs (leg ∷ []),
              contains-append (targets legs) (leg.token_out ∷ []) k,
            )
            (ground (arith, at.visited_same k));
      known = known-snoc;
    }

  module _ (chain_id : ℕ) where
    -- The route of a cycle.
    abbrev pub route_of : List RouteLeg → RouteCandidate
    route_of legs = record { chain_id = chain_id; start_asset = start; legs = legs }

    abbrev pub add_cycle : List RouteLeg → Found → Found
    add_cycle legs found = insert (route_id digest (route_of legs)) (route_of legs) found

    -- Adding a cycle keeps `P`.
    abbrev pub IsStable : (Found → Type 0) → Type 0
    IsStable P =
        (legs : List RouteLeg) (found : Found)
        → IsCycle digest edges start max_hops legs
        → P found
        → P (add_cycle legs found)

    module _ (low : lower start ≡ start) (three : max_hops ≤ 3) where
      pub add_route-cycle :
          (legs : List RouteLeg) (found : Found)
          → IsCycle digest edges start max_hops legs
          → add_route digest (make_route digest chain_id start legs) found
            ≡ some (add_cycle legs found)
      unfolding add_route
      add_route-cycle legs found c = rw (
          make_route-cycle digest chain_id start legs low c.closed c.at_least
            (omega (arith, c.at_most)) c.pools_once)

      module _ (ends : (t : Text) → All (λ l. l.token_in ≡ t) (legs_from edges t))
          (P : Found → Type 0) (stable : IsStable P) where
        -- The recursive call keeps `P`.
        abbrev pub Keeping : ℕ → Walk → Type 0
        Keeping hops next =
            (current : Text) (legs : List RouteLeg) (used visited : List Text) (found : Found)
            → IsAt hops current legs used visited
            → P found
            → Succeeds P (next current legs used visited found)

        pub visit_leg-keeps :
            (next : Walk) (hops : ℕ) (current : Text) (legs : List RouteLeg)
            (used visited : List Text) (leg : RouteLeg) (found : Found)
            → Keeping hops next
            → IsAt (suc hops) current legs used visited
            → leg.token_in ≡ current
            → In leg (legs_from edges current)
            → P found
            → Succeeds P (visit_leg digest chain_id start next legs used visited leg found)
        unfolding visit_leg
        visit_leg-keeps next hops current legs used visited leg found ih at from out p =
            elim (Bool-cases (contains used (leg_id digest leg))) [
              | inl again ↦ rw again p
              | inr unused ↦ elim (Bool-cases (text_eq leg.token_out start)) [
                | inl home ↦ elim (Bool-cases (leb 2 (length (legs ++ leg ∷ [])))) [
                  | inl two ↦
                      let c =
                        closing-IsCycle at leg from out unused
                          ((text_eq_iff leg.token_out start).0 home) (ground (arith, two)) in
                      rw (unused, home, two, add_route-cycle (legs ++ leg ∷ []) found c)
                        (stable (legs ++ leg ∷ []) found c p)
                  | inr one ↦ rw (unused, home, one) p
                ]
                | inr away ↦ elim (Bool-cases (contains visited leg.token_out)) [
                  | inl back ↦ rw (unused, away, back) p
                  | inr new ↦
                      rw (unused, away, new)
                        (ih leg.token_out (legs ++ leg ∷ []) (leg_id digest leg ∷ used)
                          (leg.token_out ∷ visited) found (step-IsAt at leg from out unused new) p)
                ]
              ]
            ]

        -- The loop over any of the legs out of the token.
        pub visit_legs-keeps :
            (next : Walk) (hops : ℕ) (current : Text) (legs : List RouteLeg)
            (used visited : List Text) (ls : List RouteLeg) (found : Found)
            → Keeping hops next
            → IsAt (suc hops) current legs used visited
            → All (λ l. (l.token_in ≡ current) × In l (legs_from edges current)) ls
            → P found
            → Succeeds P (visit_legs digest chain_id start next legs used visited ls found)
        unfolding visit_legs
        visit_legs-keeps next hops current legs used visited [] found ih at all p = p
        visit_legs-keeps next hops current legs used visited (l ∷ ls) found ih at all p =
            bind-Succeeds P P (visit_leg digest chain_id start next legs used visited l found)
              (λ found'. visit_legs digest chain_id start next legs used visited ls found')
              (visit_leg-keeps next hops current legs used visited l found ih at all.0.0 all.0.1 p)
              (λ found' q.
                visit_legs-keeps next hops current legs used visited ls found' ih at all.1 q)

        pub out_legs :
            (t : Text) → All (λ l. (l.token_in ≡ t) × In l (legs_from edges t)) (legs_from edges t)
        out_legs t = All-with_In (λ l. l.token_in ≡ t) (legs_from edges t) (ends t)

        pub walk-keeps : (hops : ℕ) → Keeping hops (walk digest chain_id start edges hops)
        unfolding walk
        walk-keeps zero current legs used visited found at p = p
        walk-keeps (suc hops) current legs used visited found at p =
            visit_legs-keeps (walk digest chain_id start edges hops) hops current legs used visited
              (legs_from edges current) found (walk-keeps hops) at (out_legs current) p
