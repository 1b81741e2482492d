-- ===== src/Routes/Completeness.antt =====
-- The search misses no cycle.
use mathlib.Core.List.{append_assoc, map-append}
use flash_loan.Prelude.{
  ℕ, zero, suc, ◌≤◌, ◌≡◌, refl, ap, sym, ◌∙◌, true, false, ◌&&◌, List, [], ◌∷◌, ◌++◌, map, Text,
  lower, lower-lower, text_eq, text_eq_iff, leb, Eq_text, length, length-append, arith, subst, inl,
  inr,
}
use flash_loan.Prelude.Dict.{contains, keys, Distinct, contains-append, contains-keys-insert}
use flash_loan.Prelude.Sort.{All, In, sort}
use flash_loan.Prelude.Entries.{contains-sort}
use flash_loan.Swarm.Allocator.{text_lt}
use flash_loan.Routes.{RouteLeg, RouteCandidate, leg_id, route_id, no_repeats}
use flash_loan.Routes.Graph.{
  Edges, Found, Walk, RouteGraph, visit_leg, visit_legs, walk, pick, enumerate_cycles,
}
use flash_loan.Routes.Paths.{IsPath, IsPath-rest, IsCycle, targets, leg_ids, legs_from}
use flash_loan.Routes.Edges.{IsKeyed}
use flash_loan.Prelude.Succeeds.{Succeeds, bind-Succeeds, Succeeds-imp, Succeeds-both}
use flash_loan.Routes.Walks.{
  IsAt, step-IsAt, add_cycle, IsStable, Keeping, walk-keeps, visit_leg-keeps, visit_legs-keeps,
  out_legs, route_of, add_route-cycle,
}
use flash_loan.Routes.Soundness.{start-IsAt, IsFound, IsFound-IsStable, picked, IsRoute}

no_repeats-middle :
    (ks js : List Text) (k : Text)
    → no_repeats (ks ++ k ∷ js) ≡ true
    → (contains ks k ≡ false) × (contains js k ≡ false)
unfolding no_repeats contains
no_repeats-middle [] js k h = ground (arith, h)
no_repeats-middle (i ∷ ks) js k h = ground (
  arith,
  h,
  no_repeats-middle ks js k,
  contains-append ks (k ∷ js) i,
  text_eq_iff i k,
  text_eq_iff k i,
)

All-middle : {A : Type 0} (P : A → Type 0) (xs ys : List A) (x : A) → All P (xs ++ x ∷ ys) → P x
All-middle P [] ys x h = h.0
All-middle P (y ∷ xs) ys x h = All-middle P xs ys x h.1

-- A path of one leg or more reaches its end.
IsPath-target :
    (l : RouteLeg) (ls : List RouteLeg) (s t : Text)
    → IsPath s (l ∷ ls) t
    → contains (targets (l ∷ ls)) t ≡ true
unfolding contains
IsPath-target l [] s t p = ground (arith, (text_eq_iff l.token_out t).1 p.1)
IsPath-target l (m ∷ ls) s t p = ground (arith, IsPath-target m ls l.token_out t p.1)

module _ (digest : Text → Text) (edges : Edges) (start : Text) (max_hops chain_id : ℕ)
    (low : lower start ≡ start) (three : max_hops ≤ 3)
    (ends : (t : Text) → All (λ l. l.token_in ≡ t) (legs_from edges t)) (goal : List RouteLeg)
    (cycle : IsCycle digest edges start max_hops goal) where
  -- The id of the cycle is among those found.
  abbrev Has : Found → Type 0
  Has d =
      contains (keys d) (route_id digest (route_of digest edges start max_hops chain_id goal))
      ≡ true

  Has-IsStable : IsStable digest edges start max_hops chain_id Has
  Has-IsStable legs d c h =
      let r = route_of digest edges start max_hops chain_id legs in
      ground (
        arith,
        h,
        contains-keys-insert (route_id digest r)
            (route_id digest (route_of digest edges start max_hops chain_id goal)) r d,
      )

  Has-add : (d : Found) → Has (add_cycle digest edges start max_hops chain_id goal d)
  Has-add d =
      let r = route_of digest edges start max_hops chain_id goal in
      ground (
        arith,
        contains-keys-insert (route_id digest r) (route_id digest r) r d,
        text_eq_iff (route_id digest r) (route_id digest r),
      )

  -- Where the search stands on its way along the cycle, with `rest` still to go.
  module _ {hops : ℕ} {current : Text} {legs : List RouteLeg} {used visited : List Text}
      (at : IsAt digest edges start max_hops (suc hops) current legs used visited) (leg : RouteLeg)
      (rest : List RouteLeg) (split : legs ++ leg ∷ rest ≡ goal) where
    onward : IsPath current (leg ∷ rest) start
    onward =
        IsPath-rest legs (leg ∷ rest) start current start at.path
          (subst (λ (ls : List RouteLeg). IsPath start ls start) (sym split) cycle.closed)

    unused : contains used (leg_id digest leg) ≡ false
    unused =
        at.used_same (leg_id digest leg)
        ∙ (no_repeats-middle (leg_ids digest legs) (leg_ids digest rest) (leg_id digest leg) (
            ap no_repeats
              (sym (map-append (leg_id digest) legs (leg ∷ rest)) ∙ ap (leg_ids digest) split)
            ∙ cycle.pools_once)).0

    once :
        (contains (targets legs) leg.token_out ≡ false)
        × (contains (targets rest) leg.token_out ≡ false)
    once = no_repeats-middle (targets legs) (targets rest) leg.token_out (
        ap no_repeats
          (sym (map-append (λ (l : RouteLeg). l.token_out) legs (leg ∷ rest)) ∙ ap targets split)
        ∙ cycle.tokens_once)

    out : In leg (legs_from edges current)
    out =
        subst (λ (t : Text). In leg (legs_from edges t)) onward.0
          (All-middle (λ l. In l (legs_from edges l.token_in)) legs rest leg
            (subst (λ (ls : List RouteLeg). All (λ l. In l (legs_from edges l.token_in)) ls)
              (sym split) cycle.known))

    -- Before its last leg the cycle goes to a token that was not visited yet.
    module _ (m : RouteLeg) (ms : List RouteLeg) (more : rest ≡ m ∷ ms) where
      not_home : text_eq leg.token_out start ≡ false
      not_home = ground (
        arith,
        (text_eq_iff leg.token_out start).0,
        subst (λ (ls : List RouteLeg). contains (targets ls) leg.token_out ≡ false) more once.1,
        IsPath-target m ms leg.token_out start
            (subst (λ (ls : List RouteLeg). IsPath leg.token_out ls start) more onward.1),
      )

      not_visited : contains visited leg.token_out ≡ false
      not_visited = ground (
        arith,
        at.visited_same leg.token_out,
        once.0,
        not_home,
        text_eq_iff start leg.token_out,
        text_eq_iff leg.token_out start,
      )

      visit_leg-onward :
          (next : Walk) (d : Found)
          → Succeeds Has (
              next leg.token_out
                (legs ++ leg ∷ [])
                (leg_id digest leg ∷ used)
                (leg.token_out ∷ visited)
                d)
          → Succeeds Has (visit_leg digest chain_id start next legs used visited leg d)
      unfolding visit_leg
      visit_leg-onward next d h = rw (unused, not_home, not_visited) h

    -- The last leg of the cycle adds it.
    visit_leg-last :
        (next : Walk) (d : Found)
        → rest ≡ []
        → Succeeds Has (visit_leg digest chain_id start next legs used visited leg d)
    unfolding visit_leg
    visit_leg-last next d last =
        let whole = subst (λ (ls : List RouteLeg). legs ++ leg ∷ ls ≡ goal) last split in
        let home : text_eq leg.token_out start ≡ true =
          (text_eq_iff leg.token_out start).1
            (subst (λ (ls : List RouteLeg). IsPath leg.token_out ls start) last onward.1) in
        let two : leb 2 (length (legs ++ leg ∷ [])) ≡ true =
          rw whole (ground (arith, cycle.at_least)) in
        rw
          (
            unused,
            home,
            two,
            whole,
            add_route-cycle digest edges start max_hops chain_id low three goal d cycle,
          )
          (Has-add d)

  -- The loop over the legs out of a token does what one of them does, from whatever was found.
  visit_legs-Has :
      (next : Walk) (hops : ℕ) (current : Text) (legs : List RouteLeg) (used visited : List Text)
      (leg : RouteLeg) (ls : List RouteLeg) (d : Found)
      → ((P : Found → Type 0) (stable : IsStable digest edges start max_hops chain_id P)
          → Keeping digest edges start max_hops chain_id low three ends P stable hops next)
      → IsAt digest edges start max_hops (suc hops) current legs used visited
      → All (λ l. (l.token_in ≡ current) × In l (legs_from edges current)) ls
      → In leg ls
      → ((d' : Found)
          → Succeeds Has (visit_leg digest chain_id start next legs used visited leg d'))
      → Succeeds Has (visit_legs digest chain_id start next legs used visited ls d)
  unfolding visit_legs
  visit_legs-Has next hops current legs used visited leg [] d keeps at all i hit = absurd i
  visit_legs-Has next hops current legs used visited leg (l ∷ ls) d keeps at all (inl e) hit =
      bind-Succeeds Has Has (visit_leg digest chain_id start next legs used visited l d)
        (λ d'. visit_legs digest chain_id start next legs used visited ls d') (rw e (hit d))
        (λ d' h.
          visit_legs-keeps digest edges start max_hops chain_id low three ends Has Has-IsStable next
            hops current legs used visited ls d' (keeps Has Has-IsStable) at all.1 h)
  visit_legs-Has next hops current legs used visited leg (l ∷ ls) d keeps at all (inr i) hit =
      bind-Succeeds (λ d'. Unit) Has (visit_leg digest chain_id start next legs used visited l d)
        (λ d'. visit_legs digest chain_id start next legs used visited ls d')
        (visit_leg-keeps digest edges start max_hops chain_id low three ends (λ d'. Unit)
          (λ ls' d' c u. tt) next hops current legs used visited l d
          (keeps (λ d'. Unit) (λ ls' d' c u. tt)) at all.0.0 all.0.1 tt)
        (λ d' u. visit_legs-Has next hops current legs used visited leg ls d' keeps at all.1 i hit)

  -- A walk that stands on the cycle does what its next leg does.
  along :
      (hops : ℕ) {current : Text} {legs : List RouteLeg} {used visited : List Text}
      (at : IsAt digest edges start max_hops (suc hops) current legs used visited) (leg : RouteLeg)
      (rest : List RouteLeg) (split : legs ++ leg ∷ rest ≡ goal) (d : Found)
      → ((d' : Found)
          → Succeeds Has (
              visit_leg digest chain_id start
                (walk digest chain_id start edges hops)
                legs
                used
                visited
                leg
                d'))
      → Succeeds Has (walk digest chain_id start edges (suc hops) current legs used visited d)
  unfolding walk
  along hops {current = current} {legs = legs} {used = used} {visited = visited} at leg rest split d
        hit =
      visit_legs-Has (walk digest chain_id start edges hops) hops current legs used visited leg
        (legs_from edges current) d
        (λ P stable. walk-keeps digest edges start max_hops chain_id low three ends P stable hops)
        at (out_legs digest edges start max_hops chain_id low three ends Has Has-IsStable current)
        (out at leg rest split) hit

  -- The search finds the cycle from every point on it.
  walk-Has :
      (rest : List RouteLeg) (leg : RouteLeg) (hops : ℕ) (current : Text) (legs : List RouteLeg)
      (used visited : List Text) (d : Found)
      → IsAt digest edges start max_hops hops current legs used visited
      → legs ++ leg ∷ rest ≡ goal
      → Succeeds Has (walk digest chain_id start edges hops current legs used visited d)
  walk-Has rest leg zero current legs used visited d at split =
      absurd
        (omega (arith, at.room, cycle.at_most, ap length split, length-append legs (leg ∷ rest)))
  walk-Has [] leg (suc hops) current legs used visited d at split =
      along hops at leg [] split d
        (λ d'. visit_leg-last at leg [] split (walk digest chain_id start edges hops) d' refl)
  walk-Has (m ∷ ms) leg (suc hops) current legs used visited d at split =
      along hops at leg (m ∷ ms) split d (λ d'.
        visit_leg-onward at leg (m ∷ ms) split m ms refl (walk digest chain_id start edges hops) d'
          (walk-Has ms m hops leg.token_out (legs ++ leg ∷ []) (leg_id digest leg ∷ used)
            (leg.token_out ∷ visited) d'
            (step-IsAt digest edges start max_hops at leg (onward at leg (m ∷ ms) split).0
              (out at leg (m ∷ ms) split) (unused at leg (m ∷ ms) split)
              (not_visited at leg (m ∷ ms) split m ms refl))
            (append_assoc legs (leg ∷ []) (m ∷ ms) ∙ split)))

module _ (digest : Text → Text) (g : RouteGraph digest) (start_asset : Text) (max_hops : ℕ) where
  -- The route that a cycle from the asset makes.
  abbrev pub cycle_route : List RouteLeg → RouteCandidate
  cycle_route legs = record { chain_id = g.chain_id; start_asset = lower start_asset; legs = legs }

  -- With a limit of two or three hops, on a graph whose legs stand under the tokens that they start
  -- from, the search returns a route with the id of every cycle of the graph from the asset within
  -- the limit.
  pub enumerate_cycles_complete :
      (legs : List RouteLeg)
      → IsKeyed g.edges
      → 2 ≤ max_hops
      → max_hops ≤ 3
      → IsCycle digest g.edges (lower start_asset) max_hops legs
      → Succeeds
          (λ rs. contains (map (route_id digest) rs) (route_id digest (cycle_route legs)) ≡ true)
          (enumerate_cycles digest g start_asset max_hops)
  unfolding enumerate_cycles
  enumerate_cycles_complete [] keyed two three c = absurd (omega (arith, c.at_least))
  enumerate_cycles_complete (leg ∷ rest) keyed two three c =
      let start = lower start_asset in
      let low = lower-lower start_asset in
      let Good = λ (rs : List RouteCandidate).
        contains (map (route_id digest) rs) (route_id digest (cycle_route (leg ∷ rest))) ≡ true in
      let Known =
        λ (d : Found). contains (keys d) (route_id digest (cycle_route (leg ∷ rest))) ≡ true in
      let bounds : (leb 2 max_hops && leb max_hops 3) ≡ true = ground arith in
      let search = walk digest g.chain_id start g.edges max_hops start [] [] (start ∷ []) [] in
      let at = start-IsAt digest g.edges start max_hops in
      rw bounds (
        bind-Succeeds (λ d. IsFound digest g start max_hops d × Known d) Good search
          (λ d. pick digest (sort text_lt (keys d)) d)
          (Succeeds-both (IsFound digest g start max_hops) Known search
            (walk-keeps digest g.edges start max_hops g.chain_id low three keyed
              (IsFound digest g start max_hops) (IsFound-IsStable digest g start max_hops) max_hops
              start [] [] (start ∷ []) [] at (tt, tt))
            (walk-Has digest g.edges start max_hops g.chain_id low three keyed (leg ∷ rest) c rest
              leg max_hops start [] [] (start ∷ []) [] at refl))
          (λ d h.
            Succeeds-imp
              (λ rs.
                All (IsRoute digest g start max_hops) rs
                × (map (route_id digest) rs ≡ sort text_lt (keys d))
                × Distinct (map (route_id digest) rs))
              Good (pick digest (sort text_lt (keys d)) d) (picked digest g start max_hops d h.0)
              (λ rs q.
                rw
                  (q.1, contains-sort text_lt (keys d) (route_id digest (cycle_route (leg ∷ rest))))
                  h.1)))
