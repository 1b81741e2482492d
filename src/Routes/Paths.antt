-- ===== src/Routes/Paths.antt =====
-- What a cycle of the graph is, and that `RouteCandidate` accepts every cycle of two or three legs.
use flash_loan.Prelude.{
  ℕ, ◌≤◌, ◌≡◌, refl, sym, ◌∙◌, true, ◌&&◌, not, some, List, [], ◌∷◌, ◌++◌, map, Text, lower,
  text_eq_iff, Eq_text, length, arith, subst,
}
use flash_loan.Prelude.Dict.{contains, contains-append, lookup}
use flash_loan.Prelude.Sort.{All, In}
use flash_loan.Swarm.Allocator.{get_list}
use flash_loan.Routes.{RouteLeg, contiguous, ends_at, no_repeats, leg_id, make_route}
use flash_loan.Routes.Graph.{Edges}

-- The legs lead from one token to another.
abbrev pub IsPath : Text → List RouteLeg → Text → Type 0
IsPath s [] t = s ≡ t
IsPath s (l ∷ ls) t = (l.token_in ≡ s) × IsPath l.token_out ls t

pub IsPath-append :
    (ls : List RouteLeg) (l : RouteLeg) (s t : Text)
    → IsPath s ls t
    → l.token_in ≡ t
    → IsPath s (ls ++ l ∷ []) l.token_out
IsPath-append [] l s t p e = (e ∙ sym p, refl)
IsPath-append (k ∷ ls) l s t p e = (p.0, IsPath-append ls l k.token_out t p.1 e)

-- The path after its first legs starts where these end.
pub IsPath-rest :
    (ls ks : List RouteLeg) (s c t : Text) → IsPath s ls c → IsPath s (ls ++ ks) t → IsPath c ks t
IsPath-rest [] ks s c t p q = subst (λ (x : Text). IsPath x ks t) p q
IsPath-rest (l ∷ ls) ks s c t p q = IsPath-rest ls ks l.token_out c t p.1 q.1

-- The tokens that the legs reach.
abbrev pub targets : List RouteLeg → List Text
targets ls = map (λ l. l.token_out) ls

-- The legs that the graph has out of a token.
abbrev pub legs_from : Edges → Text → List RouteLeg
legs_from edges token = get_list (lookup token edges)

module _ (digest : Text → Text) where
  abbrev pub leg_ids : List RouteLeg → List Text
  leg_ids ls = map (leg_id digest) ls

  -- A closed walk from `start` over legs of the graph, with no pool used twice and no token
  -- visited twice.
  pub record IsCycle (edges : Edges) (start : Text) (max_hops : ℕ) (legs : List RouteLeg)
      : Type 0 where
    pub closed : IsPath start legs start
    pub at_least : 2 ≤ length legs
    pub at_most : length legs ≤ max_hops
    pub pools_once : no_repeats (leg_ids legs) ≡ true
    pub tokens_once : no_repeats (targets legs) ≡ true
    pub known : All (λ l. In l (legs_from edges l.token_in)) legs

  IsPath-contiguous : (ls : List RouteLeg) (s t : Text) → IsPath s ls t → contiguous ls ≡ true
  unfolding contiguous
  IsPath-contiguous [] s t p = refl
  IsPath-contiguous (l ∷ []) s t p = refl
  IsPath-contiguous (l ∷ r ∷ ls) s t p = ground (
    arith,
    IsPath-contiguous (r ∷ ls) l.token_out t p.1,
    text_eq_iff l.token_out r.token_in,
    p.1.0,
  )

  IsPath-ends_at :
      (l : RouteLeg) (ls : List RouteLeg) (s t : Text)
      → IsPath s (l ∷ ls) t
      → ends_at t (l ∷ ls) ≡ true
  unfolding ends_at
  IsPath-ends_at l [] s t p = (text_eq_iff l.token_out t).1 p.1
  IsPath-ends_at l (r ∷ ls) s t p = IsPath-ends_at r ls l.token_out t p.1

  -- The constructor accepts a cycle.
  pub make_route-cycle :
      (chain_id : ℕ) (start : Text) (legs : List RouteLeg)
      → lower start ≡ start
      → IsPath start legs start
      → 2 ≤ length legs
      → length legs ≤ 3
      → no_repeats (leg_ids legs) ≡ true
      → make_route digest chain_id start legs
        ≡ some (record { chain_id = chain_id; start_asset = start; legs = legs })
  unfolding make_route
  make_route-cycle chain_id start [] low p two three once = absurd (omega arith)
  make_route-cycle chain_id start (l ∷ ls) low p two three once = ground (
    arith,
    IsPath-contiguous (l ∷ ls) start start p,
    IsPath-ends_at l ls start start p,
    text_eq_iff l.token_in start,
    p.0,
  )

pub no_repeats-snoc :
    (ks : List Text) (k : Text) → no_repeats (ks ++ k ∷ []) ≡ (no_repeats ks && not (contains ks k))
unfolding no_repeats contains
no_repeats-snoc [] k = refl
no_repeats-snoc (j ∷ ks) k =
    ground
      (arith, no_repeats-snoc ks k, contains-append ks (k ∷ []) j, text_eq_iff j k, text_eq_iff k j)
