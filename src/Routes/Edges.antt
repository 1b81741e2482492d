-- ===== src/Routes/Edges.antt =====
-- The table that `RouteGraph.__init__` builds: it can be built from pools of two different tokens,
-- and it lists exactly the crossings of the pools, each under the token that it starts from.
use flash_loan.Prelude.{
  ◌≡◌, refl, sym, inl, inr, false, Option, some, List, [], ◌∷◌, ◌++◌, Text, lower, lower-lower,
  text_eq, text_eq_iff, if◌then◌else◌, Eq_text, arith, subst, Bool-cases,
}
use flash_loan.Prelude.Dict.{lookup, insert, contains, lookup-insert}
use flash_loan.Prelude.Sort.{All, All-append, sort}
use flash_loan.Routes.{PoolRef, RouteLeg, make_leg}
use flash_loan.Routes.Graph.{Edges, append_leg, add_pool, add_pools, leg_less, sort_edges}
use flash_loan.Routes.Paths.{legs_from}
use flash_loan.Prelude.Succeeds.{Succeeds, bind-Succeeds}

-- The two tokens differ.
abbrev pub IsPair : PoolRef → Type 0
IsPair p = text_eq (lower p.token0) (lower p.token1) ≡ false

-- Every leg stands under the token that it starts from.
abbrev pub IsKeyed : Edges → Type 0
IsKeyed d = (t : Text) → All (λ l. l.token_in ≡ t) (legs_from d t)

abbrev pub crossing : PoolRef → Text → Text → RouteLeg
crossing p a b = record { pool = p; token_in = a; token_out = b }

-- A pool can be crossed from either of its tokens.
pub make_leg-forward :
    (p : PoolRef)
    → IsPair p
    → make_leg p (lower p.token0) (lower p.token1)
      ≡ some (crossing p (lower p.token0) (lower p.token1))
unfolding make_leg contains
make_leg-forward p pair =
    rw (lower-lower p.token0, lower-lower p.token1)
      (ground (
        arith,
        pair,
        text_eq_iff (lower p.token0) (lower p.token0),
        text_eq_iff (lower p.token1) (lower p.token1),
      ))

pub make_leg-backward :
    (p : PoolRef)
    → IsPair p
    → make_leg p (lower p.token1) (lower p.token0)
      ≡ some (crossing p (lower p.token1) (lower p.token0))
unfolding make_leg contains
make_leg-backward p pair =
    rw (lower-lower p.token0, lower-lower p.token1)
      (ground (
        arith,
        pair,
        text_eq_iff (lower p.token0) (lower p.token1),
        text_eq_iff (lower p.token1) (lower p.token0),
        text_eq_iff (lower p.token0) (lower p.token0),
        text_eq_iff (lower p.token1) (lower p.token1),
      ))

abbrev pub appended : Text → RouteLeg → Edges → Edges
appended t leg d = insert t (legs_from d t ++ leg ∷ []) d

pub legs_from-appended :
    (t u : Text) (leg : RouteLeg) (d : Edges)
    → legs_from (appended t leg d) u
      ≡ (if text_eq t u then legs_from d t ++ leg ∷ [] else legs_from d u)
legs_from-appended t u leg d = ground (arith, lookup-insert t u (legs_from d t ++ leg ∷ []) d)

appended-IsKeyed :
    (t : Text) (leg : RouteLeg) (d : Edges)
    → leg.token_in ≡ t
    → IsKeyed d
    → IsKeyed (appended t leg d)
appended-IsKeyed t leg d e k u = elim (Bool-cases (text_eq t u)) [
  | inl same ↦
      let tu = (text_eq_iff t u).0 same in
      rw (legs_from-appended t u leg d, same)
        (subst (λ (x : Text). All (λ l. l.token_in ≡ x) (legs_from d t ++ leg ∷ [])) tu
          (All-append (λ l. l.token_in ≡ t) (legs_from d t) leg (k t) e))
  | inr other ↦ rw (legs_from-appended t u leg d, other) (k u)
]

-- One crossing more.
append_leg-IsKeyed :
    (t : Text) (leg : RouteLeg) (o : Option RouteLeg) (d : Edges)
    → o ≡ some leg
    → leg.token_in ≡ t
    → IsKeyed d
    → Succeeds IsKeyed (append_leg t o d)
unfolding append_leg
append_leg-IsKeyed t leg o d e from k =
    subst (λ (x : Option RouteLeg). Succeeds IsKeyed (append_leg t x d)) (sym e)
      (appended-IsKeyed t leg d from k)

add_pool-IsKeyed :
    (p : PoolRef) (d : Edges) → IsPair p → IsKeyed d → Succeeds IsKeyed (add_pool p d)
unfolding add_pool
add_pool-IsKeyed p d pair k =
    bind-Succeeds IsKeyed IsKeyed
      (append_leg (lower p.token0) (make_leg p (lower p.token0) (lower p.token1)) d)
      (λ d'. append_leg (lower p.token1) (make_leg p (lower p.token1) (lower p.token0)) d')
      (append_leg-IsKeyed (lower p.token0) (crossing p (lower p.token0) (lower p.token1))
        (make_leg p (lower p.token0) (lower p.token1)) d (make_leg-forward p pair) refl k)
      (λ d' k'.
        append_leg-IsKeyed (lower p.token1) (crossing p (lower p.token1) (lower p.token0))
          (make_leg p (lower p.token1) (lower p.token0)) d' (make_leg-backward p pair) refl k')

pub add_pools-IsKeyed :
    (ps : List PoolRef) (d : Edges) → All IsPair ps → IsKeyed d → Succeeds IsKeyed (add_pools ps d)
unfolding add_pools
add_pools-IsKeyed [] d pairs k = k
add_pools-IsKeyed (p ∷ ps) d pairs k =
    bind-Succeeds IsKeyed IsKeyed (add_pool p d) (λ d'. add_pools ps d')
      (add_pool-IsKeyed p d pairs.0 k) (λ d' k'. add_pools-IsKeyed ps d' pairs.1 k')

module _ (digest : Text → Text) where
  pub legs_from-sort_edges :
      (d : Edges) (t : Text)
      → legs_from (sort_edges digest d) t ≡ sort (leg_less digest) (legs_from d t)
  unfolding sort_edges lookup
  legs_from-sort_edges [] t = unfold sort in refl
  legs_from-sort_edges ((u, legs) ∷ d) t = ground (arith, legs_from-sort_edges d t)
