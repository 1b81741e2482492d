-- ===== src/RouteQuote/Chains.antt =====
-- A quote of a route is a chain of the quotes of its legs.
use flash_loan.Prelude.{
  ◌≡◌, refl, ap, sym, ◌∙◌, true, List, [], ◌∷◌, ◌++◌, Text, Bool-cases, inl, inr, subst,
}
use mathlib.Core.List.{append-nil, append_assoc}
use flash_loan.Prelude.Int.{ℤ, pos, ◌+ℤ◌}
use flash_loan.Routes.{RouteLeg, RouteCandidate, route_id}
use flash_loan.RouteQuote.{
  VenueQuote, Result, ok, error, LegError, Registry, is_positive, quote_leg, RouteQuoteError,
  RouteQuote, Progress, advance, take_quote, quote_legs, quote_of, quote_route,
}

-- The gas of the quotes, added to a first number in order.
abbrev pub gas_sum : ℤ → List VenueQuote → ℤ
gas_sum g [] = g
gas_sum g (q ∷ qs) = gas_sum (g +ℤ q.gas_estimate) qs

module _ (registry : Registry) (block : ℤ) where
  -- Each leg is quoted on what the leg before it gives, and gives something; the last one gives `out`.
  abbrev pub IsChain : ℤ → List RouteLeg → List VenueQuote → ℤ → Type 0
  IsChain a [] [] out = a ≡ out
  IsChain a [] (q ∷ qs) out = ⊥
  IsChain a (l ∷ ls) [] out = ⊥
  IsChain a (l ∷ ls) (q ∷ qs) out =
      (quote_leg registry l.pool a l.token_in block ≡ ok q)
      × (is_positive q.amount_out ≡ true)
      × IsChain q.amount_out ls qs out

  -- A chain is quoted.
  quote_legs-chain :
      (ls : List RouteLeg) (qs : List VenueQuote) (p : Progress) (out : ℤ)
      → IsChain p.amount ls qs out
      → quote_legs registry block ls p
        ≡ ok (record { amount = out; quotes = p.quotes ++ qs; total_gas = gas_sum p.total_gas qs })
  unfolding quote_legs take_quote
  quote_legs-chain [] [] p out c = rw (sym c, append-nil p.quotes)
  quote_legs-chain [] (q ∷ qs) p out c = absurd c
  quote_legs-chain (l ∷ ls) [] p out c = absurd c
  quote_legs-chain (l ∷ ls) (q ∷ qs) p out c =
      rw (c.0, c.1)
        (quote_legs-chain ls qs (advance p q) out c.2
          ∙ ap
              (λ (xs : List VenueQuote).
                ok (record { amount = out; quotes = xs; total_gas = gas_sum p.total_gas (q ∷ qs) }))
              (append_assoc p.quotes (q ∷ []) qs))

  -- What is quoted is a chain.
  abbrev Quoted : List RouteLeg → Progress → Result RouteQuoteError Progress → Type 0
  Quoted ls p (error e) = Unit
  Quoted ls p (ok p') =
      (qs : List VenueQuote) × (p'.quotes ≡ p.quotes ++ qs)
      × (p'.total_gas ≡ gas_sum p.total_gas qs)
      × IsChain p.amount ls qs p'.amount

  Quoted-advance :
      (l : RouteLeg) (ls : List RouteLeg) (q : VenueQuote) (p : Progress)
      (r : Result RouteQuoteError Progress)
      → quote_leg registry l.pool p.amount l.token_in block ≡ ok q
      → is_positive q.amount_out ≡ true
      → Quoted ls (advance p q) r
      → Quoted (l ∷ ls) p r
  Quoted-advance l ls q p (error x) e good h = tt
  Quoted-advance l ls q p (ok p') e good (qs, same, gas, c) =
      (q ∷ qs, same ∙ append_assoc p.quotes (q ∷ []) qs, gas, (e, good, c))

  Quoted-take_quote :
      (l : RouteLeg) (ls : List RouteLeg) (o : Result LegError VenueQuote) (p : Progress)
      → quote_leg registry l.pool p.amount l.token_in block ≡ o
      → ((p' : Progress) → Quoted ls p' (quote_legs registry block ls p'))
      → Quoted (l ∷ ls) p (take_quote o l.pool.venue_id (quote_legs registry block ls) p)
  unfolding take_quote
  Quoted-take_quote l ls (error x) p e ih = tt
  Quoted-take_quote l ls (ok q) p e ih = elim (Bool-cases (is_positive q.amount_out)) [
    | inl good ↦ rw good (
        Quoted-advance l ls q p (quote_legs registry block ls (advance p q)) e good
          (ih (advance p q)))
    | inr bad ↦ rw bad tt
  ]

  quote_legs-Quoted :
      (ls : List RouteLeg) (p : Progress) → Quoted ls p (quote_legs registry block ls p)
  unfolding quote_legs
  quote_legs-Quoted [] p = ([], sym (append-nil p.quotes), refl, refl)
  quote_legs-Quoted (l ∷ ls) p =
      Quoted-take_quote l ls (quote_leg registry l.pool p.amount l.token_in block) p refl
        (quote_legs-Quoted ls)

  module _ (digest : Text → Text) (route : RouteCandidate) (amount_in_raw : ℤ) where
    -- What a quote of the route has to be; an exception is allowed.
    abbrev pub IsQuote : Result RouteQuoteError RouteQuote → Type 0
    IsQuote (error e) = Unit
    IsQuote (ok q) =
        (is_positive amount_in_raw ≡ true)
        × (q.route ≡ route_id digest route)
        × (q.amount_in_raw ≡ amount_in_raw)
        × (q.gas_estimate ≡ gas_sum (pos 0) q.leg_quotes)
        × IsChain amount_in_raw route.legs q.leg_quotes q.amount_out_raw

    -- A quote of a route has one quote for each leg, of the amount that the leg before it gives (the
    -- first leg's of the input, which is positive), all give a positive amount, the last one the
    -- amount of the route's quote, and the gas is the sum of theirs.
    pub quote_route-IsQuote : IsQuote (quote_route digest route amount_in_raw block registry)
    unfolding quote_route
    quote_route-IsQuote = elim (Bool-cases (is_positive amount_in_raw)) [
      | inl good ↦ rw good (
          from_legs good
            (quote_legs registry block route.legs
              (record { amount = amount_in_raw; quotes = []; total_gas = pos 0 }))
            (quote_legs-Quoted route.legs
              (record { amount = amount_in_raw; quotes = []; total_gas = pos 0 })))
      | inr bad ↦ rw bad tt
    ]
      where
        from_legs :
            is_positive amount_in_raw ≡ true
            → (r : Result RouteQuoteError Progress)
            → Quoted route.legs
                (record { amount = amount_in_raw; quotes = []; total_gas = pos 0 })
                r
            → IsQuote (quote_of digest route amount_in_raw block r)
        from_legs good (error e) h = tt
        from_legs good (ok p) (qs, same, gas, c) = (
          good,
          refl,
          refl,
          gas ∙ ap (gas_sum (pos 0)) (sym same),
          subst (λ (xs : List VenueQuote). IsChain amount_in_raw route.legs xs p.amount) (sym same)
              c,
        )

    -- Whenever the input is positive and the legs can be quoted one after the other, all with a
    -- positive amount, the route is quoted, with these quotes.
    pub quote_route-chain :
        (qs : List VenueQuote) (out : ℤ)
        → is_positive amount_in_raw ≡ true
        → IsChain amount_in_raw route.legs qs out
        → quote_route digest route amount_in_raw block registry
          ≡ ok (record {
            route = route_id digest route;
            block = block;
            amount_in_raw = amount_in_raw;
            amount_out_raw = out;
            gas_estimate = gas_sum (pos 0) qs;
            leg_quotes = qs;
          })
    unfolding quote_route
    quote_route-chain qs out good c = rw good (
        ap (quote_of digest route amount_in_raw block) (
          quote_legs-chain route.legs qs
            (record { amount = amount_in_raw; quotes = []; total_gas = pos 0 }) out c))
