-- ===== src/RpcPool/Health.antt =====
-- The pool's state: what `__init__` sets up and every call keeps, and what a call leaves alone.
use flash_loan.Prelude.{
  ℕ, ◌+◌, ◌≡◌, refl, true, false, ◌||◌, Option, none, some, List, [], ◌∷◌, ◌++◌, Text, Eq_text,
  text_eq_iff, arith, Bool-cases, inl, inr, ◌⊎◌, ◌∙◌, subst,
}
use flash_loan.Prelude.Dict.{
  Dict, lookup, insert, contains, Distinct, found, lookup-insert, append-Distinct,
}
use flash_loan.Prelude.Sort.{All}
use flash_loan.Prelude.Entries.{All-contains}
use mathlib.Core.Option.{some-injective}
use flash_loan.Float.{FloatOps}
use flash_loan.RpcPool.{
  strip, is_empty, collect, failover_eligible, Called, returned, rpc_error, other_error, Row,
  RpcPool, Rest, fresh_row, fresh_health, start, init, healed, cooled, settle, visit, try_endpoints,
  invoke,
}
use flash_loan.RpcPool.Failover.{HasRows, HasRows-insert}

collect-Distinct :
    (urls endpoints : List Text) → Distinct endpoints → Distinct (collect urls endpoints)
unfolding collect
collect-Distinct [] endpoints d = d
collect-Distinct (raw ∷ urls) endpoints d =
    elim (Bool-cases (is_empty (strip raw) || contains endpoints (strip raw))) [
      | inl skipped ↦ rw skipped (collect-Distinct urls endpoints d)
      | inr new ↦ rw new (
          collect-Distinct urls (endpoints ++ strip raw ∷ [])
            (append-Distinct endpoints (strip raw) d (ground arith)))
    ]

module _ (fl : FloatOps) where
  open fl use {Float, flt}

  -- No endpoint is listed twice, each has a row, and the current one is among them.
  pub record IsPool (p : RpcPool fl) : Type 0 where
    pub distinct : Distinct p.endpoints
    pub rows : HasRows fl p.health p.endpoints
    pub current : contains p.endpoints p.current_endpoint ≡ true

  fresh_health-found :
      (urls : List Text) (d : Dict Text (Row fl)) (u : Text)
      → found (lookup u (fresh_health fl urls d)) ≡ (contains urls u || found (lookup u d))
  unfolding fresh_health contains
  fresh_health-found [] d u = refl
  fresh_health-found (url ∷ urls) d u = ground (
    arith,
    fresh_health-found urls (insert url (fresh_row fl) d) u,
    lookup-insert url u (fresh_row fl) d,
  )

  HasRows-of :
      (h : Dict Text (Row fl)) (us : List Text)
      → ((u : Text) → contains us u ≡ true → found (lookup u h) ≡ true)
      → HasRows fl h us
  unfolding contains
  HasRows-of h [] f = tt
  HasRows-of h (u ∷ us) f =
      (f u (rw ((text_eq_iff u u).1 refl)), HasRows-of h us (λ v e. f v (ground (arith, e))))

  start-IsPool :
      (endpoints : List Text) (c : Float) {p : RpcPool fl}
      → Distinct endpoints
      → start fl endpoints c ≡ some p
      → IsPool p
  unfolding start
  start-IsPool [] c d e = absurd (cc)
  start-IsPool (url ∷ urls) c d e = subst IsPool (some-injective _ _ e) (record {
    distinct = d;
    rows =
        HasRows-of (fresh_health fl (url ∷ urls) []) (url ∷ urls)
          (λ u h. ground (arith, fresh_health-found (url ∷ urls) [] u, h));
    current = unfold contains in rw ((text_eq_iff url url).1 refl);
  })

  -- Whatever endpoints are configured, with blanks and repetitions, a pool that `__init__` makes
  -- lists no endpoint twice, has a health row for each, and starts at one of them.
  pub init-IsPool :
      (urls : List Text) (c : Float) {p : RpcPool fl} → init fl urls c ≡ some p → IsPool p
  unfolding init
  init-IsPool urls c e = start-IsPool (collect urls []) c (collect-Distinct urls [] tt) e

  -- What a call keeps of a pool: the endpoints, the cooldown, the invariant, and the rows of the
  -- endpoints that are cooling down.
  pub record Keeps (now : Float) (p q : RpcPool fl) : Type 0 where
    pub endpoints_same : q.endpoints ≡ p.endpoints
    pub cooldown_same : q.cooldown_s ≡ p.cooldown_s
    pub valid : IsPool q
    pub cooling_same :
        (u : Text) (row : Row fl)
        → lookup u p.health ≡ some row
        → flt now row.cooldown_until ≡ true
        → lookup u q.health ≡ some row

  Keeps-refl : (now : Float) (p : RpcPool fl) → IsPool p → Keeps now p p
  Keeps-refl now p v = record {
    endpoints_same = refl;
    cooldown_same = refl;
    valid = v;
    cooling_same = λ u row e c. e;
  }

  Keeps-trans : (now : Float) {p q r : RpcPool fl} → Keeps now p q → Keeps now q r → Keeps now p r
  Keeps-trans now k l = record {
    endpoints_same = l.endpoints_same ∙ k.endpoints_same;
    cooldown_same = l.cooldown_same ∙ k.cooldown_same;
    valid = l.valid;
    cooling_same = λ u row e c. l.cooling_same u row (k.cooling_same u row e c) c;
  }

  -- Writing the row of an endpoint that is not cooling down keeps all that.
  Keeps-insert :
      (now : Float) (p : RpcPool fl) (u : Text) (row new : Row fl) (current : Text)
      → IsPool p
      → lookup u p.health ≡ some row
      → flt now row.cooldown_until ≡ false
      → contains p.endpoints current ≡ true
      → Keeps now p (record p { health = insert u new p.health; current_endpoint = current })
  Keeps-insert now p u row new current v e ready c = record {
    endpoints_same = refl;
    cooldown_same = refl;
    valid = record {
      distinct = v.distinct;
      rows = HasRows-insert fl u new p.health p.endpoints v.rows;
      current = c;
    };
    cooling_same =
        λ w r f cooling. ground (arith, lookup-insert u w new p.health, text_eq_iff u w, e, f);
  }

  module _ {A : Type 0} (now : Float) (ends : List Text) where
    -- The rest of the loop keeps a pool over these endpoints.
    abbrev RestKeeps : Rest fl A → Type 0
    RestKeeps rest =
        (p : RpcPool fl) (n : ℕ) (last : Option Text)
        → p.endpoints ≡ ends
        → IsPool p
        → Keeps now p (rest p n last).1

    settle-Keeps :
        (called : Called A) (u : Text) (row : Row fl) (rest : Rest fl A) (p : RpcPool fl) (n : ℕ)
        → p.endpoints ≡ ends
        → IsPool p
        → lookup u p.health ≡ some row
        → flt now row.cooldown_until ≡ false
        → contains p.endpoints u ≡ true
        → RestKeeps rest
        → Keeps now p (settle fl now called u row rest p n).1
    unfolding settle
    settle-Keeps (returned x) u row rest p n s v e ready c ih =
        Keeps-insert now p u row (healed fl row) u v e ready c
    settle-Keeps (rpc_error m) u row rest p n s v e ready c ih =
        elim (Bool-cases (failover_eligible m)) [
          | inl again ↦
              let k =
                Keeps-insert now p u row (cooled fl now p.cooldown_s row m) p.current_endpoint v e
                  ready v.current in
              rw again (
                Keeps-trans now k (
                  ih (record p { health = insert u (cooled fl now p.cooldown_s row m) p.health })
                    (n + 1) (some m) s k.valid))
          | inr stop ↦ rw stop (Keeps-refl now p v)
        ]
    settle-Keeps (other_error m) u row rest p n s v e ready c ih = Keeps-refl now p v

    visit-Keeps :
        (o : Option (Row fl)) (called : Called A) (u : Text) (rest : Rest fl A) (p : RpcPool fl)
        (n : ℕ) (last : Option Text)
        → p.endpoints ≡ ends
        → IsPool p
        → lookup u p.health ≡ o
        → contains p.endpoints u ≡ true
        → RestKeeps rest
        → Keeps now p (visit fl now o called u rest p n last).1
    unfolding visit
    visit-Keeps none called u rest p n last s v e c ih = Keeps-refl now p v
    visit-Keeps (some row) called u rest p n last s v e c ih =
        elim (Bool-cases (flt now row.cooldown_until)) [
          | inl cooling ↦ rw cooling (ih p n last s v)
          | inr ready ↦ rw ready (settle-Keeps called u row rest p n s v e ready c ih)
        ]

    try_endpoints-Keeps :
        (call : Text → Called A) (us : List Text)
        → All (λ u. contains ends u ≡ true) us
        → RestKeeps (try_endpoints fl now call us)
    unfolding try_endpoints
    try_endpoints-Keeps call [] all p n last s v = Keeps-refl now p v
    try_endpoints-Keeps call (u ∷ us) all p n last s v =
        visit-Keeps (lookup u p.health) (call u) u (try_endpoints fl now call us) p n last s v refl
          (rw s all.0) (try_endpoints-Keeps call us all.1)

  invoke-Keeps :
      {A : Type 0} (now : Float) (call : Text → Called A) (p : RpcPool fl)
      → IsPool p
      → Keeps now p (invoke fl now call p).1
  unfolding invoke
  invoke-Keeps now call p v =
      try_endpoints-Keeps now p.endpoints call p.endpoints (All-contains p.endpoints) p 0 none refl
        v

  -- From a row before to one after: a row that is cooling down is the same.
  abbrev pub Rests : Float → Option (Row fl) → Option (Row fl) → Type 0
  Rests now none after = Unit
  Rests now (some row) after = (flt now row.cooldown_until ≡ false) ⊎ (after ≡ some row)

  Keeps-Rests :
      (now : Float) (p q : RpcPool fl) (u : Text) (o : Option (Row fl))
      → lookup u p.health ≡ o
      → Keeps now p q
      → Rests now o (lookup u q.health)
  Keeps-Rests now p q u none e k = tt
  Keeps-Rests now p q u (some row) e k = elim (Bool-cases (flt now row.cooldown_until)) [
    | inl cooling ↦ inr (k.cooling_same u row e cooling)
    | inr ready ↦ inl ready
  ]

  -- Whatever the clients answer, a call on a well-formed pool keeps it well formed, with the same
  -- endpoints and cooldown; the row of any endpoint is unchanged if that endpoint is cooling down.
  pub invoke-keeps_cooling :
      {A : Type 0} (now : Float) (call : Text → Called A) (p : RpcPool fl) (u : Text)
      → IsPool p
      → IsPool (invoke fl now call p).1
        × ((invoke fl now call p).1.endpoints ≡ p.endpoints)
        × ((invoke fl now call p).1.cooldown_s ≡ p.cooldown_s)
        × Rests now (lookup u p.health) (lookup u (invoke fl now call p).1.health)
  invoke-keeps_cooling now call p u v =
      let k = invoke-Keeps now call p v in
      (
        k.valid,
        k.endpoints_same,
        k.cooldown_same,
        Keeps-Rests now p (invoke fl now call p).1 u (lookup u p.health) refl k,
      )
