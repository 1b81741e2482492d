-- ===== src/RpcPool/Failover.antt =====
-- What `_invoke` answers: that of the first endpoint, in order and not cooling down, whose answer
-- is not a failure to fail over from.
use flash_loan.Prelude.{
  ℕ, ◌+◌, ◌≡◌, refl, Bool, true, false, not, Option, none, some, List, [], ◌∷◌, Text, ◌==◌,
  if◌then◌else◌, Eq_text, text_eq_iff, arith, Bool-cases, inl, inr, ap, ◌∙◌,
}
use flash_loan.Prelude.Dict.{Dict, lookup, insert, contains, Distinct, found, lookup-insert}
use flash_loan.Prelude.Sort.{All, keep}
use flash_loan.Float.{FloatOps}
use flash_loan.RpcPool.{
  failover_eligible, Called, returned, rpc_error, other_error, Invoked, value, raised, raised_other,
  cooling_down, all_failed, Row, RpcPool, Rest, cooled, settle, visit, try_endpoints, invoke,
}

module _ (fl : FloatOps) where
  open fl use {Float, flt}

  -- The endpoint has a row and is not cooling down.
  abbrev pub row_ready : Float → Option (Row fl) → Bool
  row_ready now none = false
  row_ready now (some row) = not (flt now row.cooldown_until)

  abbrev pub is_ready : Float → Dict Text (Row fl) → Text → Bool
  is_ready now health url = row_ready now (lookup url health)

  -- Every endpoint has a row.
  abbrev pub HasRows : Dict Text (Row fl) → List Text → Type 0
  HasRows health = All (λ url. found (lookup url health) ≡ true)

  -- Writing the row of another endpoint changes neither.
  keep-ready-insert :
      (now : Float) (url : Text) (row : Row fl) (h : Dict Text (Row fl)) (us : List Text)
      → contains us url ≡ false
      → keep (is_ready now (insert url row h)) us ≡ keep (is_ready now h) us
  unfolding contains
  keep-ready-insert now url row h [] new = refl
  keep-ready-insert now url row h (u ∷ us) new = ground (
    arith,
    keep-ready-insert now url row h us,
    lookup-insert url u row h,
    text_eq_iff url u,
    text_eq_iff u url,
  )

  pub HasRows-insert :
      (url : Text) (row : Row fl) (h : Dict Text (Row fl)) (us : List Text)
      → HasRows h us
      → HasRows (insert url row h) us
  HasRows-insert url row h [] all = tt
  HasRows-insert url row h (u ∷ us) all =
      (ground (arith, all.0, lookup-insert url u row h), HasRows-insert url row h us all.1)

  -- A client's answer, and the answer of the endpoints after it for a failure.
  abbrev pub answer_of : {A : Type 0} → Called A → (Option Text → Invoked A) → Invoked A
  answer_of (returned x) later = value x
  answer_of (rpc_error m) later = if failover_eligible m then later (some m) else raised m
  answer_of (other_error m) later = raised_other m

  module _ {A : Type 0} (call : Text → Called A) where
    -- The answer of the endpoints that are tried, in order, with the last failure.
    abbrev pub answer : List Text → Option Text → Invoked A
    answer [] last = all_failed last
    answer (url ∷ urls) last = answer_of (call url) (answer urls)

    abbrev pub first_answer : List Text → Invoked A
    first_answer [] = cooling_down
    first_answer (url ∷ urls) = answer (url ∷ urls) none

    abbrev expected : ℕ → Option Text → List Text → Invoked A
    expected n last [] = if n == 0 then cooling_down else all_failed last
    expected n last (url ∷ urls) = answer (url ∷ urls) last

    expected_later :
        (n : ℕ) (last : Option Text) (urls : List Text)
        → expected (n + 1) last urls ≡ answer urls last
    expected_later n last [] = ground arith
    expected_later n last (url ∷ urls) = refl

    -- The rest of the loop answers as expected, from any pool.
    abbrev Answers : Float → Rest fl A → List Text → Type 0
    Answers now rest us =
        (p : RpcPool fl) (n : ℕ) (last : Option Text)
        → HasRows p.health us
        → (rest p n last).0 ≡ expected n last (keep (is_ready now p.health) us)

    settle-answer :
        (now : Float) (called : Called A) (u : Text) (us : List Text) (row : Row fl)
        (rest : Rest fl A) (p : RpcPool fl) (n : ℕ)
        → contains us u ≡ false
        → HasRows p.health us
        → Answers now rest us
        → (settle fl now called u row rest p n).0
          ≡ answer_of called (answer (keep (is_ready now p.health) us))
    unfolding settle
    settle-answer now (returned x) u us row rest p n new rows ih = refl
    settle-answer now (rpc_error m) u us row rest p n new rows ih =
        elim (Bool-cases (failover_eligible m)) [
          | inl again ↦
              let row' = cooled fl now p.cooldown_s row m in
              let p' = record p { health = insert u row' p.health } in
              rw again (
                ih p' (n + 1) (some m) (HasRows-insert u row' p.health us rows)
                ∙ expected_later n (some m) (keep (is_ready now p'.health) us)
                ∙ ap (λ (l : List Text). answer l (some m))
                    (keep-ready-insert now u row' p.health us new))
          | inr stop ↦ rw stop
        ]
    settle-answer now (other_error m) u us row rest p n new rows ih = refl

    visit-answer :
        (now : Float) (o : Option (Row fl)) (u : Text) (us : List Text) (rest : Rest fl A)
        (p : RpcPool fl) (n : ℕ) (last : Option Text)
        → found o ≡ true
        → contains us u ≡ false
        → HasRows p.health us
        → Answers now rest us
        → (visit fl now o (call u) u rest p n last).0
          ≡ expected n last (
              if row_ready now o
              then u ∷ keep (is_ready now p.health) us
              else keep (is_ready now p.health) us)
    unfolding visit
    visit-answer now none u us rest p n last k new rows ih = absurd (cc)
    visit-answer now (some row) u us rest p n last k new rows ih =
        elim (Bool-cases (flt now row.cooldown_until)) [
          | inl cooling ↦ rw cooling (ih p n last rows)
          | inr ready ↦ rw ready (settle-answer now (call u) u us row rest p n new rows ih)
        ]

    try_endpoints-answer :
        (now : Float) (us : List Text) → Distinct us → Answers now (try_endpoints fl now call us) us
    unfolding try_endpoints
    try_endpoints-answer now [] d p n last rows = refl
    try_endpoints-answer now (u ∷ us) d p n last rows =
        visit-answer now (lookup u p.health) u us (try_endpoints fl now call us) p n last rows.0 d.0
          rows.1 (try_endpoints-answer now us d.1)

    -- `_invoke` answers as the first endpoint that is not cooling down and whose answer is not an
    -- error to fail over from: its value, or its error. If all of these fail, it raises with the
    -- last error, and if there is none of them, with another. It never misses a health row.
    pub invoke-answer :
        (now : Float) (p : RpcPool fl)
        → Distinct p.endpoints
        → HasRows p.health p.endpoints
        → (invoke fl now call p).0 ≡ first_answer (keep (is_ready now p.health) p.endpoints)
    unfolding invoke
    invoke-answer now p d rows =
        try_endpoints-answer now p.endpoints d p 0 none rows
        ∙ at_start (keep (is_ready now p.health) p.endpoints)
      where
        at_start : (urls : List Text) → expected 0 none urls ≡ first_answer urls
        at_start [] = refl
        at_start (url ∷ urls) = refl
