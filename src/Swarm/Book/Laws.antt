-- ===== src/Swarm/Book/Laws.antt =====
-- The book holds one positive candidate for each block and route, and ranks them by expected net.
use mathlib.Core.List.{Perm}
use flash_loan.Prelude.{
  ℕ, ◌+◌, ◌≡◌, refl, Bool, true, false, ◌&&◌, not, Option, none, some, List, [], ◌∷◌, Text,
  if◌then◌else◌, Eq_key, Eq_nat, Eq_text, arith, Bool-cases, inl, inr, length, length-append,
  Option-cases,
}
use flash_loan.Prelude.Dict.{lookup, Distinct, keys, values, found, insert_new, insert-Distinct}
use flash_loan.Prelude.Sort.{
  All, All-append, All-imp, keep, IsSorted, sort-perm, sort-IsSorted, keep-sort,
}
use flash_loan.Float.{FloatOps, IsFloatOrder, le_of_not_lt, not_lt_of_le, not_lt_of_lt}
use flash_loan.Swarm.Book.{
  BookKey, SwarmCandidate, Book, key_of, add, better, ranked, Row, candidate_from_row, fill_one,
  fill,
}

module _ (fl : FloatOps) where
  open fl use {Float, zero_f, flt, fle}

  -- The entry is positive and stands under its own key.
  abbrev pub IsEntry : BookKey × SwarmCandidate fl → Type 0
  IsEntry (k, c) = (k ≡ key_of fl c) × (fle c.expected_net zero_f ≡ false)

  -- Keys are distinct, and every entry is positive and under its own key.
  abbrev pub IsBook : Book fl → Type 0
  IsBook s = Distinct (keys s) × All IsEntry s

  -- Adding a candidate keeps the book well formed, on every branch.
  pub add-IsBook : (c : SwarmCandidate fl) (s : Book fl) → IsBook s → IsBook (add fl c s).1
  unfolding add
  add-IsBook c s h = elim (Bool-cases (fle c.expected_net zero_f)) [
    | inl bad ↦ rw bad h
    | inr good ↦ elim (Option-cases (lookup (key_of fl c) s)) [
      | inl new ↦
          rw (good, new)
            (
              insert-Distinct (key_of fl c) c s h.0,
              rw (insert_new (key_of fl c) c s new)
                  (All-append IsEntry s (key_of fl c, c) h.1 (refl, good)),
            )
      | inr (old, e) ↦ rw (good, e) h
    ]
  ]

  pub fill_one-IsBook :
      (o : Option (SwarmCandidate fl)) (acc : Book fl × ℕ)
      → IsBook acc.0
      → IsBook (fill_one fl o acc).0
  unfolding fill_one
  fill_one-IsBook none acc h = h
  fill_one-IsBook (some c) acc h = add-IsBook c acc.0 h

  length-add :
      (c : SwarmCandidate fl) (s : Book fl)
      → length (add fl c s).1 ≡ length s + (if (add fl c s).0 then 1 else 0)
  unfolding add
  length-add c s = ground (
    arith,
    Option-cases (lookup (key_of fl c) s),
    insert_new (key_of fl c) c s,
    length-append s ((key_of fl c, c) ∷ []),
  )

  pub length-fill_one :
      (o : Option (SwarmCandidate fl)) (acc : Book fl × ℕ)
      → length (fill_one fl o acc).0 + (fill_one fl o acc).1
        ≡ length acc.0 + acc.1 + (if found o then 1 else 0)
  unfolding fill_one
  length-fill_one none acc = omega arith
  length-fill_one (some c) acc = ground (arith, length-add c acc.0)

  module _ (digest : ℕ → Text → Float → Text) (now : Float) where
    -- However the rows of a scan repeat routes or come out unprofitable, the book that they fill
    -- has one entry for each block and route, all with a positive expected net.
    pub fill-IsBook :
        (rows : List (Row fl)) (acc : Book fl × ℕ)
        → IsBook acc.0
        → IsBook (fill fl digest now rows acc).0
    unfolding fill
    fill-IsBook [] acc h = h
    fill-IsBook (row ∷ rows) acc h =
        fill-IsBook rows (fill_one fl (candidate_from_row fl digest now row) acc)
          (fill_one-IsBook (candidate_from_row fl digest now row) acc h)

    -- The rows that yield a candidate.
    abbrev pub candidates : List (Row fl) → ℕ
    candidates [] = 0
    candidates (row ∷ rows) =
        candidates rows + (if found (candidate_from_row fl digest now row) then 1 else 0)

    -- No candidate is lost: each is in the book or counted as a suppressed duplicate.
    pub length-fill :
        (rows : List (Row fl)) (acc : Book fl × ℕ)
        → length (fill fl digest now rows acc).0 + (fill fl digest now rows acc).1
          ≡ length acc.0 + acc.1 + candidates rows
    unfolding fill
    length-fill [] acc = omega arith
    length-fill (row ∷ rows) acc =
        let o = candidate_from_row fl digest now row in
        omega (arith, length-fill_one o acc, length-fill rows (fill_one fl o acc))

  -- No candidate is followed by one of a greater expected net.
  abbrev pub Falls : List (SwarmCandidate fl) → Type 0
  Falls [] = Unit
  Falls (c ∷ cs) =
      All (λ (e : SwarmCandidate fl). fle e.expected_net c.expected_net ≡ true) cs × Falls cs

  -- Neither net is less than the other.
  abbrev pub same_net : Float → SwarmCandidate fl → Bool
  same_net v c = not (flt c.expected_net v) && not (flt v c.expected_net)

  module _ (o : IsFloatOrder fl) where
    better_trans :
        (x y z : SwarmCandidate fl)
        → better fl y x ≡ false
        → better fl z y ≡ false
        → better fl z x ≡ false
    better_trans x y z h k =
        let a = x.expected_net in
        let b = y.expected_net in
        let c = z.expected_net in
        not_lt_of_le o c a (o.le_trans_f c b a (le_of_not_lt o c b k) (le_of_not_lt o b a h))

    alike :
        (v : Float) (x y : SwarmCandidate fl)
        → same_net v x ≡ true
        → same_net v y ≡ true
        → better fl x y ≡ false
    alike v x y h k = not_lt_of_le o x.expected_net y.expected_net (
        o.le_trans_f x.expected_net v y.expected_net
          (le_of_not_lt o x.expected_net v (ground arith))
          (le_of_not_lt o v y.expected_net (ground arith)))

    sorted-Falls : (cs : List (SwarmCandidate fl)) → IsSorted (better fl) cs → Falls cs
    sorted-Falls [] h = tt
    sorted-Falls (c ∷ cs) h = (
      All-imp (λ (e : SwarmCandidate fl). better fl e c ≡ false)
          (λ (e : SwarmCandidate fl). fle e.expected_net c.expected_net ≡ true) cs
          (λ e k. le_of_not_lt o e.expected_net c.expected_net k) h.0,
      sorted-Falls cs h.1,
    )

    -- The ranking holds the entries of the book, none twice and none left out, each of an
    -- expected net at most that of every entry before it; entries of one expected net stand in the order in
    -- which they were added.
    pub ranked_lem :
        (s : Book fl) (v : Float)
        → Perm (ranked fl s) (values s)
          × Falls (ranked fl s)
          × (keep (same_net v) (ranked fl s) ≡ keep (same_net v) (values s))
    unfolding ranked
    ranked_lem s v = (
      sort-perm (better fl) (values s),
      sorted-Falls (ranked fl s) (
          sort-IsSorted (better fl) (λ x y h. not_lt_of_lt o y.expected_net x.expected_net h)
            better_trans (values s)),
      keep-sort (better fl) (same_net v) (alike v) (values s),
    )
