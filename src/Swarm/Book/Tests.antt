-- ===== src/Swarm/Book/Tests.antt =====
-- A scan of four rows on whole-number floats, and each theorem at a concrete input.
use mathlib.Core.List.{Perm}
use flash_loan.Prelude.{ℕ, ◌≡◌, refl, none, some, List, [], ◌∷◌, Text, codes, map, Eq_key}
use flash_loan.Prelude.Dict.{lookup, insert, values}
use flash_loan.Prelude.Int.{ℤ, pos, negsuc}
use flash_loan.Prelude.Sort.{keep, sort}
use flash_loan.Float.{whole_floats, whole_order}
use flash_loan.Swarm.Book.{
  SwarmCandidate, Book, Row, add, ranked, candidate_of, candidate_from_row, fill_one, fill,
}
use flash_loan.Swarm.Book.Laws.{Falls, same_net, ranked_lem}

abbrev row : Text → ℤ → Row whole_floats
row route_id net = record {
  expected_net_usd = some net;
  candidate =
      some (record { loan_size = some (pos 10); base_asset = codes "0xa"; executable = none });
  route_id = route_id;
  block = 7;
  size = none;
  loan_notional_usd = none;
  worker_id = codes "w1";
  manager_id = codes "m1";
  gross_usd = none;
  flash_fee_usd = none;
  gas_usd = none;
  model_reserve_usd = none;
}

-- The digest of a candidate does not matter here.
abbrev digest : ℕ → Text → ℤ → Text
digest block route_id size = route_id

-- A repeated route and an unprofitable row.
abbrev rows : List (Row whole_floats)
rows =
    row (codes "r1") (pos 3)
    ∷ row (codes "r2") (pos 9)
    ∷ row (codes "r1") (pos 8)
    ∷ row (codes "r3") (negsuc 0)
    ∷ []

book : Book whole_floats
unfolding fill fill_one candidate_from_row candidate_of add lookup insert
book = (fill whole_floats digest (pos 0) rows ([], 0)).0

abbrev net : SwarmCandidate whole_floats → ℤ
net c = c.expected_net

ranked-book : map net (ranked whole_floats book) ≡ pos 9 ∷ pos 3 ∷ []
unfolding book ranked sort
ranked-book = refl

ranked_lem_example :
    Perm (ranked whole_floats book) (values book)
    × Falls whole_floats (ranked whole_floats book)
    × (keep (same_net whole_floats (pos 3)) (ranked whole_floats book)
        ≡ keep (same_net whole_floats (pos 3)) (values book))
ranked_lem_example = ranked_lem whole_floats whole_order book (pos 3)
