-- ===== src/Swarm/Book.antt =====
-- `OpportunityBook`, `SwarmCandidate` and `_candidate_from_row` of zero/swarm.py, and the loop of
-- `run_block` that fills the book from the rows of a scan.
pub mod Laws
mod Tests
use flash_loan.Prelude.{
  ℕ, ◌+◌, Bool, true, false, ◌||◌, Option, none, some, List, [], ◌∷◌, Text, if◌then◌else◌, Eq_key,
}
use flash_loan.Prelude.Dict.{Dict, lookup, insert, values, found}
use flash_loan.Prelude.Sort.{sort}
use flash_loan.Float.{FloatOps}

-- `(int(candidate.block), candidate.route_id)`
abbrev pub BookKey : Type 0
BookKey = ℕ × Text

module _ (fl : FloatOps) where
  open fl use {Float, zero_f, flt, fle, fdiv}

  -- The fields of the `candidate` dict that the program reads here; the rest is carried along.
  pub record RawCandidate : Type 0 where
    pub loan_size : Option Float
    pub base_asset : Text
    pub executable : Option Bool

  pub record SwarmCandidate : Type 0 where
    pub candidate_id : Text
    pub route_id : Text
    pub worker_id : Text
    pub manager_id : Text
    pub block : ℕ
    pub loan_size : Float
    pub gross_profit : Float
    pub flash_fee : Float
    pub gas_cost : Float
    pub model_reserve : Float
    pub expected_net : Float
    pub roi : Float
    pub timestamp : Float
    pub payload : RawCandidate

  abbrev pub Book : Type 0
  Book = Dict BookKey SwarmCandidate

  abbrev pub key_of : SwarmCandidate → BookKey
  key_of c = (c.block, c.route_id)

  -- `add`, from whether the key is in the book.
  unfoldable pub add : SwarmCandidate → Book → Bool × Book
  add c s =
      if fle c.expected_net zero_f
      then (false, s)
      else if found (lookup (key_of c) s)
      then (false, s)
      else (true, insert (key_of c) c s)

  -- `sorted(..., key=expected_net, reverse=True)` keeps the order of equal keys, so it is the
  -- stable sort by the reversed test.
  abbrev pub better : SwarmCandidate → SwarmCandidate → Bool
  better a b = flt b.expected_net a.expected_net

  unfoldable pub ranked : Book → List SwarmCandidate
  ranked s = sort better (values s)

  -- A row that a scan returned, with the keys that may be missing as options.
  pub record Row : Type 0 where
    pub expected_net_usd : Option Float
    pub candidate : Option RawCandidate
    pub route_id : Text
    pub block : ℕ
    pub size : Option Float
    pub loan_notional_usd : Option Float
    pub worker_id : Text
    pub manager_id : Text
    pub gross_usd : Option Float
    pub flash_fee_usd : Option Float
    pub gas_usd : Option Float
    pub model_reserve_usd : Option Float

  -- `row.get(key, default)`
  abbrev pub or_default : Option Float → Float → Float
  or_default none d = d
  or_default (some x) d = x

  abbrev pub is_empty : Text → Bool
  is_empty [] = true
  is_empty (c ∷ s) = false

  -- The digest of `f"{block}|{route_id}|{size:.18g}"` and the clock are arguments.
  unfoldable pub candidate_of :
      (ℕ → Text → Float → Text) → Float → Row → RawCandidate → SwarmCandidate
  candidate_of digest now row raw =
      let expected = or_default row.expected_net_usd zero_f in
      let size = or_default row.size (or_default raw.loan_size zero_f) in
      let notional = or_default row.loan_notional_usd size in
      record {
        candidate_id = digest row.block row.route_id size;
        route_id = row.route_id;
        worker_id = row.worker_id;
        manager_id = row.manager_id;
        block = row.block;
        loan_size = size;
        gross_profit = or_default row.gross_usd zero_f;
        flash_fee = or_default row.flash_fee_usd zero_f;
        gas_cost = or_default row.gas_usd zero_f;
        model_reserve = or_default row.model_reserve_usd zero_f;
        expected_net = expected;
        roi = if flt zero_f notional then fdiv expected notional else zero_f;
        timestamp = now;
        payload = raw;
      }

  unfoldable pub candidate_from_row :
      (ℕ → Text → Float → Text) → Float → Row → Option SwarmCandidate
  candidate_from_row digest now row = elim row.candidate [
    | none ↦ none
    | some raw ↦
        if fle (or_default row.expected_net_usd zero_f) zero_f || is_empty row.route_id
        then none
        else some (candidate_of digest now row raw)
  ]

  -- One round of the loop, on the book and the count of suppressed duplicates.
  unfoldable pub fill_one : Option SwarmCandidate → Book × ℕ → Book × ℕ
  fill_one none (s, duplicates) = (s, duplicates)
  fill_one (some c) (s, duplicates) =
      let (added, s') = add c s in (s', (if added then duplicates else duplicates + 1))

  unfoldable pub fill : (ℕ → Text → Float → Text) → Float → List Row → Book × ℕ → Book × ℕ
  fill digest now [] acc = acc
  fill digest now (row ∷ rows) acc =
      fill digest now rows (fill_one (candidate_from_row digest now row) acc)
