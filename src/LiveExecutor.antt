-- ===== src/LiveExecutor.antt =====
-- zero/live_executor.py: the gate before a live trade, the log of gas spent, and the calldata of the
-- executor. Whether the kill file exists and what the log holds are arguments.
pub mod Gas
mod Tests
use flash_loan.Prelude.{
  ℕ, ◌+◌, ◌-◌, ◌*◌, ◌^◌, Bool, true, false, not, Option, none, some, List, [], ◌∷◌, ◌++◌, Text,
  codes, lower, ltb, if◌then◌else◌, length, drop, take, replicate,
}
use flash_loan.Prelude.Results.{Result, ok, error}
use flash_loan.Prelude.Sort.{keep}
use flash_loan.Float.{FloatOps}
use flash_loan.Keccak.{hex, selector_hex}
use flash_loan.Rpc.{big_bytes, from_hex}

-- The reasons of `GateDenied`.
pub data Denial : Type 0 where
  kill_switch net_below_min notional_above_cap gas_cap_reached : Denial

module _ (fl : FloatOps) where
  open fl use {Float, zero_f, flt, fle, fadd, fsub}

  pub record LiveConfig : Type 0 where
    pub min_net_usd : Float
    pub max_notional_usd : Float
    pub daily_gas_cap_usd : Float

  -- The keys of the candidate that are read, each with the default 0.0.
  pub record LiveCandidate : Type 0 where
    pub expected_net_usd : Option Float
    pub notional_usd : Option Float

  pub record PassReport : Type 0 where
    pub report_net : Float
    pub report_notional : Float
    pub report_gas_spent : Float

  -- An entry of the log: a time and what was spent.
  pub record GasEntry : Type 0 where
    pub at : Float
    pub usd : Float

  abbrev pub or_zero_usd : Option Float → Float
  or_zero_usd none = zero_f
  or_zero_usd (some x) = x

  -- `_load_gas_log`: a log that cannot be read is empty.
  abbrev pub load_gas_log : Option (List GasEntry) → List GasEntry
  load_gas_log none = []
  load_gas_log (some log) = log

  -- `e["t"] >= now - DAY`, for the length of a day.
  abbrev pub is_recent : Float → Float → GasEntry → Bool
  is_recent day now e = fle (fsub now day) e.at

  -- `sum(...)` of the recent entries, from the left.
  unfoldable pub sum_usd : Float → List GasEntry → Float
  sum_usd acc [] = acc
  sum_usd acc (e ∷ es) = sum_usd (fadd acc e.usd) es

  abbrev pub gas_spent_24h : Float → Float → Option (List GasEntry) → Float
  gas_spent_24h day now file = sum_usd zero_f (keep (is_recent day now) (load_gas_log file))

  -- `record_gas_spend`: the log afterwards, and whether it returned. `round6` is `round(usd, 6)`, and
  -- `writes` tells whether the log can be written; if not the call raises and the log stays.
  abbrev pub record_gas_spend :
      (Float → Float)
      → Bool
      → Float
      → Float
      → Float
      → Option (List GasEntry)
      → Option (List GasEntry) × Bool
  record_gas_spend round6 writes day usd now file =
      let entries = load_gas_log file ++ record { at = now; usd = round6 usd } ∷ [] in
      if writes then (some (keep (is_recent day now) entries), true) else (file, false)

  unfoldable pub check_gate :
      Float
      → Bool
      → LiveCandidate
      → LiveConfig
      → Float
      → Option (List GasEntry)
      → Result Denial PassReport
  unfolding sum_usd
  check_gate day killed c cfg now file =
      let net = or_zero_usd c.expected_net_usd in
      let notional = or_zero_usd c.notional_usd in
      let spent = gas_spent_24h day now file in
      if killed
      then error kill_switch
      else if flt net cfg.min_net_usd
      then error net_below_min
      else if flt cfg.max_notional_usd notional
      then error notional_above_cap
      else if fle cfg.daily_gas_cap_usd spent
      then error gas_cap_reached
      else ok (record { report_net = net; report_notional = notional; report_gas_spent = spent })

-- `addr[2:].lower().rjust(64, "0")`
abbrev pub pad_address : Text → Text
pad_address addr = let digits = lower (drop 2 addr) in replicate (64 - length digits) 48 ++ digits

-- `_pad_uint`; `none` is the `OverflowError`.
unfoldable pub pad_uint : ℕ → Option Text
pad_uint v = if ltb v (2 ^ 256) then some (hex (big_bytes 32 v)) else none

pub record LiveStep : Type 0 where
  pub kind : ℕ
  pub target : Text
  pub token_in : Text
  pub token_out : Text
  pub account : Text
  pub amount : ℕ
  pub limit : ℕ
  pub fee : ℕ
  pub recipient_mode : ℕ

-- `"".join(...)` of words that may raise.
unfoldable pub join_padded : List (Option Text) → Option Text
join_padded [] = some []
join_padded (none ∷ ws) = none
join_padded (some w ∷ ws) = elim (join_padded ws) [ none ↦ none | some t ↦ some (w ++ t) ]

abbrev pub step_words : LiveStep → List (Option Text)
step_words s =
    pad_uint s.kind
    ∷ some (pad_address s.target)
    ∷ some (pad_address s.token_in)
    ∷ some (pad_address s.token_out)
    ∷ some (pad_address s.account)
    ∷ pad_uint s.amount
    ∷ pad_uint s.limit
    ∷ pad_uint s.fee
    ∷ pad_uint s.recipient_mode
    ∷ []

unfoldable pub words_of : List LiveStep → List (Option Text)
words_of [] = []
words_of (s ∷ ss) = step_words s ++ words_of ss

-- `encode_steps`: the offset of the array, its length and its steps.
abbrev pub array_words : List LiveStep → List (Option Text)
array_words steps = pad_uint 160 ∷ pad_uint (length steps) ∷ words_of steps

unfoldable pub encode_steps : List LiveStep → Option Text
unfolding join_padded words_of
encode_steps steps = join_padded (array_words steps)

pub data Entry : Type 0 where
  aave balancer : Entry

abbrev pub run_signature : Entry → Text
run_signature aave =
    codes
      "run(address,uint256,uint256,uint256,(uint8,address,address,address,uint256,uint256,uint24,uint8)[])"
run_signature balancer =
    codes
      "runBalancer(address,uint256,uint256,uint256,(uint8,address,address,address,uint256,uint256,uint24,uint8)[])"

abbrev pub run_args : Text → ℕ → ℕ → ℕ → List LiveStep → Option Text
run_args asset amount min_profit deadline steps = join_padded (
    some (pad_address asset)
    ∷ pad_uint amount
    ∷ pad_uint min_profit
    ∷ pad_uint deadline
    ∷ encode_steps steps
    ∷ [])

-- `bytes.fromhex(selector + args)`
abbrev pub to_bytes : Option Text → Option Text → Option (List ℕ)
to_bytes none args = none
to_bytes (some selector) none = none
to_bytes (some selector) (some args) = from_hex (drop 2 selector ++ args)

unfoldable pub build_run_calldata : Entry → Text → ℕ → ℕ → ℕ → List LiveStep → Option (List ℕ)
unfolding encode_steps
build_run_calldata entry asset amount min_profit deadline steps =
    to_bytes (selector_hex (run_signature entry)) (run_args asset amount min_profit deadline steps)
