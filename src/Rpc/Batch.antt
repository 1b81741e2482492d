-- ===== src/Rpc/Batch.antt =====
-- The client of zero/rpc.py: block tags, single requests and batches with their retries. What the
-- transport answers to an attempt is a function; an answer that cannot be read is none.
pub mod Order
mod Tests
use flash_loan.Prelude.{
  ℕ, zero, suc, ◌+◌, ◌/◌, ◌%◌, ◌≡◌, Bool, true, false, ◌||◌, not, Option, none, some, List, [], ◌∷◌,
  ◌++◌, map, Text, codes, starts_with, text_eq, leb, ◌==◌, if◌then◌else◌, length, take, drop,
  Eq_nat, Eq_text,
}
use flash_loan.Prelude.Dict.{Dict, lookup, insert, contains}
use flash_loan.Prelude.Int.{ℤ, pos, negsuc}
use flash_loan.Prelude.Results.{Result, ok, error, ◌>>=◌}
use flash_loan.Keccak.{hex_digit}
use flash_loan.Rpc.{from_hex}

-- The `ValueError`s, and the `RpcError` of a member or of a client that gives up.
pub data RpcFailure : Type 0 where
  negative_block invalid_tag max_batch_not_positive invalid_hex unreachable : RpcFailure
  rpc_error : Text → RpcFailure
  out_of_fuel : RpcFailure

-- An `int` or a `str`.
pub data Block : Type 0 where
  number : ℤ → Block
  tag : Text → Block

-- Python's `hex` of a number without its "0x", on more fuel than it has digits.
hex_from : ℕ → ℕ → Text → Text
hex_from zero n s = s
hex_from (suc fuel) n s =
    let s' = hex_digit (n % 16) ∷ s in
    let rest = hex_from fuel (n / 16) s' in if n / 16 == 0 then s' else rest

unfoldable pub hex_number : ℕ → Text
unfolding hex_from
hex_number n = codes "0x" ++ hex_from (suc n) n []

abbrev pub named_tags : List Text
named_tags =
    codes "latest" ∷ codes "pending" ∷ codes "safe" ∷ codes "finalized" ∷ codes "earliest" ∷ []

-- `_block_tag`
unfoldable pub block_tag : Block → Result RpcFailure Text
block_tag (number (negsuc n)) = error negative_block
block_tag (number (pos n)) = ok (hex_number n)
block_tag (tag t) =
    if contains named_tags t || starts_with t (codes "0x") then ok t else error invalid_tag

-- The loop over the attempts: the first that can be read, if there is one.
abbrev pub or_next {ℓ} : {A : Type ℓ} → Option A → Option A → Option A
or_next none rest = rest
or_next (some x) rest = some x

unfoldable pub retry {ℓ} : {A : Type ℓ} → ℕ → ℕ → (ℕ → Option A) → Option A
retry zero attempt f = none
retry (suc retries) attempt f = or_next (f attempt) (retry retries (suc attempt) f)

-- What a request is answered with.
pub data Response : Type 0 where
  response_error : Text → Response
  response_result : Option Text → Response

-- An `RpcError` is not retried.
abbrev pub request_of : Option Response → Result RpcFailure (Option Text)
request_of none = error unreachable
request_of (some (response_error message)) = error (rpc_error message)
request_of (some (response_result r)) = ok r

-- `_request` and `call`
unfoldable pub call : ℕ → (ℕ → Option Response) → Result RpcFailure (Option Text)
unfolding retry
call retries post = request_of (retry retries 0 post)

-- The result of an `eth_call` as bytes.
abbrev pub bytes_of : Option (List ℕ) → Result RpcFailure (List ℕ)
bytes_of none = error invalid_hex
bytes_of (some bytes) = ok bytes

unfoldable pub raw_bytes : Option Text → Result RpcFailure (List ℕ)
unfolding from_hex
raw_bytes none = ok []
raw_bytes (some raw) = if text_eq raw (codes "0x") then ok [] else bytes_of (from_hex (drop 2 raw))

-- A call of a batch: the method and its parameters.
abbrev pub Call : Type 0
Call = Text × List Text

-- A member of a reply: an error, a result, or neither, which is a `KeyError`.
pub data Member : Type 0 where
  member_error : Text → Member
  member_result : Option Text → Member
  member_empty : Member

-- `{r["id"]: r for r in decoded}`
unfoldable pub results_of : List (ℕ × Member) → Dict ℕ Member → Dict ℕ Member
results_of [] d = d
results_of ((i, m) ∷ rs) d = results_of rs (insert i m d)

-- A member's error stays in the list as data.
abbrev pub read_member : Option Member → Option Response
read_member none = none
read_member (some (member_error message)) = some (response_error message)
read_member (some (member_result r)) = some (response_result r)
read_member (some member_empty) = none

abbrev pub cons_response : Option Response → Option (List Response) → Option (List Response)
cons_response none rest = none
cons_response (some r) none = none
cons_response (some r) (some rest) = some (r ∷ rest)

-- The results of n calls, from index i on.
unfoldable pub read_from : Dict ℕ Member → ℕ → ℕ → Option (List Response)
read_from d i zero = some []
read_from d i (suc n) = cons_response (read_member (lookup i d)) (read_from d (suc i) n)

abbrev pub read_replies : ℕ → Option (List (ℕ × Member)) → Option (List Response)
read_replies n none = none
read_replies n (some replies) = read_from (results_of replies []) 0 n

abbrev pub or_unreachable : Option (List Response) → Result RpcFailure (List Response)
or_unreachable none = error unreachable
or_unreachable (some rs) = ok rs

-- The transport: what an attempt at a batch is answered with.
abbrev pub Transport : Type 0
Transport = ℕ → List Call → Option (List (ℕ × Member))

-- The loop of `batch` and of `batch_eth_call`: the first error is raised.
unfoldable pub no_errors : List Response → Result RpcFailure (List (Option Text))
no_errors [] = ok []
no_errors (response_error message ∷ rs) = error (rpc_error message)
no_errors (response_result r ∷ rs) = no_errors rs >>= λ rest. ok (r ∷ rest)

-- A member of `batch_eth_call_results`: its bytes, or its error.
pub data Answer : Type 0 where
  answer_error : Text → Answer
  answer_bytes : List ℕ → Answer

unfoldable pub answer_of : Response → Result RpcFailure Answer
unfolding raw_bytes
answer_of (response_error message) = ok (answer_error message)
answer_of (response_result r) = raw_bytes r >>= λ bytes. ok (answer_bytes bytes)

unfoldable pub answers_of : List Response → Result RpcFailure (List Answer)
unfolding answer_of
answers_of [] = ok []
answers_of (r ∷ rs) = answer_of r >>= λ a. answers_of rs >>= λ rest. ok (a ∷ rest)

-- `("eth_call", [{"to": to, "data": data}, tag])`
abbrev pub eth_call_of : Text → Text × Text → Call
eth_call_of block (to, call_data) = (codes "eth_call", to ∷ call_data ∷ block ∷ [])

-- The loop of `batch_eth_call`.
unfoldable pub all_bytes : List Answer → Result RpcFailure (List (List ℕ))
all_bytes [] = ok []
all_bytes (answer_error message ∷ as_) = error (rpc_error message)
all_bytes (answer_bytes bytes ∷ as_) = all_bytes as_ >>= λ rest. ok (bytes ∷ rest)

module _ (post : Transport) (retries : ℕ) where
  -- `_batch_results`
  unfoldable pub batch_results : List Call → Result RpcFailure (List Response)
  unfolding retry read_from results_of
  batch_results calls =
      or_unreachable (retry retries 0 (λ attempt. read_replies (length calls) (post attempt calls)))

  unfoldable pub batch : List Call → Result RpcFailure (List (Option Text))
  unfolding batch_results no_errors
  batch calls = batch_results calls >>= no_errors

  -- The loop over the chunks, on fuel for each.
  unfoldable pub chunk_loop : ℕ → Text → ℕ → List (Text × Text) → Result RpcFailure (List Answer)
  unfolding batch_results answers_of
  chunk_loop fuel block max_batch [] = ok []
  chunk_loop zero block max_batch (c ∷ cs) = error out_of_fuel
  chunk_loop (suc fuel) block max_batch (c ∷ cs) =
      batch_results (map (λ (k : Text × Text). eth_call_of block k) (take max_batch (c ∷ cs)))
      >>= λ results. answers_of results >>= λ answers.
          chunk_loop fuel block max_batch (drop max_batch (c ∷ cs)) >>= λ rest. ok (answers ++ rest)

  -- `batch_eth_call_results`, with a chunk for each call as fuel.
  unfoldable pub batch_eth_call_results :
      List (Text × Text) → Block → ℕ → Result RpcFailure (List Answer)
  unfolding block_tag chunk_loop
  batch_eth_call_results calls block max_batch =
      if max_batch == 0
      then error max_batch_not_positive
      else block_tag block >>= λ t. chunk_loop (length calls) t max_batch calls

  unfoldable pub batch_eth_call : List (Text × Text) → Block → ℕ → Result RpcFailure (List (List ℕ))
  unfolding batch_eth_call_results all_bytes
  batch_eth_call calls block max_batch = batch_eth_call_results calls block max_batch >>= all_bytes
