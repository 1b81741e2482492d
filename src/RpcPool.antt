-- ===== src/RpcPool.antt =====
-- zero/rpc_pool.py: ordered failover over RPC endpoints, with a cooldown.
pub mod Failover
pub mod Health
mod Tests
use flash_loan.Prelude.{
  ℕ, ◌+◌, Bool, true, false, ◌&&◌, ◌||◌, not, Option, none, some, List, [], ◌∷◌, ◌++◌, Text, codes,
  lower, starts_with, contains_text, ◌==◌, leb, if◌then◌else◌, Eq_text,
}
use mathlib.Core.List.{reverse}
use flash_loan.Prelude.Dict.{Dict, lookup, insert, contains}
use flash_loan.Float.{FloatOps, fmax}

-- `any(marker in text for marker in _RATE_LIMIT_MARKERS)`
abbrev markers : List Text
markers = codes "429" ∷ codes "too many requests" ∷ codes "rate limit" ∷ codes "rate-limit" ∷ []

any_marker : List Text → Text → Bool
any_marker [] text = false
any_marker (m ∷ ms) text = contains_text text m || any_marker ms text

-- `_failover_eligible`, of the error's message.
unfoldable pub failover_eligible : Text → Bool
unfolding any_marker
failover_eligible message =
    let text = lower message in
    any_marker markers text || not (starts_with text (codes "rpc error:"))

-- The ASCII white space that `str.strip` removes.
is_space : ℕ → Bool
is_space c = leb 9 c && leb c 13 || leb 28 c && leb c 32

strip_left : Text → Text
strip_left [] = []
strip_left (c ∷ s) = let rest = strip_left s in if is_space c then rest else c ∷ s

unfoldable pub strip : Text → Text
unfolding is_space strip_left
strip s = reverse (strip_left (reverse (strip_left s)))

-- The endpoints of `__init__`: stripped, without empty and repeated ones.
abbrev pub is_empty : Text → Bool
is_empty [] = true
is_empty (c ∷ s) = false

unfoldable pub collect : List Text → List Text → List Text
collect [] endpoints = endpoints
collect (raw ∷ urls) endpoints =
    let value = strip raw in
    collect urls
      (if is_empty value || contains endpoints value then endpoints else endpoints ++ value ∷ [])

-- What a method of a client does: it returns, raises an `RpcError` with a message, or raises
-- another exception.
pub data Called (A : Type 0) : Type 0 where
  returned : A → Called A
  rpc_error : Text → Called A
  other_error : Text → Called A

-- How `_invoke` ends. `key_error` is a missing row of the health table.
pub data Invoked (A : Type 0) : Type 0 where
  value : A → Invoked A
  raised : Text → Invoked A
  raised_other : Text → Invoked A
  cooling_down : Invoked A
  all_failed : Option Text → Invoked A
  key_error : Invoked A

module _ (fl : FloatOps) where
  open fl use {Float, zero_f, flt, fadd}

  pub record Row : Type 0 where
    pub failures : ℕ
    pub successes : ℕ
    pub cooldown_until : Float
    pub last_error : Option Text

  pub record RpcPool : Type 0 where
    pub endpoints : List Text
    pub cooldown_s : Float
    pub health : Dict Text Row
    pub current_endpoint : Text

  abbrev pub fresh_row : Row
  fresh_row = record { failures = 0; successes = 0; cooldown_until = zero_f; last_error = none }

  unfoldable pub fresh_health : List Text → Dict Text Row → Dict Text Row
  fresh_health [] d = d
  fresh_health (url ∷ urls) d = fresh_health urls (insert url fresh_row d)

  -- `__init__`; `none` is the `ValueError` for no endpoint.
  unfoldable pub start : List Text → Float → Option RpcPool
  start endpoints cooldown_s = elim endpoints [
    | [] ↦ none
    | url ∷ urls ↦ some (record {
      endpoints = url ∷ urls;
      cooldown_s = fmax fl zero_f cooldown_s;
      health = fresh_health (url ∷ urls) [];
      current_endpoint = url;
    })
  ]

  unfoldable pub init : List Text → Float → Option RpcPool
  unfolding start
  init urls cooldown_s = start (collect urls []) cooldown_s

  -- The rows that a success and a failure leave.
  abbrev pub healed : Row → Row
  healed row = record row {
    successes = row.successes + 1;
    failures = 0;
    cooldown_until = zero_f;
    last_error = none;
  }

  abbrev pub cooled : Float → Float → Row → Text → Row
  cooled now cooldown_s row message = record row {
    failures = row.failures + 1;
    last_error = some message;
    cooldown_until = fadd now cooldown_s;
  }

  -- The rest of the loop: from the pool, the attempts and the last error.
  abbrev pub Rest : Type 0 → Type 0
  Rest A = RpcPool → ℕ → Option Text → Invoked A × RpcPool

  module _ {A : Type 0} where
    -- After the call of a client.
    unfoldable pub settle :
        Float → Called A → Text → Row → Rest A → RpcPool → ℕ → Invoked A × RpcPool
    settle now (returned x) url row rest p attempted =
        (value x, record p { health = insert url (healed row) p.health; current_endpoint = url })
    settle now (rpc_error message) url row rest p attempted =
        if failover_eligible message
        then rest (record p { health = insert url (cooled now p.cooldown_s row message) p.health })
            (attempted + 1) (some message)
        else (raised message, p)
    settle now (other_error message) url row rest p attempted = (raised_other message, p)

    -- One round of the loop, from the row that is found.
    unfoldable pub visit :
        Float
        → Option Row
        → Called A
        → Text
        → Rest A
        → RpcPool
        → ℕ
        → Option Text
        → Invoked A × RpcPool
    visit now none called url rest p attempted last = (key_error, p)
    visit now (some row) called url rest p attempted last =
        if flt now row.cooldown_until
        then rest p attempted last
        else settle now called url row rest p attempted

    -- The loop of `_invoke` over the endpoints, where `call` is what each client would do.
    unfoldable pub try_endpoints : Float → (Text → Called A) → List Text → Rest A
    try_endpoints now call [] p attempted last =
        (if attempted == 0 then cooling_down else all_failed last, p)
    try_endpoints now call (url ∷ urls) p attempted last =
        visit now (lookup url p.health) (call url) url (try_endpoints now call urls) p attempted
          last

    unfoldable pub invoke : Float → (Text → Called A) → RpcPool → Invoked A × RpcPool
    invoke now call p = try_endpoints now call p.endpoints p 0 none
