-- ===== src/Keccak.antt =====
-- zero/keccak.py: keccak-256. A lane is a natural number below 2 ^ 64, a byte string a list of numbers
-- below 256, and the state a list of 25 lanes in which `state[x][y]` stands at `5 * x + y`.
pub mod Bits
pub mod Bounds
pub mod Padding
pub mod Output
mod Tests
use flash_loan.Prelude.{
  ℕ, zero, suc, ◌+◌, ◌-◌, ◌*◌, ◌/◌, ◌%◌, ◌^◌, Bool, true, false, Option, none, some, List, [], ◌∷◌,
  ◌++◌, ltb, ◌==◌, if◌then◌else◌, codes, length, get_or, set, take, drop, replicate, map,
}
use Prim.Native.Nat.{bit_and, bit_or, bit_xor}

-- `_MASK`
abbrev pub mask : ℕ
mask = 2 ^ 64 - 1

-- `_RC`
abbrev pub round_constants : List ℕ
round_constants =
    0x0000000000000001 ∷ 0x0000000000008082 ∷ 0x800000000000808A ∷ 0x8000000080008000
    ∷ 0x000000000000808B ∷ 0x0000000080000001 ∷ 0x8000000080008081 ∷ 0x8000000000008009
    ∷ 0x000000000000008A ∷ 0x0000000000000088 ∷ 0x0000000080008009 ∷ 0x000000008000000A
    ∷ 0x000000008000808B ∷ 0x800000000000008B ∷ 0x8000000000008089 ∷ 0x8000000000008003
    ∷ 0x8000000000008002 ∷ 0x8000000000000080 ∷ 0x000000000000800A ∷ 0x800000008000000A
    ∷ 0x8000000080008081 ∷ 0x8000000000008080 ∷ 0x0000000080000001 ∷ 0x8000000080008008 ∷ []

abbrev pub at : ℕ → ℕ → ℕ
at x y = 5 * x + y

abbrev pub lane : List ℕ → ℕ → ℕ → ℕ
lane s x y = get_or s (at x y) 0

abbrev pub zeros : List ℕ
zeros = replicate 25 0

-- The rounds of `_gen_rho` from number `t` on, `n` to go, on the table so far.
unfoldable pub rho_from : ℕ → ℕ → ℕ → ℕ → List ℕ → List ℕ
rho_from zero t x y rho = rho
rho_from (suc n) t x y rho =
    rho_from n (t + 1) y ((2 * x + 3 * y) % 5) (set rho (at x y) ((t + 1) * (t + 2) / 2 % 64))

unfoldable pub rho_table : List ℕ
unfolding rho_from
rho_table = rho_from 24 0 1 0 zeros

-- `_rotl`
unfoldable pub rotl : ℕ → ℕ → ℕ
rotl v n = bit_and (bit_or (v * 2 ^ (n % 64)) (v / 2 ^ (64 - n % 64))) mask

-- `for x in range(5): for y in range(5)`: all lanes at once, from those of `x`.
abbrev pub row : (ℕ → ℕ → ℕ) → ℕ → List ℕ
row f x = f x 0 ∷ f x 1 ∷ f x 2 ∷ f x 3 ∷ f x 4 ∷ []

abbrev pub grid : (ℕ → ℕ → ℕ) → List ℕ
grid f = row f 0 ++ row f 1 ++ row f 2 ++ row f 3 ++ row f 4

-- `c` and `d` of theta.
abbrev pub parity : List ℕ → ℕ → ℕ
parity s x =
    bit_xor (bit_xor (bit_xor (bit_xor (lane s x 0) (lane s x 1)) (lane s x 2)) (lane s x 3))
      (lane s x 4)

abbrev pub five : (ℕ → ℕ) → List ℕ
five f = f 0 ∷ f 1 ∷ f 2 ∷ f 3 ∷ f 4 ∷ []

unfoldable pub theta : List ℕ → List ℕ
unfolding rotl
theta s =
    let c = five (parity s) in
    let d = five (λ x. bit_xor (get_or c ((x + 4) % 5) 0) (rotl (get_or c ((x + 1) % 5) 0) 1)) in
    grid (λ x y. bit_xor (lane s x y) (get_or d x 0))

-- The coordinates in the order of the two loops.
abbrev pub coordinates : List (ℕ × ℕ)
coordinates =
    (0, 0)
    ∷ (0, 1)
    ∷ (0, 2)
    ∷ (0, 3)
    ∷ (0, 4)
    ∷ (1, 0)
    ∷ (1, 1)
    ∷ (1, 2)
    ∷ (1, 3)
    ∷ (1, 4)
    ∷ (2, 0)
    ∷ (2, 1)
    ∷ (2, 2)
    ∷ (2, 3)
    ∷ (2, 4)
    ∷ (3, 0)
    ∷ (3, 1)
    ∷ (3, 2)
    ∷ (3, 3)
    ∷ (3, 4)
    ∷ (4, 0)
    ∷ (4, 1)
    ∷ (4, 2)
    ∷ (4, 3)
    ∷ (4, 4)
    ∷ []

-- `b[y][(2 * x + 3 * y) % 5] = _rotl(state[x][y], _RHO[x][y])` for each of them
unfoldable pub rho_pi : List (ℕ × ℕ) → List ℕ → List ℕ → List ℕ
unfolding rotl rho_table
rho_pi [] s b = b
rho_pi ((x, y) ∷ ks) s b =
    rho_pi ks s (set b (at y ((2 * x + 3 * y) % 5)) (rotl (lane s x y) (lane rho_table x y)))

-- `(~a) & b`, where `~a` has all the digits that `a` does not have: `b` less those in both.
abbrev pub and_not : ℕ → ℕ → ℕ
and_not a b = b - bit_and b a

unfoldable pub chi : List ℕ → List ℕ
chi b = grid (λ x y.
    bit_xor (lane b x y) (bit_and (and_not (lane b ((x + 1) % 5) y) (lane b ((x + 2) % 5) y)) mask))

unfoldable pub round : ℕ → List ℕ → List ℕ
unfolding theta rho_pi chi
round constant s =
    let s' = chi (rho_pi coordinates (theta s) zeros) in set s' 0 (bit_xor (get_or s' 0 0) constant)

-- `_keccak_f`, over the round constants.
unfoldable pub rounds : List ℕ → List ℕ → List ℕ
unfolding round
rounds [] s = s
rounds (c ∷ cs) s = rounds cs (round c s)

unfoldable pub keccak_f : List ℕ → List ℕ
unfolding rounds
keccak_f s = rounds round_constants s

-- `_pad10_1`
unfoldable pub pad10_1 : List ℕ → ℕ → List ℕ
pad10_1 msg rate =
    let pad_len = rate - length msg % rate in
    if pad_len == 1 then msg ++ 0x81 ∷ [] else msg ++ (1 ∷ replicate (pad_len - 2) 0 ++ 0x80 ∷ [])

-- `int.from_bytes(_, "little")`
abbrev pub from_bytes : List ℕ → ℕ
from_bytes [] = 0
from_bytes (b ∷ bs) = b + 256 * from_bytes bs

-- The lanes from number `i` on of a block, `n` to go, are added to the state.
unfoldable pub absorb_block : ℕ → ℕ → List ℕ → List ℕ → List ℕ
absorb_block zero i block s = s
absorb_block (suc n) i block s =
    absorb_block n (i + 1) (drop 8 block)
      (set s (at (i % 5) (i / 5)) (bit_xor (lane s (i % 5) (i / 5)) (from_bytes (take 8 block))))

abbrev pub rate : ℕ
rate = 136

-- The loop over the blocks, `n` to go.
unfoldable pub absorb : ℕ → List ℕ → List ℕ → List ℕ
unfolding absorb_block keccak_f
absorb zero bytes s = s
absorb (suc n) bytes s =
    absorb n (drop rate bytes) (keccak_f (absorb_block (rate / 8) 0 (take rate bytes) s))

abbrev pub bytes_of : ℕ → ℕ → List ℕ
bytes_of zero v = []
bytes_of (suc n) v = v % 256 ∷ bytes_of n (v / 256)

-- `int.to_bytes(8, "little")`; `none` is the `OverflowError`.
abbrev pub to_bytes8 : ℕ → Option (List ℕ)
to_bytes8 v = if ltb v (2 ^ 64) then some (bytes_of 8 v) else none

-- The lanes of the output, appended to the bytes so far.
unfoldable pub squeeze : List ℕ → List ℕ → Option (List ℕ)
squeeze [] out = some out
squeeze (v ∷ vs) out = elim (to_bytes8 v) [ none ↦ none | some bs ↦ squeeze vs (out ++ bs) ]

unfoldable pub keccak256 : List ℕ → Option (List ℕ)
unfolding absorb squeeze pad10_1
keccak256 message =
    let padded = pad10_1 message rate in
    let s = absorb ((length padded + (rate - 1)) / rate) padded zeros in
    squeeze (lane s 0 0 ∷ lane s 1 0 ∷ lane s 2 0 ∷ lane s 3 0 ∷ []) []

-- `bytes.hex`
abbrev pub hex_digit : ℕ → ℕ
hex_digit d = if ltb d 10 then 48 + d else 87 + d

abbrev pub hex : List ℕ → List ℕ
hex [] = []
hex (b ∷ bs) = hex_digit (b / 16) ∷ hex_digit (b % 16) ∷ hex bs

-- `selector`, of an ASCII signature, whose characters are its bytes.
unfoldable pub selector : List ℕ → Option (List ℕ)
unfolding keccak256
selector signature = elim (keccak256 signature) [ none ↦ none | some out ↦ some (take 4 out) ]

unfoldable pub selector_hex : List ℕ → Option (List ℕ)
unfolding selector
selector_hex signature = elim (selector signature) [
  | none ↦ none
  | some out ↦ some (codes "0x" ++ hex out)
]

unfoldable pub topic_of : List ℕ → Option (List ℕ)
unfolding keccak256
topic_of signature = keccak256 signature
