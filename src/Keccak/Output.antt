-- ===== src/Keccak/Output.antt =====
-- The sponge: the digest of any byte string is 32 bytes.
use flash_loan.Prelude.{
  ℕ, zero, suc, ◌+◌, ◌-◌, ◌*◌, ◌/◌, ◌%◌, ◌^◌, ◌≤◌, ◌<◌, ◌≡◌, refl, Bool, true, false, List, [], ◌∷◌,
  ◌++◌, ltb, ◌==◌, if◌then◌else◌, length, length-append, get_or, set, take, drop, replicate, arith,
  Bool-cases, inl, inr, length-take,
}
use Prim.Native.Nat.{bit_xor}
use flash_loan.Prelude.Sort.{All}
use flash_loan.Prelude.Succeeds.{Succeeds, bind-Succeeds}
use flash_loan.Keccak.{
  at, lane, zeros, round, rounds, round_constants, keccak_f, pad10_1, from_bytes, absorb_block,
  absorb, rate, bytes_of, to_bytes8, squeeze, keccak256,
}
use flash_loan.Keccak.Bounds.{
  IsLane, AreLanes, IsByte, append-All, replicate-All, xor-IsLane, get_or-IsLane, set-AreLanes,
  round-AreLanes,
}

rounds-AreLanes : (cs s : List ℕ) → AreLanes cs → AreLanes s → AreLanes (rounds cs s)
unfolding rounds
rounds-AreLanes [] s hc h = h
rounds-AreLanes (c ∷ cs) s hc h = rounds-AreLanes cs (round c s) hc.1 (round-AreLanes c s hc.0 h)

are_lanes : List ℕ → Bool
are_lanes [] = true
are_lanes (v ∷ s) = if ltb v (2 ^ 64) then are_lanes s else false

are_lanes-AreLanes : (s : List ℕ) → are_lanes s ≡ true → AreLanes s
unfolding are_lanes
are_lanes-AreLanes [] h = tt
are_lanes-AreLanes (v ∷ s) h = elim (Bool-cases (ltb v (2 ^ 64))) [
  | inl below ↦ (ground (arith, below), are_lanes-AreLanes s (ground (arith, h, below)))
  | inr above ↦ ground (arith, h, above)
]

pub keccak_f-AreLanes : (s : List ℕ) → AreLanes s → AreLanes (keccak_f s)
unfolding keccak_f are_lanes
keccak_f-AreLanes s h =
    rounds-AreLanes round_constants s (are_lanes-AreLanes round_constants refl) h

pow_pos : (k : ℕ) → 0 < 256 ^ k
pow_pos zero = omega arith
pow_pos (suc k) = omega (arith, pow_pos k)

-- At most `k` bytes make a number below 256 ^ k.
from_bytes_lt : (k : ℕ) (bs : List ℕ) → All IsByte bs → length bs ≤ k → from_bytes bs < 256 ^ k
from_bytes_lt k [] h l = pow_pos k
from_bytes_lt zero (b ∷ bs) h l = absurd (omega arith)
from_bytes_lt (suc k) (b ∷ bs) h l = omega (arith, h.0, from_bytes_lt k bs h.1 (omega arith))

take-All : (P : ℕ → Type 0) (n : ℕ) (s : List ℕ) → All P s → All P (take n s)
take-All P zero s h = tt
take-All P (suc n) [] h = tt
take-All P (suc n) (v ∷ s) h = (h.0, take-All P n s h.1)

drop-All : (P : ℕ → Type 0) (n : ℕ) (s : List ℕ) → All P s → All P (drop n s)
drop-All P zero s h = h
drop-All P (suc n) [] h = tt
drop-All P (suc n) (v ∷ s) h = drop-All P n s h.1

absorb_block-AreLanes :
    (n i : ℕ) (block s : List ℕ)
    → All IsByte block
    → AreLanes s
    → AreLanes (absorb_block n i block s)
unfolding absorb_block
absorb_block-AreLanes zero i block s hb h = h
absorb_block-AreLanes (suc n) i block s hb h =
    let place = at (i % 5) (i / 5) in
    let small : from_bytes (take 8 block) < 256 ^ 8 =
      from_bytes_lt 8 (take 8 block) (take-All IsByte 8 block hb)
        (omega (arith, length-take 8 block)) in
    absorb_block-AreLanes n (i + 1) (drop 8 block)
      (set s place (bit_xor (get_or s place 0) (from_bytes (take 8 block))))
      (drop-All IsByte 8 block hb)
      (set-AreLanes s place (bit_xor (get_or s place 0) (from_bytes (take 8 block)))
        (xor-IsLane (get_or s place 0) (from_bytes (take 8 block)) (get_or-IsLane s place h) small)
        h)

absorb-AreLanes :
    (n : ℕ) (bytes s : List ℕ) → All IsByte bytes → AreLanes s → AreLanes (absorb n bytes s)
unfolding absorb
absorb-AreLanes zero bytes s hb h = h
absorb-AreLanes (suc n) bytes s hb h =
    absorb-AreLanes n (drop rate bytes) (keccak_f (absorb_block (rate / 8) 0 (take rate bytes) s))
      (drop-All IsByte rate bytes hb)
      (keccak_f-AreLanes (absorb_block (rate / 8) 0 (take rate bytes) s)
        (absorb_block-AreLanes (rate / 8) 0 (take rate bytes) s (take-All IsByte rate bytes hb) h))

pad10_1-All : (msg : List ℕ) → All IsByte msg → All IsByte (pad10_1 msg rate)
unfolding pad10_1
pad10_1-All msg h = elim (Bool-cases (rate - length msg % rate == 1)) [
  | inl one ↦ rw one (append-All IsByte msg (0x81 ∷ []) h (omega arith, tt))
  | inr more ↦ rw more (
      append-All IsByte msg (1 ∷ replicate (rate - length msg % rate - 2) 0 ++ 0x80 ∷ []) h (
        omega arith,
        append-All IsByte (replicate (rate - length msg % rate - 2) 0) (0x80 ∷ [])
            (replicate-All IsByte (rate - length msg % rate - 2) 0 (omega arith)) (omega arith, tt),
      ))
]

-- A digest so far: `n` bytes.
abbrev pub AreBytes : ℕ → List ℕ → Type 0
AreBytes n out = (length out ≡ n) × All IsByte out

bytes_of-AreBytes : (n v : ℕ) → AreBytes n (bytes_of n v)
bytes_of-AreBytes zero v = (refl, tt)
bytes_of-AreBytes (suc n) v =
    let rest = bytes_of-AreBytes n (v / 256) in (omega (arith, rest.0), (omega arith, rest.1))

to_bytes8-AreBytes : (v : ℕ) → IsLane v → Succeeds (AreBytes 8) (to_bytes8 v)
to_bytes8-AreBytes v h =
    let below : ltb v (2 ^ 64) ≡ true = ground (arith, h) in rw below (bytes_of-AreBytes 8 v)

squeeze-AreBytes :
    (vs out : List ℕ) (n m : ℕ)
    → n + 8 * length vs ≡ m
    → AreLanes vs
    → AreBytes n out
    → Succeeds (AreBytes m) (squeeze vs out)
unfolding squeeze
squeeze-AreBytes [] out n m e hv h = (omega (arith, h.0), h.1)
squeeze-AreBytes (v ∷ vs) out n m e hv h =
    bind-Succeeds (AreBytes 8) (AreBytes m) (to_bytes8 v) (λ bs. squeeze vs (out ++ bs))
      (to_bytes8-AreBytes v hv.0)
      (λ bs k.
        squeeze-AreBytes vs (out ++ bs) (n + 8) m (omega arith) hv.1
          (omega (arith, length-append out bs, h.0, k.0), append-All IsByte out bs h.1 k.1))

-- The digest of any byte string is computed without an overflow, and is 32 bytes.
pub keccak256-AreBytes :
    (message : List ℕ) → All IsByte message → Succeeds (AreBytes 32) (keccak256 message)
unfolding keccak256
keccak256-AreBytes message h =
    let padded = pad10_1 message rate in
    let s = absorb ((length padded + (rate - 1)) / rate) padded zeros in
    let hs : AreLanes s =
      absorb-AreLanes ((length padded + (rate - 1)) / rate) padded zeros (pad10_1-All message h)
        (replicate-All IsLane 25 0 (omega arith)) in
    let lanes : (x y : ℕ) → IsLane (lane s x y) = λ x y. get_or-IsLane s (at x y) hs in
    squeeze-AreBytes (lane s 0 0 ∷ lane s 1 0 ∷ lane s 2 0 ∷ lane s 3 0 ∷ []) [] 0 32 (omega arith)
      (lanes 0 0, (lanes 1 0, (lanes 2 0, (lanes 3 0, tt)))) (refl, tt)
