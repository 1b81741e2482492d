-- ===== src/Keccak/Bounds.antt =====
-- All lanes stay below 2 ^ 64, so that the output never overflows.
use flash_loan.Prelude.{
  ℕ, zero, suc, ◌+◌, ◌*◌, ◌%◌, ◌^◌, ◌<◌, List, [], ◌∷◌, ◌++◌, get_or, set, replicate, arith,
}
use Prim.Native.Nat.{bit_and, bit_xor}
use flash_loan.Prelude.Sort.{All}
use flash_loan.Keccak.{
  at, lane, zeros, rotl, grid, row, five, parity, theta, rho_pi, rho_table, coordinates, and_not,
  chi, mask, round,
}
use flash_loan.Keccak.Bits.{bit_and_le, bit_xor_lt}

abbrev pub IsLane : ℕ → Type 0
IsLane v = v < 2 ^ 64

abbrev pub AreLanes : List ℕ → Type 0
AreLanes s = All IsLane s

abbrev pub IsByte : ℕ → Type 0
IsByte b = b < 256

pub xor-IsLane : (a b : ℕ) → IsLane a → IsLane b → IsLane (bit_xor a b)
xor-IsLane a b ha hb = bit_xor_lt 64 a b ha hb

and_mask-IsLane : (a : ℕ) → IsLane (bit_and a mask)
and_mask-IsLane a = omega (arith, bit_and_le a mask)

rotl-IsLane : (v n : ℕ) → IsLane (rotl v n)
unfolding rotl
rotl-IsLane v n = and_mask-IsLane _

pub get_or-IsLane : (s : List ℕ) (i : ℕ) → AreLanes s → IsLane (get_or s i 0)
get_or-IsLane [] i h = omega arith
get_or-IsLane (v ∷ s) zero h = h.0
get_or-IsLane (v ∷ s) (suc i) h = get_or-IsLane s i h.1

pub set-AreLanes : (s : List ℕ) (i v : ℕ) → IsLane v → AreLanes s → AreLanes (set s i v)
set-AreLanes [] i v hv h = tt
set-AreLanes (w ∷ s) zero v hv h = (hv, h.1)
set-AreLanes (w ∷ s) (suc i) v hv h = (h.0, set-AreLanes s i v hv h.1)

pub append-All : (P : ℕ → Type 0) (s t : List ℕ) → All P s → All P t → All P (s ++ t)
append-All P [] t h k = k
append-All P (v ∷ s) t h k = (h.0, append-All P s t h.1 k)

pub replicate-All : (P : ℕ → Type 0) (n v : ℕ) → P v → All P (replicate n v)
replicate-All P zero v h = tt
replicate-All P (suc n) v h = (h, replicate-All P n v h)

grid-AreLanes : (f : ℕ → ℕ → ℕ) → ((x y : ℕ) → IsLane (f x y)) → AreLanes (grid f)
grid-AreLanes f h =
    append-All IsLane (row f 0) (row f 1 ++ row f 2 ++ row f 3 ++ row f 4) (row-AreLanes 0) (
      append-All IsLane (row f 1) (row f 2 ++ row f 3 ++ row f 4) (row-AreLanes 1) (
        append-All IsLane (row f 2) (row f 3 ++ row f 4) (row-AreLanes 2)
          (append-All IsLane (row f 3) (row f 4) (row-AreLanes 3) (row-AreLanes 4))))
  where
    row-AreLanes : (x : ℕ) → AreLanes (row f x)
    row-AreLanes x = (h x 0, (h x 1, (h x 2, (h x 3, (h x 4, tt)))))

five-AreLanes : (f : ℕ → ℕ) → ((x : ℕ) → IsLane (f x)) → AreLanes (five f)
five-AreLanes f h = (h 0, (h 1, (h 2, (h 3, (h 4, tt)))))

theta-AreLanes : (s : List ℕ) → AreLanes s → AreLanes (theta s)
unfolding theta
theta-AreLanes s h =
    let lanes : (x y : ℕ) → IsLane (lane s x y) = λ x y. get_or-IsLane s (at x y) h in
    let c = five (parity s) in
    let hc : AreLanes c = five-AreLanes (parity s) (λ x.
      xor-IsLane _ _
        (xor-IsLane _ _ (xor-IsLane _ _ (xor-IsLane _ _ (lanes x 0) (lanes x 1)) (lanes x 2))
          (lanes x 3))
        (lanes x 4)) in
    let d = λ (x : ℕ). bit_xor (get_or c ((x + 4) % 5) 0) (rotl (get_or c ((x + 1) % 5) 0) 1) in
    let hd : AreLanes (five d) = five-AreLanes d (λ x.
      xor-IsLane _ _ (get_or-IsLane c ((x + 4) % 5) hc)
        (rotl-IsLane (get_or c ((x + 1) % 5) 0) 1)) in
    grid-AreLanes (λ x y. bit_xor (lane s x y) (get_or (five d) x 0))
      (λ x y.
        xor-IsLane (lane s x y) (get_or (five d) x 0) (lanes x y) (get_or-IsLane (five d) x hd))

rho_pi-AreLanes : (ks : List (ℕ × ℕ)) (s b : List ℕ) → AreLanes b → AreLanes (rho_pi ks s b)
unfolding rho_pi
rho_pi-AreLanes [] s b h = h
rho_pi-AreLanes ((x, y) ∷ ks) s b h =
    rho_pi-AreLanes ks s
      (set b (at y ((2 * x + 3 * y) % 5)) (rotl (lane s x y) (lane rho_table x y)))
      (set-AreLanes b (at y ((2 * x + 3 * y) % 5)) (rotl (lane s x y) (lane rho_table x y))
        (rotl-IsLane (lane s x y) (lane rho_table x y)) h)

chi-AreLanes : (b : List ℕ) → AreLanes b → AreLanes (chi b)
unfolding chi
chi-AreLanes b h =
    let masked =
      λ (x y : ℕ). bit_and (and_not (lane b ((x + 1) % 5) y) (lane b ((x + 2) % 5) y)) mask in
    grid-AreLanes (λ x y. bit_xor (lane b x y) (masked x y))
      (λ x y.
        xor-IsLane (lane b x y) (masked x y) (get_or-IsLane b (at x y) h)
          (and_mask-IsLane (and_not (lane b ((x + 1) % 5) y) (lane b ((x + 2) % 5) y))))

pub round-AreLanes : (c : ℕ) (s : List ℕ) → IsLane c → AreLanes s → AreLanes (round c s)
unfolding round
round-AreLanes c s hc h =
    let s' = chi (rho_pi coordinates (theta s) zeros) in
    let h' =
      chi-AreLanes (rho_pi coordinates (theta s) zeros)
        (rho_pi-AreLanes coordinates (theta s) zeros (replicate-All IsLane 25 0 (omega arith))) in
    set-AreLanes s' 0 (bit_xor (get_or s' 0 0) c)
      (xor-IsLane (get_or s' 0 0) c (get_or-IsLane s' 0 h') hc) h'
