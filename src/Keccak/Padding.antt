-- ===== src/Keccak/Padding.antt =====
-- `_pad10_1` fills up whole blocks, and the message can be read back.
use flash_loan.Prelude.{
  ℕ, zero, suc, ◌+◌, ◌-◌, ◌%◌, ◌≤◌, ◌<◌, ◌≡◌, refl, Bool, true, false, ◌&&◌, ◌||◌, List, [], ◌∷◌,
  ◌++◌, ◌==◌, if◌then◌else◌, length, length-append, length-replicate, replicate, arith, Bool-cases,
  inl, inr,
}
use flash_loan.Keccak.{pad10_1, rate}

length-pad10_1 :
    (msg : List ℕ) → length (pad10_1 msg rate) ≡ length msg + (rate - length msg % rate)
unfolding pad10_1
length-pad10_1 msg = elim (Bool-cases (rate - length msg % rate == 1)) [
  | inl one ↦ rw one (ground (arith, one, length-append msg (0x81 ∷ [])))
  | inr more ↦
      let zeros : List ℕ = replicate (rate - length msg % rate - 2) 0 in
      rw more (
        ground (
          arith,
          more,
          length-append msg (1 ∷ zeros ++ 0x80 ∷ []),
          length-append zeros (0x80 ∷ []),
          length-replicate {A = ℕ} (rate - length msg % rate - 2) 0,
        ))
]

abbrev is_empty : List ℕ → Bool
is_empty [] = true
is_empty (b ∷ bs) = false

-- Zeros and a last byte 0x80.
zeros_then_end : List ℕ → Bool
zeros_then_end [] = false
zeros_then_end (b ∷ bs) = b == 0x80 && is_empty bs || b == 0 && zeros_then_end bs

-- A byte string that may follow a message.
is_pad : List ℕ → Bool
unfolding zeros_then_end
is_pad [] = false
is_pad (b ∷ bs) = b == 0x81 && is_empty bs || b == 1 && zeros_then_end bs

-- The bytes before the first padding.
unfoldable pub unpad : List ℕ → List ℕ
unfolding is_pad
unpad [] = []
unpad (b ∷ bs) = let rest = unpad bs in if is_pad (b ∷ bs) then [] else b ∷ rest

-- What the proof needs of a padding.
record IsPad (p : List ℕ) : Type 0 where
  pad : is_pad p ≡ true
  not_end : zeros_then_end p ≡ false
  not_empty : is_empty p ≡ false

not_empty-append : (m p : List ℕ) → is_empty p ≡ false → is_empty (m ++ p) ≡ false
not_empty-append [] p h = h
not_empty-append (b ∷ m) p h = refl

not_end-append : (m p : List ℕ) → IsPad p → zeros_then_end (m ++ p) ≡ false
unfolding zeros_then_end
not_end-append [] p h = h.not_end
not_end-append (b ∷ m) p h = ground (arith, not_empty-append m p h.not_empty, not_end-append m p h)

unpad-append : (m p : List ℕ) → IsPad p → unpad (m ++ p) ≡ m
unfolding unpad
unpad-append [] [] h = refl
unpad-append [] (b ∷ p) h = rw h.pad
unpad-append (b ∷ m) p h =
    ground (arith, not_empty-append m p h.not_empty, not_end-append m p h, unpad-append m p h)

zeros-end : (n : ℕ) → zeros_then_end (replicate n 0 ++ 0x80 ∷ []) ≡ true
unfolding zeros_then_end
zeros-end zero = refl
zeros-end (suc n) = ground (arith, zeros-end n)

short-IsPad : IsPad (0x81 ∷ [])
short-IsPad =
    unfold is_pad zeros_then_end in record { pad = refl; not_end = refl; not_empty = refl }

long-IsPad : (n : ℕ) → IsPad (1 ∷ replicate n 0 ++ 0x80 ∷ [])
long-IsPad n =
    unfold is_pad zeros_then_end in
    record { pad = ground (arith, zeros-end n); not_end = refl; not_empty = refl }

unpad-pad10_1 : (msg : List ℕ) → unpad (pad10_1 msg rate) ≡ msg
unfolding pad10_1
unpad-pad10_1 msg = elim (Bool-cases (rate - length msg % rate == 1)) [
  | inl one ↦ rw one (unpad-append msg (0x81 ∷ []) short-IsPad)
  | inr more ↦ rw more (
      unpad-append msg (1 ∷ replicate (rate - length msg % rate - 2) 0 ++ 0x80 ∷ [])
        (long-IsPad (rate - length msg % rate - 2)))
]

-- The padded message is a whole number of blocks, longer than the message by at most one block,
-- and the message can be read back from it, so no two messages have one padding.
pub pad10_1_lem :
    (msg : List ℕ)
    → (length (pad10_1 msg rate) % rate ≡ 0)
      × (length msg < length (pad10_1 msg rate))
      × (length (pad10_1 msg rate) ≤ length msg + rate)
      × (unpad (pad10_1 msg rate) ≡ msg)
pad10_1_lem msg = (
  omega (arith, length-pad10_1 msg),
  omega (arith, length-pad10_1 msg),
  omega (arith, length-pad10_1 msg),
  unpad-pad10_1 msg,
)
