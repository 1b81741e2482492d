-- ===== src/Keccak/Tests.antt =====
-- The test vectors of tests/test_keccak.py.
use flash_loan.Prelude.Sort.{All}
use flash_loan.Prelude.Succeeds.{Succeeds}
use flash_loan.Prelude.{◌+◌, ◌%◌, ◌<◌, ◌≤◌, length, arith, ◌≡◌, refl, some, [], ◌∷◌, codes}
use flash_loan.Keccak.{keccak256, rho_table, selector_hex, pad10_1, rate}
use flash_loan.Keccak.Bounds.{IsByte}
use flash_loan.Keccak.Output.{AreBytes, keccak256-AreBytes}
use flash_loan.Keccak.Padding.{unpad, pad10_1_lem}

rho_run :
    rho_table
    ≡ 0 ∷ 36 ∷ 3 ∷ 41 ∷ 18 ∷ 1 ∷ 44 ∷ 10 ∷ 45 ∷ 2 ∷ 62 ∷ 6 ∷ 43 ∷ 15 ∷ 61 ∷ 28 ∷ 55 ∷ 25 ∷ 21 ∷ 56
      ∷ 27 ∷ 20 ∷ 39 ∷ 8 ∷ 14 ∷ []
unfolding rho_table
rho_run = refl

empty_run :
    keccak256 []
    ≡ some (
        0xc5 ∷ 0xd2 ∷ 0x46 ∷ 0x01 ∷ 0x86 ∷ 0xf7 ∷ 0x23 ∷ 0x3c ∷ 0x92 ∷ 0x7e ∷ 0x7d ∷ 0xb2 ∷ 0xdc
        ∷ 0xc7 ∷ 0x03 ∷ 0xc0 ∷ 0xe5 ∷ 0x00 ∷ 0xb6 ∷ 0x53 ∷ 0xca ∷ 0x82 ∷ 0x27 ∷ 0x3b ∷ 0x7b ∷ 0xfa
        ∷ 0xd8 ∷ 0x04 ∷ 0x5d ∷ 0x85 ∷ 0xa4 ∷ 0x70 ∷ [])
unfolding keccak256
empty_run = refl

approve_run : selector_hex (codes "approve(address,uint256)") ≡ some (codes "0x095ea7b3")
unfolding selector_hex
approve_run = refl

abc-IsByte : All IsByte (codes "abc")
abc-IsByte = (omega arith, (omega arith, (omega arith, tt)))

keccak256-AreBytes_example : Succeeds (AreBytes 32) (keccak256 (codes "abc"))
keccak256-AreBytes_example = keccak256-AreBytes (codes "abc") abc-IsByte

pad10_1_lem_example :
    (length (pad10_1 (codes "abc") rate) % rate ≡ 0)
    × (length (codes "abc") < length (pad10_1 (codes "abc") rate))
    × (length (pad10_1 (codes "abc") rate) ≤ length (codes "abc") + rate)
    × (unpad (pad10_1 (codes "abc") rate) ≡ codes "abc")
pad10_1_lem_example = pad10_1_lem (codes "abc")
