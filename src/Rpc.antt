-- ===== src/Rpc.antt =====
-- The encoding and decoding of ABI words in zero/rpc.py. The client itself stands in Rpc.Batch.
pub mod Words
pub mod Batch
mod Tests
use flash_loan.Prelude.{
  ℕ, zero, suc, ◌+◌, ◌-◌, ◌*◌, ◌/◌, ◌%◌, ◌^◌, Bool, true, false, ◌&&◌, Option, none, some, List, [],
  ◌∷◌, ◌++◌, Text, codes, lower, starts_with, ltb, leb, ◌==◌, if◌then◌else◌, length, take, drop,
  replicate,
}
use flash_loan.Keccak.{hex}

-- `int.to_bytes(n, "big")` of a number that fits.
abbrev pub big_bytes : ℕ → ℕ → List ℕ
big_bytes zero v = []
big_bytes (suc n) v = big_bytes n (v / 256) ++ v % 256 ∷ []

-- `int.from_bytes(bytes, "big")`, on the value so far.
abbrev pub big_value : List ℕ → ℕ → ℕ
big_value [] v = v
big_value (b ∷ bs) v = big_value bs (v * 256 + b)

-- `encode_uint`; `none` is the `OverflowError`.
unfoldable pub encode_uint : ℕ → Option Text
encode_uint v = if ltb v (2 ^ 256) then some (codes "0x" ++ hex (big_bytes 32 v)) else none

-- `str.removeprefix("0x")`
abbrev pub remove_0x : Text → Text
remove_0x s = if starts_with s (codes "0x") then drop 2 s else s

unfoldable pub encode_address : Text → Text
encode_address addr = codes "0x" ++ replicate 24 48 ++ remove_0x (lower addr)

unfoldable pub encode_bytes32 : List ℕ → Text
encode_bytes32 b = codes "0x" ++ hex b

-- A digit of `bytes.fromhex`; `none` is the `ValueError`.
abbrev pub digit_value : ℕ → Option ℕ
digit_value c =
    if leb 48 c && leb c 57
    then some (c - 48)
    else if leb 97 c && leb c 102
    then some (c - 87)
    else if leb 65 c && leb c 70
    then some (c - 55)
    else none

abbrev pub byte_value : Option ℕ → Option ℕ → Option ℕ
byte_value none d = none
byte_value (some c) none = none
byte_value (some c) (some d) = some (16 * c + d)

abbrev pub add_byte : Option ℕ → Option (List ℕ) → Option (List ℕ)
add_byte none bs = none
add_byte (some b) none = none
add_byte (some b) (some bs) = some (b ∷ bs)

-- `bytes.fromhex` of digits without white space
unfoldable pub from_hex : Text → Option (List ℕ)
from_hex [] = some []
from_hex (c ∷ []) = none
from_hex (c ∷ d ∷ s) = add_byte (byte_value (digit_value c) (digit_value d)) (from_hex s)

-- The loop of `decode_uints` over `n` words.
unfoldable pub decode_words : ℕ → List ℕ → List ℕ
decode_words zero bytes = []
decode_words (suc n) bytes = big_value (take 32 bytes) 0 ∷ decode_words n (drop 32 bytes)

-- `decode_uints`; `none` is the `ValueError`.
unfoldable pub decode_uints : List ℕ → Option (List ℕ)
unfolding decode_words
decode_uints bytes =
    if length bytes % 32 == 0 then some (decode_words (length bytes / 32) bytes) else none

-- A word without its "0x" before the words that follow it; `none` is an exception of either.
abbrev pub add_word : Option Text → Option Text → Option Text
add_word none ts = none
add_word (some t) none = none
add_word (some t) (some ts) = some (remove_0x t ++ ts)
