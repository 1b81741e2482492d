-- ===== src/Rpc/Tests.antt =====
-- Words of small numbers and an address.
use flash_loan.Prelude.{ℕ, ◌^◌, ◌≡◌, refl, none, some, List, [], ◌∷◌, codes, arith}
use flash_loan.Prelude.Sort.{All}
use flash_loan.Rpc.{encode_uint, encode_address, decode_uints}
use flash_loan.Rpc.Words.{IsWord, decode_data, join_uints, decode_data-join_uints}

encode_run :
    encode_uint 255
    ≡ some (codes "0x00000000000000000000000000000000000000000000000000000000000000ff")
unfolding encode_uint
encode_run = refl

overflow_run : encode_uint (2 ^ 256) ≡ none
unfolding encode_uint
overflow_run = refl

address_run :
    encode_address (codes "0x82aF49447D8a07e3bd95BD0d56f35241523fBab1")
    ≡ codes "0x00000000000000000000000082af49447d8a07e3bd95bd0d56f35241523fbab1"
unfolding encode_address
address_run = refl

unaligned_run : decode_uints (1 ∷ 2 ∷ 3 ∷ []) ≡ none
unfolding decode_uints
unaligned_run = refl

abbrev numbers : List ℕ
numbers = 0 ∷ 500 ∷ 2 ^ 255 ∷ []

numbers-IsWord : All IsWord numbers
numbers-IsWord = (omega arith, (omega arith, (omega arith, tt)))

decode_data-join_uints_example : decode_data (join_uints numbers) ≡ some numbers
decode_data-join_uints_example = decode_data-join_uints numbers numbers-IsWord
