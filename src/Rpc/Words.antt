-- ===== src/Rpc/Words.antt =====
-- Words that are encoded are decoded again.
use flash_loan.Prelude.{
  ℕ, zero, suc, ◌+◌, ◌-◌, ◌*◌, ◌/◌, ◌%◌, ◌^◌, ◌<◌, ◌≡◌, refl, ap, sym, ◌∙◌, true, false, ◌&&◌,
  Option, none, some, List, [], ◌∷◌, ◌++◌, Text, codes, ltb, leb, ◌==◌, length, length-append, take,
  drop, arith, Bool-cases, inl, inr,
}
use flash_loan.Prelude.Sort.{All}
use flash_loan.Keccak.{hex, hex_digit}
use flash_loan.Keccak.Bounds.{IsByte, append-All}
use flash_loan.Rpc.{
  big_bytes, big_value, encode_uint, add_word, digit_value, from_hex, decode_words, decode_uints,
}

length-big_bytes : (n v : ℕ) → length (big_bytes n v) ≡ n
length-big_bytes zero v = refl
length-big_bytes (suc n) v =
    omega
      (arith, length-append (big_bytes n (v / 256)) (v % 256 ∷ []), length-big_bytes n (v / 256))

big_bytes-IsByte : (n v : ℕ) → All IsByte (big_bytes n v)
big_bytes-IsByte zero v = tt
big_bytes-IsByte (suc n) v =
    append-All IsByte (big_bytes n (v / 256)) (v % 256 ∷ []) (big_bytes-IsByte n (v / 256))
      (omega arith, tt)

big_value-append : (bs cs : List ℕ) (v : ℕ) → big_value (bs ++ cs) v ≡ big_value cs (big_value bs v)
big_value-append [] cs v = refl
big_value-append (b ∷ bs) cs v = big_value-append bs cs (v * 256 + b)

big_value-big_bytes : (n v : ℕ) → v < 256 ^ n → big_value (big_bytes n v) 0 ≡ v
big_value-big_bytes zero v h = omega arith
big_value-big_bytes (suc n) v h =
    big_value-append (big_bytes n (v / 256)) (v % 256 ∷ []) 0
    ∙ omega (arith, big_value-big_bytes n (v / 256) (omega arith))

digit_value-hex_digit : (d : ℕ) → d < 16 → digit_value (hex_digit d) ≡ some d
digit_value-hex_digit d h = elim (Bool-cases (ltb d 10)) [
  | inl small ↦
      let first : (leb 48 (48 + d) && leb (48 + d) 57) ≡ true = ground arith in
      let back : 48 + d - 48 ≡ d = omega arith in rw (small, first, back)
  | inr big ↦
      let first : (leb 48 (87 + d) && leb (87 + d) 57) ≡ false = ground arith in
      let second : (leb 97 (87 + d) && leb (87 + d) 102) ≡ true = ground arith in
      let back : 87 + d - 87 ≡ d = omega arith in rw (big, first, second, back)
]

from_hex-hex : (bs : List ℕ) → All IsByte bs → from_hex (hex bs) ≡ some bs
unfolding from_hex
from_hex-hex [] h = refl
from_hex-hex (b ∷ bs) h =
    let whole : 16 * (b / 16) + b % 16 ≡ b = omega arith in
    rw (
      digit_value-hex_digit (b / 16) (omega (arith, h.0)),
      digit_value-hex_digit (b % 16) (omega arith),
      from_hex-hex bs h.1,
      whole,
    )

hex-append : (bs cs : List ℕ) → hex (bs ++ cs) ≡ hex bs ++ hex cs
hex-append [] cs = refl
hex-append (b ∷ bs) cs = rw (hex-append bs cs)

take-append_of : (xs ys : List ℕ) (n : ℕ) → length xs ≡ n → take n (xs ++ ys) ≡ xs
take-append_of [] [] zero e = refl
take-append_of [] (y ∷ ys) zero e = refl
take-append_of [] ys (suc n) e = absurd (omega arith)
take-append_of (x ∷ xs) ys zero e = absurd (omega arith)
take-append_of (x ∷ xs) ys (suc n) e = rw (take-append_of xs ys n (omega arith))

drop-append_of : (xs ys : List ℕ) (n : ℕ) → length xs ≡ n → drop n (xs ++ ys) ≡ ys
drop-append_of [] ys zero e = refl
drop-append_of [] ys (suc n) e = absurd (omega arith)
drop-append_of (x ∷ xs) ys zero e = absurd (omega arith)
drop-append_of (x ∷ xs) ys (suc n) e = drop-append_of xs ys n (omega arith)

-- A number that fits a word.
abbrev pub IsWord : ℕ → Type 0
IsWord v = v < 2 ^ 256

-- The bytes of some words.
abbrev pub word_bytes : List ℕ → List ℕ
word_bytes [] = []
word_bytes (v ∷ vs) = big_bytes 32 v ++ word_bytes vs

length-word_bytes : (vs : List ℕ) → length (word_bytes vs) ≡ 32 * length vs
length-word_bytes [] = refl
length-word_bytes (v ∷ vs) = omega (
  arith,
  length-append (big_bytes 32 v) (word_bytes vs),
  length-big_bytes 32 v,
  length-word_bytes vs,
)

word_bytes-IsByte : (vs : List ℕ) → All IsByte (word_bytes vs)
word_bytes-IsByte [] = tt
word_bytes-IsByte (v ∷ vs) =
    append-All IsByte (big_bytes 32 v) (word_bytes vs) (big_bytes-IsByte 32 v)
      (word_bytes-IsByte vs)

-- The first word is decoded, and the rest after it.
decode_words-append :
    (xs ys : List ℕ) (n : ℕ)
    → length xs ≡ 32
    → decode_words (suc n) (xs ++ ys) ≡ big_value xs 0 ∷ decode_words n ys
unfolding decode_words
decode_words-append xs ys n e =
    ap (λ (bs : List ℕ). big_value bs 0 ∷ decode_words n (drop 32 (xs ++ ys)))
      (take-append_of xs ys 32 e)
    ∙ ap (λ (bs : List ℕ). big_value xs 0 ∷ decode_words n bs) (drop-append_of xs ys 32 e)

decode_words-word_bytes :
    (vs : List ℕ) → All IsWord vs → decode_words (length vs) (word_bytes vs) ≡ vs
decode_words-word_bytes [] h = unfold decode_words in refl
decode_words-word_bytes (v ∷ vs) h =
    decode_words-append (big_bytes 32 v) (word_bytes vs) (length vs) (length-big_bytes 32 v)
    ∙ ap (λ (w : ℕ). w ∷ decode_words (length vs) (word_bytes vs)) (big_value-big_bytes 32 v h.0)
    ∙ ap (λ (ws : List ℕ). v ∷ ws) (decode_words-word_bytes vs h.1)

pub encode_uint-fits :
    (v : ℕ) → IsWord v → encode_uint v ≡ some (codes "0x" ++ hex (big_bytes 32 v))
unfolding encode_uint
encode_uint-fits v h = let fits : ltb v (2 ^ 256) ≡ true = ground (arith, h) in rw fits

-- The words of some numbers one after the other, each without its "0x", as in the data of a call;
-- `none` is the exception of `encode_uint`.
unfoldable pub join_uints : List ℕ → Option Text
join_uints [] = some []
join_uints (v ∷ vs) = add_word (encode_uint v) (join_uints vs)

join_uints_lem : (vs : List ℕ) → All IsWord vs → join_uints vs ≡ some (hex (word_bytes vs))
unfolding join_uints
join_uints_lem [] h = refl
join_uints_lem (v ∷ vs) h =
    ap (λ (o : Option Text). add_word o (join_uints vs)) (encode_uint-fits v h.0)
    ∙ ap (add_word (some (codes "0x" ++ hex (big_bytes 32 v)))) (join_uints_lem vs h.1)
    ∙ ap (λ (t : Text). some t) (sym (hex-append (big_bytes 32 v) (word_bytes vs)))

-- `decode_uints(bytes.fromhex(data))`
abbrev pub decode_bytes : Option (List ℕ) → Option (List ℕ)
decode_bytes none = none
decode_bytes (some bs) = decode_uints bs

abbrev pub decode_data : Option Text → Option (List ℕ)
decode_data none = none
decode_data (some t) = decode_bytes (from_hex t)

decode_uints-word_bytes : (vs : List ℕ) → All IsWord vs → decode_uints (word_bytes vs) ≡ some vs
unfolding decode_uints
decode_uints-word_bytes vs h =
    let whole : (length (word_bytes vs) % 32 == 0) ≡ true = ground (arith, length-word_bytes vs) in
    let count : length (word_bytes vs) / 32 ≡ length vs = omega (arith, length-word_bytes vs) in
    rw (whole, count, decode_words-word_bytes vs h)

-- Numbers below 2 ^ 256 are encoded without an exception, and decoding their words gives them back.
pub decode_data-join_uints : (vs : List ℕ) → All IsWord vs → decode_data (join_uints vs) ≡ some vs
decode_data-join_uints vs h =
    ap decode_data (join_uints_lem vs h)
    ∙ ap decode_bytes (from_hex-hex (word_bytes vs) (word_bytes-IsByte vs))
    ∙ decode_uints-word_bytes vs h
