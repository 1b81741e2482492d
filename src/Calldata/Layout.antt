-- ===== src/Calldata/Layout.antt =====
-- The layout of the data of a call: a selector and one word for each argument, read back without the
-- encoder.
use mathlib.Core.List.{append-nil}
use flash_loan.Prelude.{
  ℕ, ◌^◌, ◌<◌, ◌≡◌, refl, ap, sym, true, Option, none, some, List, [], ◌∷◌, ◌++◌, map, Text, codes,
  lower, ltb, arith, subst, replicate,
}
use flash_loan.Prelude.Sort.{All}
use flash_loan.Prelude.Succeeds.{Succeeds}
use flash_loan.Keccak.{selector_hex}
use flash_loan.Rpc.{encode_uint, encode_address, remove_0x, add_word}
use flash_loan.Rpc.Words.{IsWord, join_uints, decode_data, decode_data-join_uints}
use flash_loan.Calldata.{
  exact_input_single_signature, exact_input_single_deadline_signature, join_tail, joined,
  join_words, address_word, exact_input_single,
}

-- An argument of a call.
pub data Arg : Type 0 where
  address : Text → Arg
  uint : ℕ → Arg

abbrev pub arg_word : Arg → Option Text
arg_word (address a) = address_word a
arg_word (uint n) = encode_uint n

-- An address is padded on the left; a number is what its word decodes to.
abbrev pub Reads : List Arg → Text → Type 0
Reads [] t = t ≡ []
Reads (address a ∷ args) t =
    (rest : Text) × (t ≡ (replicate 24 48 ++ remove_0x (lower a)) ++ rest) × Reads args rest
Reads (uint n ∷ args) t =
    (w : Text) × (rest : Text) × (t ≡ w ++ rest)
    × (decode_data (some w) ≡ some (n ∷ []))
    × Reads args rest

-- The data of a call with these arguments.
abbrev pub Asks : Text → List Arg → Text → Type 0
Asks selector args t = (rest : Text) × (t ≡ selector ++ rest) × Reads args rest

abbrev pub Fits : Arg → Type 0
Fits (address a) = Unit
Fits (uint n) = IsWord n

-- A number that fits is encoded, and its word decodes to it.
abbrev Encodes : ℕ → Text → Type 0
Encodes n w = decode_data (some (remove_0x w)) ≡ some (n ∷ [])

one_word :
    (n : ℕ) (o : Option Text)
    → decode_data (add_word o (some [])) ≡ some (n ∷ [])
    → Succeeds (Encodes n) o
one_word n none e = absurd (cc)
one_word n (some w) e =
    subst (λ (t : Text). decode_data (some t) ≡ some (n ∷ [])) (append-nil (remove_0x w)) e

encode_uint-Encodes : (n : ℕ) → IsWord n → Succeeds (Encodes n) (encode_uint n)
unfolding join_uints
encode_uint-Encodes n h = one_word n (encode_uint n) (decode_data-join_uints (n ∷ []) (h, tt))

unpadded : (a : Text) → remove_0x (encode_address a) ≡ replicate 24 48 ++ remove_0x (lower a)
unfolding encode_address
unpadded a = refl

address-Reads :
    (a : Text) (args : List Arg) (o : Option Text)
    → Succeeds (Reads args) o
    → Succeeds (Reads (address a ∷ args)) (add_word (address_word a) o)
address-Reads a args none h = h
address-Reads a args (some t) h = (t, ap (λ (w : Text). w ++ t) (unpadded a), h)

uint-Reads :
    (n : ℕ) (args : List Arg) (w o : Option Text)
    → Succeeds (Encodes n) w
    → Succeeds (Reads args) o
    → Succeeds (Reads (uint n ∷ args)) (add_word w o)
uint-Reads n args none o e h = e
uint-Reads n args (some w) none e h = h
uint-Reads n args (some w) (some t) e h = (remove_0x w, t, refl, e, h)

join_tail-Reads :
    (args : List Arg) → All Fits args → Succeeds (Reads args) (join_tail (map arg_word args))
unfolding join_tail
join_tail-Reads [] h = refl
join_tail-Reads (address a ∷ args) h =
    address-Reads a args (join_tail (map arg_word args)) (join_tail-Reads args h.1)
join_tail-Reads (uint n ∷ args) h =
    uint-Reads n args (encode_uint n) (join_tail (map arg_word args)) (encode_uint-Encodes n h.0)
      (join_tail-Reads args h.1)

joined-Asks :
    (selector : Text) (args : List Arg) (o : Option Text)
    → Succeeds (Reads args) o
    → Succeeds (Asks selector args) (joined (some selector) o)
joined-Asks selector args none h = h
joined-Asks selector args (some t) h = (t, refl, h)

pub join_words-Asks :
    (signature selector : Text) (args : List Arg)
    → selector_hex signature ≡ some selector
    → All Fits args
    → Succeeds (Asks selector args) (join_words signature (map arg_word args))
unfolding join_words
join_words-Asks signature selector args e h =
    subst
      (λ (o : Option Text).
        Succeeds (Asks selector args) (joined o (join_tail (map arg_word args))))
      (sym e) (joined-Asks selector args (join_tail (map arg_word args)) (join_tail-Reads args h))

-- The selectors of the calls, without the hash.
abbrev pub approve_id : Text
approve_id = codes "0x095ea7b3"

abbrev pub swap_id : Text
swap_id = codes "0x04e45aaf"

abbrev pub swap_deadline_id : Text
swap_deadline_id = codes "0x414bf389"

swap_selector : selector_hex exact_input_single_signature ≡ some swap_id
unfolding selector_hex
swap_selector = refl

swap_deadline_selector : selector_hex exact_input_single_deadline_signature ≡ some swap_deadline_id
unfolding selector_hex
swap_deadline_selector = refl

approve_selector : selector_hex (codes "approve(address,uint256)") ≡ some approve_id
unfolding selector_hex
approve_selector = refl

pub approve-Asks :
    (spender : Text) (amount : ℕ)
    → IsWord amount
    → Succeeds (Asks approve_id (address spender ∷ uint amount ∷ [])) (
        join_words
          (codes "approve(address,uint256)")
          (address_word spender ∷ encode_uint amount ∷ []))
approve-Asks spender amount h =
    join_words-Asks (codes "approve(address,uint256)") approve_id
      (address spender ∷ uint amount ∷ []) approve_selector (tt, (h, tt))

-- The arguments of a swap without a deadline, and with one.
abbrev pub swap_args : Text → Text → ℕ → Text → ℕ → ℕ → List Arg
swap_args token_in token_out fee recipient amount_in least =
    address token_in
    ∷ address token_out
    ∷ uint fee
    ∷ address recipient
    ∷ uint amount_in
    ∷ uint least
    ∷ uint 0
    ∷ []

abbrev pub swap_deadline_args : Text → Text → ℕ → Text → ℕ → ℕ → ℕ → List Arg
swap_deadline_args token_in token_out fee recipient deadline amount_in least =
    address token_in
    ∷ address token_out
    ∷ uint fee
    ∷ address recipient
    ∷ uint deadline
    ∷ uint amount_in
    ∷ uint least
    ∷ uint 0
    ∷ []

module _ (token_in token_out : Text) (fee : ℕ) (recipient : Text) (amount_in least : ℕ)
    (small : fee < 2 ^ 24) (amount_fits : IsWord amount_in) (least_fits : IsWord least) where
  pub exact_input_single-Asks :
      Succeeds
        (Asks swap_id (swap_args token_in token_out fee recipient amount_in least))
        (exact_input_single token_in token_out fee recipient amount_in least none)
  unfolding exact_input_single
  exact_input_single-Asks =
      let fits : ltb fee (2 ^ 24) ≡ true = ground arith in
      rw fits (
        join_words-Asks exact_input_single_signature swap_id
          (swap_args token_in token_out fee recipient amount_in least) swap_selector
          (tt, (tt, (omega arith, (tt, (amount_fits, (least_fits, (omega arith, tt))))))))

  pub exact_input_deadline-Asks :
      (deadline : ℕ)
      → IsWord deadline
      → Succeeds
          (Asks swap_deadline_id
            (swap_deadline_args token_in token_out fee recipient deadline amount_in least))
          (exact_input_single token_in token_out fee recipient amount_in least (some deadline))
  unfolding exact_input_single
  exact_input_deadline-Asks deadline h =
      let fits : ltb fee (2 ^ 24) ≡ true = ground arith in
      rw fits (
        join_words-Asks exact_input_single_deadline_signature swap_deadline_id
          (swap_deadline_args token_in token_out fee recipient deadline amount_in least)
          swap_deadline_selector
          (tt, (tt, (omega arith, (tt, (h, (amount_fits, (least_fits, (omega arith, tt)))))))))
