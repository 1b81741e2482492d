-- ===== src/Rpc/Batch/Tests.antt =====
-- A server whose first attempt fails and whose replies come in reverse order, and the theorem at it.
use flash_loan.Prelude.{
  ℕ, suc, ◌<◌, ◌≡◌, refl, sym, subst, none, some, List, [], ◌∷◌, ◌++◌, map, Text, codes, arith,
  if◌then◌else◌, ltb, Eq_nat, Eq_text,
}
use flash_loan.Prelude.Dict
use flash_loan.Prelude.Dict.{Dict, lookup, insert, lookup-insert}
use flash_loan.Prelude.Int.{pos, negsuc}
use flash_loan.Prelude.Results.{ok, error}
use flash_loan.Rpc.{from_hex}
use flash_loan.Rpc.Batch.{
  number, tag, block_tag, hex_number, negative_block, invalid_tag, Call, Member, Response,
  response_result, results_of, Transport, Answer, answer_bytes, answer_of, raw_bytes, eth_call_of,
  batch_eth_call_results,
}
use flash_loan.Rpc.Batch.Order.{member_of, Answered, IsServer, batch_eth_call_results-map}

-- Every call is answered with two bytes.
abbrev server : Call → Response
server c = response_result (some (codes "0x0aff"))

abbrev answer : Text → Text × Text → Answer
answer block c = answer_bytes (10 ∷ 255 ∷ [])

-- The reply to the first call comes last.
abbrev replies : ℕ → List Call → List (ℕ × Member)
replies i [] = []
replies i (c ∷ cs) = replies (suc i) cs ++ (i, member_of server (server c)) ∷ []

abbrev post : Transport
post attempt cs = if ltb attempt 1 then none else some (replies 0 cs)

results_of-append :
    (rs : List (ℕ × Member)) (i : ℕ) (m : Member) (d : Dict ℕ Member)
    → results_of (rs ++ (i, m) ∷ []) d ≡ insert i m (results_of rs d)
unfolding results_of
results_of-append [] i m d = refl
results_of-append ((j, n) ∷ rs) i m d = results_of-append rs i m (insert j n d)

Answered-insert :
    (d : Dict ℕ Member) (i : ℕ) (m : Member) (j : ℕ) (cs : List Call)
    → i < j
    → Answered server d j cs
    → Answered server (insert i m d) j cs
Answered-insert d i m j [] h a = tt
Answered-insert d i m j (c ∷ cs) h a = (
  ground (arith, lookup-insert i j m d, a.0, h),
  Answered-insert d i m (suc j) cs (omega (arith, h)) a.1,
)

replies-Answered : (i : ℕ) (cs : List Call) → Answered server (results_of (replies i cs) []) i cs
replies-Answered i [] = tt
replies-Answered i (c ∷ cs) =
    let m : Member = member_of server (server c) in
    let later : Dict ℕ Member = results_of (replies (suc i) cs) [] in
    subst (λ d. Answered server d i (c ∷ cs)) (sym (results_of-append (replies (suc i) cs) i m []))
      (
        ground (arith, lookup-insert i i m later),
        Answered-insert later i m (suc i) cs (omega arith) (replies-Answered (suc i) cs),
      )

post-IsServer : IsServer server post 1
post-IsServer = record {
  refuses = λ attempt cs h. ground (arith, h);
  serves = λ attempt cs h. (replies 0 cs, ground (arith, h), replies-Answered 0 cs);
}

decodes :
    (c : Text × Text)
    → answer_of (server (eth_call_of (codes "0x10") c)) ≡ ok (answer (codes "0x10") c)
unfolding answer_of raw_bytes from_hex
decodes c = refl

abbrev calls : List (Text × Text)
calls = (codes "0xa", codes "0x1") ∷ (codes "0xb", codes "0x2") ∷ (codes "0xc", codes "0x3") ∷ []

tag_run : block_tag (number (pos 42161)) ≡ ok (codes "0xa4b1")
unfolding block_tag hex_number
tag_run = refl

negative_run : block_tag (number (negsuc 0)) ≡ error negative_block
unfolding block_tag
negative_run = refl

invalid_run : block_tag (tag (codes "newest")) ≡ error invalid_tag
unfolding block_tag Dict.contains
invalid_run = refl

tag_16 : block_tag (number (pos 16)) ≡ ok (codes "0x10")
unfolding block_tag hex_number
tag_16 = refl

batch_eth_call_results-map_example :
    batch_eth_call_results post 3 calls (number (pos 16)) 2 ≡ ok (map (answer (codes "0x10")) calls)
batch_eth_call_results-map_example =
    batch_eth_call_results-map server post 1 3 post-IsServer (omega arith) answer (codes "0x10")
      decodes calls (number (pos 16)) 2 (omega arith) tag_16
