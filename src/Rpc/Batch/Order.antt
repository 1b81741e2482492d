-- ===== src/Rpc/Batch/Order.antt =====
-- Batches of zero/rpc.py answer each call as the server does, in the order of the calls.
use flash_loan.Prelude.{
  ℕ, zero, suc, ◌+◌, ◌≤◌, ◌<◌, ◌≡◌, ◌∙◌, refl, ap, subst, false, Option, none, some, List, [], ◌∷◌,
  ◌++◌, map, Text, arith, ◌==◌, length, take, drop, take-append-drop, length-drop, Eq_nat,
}
use flash_loan.Prelude.Dict.{Dict, lookup}
use flash_loan.Prelude.Results.{ok}
use flash_loan.Rpc.Batch.{
  Block, block_tag, retry, Response, Call, Member, member_error, member_result, results_of,
  read_member, read_from, read_replies, Transport, batch_results, or_unreachable, Answer, answer_of,
  answers_of, eth_call_of, chunk_loop, batch_eth_call_results,
}

-- Attempts that cannot be read are skipped up to the first that can.
pub retry-first :
    {A : Type 0} (f : ℕ → Option A) (x : A) (retries attempt down : ℕ)
    → ((k : ℕ) → k < attempt + down → f k ≡ none)
    → f (attempt + down) ≡ some x
    → down < retries
    → retry retries attempt f ≡ some x
unfolding retry
retry-first f x zero attempt down h e lt = absurd (omega arith)
retry-first f x (suc retries) attempt zero h e lt =
    let here : f attempt ≡ some x = subst (λ k. f k ≡ some x) (omega arith) e in rw here refl
retry-first f x (suc retries) attempt (suc down) h e lt =
    let skip : f attempt ≡ none = h attempt (omega arith) in
    rw skip (
      retry-first f x retries (suc attempt) down (λ k l. h k (omega (arith, l)))
        (subst (λ k. f k ≡ some x) (omega arith) e) (omega (arith, lt)))

module _ (server : Call → Response) where
  -- What a server's answer to a call stands for in a reply.
  abbrev pub member_of : Response → Member
  member_of (Response.response_error message) = member_error message
  member_of (Response.response_result r) = member_result r

  -- The replies hold the answer to each call, from index i on.
  abbrev pub Answered : Dict ℕ Member → ℕ → List Call → Type 0
  Answered d i [] = Unit
  Answered d i (c ∷ cs) = (lookup i d ≡ some (member_of (server c))) × Answered d (suc i) cs

  read_member_of : (r : Response) → read_member (some (member_of r)) ≡ some r
  read_member_of (Response.response_error message) = refl
  read_member_of (Response.response_result r) = refl

  read_from-Answered :
      (d : Dict ℕ Member) (i : ℕ) (cs : List Call)
      → Answered d i cs
      → read_from d i (length cs) ≡ some (map server cs)
  unfolding read_from
  read_from-Answered d i [] h = refl
  read_from-Answered d i (c ∷ cs) h =
      rw (h.0, read_member_of (server c), read_from-Answered d (suc i) cs h.1) refl

  -- What the code relies on in a server: the first `down` attempts at a batch cannot be read, and any
  -- later one holds an answer to each call under its index, in any order.
  pub record IsServer (post : Transport) (down : ℕ) : Type 0 where
    pub refuses : (attempt : ℕ) (cs : List Call) → attempt < down → post attempt cs ≡ none
    pub serves :
        (attempt : ℕ) (cs : List Call)
        → down ≤ attempt
        → (rs : List (ℕ × Member)) × (post attempt cs ≡ some rs) × Answered (results_of rs []) 0 cs

  module _ (post : Transport) (down retries : ℕ) (s : IsServer post down)
      (lt : down < retries) where
    batch_results-Answered : (cs : List Call) → batch_results post retries cs ≡ ok (map server cs)
    unfolding batch_results
    batch_results-Answered cs =
        let attempt : ℕ → Option (List Response) = λ k. read_replies (length cs) (post k cs) in
        let served = s.serves down cs (omega arith) in
        ap or_unreachable (
          retry-first attempt (map server cs) retries 0 down
            (λ k l. ap (read_replies (length cs)) (s.refuses k cs (omega (arith, l))))
            (subst (λ j. read_replies (length cs) (post j cs) ≡ some (map server cs)) (omega arith)
              (ap (read_replies (length cs)) served.1
                ∙ read_from-Answered (results_of served.0 []) 0 cs served.2))
            lt)

    module _ (answer : Text → Text × Text → Answer) (block : Text)
        (decodes : (c : Text × Text)
          → answer_of (server (eth_call_of block c)) ≡ ok (answer block c)) where
      answers_of-map :
          (cs : List (Text × Text))
          → answers_of (map server (map (λ (k : Text × Text). eth_call_of block k) cs))
            ≡ ok (map (answer block) cs)
      unfolding answers_of
      answers_of-map [] = refl
      answers_of-map (c ∷ cs) = rw (decodes c, answers_of-map cs) refl

      map-append :
          (xs ys : List (Text × Text))
          → map (answer block) xs ++ map (answer block) ys ≡ map (answer block) (xs ++ ys)
      map-append [] ys = refl
      map-append (x ∷ xs) ys = ap (λ zs. answer block x ∷ zs) (map-append xs ys)

      chunk_loop-map :
          (fuel max_batch : ℕ) (cs : List (Text × Text))
          → 0 < max_batch
          → length cs ≤ fuel
          → chunk_loop post retries fuel block max_batch cs ≡ ok (map (answer block) cs)
      unfolding chunk_loop
      chunk_loop-map fuel max_batch [] h k = refl
      chunk_loop-map zero max_batch (c ∷ cs) h k = absurd (omega (arith, k))
      chunk_loop-map (suc fuel) max_batch (c ∷ cs) h k =
          let here = take max_batch (c ∷ cs) in
          let later = drop max_batch (c ∷ cs) in
          let bound : length later ≤ fuel = omega (arith, length-drop max_batch (c ∷ cs), h, k) in
          rw
            (
              batch_results-Answered (map (λ (x : Text × Text). eth_call_of block x) here),
              answers_of-map here,
              chunk_loop-map fuel max_batch later h bound,
            )
            (ap ok (
              map-append here later
              ∙ ap (λ zs. map (answer block) zs) (take-append-drop max_batch (c ∷ cs))))

      -- If a server refuses the first attempts at a batch, fewer than the retries, then holds an
      -- answer to each call in its reply, in any order, and the results can be read, then the calls
      -- at a valid block are answered each by itself and in their order, for every positive size of
      -- a batch.
      pub batch_eth_call_results-map :
          (calls : List (Text × Text)) (at : Block) (max_batch : ℕ)
          → 0 < max_batch
          → block_tag at ≡ ok block
          → batch_eth_call_results post retries calls at max_batch ≡ ok (map (answer block) calls)
      unfolding batch_eth_call_results
      batch_eth_call_results-map calls at max_batch h e =
          let positive : (max_batch == 0) ≡ false = ground (arith, h) in
          rw (positive, e) (chunk_loop-map (length calls) max_batch calls h (omega arith))
