-- ===== src/Liquidation/Swaps.antt =====
-- The data of `liquidationCall` of zero/liquidation_calldata.py, read back.
use flash_loan.Prelude.{◌≡◌, refl, Option, none, some, List, [], ◌∷◌, Text, codes, arith}
use flash_loan.Prelude.Results.{Outcome}
use flash_loan.Prelude.Succeeds.{Succeeds}
use flash_loan.Keccak.{selector_hex}
use flash_loan.Rpc.Words.{IsWord}
use flash_loan.Calldata.Layout.{Arg, address, uint, Asks, join_words-Asks}
use flash_loan.Liquidation.Calls.{LiquidationPayload, CalldataError, liquidation_call, encoded}

-- The selector of the call, without the hash.
abbrev pub liquidation_id : Text
liquidation_id = codes "0x00a718a9"

liquidation_selector :
    selector_hex (codes "liquidationCall(address,address,address,uint256,bool)")
    ≡ some liquidation_id
unfolding selector_hex
liquidation_selector = refl

-- The arguments: the collateral, the debt, the borrower and the amount, to be received as the token.
abbrev pub liquidation_args : LiquidationPayload → List Arg
liquidation_args c =
    address c.collateral_asset
    ∷ address c.base_asset
    ∷ address c.borrower
    ∷ uint c.debt_to_cover_raw
    ∷ uint 0
    ∷ []

pub liquidation_call-Asks :
    (c : LiquidationPayload)
    → IsWord c.debt_to_cover_raw
    → Succeeds (Asks liquidation_id (liquidation_args c)) (liquidation_call c)
liquidation_call-Asks c h =
    join_words-Asks (codes "liquidationCall(address,address,address,uint256,bool)") liquidation_id
      (liquidation_args c) liquidation_selector (tt, (tt, (tt, (h, (omega arith, tt)))))

pub encoded-Outcome :
    (P : CalldataError → Type 0) (Q : Text → Type 0) (o : Option Text)
    → Succeeds Q o
    → Outcome P Q (encoded o)
encoded-Outcome P Q none h = absurd h
encoded-Outcome P Q (some t) h = h
