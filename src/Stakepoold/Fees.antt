-- ===== src/Stakepoold/Fees.antt =====
-- `evaluateStakePoolTicket` and `MsgTxFromHex` of backend/stakepoold/server.go.
pub mod Laws
use hxstakepool.Prelude.{
  ℕ, suc, ◌+◌, ◌%◌, String, Bool, true, false, not, List, [], ◌∷◌, Option, none, some,
  if◌then◌else◌, get_elem?, nat_beq, nat_eq, string_eq,
}
use hxstakepool.Prelude.Words.{add64, sub64, lt64}
use hxstakepool.Prelude.Hex.{decode_string}
use hxstakepool.Prelude.Result.{Result, ok, err, panic, ◌>>=◌, or_err, or_panic}
use hxstakepool.GoMap.{has}
use hxstakepool.Stakepoold.Context.{AppContext, Error, parse_commit_addr, parse_commit_amt}

-- `wire.TxOut`: an `int64` amount and a script.
pub record TxOut : Type 0 where
  pub value : ℕ
  pub pk_script : List ℕ

pub record MsgTx : Type 0 where
  pub tx_out : List TxOut

-- The libraries that the check calls: the parsers of commitment scripts of hcd's `stake` (the
-- address already encoded), `txrules.StakePoolTicketFee` of hcwallet at the network's parameters
-- (amount, fees, height, fee rate), `MsgTx.Deserialize` of hcd's `wire`, and `hcutil.DecodeAddress`.
pub record TxRules : Type 0 where
  pub addr_from_commitment : List ℕ → Option String
  pub amount_from_commitment : List ℕ → Option ℕ
  pub stake_pool_ticket_fee : ℕ → ℕ → ℕ → ℕ → ℕ
  pub deserialize : List ℕ → Option MsgTx
  pub decode_address : String → Option String

-- `i%2 != 0`
unfoldable pub is_odd : ℕ → Bool
is_odd i = not (nat_beq (i % 2) 0)

-- `for i := range tx.TxOut { if i%2 != 0 { ... in += commitAmt } }`
unfoldable pub commitments_in : (List ℕ → Option ℕ) → ℕ → ℕ → List TxOut → Result Error ℕ
commitments_in amount i in' [] = ok in'
commitments_in amount i in' (out ∷ outs) = elim (is_odd i) [
  | false ↦ commitments_in amount (i + 1) in' outs
  | true ↦ elim (amount out.pk_script) [
    | none ↦ err parse_commit_amt
    | some commit_amt ↦ commitments_in amount (i + 1) (add64 in' commit_amt) outs
  ]
]

-- `for i := range tx.TxOut { out += ... }`
unfoldable pub values_out : ℕ → List TxOut → ℕ
values_out out [] = out
values_out out (o ∷ outs) = values_out (add64 out o.value) outs

module _ (r : TxRules) where
  -- The branch of `evaluateStakePoolTicket` for a known address: the fee against what is needed.
  unfoldable pub pays_fee : AppContext → MsgTx → ℕ → TxOut → ℕ → Result Error Bool
  pays_fee ctx tx block_height commitment_out fees = do
    commit_amt ← or_err (r.amount_from_commitment commitment_out.pk_script) parse_commit_amt
    first ← or_panic (get_elem? tx.tx_out 0)
    let fee_needed = r.stake_pool_ticket_fee first.value fees block_height ctx.pool_fees
    if lt64 commit_amt fee_needed then ok false else ok true

  -- `evaluateStakePoolTicket`. The height is an `int32` that only the fee rule reads.
  unfoldable pub evaluate_stake_pool_ticket :
      AppContext → MsgTx → (block_height : ℕ) → (pool_user : String) → Result Error Bool
  unfolding pays_fee
  evaluate_stake_pool_ticket ctx tx block_height pool_user = do
    commitment_out ← or_panic (get_elem? tx.tx_out 1)
    commit_addr ← or_err (r.addr_from_commitment commitment_out.pk_script) parse_commit_addr
    in' ← commitments_in r.amount_from_commitment 0 0 tx.tx_out
    let fees = sub64 in' (values_out 0 tx.tx_out)
    if has commit_addr ctx.fee_addrs
        then pays_fee ctx tx block_height commitment_out fees
        else ok false

  -- `MsgTxFromHex`: nothing where the source returns nil.
  unfoldable pub msg_tx_from_hex : String → Option MsgTx
  unfolding decode_string
  msg_tx_from_hex txhex = elim (decode_string txhex) [
    | none ↦ none
    | some tx_bytes ↦ r.deserialize tx_bytes
  ]
