-- ===== src/Stakepoold/Fees/Laws.antt =====
-- When a ticket is accepted.
use hxstakepool.Prelude.{
  ℕ, String, true, false, List, [], ◌∷◌, Option, none, some, nat_eq, string_eq, ◌≡◌,
}
use hxstakepool.Prelude.Words.{add64, sub64, lt64}
use hxstakepool.Prelude.Result.{Result, ok, err}
use hxstakepool.GoMap.{has}
use hxstakepool.Stakepoold.Context.{AppContext, Error, parse_commit_amt}
use hxstakepool.Stakepoold.Fees.{TxOut, MsgTx, TxRules, values_out}

abbrev cons_amount : ℕ → Option (List ℕ) → Option (List ℕ)
cons_amount a none = none
cons_amount a (some rest) = some (a ∷ rest)

-- An sstx has a submission and then pairs of a commitment and a change output. The amounts of the
-- commitments, if each can be read.
unfoldable pub amounts : (List ℕ → Option ℕ) → List TxOut → Option (List ℕ)
amounts amount [] = some []
amounts amount (submission ∷ []) = some []
amounts amount (other ∷ commitment ∷ outs) = elim (amount commitment.pk_script) [
  | none ↦ none
  | some a ↦ cons_amount a (amounts amount outs)
]

abbrev pub sum64 : ℕ → List ℕ → ℕ
sum64 acc [] = acc
sum64 acc (x ∷ xs) = sum64 (add64 acc x) xs

abbrev commitments_result : ℕ → Option (List ℕ) → Result Error ℕ
commitments_result acc none = err parse_commit_amt
commitments_result acc (some xs) = ok (sum64 acc xs)

module _ (r : TxRules) (ctx : AppContext) (tx : MsgTx) (height : ℕ) where
  -- What the pool asks of a ticket: its first commitment goes to a fee address of the pool, all
  -- commitments can be read, and the first is no less than the fee for the ticket's price, its
  -- transaction fee and its height.
  abbrev pub IsAcceptable : Type 0
  IsAcceptable =
      (submission commitment : TxOut) × (outs : List TxOut) × (addr : String) × (committed : List ℕ)
      × (paid : ℕ) × (tx.tx_out ≡ submission ∷ commitment ∷ outs)
      × (r.addr_from_commitment commitment.pk_script ≡ some addr)
      × (has addr ctx.fee_addrs ≡ true)
      × (amounts r.amount_from_commitment tx.tx_out ≡ some committed)
      × (r.amount_from_commitment commitment.pk_script ≡ some paid)
      × (lt64 paid (
            r.stake_pool_ticket_fee submission.value
              (sub64 (sum64 0 committed) (values_out 0 tx.tx_out)) height ctx.pool_fees)
          ≡ false)
