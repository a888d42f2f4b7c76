-- ===== src/Stakepoold/Startup.antt =====
-- `walletGetTickets` of backend/stakepoold/rpcclient.go: the tickets that the wallet holds when the
-- daemon starts. Unlike `processNewTickets` it reads the verdict on the fee.
pub mod Laws
pub mod Disjoint
use hxstakepool.Prelude.{
  ℕ, String, Bool, true, false, List, [], ◌∷◌, Option, none, some, nat_eq, string_eq, if◌then◌else◌,
}
use hxstakepool.Prelude.Words.{uint32}
use hxstakepool.Prelude.Result.{Result, ok, err, panic, ◌>>=◌}
use hxstakepool.GoMap.{GoMap, put, lookup, has}
use hxstakepool.Stakepoold.Context.{Hash, Error, rpc, AppContext, UserVotingConfig}
use hxstakepool.Stakepoold.Rpc.{Wallet, Node, Transaction, Reply, reply, failure}
use hxstakepool.Stakepoold.Fees.{TxRules, MsgTx, evaluate_stake_pool_ticket, msg_tx_from_hex}

-- `ignoredLowFeeTickets`, `liveTickets` and `blockHashToHeightCache`.
pub record Loaded : Type 0 where
  pub ignored : GoMap Hash String
  pub live : GoMap Hash String
  pub heights : GoMap Hash ℕ

-- What one round of the inner loop does: it goes on to the next detail, perhaps with a height
-- remembered, or stores the ticket and breaks, or panics.
pub data Round : Type 0 where
  next : Loaded → Round
  stored : Loaded → Round
  boom : Round

-- `if err != nil { continue }` after a call: on to the next detail, with what there is.
unfoldable pub attempt : {A : Type 0} → Option A → Loaded → (A → Round) → Round
attempt none acc k = next acc
attempt (some a) acc k = k a

module _ (r : TxRules) (w : Wallet) (node : Node) (ctx : AppContext) where
  -- The height at which the ticket was bought, from the cache or from the node.
  unfoldable pub ticket_height : Loaded → Hash → Option (ℕ × Loaded)
  ticket_height acc block = elim (lookup block acc.heights) [
    | some height ↦ some (height, acc)
    | none ↦ elim (node.get_block_header block) [
      | failure _ ↦ none
      | reply height ↦
          some (uint32 height, record acc { heights = put block (uint32 height) acc.heights })
    ]
  ]

  -- From the fee on.
  unfoldable pub load_by_fee : Hash → String → MsgTx → String → ℕ → Loaded → Round
  load_by_fee hash msa msg_tx addr height acc =
      elim (evaluate_stake_pool_ticket r ctx msg_tx height addr) [
        | ok true ↦ stored (record acc { live = put hash msa acc.live })
        | ok false ↦ stored (record acc { ignored = put hash msa acc.ignored })
        | err _ ↦ stored (record acc { ignored = put hash msa acc.ignored })
        | panic ↦ boom
      ]

  -- One round of the loop over the details of a transaction.
  unfoldable pub load_detail : Transaction → String → Loaded → Round
  load_detail gt address acc = attempt (lookup address ctx.user_voting_config) acc λ user.
      attempt (r.decode_address address) acc λ addr.
        attempt (node.new_hash_from_str gt.tx_id) acc λ hash.
          if has hash ctx.added_low_fee_tickets_msa
          then stored (record acc { live = put hash user.multi_sig_address acc.live })
          else attempt (msg_tx_from_hex r gt.hex) acc λ msg_tx.
            attempt (node.new_hash_from_str gt.block_hash) acc λ block.
              attempt (ticket_height acc block) acc
                λ found. load_by_fee hash user.multi_sig_address msg_tx addr found.0 found.1

  -- `for i := range gt.Details`, up to its `break`.
  unfoldable pub load_details : Transaction → List String → Loaded → Result Error Loaded
  load_details gt [] acc = ok acc
  load_details gt (address ∷ details) acc = elim (load_detail gt address acc) [
    | next acc' ↦ load_details gt details acc'
    | stored acc' ↦ ok acc'
    | boom ↦ panic
  ]

  -- The loop over the promises, one for each ticket.
  unfoldable pub load_tickets : List Hash → Loaded → Result Error Loaded
  load_tickets [] acc = ok acc
  load_tickets (ticket ∷ tickets) acc = elim (w.get_transaction ticket) [
    | failure _ ↦ load_tickets tickets acc
    | reply gt ↦ elim (load_details gt gt.details acc) [
      | ok acc' ↦ load_tickets tickets acc'
      | err e ↦ err e
      | panic ↦ panic
    ]
  ]

  unfoldable pub wallet_get_tickets : Result Error Loaded
  wallet_get_tickets = elim w.get_tickets [
    | failure e ↦ err (rpc e)
    | reply tickets ↦ load_tickets tickets (record { ignored = []; live = []; heights = [] })
  ]
