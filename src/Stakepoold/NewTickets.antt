-- ===== src/Stakepoold/NewTickets.antt =====
-- `processNewTickets` of backend/stakepoold/server.go. The tickets are looked up under the read
-- lock, sorted under none, and stored under the write lock: `sort_new_tickets` and
-- `commit_new_tickets` are the second and the third part.
pub mod Laws
pub mod Fees
use hxstakepool.Prelude.{
  ℕ, String, Bool, true, false, ◌||◌, List, [], ◌∷◌, map, Option, none, some, if◌then◌else◌, ◌==◌,
  string_eq, nat_eq,
}
use hxstakepool.Prelude.Words.{uint32}
use hxstakepool.Prelude.Result.{Result, ok, err, panic, ◌>>=◌}
use hxstakepool.GoMap.{GoMap, put, put_all, is_some}
use hxstakepool.Stakepoold.Context.{
  Hash, Error, AppContext, NewTicketsForBlock, TicketMetadata, new, no_config,
}
use hxstakepool.Stakepoold.Rpc.{Wallet}
use hxstakepool.Stakepoold.Fees.{TxRules, evaluate_stake_pool_ticket, msg_tx_from_hex}
use hxstakepool.Stakepoold.GetTicket.{getticket}

-- `newIgnoredLowFeeTickets` and `newLiveTickets`.
pub record NewTickets : Type 0 where
  pub ignored : GoMap Hash String
  pub live : GoMap Hash String

pub data Verdict : Type 0 where
  skip judged failed boom : Verdict

abbrev pub new_metadata : Hash → TicketMetadata
new_metadata tickethash = record {
  ticket = tickethash;
  ticket_type = new;
  spent = false;
  msa = "";
  hex = "";
  config = no_config;
  txid = none;
  err = none;
}

module _ (r : TxRules) where
  -- What one round of the loop over `newtickets` finds: the ticket is passed over, its fee was
  -- judged with either outcome, the judgement failed, or it panicked.
  unfoldable pub judge_new_ticket : AppContext → (block_height : ℕ) → TicketMetadata → Verdict
  judge_new_ticket ctx block_height n =
      if is_some n.err || n.msa == "" then skip else elim (r.decode_address n.msa) [
        | none ↦ skip
        | some addr ↦ elim (msg_tx_from_hex r n.hex) [
          | none ↦ skip
          | some msg_tx ↦
              elim (evaluate_stake_pool_ticket r ctx msg_tx (uint32 block_height) addr) [
                | ok ticket_fees_valid ↦ judged
                | err e ↦ failed
                | panic ↦ boom
              ]
        ]
      ]

  unfoldable pub sort_new_tickets :
      AppContext → ℕ → List TicketMetadata → NewTickets → Result Error NewTickets
  sort_new_tickets ctx block_height [] acc = ok acc
  sort_new_tickets ctx block_height (n ∷ ns) acc = elim (judge_new_ticket ctx block_height n) [
    | skip ↦ sort_new_tickets ctx block_height ns acc
    | judged ↦
        sort_new_tickets ctx block_height ns (record acc { live = put n.ticket n.msa acc.live })
    | failed ↦
        sort_new_tickets ctx block_height ns
          (record { ignored = put n.ticket n.msa acc.ignored; live = put n.ticket n.msa acc.live })
    | boom ↦ panic
  ]

-- The part under the write lock.
unfoldable pub commit_new_tickets : AppContext → NewTickets → AppContext
commit_new_tickets ctx found = record ctx {
  ignored_low_fee_tickets_msa = put_all found.ignored ctx.ignored_low_fee_tickets_msa;
  live_tickets_msa = put_all found.live ctx.live_tickets_msa;
}

abbrev pub no_tickets : NewTickets
no_tickets = record { ignored = []; live = [] }

-- The whole handler, where nothing else writes in between.
unfoldable pub process_new_tickets :
    TxRules → Wallet → AppContext → NewTicketsForBlock → Result Error AppContext
process_new_tickets r w ctx nt = do
  let newtickets = map (λ h. getticket w ctx.user_voting_config (new_metadata h)) nt.new_tickets
  found ← sort_new_tickets r ctx nt.block_height newtickets no_tickets
  ok (commit_new_tickets ctx found)
