-- ===== src/Stakepoold/SpentMissed.antt =====
-- `processSpentMissedTickets` of backend/stakepoold/server.go: the look-up, the split into missed and
-- spent tickets, and the part under the write lock.
pub mod Laws
use hxstakepool.Prelude.{
  String, Bool, true, false, ◌||◌, List, [], ◌∷◌, ◌++◌, map, Option, none, some, ◌==◌, nat_eq,
  string_eq, if◌then◌else◌,
}
use hxstakepool.GoMap.{delete_all, is_some}
use hxstakepool.Stakepoold.Context.{
  Hash, AppContext, SpentMissedTicketsForBlock, TicketMetadata, spent_missed, no_config,
}
use hxstakepool.Stakepoold.Rpc.{Wallet}
use hxstakepool.Stakepoold.GetTicket.{getticket}

abbrev pub spent_missed_metadata : Hash × Bool → TicketMetadata
spent_missed_metadata (ticket, spent) = record {
  ticket = ticket;
  ticket_type = spent_missed;
  spent = spent;
  msa = "";
  hex = "";
  config = no_config;
  txid = none;
  err = none;
}

-- `missedtickets` and `spenttickets`.
pub record SpentMissed : Type 0 where
  pub missed : List Hash
  pub spent : List Hash

-- One round of the loop over `smtickets`.
unfoldable pub classify : TicketMetadata → SpentMissed → SpentMissed
classify sm acc =
    if is_some sm.err || sm.msa == ""
    then acc
    else if sm.spent
    then record acc { spent = acc.spent ++ sm.ticket ∷ [] }
    else record acc { missed = acc.missed ++ sm.ticket ∷ [] }

unfoldable pub classify_all : List TicketMetadata → SpentMissed → SpentMissed
classify_all [] acc = acc
classify_all (sm ∷ sms) acc = classify_all sms (classify sm acc)

-- The part under the write lock.
unfoldable pub commit_spent_missed : AppContext → SpentMissed → AppContext
commit_spent_missed ctx found = record ctx {
  ignored_low_fee_tickets_msa =
      delete_all found.spent (delete_all found.missed ctx.ignored_low_fee_tickets_msa);
  live_tickets_msa = delete_all found.spent (delete_all found.missed ctx.live_tickets_msa);
}

abbrev pub none_found : SpentMissed
none_found = record { missed = []; spent = [] }

unfoldable pub process_spent_missed_tickets :
    Wallet → AppContext → SpentMissedTicketsForBlock → AppContext
unfolding classify_all commit_spent_missed
process_spent_missed_tickets w ctx smt = commit_spent_missed ctx (
    classify_all
      (map (λ t. getticket w ctx.user_voting_config (spent_missed_metadata t)) smt.sm_tickets)
      none_found)
