-- ===== src/Stakepoold/Update.antt =====
-- `updateTicketData`, `updateUserData` and their callers of backend/stakepoold/server.go: the data
-- that the web application pushes, or the database holds.
pub mod Laws
mod Tests
use hxstakepool.Prelude.{String, Bool, List, [], ◌∷◌, Option, none, some, if◌then◌else◌, nat_eq}
use hxstakepool.GoMap.{GoMap, has, put, delete}
use hxstakepool.Stakepoold.Context.{Hash, AppContext, UserVotingConfig}

-- The first loop, over the new tickets: off the ignored list, and on the live list.
unfoldable pub apply_added : GoMap Hash String → AppContext → AppContext
apply_added [] ctx = ctx
apply_added ((tickethash, msa) ∷ added) ctx = apply_added added (record ctx {
  ignored_low_fee_tickets_msa = delete tickethash ctx.ignored_low_fee_tickets_msa;
  live_tickets_msa = put tickethash msa ctx.live_tickets_msa;
})

-- The second loop, over the tickets that were added before: back on the ignored list where `added`
-- has them no more.
unfoldable pub restore_ignored :
    (added old : GoMap Hash String) → GoMap Hash String → GoMap Hash String
restore_ignored added [] ignored = ignored
restore_ignored added ((th, m) ∷ old) ignored =
    restore_ignored added old (if has th added then ignored else put th m ignored)

unfoldable pub update_ticket_data : AppContext → GoMap Hash String → AppContext
unfolding apply_added restore_ignored
update_ticket_data ctx added =
    let ctx' = apply_added added ctx in
    record ctx' {
      ignored_low_fee_tickets_msa =
          restore_ignored added ctx.added_low_fee_tickets_msa ctx'.ignored_low_fee_tickets_msa;
      added_low_fee_tickets_msa = added;
    }

-- The fetch from MySQL is an argument: nothing where it returns an error.
unfoldable pub update_ticket_data_from_mysql :
    AppContext → Option (GoMap Hash String) → AppContext × Bool
unfolding update_ticket_data
update_ticket_data_from_mysql ctx none = (ctx, Bool.false)
update_ticket_data_from_mysql ctx (some added) = (update_ticket_data ctx added, Bool.true)

unfoldable pub update_user_data : AppContext → GoMap String UserVotingConfig → AppContext
update_user_data ctx users = record ctx { user_voting_config = users }

unfoldable pub update_user_data_from_mysql :
    AppContext → Option (GoMap String UserVotingConfig) → AppContext × Bool
unfolding update_user_data
update_user_data_from_mysql ctx none = (ctx, Bool.false)
update_user_data_from_mysql ctx (some users) = (update_user_data ctx users, Bool.true)
