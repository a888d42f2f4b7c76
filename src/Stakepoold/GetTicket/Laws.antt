-- ===== src/Stakepoold/GetTicket/Laws.antt =====
-- The address that is found belongs to a user of the pool.
use hxstakepool.Prelude.{String, true, List, [], ◌∷◌, some, ◌≡◌, arith, ◌⊎◌, string_eq}
use hxstakepool.GoMap.{GoMap, has}
use hxstakepool.Stakepoold.Context.{UserVotingConfig, TicketMetadata}
use hxstakepool.Stakepoold.Rpc.{Wallet}
use hxstakepool.Stakepoold.GetTicket.{first_of_user, getticket}

pub first_of_user-has :
    (users : GoMap String UserVotingConfig) (details : List String) (a : String)
    → first_of_user users details ≡ some a
    → has a users ≡ true
unfolding first_of_user
first_of_user-has users [] a h = cc
first_of_user-has users (x ∷ details) a h = ground (arith, first_of_user-has users details a)

-- The ticket is kept, and the address is as before or a user's.
pub getticket-ticket :
    (w : Wallet) (users : GoMap String UserVotingConfig) (n : TicketMetadata)
    → (getticket w users n).ticket ≡ n.ticket
unfolding getticket
getticket-ticket w users n = ground arith

pub getticket-msa :
    (w : Wallet) (users : GoMap String UserVotingConfig) (n : TicketMetadata)
    → ((getticket w users n).msa ≡ n.msa) ⊎ (has (getticket w users n).msa users ≡ true)
unfolding getticket
getticket-msa w users n = grind (arith, first_of_user-has)

-- The fields that the look-up does not touch.
pub getticket-err :
    (w : Wallet) (users : GoMap String UserVotingConfig) (n : TicketMetadata)
    → ((getticket w users n).err ≡ n.err) × ((getticket w users n).spent ≡ n.spent)
unfolding getticket
getticket-err w users n = ground arith
