-- ===== src/Stakepoold/GetTicket.antt =====
-- `getticket` of backend/stakepoold/server.go: whose ticket is it? Its goroutine writes to its own
-- `ticketMetadata` alone, so it is a function from one to the next.
pub mod Laws
use hxstakepool.Prelude.{
  String, Bool, true, false, List, [], ◌∷◌, Option, none, some, if◌then◌else◌, string_eq,
}
use hxstakepool.GoMap.{GoMap, has, lookup}
use hxstakepool.Stakepoold.Context.{
  Hash, UserVotingConfig, TicketType, unset, new, spent_missed, TicketMetadata,
}
use hxstakepool.Stakepoold.Rpc.{Wallet, Transaction, reply, failure}

-- The loop over `res.Details`, up to its `break`.
unfoldable pub first_of_user : GoMap String UserVotingConfig → List String → Option String
first_of_user users [] = none
first_of_user users (address ∷ details) =
    if has address users then some address else first_of_user users details

abbrev is_new : TicketType → Bool
is_new new = true
is_new unset = false
is_new spent_missed = false

unfoldable pub getticket : Wallet → GoMap String UserVotingConfig → TicketMetadata → TicketMetadata
unfolding first_of_user
getticket w users nt = elim (w.get_transaction nt.ticket) [
  | failure _ ↦ nt
  | reply res ↦ elim (first_of_user users res.details) [
    | none ↦ nt
    | some address ↦ record nt {
      msa = address;
      hex = if is_new nt.ticket_type then res.hex else nt.hex;
    }
  ]
]
