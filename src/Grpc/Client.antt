-- ===== src/Grpc/Client.antt =====
-- The web application's side, stakepooldclient/stakepooldclient.go.
pub mod Laws
use hxstakepool.Prelude.{ℕ, String, Bool, true, false, List, [], ◌∷◌, Option, none, some, nat_eq}
use hxstakepool.GoMap.{GoMap, put}
use hxstakepool.Stakepoold.Context.{Hash}
use hxstakepool.Grpc.Messages.{TicketEntry, UserVotingConfigEntry, HashBytes}
use hxstakepool.Grpc.Server.{
  Daemon, Timing, process_get_ticket_command, set_added_tickets, set_user_prefs,
  get_added_low_fee_tickets, get_ignored_low_fee_tickets, get_live_tickets,
}

-- Of `models.LowFeeTicket` and `models.User`, what is sent.
pub record DbTicket : Type 0 where
  pub ticket_address : String
  pub ticket_hash : String

pub record DbUser : Type 0 where
  pub multi_sig_address : String
  pub vote_bits : ℕ
  pub vote_bits_version : ℕ

module _ (b : HashBytes) where
  -- The loop over `resp.Tickets`, the same in the three requests.
  unfoldable pub tickets_of_entries : List TicketEntry → GoMap Hash String → GoMap Hash String
  tickets_of_entries [] tickets = tickets
  tickets_of_entries (data' ∷ entries) tickets = elim (b.new_hash data'.ticket_hash) [
    | none ↦ tickets_of_entries entries tickets
    | some hash ↦ tickets_of_entries entries (put hash data'.ticket_address tickets)
  ]

  -- The map, which is empty beside an error, and whether there is none.
  abbrev pub of_response : Option (List TicketEntry) → GoMap Hash String × Bool
  unfolding tickets_of_entries
  of_response none = ([], false)
  of_response (some entries) = (tickets_of_entries entries [], true)

  unfoldable pub stakepoold_get_added_low_fee_tickets :
      Daemon → Timing → Daemon × (GoMap Hash String × Bool)
  unfolding process_get_ticket_command tickets_of_entries
  stakepoold_get_added_low_fee_tickets d timing =
      let (d', response) = process_get_ticket_command b d timing get_added_low_fee_tickets in
      (d', of_response response)

  unfoldable pub stakepoold_get_ignored_low_fee_tickets :
      Daemon → Timing → Daemon × (GoMap Hash String × Bool)
  unfolding process_get_ticket_command tickets_of_entries
  stakepoold_get_ignored_low_fee_tickets d timing =
      let (d', response) = process_get_ticket_command b d timing get_ignored_low_fee_tickets in
      (d', of_response response)

  unfoldable pub stakepoold_get_live_tickets : Daemon → Timing → Daemon × (GoMap Hash String × Bool)
  unfolding process_get_ticket_command tickets_of_entries
  stakepoold_get_live_tickets d timing =
      let (d', response) = process_get_ticket_command b d timing get_live_tickets in
      (d', of_response response)

  module _ (new_hash_from_str : String → Option Hash) where
    unfoldable pub entries_of_db : List DbTicket → List TicketEntry
    entries_of_db [] = []
    entries_of_db (ticket ∷ db_tickets) = elim (new_hash_from_str ticket.ticket_hash) [
      | none ↦ entries_of_db db_tickets
      | some hash ↦
          record { ticket_address = ticket.ticket_address; ticket_hash = b.clone_bytes hash }
          ∷ entries_of_db db_tickets
    ]

    unfoldable pub stakepoold_set_added_low_fee_tickets :
        Daemon → Timing → List DbTicket → Daemon × Bool
    unfolding set_added_tickets entries_of_db
    stakepoold_set_added_low_fee_tickets d timing db_tickets =
        set_added_tickets b d timing (entries_of_db db_tickets)

  unfoldable pub entries_of_users : GoMap ℕ DbUser → List UserVotingConfigEntry
  entries_of_users [] = []
  entries_of_users ((userid, user) ∷ db_users) =
      record {
        user_id = userid;
        multi_sig_address = user.multi_sig_address;
        vote_bits = user.vote_bits;
        vote_bits_version = user.vote_bits_version;
      }
      ∷ entries_of_users db_users

  unfoldable pub stakepoold_set_user_voting_prefs : Daemon → Timing → GoMap ℕ DbUser → Daemon × Bool
  unfolding set_user_prefs entries_of_users
  stakepoold_set_user_voting_prefs d timing db_users =
      set_user_prefs b d timing (entries_of_users db_users)
