-- ===== src/Stakepoold/Userdata.antt =====
-- The readers of the database, backend/stakepoold/userdata/userdata.go. What the driver answers is an
-- argument; a row that `Scan` refuses is nothing.
use hxstakepool.Prelude.{
  ℕ, String, Bool, true, false, List, [], ◌∷◌, Option, none, some, if◌then◌else◌, string_eq, nat_eq,
}
use hxstakepool.Prelude.Words.{uint16, uint32}
use hxstakepool.GoMap.{GoMap, put}
use hxstakepool.Stakepoold.Context.{Hash, UserVotingConfig}

-- Whether `sql.Open`, `Ping` and `Close` return no error, and the rows of the query.
pub record Source (A : Type 0) : Type 0 where
  pub opens : Bool
  pub pings : Bool
  pub rows : Option (List (Option A))
  pub closes : Bool

-- A row of LowFeeTicket.
pub record TicketRow : Type 0 where
  pub ticket_hash : String
  pub ticket_address : String

-- A row of Users.
pub record UserRow : Type 0 where
  pub user_id : ℕ
  pub multi_sig_address : String
  pub vote_bits : ℕ
  pub vote_bits_version : ℕ

-- The loop over the rows, in the first reader.
unfoldable pub scan_tickets :
    (new_hash_from_str : String → Option Hash)
    → List (Option TicketRow)
    → GoMap Hash String
    → GoMap Hash String
scan_tickets new_hash_from_str [] tickets = tickets
scan_tickets new_hash_from_str (none ∷ rows) tickets = scan_tickets new_hash_from_str rows tickets
scan_tickets new_hash_from_str (some row ∷ rows) tickets =
    elim (new_hash_from_str row.ticket_hash) [
      | none ↦ scan_tickets new_hash_from_str rows tickets
      | some hash ↦ scan_tickets new_hash_from_str rows (put hash row.ticket_address tickets)
    ]

-- The loop over the rows, in the second.
unfoldable pub scan_users :
    List (Option UserRow) → GoMap String UserVotingConfig → GoMap String UserVotingConfig
scan_users [] user_info = user_info
scan_users (none ∷ rows) user_info = scan_users rows user_info
scan_users (some row ∷ rows) user_info = scan_users rows (
    put row.multi_sig_address
      (record {
        userid = row.user_id;
        multi_sig_address = row.multi_sig_address;
        vote_bits = uint16 row.vote_bits;
        vote_bits_version = uint32 row.vote_bits_version;
      })
      user_info)

-- The map, and whether there was no error.
unfoldable pub mysql_fetch_added_low_fee_tickets :
    (String → Option Hash) → Source TicketRow → GoMap Hash String × Bool
mysql_fetch_added_low_fee_tickets new_hash_from_str source =
    if source.opens
    then if source.pings
      then elim source.rows [
        | none ↦ ([], false)
        | some rows ↦ (scan_tickets new_hash_from_str rows [], source.closes)
      ]
      else ([], false)
    else ([], false)

unfoldable pub mysql_fetch_user_voting_config :
    Source UserRow → GoMap String UserVotingConfig × Bool
mysql_fetch_user_voting_config source =
    if source.opens
    then if source.pings
      then elim source.rows [ none ↦ ([], false) | some rows ↦ (scan_users rows [], source.closes) ]
      else ([], false)
    else ([], false)

-- What the callers in server.go go on with.
abbrev pub fetched {ℓ} : {A : Type ℓ} → A × Bool → Option A
fetched (m, true) = some m
fetched (m, false) = none
