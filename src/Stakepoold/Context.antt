-- ===== src/Stakepoold/Context.antt =====
-- The state of the daemon: `appContext` of backend/stakepoold/server.go with the values that its
-- channels carry, and `UserVotingConfig` of backend/stakepoold/userdata/userdata.go.
use hxstakepool.Prelude.{ℕ, String, Bool, List, Option}
use hxstakepool.GoMap.{GoMap}

-- `chainhash.Hash`, 32 bytes, as the number that they spell. Hashes are only compared.
abbrev pub Hash : Type 0
Hash = ℕ

pub record UserVotingConfig : Type 0 where
  pub userid : ℕ
  pub multi_sig_address : String
  pub vote_bits : ℕ
  pub vote_bits_version : ℕ

-- The zero value.
abbrev pub no_config : UserVotingConfig
no_config = record { userid = 0; multi_sig_address = ""; vote_bits = 0; vote_bits_version = 0 }

-- The defaults that the wallet reports at start.
pub record VotingConfig : Type 0 where
  pub vote_bits : ℕ
  pub vote_version : ℕ
  pub vote_bits_extended : String

pub record AppContext : Type 0 where
  pub added_low_fee_tickets_msa : GoMap Hash String
  pub ignored_low_fee_tickets_msa : GoMap Hash String
  pub live_tickets_msa : GoMap Hash String
  pub user_voting_config : GoMap String UserVotingConfig
  pub fee_addrs : GoMap String (Unit {0})
  pub pool_fees : ℕ
  pub voting_config : VotingConfig
  pub testing : Bool

pub record NewTicketsForBlock : Type 0 where
  pub block_hash : Hash
  pub block_height : ℕ
  pub new_tickets : List Hash

-- The map from tickets to `spent` goes by pointers, so it is a list of pairs.
pub record SpentMissedTicketsForBlock : Type 0 where
  pub block_hash : Hash
  pub block_height : ℕ
  pub sm_tickets : List (Hash × Bool)

pub record WinningTicketsForBlock : Type 0 where
  pub block_hash : Hash
  pub block_height : ℕ
  pub winning_tickets : List Hash

pub data TicketType : Type 0 where
  unset new spent_missed : TicketType

-- What goes wrong in the daemon, by the place that returns it.
pub data Error : Type 0 where
  parse_commit_addr parse_commit_amt : Error
  rpc : String → Error
  decode_hex from_bytes : Error

-- `ticketMetadata`, without the durations, which are only logged.
pub record TicketMetadata : Type 0 where
  pub ticket : Hash
  pub ticket_type : TicketType
  pub spent : Bool
  pub msa : String
  pub hex : String
  pub config : UserVotingConfig
  pub txid : Option Hash
  pub err : Option Error
