-- ===== src/Grpc/Messages.antt =====
-- The messages of backend/stakepoold/rpc/api.proto, and the byte form of `chainhash.Hash`.
use hxstakepool.Prelude.{ℕ, String, List, Option}
use hxstakepool.Stakepoold.Context.{Hash}

pub record TicketEntry : Type 0 where
  pub ticket_address : String
  pub ticket_hash : List ℕ

-- The vote bits and their version are `int64`.
pub record UserVotingConfigEntry : Type 0 where
  pub user_id : ℕ
  pub multi_sig_address : String
  pub vote_bits : ℕ
  pub vote_bits_version : ℕ

-- `chainhash.NewHash`, which wants 32 bytes, and `Hash.CloneBytes`.
pub record HashBytes : Type 0 where
  pub new_hash : List ℕ → Option Hash
  pub clone_bytes : Hash → List ℕ
