-- ===== src/Controllers/UpdateAll/Tests.antt =====
-- Two daemons, one of which answers too late.
use hxstakepool.Prelude.{ℕ, false, List, [], ◌∷◌, Option, none, some, string_eq, nat_eq}
use hxstakepool.GoMap.{GoMap}
use hxstakepool.Stakepoold.Context.{Hash, AppContext}
use hxstakepool.Grpc.Messages.{HashBytes}
use hxstakepool.Grpc.Server.{Daemon, in_time, late}
use hxstakepool.Controllers.VoteBits.{Deployment, Users}
use hxstakepool.Controllers.UpdateAll.{Connection}

abbrev one_byte : List ℕ → Option Hash
one_byte [] = none
one_byte (x ∷ rest) = some x

abbrev bytes : HashBytes
bytes = record { new_hash = one_byte; clone_bytes = λ h. h ∷ [] }

abbrev context : AppContext
context = record {
  added_low_fee_tickets_msa = [];
  ignored_low_fee_tickets_msa = [];
  live_tickets_msa = [];
  user_voting_config = [];
  fee_addrs = [];
  pool_fees = 5;
  voting_config = record { vote_bits = 1; vote_version = 4; vote_bits_extended = "" };
  testing = false;
}

abbrev daemon : Daemon
daemon = record { ctx = context; stuck = false; read_locked = false }

abbrev connections : List Connection
connections =
    record { daemon = daemon; tickets_timing = in_time; users_timing = in_time }
    ∷ record { daemon = daemon; tickets_timing = in_time; users_timing = late }
    ∷ []

abbrev agenda : Deployment
agenda = record { mask = 6; choices = 0 ∷ 2 ∷ 4 ∷ [] }

abbrev deployments : GoMap ℕ (List Deployment)
deployments = (4, agenda ∷ []) ∷ []

abbrev table : Users
table = (1, record { multi_sig_address = "DcUser"; vote_bits = 7; vote_bits_version = 4 }) ∷ []
