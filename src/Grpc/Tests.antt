-- ===== src/Grpc/Tests.antt =====
-- The service at a small daemon.
use hxstakepool.Prelude.{
  ℕ, String, true, false, List, [], ◌∷◌, Option, none, some, ◌≡◌, refl, ◌==◌, string_eq, nat_eq,
  if◌then◌else◌, ◌≢◌, ==_iff, arith,
}
use hxstakepool.GoMap.{GoMap, lookup}
use hxstakepool.Stakepoold.Context.{Hash, AppContext}
use hxstakepool.Stakepoold.Update.{update_ticket_data_from_mysql, update_user_data_from_mysql}
use hxstakepool.Grpc.Messages.{HashBytes}
use hxstakepool.Grpc.Server.{
  Daemon, GrpcCommandQueue, Response, in_time, late, query, process_command, handle_command,
  get_ignored_low_fee_tickets, get_live_tickets,
}
use hxstakepool.Grpc.Server.Channels.{
  Channels, Reach, call, here, next, idle, sending, absent, offering, received, accept, give_up,
  set_caller,
}
use hxstakepool.Grpc.Server.Blocking.{give_up_blocks}
use hxstakepool.Grpc.Server.Refined.{Arrives, process_command-Arrives}
use hxstakepool.Grpc.Client.{
  DbTicket, DbUser, stakepoold_set_added_low_fee_tickets, stakepoold_set_user_voting_prefs,
}
use hxstakepool.Grpc.Reload.{ticket_rows, user_rows, answers, mysql_fetch-lookup}
use hxstakepool.Stakepoold.Userdata.{
  mysql_fetch_added_low_fee_tickets, mysql_fetch_user_voting_config, fetched,
}

-- A hash of one byte.
abbrev one_byte : List ℕ → Option Hash
one_byte [] = none
one_byte (x ∷ rest) = some x

abbrev bytes : HashBytes
bytes = record { new_hash = one_byte; clone_bytes = λ h. h ∷ [] }

abbrev context : AppContext
context = record {
  added_low_fee_tickets_msa = (3, "DcUser") ∷ [];
  ignored_low_fee_tickets_msa = [];
  live_tickets_msa = (3, "DcUser") ∷ (4, "DcUser") ∷ [];
  user_voting_config = [];
  fee_addrs = [];
  pool_fees = 5;
  voting_config = record { vote_bits = 1; vote_version = 4; vote_bits_extended = "" };
  testing = false;
}

abbrev daemon : Daemon
daemon = record { ctx = context; stuck = false; read_locked = false }

-- A request for the ignored tickets, before the handler takes it, and one for the live tickets after it.
abbrev ignored_tickets : GrpcCommandQueue
ignored_tickets = query get_ignored_low_fee_tickets

abbrev quiet : Channels
quiet = record { ctx = context; handler = idle; callers = λ _. absent }

abbrev offered : Channels
offered = record quiet { callers = set_caller quiet.callers 0 (offering ignored_tickets) }

abbrev blocked : Channels
unfolding accept handle_command
blocked = give_up (accept offered 0 ignored_tickets) 0

abbrev later : Channels
later = record blocked {
  callers = set_caller blocked.callers 1 (offering (query get_live_tickets));
}

later-Reach : Reach blocked later
unfolding accept handle_command
later-Reach = next here (call blocked 1 (query get_live_tickets) refl)

give_up_blocks_example :
    Reach offered blocked
    × (later.ctx ≡ (handle_command context ignored_tickets).0)
    × ((response : Response) × (later.handler ≡ sending 0 response true))
    × ((j : ℕ) (response : Response)
        → later.callers j ≡ received response
        → offered.callers j ≡ received response)
unfolding blocked
give_up_blocks_example = give_up_blocks offered 0 ignored_tickets refl refl tt later-Reach

process_command-Arrives_example : Arrives quiet 0 (process_command daemon late ignored_tickets)
process_command-Arrives_example =
    process_command-Arrives daemon quiet late ignored_tickets 0 (refl, refl) refl

abbrev tickets : List DbTicket
tickets =
    record { ticket_address = "DcUser"; ticket_hash = "bad" }
    ∷ record { ticket_address = "DcUser"; ticket_hash = "two" }
    ∷ []

abbrev hash_from_str : String → Option Hash
hash_from_str s = if s == "two" then some 2 else none

abbrev users : GoMap ℕ DbUser
users =
    (1, record { multi_sig_address = ""; vote_bits = 1; vote_bits_version = 4 })
    ∷ (2, record { multi_sig_address = "DcUser"; vote_bits = 65541; vote_bits_version = 4 })
    ∷ []

has_name : ◌≢◌ {A = String} "DcUser" ""
has_name = ground (arith, ==_iff {A = String} "DcUser" "")

mysql_fetch-lookup_example :
    let read_users =
      update_user_data_from_mysql context
        (fetched (mysql_fetch_user_voting_config (answers (user_rows users)))) in
    let read_tickets =
      update_ticket_data_from_mysql context (
        fetched
          (mysql_fetch_added_low_fee_tickets hash_from_str (answers (ticket_rows tickets)))) in
    let pushed_users = stakepoold_set_user_voting_prefs bytes daemon in_time users in
    let pushed_tickets =
      stakepoold_set_added_low_fee_tickets bytes hash_from_str daemon in_time tickets in
    (read_users.1 ≡ true)
    × (read_tickets.1 ≡ true)
    × (lookup "DcUser" read_users.0.user_voting_config
        ≡ lookup "DcUser" pushed_users.0.ctx.user_voting_config)
    × (lookup 2 read_tickets.0.added_low_fee_tickets_msa
        ≡ lookup 2 pushed_tickets.0.ctx.added_low_fee_tickets_msa)
mysql_fetch-lookup_example =
    mysql_fetch-lookup bytes (λ h. refl) hash_from_str context daemon users tickets "DcUser" 2 refl
      has_name
