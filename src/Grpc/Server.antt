-- ===== src/Grpc/Server.antt =====
-- The daemon's side. A call queues a command for the handler and waits for its answer, for 100 ms at
-- most; the handler answers on an unbuffered channel, and so waits for the caller.
pub mod Channels
pub mod Blocking
pub mod Branches
pub mod Refined
use hxstakepool.Prelude.{
  ℕ, String, Bool, true, false, List, [], ◌∷◌, Option, none, some, if◌then◌else◌, nat_eq, string_eq,
}
use hxstakepool.Prelude.Words.{uint16, uint32}
use hxstakepool.GoMap.{GoMap, put}
use hxstakepool.Stakepoold.Context.{Hash, AppContext, UserVotingConfig}
use hxstakepool.Stakepoold.Update.{update_ticket_data, update_user_data}
use hxstakepool.Grpc.Messages.{TicketEntry, UserVotingConfigEntry, HashBytes}

pub data CommandName : Type 0 where
  get_added_low_fee_tickets get_ignored_low_fee_tickets get_live_tickets : CommandName
  set_added_low_fee_tickets set_user_voting_prefs : CommandName
  unregistered : ℕ → CommandName

pub record GrpcCommandQueue : Type 0 where
  pub command : CommandName
  pub request_ticket_data : GoMap Hash String
  pub request_user_data : GoMap String UserVotingConfig

-- What the handler sends, and on which channel; for an unregistered command it sends nothing.
pub data Response : Type 0 where
  tickets_msa : GoMap Hash String → Response
  empty : Response
  silent : Response

-- The case of one command, with the handler's answer.
abbrev pub run_command :
    AppContext
    → GoMap Hash String
    → GoMap String UserVotingConfig
    → CommandName
    → AppContext × Response
run_command ctx ticket_data user_data get_added_low_fee_tickets =
    (ctx, tickets_msa ctx.added_low_fee_tickets_msa)
run_command ctx ticket_data user_data get_ignored_low_fee_tickets =
    (ctx, tickets_msa ctx.ignored_low_fee_tickets_msa)
run_command ctx ticket_data user_data get_live_tickets = (ctx, tickets_msa ctx.live_tickets_msa)
run_command ctx ticket_data user_data set_added_low_fee_tickets =
    (update_ticket_data ctx ticket_data, empty)
run_command ctx ticket_data user_data set_user_voting_prefs =
    (update_user_data ctx user_data, empty)
run_command ctx ticket_data user_data (unregistered _) = (ctx, silent)

unfoldable pub handle_command : AppContext → GrpcCommandQueue → AppContext × Response
handle_command ctx cmd = run_command ctx cmd.request_ticket_data cmd.request_user_data cmd.command

-- The daemon as its callers meet it: the state, whether the handler waits on a channel that nobody
-- reads, and whether it does so with the read lock held.
pub record Daemon : Type 0 where
  pub ctx : AppContext
  pub stuck : Bool
  pub read_locked : Bool

-- When the caller's context is done: after the answer, between the command and its answer, or before
-- the handler takes the command.
pub data Timing : Type 0 where
  in_time late never_sent : Timing

abbrev pub is_silent : Response → Bool
is_silent silent = true
is_silent _ = false

-- `GetIgnoredLowFeeTickets` alone is answered under the read lock.
abbrev pub answers_locked : CommandName → Bool
answers_locked get_ignored_low_fee_tickets = true
answers_locked _ = false

-- The selects of `processSetCommand` and `processGetTicketCommand` against the handler's loop:
-- nothing where the call ends with the context's error.
unfoldable pub process_command : Daemon → Timing → GrpcCommandQueue → Daemon × Option Response
unfolding handle_command
process_command d never_sent cmd = (d, none)
process_command d late cmd =
    if d.stuck
    then (d, none)
    else let (ctx', response) = handle_command d.ctx cmd in
      if is_silent response
      then (record d { ctx = ctx' }, none)
      else (record { ctx = ctx'; stuck = true; read_locked = answers_locked cmd.command }, none)
process_command d in_time cmd =
    if d.stuck
    then (d, none)
    else let (ctx', response) = handle_command d.ctx cmd in
      (record d { ctx = ctx' }, if is_silent response then none else some response)

abbrev pub query : CommandName → GrpcCommandQueue
query name = record { command = name; request_ticket_data = []; request_user_data = [] }

module _ (b : HashBytes) where
  -- `for tickethash, msa := range ticketsResponse`
  unfoldable pub ticket_entries : GoMap Hash String → List TicketEntry
  ticket_entries [] = []
  ticket_entries ((tickethash, msa) ∷ tickets) =
      record { ticket_address = msa; ticket_hash = b.clone_bytes tickethash }
      ∷ ticket_entries tickets

  abbrev pub entries_of : Option Response → Option (List TicketEntry)
  entries_of (some (tickets_msa tickets)) = some (ticket_entries tickets)
  entries_of _ = none

  unfoldable pub process_get_ticket_command :
      Daemon → Timing → CommandName → Daemon × Option (List TicketEntry)
  process_get_ticket_command d timing name =
      let (d', response) = process_command d timing (query name) in (d', entries_of response)

  -- The loop of `SetAddedLowFeeTickets`, which passes over a hash that is not 32 bytes long.
  unfoldable pub added_of_entries : List TicketEntry → GoMap Hash String → GoMap Hash String
  added_of_entries [] added = added
  added_of_entries (entry ∷ entries) added = elim (b.new_hash entry.ticket_hash) [
    | none ↦ added_of_entries entries added
    | some hash ↦ added_of_entries entries (put hash entry.ticket_address added)
  ]

  abbrev pub answered : Option Response → Bool
  answered none = false
  answered (some _) = true

  unfoldable pub set_added_tickets : Daemon → Timing → List TicketEntry → Daemon × Bool
  unfolding added_of_entries
  set_added_tickets d timing entries =
      let (d', response) = process_command d timing (record (query set_added_low_fee_tickets) {
        request_ticket_data = added_of_entries entries [];
      }) in
      (d', answered response)

  -- The loop of `SetUserVotingPrefs`.
  unfoldable pub prefs_of_entries :
      List UserVotingConfigEntry → GoMap String UserVotingConfig → GoMap String UserVotingConfig
  prefs_of_entries [] prefs = prefs
  prefs_of_entries (entry ∷ entries) prefs = prefs_of_entries entries (
      put entry.multi_sig_address
        (record {
          userid = entry.user_id;
          multi_sig_address = entry.multi_sig_address;
          vote_bits = uint16 entry.vote_bits;
          vote_bits_version = uint32 entry.vote_bits_version;
        })
        prefs)

  unfoldable pub set_user_prefs : Daemon → Timing → List UserVotingConfigEntry → Daemon × Bool
  unfolding prefs_of_entries
  set_user_prefs d timing entries =
      let (d', response) = process_command d timing (record (query set_user_voting_prefs) {
        request_user_data = prefs_of_entries entries [];
      }) in
      (d', answered response)
