-- ===== src/Grpc/Server/Channels.antt =====
-- The queue and the response channels of the service as steps: the selects of `processSetCommand` and
-- `processGetTicketCommand` against the loop of `grpcCommandQueueHandler`. Both channels are
-- unbuffered, so that a send and its receipt are one step. The end of the daemon, which the handler
-- reads at its select only, and the daemon's other goroutines are left out.
use hxstakepool.Prelude.{ℕ, Bool, ◌≡◌, ◌==◌, nat_eq, if◌then◌else◌}
use hxstakepool.Stakepoold.Context.{AppContext}
use hxstakepool.Grpc.Server.{GrpcCommandQueue, Response, silent, handle_command, answers_locked}

-- A call of the service: before its start, in the select that sends the command, in the one that waits
-- for the response, and after each way to return. Its number stands for its response channels.
pub data Caller : Type 0 where
  absent : Caller
  offering : GrpcCommandQueue → Caller
  waiting : Caller
  received : Response → Caller
  gone : Caller

-- The handler at its select, or at the send of a response to a call, with the read lock held or not.
pub data Handler : Type 0 where
  idle : Handler
  sending : ℕ → Response → Bool → Handler

pub record Channels : Type 0 where
  pub ctx : AppContext
  pub handler : Handler
  pub callers : ℕ → Caller

abbrev pub set_caller : (ℕ → Caller) → ℕ → Caller → ℕ → Caller
set_caller callers i caller j = if j == i then caller else callers j

-- Where the case of a command leaves the handler.
abbrev pub after_command : ℕ → GrpcCommandQueue → Response → Handler
after_command i cmd silent = idle
after_command i cmd response = sending i response (answers_locked cmd.command)

-- The handler takes the command of a call, and runs its case up to the send.
unfoldable pub accept : Channels → ℕ → GrpcCommandQueue → Channels
unfolding handle_command
accept s i cmd =
    let (ctx', response) = handle_command s.ctx cmd in
    record {
      ctx = ctx';
      handler = after_command i cmd response;
      callers = set_caller s.callers i waiting;
    }

-- A call whose context is done returns with the context's error.
abbrev pub give_up : Channels → ℕ → Channels
give_up s i = record s { callers = set_caller s.callers i gone }

pub data Step : Channels → Channels → Type 0 where
  call :
      (s : Channels) (i : ℕ) (cmd : GrpcCommandQueue)
      → s.callers i ≡ absent
      → Step s (record s { callers = set_caller s.callers i (offering cmd) })
  take_command :
      (s : Channels) (i : ℕ) (cmd : GrpcCommandQueue)
      → s.handler ≡ idle
      → s.callers i ≡ offering cmd
      → Step s (accept s i cmd)
  respond :
      (s : Channels) (i : ℕ) (response : Response) (locked : Bool)
      → s.handler ≡ sending i response locked
      → s.callers i ≡ waiting
      → Step s (record s { handler = idle; callers = set_caller s.callers i (received response) })
  give_up_offering :
      (s : Channels) (i : ℕ) (cmd : GrpcCommandQueue)
      → s.callers i ≡ offering cmd
      → Step s (give_up s i)
  give_up_waiting : (s : Channels) (i : ℕ) → s.callers i ≡ waiting → Step s (give_up s i)

pub data Reach (s : Channels) : Channels → Type 0 where
  here : Reach s s
  next : {t u : Channels} → Reach s t → Step t u → Reach s u
