-- ===== src/Grpc/Server/Branches.antt =====
-- The branches of `process_command`.
use hxstakepool.Prelude.{true, false, none, some, ◌≡◌, refl, arith}
use hxstakepool.Grpc.Server.{
  Daemon, Timing, in_time, late, never_sent, GrpcCommandQueue, process_command, handle_command,
  is_silent, answers_locked,
}

pub process_command-stuck :
    (d : Daemon) (timing : Timing) (cmd : GrpcCommandQueue)
    → d.stuck ≡ true
    → process_command d timing cmd ≡ (d, none)
unfolding process_command
process_command-stuck d never_sent cmd h = refl
process_command-stuck d in_time cmd h = ground (arith, h)
process_command-stuck d late cmd h = ground (arith, h)

module _ (d : Daemon) (cmd : GrpcCommandQueue) (free : d.stuck ≡ false) where
  pub process_command-late-silent :
      is_silent (handle_command d.ctx cmd).1 ≡ true
      → process_command d late cmd ≡ (record d { ctx = (handle_command d.ctx cmd).0 }, none)
  unfolding process_command
  process_command-late-silent h = ground (arith, h)

  pub process_command-late :
      is_silent (handle_command d.ctx cmd).1 ≡ false
      → process_command d late cmd ≡ (
        record {
          ctx = (handle_command d.ctx cmd).0;
          stuck = true;
          read_locked = answers_locked cmd.command;
        },
        none,
      )
  unfolding process_command
  process_command-late h = ground (arith, h)

  pub process_command-in_time-silent :
      is_silent (handle_command d.ctx cmd).1 ≡ true
      → process_command d in_time cmd ≡ (record d { ctx = (handle_command d.ctx cmd).0 }, none)
  unfolding process_command
  process_command-in_time-silent h = ground (arith, h)

  pub process_command-in_time :
      is_silent (handle_command d.ctx cmd).1 ≡ false
      → process_command d in_time cmd
        ≡ (record d { ctx = (handle_command d.ctx cmd).0 }, some (handle_command d.ctx cmd).1)
  unfolding process_command
  process_command-in_time h = ground (arith, h)
