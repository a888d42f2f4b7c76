-- ===== src/Grpc/Server/Blocking.antt =====
-- What a caller that gives up too soon does to the handler.
use hxstakepool.Prelude.{
  ℕ, String, Bool, ◌≡◌, refl, inl, inr, arith, ◌∙◌, Bool-cases, subst, nat_eq, ==_iff, ==_refl,
  ◌==◌,
}
use hxstakepool.Stakepoold.Context.{AppContext, Hash, UserVotingConfig}
use hxstakepool.GoMap.{GoMap}
use hxstakepool.Grpc.Server.{
  GrpcCommandQueue, Response, handle_command, answers_locked, CommandName, unregistered,
  run_command, get_added_low_fee_tickets, get_ignored_low_fee_tickets, get_live_tickets,
  set_added_low_fee_tickets, set_user_voting_prefs,
}
use hxstakepool.Grpc.Server.Channels.{
  Channels, Caller, Step, Reach, call, take_command, respond, give_up_offering, give_up_waiting,
  here, next, idle, sending, offering, waiting, received, gone, accept, give_up, set_caller,
  after_command,
}

-- A command of the service.
abbrev pub IsRegistered : CommandName → Type 0
IsRegistered (unregistered _) = ⊥
IsRegistered _ = Unit

-- The handler stands at the send of a response to a call that has returned.
abbrev Blocked : ℕ → Response → Bool → Channels → Type 0
Blocked i response locked s = (s.handler ≡ sending i response locked) × (s.callers i ≡ gone)

-- The handler and the state are the same, and no further call has an answer.
abbrev pub NothingMoves : Channels → Channels → Type 0
NothingMoves s t =
    (t.ctx ≡ s.ctx)
    × (t.handler ≡ s.handler)
    × ((j : ℕ) (response : Response)
        → t.callers j ≡ received response
        → s.callers j ≡ received response)

pub set_caller-same :
    (callers : ℕ → Caller) (i : ℕ) (caller : Caller) → set_caller callers i caller i ≡ caller
set_caller-same callers i caller = rw (==_refl i) refl

-- A change of another call's place leaves a returned call as it is, and makes no answer of its own.
set_caller-gone :
    (callers : ℕ → Caller) (i j : ℕ) (caller : Caller)
    → callers i ≡ gone
    → ¬ (callers j ≡ gone)
    → set_caller callers j caller i ≡ gone
set_caller-gone callers i j caller h n = elim (Bool-cases (i == j)) [
  | inl same ↦ absurd (n (subst (λ k. callers k ≡ gone) ((==_iff i j).0 same) h))
  | inr other ↦ rw other h
]

set_caller-received :
    (callers : ℕ → Caller) (j k : ℕ) (caller : Caller) (response : Response)
    → ¬ (caller ≡ received response)
    → set_caller callers j caller k ≡ received response
    → callers k ≡ received response
set_caller-received callers j k caller response n h = ground (arith, n, h)

give_up-NothingMoves :
    (s : Channels) (i j : ℕ) (response : Response) (locked : Bool)
    → ¬ (s.callers j ≡ gone)
    → Blocked i response locked s
    → Blocked i response locked (give_up s j) × NothingMoves s (give_up s j)
give_up-NothingMoves s i j response locked n b = (
  (b.0, set_caller-gone s.callers i j gone b.1 n),
  (refl, refl, (λ k r. set_caller-received s.callers j k gone r (λ e. absurd (ground (arith, e))))),
)

Step-Blocked :
    {s t : Channels} (i : ℕ) (response : Response) (locked : Bool)
    → Step s t
    → Blocked i response locked s
    → Blocked i response locked t × NothingMoves s t
Step-Blocked i response locked (call s j cmd h) b = (
  (b.0, set_caller-gone s.callers i j (offering cmd) b.1 (λ g. absurd (ground (arith, g, h)))),
  (
    refl,
    refl,
    (λ k r. set_caller-received s.callers j k (offering cmd) r (λ e. absurd (ground (arith, e)))),
  ),
)
Step-Blocked i response locked (take_command s j cmd h h2) b = absurd (ground (arith, h, b))
Step-Blocked i response locked (respond s j r l h h2) b = absurd (ground (arith, h, h2, b))
Step-Blocked i response locked (give_up_offering s j cmd h) b =
    give_up-NothingMoves s i j response locked (λ g. absurd (ground (arith, g, h))) b
Step-Blocked i response locked (give_up_waiting s j h) b =
    give_up-NothingMoves s i j response locked (λ g. absurd (ground (arith, g, h))) b

Reach-Blocked :
    {s t : Channels} (i : ℕ) (response : Response) (locked : Bool)
    → Blocked i response locked s
    → Reach s t
    → Blocked i response locked t × NothingMoves s t
Reach-Blocked i response locked b here = (b, (refl, refl, λ k r h. h))
Reach-Blocked i response locked b (next reach step) =
    let (b1, (ctx1, handler1, answers1)) = Reach-Blocked i response locked b reach in
    let (b2, (ctx2, handler2, answers2)) = Step-Blocked i response locked step b1 in
    (b2, (ctx2 ∙ ctx1, handler2 ∙ handler1, λ k r h. answers1 k r (answers2 k r h)))

run_command-sends :
    (ctx : AppContext) (tickets : GoMap Hash String) (users : GoMap String UserVotingConfig) (i : ℕ)
    (cmd : GrpcCommandQueue) (name : CommandName)
    → IsRegistered name
    → (response : Response) × (after_command i cmd (run_command ctx tickets users name).1
        ≡ sending i response (answers_locked cmd.command))
run_command-sends ctx tickets users i cmd get_added_low_fee_tickets h = (_, refl)
run_command-sends ctx tickets users i cmd get_ignored_low_fee_tickets h = (_, refl)
run_command-sends ctx tickets users i cmd get_live_tickets h = (_, refl)
run_command-sends ctx tickets users i cmd set_added_low_fee_tickets h = (_, refl)
run_command-sends ctx tickets users i cmd set_user_voting_prefs h = (_, refl)
run_command-sends ctx tickets users i cmd (unregistered _) h = absurd h

-- The case of a registered command ends at the send of its response.
registered-sends :
    (s : Channels) (i : ℕ) (cmd : GrpcCommandQueue)
    → IsRegistered cmd.command
    → (response : Response) × ((accept s i cmd).handler
        ≡ sending i response (answers_locked cmd.command))
unfolding accept handle_command
registered-sends s i cmd h =
    run_command-sends s.ctx cmd.request_ticket_data cmd.request_user_data i cmd cmd.command h

-- The context of a call can end after the handler took its registered command and before the response.
-- Once that happens, no step of the service moves anything: in every later state the daemon's state is
-- as the command left it, the handler stands at the send of the response, and no call has an answer that
-- had none before.
pub give_up_blocks :
    {t : Channels} (s : Channels) (i : ℕ) (cmd : GrpcCommandQueue)
    → s.handler ≡ idle
    → s.callers i ≡ offering cmd
    → IsRegistered cmd.command
    → Reach (give_up (accept s i cmd) i) t
    → Reach s (give_up (accept s i cmd) i)
      × (t.ctx ≡ (handle_command s.ctx cmd).0)
      × ((response : Response) × (t.handler ≡ sending i response (answers_locked cmd.command)))
      × ((j : ℕ) (response : Response)
          → t.callers j ≡ received response
          → s.callers j ≡ received response)
unfolding accept
give_up_blocks s i cmd is_idle offered registered reach =
    let (response, sends) = registered-sends s i cmd registered in
    let (b, (ctx, handler, answers)) =
      Reach-Blocked i response (answers_locked cmd.command)
        (sends, set_caller-same (accept s i cmd).callers i gone) reach in
    (
      next (next here (take_command s i cmd is_idle offered))
          (give_up_waiting (accept s i cmd) i (set_caller-same s.callers i waiting)),
      ctx,
      (response, b.0),
      λ j r h.
          set_caller-received s.callers i j waiting r (λ e. absurd (ground (arith, e)))
            (set_caller-received (accept s i cmd).callers i j gone r
              (λ e. absurd (ground (arith, e))) (answers j r h)),
    )
