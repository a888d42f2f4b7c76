-- ===== src/Grpc/Server/Refined.antt =====
-- The calls of the daemon against the steps of its channels.
use hxstakepool.Prelude.{
  ℕ, Bool, true, false, Option, none, some, ◌≡◌, ◌≢◌, ◌∙◌, refl, sym, ap, subst, inl, inr, arith,
  nat_eq, Bool-cases,
}
use hxstakepool.Stakepoold.Context.{AppContext}
use hxstakepool.Grpc.Server.{
  Daemon, Timing, in_time, late, never_sent, GrpcCommandQueue, Response, silent, tickets_msa, empty,
  process_command, handle_command, is_silent, answers_locked,
}
use hxstakepool.Grpc.Server.Channels.{
  Channels, Caller, Reach, call, take_command, respond, give_up_offering, give_up_waiting, here,
  next, idle, sending, absent, offering, waiting, received, gone, accept, give_up, set_caller,
  after_command,
}
use hxstakepool.Grpc.Server.Branches.{
  process_command-stuck, process_command-late-silent, process_command-late,
  process_command-in_time-silent, process_command-in_time,
}
use hxstakepool.Grpc.Server.Blocking.{set_caller-same}

-- A stuck daemon is one whose handler stands at the send of a response to a call that has returned,
-- with the read lock where the daemon says so; any other has its handler at the select.
abbrev pub HandlerIs : Bool → Bool → Channels → Type 0
HandlerIs false locked s = s.handler ≡ idle
HandlerIs true locked s =
    (i : ℕ) × ((response : Response) × (s.handler ≡ sending i response locked)
      × (s.callers i ≡ gone))

abbrev pub Represents : Daemon → Channels → Type 0
Represents d s = (s.ctx ≡ d.ctx) × HandlerIs d.stuck d.read_locked s

-- How a call returns.
abbrev pub outcome : Option Response → Caller
outcome none = gone
outcome (some response) = received response

abbrev pub Arrives : Channels → ℕ → Daemon × Option Response → Type 0
Arrives s i (d', response) =
    (t : Channels) × (Reach s t
      × Represents d' t
      × (t.callers i ≡ outcome response)
      × ((j : ℕ) → j ≢ i → t.callers j ≡ s.callers j))

gone-absent : ¬ (gone ≡ absent)
gone-absent e = absurd (ground (arith, e))

set_caller-other :
    (callers : ℕ → Caller) (i j : ℕ) (caller : Caller)
    → j ≢ i
    → set_caller callers i caller j ≡ callers j
set_caller-other callers i j caller n = ground (arith, n)

HandlerIs-frame :
    (stuck locked : Bool) (s t : Channels) (i : ℕ)
    → t.handler ≡ s.handler
    → ((j : ℕ) → j ≢ i → t.callers j ≡ s.callers j)
    → s.callers i ≡ absent
    → HandlerIs stuck locked s
    → HandlerIs stuck locked t
HandlerIs-frame false locked s t i same frame fresh h = same ∙ h
HandlerIs-frame true locked s t i same frame fresh (k, (response, sends, returned)) = (
  k,
  (
    response,
    same ∙ sends,
    frame k (λ e. absurd (gone-absent (sym returned ∙ ap s.callers e ∙ fresh))) ∙ returned,
  ),
)

abbrev submit : Channels → ℕ → GrpcCommandQueue → Channels
submit s i cmd = record s { callers = set_caller s.callers i (offering cmd) }

set_caller-twice :
    (callers : ℕ → Caller) (i j : ℕ) (a b : Caller)
    → j ≢ i
    → set_caller (set_caller callers i a) i b j ≡ callers j
set_caller-twice callers i j a b n = ground (arith, n)

-- A call that the handler does not take.
give_up-Arrives :
    (d : Daemon) (s : Channels) (cmd : GrpcCommandQueue) (i : ℕ)
    → Represents d s
    → s.callers i ≡ absent
    → Arrives s i (d, none)
give_up-Arrives d s cmd i r fresh = (
  give_up (submit s i cmd) i,
  (
    next (next here (call s i cmd fresh))
        (give_up_offering (submit s i cmd) i cmd (set_caller-same s.callers i (offering cmd))),
    (
      r.0,
      HandlerIs-frame d.stuck d.read_locked s (give_up (submit s i cmd) i) i refl
          (λ j n. set_caller-twice s.callers i j (offering cmd) gone n) fresh r.1,
    ),
    set_caller-same (submit s i cmd).callers i gone,
    λ j n. set_caller-twice s.callers i j (offering cmd) gone n,
  ),
)

after_command-silent :
    (i : ℕ) (cmd : GrpcCommandQueue) (response : Response)
    → is_silent response ≡ true
    → after_command i cmd response ≡ idle
after_command-silent i cmd (tickets_msa _) h = absurd (ground (arith, h))
after_command-silent i cmd empty h = absurd (ground (arith, h))
after_command-silent i cmd silent h = refl

after_command-sends :
    (i : ℕ) (cmd : GrpcCommandQueue) (response : Response)
    → is_silent response ≡ false
    → after_command i cmd response ≡ sending i response (answers_locked cmd.command)
after_command-sends i cmd (tickets_msa _) h = refl
after_command-sends i cmd empty h = refl
after_command-sends i cmd silent h = absurd (ground (arith, h))

module _ (s : Channels) (cmd : GrpcCommandQueue) (i : ℕ) (is_idle : s.handler ≡ idle)
    (fresh : s.callers i ≡ absent) where
  abbrev accepted : Channels
  accepted = accept (submit s i cmd) i cmd

  accepted-Reach : Reach s accepted
  accepted-Reach =
      next (next here (call s i cmd fresh))
        (take_command (submit s i cmd) i cmd is_idle (set_caller-same s.callers i (offering cmd)))

  accepted-waiting : accepted.callers i ≡ waiting
  unfolding accept
  accepted-waiting = set_caller-same (submit s i cmd).callers i waiting

  accepted-frame :
      (j : ℕ) (caller : Caller) → j ≢ i → set_caller accepted.callers i caller j ≡ s.callers j
  unfolding accept
  accepted-frame j caller n =
      set_caller-twice (submit s i cmd).callers i j waiting caller n
      ∙ set_caller-other s.callers i j (offering cmd) n

  -- A call that gives up after the handler took its command.
  late-Arrives :
      (d : Daemon)
      → (handle_command s.ctx cmd).0 ≡ d.ctx
      → HandlerIs d.stuck d.read_locked (give_up accepted i)
      → Arrives s i (d, none)
  unfolding accept
  late-Arrives d e h = (
    give_up accepted i,
    (
      next accepted-Reach (give_up_waiting accepted i accepted-waiting),
      (e, h),
      set_caller-same accepted.callers i gone,
      λ j n. accepted-frame j gone n,
    ),
  )

  -- A call that gets the response that its command has.
  in_time-Arrives :
      (d : Daemon) (response : Response)
      → (handle_command s.ctx cmd).0 ≡ d.ctx
      → (handle_command s.ctx cmd).1 ≡ response
      → d.stuck ≡ false
      → is_silent response ≡ false
      → Arrives s i (d, some response)
  unfolding accept
  in_time-Arrives d response e answers free loud = (
    record accepted { handler = idle; callers = set_caller accepted.callers i (received response) },
    (
      next accepted-Reach (
          respond accepted i response (answers_locked cmd.command)
            (ap (after_command i cmd) answers ∙ after_command-sends i cmd response loud)
            accepted-waiting),
      (e, rw free refl),
      set_caller-same accepted.callers i (received response),
      λ j n. accepted-frame j (received response) n,
    ),
  )

  -- A call of a command that is not registered, which has no response and ends when it gives up.
  silent-Arrives :
      (d : Daemon)
      → (handle_command s.ctx cmd).0 ≡ d.ctx
      → d.stuck ≡ false
      → is_silent (handle_command s.ctx cmd).1 ≡ true
      → Arrives s i (d, none)
  unfolding accept
  silent-Arrives d e free quiet = late-Arrives d e (rw free (after_command-silent i cmd _ quiet))

free-Arrives :
    (d : Daemon) (s : Channels) (timing : Timing) (cmd : GrpcCommandQueue) (i : ℕ)
    → s.ctx ≡ d.ctx
    → s.handler ≡ idle
    → s.callers i ≡ absent
    → d.stuck ≡ false
    → Arrives s i (process_command d timing cmd)
unfolding process_command accept
free-Arrives d s never_sent cmd i e is_idle fresh free =
    give_up-Arrives d s cmd i (e, rw free is_idle) fresh
free-Arrives d s late cmd i e is_idle fresh free =
    let same = ap (λ (c : AppContext). (handle_command c cmd).0) e in
    elim (Bool-cases (is_silent (handle_command d.ctx cmd).1)) [
      | inl quiet ↦
          subst (Arrives s i) (sym (process_command-late-silent d cmd free quiet))
            (silent-Arrives s cmd i is_idle fresh _ same free (rw e quiet))
      | inr loud ↦ subst (Arrives s i) (sym (process_command-late d cmd free loud)) (
          late-Arrives s cmd i is_idle fresh
            (record {
              ctx = (handle_command d.ctx cmd).0;
              stuck = true;
              read_locked = answers_locked cmd.command;
            })
            same
            (
              i,
              (
                (handle_command s.ctx cmd).1,
                after_command-sends i cmd _ (rw e loud),
                set_caller-same (accepted s cmd i is_idle fresh).callers i gone,
              ),
            ))
    ]
free-Arrives d s in_time cmd i e is_idle fresh free =
    let same = ap (λ (c : AppContext). (handle_command c cmd).0) e in
    elim (Bool-cases (is_silent (handle_command d.ctx cmd).1)) [
      | inl quiet ↦
          subst (Arrives s i) (sym (process_command-in_time-silent d cmd free quiet))
            (silent-Arrives s cmd i is_idle fresh _ same free (rw e quiet))
      | inr loud ↦ subst (Arrives s i) (sym (process_command-in_time d cmd free loud)) (
          in_time-Arrives s cmd i is_idle fresh _ (handle_command d.ctx cmd).1 same
            (ap (λ (c : AppContext). (handle_command c cmd).1) e) free loud)
    ]

-- The three ways of a call that `process_command` tells apart are runs of the channels: from any state of
-- the channels that the daemon represents, with a number that no call has, steps lead to a state that the
-- daemon after the call represents, where that call has returned with the same outcome and every other
-- call is as it was.
pub process_command-Arrives :
    (d : Daemon) (s : Channels) (timing : Timing) (cmd : GrpcCommandQueue) (i : ℕ)
    → Represents d s
    → s.callers i ≡ absent
    → Arrives s i (process_command d timing cmd)
process_command-Arrives d s timing cmd i r fresh = elim (Bool-cases d.stuck) [
  | inl stuck ↦
      subst (Arrives s i) (sym (process_command-stuck d timing cmd stuck))
        (give_up-Arrives d s cmd i r fresh)
  | inr free ↦
      free-Arrives d s timing cmd i r.0 (subst (λ b. HandlerIs b d.read_locked s) free r.1) fresh
        free
]
