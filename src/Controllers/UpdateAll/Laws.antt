-- ===== src/Controllers/UpdateAll/Laws.antt =====
-- With which bits the daemons vote once they are updated.
use hxstakepool.Prelude.{ℕ, String, string_eq, nat_eq, true, false, List, [], ◌∷◌, some, ◌≡◌, All}
use hxstakepool.GoMap.{GoMap, lookup}
use hxstakepool.Stakepoold.Context.{UserVotingConfig}
use hxstakepool.Grpc.Server.{Daemon, in_time}
use hxstakepool.Controllers.VoteBits.{Deployment, Users, is_valid_vote_bits, get_agendas}
use hxstakepool.Controllers.VoteBits.Reset.{IsCurrent}
use hxstakepool.Controllers.UpdateAll.{Connection}

-- A daemon that is not blocked, and that both calls reach in time.
abbrev pub IsReached : Connection → Type 0
IsReached c = (c.daemon.stuck ≡ false) × (c.tickets_timing ≡ in_time) × (c.users_timing ≡ in_time)

module _ (deployments : GoMap ℕ (List Deployment)) (vote_version : ℕ) where
  -- The settings that a daemon holds are for the vote version, with bits valid for its agendas.
  abbrev pub HoldsValid : Daemon → Type 0
  HoldsValid d =
      (msa : String) (c : UserVotingConfig)
      → lookup msa d.ctx.user_voting_config ≡ some c
      → (c.vote_bits_version ≡ vote_version)
        × (is_valid_vote_bits (get_agendas deployments vote_version) c.vote_bits ≡ true)

  -- Of the connections and the daemons behind them after the update, those that it reached.
  abbrev pub ReachedHoldValid : List Connection → List Daemon → Type 0
  ReachedHoldValid [] daemons = Unit
  ReachedHoldValid (c ∷ connections) [] = ⊥
  ReachedHoldValid (c ∷ connections) (d ∷ daemons) =
      (IsReached c → HoldsValid d) × ReachedHoldValid connections daemons

  abbrev AllCurrent : Users → Type 0
  AllCurrent users = All (λ entry. IsCurrent deployments vote_version entry.1) users
