-- ===== src/Controllers/Voting/Tests.antt =====
-- A user who votes yes, and two daemons, one of which answers too late.
use hxstakepool.Prelude.{
  ℕ, string_eq, nat_eq, true, false, List, [], ◌∷◌, Option, none, some, ◌≡◌, ◌↔◌, refl, arith,
}
use hxstakepool.GoMap.{GoMap, lookup}
use hxstakepool.Stakepoold.Context.{Hash, AppContext}
use hxstakepool.Grpc.Messages.{HashBytes}
use hxstakepool.Grpc.Server.{Daemon, in_time, late}
use hxstakepool.Grpc.Client.{DbUser}
use hxstakepool.Controllers.VoteBits.{
  Deployment, Users, choose, agendas_used, is_valid_vote_bits, get_agendas,
}
use hxstakepool.Controllers.UpdateAll.{Connection}
use hxstakepool.Controllers.Voting.{
  voting_success, answered, digits, magnitude, atoi, generate, voting_post, api_voting,
}
use hxstakepool.Prelude.Hex.{codes}
use hxstakepool.Controllers.Voting.Stored.{voting_post-lookup}
use hxstakepool.Controllers.Voting.Same.{voting_post-api_voting}

numbers :
    (atoi (codes "-1") ≡ some 18446744073709551615)
    × (atoi (codes "+4") ≡ some 4)
    × (atoi (codes "4x") ≡ none)
    × (atoi (codes "") ≡ none)
unfolding atoi magnitude digits
numbers = (refl, refl, refl, refl)

abbrev one_byte : List ℕ → Option Hash
one_byte [] = none
one_byte (x ∷ rest) = some x

abbrev bytes : HashBytes
bytes = record { new_hash = one_byte; clone_bytes = λ h. h ∷ [] }

abbrev context : AppContext
context = record {
  added_low_fee_tickets_msa = [];
  ignored_low_fee_tickets_msa = [];
  live_tickets_msa = [];
  user_voting_config = [];
  fee_addrs = [];
  pool_fees = 5;
  voting_config = record { vote_bits = 1; vote_version = 4; vote_bits_extended = "" };
  testing = false;
}

abbrev daemon : Daemon
daemon = record { ctx = context; stuck = false; read_locked = false }

abbrev connections : List Connection
connections =
    record { daemon = daemon; tickets_timing = in_time; users_timing = in_time }
    ∷ record { daemon = daemon; tickets_timing = in_time; users_timing = late }
    ∷ []

abbrev agenda : Deployment
agenda = record { mask = 6; choices = 0 ∷ 2 ∷ 4 ∷ [] }

abbrev deployments : GoMap ℕ (List Deployment)
deployments = (4, agenda ∷ []) ∷ []

abbrev user : DbUser
user = record { multi_sig_address = "DcUser"; vote_bits = 1; vote_bits_version = 4 }

abbrev table : Users
table = (1, user) ∷ []

voting_post-lookup_example :
    let after =
      voting_post bytes
        (λ s. none)
        (λ id. true)
        deployments
        4
        1
        (some 1)
        (λ i. "4")
        table
        connections in
    (after.answer ≡ voting_success "successfully updated voting preferences")
    × (lookup 1 after.table ≡ some (record user { vote_bits = 5 }))
voting_post-lookup_example =
    voting_post-lookup (λ id. true) deployments 4 (omega arith) bytes (λ s. none) 1 1 (λ i. "4")
      table connections user 5 (unfold lookup in refl) refl
      (unfold generate atoi magnitude digits get_agendas lookup in refl)
      (unfold is_valid_vote_bits agendas_used choose get_agendas lookup in refl) refl

voting_post-api_voting_example :
    let form =
      voting_post bytes
        (λ s. none)
        (λ id. true)
        deployments
        4
        1
        (some 1)
        (λ i. "4")
        table
        connections in
    let api =
      api_voting bytes
        (λ s. none)
        (λ id. true)
        deployments
        4
        1
        (some 1)
        "65541"
        table
        connections in
    (form.table ≡ api.table)
    × (form.daemons ≡ api.daemons)
    × ((form.answer ≡ voting_success "successfully updated voting preferences")
        ↔ (api.answer ≡ answered "successfully updated voting preferences"))
voting_post-api_voting_example =
    voting_post-api_voting bytes (λ s. none) (λ id. true) deployments 4 1 1 (λ i. "4") "65541" 65541
      5 table connections (unfold generate atoi magnitude digits get_agendas lookup in refl)
      (unfold atoi magnitude digits in refl) refl
