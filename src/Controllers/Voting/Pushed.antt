-- ===== src/Controllers/Voting/Pushed.antt =====
-- What the daemons hold for a user who voted.
use hxstakepool.Prelude.{
  ℕ, ◌+◌, ◌≤◌, ◌<◌, ◌^◌, String, string_eq, nat_eq, nat_beq, nat_beq_iff, Bool, true, false, List,
  [], ◌∷◌, Option, none, some, ◌==◌, ==_iff, ◌≡◌, ◌≢◌, refl, ◌∙◌, sym, subst, arith, inl, inr,
  Bool-cases, Option-cases,
}
use hxstakepool.Prelude.Words.{uint16, uint32}
use hxstakepool.GoMap.{GoMap, lookup, IsMap}
use hxstakepool.Stakepoold.Context.{Hash, UserVotingConfig}
use hxstakepool.Grpc.Messages.{HashBytes}
use hxstakepool.Grpc.Server.{Daemon}
use hxstakepool.Grpc.Client.{DbUser}
use hxstakepool.Grpc.Client.Laws.{prefs_in_db, stakepoold_set_user_voting_prefs-lookup}
use hxstakepool.Controllers.VoteBits.{
  Deployment, Users, reset_users, users_with_address, check_and_reset_user_vote_bits,
}
use hxstakepool.Controllers.VoteBits.Listed.{reset_users-keeps, users_with_address_complete}
use hxstakepool.Controllers.VoteBits.Reset.{IsCurrent}
use hxstakepool.Controllers.VoteBits.Sweep.{
  check_and_reset_user_vote_bits_sound, check_and_reset_user_vote_bits-IsMap,
}
use hxstakepool.Controllers.UpdateAll.{
  Connection, push, push_all, update_users, stakepoold_update_all,
}
use hxstakepool.Controllers.UpdateAll.Laws.{IsReached}
use hxstakepool.Controllers.Voting.Addresses.{KeepsAddresses, reset_users-KeepsAddresses}

-- No other user has the address of the one with the id.
abbrev pub IsSole : Users → (uid : ℕ) → (msa : String) → Type 0
IsSole users uid msa =
    (j : ℕ) (u : DbUser) → lookup j users ≡ some u → u.multi_sig_address ≡ msa → j ≡ uid

pub KeepsAddresses-IsSole :
    (db db2 : Users) (uid : ℕ) (msa : String)
    → KeepsAddresses db db2
    → IsSole db uid msa
    → IsSole db2 uid msa
KeepsAddresses-IsSole db db2 uid msa keeps sole j u e mine =
    let (old, f, same) = keeps j u e in sole j old f (same ∙ mine)

-- What the daemon is told of a user.
abbrev pub config_of : (uid : ℕ) → DbUser → UserVotingConfig
config_of uid user = record {
  userid = uid;
  multi_sig_address = user.multi_sig_address;
  vote_bits = uint16 user.vote_bits;
  vote_bits_version = uint32 user.vote_bits_version;
}

-- Of the connections and the daemons behind them, those that were reached hold the settings.
abbrev pub ReachedHold : UserVotingConfig → List Connection → List Daemon → Type 0
ReachedHold config [] daemons = Unit
ReachedHold config (c ∷ connections) [] = ⊥
ReachedHold config (c ∷ connections) (d ∷ daemons) =
    (IsReached c → lookup config.multi_sig_address d.ctx.user_voting_config ≡ some config)
    × ReachedHold config connections daemons

module _ (b : HashBytes) where
  rest-lookup :
      (k : ℕ) (v : DbUser) (users : Users) (j : ℕ) (u : DbUser)
      → IsMap ((k, v) ∷ users)
      → lookup j users ≡ some u
      → lookup j ((k, v) ∷ users) ≡ some u
  unfolding lookup
  rest-lookup k v users j u (new, once) e = ground (arith, new, e, nat_beq_iff k j)

  prefs_in_db-none :
      (msa : String) (users : Users) (found : Option UserVotingConfig)
      → IsMap users
      → ((j : ℕ) (u : DbUser) → lookup j users ≡ some u → u.multi_sig_address ≢ msa)
      → prefs_in_db b msa users found ≡ found
  unfolding lookup
  prefs_in_db-none msa [] found once others = refl
  prefs_in_db-none msa ((k, v) ∷ users) found once others =
      let other : (v.multi_sig_address == msa) ≡ false =
        ground
          (arith, others k v (ground (arith, nat_beq_iff k k)), ==_iff v.multi_sig_address msa) in
      let rest =
        prefs_in_db-none msa users found once.1
          (λ j u e. others j u (rest-lookup k v users j u once e)) in
      ground (arith, other, rest)

  prefs_in_db-sole :
      (uid : ℕ) (user : DbUser) (users : Users) (found : Option UserVotingConfig)
      → IsMap users
      → lookup uid users ≡ some user
      → IsSole users uid user.multi_sig_address
      → prefs_in_db b user.multi_sig_address users found ≡ some (config_of uid user)
  unfolding lookup
  prefs_in_db-sole uid user [] found once there sole = absurd (ground (arith, there))
  prefs_in_db-sole uid user ((k, v) ∷ users) found once there sole =
      let rest =
        λ (j : ℕ) (u : DbUser) (e : lookup j users ≡ some u). rest-lookup k v users j u once e in
      let msa = user.multi_sig_address in
      elim (Bool-cases (nat_beq k uid)) [
        | inr other ↦
            let differ : (v.multi_sig_address == msa) ≡ false = ground (
              arith,
              other,
              sole k v (ground (arith, nat_beq_iff k k)),
              ==_iff v.multi_sig_address msa,
              nat_beq_iff k uid,
            ) in
            let all =
              prefs_in_db-sole uid user users found once.1 (ground (arith, there, other))
                (λ j u e mine. sole j u (rest j u e) mine) in
            ground (arith, differ, all)
        | inl same ↦
            let is : k ≡ uid = (nat_beq_iff k uid).0 same in
            let one : v ≡ user = ground (arith, there, same) in
            let mine : (v.multi_sig_address == msa) ≡ true =
              ground (arith, one, ==_iff v.multi_sig_address msa) in
            let none_left =
              prefs_in_db-none msa users (some (config_of uid user)) once.1
                (λ j u e a. ground (arith, sole j u (rest j u e) a, is, e, once.0)) in
            ground (arith, mine, one, is, none_left)
      ]

  module _ (new_hash_from_str : String → Option Hash) where
    push_all-ReachedHold :
        (uid : ℕ) (user : DbUser) (users : Users) (connections : List Connection)
        → prefs_in_db b user.multi_sig_address users none ≡ some (config_of uid user)
        → ReachedHold
            (config_of uid user)
            connections
            (push_all b new_hash_from_str update_users [] users connections).0
    unfolding push_all push
    push_all-ReachedHold uid user users [] held = tt
    push_all-ReachedHold uid user users (c ∷ connections) held = (
      λ (free, t, timing).
          (let there =
              stakepoold_set_user_voting_prefs-lookup b c.daemon users user.multi_sig_address
                free in
            rw (timing) (there.0 ∙ held)),
      push_all-ReachedHold uid user users connections held,
    )

    module _ (update_works : ℕ → Bool) (deployments : GoMap ℕ (List Deployment))
        (vote_version user_max : ℕ) (small : vote_version < 2 ^ 32) where
      -- An update with the users tells the daemons of a user who is in the table.
      pub update_users-ReachedHold :
          (db : Users) (connections : List Connection) (uid : ℕ) (user : DbUser)
          → lookup uid db ≡ some user
          → IsCurrent deployments vote_version user
          → user.multi_sig_address ≢ ""
          → IsSole db uid user.multi_sig_address
          → 1 ≤ uid
          → uid < 1 + user_max
          → let outcome =
              stakepoold_update_all b new_hash_from_str update_works deployments vote_version
                user_max update_users none db connections in
            outcome.fine ≡ true → ReachedHold (config_of uid user) connections outcome.daemons
      unfolding stakepoold_update_all check_and_reset_user_vote_bits
      update_users-ReachedHold db connections uid user there current named sole low high fine =
          let read =
            check_and_reset_user_vote_bits update_works deployments vote_version user_max db in
          let outcome =
            stakepoold_update_all b new_hash_from_str update_works deployments vote_version user_max
              update_users none db connections in
          let swept = reset_users update_works deployments vote_version 1 user_max db in
          elim (Option-cases read.1) [
            | inl failed ↦ absurd (ground (arith, fine, failed))
            | inr (users, found) ↦
                let same : outcome.daemons
                    ≡ (push_all b new_hash_from_str update_users [] users connections).0 =
                  ground (arith, found) in
                let all : users_with_address update_works deployments vote_version 1 user_max
                      swept.0 []
                    ≡ users =
                  ground (arith, found, Bool-cases swept.1) in
                let kept =
                  reset_users-keeps update_works deployments vote_version small 1 user_max db uid
                    user current there in
                let listed : lookup uid users ≡ some user =
                  subst (λ m. lookup uid m ≡ some user) all
                    (users_with_address_complete update_works deployments vote_version 1 user_max
                      swept.0 [] uid user low high kept named) in
                let sole2 =
                  KeepsAddresses-IsSole db swept.0 uid user.multi_sig_address
                    (reset_users-KeepsAddresses update_works deployments vote_version 1 user_max db)
                    sole in
                let sole3 : IsSole users uid user.multi_sig_address = λ j u e. sole2 j u (
                  ground (
                    arith,
                    (check_and_reset_user_vote_bits_sound update_works deployments vote_version
                        small user_max db j u found e).0,
                    Bool-cases swept.1,
                  )) in
                let once =
                  check_and_reset_user_vote_bits-IsMap update_works deployments vote_version small
                    user_max db found in
                subst (ReachedHold (config_of uid user) connections) (sym same) (
                  push_all-ReachedHold uid user users connections
                    (prefs_in_db-sole uid user users none once listed sole3))
          ]
