-- ===== src/Controllers/Voting/Stored.antt =====
-- The vote bits that a user chose are in the table after the handler, the update of the daemons included,
-- which resets the vote bits of those who have none that count.
use Prim.Native.Nat.{bit_or}
use hxstakepool.Prelude.{
  ℕ, ◌+◌, ◌<◌, ◌^◌, String, string_eq, nat_eq, nat_beq, nat_beq_iff, Bool, true, List, [], ◌∷◌,
  Option, some, ◌≡◌, refl, arith, inl, inr, Bool-cases, Option-cases,
}
use hxstakepool.Prelude.Words.{uint16, uint32}
use hxstakepool.Prelude.Hex.{codes}
use hxstakepool.GoMap.{GoMap, lookup}
use hxstakepool.GoMap.Laws.{lookup-put}
use hxstakepool.Stakepoold.Context.{Hash}
use hxstakepool.Grpc.Messages.{HashBytes}
use hxstakepool.Grpc.Client.{DbUser}
use hxstakepool.Controllers.VoteBits.{
  Deployment, is_valid_vote_bits, get_agendas, Users, update_vote_bits_by_id, reset_users,
  check_and_reset_user_vote_bits,
}
use hxstakepool.Controllers.VoteBits.Listed.{reset_users-keeps}
use hxstakepool.Controllers.VoteBits.Reset.{IsCurrent}
use hxstakepool.Controllers.UpdateAll.{Connection, stakepoold_update_all}
use hxstakepool.Controllers.Voting.{voting_success, atoi, generate, push_changed, voting_post}

uint16_idem : (x : ℕ) → uint16 (uint16 x) ≡ uint16 x
uint16_idem x = omega arith

pub generate-uint16 :
    (agenda : ℕ → String) (i : ℕ) (deployments : List Deployment) (start : ℕ) {bits : ℕ}
    → uint16 start ≡ start
    → generate agenda i deployments start ≡ some bits
    → uint16 bits ≡ bits
unfolding generate
generate-uint16 agenda i [] start small e = ground (arith, e, small)
generate-uint16 agenda i (d ∷ deployments) start small e =
    elim (Option-cases (atoi (codes (agenda i)))) [
      | inl none_read ↦ absurd (ground (arith, none_read, e))
      | inr (avi, read) ↦
          let next = bit_or start (uint16 avi) in
          generate-uint16 agenda (i + 1) deployments (uint16 next) (uint16_idem next)
            (ground (arith, read, e))
    ]

module _ (update_works : ℕ → Bool) (deployments : GoMap ℕ (List Deployment)) (vote_version : ℕ)
    (small : vote_version < 2 ^ 32) where
  module _ (b : HashBytes) (new_hash_from_str : String → Option Hash) (user_max : ℕ) where
    push_changed-keeps :
        (old bits : ℕ) (db : Users) (connections : List Connection) (j : ℕ) (u : DbUser)
        → IsCurrent deployments vote_version u
        → lookup j db ≡ some u
        → lookup j
            (push_changed b new_hash_from_str update_works deployments vote_version user_max old
              bits db connections).0
          ≡ some u
    unfolding push_changed stakepoold_update_all check_and_reset_user_vote_bits
    push_changed-keeps old bits db connections j u current there =
        let swept = reset_users update_works deployments vote_version 1 user_max db in
        ground (
          arith,
          there,
          reset_users-keeps update_works deployments vote_version small 1 user_max db j u current
              there,
          Bool-cases (nat_beq (uint16 old) bits),
          Bool-cases swept.1,
        )

    -- Where a user's settings are for the wallets' vote version, every agenda's value of the form is a
    -- number, the bits that they make are valid and the row can be written, `VotingPost` ends with its
    -- success, and the user's row has these bits, also after the daemons were updated.
    pub voting_post-lookup :
        (uid : ℕ) (agenda : ℕ → String) (db : Users) (connections : List Connection) (user : DbUser)
        (bits : ℕ)
        → lookup uid db ≡ some user
        → uint32 user.vote_bits_version ≡ vote_version
        → generate agenda 0 (get_agendas deployments vote_version) 1 ≡ some bits
        → is_valid_vote_bits (get_agendas deployments vote_version) bits ≡ true
        → update_works uid ≡ true
        → let after =
            voting_post b new_hash_from_str update_works deployments vote_version user_max
              (some uid)
              agenda
              db
              connections in
          (after.answer ≡ voting_success "successfully updated voting preferences")
          × (lookup uid after.table ≡ some (record user { vote_bits = bits }))
    unfolding voting_post update_vote_bits_by_id
    voting_post-lookup uid agenda db connections user bits there version made valid works =
        let new : DbUser = record user { vote_bits = bits } in
        let db2 = (update_vote_bits_by_id update_works db uid bits).0 in
        let word = generate-uint16 agenda 0 (get_agendas deployments vote_version) 1 refl made in
        let stored : lookup uid db2 ≡ some new =
          ground (arith, there, works, lookup-put uid uid new db, nat_beq_iff uid uid) in
        let kept =
          push_changed-keeps user.vote_bits bits db2 connections uid new
            (version, ground (arith, word, valid)) stored in
        (ground (arith, there, made, valid, works), ground (arith, there, made, valid, works, kept))
