-- ===== src/Controllers/VoteBits.antt =====
-- `IsValidVoteBits`, `getAgendas` and `CheckAndResetUserVoteBits` of controllers/main.go, with the
-- updates of helpers/auth.go. The table of users is a map; a SELECT fails where there is no row, and
-- whether an UPDATE of a row works is a parameter.
pub mod Valid
pub mod Reset
pub mod Listed
pub mod Sweep
pub mod Choices
mod Tests
use Prim.Native.Nat.{bit_and, bit_or}
use hxstakepool.Prelude.{
  ℕ, zero, suc, ◌+◌, ◌-◌, String, string_eq, nat_eq, Bool, true, false, not, List, [], ◌∷◌, Option,
  none, some, if◌then◌else◌, nat_beq, ◌==◌,
}
use hxstakepool.Prelude.Words.{uint16, uint32}
use hxstakepool.GoMap.{GoMap, lookup, put}
use hxstakepool.Grpc.Client.{DbUser}

-- `chaincfg.ConsensusDeployment`: the mask of an agenda's vote, and the bits of its choices.
pub record Deployment : Type 0 where
  pub mask : ℕ
  pub choices : List ℕ

-- `a &^ b`
abbrev pub and_not : ℕ → ℕ → ℕ
and_not a b = a - bit_and a b

-- The loop over the choices: `usedBits` and `valid`.
unfoldable pub choose : (masked : ℕ) → List ℕ → ℕ × Bool → ℕ × Bool
choose masked [] found = found
choose masked (bits ∷ choices) (used_bits, valid) =
    choose masked choices (bit_or used_bits bits, if nat_beq masked bits then true else valid)

-- The loop over the agendas: `usedBits`, or nothing where it returns false.
unfoldable pub agendas_used : (user_vote_bits : ℕ) → List Deployment → ℕ → Option ℕ
unfolding choose
agendas_used user_vote_bits [] used_bits = some used_bits
agendas_used user_vote_bits (d ∷ deployments) used_bits =
    let (used2, valid) = choose (bit_and user_vote_bits d.mask) d.choices (used_bits, false) in
    elim valid [ false ↦ none | true ↦ agendas_used user_vote_bits deployments used2 ]

unfoldable pub is_valid_vote_bits : List Deployment → ℕ → Bool
unfolding agendas_used
is_valid_vote_bits deployments user_vote_bits =
    if nat_beq user_vote_bits 1
    then true
    else if nat_beq (bit_and user_vote_bits 1) 0
    then false
    else elim (agendas_used user_vote_bits deployments 1) [
      | none ↦ false
      | some used_bits ↦ nat_beq (and_not user_vote_bits used_bits) 0
    ]

abbrev or_nil : Option (List Deployment) → List Deployment
or_nil none = []
or_nil (some deployments) = deployments

-- `controller.params.Deployments[controller.voteVersion]`
unfoldable pub get_agendas : GoMap ℕ (List Deployment) → (vote_version : ℕ) → List Deployment
get_agendas deployments vote_version = or_nil (lookup vote_version deployments)

abbrev pub Users : Type 0
Users = GoMap ℕ DbUser

abbrev pub default_vote_bits : ℕ
default_vote_bits = 1

-- The table, and whether there was no error.
abbrev pub Updated : Type 0
Updated = Users × Bool

module _ (update_works : ℕ → Bool) where
  unfoldable pub update_vote_bits_by_id : Users → (id vote_bits : ℕ) → Updated
  update_vote_bits_by_id db id vote_bits = elim (lookup id db) [
    | none ↦ (db, false)
    | some user ↦
        if update_works id
        then (put id (record user { vote_bits = vote_bits }) db, true)
        else (db, false)
  ]

  unfoldable pub update_vote_bits_version_by_id : Users → (id vote_version : ℕ) → Updated
  update_vote_bits_version_by_id db id vote_version = elim (lookup id db) [
    | none ↦ (db, false)
    | some user ↦
        if update_works id
        then (put id (record user { vote_bits_version = vote_version }) db, true)
        else (db, false)
  ]

  module _ (deployments : GoMap ℕ (List Deployment)) (vote_version : ℕ) where
    -- One round of the first loop, for a row that is there.
    unfoldable pub reset_user : Users → ℕ → DbUser → Updated
    reset_user db userid user =
        if not (nat_beq (uint32 user.vote_bits_version) vote_version)
        then (let (db2, fine) = update_vote_bits_version_by_id db userid vote_version in
            if fine
            then if not (nat_beq (uint16 user.vote_bits) default_vote_bits)
              then update_vote_bits_by_id db2 userid default_vote_bits
              else (db2, true)
            else (db2, false))
        else if not
            (is_valid_vote_bits (get_agendas deployments vote_version) (uint16 user.vote_bits))
        then update_vote_bits_by_id db userid default_vote_bits
        else (db, true)

    -- The first loop, over `left` rows from `userid` on.
    unfoldable pub reset_users : (userid left : ℕ) → Users → Updated
    reset_users userid zero db = (db, true)
    reset_users userid (suc left) db = elim (lookup userid db) [
      | none ↦ reset_users (userid + 1) left db
      | some user ↦
          let step = reset_user db userid user in
          elim step.1 [ true ↦ reset_users (userid + 1) left step.0 | false ↦ (step.0, false) ]
    ]

    -- The second loop, into `allUsers`.
    unfoldable pub users_with_address : (userid left : ℕ) → Users → Users → Users
    users_with_address userid zero db all_users = all_users
    users_with_address userid (suc left) db all_users = elim (lookup userid db) [
      | none ↦ users_with_address (userid + 1) left db all_users
      | some user ↦
          if user.multi_sig_address == ""
          then users_with_address (userid + 1) left db all_users
          else users_with_address (userid + 1) left db (put userid user all_users)
    ]

    -- The table, and the users where there was no error.
    unfoldable pub check_and_reset_user_vote_bits : (user_max : ℕ) → Users → Users × Option Users
    check_and_reset_user_vote_bits user_max db =
        let (db2, fine) = reset_users 1 user_max db in
        if fine then (db2, some (users_with_address 1 user_max db2 [])) else (db2, none)
