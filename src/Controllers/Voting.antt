-- ===== src/Controllers/Voting.antt =====
-- `VotingPost` and `APIVoting` of controllers/main.go: a user's choices become vote bits, which are
-- stored and pushed to the daemons. The table of users is that of `UpdateAll`; a row that cannot be read
-- is nil, which the handlers dereference.
pub mod Stored
pub mod Same
pub mod Addresses
pub mod Pushed
pub mod Voted
mod Tests
use Prim.Native.Nat.{bit_or}
use hxstakepool.Prelude.{
  ℕ, ◌+◌, ◌-◌, ◌*◌, ◌%◌, ◌^◌, String, string_eq, nat_eq, nat_beq, Bool, true, false, not, ◌&&◌,
  List, [], ◌∷◌, Option, none, some, if◌then◌else◌, ltb, leb,
}
use hxstakepool.Prelude.Words.{uint16}
use hxstakepool.Prelude.Hex.{codes}
use hxstakepool.GoMap.{GoMap, lookup}
use hxstakepool.Stakepoold.Context.{Hash}
use hxstakepool.Grpc.Messages.{HashBytes}
use hxstakepool.Grpc.Server.{Daemon}
use hxstakepool.Grpc.Client.{DbUser}
use hxstakepool.Controllers.VoteBits.{
  Deployment, is_valid_vote_bits, get_agendas, Users, update_vote_bits_by_id,
}
use hxstakepool.Controllers.UpdateAll.{Connection, daemons_of, update_users, stakepoold_update_all}

-- The digits of a text, after those that were read.
unfoldable pub digits : (read : ℕ) → List ℕ → Option ℕ
digits read [] = some read
digits read (c ∷ rest) =
    let all = digits (read * 10 + (c - b'0')) rest in if leb b'0' c && leb c b'9' then all else none

-- At least one digit, and a number below the bound.
unfoldable pub magnitude : (bound : ℕ) → List ℕ → Option ℕ
unfolding digits
magnitude bound [] = none
magnitude bound (c ∷ rest) = elim (digits 0 (c ∷ rest)) [
  | none ↦ none
  | some n ↦ if ltb n bound then some n else none
]

abbrev pub negate64 : Option ℕ → Option ℕ
negate64 none = none
negate64 (some n) = some ((2 ^ 64 - n) % 2 ^ 64)

-- `strconv.Atoi`, as the bit pattern of the 64-bit integer, nothing for an error.
unfoldable pub atoi : List ℕ → Option ℕ
unfolding magnitude
atoi [] = none
atoi (c ∷ rest) =
    if nat_beq c b'-'
    then negate64 (magnitude (2 ^ 63 + 1) rest)
    else if nat_beq c b'+'
    then magnitude (2 ^ 63) rest
    else magnitude (2 ^ 63) (c ∷ rest)

-- What the page shows after `VotingPost`, by its flash, and the answers of the API.
pub data Answer : Type 0 where
  see_root : Answer
  voting_error voting_success : String → Answer
  refused : (code message : String) → Answer
  answered : (message : String) → Answer
  crashed : Answer

-- The table and the daemons after the handler.
pub record Result : Type 0 where
  pub table : Users
  pub daemons : List Daemon
  pub answer : Answer

-- The loop over the agendas, from the index `i` on; `agenda i` is the form's value "agenda<i>".
unfoldable pub generate :
    (agenda : ℕ → String) → (i : ℕ) → List Deployment → (generated_vote_bits : ℕ) → Option ℕ
unfolding atoi
generate agenda i [] generated_vote_bits = some generated_vote_bits
generate agenda i (d ∷ deployments) generated_vote_bits = elim (atoi (codes (agenda i))) [
  | none ↦ none
  | some avi ↦
      generate agenda (i + 1) deployments (uint16 (bit_or generated_vote_bits (uint16 avi)))
]

module _ (b : HashBytes) (new_hash_from_str : String → Option Hash) (update_works : ℕ → Bool)
    (deployments : GoMap ℕ (List Deployment)) (vote_version user_max : ℕ) where
  abbrev pub unchanged : Users → List Connection → Answer → Result
  unchanged db connections answer = record {
    table = db;
    daemons = daemons_of b new_hash_from_str connections;
    answer = answer;
  }

  -- The table and the daemons after `if uint16(oldVoteBits) != …`.
  unfoldable pub push_changed :
      (old_vote_bits vote_bits : ℕ) → Users → List Connection → Users × List Daemon
  push_changed old_vote_bits vote_bits db connections =
      if not (nat_beq (uint16 old_vote_bits) vote_bits)
      then (let outcome =
            stakepoold_update_all b new_hash_from_str update_works deployments vote_version user_max
              update_users none db connections in
          (outcome.table, outcome.daemons))
      else (db, daemons_of b new_hash_from_str connections)

  unfoldable pub voting_post :
      (session : Option ℕ) → (agenda : ℕ → String) → Users → List Connection → Result
  voting_post session agenda db connections = elim session [
    | none ↦ unchanged db connections see_root
    | some uid ↦ elim (generate agenda 0 (get_agendas deployments vote_version) 1) [
      | none ↦ unchanged db connections (voting_error "invalid agenda choice")
      | some bits ↦
          if not (is_valid_vote_bits (get_agendas deployments vote_version) bits)
          then unchanged db connections (voting_error "generated votebits were invalid")
          else elim (lookup uid db) [
            | none ↦ unchanged db connections crashed
            | some user ↦
                let (db2, fine) = update_vote_bits_by_id update_works db uid bits in
                if not fine
                then unchanged db2 connections
                    (voting_error "unable to save new voting preferences")
                else (let (table, daemons) = push_changed user.vote_bits bits db2 connections in
                    record {
                      table = table;
                      daemons = daemons;
                      answer = voting_success "successfully updated voting preferences";
                    })
          ]
    ]
  ]

  unfoldable pub api_voting :
      (api_user_id : Option ℕ) → (vote_bits : String) → Users → List Connection → Result
  unfolding atoi
  api_voting api_user_id vote_bits db connections = elim api_user_id [
    | none ↦ unchanged db connections (refused "Unauthenticated" "invalid api token")
    | some uid ↦ elim (lookup uid db) [
      | none ↦ unchanged db connections crashed
      | some user ↦ elim (atoi (codes vote_bits)) [
        | none ↦
            unchanged db connections
              (refused "InvalidArgument" "unable to convert votebits to uint16")
        | some vbi ↦
            let bits = uint16 vbi in
            if not (is_valid_vote_bits (get_agendas deployments vote_version) bits)
            then unchanged db connections
                (refused "InvalidArgument" "votebits invalid for current agendas")
            else (let (db2, fine) = update_vote_bits_by_id update_works db uid bits in
                if not fine
                then unchanged db2 connections
                    (refused "Internal" "failed to update voting prefs in database")
                else (let (table, daemons) = push_changed user.vote_bits bits db2 connections in
                    record {
                      table = table;
                      daemons = daemons;
                      answer = answered "successfully updated voting preferences";
                    }))
      ]
    ]
  ]
