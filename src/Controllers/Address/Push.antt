-- ===== src/Controllers/Address/Push.antt =====
-- The end of `AddressPost` and of `APIAddress`: where the address was stored, the users are pushed to
-- the daemons by `StakepooldUpdateAll`, which may reset their vote bits in the table.
use hxstakepool.Prelude.{ℕ, String, nat_eq, Bool, List, [], ◌∷◌, Option, none, some}
use hxstakepool.GoMap.{GoMap, lookup}
use hxstakepool.Stakepoold.Context.{Hash}
use hxstakepool.Grpc.Messages.{HashBytes}
use hxstakepool.Grpc.Server.{Daemon}
use hxstakepool.Accounts.Tables.{User}
use hxstakepool.Controllers.VoteBits.{Deployment, Users}
use hxstakepool.Controllers.UpdateAll.{Connection, daemons_of, update_users, stakepoold_update_all}
use hxstakepool.Controllers.Address.{Pool, State, Answer, updated, address_post, api_address}

-- The columns that the update reads and writes.
abbrev pub users_of : List User → Users
users_of [] = []
users_of (u ∷ users) =
    (
      u.id,
      record {
        multi_sig_address = u.multi_sig_address;
        vote_bits = u.vote_bits;
        vote_bits_version = u.vote_bits_version;
      },
    )
    ∷ users_of users

unfoldable pub write_back : Users → List User → List User
write_back table [] = []
write_back table (u ∷ users) =
    let rest = write_back table users in
    elim (lookup u.id table) [
      | none ↦ u ∷ rest
      | some row ↦
          record u { vote_bits = row.vote_bits; vote_bits_version = row.vote_bits_version } ∷ rest
    ]

module _ (s : Pool) (b : HashBytes) (new_hash_from_str : String → Option Hash)
    (update_works : ℕ → Bool) (deployments : GoMap ℕ (List Deployment))
    (vote_version user_max : ℕ) where
  -- The state, the daemons and the answer.
  unfoldable pub push_users : State × Answer → List Connection → State × (List Daemon × Answer)
  push_users (w, updated) connections =
      let outcome =
        stakepoold_update_all b new_hash_from_str update_works deployments vote_version user_max
          update_users none (users_of w.db.users) connections in
      (
        record w { db = record w.db { users = write_back outcome.table w.db.users } },
        (outcome.daemons, updated),
      )
  push_users (w, answer) connections = (w, (daemons_of b new_hash_from_str connections, answer))

  abbrev pub submit_address :
      (session : Option ℕ)
      → (user_addr : String) → State
      → List Connection
      → State × (List Daemon × Answer)
  submit_address session user_addr w connections =
      push_users (address_post s session user_addr w) connections

  abbrev pub api_submit_address :
      (api_user_id : Option ℕ)
      → (user_addr : String) → State
      → List Connection
      → State × (List Daemon × Answer)
  api_submit_address api_user_id user_addr w connections =
      push_users (api_address s api_user_id user_addr w) connections
