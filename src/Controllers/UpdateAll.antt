-- ===== src/Controllers/UpdateAll.antt =====
-- `StakepooldUpdateAll` of controllers/main.go: the tickets and the users of the database, pushed to
-- every daemon.
pub mod Laws
mod Tests
use hxstakepool.Prelude.{
  ℕ, zero, ◌+◌, String, Bool, true, false, List, [], ◌∷◌, Option, none, some, if◌then◌else◌,
}
use hxstakepool.GoMap.{GoMap}
use hxstakepool.Stakepoold.Context.{Hash}
use hxstakepool.Grpc.Messages.{HashBytes}
use hxstakepool.Grpc.Server.{Daemon, Timing}
use hxstakepool.Grpc.Client.{
  DbTicket, stakepoold_set_added_low_fee_tickets, stakepoold_set_user_voting_prefs,
}
use hxstakepool.Controllers.VoteBits.{Deployment, Users, check_and_reset_user_vote_bits}

-- `updateKind`: "ALL", "TICKETS", "USERS" or another text.
pub data UpdateKind : Type 0 where
  update_all update_tickets update_users unhandled : UpdateKind

abbrev pub with_tickets : UpdateKind → Bool
with_tickets update_all = true
with_tickets update_tickets = true
with_tickets update_users = false
with_tickets unhandled = false

abbrev pub with_users : UpdateKind → Bool
with_users update_all = true
with_users update_tickets = false
with_users update_users = true
with_users unhandled = false

abbrev pub is_handled : UpdateKind → Bool
is_handled unhandled = false
is_handled _ = true

-- A connection: the daemon behind it, and when the two calls to it end.
pub record Connection : Type 0 where
  pub daemon : Daemon
  pub tickets_timing : Timing
  pub users_timing : Timing

-- The daemons after the update, the number of those that it reached, and whether it returned nil.
pub record Outcome : Type 0 where
  pub table : Users
  pub daemons : List Daemon
  pub success_count : ℕ
  pub fine : Bool

-- The votable tickets that are read, nothing where that fails.
abbrev pub read_tickets : UpdateKind → Option (List DbTicket) → Option (List DbTicket)
read_tickets kind votable = if with_tickets kind then votable else some []

module _ (b : HashBytes) (new_hash_from_str : String → Option Hash) where
  -- One round of the loop over the connections; `err` is that of the last call.
  unfoldable pub push : UpdateKind → List DbTicket → Users → Connection → Daemon × Bool
  push kind tickets users c =
      let (d, e) =
        if with_tickets kind
        then stakepoold_set_added_low_fee_tickets b new_hash_from_str c.daemon c.tickets_timing
            tickets
        else (c.daemon, true) in
      if with_users kind then stakepoold_set_user_voting_prefs b d c.users_timing users else (d, e)

  unfoldable pub push_all : UpdateKind → List DbTicket → Users → List Connection → List Daemon × ℕ
  unfolding push
  push_all kind tickets users [] = ([], 0)
  push_all kind tickets users (c ∷ connections) =
      let (d, e) = push kind tickets users c in
      let (daemons, count) = push_all kind tickets users connections in
      (d ∷ daemons, if e then count + 1 else count)

  abbrev pub daemons_of : List Connection → List Daemon
  daemons_of [] = []
  daemons_of (c ∷ connections) = c.daemon ∷ daemons_of connections

  module _ (update_works : ℕ → Bool) (deployments : GoMap ℕ (List Deployment))
      (vote_version user_max : ℕ) where
    -- The users that are read, where they are pushed.
    abbrev pub read_users : UpdateKind → Users → Users × Option Users
    read_users kind db =
        if with_users kind
        then check_and_reset_user_vote_bits update_works deployments vote_version user_max db
        else (db, some [])

    unfoldable pub stakepoold_update_all :
        UpdateKind → Option (List DbTicket) → Users → List Connection → Outcome
    stakepoold_update_all kind votable db connections =
        let stop : Users → Outcome = λ table. record {
          table = table;
          daemons = daemons_of connections;
          success_count = 0;
          fine = false;
        } in
        if is_handled kind
        then elim (read_tickets kind votable) [
          | none ↦ stop db
          | some tickets ↦
              let (table, found) = read_users kind db in
              elim found [
                | none ↦ stop table
                | some users ↦
                    let (daemons, count) = push_all kind tickets users connections in
                    record { table = table; daemons = daemons; success_count = count; fine = true }
              ]
        ]
        else stop db
