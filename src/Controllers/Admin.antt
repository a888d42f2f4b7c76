-- ===== src/Controllers/Admin.antt =====
-- The administrators' side of controllers/main.go: `getClientIP`, `isAdmin`,
-- `StakepooldGetIgnoredLowFeeTickets` and `AdminTicketsPost`, with the table of low fee tickets of
-- models/user.go.
pub mod Laws
pub mod Tickets
mod Tests
use hxstakepool.Prelude.{
  ℕ, ◌*◌, ◌+◌, ◌-◌, length, ◌/◌, ◌^◌, ◌%◌, String, ◌<>◌, string_eq, nat_eq, Bool, true, false, not,
  List, [], ◌∷◌, ◌++◌, map, Option, none, some, if◌then◌else◌, ◌==◌, ◌&&◌, ltb,
}
use hxstakepool.GoMap.{GoMap, lookup}
use hxstakepool.Stakepoold.Context.{Hash}
use hxstakepool.Grpc.Messages.{HashBytes}
use hxstakepool.Grpc.Server.{Daemon, Timing}
use hxstakepool.Grpc.Client.{DbTicket, stakepoold_get_ignored_low_fee_tickets}
use hxstakepool.Controllers.VoteBits.{Deployment, Users}
use hxstakepool.Controllers.UpdateAll.{Connection, Outcome, update_tickets, stakepoold_update_all}

pub record LowFeeTicket : Type 0 where
  pub added_by_uid : ℕ
  pub ticket_address : String
  pub ticket_hash : String
  pub ticket_expiry : ℕ
  pub voted : ℕ
  pub created : ℕ
  pub expires : ℕ

-- A connection, and when the call that reads the ignored tickets ends.
pub record Line : Type 0 where
  pub connection : Connection
  pub get_timing : Timing

-- The settings of the controller; what is called of the standard library, of chainhash and of the
-- database is a field.
pub record AdminSite : Type 1 where
  pub admin_ips : List String
  pub admin_user_ids : List String
  pub real_ip_header : String
  -- `net.SplitHostPort`, nothing where it returns an error, and `strconv.Itoa`
  pub split_host_port : String → Option String
  pub itoa : ℕ → String
  pub new_hash_from_str : String → Option Hash
  pub hash_bytes : HashBytes
  -- `dbMap.Exec` on the table of low fee tickets, nothing where it returns an error.
  pub exec : String → List LowFeeTicket → Option (List LowFeeTicket)
  pub insert_works : LowFeeTicket → Bool
  pub select_works : Bool
  pub update_works : ℕ → Bool
  pub deployments : GoMap ℕ (List Deployment)
  pub vote_version : ℕ
  pub user_max : ℕ
  -- `TicketExpiry` and `TargetTimePerBlock` of the network, the latter in nanoseconds.
  pub ticket_expiry : ℕ
  pub target_time_per_block : ℕ

-- The form of a request: `ParseForm` succeeded, `tickets[]` and `action`.
pub record AdminRequest : Type 0 where
  pub remote_addr : String
  pub header : String → String
  pub session : Option ℕ
  pub parsed : Bool
  pub tickets : List String
  pub action : String
  -- `time.Now()`, in seconds and in nanoseconds.
  pub now : ℕ
  pub now_nanos : ℕ

pub record Pool : Type 0 where
  pub low_fee_tickets : List LowFeeTicket
  pub users : Users
  pub lines : List Line

pub data Status : Type 0 where
  unauthorized : Status
  see_admintickets : (message key : String) → Status

-- The pool after the request, its daemons, and the answer.
pub record Answered : Type 0 where
  pub low_fee_tickets : List LowFeeTicket
  pub users : Users
  pub daemons : List Daemon
  pub status : Status

unfoldable pub string_slice_contains : List String → String → Bool
string_slice_contains [] e = false
string_slice_contains (a ∷ s) e =
    let rest = string_slice_contains s e in if a == e then true else rest

module _ (s : AdminSite) where
  abbrev pub get_host : String → String
  get_host host_port = elim (s.split_host_port host_port) [ none ↦ host_port | some ip ↦ ip ]

  abbrev pub get_client_ip : AdminRequest → String
  get_client_ip r =
      if s.real_ip_header == ""
      then get_host r.remote_addr
      else get_host (r.header s.real_ip_header)

  unfoldable pub is_admin : AdminRequest → Bool
  is_admin r = elim r.session [
    | none ↦ false
    | some uid ↦
        if not (string_slice_contains s.admin_ips (get_client_ip r))
        then false
        else if not (string_slice_contains s.admin_user_ids (s.itoa uid))
        then false
        else true
  ]

  -- The expiry and five hundredths more, as an `int64` duration that wraps and is signed.
  unfoldable pub calc_estimated_ticket_expiry : (now_nanos : ℕ) → ℕ
  calc_estimated_ticket_expiry now_nanos =
      let d = (s.ticket_expiry * s.target_time_per_block * 105) % 2 ^ 64 in
      if ltb d (2 ^ 63) then now_nanos + d / 100 else now_nanos - (2 ^ 64 - d) / 100

  abbrev pub connections_of : List Line → List Connection
  connections_of = map (λ l. l.connection)

  -- The first answer without an error, else the last one.
  unfoldable pub stakepoold_get_ignored :
      List Line → GoMap Hash String × Bool → List Connection × (GoMap Hash String × Bool)
  stakepoold_get_ignored [] last = ([], last)
  stakepoold_get_ignored (l ∷ lines) last =
      let (d, answer) =
        stakepoold_get_ignored_low_fee_tickets s.hash_bytes l.connection.daemon l.get_timing in
      let c = record l.connection { daemon = d } in
      let rest = stakepoold_get_ignored lines answer in
      if answer.1 then (c ∷ connections_of lines, answer) else (c ∷ rest.0, rest.1)

  abbrev pub daemons_of : List Connection → List Daemon
  daemons_of = map (λ c. c.daemon)

  abbrev pub new_row : AdminRequest → (uid : ℕ) → (msa ticket : String) → LowFeeTicket
  new_row r uid msa ticket = record {
    added_by_uid = uid;
    ticket_address = msa;
    ticket_hash = ticket;
    ticket_expiry = 0;
    voted = 0;
    created = r.now;
    expires = calc_estimated_ticket_expiry r.now_nanos / 10 ^ 9;
  }

  -- The loop over the tickets to add: the table, and the flash where it returns early.
  unfoldable pub add_each :
      AdminRequest
      → (uid : ℕ) → GoMap Hash String
      → List String
      → List LowFeeTicket
      → List LowFeeTicket × Option (String × String)
  add_each r uid ignored [] table = (table, none)
  add_each r uid ignored (ticket ∷ tickets) table = elim (s.new_hash_from_str ticket) [
    | none ↦ (table, some ("NewHashFromStr failed for " <> ticket, "adminTicketsError"))
    | some hash ↦ elim (lookup hash ignored) [
      | none ↦ (table, some ("ticket " <> ticket <> " is no longer present", "_flash"))
      | some msa ↦
          let row = new_row r uid msa ticket in
          let rest = add_each r uid ignored tickets (table ++ (row ∷ [])) in
          elim (s.insert_works row) [
            | true ↦ rest
            | false ↦ (
              table,
              some ("Database error occurred while adding ticket " <> ticket, "adminTicketsError"),
            )
          ]
    ]
  ]

  -- `strings.Join(tickets, ",")`
  unfoldable pub join : List String → String
  join [] = ""
  join (ticket ∷ []) = ticket
  join (ticket ∷ ticket2 ∷ tickets) = ticket <> ("," <> join (ticket2 ∷ tickets))

  abbrev pub delete_query : List String → String
  delete_query tickets =
      "DELETE FROM LowFeeTicket WHERE TicketHash IN (\"" <> (join tickets <> "\")")

  -- `GetVotableLowFeeTickets`
  unfoldable pub votable : (now : ℕ) → List LowFeeTicket → List DbTicket
  votable now [] = []
  votable now (row ∷ table) =
      let rest = votable now table in
      if (row.voted == 0) && ltb now row.expires
      then record { ticket_address = row.ticket_address; ticket_hash = row.ticket_hash } ∷ rest
      else rest

  -- The table is changed: the update of the daemons, and the last flash.
  unfoldable pub push_tickets :
      AdminRequest → (action_verb : String) → List LowFeeTicket → Users → List Connection → Answered
  push_tickets r action_verb table users connections =
      let outcome =
        stakepoold_update_all s.hash_bytes s.new_hash_from_str s.update_works s.deployments
          s.vote_version s.user_max update_tickets
          (if s.select_works then some (votable r.now table) else none) users connections in
      record {
        low_fee_tickets = table;
        users = outcome.table;
        daemons = outcome.daemons;
        status =
            see_admintickets
              ("successfully "
                <> (action_verb <> (" " <> (s.itoa (length r.tickets) <> " ticket(s)"))))
              "adminTicketsSuccess";
      }

  -- A return before the update.
  abbrev pub stopped :
      List LowFeeTicket → Users → List Connection → (message key : String) → Answered
  stopped table users connections message key = record {
    low_fee_tickets = table;
    users = users;
    daemons = daemons_of connections;
    status = see_admintickets message key;
  }

  unfoldable pub post_add : AdminRequest → (uid : ℕ) → Pool → Answered
  post_add r uid p =
      let (connections, (ignored, fine)) = stakepoold_get_ignored p.lines ([], true) in
      if not fine
      then stopped p.low_fee_tickets p.users connections "GetIgnoredLowFeeTickets error"
          "adminTicketsError"
      else (let (table, flash) = add_each r uid ignored r.tickets p.low_fee_tickets in
          elim flash [
            | some (message, key) ↦ stopped table p.users connections message key
            | none ↦ push_tickets r "added" table p.users connections
          ])

  unfoldable pub post_remove : AdminRequest → Pool → Answered
  post_remove r p = elim (s.exec (delete_query r.tickets) p.low_fee_tickets) [
    | none ↦
        stopped p.low_fee_tickets p.users (connections_of p.lines) "failed to execute delete query"
          "adminTicketsError"
    | some table ↦ push_tickets r "removed" table p.users (connections_of p.lines)
  ]

  unfoldable pub admin_tickets_post : AdminRequest → Pool → Answered
  admin_tickets_post r p =
      let stop = stopped p.low_fee_tickets p.users (connections_of p.lines) in
      elim (is_admin r) [
        | false ↦ record (stop "" "") { status = unauthorized }
        | true ↦
            if not r.parsed
            then stop "unable to parse form" "adminTicketsError"
            else elim r.tickets [
              | [] ↦ stop "no tickets selected to modify" "adminTicketsError"
              | ticket ∷ tickets ↦
                  if r.action == "Add"
                  then elim r.session [
                    | none ↦ record (stop "" "") { status = unauthorized }
                    | some uid ↦ post_add r uid p
                  ]
                  else if r.action == "Remove"
                  then post_remove r p
                  else stop "invalid or unknown form action type" "adminTicketsError"
            ]
      ]
