-- ===== src/Grpc/Reload.antt =====
-- The two ways in which the daemon gets the tickets and the users of the database: it reads them
-- itself, or the web application pushes them.
use hxstakepool.Prelude.{
  ℕ, String, true, false, List, [], ◌∷◌, Option, some, nat_eq, string_eq, ◌≡◌, ◌≢◌, refl, ◌∙◌, sym,
  ap, arith, if◌then◌else◌, ◌==◌, ==_iff, Bool-cases, Option-cases, inl, inr,
}
use hxstakepool.Prelude.Words.{uint16, uint32}
use hxstakepool.GoMap.{GoMap, put, lookup}
use hxstakepool.GoMap.Laws.{lookup-put}
use hxstakepool.Stakepoold.Context.{Hash, AppContext, UserVotingConfig}
use hxstakepool.Stakepoold.Update.{update_ticket_data_from_mysql, update_user_data_from_mysql}
use hxstakepool.Stakepoold.Update.Laws.{update_ticket_data-added}
use hxstakepool.Stakepoold.Userdata.{
  Source, TicketRow, UserRow, scan_tickets, scan_users, mysql_fetch_added_low_fee_tickets,
  mysql_fetch_user_voting_config, fetched,
}
use hxstakepool.Grpc.Messages.{HashBytes}
use hxstakepool.Grpc.Server.{Daemon, in_time}
use hxstakepool.Grpc.Client.{
  DbTicket, DbUser, stakepoold_set_added_low_fee_tickets, stakepoold_set_user_voting_prefs,
}
use hxstakepool.Grpc.Client.Laws.{
  added_in_db, prefs_in_db, stakepoold_set_added-lookup, stakepoold_set_user_voting_prefs-lookup,
}

-- `SELECT … FROM LowFeeTicket`
abbrev pub ticket_rows : List DbTicket → List (Option TicketRow)
ticket_rows [] = []
ticket_rows (t ∷ tickets) =
    some (record { ticket_hash = t.ticket_hash; ticket_address = t.ticket_address })
    ∷ ticket_rows tickets

-- `SELECT … FROM Users WHERE MultiSigAddress <> ''`
unfoldable pub user_rows : GoMap ℕ DbUser → List (Option UserRow)
user_rows [] = []
user_rows ((id, u) ∷ users) =
    let rest = user_rows users in
    if u.multi_sig_address == ""
    then rest
    else some (record {
      user_id = id;
      multi_sig_address = u.multi_sig_address;
      vote_bits = u.vote_bits;
      vote_bits_version = u.vote_bits_version;
    })
      ∷ rest

-- A database that answers.
abbrev pub answers : {A : Type 0} → List (Option A) → Source A
answers rows = record { opens = true; pings = true; rows = some rows; closes = true }

module _ (b : HashBytes) where
  scan_users-db :
      (msa : String) (users : GoMap ℕ DbUser) (acc : GoMap String UserVotingConfig)
      → msa ≢ ""
      → lookup msa (scan_users (user_rows users) acc) ≡ prefs_in_db b msa users (lookup msa acc)
  unfolding scan_users user_rows
  scan_users-db msa [] acc named = refl
  scan_users-db msa ((id, u) ∷ users) acc named =
      let entry : UserVotingConfig = record {
        userid = id;
        multi_sig_address = u.multi_sig_address;
        vote_bits = uint16 u.vote_bits;
        vote_bits_version = uint32 u.vote_bits_version;
      } in
      elim (Bool-cases (u.multi_sig_address == "")) [
        | inl nameless ↦
            let other : (u.multi_sig_address == msa) ≡ false = ground (
              arith,
              named,
              ==_iff u.multi_sig_address "",
              ==_iff u.multi_sig_address msa,
              nameless,
            ) in
            ground (arith, nameless, other, scan_users-db msa users acc named)
        | inr address ↦
            let rest = scan_users-db msa users (put u.multi_sig_address entry acc) named in
            let at = ap (prefs_in_db b msa users) (lookup-put u.multi_sig_address msa entry acc) in
            ground (arith, address, rest, at)
      ]

  module _ (clone : (h : Hash) → b.new_hash (b.clone_bytes h) ≡ some h)
      (new_hash_from_str : String → Option Hash) where
    scan_tickets-db :
        (t : Hash) (tickets : List DbTicket) (acc : GoMap Hash String)
        → lookup t (scan_tickets new_hash_from_str (ticket_rows tickets) acc)
          ≡ added_in_db b clone new_hash_from_str t tickets (lookup t acc)
    unfolding scan_tickets
    scan_tickets-db t [] acc = refl
    scan_tickets-db t (ticket ∷ tickets) acc =
        elim (Option-cases (new_hash_from_str ticket.ticket_hash)) [
          | inl e ↦ ground (arith, e, scan_tickets-db t tickets acc)
          | inr (h, e) ↦ ground (
            arith,
            e,
            lookup-put h t ticket.ticket_address acc,
            scan_tickets-db t tickets (put h ticket.ticket_address acc),
          )
        ]

    -- Where the database answers, a daemon that reloads the users and the tickets from it ends without an
    -- error, with the same settings under each address and the same added tickets as one that is not
    -- blocked and gets the same rows pushed in time.
    pub mysql_fetch-lookup :
        (ctx : AppContext) (d : Daemon) (users : GoMap ℕ DbUser) (tickets : List DbTicket)
        (msa : String) (t : Hash)
        → d.stuck ≡ false
        → msa ≢ ""
        → let read_users =
            update_user_data_from_mysql ctx
              (fetched (mysql_fetch_user_voting_config (answers (user_rows users)))) in
          let read_tickets = update_ticket_data_from_mysql ctx (
            fetched (
              mysql_fetch_added_low_fee_tickets new_hash_from_str
                (answers (ticket_rows tickets)))) in
          let pushed_users = stakepoold_set_user_voting_prefs b d in_time users in
          let pushed_tickets =
            stakepoold_set_added_low_fee_tickets b new_hash_from_str d in_time tickets in
          (read_users.1 ≡ true)
          × (read_tickets.1 ≡ true)
          × (lookup msa read_users.0.user_voting_config
              ≡ lookup msa pushed_users.0.ctx.user_voting_config)
          × (lookup t read_tickets.0.added_low_fee_tickets_msa
              ≡ lookup t pushed_tickets.0.ctx.added_low_fee_tickets_msa)
    unfolding mysql_fetch_user_voting_config mysql_fetch_added_low_fee_tickets
        update_user_data_from_mysql update_ticket_data_from_mysql lookup
    mysql_fetch-lookup ctx d users tickets msa t free named =
        let users_eq = scan_users-db msa users [] named in
        let tickets_eq = scan_tickets-db t tickets [] in
        let added = scan_tickets new_hash_from_str (ticket_rows tickets) [] in
        let pushed = (stakepoold_set_user_voting_prefs-lookup b d users msa free).0 in
        let pushed2 = (stakepoold_set_added-lookup b clone new_hash_from_str d tickets t free).0 in
        (
          refl,
          refl,
          users_eq ∙ sym pushed,
          ap (lookup t) (update_ticket_data-added ctx added) ∙ tickets_eq ∙ sym pushed2,
        )
