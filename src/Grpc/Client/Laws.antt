-- ===== src/Grpc/Client/Laws.antt =====
-- What goes over the wire arrives: requests and answers, from the web application's maps to the
-- daemon's and back.
use hxstakepool.Prelude.{
  ℕ, String, true, false, List, [], ◌∷◌, Option, none, some, nat_eq, string_eq, ◌≡◌, refl, arith,
  if◌then◌else◌, ◌==◌, Option-cases, ◌∙◌, ap, inl, inr,
}
use hxstakepool.Prelude.Words.{uint16, uint32}
use hxstakepool.GoMap.{GoMap, put, lookup, IsMap, put_all}
use hxstakepool.GoMap.Laws.{lookup-put, lookup-put_all}
use hxstakepool.Stakepoold.Context.{Hash, UserVotingConfig}
use hxstakepool.Stakepoold.Update.{update_ticket_data, update_user_data}
use hxstakepool.Stakepoold.Update.Laws.{update_ticket_data-added}
use hxstakepool.Grpc.Messages.{HashBytes}
use hxstakepool.Grpc.Server.{
  Daemon, in_time, process_command, ticket_entries, added_of_entries, prefs_of_entries,
}
use hxstakepool.Grpc.Client.{
  DbTicket, DbUser, tickets_of_entries, entries_of_db, stakepoold_get_live_tickets,
  stakepoold_get_ignored_low_fee_tickets, stakepoold_get_added_low_fee_tickets,
  stakepoold_set_added_low_fee_tickets, entries_of_users, stakepoold_set_user_voting_prefs,
}

module _ (b : HashBytes)
    -- The bytes of a hash read back as the hash.
    (clone : (h : Hash) → b.new_hash (b.clone_bytes h) ≡ some h) where
  tickets_of_entries-put_all :
      (m acc : GoMap Hash String) → tickets_of_entries b (ticket_entries b m) acc ≡ put_all m acc
  unfolding tickets_of_entries ticket_entries put_all
  tickets_of_entries-put_all [] acc = refl
  tickets_of_entries-put_all ((h, msa) ∷ m) acc =
      ground (arith, clone h, tickets_of_entries-put_all m (put h msa acc))

  received :
      (m : GoMap Hash String) (t : Hash)
      → IsMap m
      → lookup t (tickets_of_entries b (ticket_entries b m) []) ≡ lookup t m
  unfolding lookup
  received m t h = rw (tickets_of_entries-put_all m []) (ground (arith, lookup-put_all t m [] h))

  -- Each of the three requests, answered in time, gives the daemon's map and leaves the daemon as it
  -- was.
  pub stakepoold_get-lookup :
      (d : Daemon) (t : Hash)
      → d.stuck ≡ false
      → IsMap d.ctx.added_low_fee_tickets_msa
      → IsMap d.ctx.ignored_low_fee_tickets_msa
      → IsMap d.ctx.live_tickets_msa
      → let added = stakepoold_get_added_low_fee_tickets b d in_time in
        let ignored = stakepoold_get_ignored_low_fee_tickets b d in_time in
        let live = stakepoold_get_live_tickets b d in_time in
        (lookup t added.1.0 ≡ lookup t d.ctx.added_low_fee_tickets_msa)
        × (lookup t ignored.1.0 ≡ lookup t d.ctx.ignored_low_fee_tickets_msa)
        × (lookup t live.1.0 ≡ lookup t d.ctx.live_tickets_msa)
        × (added.0 ≡ d)
        × (ignored.0 ≡ d)
        × (live.0 ≡ d)
  unfolding stakepoold_get_added_low_fee_tickets stakepoold_get_ignored_low_fee_tickets
      stakepoold_get_live_tickets process_command
  stakepoold_get-lookup d t s ma mi ml = (
    ground (arith, received d.ctx.added_low_fee_tickets_msa t ma),
    ground (arith, received d.ctx.ignored_low_fee_tickets_msa t mi),
    ground (arith, received d.ctx.live_tickets_msa t ml),
    ground arith,
    ground arith,
    ground arith,
  )

  module _ (new_hash_from_str : String → Option Hash) where
    -- The last row of the database for a ticket counts.
    abbrev pub added_in_db : Hash → List DbTicket → Option String → Option String
    added_in_db t [] found = found
    added_in_db t (ticket ∷ tickets) found =
        added_in_db t tickets (elim (new_hash_from_str ticket.ticket_hash) [
          | none ↦ found
          | some h ↦ if h == t then some ticket.ticket_address else found
        ])

    added_of_entries-db :
        (t : Hash) (tickets : List DbTicket) (acc : GoMap Hash String)
        → lookup t (added_of_entries b (entries_of_db b new_hash_from_str tickets) acc)
          ≡ added_in_db t tickets (lookup t acc)
    unfolding added_of_entries entries_of_db
    added_of_entries-db t [] acc = refl
    added_of_entries-db t (ticket ∷ tickets) acc =
        elim (Option-cases (new_hash_from_str ticket.ticket_hash)) [
          | inl e ↦ ground (arith, e, added_of_entries-db t tickets acc)
          | inr (h, e) ↦ ground (
            arith,
            e,
            clone h,
            lookup-put h t ticket.ticket_address acc,
            added_of_entries-db t tickets (put h ticket.ticket_address acc),
          )
        ]

    added_of_entries-nil :
        (t : Hash) (tickets : List DbTicket)
        → lookup t (added_of_entries b (entries_of_db b new_hash_from_str tickets) [])
          ≡ added_in_db t tickets none
    unfolding lookup
    added_of_entries-nil t tickets = added_of_entries-db t tickets []

    -- The tickets of the database, pushed in time, become the daemon's added tickets, each at the
    -- address of its last row that has a valid hash; those with no such row stand in none.
    pub stakepoold_set_added-lookup :
        (d : Daemon) (tickets : List DbTicket) (t : Hash)
        → d.stuck ≡ false
        → let after = stakepoold_set_added_low_fee_tickets b new_hash_from_str d in_time tickets in
          (lookup t after.0.ctx.added_low_fee_tickets_msa ≡ added_in_db t tickets none)
          × (after.0.ctx
              ≡ update_ticket_data d.ctx
                  (added_of_entries b (entries_of_db b new_hash_from_str tickets) []))
          × (after.1 ≡ true)
    unfolding stakepoold_set_added_low_fee_tickets process_command
    stakepoold_set_added-lookup d tickets t s = (
      ground (
        arith,
        update_ticket_data-added d.ctx
            (added_of_entries b (entries_of_db b new_hash_from_str tickets) []),
        added_of_entries-nil t tickets,
      ),
      ground arith,
      ground arith,
    )

module _ (b : HashBytes) where
  -- The last user in the map with an address, with bits cut to 16 and a version cut to 32 bits.
  abbrev pub prefs_in_db :
      String → GoMap ℕ DbUser → Option UserVotingConfig → Option UserVotingConfig
  prefs_in_db msa [] found = found
  prefs_in_db msa ((uid, user) ∷ users) found = prefs_in_db msa users (
      if user.multi_sig_address == msa
      then some (record {
        userid = uid;
        multi_sig_address = user.multi_sig_address;
        vote_bits = uint16 user.vote_bits;
        vote_bits_version = uint32 user.vote_bits_version;
      })
      else found)

  prefs_of_entries-db :
      (msa : String) (users : GoMap ℕ DbUser) (acc : GoMap String UserVotingConfig)
      → lookup msa (prefs_of_entries b (entries_of_users b users) acc)
        ≡ prefs_in_db msa users (lookup msa acc)
  unfolding prefs_of_entries entries_of_users
  prefs_of_entries-db msa [] acc = refl
  prefs_of_entries-db msa ((uid, user) ∷ users) acc =
      let entry : UserVotingConfig = record {
        userid = uid;
        multi_sig_address = user.multi_sig_address;
        vote_bits = uint16 user.vote_bits;
        vote_bits_version = uint32 user.vote_bits_version;
      } in
      prefs_of_entries-db msa users (put user.multi_sig_address entry acc)
      ∙ ap (prefs_in_db msa users) (lookup-put user.multi_sig_address msa entry acc)

  prefs_of_entries-nil :
      (msa : String) (users : GoMap ℕ DbUser)
      → lookup msa (prefs_of_entries b (entries_of_users b users) []) ≡ prefs_in_db msa users none
  unfolding lookup
  prefs_of_entries-nil msa users = prefs_of_entries-db msa users []

  -- The users of the database, pushed in time, become the daemon's voting settings: for each address
  -- those of the last user that has it, cut to the daemon's widths, and none for any other address.
  -- The tickets stay as they were.
  pub stakepoold_set_user_voting_prefs-lookup :
      (d : Daemon) (users : GoMap ℕ DbUser) (msa : String)
      → d.stuck ≡ false
      → let after = stakepoold_set_user_voting_prefs b d in_time users in
        (lookup msa after.0.ctx.user_voting_config ≡ prefs_in_db msa users none)
        × (after.0.ctx.live_tickets_msa ≡ d.ctx.live_tickets_msa)
        × (after.0.ctx.ignored_low_fee_tickets_msa ≡ d.ctx.ignored_low_fee_tickets_msa)
        × (after.0.ctx.added_low_fee_tickets_msa ≡ d.ctx.added_low_fee_tickets_msa)
        × (after.1 ≡ true)
  unfolding stakepoold_set_user_voting_prefs process_command update_user_data
  stakepoold_set_user_voting_prefs-lookup d users msa s = (
    ground (arith, prefs_of_entries-nil msa users),
    ground arith,
    ground arith,
    ground arith,
    ground arith,
  )
