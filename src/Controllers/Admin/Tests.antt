-- ===== src/Controllers/Admin/Tests.antt =====
-- A pool with one daemon that ignores a ticket, and an administrator.
use text.Mathlib.TextLemmas.{append_cancel_left, append_cancel_right}
use hxstakepool.Prelude.{
  ℕ, String, ◌<>◌, string_eq, nat_eq, true, false, not, List, [], ◌∷◌, Option, none, some, ◌==◌,
  ◌≡◌, ◌↔◌, ◌⊎◌, refl, ap, arith, inl, inr, Member, Bool-cases,
}
use hxstakepool.GoMap.{lookup, put}
use hxstakepool.Stakepoold.Context.{Hash}
use hxstakepool.Accounts.Tables.{select}
use hxstakepool.Grpc.Server.{
  Daemon, in_time, process_command, ticket_entries, process_get_ticket_command,
}
use hxstakepool.Grpc.Client.{stakepoold_get_ignored_low_fee_tickets, tickets_of_entries}
use hxstakepool.Controllers.Admin.{
  LowFeeTicket, Line, AdminSite, AdminRequest, Pool, unauthorized, string_slice_contains, is_admin,
  stakepoold_get_ignored, new_row, add_each, post_add, push_tickets, admin_tickets_post,
}
use hxstakepool.Controllers.Admin.Laws.{IsAdmin, admin_tickets_post-IsAdmin}
use hxstakepool.Controllers.Admin.Tickets.{
  IsListed, DeletesListed, admin_tickets_post-IsListed, admin_tickets_post_remove_several,
}

abbrev one_byte : List ℕ → Option Hash
one_byte [] = none
one_byte (x ∷ rest) = some x

abbrev daemon : Daemon
daemon = record {
  ctx = record {
    added_low_fee_tickets_msa = [];
    ignored_low_fee_tickets_msa = (7, "DcMsa") ∷ [];
    live_tickets_msa = [];
    user_voting_config = [];
    fee_addrs = [];
    pool_fees = 5;
    voting_config = record { vote_bits = 1; vote_version = 4; vote_bits_extended = "" };
    testing = false;
  };
  stuck = false;
  read_locked = false;
}

abbrev line : Line
line = record {
  connection = record { daemon = daemon; tickets_timing = in_time; users_timing = in_time };
  get_timing = in_time;
}

abbrev delete_one : String → String
delete_one t = "DELETE FROM LowFeeTicket WHERE TicketHash IN (\"" <> (t <> "\")")

-- A database that knows only the queries with one text.
delete : String → List LowFeeTicket → List LowFeeTicket
delete q table = select (λ (row : LowFeeTicket). not (delete_one row.ticket_hash == q)) table

abbrev site : AdminSite
site = record {
  admin_ips = "10.0.0.1" ∷ [];
  admin_user_ids = "1" ∷ [];
  real_ip_header = "";
  split_host_port = λ t. none;
  itoa = λ n. "1";
  new_hash_from_str = λ t. some 7;
  hash_bytes = record { new_hash = one_byte; clone_bytes = λ h. h ∷ [] };
  exec = λ q table. some (delete q table);
  insert_works = λ row. true;
  select_works = true;
  update_works = λ id. true;
  deployments = [];
  vote_version = 4;
  user_max = 3;
  ticket_expiry = 40960;
  target_time_per_block = 300000000000;
}

abbrev hash_a : String
hash_a = "aaaaaaaaaaaaaaaaaaaaaaaaaaaaaaaaaaaaaaaaaaaaaaaaaaaaaaaaaaaaaaaa"

abbrev hash_b : String
hash_b = "bbbbbbbbbbbbbbbbbbbbbbbbbbbbbbbbbbbbbbbbbbbbbbbbbbbbbbbbbbbbbbbb"

abbrev row : String → LowFeeTicket
row hash = record {
  added_by_uid = 1;
  ticket_address = "DcMsa";
  ticket_hash = hash;
  ticket_expiry = 0;
  voted = 0;
  created = 1;
  expires = 2;
}

abbrev pool : Pool
pool = record { low_fee_tickets = row hash_a ∷ row hash_b ∷ []; users = []; lines = line ∷ [] }

abbrev request : (session : Option ℕ) → (action : String) → AdminRequest
request session action = record {
  remote_addr = "10.0.0.1";
  header = λ name. "";
  session = session;
  parsed = true;
  tickets = hash_a ∷ hash_b ∷ [];
  action = action;
  now = 1;
  now_nanos = 1000000000;
}

delete-listed :
    (t : String) (table : List LowFeeTicket)
    → delete (delete_one t) table
      ≡ select (λ (row : LowFeeTicket). not (row.ticket_hash == t)) table
unfolding delete select
delete-listed t [] = refl
delete-listed t (r ∷ table) =
    let to : delete_one r.ticket_hash ≡ delete_one t → r.ticket_hash ≡ t = λ e.
      append_cancel_right r.ticket_hash t "\")" (
        append_cancel_left "DELETE FROM LowFeeTicket WHERE TicketHash IN (\""
          (r.ticket_hash <> "\")") (t <> "\")") e) in
    let from : r.ticket_hash ≡ t → delete_one r.ticket_hash ≡ delete_one t = ap delete_one in
    let same : (delete_one r.ticket_hash == delete_one t) ≡ (r.ticket_hash == t) =
      elim (Bool-cases (r.ticket_hash == t)) [
        | inl is ↦ ground (
          arith,
          is,
          (string_eq.beq_iff (delete_one r.ticket_hash) (delete_one t)).1
              (from ((string_eq.beq_iff r.ticket_hash t).0 is)),
        )
        | inr other ↦ elim (Bool-cases (delete_one r.ticket_hash == delete_one t)) [
          | inr other2 ↦ ground (arith, other, other2)
          | inl is2 ↦ absurd (
              ground (
                arith,
                other,
                (string_eq.beq_iff r.ticket_hash t).1
                    (to ((string_eq.beq_iff (delete_one r.ticket_hash) (delete_one t)).0 is2)),
              ))
        ]
      ] in
    ground (arith, same, delete-listed t table)

site-DeletesListed : DeletesListed site
site-DeletesListed t table plain = ap some (delete-listed t table)

admin_tickets_post-IsAdmin_example :
    (((admin_tickets_post site (request none "Add") pool).status ≡ unauthorized)
      ↔ (¬ IsAdmin site (request none "Add")))
    × ((¬ IsAdmin site (request none "Add"))
        → ((admin_tickets_post site (request none "Add") pool).low_fee_tickets
            ≡ pool.low_fee_tickets)
          × ((admin_tickets_post site (request none "Add") pool).users ≡ [])
          × ((admin_tickets_post site (request none "Add") pool).daemons ≡ daemon ∷ []))
admin_tickets_post-IsAdmin_example = admin_tickets_post-IsAdmin site (request none "Add") pool

admin_tickets_post_remove_several_example :
    (admin_tickets_post site (request (some 1) "Remove") pool).low_fee_tickets
    ≡ row hash_a ∷ row hash_b ∷ []
admin_tickets_post_remove_several_example =
    admin_tickets_post_remove_several site (request (some 1) "Remove") pool hash_a hash_b []
      (1, refl, inl refl, inl refl) refl refl refl (omega arith) refl (refl, (refl, tt))
      site-DeletesListed

admin_tickets_post-IsListed_example :
    Member (new_row site (request (some 1) "Add") 1 "DcMsa" hash_b) pool.low_fee_tickets
    ⊎ (IsListed site
          (request (some 1) "Add")
          (stakepoold_get_ignored site (line ∷ []) ([], true)).1.0
          (new_row site (request (some 1) "Add") 1 "DcMsa" hash_b)
        × (◌≡◌ {A = ℕ} 1 1))
admin_tickets_post-IsListed_example =
    admin_tickets_post-IsListed site (request (some 1) "Add") pool 1
      (new_row site (request (some 1) "Add") 1 "DcMsa" hash_b) refl refl
      (unfold admin_tickets_post post_add push_tickets is_admin string_slice_contains
          stakepoold_get_ignored stakepoold_get_ignored_low_fee_tickets process_get_ticket_command
          process_command ticket_entries tickets_of_entries add_each lookup put in
        inr (inr (inr (inl refl))))
