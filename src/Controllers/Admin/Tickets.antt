-- ===== src/Controllers/Admin/Tickets.antt =====
-- What the two actions of the administrators' form do to the table.
use Prim.Native.Char.{code}
use Prim.Native.String.{count}
use text.Mathlib.TextLemmas.{nil-append, cons-append, length-append}
use hxstakepool.Prelude.{
  ℕ, ◌<◌, String, ◌<>◌, string_eq, nat_eq, true, false, not, List, [], ◌∷◌, ◌++◌, some, ◌==◌, ◌≡◌,
  ◌≢◌, ◌⊎◌, refl, sym, ◌∙◌, subst, ap, arith, inl, inr, All, Member, Bool-cases, Option-cases,
}
use hxstakepool.GoMap.{GoMap, lookup}
use hxstakepool.Stakepoold.Context.{Hash}
use hxstakepool.Accounts.Tables.{select}
use hxstakepool.Accounts.Rows.{append-Member}
use hxstakepool.Controllers.Admin.{
  LowFeeTicket, AdminSite, AdminRequest, Pool, is_admin, stakepoold_get_ignored, new_row, add_each,
  join, delete_query, push_tickets, post_add, post_remove, admin_tickets_post,
}
use hxstakepool.Controllers.Admin.Laws.{IsAdmin, is_admin_iff, List-cases}

module _ (s : AdminSite) (r : AdminRequest) where
  -- The ticket was selected, its hash can be read, and a daemon reports it as ignored at the address.
  abbrev pub IsListed : GoMap Hash String → LowFeeTicket → Type 0
  IsListed ignored row =
      Member row.ticket_hash r.tickets
      × ((hash : Hash) × (s.new_hash_from_str row.ticket_hash ≡ some hash)
          × (lookup hash ignored ≡ some row.ticket_address))

  add_each-Member :
      (uid : ℕ) (ignored : GoMap Hash String) (tickets : List String) (table : List LowFeeTicket)
      → ((t : String) → Member t tickets → Member t r.tickets)
      → (row : LowFeeTicket) → Member row (add_each s r uid ignored tickets table).0
      → Member row table ⊎ (IsListed ignored row × (row.added_by_uid ≡ uid))
  unfolding add_each
  add_each-Member uid ignored [] table within row m = inl m
  add_each-Member uid ignored (ticket ∷ tickets) table within row m =
      elim (Option-cases (s.new_hash_from_str ticket)) [
        | inl bad ↦ inl (subst (Member row) (ground (arith, bad)) m)
        | inr (hash, read) ↦ elim (Option-cases (lookup hash ignored)) [
          | inl gone ↦ inl (subst (Member row) (ground (arith, read, gone)) m)
          | inr (msa, at) ↦
              let new = new_row s r uid msa ticket in
              let rest = add_each s r uid ignored tickets (table ++ (new ∷ [])) in
              elim (Bool-cases (s.insert_works new)) [
                | inr failed ↦ inl (subst (Member row) (ground (arith, read, at, failed)) m)
                | inl works ↦
                    let eq : (add_each s r uid ignored (ticket ∷ tickets) table).0 ≡ rest.0 =
                      ground (arith, read, at, works) in
                    elim (add_each-Member uid ignored tickets (table ++ (new ∷ []))
                      (λ t t_in. within t (inr t_in)) row (subst (Member row) eq m)) [
                        | inr added ↦ inr added
                        | inl before ↦ elim (append-Member row new table before) [
                          | inl old ↦ inl old
                          | inr is_new ↦ inr (
                              subst (λ x. IsListed ignored x × (x.added_by_uid ≡ uid)) (sym is_new)
                                ((within ticket (inl refl), (hash, read, at)), refl))
                        ]
                      ]
              ]
        ]
      ]

  -- After a request with the action Add, each row of the table was there before, or it was added by
  -- the user of the session for a ticket that was selected and that the daemons' answer reports as
  -- ignored, at the address reported. This holds however the request ends.
  pub admin_tickets_post-IsListed :
      (p : Pool) (uid : ℕ) (row : LowFeeTicket)
      → r.session ≡ some uid
      → r.action ≡ "Add"
      → Member row (admin_tickets_post s r p).low_fee_tickets
      → Member row p.low_fee_tickets
        ⊎ (IsListed (stakepoold_get_ignored s p.lines ([], true)).1.0 row
            × (row.added_by_uid ≡ uid))
  unfolding admin_tickets_post post_add push_tickets
  admin_tickets_post-IsListed p uid row is add m =
      let got = stakepoold_get_ignored s p.lines ([], true) in
      let added = add_each s r uid got.1.0 r.tickets p.low_fee_tickets in
      let either : ((admin_tickets_post s r p).low_fee_tickets ≡ p.low_fee_tickets)
          ⊎ ((admin_tickets_post s r p).low_fee_tickets ≡ added.0) =
        ground (
          arith,
          is,
          string_eq.beq_iff r.action "Add",
          add,
          Bool-cases (is_admin s r),
          Bool-cases r.parsed,
          List-cases r.tickets,
          Bool-cases got.1.1,
          Option-cases added.1,
        ) in
      elim either [
        | inl eq ↦ inl (subst (Member row) eq m)
        | inr eq ↦
            add_each-Member uid got.1.0 r.tickets p.low_fee_tickets (λ t t_in. t_in) row
              (subst (Member row) eq m)
      ]

-- No quote and no backslash.
abbrev pub IsPlain : String → Type 0
IsPlain String.[] = Unit {0}
IsPlain (String.◌∷◌ c t) = (code c ≢ 34) × (code c ≢ 92) × IsPlain t

append-IsPlain : (t u : String) → IsPlain t → IsPlain u → IsPlain (t <> u)
append-IsPlain String.[] u plain plain2 = subst IsPlain (sym (nil-append u)) plain2
append-IsPlain (String.◌∷◌ c t) u (quote, slash, plain) plain2 =
    subst IsPlain (sym (cons-append c t u)) (quote, slash, append-IsPlain t u plain plain2)

-- DELETE with one text in its list removes the rows that have this text for a hash.
abbrev pub DeletesListed : AdminSite → Type 0
DeletesListed s =
    (t : String) (table : List LowFeeTicket)
    → IsPlain t
    → s.exec ("DELETE FROM LowFeeTicket WHERE TicketHash IN (\"" <> (t <> "\")")) table
      ≡ some (select (λ (row : LowFeeTicket). not (row.ticket_hash == t)) table)

module _ (s : AdminSite) where
  join-IsPlain : (tickets : List String) → All IsPlain tickets → IsPlain (join s tickets)
  unfolding join
  join-IsPlain [] plain = tt
  join-IsPlain (ticket ∷ []) (plain, _) = plain
  join-IsPlain (ticket ∷ ticket2 ∷ tickets) (plain, more) =
      append-IsPlain ticket ("," <> join s (ticket2 ∷ tickets)) plain (
        append-IsPlain "," (join s (ticket2 ∷ tickets)) (omega arith, omega arith, tt)
          (join-IsPlain (ticket2 ∷ tickets) more))

  select-longer :
      (t : String) (table : List LowFeeTicket)
      → 64 < count t
      → All (λ (row : LowFeeTicket). count row.ticket_hash ≡ 64) table
      → select (λ (row : LowFeeTicket). not (row.ticket_hash == t)) table ≡ table
  unfolding select
  select-longer t [] long hashes = refl
  select-longer t (row ∷ table) long (hash, hashes) =
      let differs : row.ticket_hash ≢ t = λ e. omega (arith, long, hash, ap count e) in
      ground
        (arith, string_eq.beq_iff row.ticket_hash t, differs, select-longer t table long hashes)

  -- Where no selected text has a quote or a backslash, every row of the table and the first ticket
  -- selected have a hash of 64 characters, and a DELETE with one such text in its list removes the rows
  -- with that text for a hash, an administrator's request to remove two tickets or more, with a form that
  -- can be read, removes none: the texts are joined into one, for which no row stands.
  pub admin_tickets_post_remove_several :
      (r : AdminRequest) (p : Pool) (ticket ticket2 : String) (tickets : List String)
      → IsAdmin s r
      → r.parsed ≡ true
      → r.action ≡ "Remove"
      → r.tickets ≡ ticket ∷ ticket2 ∷ tickets
      → All IsPlain (ticket ∷ ticket2 ∷ tickets)
      → count ticket ≡ 64
      → All (λ (row : LowFeeTicket). count row.ticket_hash ≡ 64) p.low_fee_tickets
      → DeletesListed s
      → (admin_tickets_post s r p).low_fee_tickets ≡ p.low_fee_tickets
  unfolding admin_tickets_post post_remove push_tickets join
  admin_tickets_post_remove_several r p ticket ticket2 tickets admin parsed remove is plain size
        sizes deletes =
      let joined = join s (ticket ∷ ticket2 ∷ tickets) in
      let long : 64 < count joined = omega (
        arith,
        size,
        length-append ticket ("," <> join s (ticket2 ∷ tickets)),
        length-append "," (join s (ticket2 ∷ tickets)),
      ) in
      let same = select-longer joined p.low_fee_tickets long sizes in
      let done : s.exec (delete_query s r.tickets) p.low_fee_tickets ≡ some p.low_fee_tickets =
        subst (λ l. s.exec (delete_query s l) p.low_fee_tickets ≡ some p.low_fee_tickets) (sym is)
          (deletes joined p.low_fee_tickets (join-IsPlain (ticket ∷ ticket2 ∷ tickets) plain)
            ∙ ap some same) in
      let (uid, in_session, m, m2) = admin in
      let is_remove : (r.action == "Remove") ≡ true =
        (string_eq.beq_iff r.action "Remove").1 remove in
      let not_add : (r.action == "Add") ≡ false =
        subst (λ a. (a == "Add") ≡ false) (sym remove) refl in
      ground (arith, (is_admin_iff s r).1 admin, parsed, is, is_remove, not_add, done)
