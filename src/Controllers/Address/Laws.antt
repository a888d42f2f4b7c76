-- ===== src/Controllers/Address/Laws.antt =====
-- A row gets an address only after the wallets took its script, and the form and the API do the same.
use Prim.Native.String.{len}
use hxstakepool.Prelude.{
  ℕ, ◌≤◌, String, string_eq, nat_eq, Bool, true, List, [], ◌∷◌, ◌++◌, Option, none, some, ◌==◌, ◌≡◌,
  ◌⊎◌, refl, sym, subst, arith, inl, inr, Member, Bool-cases, Option-cases,
}
use hxstakepool.Controllers.UserAddresses.{fee_address_for_user_id, ticket_address_for_user_id}
use hxstakepool.Accounts.Tables.{
  User, Db, update_user_by_id_select, update_user_by_id_update, get_user_by_id_select, select, only,
  update, select_one, get_user_by_id,
}
use hxstakepool.Accounts.Rows.{update-Member, Member-append_last, select_sound, only-eq_some}
use hxstakepool.Accounts.Unique.{id_of}
use hxstakepool.Controllers.Address.{
  CreateMultisigReply, Pool, State, of_result, update_user_by_id, import_and_store,
  best_block_height, after_best_block, make_script, with_pool_address, address_post,
}

module _ (s : Pool) where
  -- The row is that of the user with an id, with the multisignature address and script of the pool's
  -- key and the user's, and the wallets took the script, at the height of the row.
  abbrev pub IsStored : State → (uid : ℕ) → (user_addr : String) → User → Type 0
  IsStored after uid user_addr u =
      (multisig : CreateMultisigReply) × (script : List ℕ) × (u.id ≡ uid)
      × (u.user_pub_key_addr ≡ user_addr)
      × (s.create_multisig u.pool_pub_key_addr user_addr ≡ some multisig)
      × (u.multi_sig_address ≡ multisig.multi_sig_address)
      × (u.multi_sig_script ≡ multisig.redeem_script)
      × (s.decode_hex u.multi_sig_script ≡ some script)
      × Member (script, u.height_registered) after.imported

  -- Each row is one of before, or stored.
  abbrev pub IsKept : State → State → (uid : ℕ) → (user_addr : String) → Type 0
  IsKept before after uid user_addr =
      (u : User)
      → Member u after.db.users
      → Member u before.db.users ⊎ IsStored after uid user_addr u

  same-IsKept :
      (before after : State) (uid : ℕ) (user_addr : String)
      → after.db ≡ before.db
      → IsKept before after uid user_addr
  same-IsKept before after uid user_addr eq u m = inl (subst (λ (d : Db). Member u d.users) eq m)

  import_and_store-IsKept :
      (w : State) (uid : ℕ) (multisig : CreateMultisigReply) (pool_addr user_addr : String)
      (script : List ℕ) (height : ℕ)
      → s.create_multisig pool_addr user_addr ≡ some multisig
      → s.decode_hex multisig.redeem_script ≡ some script
      → IsKept w
          (import_and_store s w uid multisig pool_addr user_addr script height).0
          uid
          user_addr
  unfolding import_and_store update_user_by_id select_one
  import_and_store-IsKept w uid multisig pool_addr user_addr script height made read u m =
      let after = (import_and_store s w uid multisig pool_addr user_addr script height).0 in
      let fee = of_result (fee_address_for_user_id s.keys s.fee_xpub uid) in
      let fits : User → Bool = λ v. v.id == uid in
      let found = select_one s.sql update_user_by_id_select fits w.db.users in
      elim (Bool-cases (s.import_script script height)) [
        | inr failed ↦ same-IsKept w after uid user_addr (ground (arith, failed)) u m
        | inl taken ↦ elim (Option-cases fee) [
          | inl no_fee ↦ same-IsKept w after uid user_addr (ground (arith, taken, no_fee)) u m
          | inr (fee_addr, fee_is) ↦ elim (Option-cases found) [
            | inl absent ↦
                same-IsKept w after uid user_addr (ground (arith, taken, fee_is, absent)) u m
            | inr (user, is) ↦ elim (Bool-cases (s.sql.fails update_user_by_id_update)) [
              | inl fails ↦
                  same-IsKept w after uid user_addr (ground (arith, taken, fee_is, is, fails)) u m
              | inr works ↦
                  let row2 = record user {
                    multi_sig_address = multisig.multi_sig_address;
                    multi_sig_script = multisig.redeem_script;
                    pool_pub_key_addr = pool_addr;
                    user_pub_key_addr = user_addr;
                    user_fee_addr = fee_addr;
                    height_registered = height;
                  } in
                  let eq : after.db.users
                      ≡ update (λ (v : User). v.id == user.id) (λ _. row2) w.db.users =
                    ground (arith, taken, fee_is, is, works) in
                  let imported : after.imported ≡ w.imported ++ ((script, height) ∷ []) =
                    ground (arith, taken, fee_is, is, works) in
                  let one : only (select fits w.db.users) ≡ some user = ground (arith, is) in
                  let (m2, at) =
                    select_sound id_of uid w.db.users (only-eq_some (select fits w.db.users) one) in
                  elim (update-Member (λ (v : User). v.id == user.id) (λ _. row2) u w.db.users
                    (subst (Member u) eq m)) [
                      | inl old ↦ inl old
                      | inr (old, m3, same_id, new) ↦ inr (
                          subst (IsStored after uid user_addr) (sym new) (
                            multisig,
                            script,
                            at,
                            refl,
                            made,
                            refl,
                            refl,
                            read,
                            subst (Member (script, height)) (sym imported)
                                (Member-append_last (script, height) w.imported),
                          ))
                    ]
            ]
          ]
        ]
      ]

  make_script-IsKept :
      (w : State) (uid : ℕ) (pool_addr user_addr : String)
      → IsKept w (make_script s w uid pool_addr user_addr).0 uid user_addr
  unfolding make_script
  make_script-IsKept w uid pool_addr user_addr u m =
      let after = (make_script s w uid pool_addr user_addr).0 in
      let w2 = after_best_block s w in
      let blocks = Option-cases s.get_best_block in
      elim (Option-cases (s.create_multisig pool_addr user_addr)) [
        | inl none_made ↦ same-IsKept w after uid user_addr (ground (arith, none_made)) u m
        | inr (multisig, made) ↦ elim (Option-cases (s.decode_hex multisig.redeem_script)) [
          | inl bad ↦ same-IsKept w after uid user_addr (ground (arith, made, bad, blocks)) u m
          | inr (script, read) ↦
              let stored =
                import_and_store s w2 uid multisig pool_addr user_addr script
                  (best_block_height s) in
              let before : w2.db ≡ w.db = ground (arith, blocks) in
              let either : (after.db ≡ w.db) ⊎ (after ≡ stored.0) =
                ground (arith, made, read, blocks, before) in
              elim either [
                | inl eq ↦ same-IsKept w after uid user_addr eq u m
                | inr eq ↦
                    let kept =
                      import_and_store-IsKept w2 uid multisig pool_addr user_addr script
                        (best_block_height s) made read u
                        (subst (λ (x : State). Member u x.db.users) eq m) in
                    elim kept [
                      | inl old ↦ inl (subst (λ (d : Db). Member u d.users) before old)
                      | inr new ↦ inr (subst (λ x. IsStored x uid user_addr u) (sym eq) new)
                    ]
              ]
        ]
      ]

  with_pool_address-IsKept :
      (w : State) (uid : ℕ) (pool_address user_addr : String)
      → IsKept w (with_pool_address s w uid pool_address user_addr).0 uid user_addr
  unfolding with_pool_address
  with_pool_address-IsKept w uid pool_address user_addr u m =
      let after = (with_pool_address s w uid pool_address user_addr).0 in
      elim (Option-cases (s.validate_address pool_address)) [
        | inl bad ↦ same-IsKept w after uid user_addr (ground (arith, bad)) u m
        | inr (reply, is) ↦
            let made = (make_script s w uid reply.pub_key_addr user_addr).0 in
            let either : (after.db ≡ w.db) ⊎ (after ≡ made) = ground (
              arith,
              is,
              Bool-cases reply.is_mine,
              Option-cases (s.decode_address reply.pub_key_addr),
            ) in
            elim either [
              | inl eq ↦ same-IsKept w after uid user_addr eq u m
              | inr eq ↦
                  subst (λ x. Member u w.db.users ⊎ IsStored x uid user_addr u) (sym eq)
                    (make_script-IsKept w uid reply.pub_key_addr user_addr u
                      (subst (λ (x : State). Member u x.db.users) eq m))
            ]
      ]

  -- After a request with an address, each user stands in the table as before, or is the user of the
  -- session, who had no address; the address has 40 to 65 bytes and decodes to a public key; and the
  -- row has it, with the multisignature address and script that the wallets made of it and the pool's
  -- key, and the height at which the wallets took that script. This holds however the request ends.
  pub address_post-IsStored :
      (session : Option ℕ) (user_addr : String) (w : State) (u : User)
      → Member u (address_post s session user_addr w).0.db.users
      → Member u w.db.users
        ⊎ ((uid : ℕ) × (old : User) × (session ≡ some uid)
            × Member old w.db.users
            × (old.id ≡ uid)
            × (old.user_pub_key_addr ≡ "")
            × (40 ≤ len user_addr)
            × (len user_addr ≤ 65)
            × (s.decode_address user_addr ≡ some true)
            × IsStored (address_post s session user_addr w).0 uid user_addr u)
  unfolding address_post get_user_by_id select_one
  address_post-IsStored none user_addr w u m = inl m
  address_post-IsStored (some uid) user_addr w u m =
      let after = (address_post s (some uid) user_addr w).0 in
      let fits : User → Bool = λ v. v.id == uid in
      let found = select_one s.sql get_user_by_id_select fits w.db.users in
      let ticket = of_result (ticket_address_for_user_id s.keys s.voting_xpub uid) in
      elim (Option-cases found) [
        | inl absent ↦
            let eq : after.db ≡ w.db = ground (arith, absent) in
            inl (subst (λ (d : Db). Member u d.users) eq m)
        | inr (old, is) ↦ elim (Option-cases ticket) [
          | inl none_made ↦
              let eq : after.db ≡ w.db = ground (
                arith,
                is,
                none_made,
                Bool-cases (old.user_pub_key_addr == ""),
                Option-cases (s.decode_address user_addr),
              ) in
              inl (subst (λ (d : Db). Member u d.users) eq m)
          | inr (pool_address, made) ↦
              let stored = (with_pool_address s w uid pool_address user_addr).0 in
              let either : (after.db ≡ w.db)
                  ⊎ ((after ≡ stored)
                      × ((old.user_pub_key_addr == "") ≡ true)
                      × (40 ≤ len user_addr)
                      × (len user_addr ≤ 65)
                      × (s.decode_address user_addr ≡ some true)) =
                ground (
                  arith,
                  is,
                  made,
                  Bool-cases (old.user_pub_key_addr == ""),
                  Option-cases (s.decode_address user_addr),
                ) in
              elim either [
                | inl eq ↦ inl (subst (λ (d : Db). Member u d.users) eq m)
                | inr (eq, free, low, high, secp) ↦
                    let one : only (select fits w.db.users) ≡ some old = ground (arith, is) in
                    let (m2, at) =
                      select_sound id_of uid w.db.users
                        (only-eq_some (select fits w.db.users) one) in
                    elim (with_pool_address-IsKept w uid pool_address user_addr u
                      (subst (λ (x : State). Member u x.db.users) eq m)) [
                        | inl before ↦ inl before
                        | inr new ↦ inr (
                          uid,
                          old,
                          refl,
                          m2,
                          at,
                          (string_eq.beq_iff old.user_pub_key_addr "").0 free,
                          low,
                          high,
                          secp,
                          subst (λ x. IsStored x uid user_addr u) (sym eq) new,
                        )
                      ]
              ]
        ]
      ]
