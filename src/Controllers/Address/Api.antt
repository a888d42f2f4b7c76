-- ===== src/Controllers/Address/Api.antt =====
-- The form and the API, side by side.
use hxstakepool.Prelude.{
  ℕ, String, string_eq, nat_eq, Bool, List, some, ◌==◌, ◌≡◌, ◌≢◌, ◌↔◌, arith, inl, inr, Bool-cases,
  Option-cases,
}
use hxstakepool.Controllers.UserAddresses.{fee_address_for_user_id, ticket_address_for_user_id}
use hxstakepool.Accounts.Tables.{
  User, get_user_by_id_select, select, only, select_one, get_user_by_id,
}
use hxstakepool.Accounts.Rows.{select_sound, only-eq_some}
use hxstakepool.Accounts.Unique.{id_of}
use hxstakepool.Controllers.Address.{
  CreateMultisigReply, Pool, State, Answer, updated, of_result, update_user_by_id, import_and_store,
  best_block_height, after_best_block, make_script, with_pool_address, address_post,
  api_import_and_store, api_make_script, api_with_pool_address, api_address,
}

-- The same table, the same scripts imported, and either both have stored the address or neither.
abbrev pub SameEffect : State × Answer → State × Answer → Type 0
SameEffect form api =
    (form.0.db ≡ api.0.db)
    × (form.0.imported ≡ api.0.imported)
    × ((form.1 ≡ updated) ↔ (api.1 ≡ updated))

module _ (s : Pool) where
  import_and_store-SameEffect :
      (w : State) (uid : ℕ) (multisig : CreateMultisigReply) (pool_addr user_addr : String)
      (script : List ℕ) (height : ℕ)
      → SameEffect
          (import_and_store s w uid multisig pool_addr user_addr script height)
          (api_import_and_store s w uid multisig pool_addr user_addr script height)
  unfolding import_and_store api_import_and_store
  import_and_store-SameEffect w uid multisig pool_addr user_addr script height =
      let fee = of_result (fee_address_for_user_id s.keys s.fee_xpub uid) in
      elim (Option-cases fee) [
        | inl no_fee ↦ ground (arith, no_fee, Bool-cases (s.import_script script height))
        | inr (fee_addr, is) ↦
            let stored =
              update_user_by_id s w.db uid multisig pool_addr user_addr fee_addr height in
            ground (arith, is, Option-cases stored, Bool-cases (s.import_script script height))
      ]

  make_script-SameEffect :
      (w : State) (uid : ℕ) (pool_addr user_addr : String)
      → SameEffect
          (make_script s w uid pool_addr user_addr)
          (api_make_script s w uid pool_addr user_addr)
  unfolding make_script api_make_script
  make_script-SameEffect w uid pool_addr user_addr =
      elim (Option-cases (s.create_multisig pool_addr user_addr)) [
        | inl none_made ↦ ground (arith, none_made)
        | inr (multisig, made) ↦ elim (Option-cases (s.decode_hex multisig.redeem_script)) [
          | inl bad ↦ ground (arith, made, bad)
          | inr (script, read) ↦ ground (
            arith,
            made,
            read,
            import_and_store-SameEffect (after_best_block s w) uid multisig pool_addr user_addr
                script (best_block_height s),
          )
        ]
      ]

  with_pool_address-SameEffect :
      (w : State) (uid : ℕ) (pool_address user_addr : String)
      → w.shutdown ≢ 1
      → SameEffect
          (with_pool_address s w uid pool_address user_addr)
          (api_with_pool_address s w uid pool_address user_addr)
  unfolding with_pool_address api_with_pool_address
  with_pool_address-SameEffect w uid pool_address user_addr runs =
      elim (Option-cases (s.validate_address pool_address)) [
        | inl bad ↦ ground (arith, runs, bad)
        | inr (reply, is) ↦ ground (
          arith,
          runs,
          is,
          Bool-cases reply.is_mine,
          Option-cases (s.decode_address reply.pub_key_addr),
          make_script-SameEffect w uid reply.pub_key_addr user_addr,
        )
      ]

  -- While the wallets' handler is not stopped, a request for a user with an address has the same effect
  -- through the form and through the API: the same table of users, the same scripts imported by the
  -- wallets, and the address is stored by both or by neither.
  pub address_post-SameEffect :
      (uid : ℕ) (user_addr : String) (w : State)
      → w.shutdown ≢ 1
      → SameEffect (address_post s (some uid) user_addr w) (api_address s (some uid) user_addr w)
  unfolding address_post api_address get_user_by_id select_one
  address_post-SameEffect uid user_addr w runs =
      let fits : User → Bool = λ v. v.id == uid in
      let found = select_one s.sql get_user_by_id_select fits w.db.users in
      let ticket = of_result (ticket_address_for_user_id s.keys s.voting_xpub uid) in
      elim (Option-cases found) [
        | inl absent ↦ ground (arith, absent)
        | inr (old, is) ↦
            let one : only (select fits w.db.users) ≡ some old = ground (arith, is) in
            let (m, at) =
              select_sound id_of uid w.db.users (only-eq_some (select fits w.db.users) one) in
            elim (Option-cases ticket) [
              | inl none_made ↦ ground (
                arith,
                is,
                none_made,
                Bool-cases (old.user_pub_key_addr == ""),
                Option-cases (s.decode_address user_addr),
              )
              | inr (pool_address, made) ↦ ground (
                arith,
                is,
                made,
                at,
                Bool-cases (old.user_pub_key_addr == ""),
                Option-cases (s.decode_address user_addr),
                with_pool_address-SameEffect w uid pool_address user_addr runs,
              )
            ]
      ]
