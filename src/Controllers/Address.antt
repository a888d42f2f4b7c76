-- ===== src/Controllers/Address.antt =====
-- `AddressPost` and `APIAddress` of controllers/main.go: a user's public key becomes a multisignature
-- script, which the wallets import before the user's row gets it.
pub mod Api
pub mod Push
pub mod Laws
mod Tests
use Prim.Native.String.{len}
use hxstakepool.Prelude.{
  ℕ, zero, ◌+◌, ◌<◌, String, string_eq, nat_eq, Bool, true, false, not, List, [], ◌∷◌, ◌++◌, Option,
  none, some, if◌then◌else◌, ◌==◌, ltb, leb,
}
use hxstakepool.Prelude.Result.{Result, ok, err, panic}
use hxstakepool.Keys.{KeyChain, KeyError}
use hxstakepool.Controllers.UserAddresses.{fee_address_for_user_id, ticket_address_for_user_id}
use hxstakepool.Accounts.Tables.{
  User, Db, Sql, update_user_by_id_select, update_user_by_id_update, update, select_one,
  get_user_by_id,
}

pub record ValidateAddressReply : Type 0 where
  pub is_mine : Bool
  pub pub_key_addr : String

pub record CreateMultisigReply : Type 0 where
  pub multi_sig_address : String
  pub redeem_script : String

-- The requests to the wallets, nothing where one returns an error, and what is called of hcutil and of
-- encoding/hex. `decode_address` tells whether the address is that of a public key.
pub record Pool : Type 1 where
  pub sql : Sql
  pub keys : KeyChain
  pub fee_xpub : ℕ
  pub voting_xpub : ℕ
  pub decode_address : String → Option Bool
  pub validate_address : String → Option ValidateAddressReply
  pub create_multisig : (p u : String) → Option CreateMultisigReply
  pub get_best_block : Option ℕ
  pub decode_hex : String → Option (List ℕ)
  pub import_script : List ℕ → ℕ → Bool

-- `shutdown` is the counter of `Stop`; `imported` holds the scripts that the wallets took.
pub record State : Type 0 where
  pub db : Db
  pub shutdown : ℕ
  pub imported : List (List ℕ × ℕ)

-- The two answers, and the point at which a handler calls `StakepooldUpdateAll`.
pub data Answer : Type 0 where
  flash : String → Answer
  see_error : Answer
  refused : (code message : String) → Answer
  no_session : Answer
  crashed : Answer
  updated : Answer

abbrev pub rpc_is_stopped : State → Bool
rpc_is_stopped w = w.shutdown == 1

-- `handlePotentialFatalError`, which stops the wallets' handler.
abbrev pub handle_potential_fatal_error : State → State
handle_potential_fatal_error w = record w { shutdown = w.shutdown + 1 }

abbrev pub of_result : Result KeyError String → Option String
of_result (ok address) = some address
of_result (err _) = none
of_result panic = none

module _ (s : Pool) where
  -- The row, nothing where it cannot be read: it is dereferenced before the error is looked at.
  unfoldable pub update_user_by_id :
      Db → (id : ℕ) → CreateMultisigReply → (pool_addr user_addr fee_addr : String) → ℕ → Option Db
  unfolding select_one
  update_user_by_id db id multisig pool_addr user_addr fee_addr height =
      elim (select_one s.sql update_user_by_id_select (λ (u : User). u.id == id) db.users) [
        | none ↦ none
        | some user ↦
            if s.sql.fails update_user_by_id_update
            then some db
            else some (record db {
              users =
                  update (λ (u : User). u.id == user.id)
                    (λ _. record user {
                      multi_sig_address = multisig.multi_sig_address;
                      multi_sig_script = multisig.redeem_script;
                      pool_pub_key_addr = pool_addr;
                      user_pub_key_addr = user_addr;
                      user_fee_addr = fee_addr;
                      height_registered = height;
                    })
                    db.users;
            })
      ]

  -- From the import of the script on.
  unfoldable pub import_and_store :
      State
      → (uid : ℕ) → CreateMultisigReply
      → (pool_addr user_addr : String) → List ℕ
      → ℕ
      → State × Answer
  import_and_store w uid multisig pool_addr user_addr script height =
      if not (s.import_script script height)
      then (handle_potential_fatal_error w, see_error)
      else (let w2 = record w { imported = w.imported ++ ((script, height) ∷ []) } in
          elim (of_result (fee_address_for_user_id s.keys s.fee_xpub uid)) [
            | none ↦ (w2, flash "Unable to derive fee address")
            | some fee_addr ↦
                elim (update_user_by_id w2.db uid multisig pool_addr user_addr fee_addr height) [
                  | none ↦ (w2, crashed)
                  | some db2 ↦ (record w2 { db = db2 }, updated)
                ]
          ])

  -- The height of the best block, which stays zero where the request fails.
  abbrev pub best_block_height : ℕ
  best_block_height = elim s.get_best_block [ none ↦ zero | some height ↦ height ]

  abbrev pub after_best_block : State → State
  after_best_block w = elim s.get_best_block [
    | none ↦ handle_potential_fatal_error w
    | some height ↦ w
  ]

  -- From the multisignature script on.
  unfoldable pub make_script : State → (uid : ℕ) → (pool_addr user_addr : String) → State × Answer
  make_script w uid pool_addr user_addr =
      if rpc_is_stopped w then (w, see_error) else elim (s.create_multisig pool_addr user_addr) [
        | none ↦ (handle_potential_fatal_error w, see_error)
        | some multisig ↦
            let w2 = after_best_block w in
            if rpc_is_stopped w
            then (w, see_error)
            else if rpc_is_stopped w2
            then (w2, see_error)
            else elim (s.decode_hex multisig.redeem_script) [
              | none ↦ (handle_potential_fatal_error w2, see_error)
              | some script ↦
                  import_and_store w2 uid multisig pool_addr user_addr script best_block_height
            ]
      ]

  -- From the pool's address for the user on.
  unfoldable pub with_pool_address :
      State → (uid : ℕ) → (pool_address user_addr : String) → State × Answer
  with_pool_address w uid pool_address user_addr =
      if rpc_is_stopped w then (w, see_error) else elim (s.validate_address pool_address) [
        | none ↦ (handle_potential_fatal_error w, see_error)
        | some reply ↦
            if not reply.is_mine
            then (w, flash "Unable to validate pool ticket address")
            else elim (s.decode_address reply.pub_key_addr) [
              | none ↦ (handle_potential_fatal_error w, see_error)
              | some _ ↦ make_script w uid reply.pub_key_addr user_addr
            ]
      ]

  unfoldable pub address_post :
      (session : Option ℕ) → (user_pub_key_addr : String) → State → State × Answer
  address_post session user_pub_key_addr w = elim session [
    | none ↦ (w, no_session)
    | some uid ↦ elim (get_user_by_id s.sql w.db uid) [
      | none ↦ (w, crashed)
      | some user ↦
          if not (user.user_pub_key_addr == "")
          then (w, flash "Stake pool is currently limited to one address per account")
          else if ltb (len user_pub_key_addr) 40
          then (w, flash "Address is too short")
          else if ltb 65 (len user_pub_key_addr)
          then (w, flash "Address is too long")
          else elim (s.decode_address user_pub_key_addr) [
            | none ↦ (w, flash "Couldn't decode address")
            | some false ↦ (w, flash "Incorrect address type")
            | some true ↦ elim (of_result (ticket_address_for_user_id s.keys s.voting_xpub uid)) [
              | none ↦ (w, flash "Unable to derive ticket address")
              | some pool_address ↦ with_pool_address w uid pool_address user_pub_key_addr
            ]
          ]
    ]
  ]

  abbrev pub unavailable : Answer
  unavailable = refused "Unavailable" "unable to process wallet commands"

  -- The same from the import on, as the API has it.
  unfoldable pub api_import_and_store :
      State
      → (uid : ℕ) → CreateMultisigReply
      → (pool_addr user_addr : String) → List ℕ
      → ℕ
      → State × Answer
  api_import_and_store w uid multisig pool_addr user_addr script height =
      if s.import_script script height
      then (let w2 = record w { imported = w.imported ++ ((script, height) ∷ []) } in
          elim (of_result (fee_address_for_user_id s.keys s.fee_xpub uid)) [
            | none ↦ (w2, unavailable)
            | some fee_addr ↦
                elim (update_user_by_id w2.db uid multisig pool_addr user_addr fee_addr height) [
                  | none ↦ (w2, crashed)
                  | some db2 ↦ (record w2 { db = db2 }, updated)
                ]
          ])
      else (handle_potential_fatal_error w, unavailable)

  unfoldable pub api_make_script :
      State → (uid : ℕ) → (pool_addr user_addr : String) → State × Answer
  api_make_script w uid pool_addr user_addr =
      if rpc_is_stopped w then (w, unavailable) else elim (s.create_multisig pool_addr user_addr) [
        | none ↦ (handle_potential_fatal_error w, unavailable)
        | some multisig ↦
            let w2 = after_best_block w in
            if rpc_is_stopped w
            then (w, unavailable)
            else if rpc_is_stopped w2
            then (w2, unavailable)
            else elim (s.decode_hex multisig.redeem_script) [
              | none ↦ (handle_potential_fatal_error w2, unavailable)
              | some script ↦
                  api_import_and_store w2 uid multisig pool_addr user_addr script best_block_height
            ]
      ]

  -- The API does not ask whether the handler was stopped before it validates the address, nor stops it
  -- where that fails.
  unfoldable pub api_with_pool_address :
      State → (uid : ℕ) → (pool_address user_addr : String) → State × Answer
  api_with_pool_address w uid pool_address user_addr = elim (s.validate_address pool_address) [
    | none ↦ (w, unavailable)
    | some reply ↦
        if not reply.is_mine then (w, unavailable) else elim (s.decode_address reply.pub_key_addr) [
          | none ↦ (handle_potential_fatal_error w, unavailable)
          | some _ ↦ api_make_script w uid reply.pub_key_addr user_addr
        ]
  ]

  unfoldable pub api_address :
      (api_user_id : Option ℕ) → (user_pub_key_addr : String) → State → State × Answer
  api_address api_user_id user_pub_key_addr w = elim api_user_id [
    | none ↦ (w, refused "Unauthenticated" "invalid api token")
    | some uid ↦ elim (get_user_by_id s.sql w.db uid) [
      | none ↦ (w, crashed)
      | some user ↦
          if not (user.user_pub_key_addr == "")
          then (w, refused "AlreadyExists" "address already submitted")
          else if ltb (len user_pub_key_addr) 40
          then (w, refused "InvalidArgument" "address too short")
          else if ltb 65 (len user_pub_key_addr)
          then (w, refused "InvalidArgument" "address too long")
          else elim (s.decode_address user_pub_key_addr) [
            | none ↦ (w, refused "InvalidArgument" "couldn't decode address")
            | some false ↦ (w, refused "InvalidArgument" "incorrect address type")
            | some true ↦ elim (of_result (ticket_address_for_user_id s.keys s.voting_xpub uid)) [
              | none ↦ (w, unavailable)
              | some pool_address ↦ api_with_pool_address w user.id pool_address user_pub_key_addr
            ]
          ]
    ]
  ]
