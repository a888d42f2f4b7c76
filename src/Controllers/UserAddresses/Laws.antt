-- ===== src/Controllers/UserAddresses/Laws.antt =====
-- The address that a user is told to pay fees to is one that the daemon looks for.
use hxstakepool.Prelude.{ℕ, ◌<◌, String, true, some, ◌≡◌, ◌∙◌, arith, string_eq}
use hxstakepool.Prelude.Words.{uint32}
use hxstakepool.Prelude.Result.{ok}
use hxstakepool.GoMap.{GoMap, has}
use hxstakepool.Keys.{KeyChain, key}
use hxstakepool.Stakepoold.FeeAddresses.{calculate_fee_addresses}
use hxstakepool.Stakepoold.FeeAddresses.Laws.{Derives, elem-addresses, calculate_fee_addresses-ok}
use hxstakepool.Controllers.UserAddresses.{max_users, fee_address_for_user_id}

module _ (k : KeyChain) (addr : ℕ → String) (acct branch : ℕ)
    (branch_of : k.child acct k.external_branch ≡ key branch)
    (derives : (j : ℕ) → j < max_users → Derives k branch 0 addr j)
    -- A child key has the algorithm of its parent.
    (same_alg : (parent i child : ℕ)
      → k.child parent i ≡ key child
      → k.get_alg_type child ≡ k.get_alg_type parent) where
  pub fee_address_for_user_id-ok :
      (uid : ℕ) → uid < max_users → fee_address_for_user_id k acct uid ≡ ok (addr uid)
  unfolding fee_address_for_user_id
  fee_address_for_user_id-ok uid h =
      let (child, ec, ea) = derives uid h in
      ground (arith, branch_of, ec, ea, same_alg branch (uint32 uid) child)

  -- Where the daemon can read the key, the key has its external branch and that branch a child with an
  -- address for each number below the application's limit on users, and each child has the algorithm of
  -- its parent, then every user below the limit gets a fee address, and it is in the set that the daemon
  -- makes from the same key, in which it looks for fees.
  pub fee_address-calculate_fee_addresses :
      (fuel uid : ℕ) (xpub : String)
      → max_users < fuel
      → uid < max_users
      → k.new_key_from_string xpub ≡ some acct
      → k.is_for_net acct ≡ true
      → (m : GoMap String (Unit {0})) × (a : String) × (calculate_fee_addresses k fuel xpub
          ≡ some (ok m))
        × (fee_address_for_user_id k acct uid ≡ ok a)
        × (has a m ≡ true)
  fee_address-calculate_fee_addresses fuel uid xpub hf hu ek en =
      let (m, em, eh) =
        calculate_fee_addresses-ok k addr fuel xpub acct branch hf ek en branch_of derives in
      (
        m,
        addr uid,
        em,
        fee_address_for_user_id-ok uid hu,
        eh (addr uid) ∙ elem-addresses addr max_users uid hu,
      )
