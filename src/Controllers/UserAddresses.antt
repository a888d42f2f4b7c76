-- ===== src/Controllers/UserAddresses.antt =====
-- `FeeAddressForUserID` and `TicketAddressForUserID` of controllers/main.go: one child of the fee
-- key, and one of the voting key, for each user.
pub mod Laws
use hxstakepool.Prelude.{ℕ, ◌+◌, String, Option, none, some, if◌then◌else◌, ltb}
use hxstakepool.Prelude.Words.{uint32}
use hxstakepool.Prelude.Result.{Result, ok, err, ◌>>=◌, or_err}
use hxstakepool.Keys.{
  KeyChain, KeyError, Derivation, key, invalid_child, failed, bad_child, bad_address, bad_uid,
}
use hxstakepool.Stakepoold.FeeAddresses.{addr_type}

abbrev pub max_users : ℕ
max_users = 10000

abbrev child_of : Derivation → Result KeyError ℕ
child_of (key c) = ok c
child_of invalid_child = err bad_child
child_of failed = err bad_child

module _ (k : KeyChain) where
  -- The body that the two functions share, at the key of either.
  unfoldable pub address_for_user_id : (acct_key uid : ℕ) → Result KeyError String
  address_for_user_id acct_key uid = if ltb max_users (uid + 1) then err (bad_uid uid) else do
    branch_key ← child_of (k.child acct_key k.external_branch)
    child ← child_of (k.child branch_key (uint32 uid))
    or_err (k.address child (addr_type k child)) bad_address

  unfoldable pub fee_address_for_user_id : (fee_xpub uid : ℕ) → Result KeyError String
  unfolding address_for_user_id
  fee_address_for_user_id = address_for_user_id

  unfoldable pub ticket_address_for_user_id : (voting_xpub uid : ℕ) → Result KeyError String
  unfolding address_for_user_id
  ticket_address_for_user_id = address_for_user_id
