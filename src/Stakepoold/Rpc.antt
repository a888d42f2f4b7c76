-- ===== src/Stakepoold/Rpc.antt =====
-- The wallet and the node that the daemon talks to, and hcd's `chainhash`: not part of the
-- repository, so a value of these records is an argument of what calls them.
use hxstakepool.Prelude.{ℕ, String, List, Option, ◌≡◌, refl, ◌⊎◌, inl, inr}
use hxstakepool.Stakepoold.Context.{Hash}

-- An answer, or the text of an error.
pub data Reply (A : Type 0) : Type 0 where
  reply : A → Reply A
  failure : String → Reply A

-- `dcrjson.GetTransactionResult`: of each detail, the address.
pub record Transaction : Type 0 where
  pub details : List String
  pub hex : String
  pub tx_id : String
  pub block_hash : String

pub Reply-cases :
    {A : Type 0} (r : Reply A) → ((a : A) × (r ≡ reply a)) ⊎ ((e : String) × (r ≡ failure e))
Reply-cases (reply a) = inl (a, refl)
Reply-cases (failure e) = inr (e, refl)

pub record Wallet : Type 0 where
  pub get_transaction : Hash → Reply Transaction
  pub get_tickets : Reply (List Hash)
  -- Block hash, block height, ticket, vote bits and extended vote bits give the vote in hex.
  pub generate_vote : Hash → ℕ → Hash → ℕ → String → Reply String

pub record Node : Type 0 where
  -- The bytes of a transaction, once `MsgTx.FromBytes` has read them.
  pub from_bytes : List ℕ → Option (List ℕ)
  pub send_raw_transaction : List ℕ → Reply Hash
  pub get_block_header : Hash → Reply ℕ
  pub new_hash_from_str : String → Option Hash
