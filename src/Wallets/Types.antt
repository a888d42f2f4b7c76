-- ===== src/Wallets/Types.antt =====
-- The wallets' answers, of hcd's `dcrjson`, with the fields that the program reads, and the errors.
use hxstakepool.Prelude.{ℕ, String, Bool, true, false, List, Option, ◌≡◌, refl, ◌⊎◌, inl, inr}

-- An error of an RPC client: the two that mean that there is no connection, or another.
pub data RpcError : Type 0 where
  client_disconnect client_shutdown : RpcError
  other : String → RpcError

pub data Answer (A : Type 0) : Type 0 where
  answer : A → Answer A
  fails : RpcError → Answer A

pub Answer-cases :
    {A : Type 0} (r : Answer A) → ((a : A) × (r ≡ answer a)) ⊎ ((e : RpcError) × (r ≡ fails e))
Answer-cases (answer a) = inl (a, refl)
Answer-cases (fails e) = inr (e, refl)

abbrev pub is_down : RpcError → Bool
is_down client_disconnect = true
is_down client_shutdown = true
is_down (other _) = false

-- A slot of `w.servers`: nil, or the handle of a client.
abbrev pub Server : Type 0
Server = Option ℕ

pub record ValidateAddressResult : Type 0 where
  pub is_mine : Bool
  pub pub_key : String
  pub pub_key_addr : String

pub record CreateMultiSigResult : Type 0 where
  pub address : String
  pub redeem_script : String

pub record GetTxOutResult : Type 0 where
  pub script_hex : String

pub record StakeInfoResult : Type 0 where
  pub live : ℕ
  pub voted : ℕ

pub record WalletInfoResult : Type 0 where
  pub daemon_connected : Bool
  pub unlocked : Bool
  pub voting : Bool
  pub vote_version : ℕ

pub record PoolTicket : Type 0 where
  pub status : String
  pub ticket : String

pub record UserInfoResult : Type 0 where
  pub tickets : List PoolTicket
  pub invalid_tickets : List String

pub data SvrError : Type 0 where
  rpc : RpcError → SvrError
  import_error : String → SvrError
  too_few : (available min_servers : ℕ) → SvrError
  non_equivalent : SvrError
  non_equivalent_error : (message : ℕ) → SvrError
  mismatched : (server last_server : ℕ) → SvrError
  not_connected locked : (server : ℕ) → SvrError
  no_best_block no_transaction bad_hash no_servers : SvrError
