-- ===== src/Keys.antt =====
-- The part of hcutil's `hdkeychain` that the program calls. Keys are handles.
use hxstakepool.Prelude.{ℕ, String, Bool, Option}

-- What `key.Child(i)` returns: a key, `ErrInvalidChild`, or another error.
pub data Derivation : Type 0 where
  key : ℕ → Derivation
  invalid_child failed : Derivation

pub record KeyChain : Type 0 where
  pub new_key_from_string : String → Option ℕ
  pub is_for_net : ℕ → Bool
  pub child : ℕ → ℕ → Derivation
  pub get_alg_type : ℕ → ℕ
  -- `key.Address(params, addrType)`, encoded.
  pub address : ℕ → ℕ → Option String
  -- `udb.ExternalBranch` of hcwallet.
  pub external_branch : ℕ

pub data KeyError : Type 0 where
  bad_key wrong_network bad_child bad_address : KeyError
  bad_uid : ℕ → KeyError
