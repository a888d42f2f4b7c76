-- ===== src/Controllers/Address/Tests.antt =====
-- A user who submits a public key.
use hxstakepool.Prelude.{
  ℕ, String, string_eq, nat_eq, true, false, [], ◌∷◌, some, ◌≡◌, ◌≤◌, ◌⊎◌, refl, arith, inl, Member,
}
use hxstakepool.Keys.{key}
use hxstakepool.Controllers.UserAddresses.{
  address_for_user_id, fee_address_for_user_id, ticket_address_for_user_id,
}
use hxstakepool.Accounts.Tables.{User, select, update, select_one, get_user_by_id}
use hxstakepool.Controllers.Address.{
  Pool, State, update_user_by_id, import_and_store, make_script, with_pool_address, address_post,
  api_address,
}
use hxstakepool.Controllers.Address.Laws.{IsStored, address_post-IsStored}
use hxstakepool.Controllers.Address.Api.{SameEffect, address_post-SameEffect}

abbrev user : User
user = record {
  id = 1;
  email = "alice@pool";
  username = "alice@pool";
  password = "#rose";
  multi_sig_address = "";
  multi_sig_script = "";
  pool_pub_key_addr = "";
  user_pub_key_addr = "";
  user_fee_addr = "";
  height_registered = 0;
  email_verified = 1;
  email_token = "";
  api_token = "";
  vote_bits = 1;
  vote_bits_version = 4;
}

abbrev pool : Pool
pool = record {
  sql = record { collate = λ t. t; fails = λ statement. false };
  keys = record {
    new_key_from_string = λ xpub. some 1;
    is_for_net = λ k. true;
    child = λ k i. key i;
    get_alg_type = λ k. 4;
    address = λ k type. some "DsAddress";
    external_branch = 0;
  };
  fee_xpub = 1;
  voting_xpub = 1;
  decode_address = λ t. some true;
  validate_address = λ t. some (record { is_mine = true; pub_key_addr = "DkPool" });
  create_multisig = λ p u. some (record { multi_sig_address = "DcMulti"; redeem_script = "51" });
  get_best_block = some 700;
  decode_hex = λ t. some (81 ∷ []);
  import_script = λ script height. true;
}

abbrev state : State
state = record {
  db = record { users = user ∷ []; next_id = 2; email_changes = []; password_resets = [] };
  shutdown = 0;
  imported = [];
}

abbrev pub_key : String
pub_key = "DkRMaaaaaaaaaaaaaaaaaaaaaaaaaaaaaaaaaaaaaaaaaaaaaaaaa"

abbrev stored : User
stored = record user {
  multi_sig_address = "DcMulti";
  multi_sig_script = "51";
  pool_pub_key_addr = "DkPool";
  user_pub_key_addr = pub_key;
  user_fee_addr = "DsAddress";
  height_registered = 700;
}

address_post-SameEffect_example :
    SameEffect (address_post pool (some 1) pub_key state) (api_address pool (some 1) pub_key state)
address_post-SameEffect_example = address_post-SameEffect pool 1 pub_key state (omega arith)

address_post-IsStored_example :
    Member stored state.db.users
    ⊎ ((uid : ℕ) × (old : User) × (some 1 ≡ some uid)
        × Member old state.db.users
        × (old.id ≡ uid)
        × (old.user_pub_key_addr ≡ "")
        × (40 ≤ 53)
        × (53 ≤ 65)
        × (pool.decode_address pub_key ≡ some true)
        × IsStored pool (address_post pool (some 1) pub_key state).0 uid pub_key stored)
address_post-IsStored_example = address_post-IsStored pool (some 1) pub_key state stored (
    unfold address_post with_pool_address make_script import_and_store update_user_by_id
      get_user_by_id ticket_address_for_user_id fee_address_for_user_id address_for_user_id
      select_one select update in
    inl refl)
