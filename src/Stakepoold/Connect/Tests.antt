-- ===== src/Stakepoold/Connect/Tests.antt =====
-- A node that is new enough, and a wallet that is too old.
use hxstakepool.Prelude.{string_eq, true, false, [], ◌∷◌, some, ◌≡◌, ◌↔◌, refl}
use hxstakepool.Stakepoold.Connect.{
  Semver, semver_compatible, required_chain_server_api, required_wallet_api, Server,
  connect_node_rpc, connect_wallet_rpc,
}
use hxstakepool.Stakepoold.Connect.Laws.{IsAtLeast, Offers, connect_rpc_iff}

abbrev node : Server
node = record {
  has_cert = true;
  starts = true;
  versions = some (("hcdjsonrpcapi", record { major = 3; minor = 2; patch = 0 }) ∷ []);
}

abbrev old_wallet : Semver
old_wallet = record { major = 4; minor = 9; patch = 0 }

abbrev wallet : Server
wallet = record {
  has_cert = true;
  starts = true;
  versions = some (("hcwalletjsonrpcapi", old_wallet) ∷ []);
}

-- The daemon goes on with a wallet whose version is not compatible.
old_wallet_connects :
    ((connect_wallet_rpc wallet).0 ≡ true)
    × (semver_compatible required_wallet_api old_wallet ≡ false)
unfolding connect_wallet_rpc semver_compatible
old_wallet_connects = (refl, refl)

connect_rpc_iff_example :
    (((connect_node_rpc node).0 ≡ true)
      ↔ Offers node "hcdjsonrpcapi" (IsAtLeast required_chain_server_api))
    × (((connect_wallet_rpc wallet).0 ≡ true) ↔ Offers wallet "hcwalletjsonrpcapi" (λ v. Unit))
connect_rpc_iff_example = connect_rpc_iff node wallet
