-- ===== src/Stakepoold/Connect.antt =====
-- `connectNodeRPC` and `connectWalletRPC` of backend/stakepoold/rpcclient.go, with semver.go: which node
-- and which wallet the daemon works with.
pub mod Laws
mod Tests
use hxstakepool.Prelude.{
  ℕ, String, string_eq, nat_beq, Bool, true, false, not, ◌&&◌, List, [], ◌∷◌, Option, none, some,
  if◌then◌else◌, ltb,
}
use hxstakepool.GoMap.{GoMap, lookup}

pub record Semver : Type 0 where
  pub major : ℕ
  pub minor : ℕ
  pub patch : ℕ

unfoldable pub semver_compatible : (required actual : Semver) → Bool
semver_compatible required actual =
    if not (nat_beq required.major actual.major)
    then false
    else if ltb actual.minor required.minor
    then false
    else if nat_beq required.minor actual.minor && ltb actual.patch required.patch
    then false
    else true

abbrev pub required_chain_server_api : Semver
required_chain_server_api = record { major = 3; minor = 1; patch = 0 }

abbrev pub required_wallet_api : Semver
required_wallet_api = record { major = 5; minor = 0; patch = 0 }

-- What `ReadFile`, `hcrpcclient.New` and `Version` answer.
pub record Server : Type 0 where
  pub has_cert : Bool
  pub starts : Bool
  pub versions : Option (GoMap String Semver)

-- `ver[key]`, with the zero value where the server names no such version.
abbrev pub version_or_zero : Option Semver → Semver
version_or_zero none = record { major = 0; minor = 0; patch = 0 }
version_or_zero (some v) = v

-- Whether there is a client and no error, and the version beside it.
unfoldable pub connect_node_rpc : Server → Bool × Semver
connect_node_rpc s =
    if not s.has_cert
    then (false, version_or_zero none)
    else if not s.starts
    then (false, version_or_zero none)
    else elim s.versions [
      | none ↦ (false, version_or_zero none)
      | some ver ↦
          let node_ver = version_or_zero (lookup "hcdjsonrpcapi" ver) in
          if not (semver_compatible required_chain_server_api node_ver)
          then (false, node_ver)
          else (true, node_ver)
    ]

-- The version of the wallet is only warned of.
unfoldable pub connect_wallet_rpc : Server → Bool × Semver
connect_wallet_rpc s =
    if not s.has_cert
    then (false, version_or_zero none)
    else if not s.starts
    then (false, version_or_zero none)
    else elim s.versions [
      | none ↦ (false, version_or_zero none)
      | some ver ↦ (true, version_or_zero (lookup "hcwalletjsonrpcapi" ver))
    ]
