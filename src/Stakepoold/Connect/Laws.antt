-- ===== src/Stakepoold/Connect/Laws.antt =====
-- Which servers the daemon connects to.
use hxstakepool.Prelude.{
  ◌≤◌, ◌<◌, String, string_eq, nat_beq_iff, true, some, ◌≡◌, ◌↔◌, ◌⊎◌, arith, inl, inr,
  Option-cases,
}
use hxstakepool.GoMap.{GoMap, lookup}
use hxstakepool.Stakepoold.Connect.{
  Semver, semver_compatible, required_chain_server_api, Server, version_or_zero, connect_node_rpc,
  connect_wallet_rpc,
}

-- The same major version, and the minor version and the patch in the order of words of two letters.
abbrev pub IsAtLeast : (required actual : Semver) → Type 0
IsAtLeast required actual =
    (required.major ≡ actual.major)
    × ((required.minor < actual.minor)
        ⊎ ((required.minor ≡ actual.minor) × (required.patch ≤ actual.patch)))

pub semver_compatible_iff :
    (required actual : Semver)
    → (semver_compatible required actual ≡ true) ↔ IsAtLeast required actual
unfolding semver_compatible
semver_compatible_iff required actual =
    ground (arith, nat_beq_iff required.major actual.major, nat_beq_iff required.minor actual.minor)

-- The server has its certificate, a client starts, and it answers with versions, of which the one under
-- the key, or the zero version, fits.
abbrev pub Offers : Server → (key : String) → (Semver → Type 0) → Type 0
Offers s key Fits =
    (s.has_cert ≡ true)
    × (s.starts ≡ true)
    × ((ver : GoMap String Semver) × (s.versions ≡ some ver)
        × Fits (version_or_zero (lookup key ver)))

-- The daemon connects to a node exactly where the certificate can be read, the client starts and the
-- node names a version of its interface with the required major number and a minor number and patch that
-- are not below those required; and to a wallet exactly where the certificate can be read, the client
-- starts and it answers with its versions, whichever they are.
pub connect_rpc_iff :
    (node wallet : Server)
    → (((connect_node_rpc node).0 ≡ true)
        ↔ Offers node "hcdjsonrpcapi" (IsAtLeast required_chain_server_api))
      × (((connect_wallet_rpc wallet).0 ≡ true) ↔ Offers wallet "hcwalletjsonrpcapi" (λ v. Unit))
unfolding connect_node_rpc connect_wallet_rpc
connect_rpc_iff node wallet = (
  (
    λ e. elim (Option-cases node.versions) [
      | inl silent ↦ absurd (ground (arith, e, silent))
      | inr (ver, is) ↦
          let v = version_or_zero (lookup "hcdjsonrpcapi" ver) in
          let fits : semver_compatible required_chain_server_api v ≡ true = ground (arith, e, is) in
          (
            ground (arith, e),
            ground (arith, e),
            (ver, is, (semver_compatible_iff required_chain_server_api v).0 fits),
          )
    ],
    λ (cert, starts, (ver, is, fits)).
        (let v = version_or_zero (lookup "hcdjsonrpcapi" ver) in
          let good = (semver_compatible_iff required_chain_server_api v).1 fits in
          ground (arith, cert, starts, is, good)),
  ),
  (
    λ e. elim (Option-cases wallet.versions) [
      | inl silent ↦ absurd (ground (arith, e, silent))
      | inr (ver, is) ↦ (ground (arith, e), ground (arith, e), (ver, is, tt))
    ],
    λ (cert, starts, (ver, is, _)). ground (arith, cert, starts, is),
  ),
)
