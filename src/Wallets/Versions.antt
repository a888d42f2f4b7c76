-- ===== src/Wallets/Versions.antt =====
-- `checkWalletsVoteVersion` and `getWalletVoteVersion` (controllers/hcclient.go).
pub mod Laws
use hxstakepool.Prelude.{
  ℕ, suc, Bool, true, false, List, [], ◌∷◌, Option, none, some, if◌then◌else◌, nat_beq, nat_eq,
}
use hxstakepool.Prelude.Result.{Result, ok, err, panic}
use hxstakepool.GoMap.{GoMap, put}
use hxstakepool.Wallets.Types.{
  Answer, answer, fails, Server, SvrError, rpc, mismatched, WalletInfoResult,
}

unfoldable pub get_wallet_vote_version : Answer WalletInfoResult → Result SvrError ℕ
get_wallet_vote_version (fails e) = err (rpc e)
get_wallet_vote_version (answer w) = ok w.vote_version

-- `walletVoteVersions`, from index `i` on: one entry for each wallet that is there.
unfoldable pub wallet_vote_versions :
    (ℕ → Answer WalletInfoResult) → (i : ℕ) → List Server → Result SvrError (GoMap ℕ ℕ)
unfolding get_wallet_vote_version
wallet_vote_versions info i [] = ok []
wallet_vote_versions info i (none ∷ servers) = wallet_vote_versions info (suc i) servers
wallet_vote_versions info i (some s ∷ servers) = elim (get_wallet_vote_version (info s)) [
  | err e ↦ err e
  | panic ↦ panic
  | ok wvv ↦ elim (wallet_vote_versions info (suc i) servers) [
    | ok versions ↦ ok ((i, wvv) ∷ versions)
    | err e ↦ err e
    | panic ↦ panic
  ]
]

-- The loop over the map; `last_version` is nothing on the first run.
unfoldable pub same_versions :
    (last_version : Option ℕ) → (last_server : ℕ) → GoMap ℕ ℕ → Result SvrError ℕ
same_versions none last_server [] = ok 0
same_versions (some last_version) last_server [] = ok last_version
same_versions none last_server ((k, v) ∷ versions) = same_versions (some v) k versions
same_versions (some last_version) last_server ((k, v) ∷ versions) =
    let rest = same_versions (some last_version) k versions in
    if nat_beq v last_version then rest else err (mismatched k last_server)

-- `visit` is the order in which the map is visited.
unfoldable pub check_wallets_vote_version :
    (visit : GoMap ℕ ℕ → GoMap ℕ ℕ)
    → (ℕ → Answer WalletInfoResult)
    → List Server
    → Result SvrError ℕ
unfolding wallet_vote_versions same_versions
check_wallets_vote_version visit info servers = elim (wallet_vote_versions info 0 servers) [
  | ok versions ↦ same_versions none 0 (visit versions)
  | err e ↦ err e
  | panic ↦ panic
]
