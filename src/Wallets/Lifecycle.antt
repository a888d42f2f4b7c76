-- ===== src/Wallets/Lifecycle.antt =====
-- `Start`, `Stop`, `IsStopped`, `DisconnectWalletRPC`, `ReconnectWalletRPC` and the checks on the
-- wallets of `walletSvrManager` (controllers/hcclient.go).
pub mod Laws
use hxstakepool.Prelude.{
  ℕ, zero, suc, ◌+◌, ◌%◌, ◌^◌, Bool, true, false, List, [], ◌∷◌, Option, none, some, if◌then◌else◌,
  nat_beq, String,
}
use hxstakepool.Prelude.Result.{Result, ok, err, panic}
use hxstakepool.Wallets.Types.{
  Answer, answer, fails, RpcError, Server, SvrError, rpc, no_servers, not_connected, locked,
  WalletInfoResult,
}

-- `started` and `shutdown` are of type int32, here with their bits; `handlers` counts the goroutines
-- that run `walletRPCHandler`, and `quit_closed` the calls of `close(w.quit)`.
pub record Manager : Type 0 where
  pub started : ℕ
  pub shutdown : ℕ
  pub handlers : ℕ
  pub quit_closed : ℕ

abbrev pub new_manager : Manager
new_manager = record { started = 0; shutdown = 0; handlers = 0; quit_closed = 0 }

abbrev pub add_one : ℕ → ℕ
add_one n = (n + 1) % 2 ^ 32

unfoldable pub start : Manager → Manager
start w =
    let n = add_one w.started in
    if nat_beq n 1
    then record w { started = n; handlers = w.handlers + 1 }
    else record w { started = n }

-- `w.wg.Wait()` waits for the handlers, which end once `quit` is closed.
unfoldable pub stop : Manager → Manager
stop w =
    let n = add_one w.shutdown in
    if nat_beq n 1
    then record w { shutdown = n; handlers = 0; quit_closed = w.quit_closed + 1 }
    else record w { shutdown = n }

unfoldable pub is_stopped : Manager → Bool
is_stopped w = nat_beq w.shutdown 1

-- `w.servers[serverIndex] = nil`
unfoldable pub disconnect_wallet_rpc : ℕ → List Server → Result SvrError (List Server)
disconnect_wallet_rpc i [] = panic
disconnect_wallet_rpc zero (s ∷ servers) = ok (none ∷ servers)
disconnect_wallet_rpc (suc i) (s ∷ servers) = elim (disconnect_wallet_rpc i servers) [
  | ok rest ↦ ok (s ∷ rest)
  | err e ↦ err e
  | panic ↦ panic
]

-- `w.servers[serverIndex], err = connectWalletRPC(...)` where the slot is nil: the slots after it, and
-- whether the connection failed.
unfoldable pub reconnect_wallet_rpc :
    ℕ → Option ℕ → List Server → Result SvrError (List Server × Bool)
reconnect_wallet_rpc i client [] = panic
reconnect_wallet_rpc zero none (none ∷ servers) = ok (none ∷ servers, false)
reconnect_wallet_rpc zero (some c) (none ∷ servers) = ok (some c ∷ servers, true)
reconnect_wallet_rpc zero client (some s ∷ servers) = ok (some s ∷ servers, true)
reconnect_wallet_rpc (suc i) client (s ∷ servers) = elim (reconnect_wallet_rpc i client servers) [
  | ok (rest, done) ↦ ok (s ∷ rest, done)
  | err e ↦ err e
  | panic ↦ panic
]

-- `checkIfWalletConnected`, for the wallet with index `i`.
unfoldable pub check_if_wallet_connected : ℕ → Answer WalletInfoResult → Option SvrError
check_if_wallet_connected i (fails e) = some (rpc e)
check_if_wallet_connected i (answer w) = elim w.daemon_connected [
  | false ↦ some (not_connected i)
  | true ↦ elim w.unlocked [ false ↦ some (locked i) | true ↦ none ]
]

-- The loop of `CheckServers`, which also calls a client that is nil: `info` answers for every slot.
unfoldable pub check_each :
    (ℕ → Result RpcError WalletInfoResult) → ℕ → ℕ → Result SvrError (Unit {0})
check_each info i zero = ok tt
check_each info i (suc left) = elim (info i) [
  | err e ↦ err (rpc e)
  | panic ↦ panic
  | ok w ↦ elim w.daemon_connected [
    | false ↦ err (not_connected i)
    | true ↦ elim w.unlocked [ false ↦ err (locked i) | true ↦ check_each info (i + 1) left ]
  ]
]

unfoldable pub check_servers :
    (ℕ → Result RpcError WalletInfoResult) → (servers_len : ℕ) → Result SvrError (Unit {0})
unfolding check_each
check_servers info servers_len =
    if nat_beq servers_len 0 then err no_servers else check_each info 0 servers_len
