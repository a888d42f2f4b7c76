-- ===== src/Wallets/Queries.antt =====
-- The cases of `executeInSequence` that only read (controllers/hcclient.go), and what the handler does
-- with the reply of `connectedFn`.
pub mod Laws
use hxstakepool.Prelude.{
  ℕ, zero, suc, ◌+◌, String, Bool, true, false, not, List, [], ◌∷◌, Option, none, some,
  if◌then◌else◌, ltb, nat_beq, ◌==◌, string_eq,
}
use hxstakepool.Prelude.Result.{Result, ok, err, panic, ◌>>=◌}
use hxstakepool.Wallets.Types.{
  Answer, answer, fails, is_down, Server, SvrError, rpc, too_few, not_connected, locked,
  no_best_block, ValidateAddressResult, CreateMultiSigResult, GetTxOutResult, StakeInfoResult,
  WalletInfoResult,
}
use hxstakepool.Wallets.Poll.{Polled, poll, ask_all}

unfoldable pub validate_address_fn :
    ℕ
    → (ℕ → Answer ValidateAddressResult)
    → List Server
    → Result SvrError (Option ValidateAddressResult)
unfolding ask_all
validate_address_fn min_servers = ask_all min_servers (λ a b. a.pub_key == b.pub_key)

unfoldable pub create_multisig_fn :
    ℕ
    → (ℕ → Answer CreateMultiSigResult)
    → List Server
    → Result SvrError (Option CreateMultiSigResult)
unfolding ask_all
create_multisig_fn min_servers = ask_all min_servers (λ a b. a.redeem_script == b.redeem_script)

-- The answers to `TicketsForAddress` are not compared.
unfoldable pub tickets_for_address_fn :
    {A : Type 0} → ℕ → (ℕ → Answer A) → List Server → Result SvrError (Option A)
unfolding ask_all
tickets_for_address_fn min_servers = ask_all min_servers (λ a b. true)

unfoldable pub get_tx_out_fn :
    ℕ → (ℕ → Answer GetTxOutResult) → List Server → Result SvrError (Option GetTxOutResult)
unfolding ask_all
get_tx_out_fn min_servers = ask_all min_servers (λ a b. a.script_hex == b.script_hex)

unfoldable pub get_stake_info_fn :
    ℕ → (ℕ → Answer StakeInfoResult) → List Server → Result SvrError (Option StakeInfoResult)
unfolding ask_all
get_stake_info_fn min_servers = ask_all min_servers (λ a b. nat_beq a.live b.live)

-- The first answer, up to an error that is not a lost connection.
unfoldable pub get_best_block_fn : {A : Type 0} → (ℕ → Answer A) → List Server → Result SvrError A
get_best_block_fn ask [] = err no_best_block
get_best_block_fn ask (none ∷ servers) = get_best_block_fn ask servers
get_best_block_fn ask (some s ∷ servers) = elim (ask s) [
  | answer a ↦ ok a
  | fails e ↦ elim (is_down e) [ true ↦ get_best_block_fn ask servers | false ↦ err (rpc e) ]
]

-- What `connectedFn` returns: a `connectedResponse`, whose slice may be filled in part beside an
-- error, or a bare `error` in its place.
pub data Connected : Type 0 where
  response : List (Option WalletInfoResult) → Option SvrError → Connected
  bare_error : SvrError → Connected

-- The loop over the answers, from index `i` on.
unfoldable pub check_wallets : ℕ → List (Option WalletInfoResult) → Option SvrError
check_wallets i [] = none
check_wallets i (none ∷ rest) = check_wallets (i + 1) rest
check_wallets i (some w ∷ rest) = elim w.daemon_connected [
  | false ↦ some (not_connected i)
  | true ↦ elim w.unlocked [ false ↦ some (locked i) | true ↦ check_wallets (i + 1) rest ]
]

unfoldable pub connected_fn : ℕ → (ℕ → Answer WalletInfoResult) → List Server → Connected
unfolding poll check_wallets
connected_fn min_servers ask servers =
    let p = poll ask servers in
    elim p.failure [
      | some e ↦ response p.answers (some e)
      | none ↦
          if ltb p.connect_count min_servers
          then response p.answers (some (too_few p.connect_count min_servers))
          else elim (check_wallets 0 p.answers) [
            | some e ↦ bare_error e
            | none ↦ response p.answers none
          ]
    ]

-- `resp.(*connectedResponse)` in the handler's goroutine panics on a value of another type, and takes
-- the program down.
unfoldable pub connected :
    ℕ
    → (ℕ → Answer WalletInfoResult)
    → List Server
    → Result SvrError (List (Option WalletInfoResult) × Option SvrError)
unfolding connected_fn
connected min_servers ask servers = elim (connected_fn min_servers ask servers) [
  | response infos e ↦ ok (infos, e)
  | bare_error _ ↦ panic
]

-- `ValidateAddress`, `CreateMultisig` and `ImportScript` ask for the connections first.
unfoldable pub after_connected :
    {A : Type 0}
    → Result SvrError (List (Option WalletInfoResult) × Option SvrError)
    → Result SvrError A
    → Result SvrError A
after_connected (ok (infos, none)) rest = rest
after_connected (ok (infos, some e)) rest = err e
after_connected (err e) rest = err e
after_connected panic rest = panic

unfoldable pub validate_address :
    ℕ
    → (ℕ → Answer WalletInfoResult)
    → (ℕ → Answer ValidateAddressResult)
    → List Server
    → Result SvrError (Option ValidateAddressResult)
unfolding after_connected connected validate_address_fn
validate_address min_servers info ask servers =
    after_connected (connected min_servers info servers)
      (validate_address_fn min_servers ask servers)

unfoldable pub create_multisig :
    ℕ
    → (ℕ → Answer WalletInfoResult)
    → (ℕ → Answer CreateMultiSigResult)
    → List Server
    → Result SvrError (Option CreateMultiSigResult)
unfolding after_connected connected create_multisig_fn
create_multisig min_servers info ask servers =
    after_connected (connected min_servers info servers)
      (create_multisig_fn min_servers ask servers)
