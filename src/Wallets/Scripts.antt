-- ===== src/Wallets/Scripts.antt =====
-- `walletSvrsSync` (controllers/hcclient.go). The calls to the wallets are a parameter, and what the
-- program changes in them is a list of calls.
pub mod Laws
pub mod Complete
mod Tests
use hxstakepool.Prelude.{
  ℕ, suc, ◌+◌, Bool, true, false, List, [], ◌∷◌, ◌++◌, Option, none, some, if◌then◌else◌, nat_beq,
  nat_eq, String, map, length,
}
use hxstakepool.Prelude.Result.{Result, ok, err, panic, ◌>>=◌, ◌>>◌}
use hxstakepool.GoMap.{GoMap, lookup, put, put_all, has}
use hxstakepool.Wallets.Types.{
  Answer, answer, fails, RpcError, Server, SvrError, rpc, no_transaction, WalletInfoResult,
}
use hxstakepool.Wallets.Lifecycle.{check_if_wallet_connected}
use hxstakepool.Wallets.Tickets.{fetch_transaction}

-- A script, by its bytes, and a height, as in the Go struct of the same name.
pub record ScriptHeight : Type 0 where
  pub script : List ℕ
  pub height : ℕ

-- A row of the users table, with the script as `hex.DecodeString` reads it, or fails to.
pub record ScriptUser : Type 0 where
  pub multi_sig_script : Option (List ℕ)
  pub height_registered : ℕ

-- A hash is a number; `hash_h` is `chainhash.HashH`.
pub record Wallets (Tx : Type 0) : Type 0 where
  pub hash_h : List ℕ → ℕ
  pub wallet_info : ℕ → Answer WalletInfoResult
  pub account_sync_address_index : ℕ → Option RpcError
  pub list_scripts : ℕ → Answer (List (List ℕ))
  pub import_script_rescan_from : ℕ → ScriptHeight → Option RpcError
  -- What `GetTickets` says once the scripts are imported.
  pub get_tickets : ℕ → Answer (List ℕ)
  pub get_raw_transaction : ℕ → ℕ → Option Tx
  pub add_ticket : ℕ → Tx → Option RpcError

-- What a run imported and added, and how it ended.
pub data Call : Type 0 where
  imported : (server : ℕ) → ScriptHeight → Call
  added : (server : ℕ) → (ticket : ℕ) → Call

abbrev pub Scripts : Type 0
Scripts = GoMap ℕ ScriptHeight

abbrev pub Tickets : Type 0
Tickets = GoMap ℕ (Unit {0})

abbrev pub set_of : List ℕ → Tickets
set_of hashes = map (λ h. (h, tt)) hashes

abbrev pub scripts_or_nil : Option Scripts → Scripts
scripts_or_nil none = []
scripts_or_nil (some own) = own

-- What comes after calls that did not fail.
abbrev pub then_call :
    List Call × Option SvrError → List Call × Option SvrError → List Call × Option SvrError
then_call (calls, none) rest = (calls ++ rest.0, rest.1)
then_call (calls, some e) rest = (calls, some e)

abbrev pub is_empty : List Call → Bool
is_empty [] = true
is_empty (_ ∷ _) = false

module _ {Tx : Type 0} (w : Wallets Tx) where
  unfoldable pub check_connected : (i : ℕ) → List Server → Option SvrError
  unfolding check_if_wallet_connected
  check_connected i [] = none
  check_connected i (none ∷ servers) = check_connected (suc i) servers
  check_connected i (some s ∷ servers) = elim (check_if_wallet_connected i (w.wallet_info s)) [
    | some e ↦ some e
    | none ↦ check_connected (suc i) servers
  ]

  unfoldable pub sync_indices : List Server → Option SvrError
  sync_indices [] = none
  sync_indices (none ∷ servers) = sync_indices servers
  sync_indices (some s ∷ servers) = elim (w.account_sync_address_index s) [
    | some e ↦ some (rpc e)
    | none ↦ sync_indices servers
  ]

  -- The scripts of the database; one that does not decode is skipped.
  unfoldable pub scripts_of_db : List ScriptUser → Scripts → Scripts
  scripts_of_db [] all = all
  scripts_of_db (u ∷ users) all = elim u.multi_sig_script [
    | none ↦ scripts_of_db users all
    | some script ↦
        scripts_of_db users
          (put (w.hash_h script) (record { script = script; height = u.height_registered }) all)
  ]

  -- The scripts of one wallet: into its own map, and into that of all where they are new.
  unfoldable pub scripts_of_wallet : List (List ℕ) → Scripts × Scripts → Scripts × Scripts
  scripts_of_wallet [] maps = maps
  scripts_of_wallet (script ∷ rest) (own, all) =
      let h = w.hash_h script in
      let entry : ScriptHeight = record { script = script; height = 0 } in
      scripts_of_wallet rest (put h entry own, if has h all then all else put h entry all)

  unfoldable pub scripts_of_wallets :
      List Server → Scripts → Result SvrError (List (Option Scripts) × Scripts)
  unfolding scripts_of_wallet
  scripts_of_wallets [] all = ok ([], all)
  scripts_of_wallets (none ∷ servers) all = elim (scripts_of_wallets servers all) [
    | ok (per_server, all2) ↦ ok (none ∷ per_server, all2)
    | err e ↦ err e
    | panic ↦ panic
  ]
  scripts_of_wallets (some s ∷ servers) all = elim (w.list_scripts s) [
    | fails e ↦ err (rpc e)
    | answer scripts ↦
        let (own, all1) = scripts_of_wallet scripts ([], all) in
        elim (scripts_of_wallets servers all1) [
          | ok (per_server, all2) ↦ ok (some own ∷ per_server, all2)
          | err e ↦ err e
          | panic ↦ panic
        ]
  ]

  -- `for k, v := range allRedeemScripts` for one wallet with the scripts `own`.
  unfoldable pub import_missing : ℕ → Scripts → Scripts → List Call × Option SvrError
  import_missing s own [] = ([], none)
  import_missing s own ((h, v) ∷ all) =
      let rest = import_missing s own all in
      if has h own then rest else elim (w.import_script_rescan_from s v) [
        | some e ↦ ([], some (rpc e))
        | none ↦ (imported s v ∷ rest.0, rest.1)
      ]

  -- The loop over the wallets, with the scripts of each.
  unfoldable pub import_all :
      List Server → List (Option Scripts) → Scripts → List Call × Option SvrError
  unfolding import_missing
  import_all [] per_server all = ([], none)
  import_all servers [] all = ([], none)
  import_all (none ∷ servers) (_ ∷ per_server) all = import_all servers per_server all
  import_all (some s ∷ servers) (own ∷ per_server) all =
      then_call (import_missing s (scripts_or_nil own) all) (import_all servers per_server all)

  -- `ticketsPerServer` and `allTickets`.
  unfoldable pub tickets_of_wallets :
      List Server → Tickets → Result SvrError (List Tickets × Tickets)
  tickets_of_wallets [] all = ok ([], all)
  tickets_of_wallets (none ∷ servers) all = elim (tickets_of_wallets servers all) [
    | ok (per_server, all2) ↦ ok ([] ∷ per_server, all2)
    | err e ↦ err e
    | panic ↦ panic
  ]
  tickets_of_wallets (some s ∷ servers) all = elim (w.get_tickets s) [
    | fails e ↦ err (rpc e)
    | answer hashes ↦ elim (tickets_of_wallets servers (put_all (set_of hashes) all)) [
      | ok (per_server, all2) ↦ ok (put_all (set_of hashes) [] ∷ per_server, all2)
      | err e ↦ err e
      | panic ↦ panic
    ]
  ]

  -- `for ticketHash := range allTickets` for one wallet with the tickets `own`.
  unfoldable pub add_tickets : List Server → ℕ → Tickets → Tickets → List Call × Option SvrError
  unfolding fetch_transaction
  add_tickets servers s own [] = ([], none)
  add_tickets servers s own ((h, _) ∷ all) =
      let rest = add_tickets servers s own all in
      if has h own
      then rest
      else elim (fetch_transaction (λ i. w.get_raw_transaction i h) servers) [
        | err e ↦ ([], some e)
        | panic ↦ ([], some no_transaction)
        | ok tx ↦ elim (w.add_ticket s tx) [
          | some e ↦ ([], some (rpc e))
          | none ↦ (added s h ∷ rest.0, rest.1)
        ]
      ]

  unfoldable pub add_all :
      (everyone : List Server) → List Server → List Tickets → Tickets → List Call × Option SvrError
  unfolding add_tickets
  add_all everyone [] per_server all = ([], none)
  add_all everyone servers [] all = ([], none)
  add_all everyone (none ∷ servers) (_ ∷ per_server) all = add_all everyone servers per_server all
  add_all everyone (some s ∷ servers) (own ∷ per_server) all =
      then_call (add_tickets everyone s own all) (add_all everyone servers per_server all)

  -- The part under `if desynced`.
  unfoldable pub sync_all_tickets : List Server → List Call × Option SvrError
  unfolding tickets_of_wallets add_all
  sync_all_tickets servers = elim (tickets_of_wallets servers []) [
    | err e ↦ ([], some e)
    | panic ↦ ([], some no_transaction)
    | ok (per_server, all) ↦ add_all servers servers per_server all
  ]

  -- From the import of the missing scripts on; `desynced` says that there was one.
  unfoldable pub sync_wallets :
      List Server → List (Option Scripts) → Scripts → List Call × Option SvrError
  unfolding import_all sync_all_tickets
  sync_wallets servers per_server all =
      let imports = import_all servers per_server all in
      then_call imports (if is_empty imports.0 then ([], none) else sync_all_tickets servers)

  unfoldable pub wallet_svrs_sync : List Server → List ScriptUser → List Call × Option SvrError
  unfolding check_connected sync_indices scripts_of_db scripts_of_wallets sync_wallets
  wallet_svrs_sync servers users =
      if nat_beq (length servers) 1 then ([], none) else elim (check_connected 0 servers) [
        | some e ↦ ([], some e)
        | none ↦ elim (sync_indices servers) [
          | some e ↦ ([], some e)
          | none ↦ elim (scripts_of_wallets servers (scripts_of_db users [])) [
            | err e ↦ ([], some e)
            | panic ↦ ([], some no_transaction)
            | ok (per_server, all) ↦ sync_wallets servers per_server all
          ]
        ]
      ]
