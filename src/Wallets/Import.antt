-- ===== src/Wallets/Import.antt =====
-- `importScriptFn` and `ImportScript` (controllers/hcclient.go).
pub mod Laws
use hxstakepool.Prelude.{
  ℕ, String, Bool, true, false, List, [], ◌∷◌, map, Option, none, some, if◌then◌else◌, ◌==◌,
  string_eq,
}
use hxstakepool.Prelude.Result.{Result, ok, err, panic}
use hxstakepool.Wallets.Types.{
  Answer, Server, SvrError, import_error, non_equivalent_error, WalletInfoResult,
}
use hxstakepool.Wallets.Queries.{connected, after_connected}

-- `isErrors`, by the text of the errors: a wallet that is not there leaves nil, as one that imports
-- the script.
abbrev pub import_errors : (ℕ → Option String) → List Server → List (Option String)
import_errors import_at [] = []
import_errors import_at (none ∷ servers) = none ∷ import_errors import_at servers
import_errors import_at (some s ∷ servers) = import_at s ∷ import_errors import_at servers

unfoldable pub compare_errors : List (Option String) → Option SvrError
compare_errors [] = none
compare_errors (e ∷ []) = none
compare_errors (none ∷ none ∷ rest) = compare_errors (none ∷ rest)
compare_errors (none ∷ some f ∷ rest) = some (non_equivalent_error 1)
compare_errors (some e ∷ none ∷ rest) = some (non_equivalent_error 1)
compare_errors (some e ∷ some f ∷ rest) =
    let others = compare_errors (some f ∷ rest) in
    if e == f then others else some (non_equivalent_error 2)

-- `resp.err = isErrors[0]`.
abbrev pub first_error : List (Option String) → Result SvrError (Unit {0})
first_error [] = panic
first_error (none ∷ rest) = ok tt
first_error (some e ∷ rest) = err (import_error e)

unfoldable pub import_script_fn : (ℕ → Option String) → List Server → Result SvrError (Unit {0})
unfolding compare_errors
import_script_fn import_at servers = elim (compare_errors (import_errors import_at servers)) [
  | some e ↦ err e
  | none ↦ first_error (import_errors import_at servers)
]

unfoldable pub import_script :
    ℕ
    → (ℕ → Answer WalletInfoResult)
    → (ℕ → Option String)
    → List Server
    → Result SvrError (Unit {0})
unfolding after_connected connected import_script_fn
import_script min_servers info import_at servers =
    after_connected (connected min_servers info servers) (import_script_fn import_at servers)
