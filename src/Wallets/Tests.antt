-- ===== src/Wallets/Tests.antt =====
-- The manager of the wallets at three wallets.
use hxstakepool.Prelude.{
  ℕ, zero, suc, ◌+◌, ◌<◌, String, true, false, List, [], ◌∷◌, Option, none, some, ◌≡◌, refl, ◌↔◌,
  ◌⊎◌, arith, All, Member, string_eq, nat_eq,
}
use hxstakepool.Prelude.Result.{Result, ok, err}
use hxstakepool.Wallets.Types.{
  Answer, answer, fails, client_disconnect, Server, SvrError, ValidateAddressResult,
  StakeInfoResult, WalletInfoResult, UserInfoResult, PoolTicket, no_best_block,
}
use hxstakepool.Wallets.Cache.{StakeInfoCache, get_stake_info, after_requests}
use hxstakepool.Wallets.Cache.Laws.{get_stake_info-fresh}
use hxstakepool.Wallets.Tickets.{SyncCalls, zip, check_for_syncness, sync_tickets}
use hxstakepool.Wallets.Tickets.Syncness.{SameCounts, check_for_syncness_iff}
use hxstakepool.Wallets.Tickets.Laws.{Justified, sync_tickets-Justified}

abbrev address : String → ValidateAddressResult
address k = record { is_mine = true; pub_key = k; pub_key_addr = "DkUser" }

-- Wallet 0 has lost its connection, the others answer.
abbrev addresses : ℕ → Answer ValidateAddressResult
addresses zero = fails client_disconnect
addresses (suc i) = answer (address "02ab")

abbrev three : List Server
three = some 0 ∷ some 1 ∷ some 2 ∷ []

abbrev two : List Server
two = some 1 ∷ some 2 ∷ []

-- Wallet 0 is locked.
abbrev infos : ℕ → Answer WalletInfoResult
infos zero =
    answer (record { daemon_connected = true; unlocked = false; voting = true; vote_version = 4 })
infos (suc i) =
    answer (record { daemon_connected = true; unlocked = true; voting = true; vote_version = 4 })

abbrev imports : ℕ → Option String
imports zero = some "locked"
imports (suc i) = none

abbrev pool_ticket : String → PoolTicket
pool_ticket t = record { status = "live"; ticket = t }

-- One wallet has the ticket as valid, another as invalid.
abbrev knows : UserInfoResult
knows = record { tickets = pool_ticket "aa" ∷ []; invalid_tickets = [] }

abbrev lacks : UserInfoResult
lacks = record { tickets = []; invalid_tickets = "aa" ∷ [] }

abbrev user_infos : ℕ → Answer UserInfoResult
user_infos zero = fails client_disconnect
user_infos (suc zero) = answer knows
user_infos (suc (suc i)) = answer lacks

abbrev calls : SyncCalls ℕ ℕ
calls = record {
  new_hash_from_str = λ s. some 7;
  get_raw_transaction = λ s h. some h;
  add_ticket = λ s tx. none;
}

check_for_syncness_iff_example :
    (check_for_syncness (some knows ∷ none ∷ some lacks ∷ []) ≡ true)
    ↔ All (λ a. All (SameCounts a) (knows ∷ lacks ∷ [])) (knows ∷ lacks ∷ [])
check_for_syncness_iff_example = check_for_syncness_iff (some knows ∷ none ∷ some lacks ∷ [])

sync_tickets-Justified_example :
    All
      (Justified calls two (zip two (some knows ∷ some lacks ∷ [])))
      (sync_tickets calls two (some knows ∷ some lacks ∷ [])).0
sync_tickets-Justified_example = sync_tickets-Justified calls two (some knows ∷ some lacks ∷ [])

abbrev tickets : Result SvrError (Option ℕ)
tickets = ok (some 5)

abbrev first_cache : StakeInfoCache
first_cache = record { cached_stake_info = none; cached_stake_info_timer = 0 }

abbrev stake_info : StakeInfoResult
stake_info = record { live = 3; voted = 1 }

abbrev stake_info_answer : Result SvrError (Option StakeInfoResult)
stake_info_answer = ok (some stake_info)

abbrev history : List (ℕ × Result SvrError (Option StakeInfoResult))
history = (300, stake_info_answer) ∷ []

get_stake_info-fresh_example :
    (err no_best_block ≡ stake_info_answer)
    ⊎ ((t : ℕ) × Member (t, stake_info_answer) history × (400 < t + 300))
get_stake_info-fresh_example =
    get_stake_info-fresh first_cache history 400 (err no_best_block) {r = some stake_info}
      (omega arith) (unfold get_stake_info after_requests in refl)
