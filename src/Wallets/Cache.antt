-- ===== src/Wallets/Cache.antt =====
-- The two caches of `walletSvrManager` (controllers/hcclient.go). Times are in seconds of the
-- program's monotonic clock.
pub mod Laws
use hxstakepool.Prelude.{
  ℕ, ◌-◌, String, string_eq, Option, none, some, if◌then◌else◌, ltb, List, [], ◌∷◌,
}
use hxstakepool.Prelude.Result.{Result, ok, err, panic}
use hxstakepool.GoMap.{GoMap, lookup, put}
use hxstakepool.Wallets.Types.{SvrError, StakeInfoResult}

-- `cacheTimerStakeInfo` and `cacheTimerGetTickets`.
abbrev pub cache_timer_stake_info : ℕ
cache_timer_stake_info = 300

abbrev pub cache_timer_get_tickets : ℕ
cache_timer_get_tickets = 20

pub record GetTicketsCacheData (A : Type 0) : Type 0 where
  pub res : Option A
  pub timer : ℕ

abbrev pub TicketsCache : Type 0 → Type 0
TicketsCache A = GoMap String (GetTicketsCacheData A)

-- The pair of `response.tickets`, nil beside an error, and `response.err`.
abbrev pub tickets_of : {A : Type 0} → Result SvrError (Option A) → Option A
tickets_of (ok r) = r
tickets_of (err e) = none
tickets_of panic = none

-- A request to the wallets, and the cache after it: `if response.err != nil` stores the answer.
unfoldable pub ask_tickets :
    {A : Type 0}
    → String
    → ℕ
    → Result SvrError (Option A)
    → TicketsCache A
    → TicketsCache A × Result SvrError (Option A)
ask_tickets address now (ok r) cache = (cache, ok r)
ask_tickets address now (err e) cache =
    (put address (record { res = tickets_of (err e); timer = now }) cache, err e)
ask_tickets address now panic cache = (cache, panic)

-- `TicketsForAddress` at the time `now`, with what the wallets answer if they are asked.
unfoldable pub tickets_for_address :
    {A : Type 0}
    → String
    → (now : ℕ) → Result SvrError (Option A)
    → TicketsCache A
    → TicketsCache A × Result SvrError (Option A)
unfolding ask_tickets
tickets_for_address address now response cache = elim (lookup address cache) [
  | none ↦ ask_tickets address now response cache
  | some c ↦
      if ltb (now - c.timer) cache_timer_get_tickets
      then (cache, ok c.res)
      else ask_tickets address now response cache
]

-- `cachedStakeInfo` and `cachedStakeInfoTimer`.
pub record StakeInfoCache : Type 0 where
  pub cached_stake_info : Option StakeInfoResult
  pub cached_stake_info_timer : ℕ

-- `getStakeInfo` at the time `now`, with what the wallets answer if they are asked.
unfoldable pub get_stake_info :
    (now : ℕ)
    → Result SvrError (Option StakeInfoResult)
    → StakeInfoCache
    → StakeInfoCache × Result SvrError (Option StakeInfoResult)
get_stake_info now response cache =
    if ltb (now - cache.cached_stake_info_timer) cache_timer_stake_info
    then (cache, ok cache.cached_stake_info)
    else elim response [
      | ok r ↦ (record { cached_stake_info = r; cached_stake_info_timer = now }, ok r)
      | err e ↦ (cache, err e)
      | panic ↦ (cache, panic)
    ]

-- The cache after the requests of a history, the latest first.
unfoldable pub after_requests :
    List (ℕ × Result SvrError (Option StakeInfoResult)) → StakeInfoCache → StakeInfoCache
unfolding get_stake_info
after_requests [] start = start
after_requests ((now, response) ∷ past) start =
    (get_stake_info now response (after_requests past start)).0
