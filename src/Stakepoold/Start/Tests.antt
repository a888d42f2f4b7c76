-- ===== src/Stakepoold/Start/Tests.antt =====
-- A block comes in during the first round.
use hxstakepool.Prelude.{ℕ, zero, suc, ◌≤◌, [], ◌∷◌, some, ◌≡◌, refl}
use hxstakepool.Stakepoold.Context.{AppContext}
use hxstakepool.Stakepoold.Rpc.{Wallet, reply, failure}
use hxstakepool.Stakepoold.Startup.{Loaded, load_tickets, wallet_get_tickets}
use hxstakepool.Stakepoold.Example.{rules, wallet, node, pool}
use hxstakepool.Stakepoold.Start.{Round, refreshed, refresh}
use hxstakepool.Stakepoold.Start.Refresh.{Answers, FromQuiet, refresh-FromQuiet}

-- The wallet has a ticket whose transaction it does not give.
abbrev small_wallet : Wallet
small_wallet = record wallet {
  get_tickets = reply (1 ∷ []);
  get_transaction = λ h. failure "no transaction";
}

abbrev rounds : ℕ → Round
rounds zero = record {
  before = some (50, 40);
  wallet = small_wallet;
  node = node;
  after = some (51, 41);
}
rounds (suc i) = record {
  before = some (51, 41);
  wallet = small_wallet;
  node = node;
  after = some (51, 41);
}

abbrev none_loaded : Loaded
none_loaded = record { ignored = []; live = []; heights = [] }

rounds-Answers : (i : ℕ) → i ≤ 1 → Answers rules (rounds i)
unfolding wallet_get_tickets load_tickets
rounds-Answers zero low = (λ c. (none_loaded, refl), ((50, 40), refl), ((51, 41), refl))
rounds-Answers (suc i) low = (λ c. (none_loaded, refl), ((51, 41), refl), ((51, 41), refl))

refresh-FromQuiet_example :
    (after : AppContext) × (refresh rules 2 rounds pool ≡ refreshed after)
    × FromQuiet rules 2 rounds pool after
refresh-FromQuiet_example = refresh-FromQuiet rules 1 rounds pool rounds-Answers refl
