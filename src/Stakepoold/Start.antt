-- ===== src/Stakepoold/Start.antt =====
-- The start of the daemon, `runMain` of backend/stakepoold/server.go: the files are pruned and loaded
-- where the database gave nothing, and the tickets are read again until no block comes in meanwhile.
pub mod Refresh
mod Tests
use hxstakepool.Prelude.{
  ℕ, zero, suc, Bool, true, false, not, ◌&&◌, List, [], ◌∷◌, Option, none, some, if◌then◌else◌,
  nat_beq,
}
use hxstakepool.Prelude.Result.{ok, err, panic}
use hxstakepool.Stakepoold.Context.{Hash, AppContext}
use hxstakepool.Stakepoold.Rpc.{Wallet, Node}
use hxstakepool.Stakepoold.Fees.{TxRules}
use hxstakepool.Stakepoold.Startup.{Loaded, wallet_get_tickets}
use hxstakepool.Stakepoold.Saved.{
  DataKind, added_low_fee_tickets, user_voting_config, Disk, Os, prune_data, load_data,
}
use hxstakepool.Stakepoold.Saved.Names.{Name}

abbrev is_empty {ℓ} : {A : Type ℓ} → List A → Bool
is_empty [] = true
is_empty (x ∷ xs) = false

-- The disk and the state before the tickets are read. The two tests tell whether the fetches from the
-- database failed.
unfoldable pub load_saved :
    Os
    → List DataKind
    → (data_path : Name) → (tickets_failed users_failed : Bool) → Disk
    → AppContext
    → Disk × AppContext
load_saved os kinds data_path tickets_failed users_failed disk ctx =
    let disk2 = (prune_data os kinds data_path disk).0 in
    let ctx2 =
      if is_empty ctx.added_low_fee_tickets_msa && tickets_failed
      then (load_data os data_path disk2 added_low_fee_tickets ctx).0
      else ctx in
    (
      disk2,
      if is_empty ctx2.user_voting_config && users_failed
          then (load_data os data_path disk2 user_voting_config ctx2).0
          else ctx2,
    )

-- One round of the refresh: `GetBestBlock` before and after, nothing for an error, and the wallet and
-- the node as they answer in between.
pub record Round : Type 0 where
  pub before : Option (Hash × ℕ)
  pub wallet : Wallet
  pub node : Node
  pub after : Option (Hash × ℕ)

pub data Refreshed : Type 0 where
  refreshed : AppContext → Refreshed
  failed panicked out_of_fuel : Refreshed

-- `curHash.IsEqual(afterHash) && curHeight == afterHeight`
abbrev pub same_block : Hash × ℕ → Hash × ℕ → Bool
same_block (hash, height) (hash2, height2) = nat_beq hash hash2 && nat_beq height height2

abbrev pub with_tickets : AppContext → Loaded → AppContext
with_tickets ctx l = record ctx {
  ignored_low_fee_tickets_msa = l.ignored;
  live_tickets_msa = l.live;
}

-- The loop, with fuel for the rounds.
unfoldable pub refresh : TxRules → (fuel : ℕ) → (rounds : ℕ → Round) → AppContext → Refreshed
refresh r zero rounds ctx = out_of_fuel
refresh r (suc fuel) rounds ctx =
    let round = rounds 0 in
    let rest : AppContext → Refreshed = refresh r fuel (λ i. rounds (suc i)) in
    elim round.before [
      | none ↦ failed
      | some current ↦ elim (wallet_get_tickets r round.wallet round.node ctx) [
        | err _ ↦ failed
        | panic ↦ panicked
        | ok l ↦ elim round.after [
          | none ↦ failed
          | some later ↦
              if same_block current later
              then refreshed (with_tickets ctx l)
              else rest (with_tickets ctx l)
        ]
      ]
    ]
