-- ===== src/Stakepoold/Update/Tests.antt =====
-- The tickets that leave the small pool's lists or join them.
use hxstakepool.Prelude.{String, true, [], ◌∷◌, none, if◌then◌else◌, ◌≡◌, refl, nat_eq, string_eq}
use hxstakepool.GoMap.{GoMap, lookup, has}
use hxstakepool.GoMap.Laws.{or_else, elem}
use hxstakepool.Stakepoold.Context.{Hash, SpentMissedTicketsForBlock}
use hxstakepool.Stakepoold.SpentMissed.{process_spent_missed_tickets}
use hxstakepool.Stakepoold.SpentMissed.Laws.{ours, process_spent_missed_tickets-lookup}
use hxstakepool.Stakepoold.Update.{update_ticket_data}
use hxstakepool.Stakepoold.Update.Laws.{update_ticket_data-lookup}
use hxstakepool.Stakepoold.Example.{wallet, pool}

process_spent_missed_tickets-lookup_example :
    let smt : SpentMissedTicketsForBlock = record {
      block_hash = 50;
      block_height = 42;
      sm_tickets = (3, true) ∷ [];
    } in
    let ctx' = process_spent_missed_tickets wallet pool smt in
    (lookup 3 ctx'.live_tickets_msa
      ≡ (if elem 3 (ours wallet pool smt.sm_tickets) then none else lookup 3 pool.live_tickets_msa))
    × (lookup 3 ctx'.ignored_low_fee_tickets_msa ≡ (
        if elem 3 (ours wallet pool smt.sm_tickets)
        then none
        else lookup 3 pool.ignored_low_fee_tickets_msa))
process_spent_missed_tickets-lookup_example =
    process_spent_missed_tickets-lookup wallet pool
      (record { block_hash = 50; block_height = 42; sm_tickets = (3, true) ∷ [] }) 3
      (unfold lookup in refl)

abbrev two_added : GoMap Hash String
two_added = (2, "DcUser") ∷ []

update_ticket_data-lookup_example :
    let ctx' = update_ticket_data pool two_added in
    (lookup 3 ctx'.live_tickets_msa ≡ or_else (lookup 3 two_added) (lookup 3 pool.live_tickets_msa))
    × (lookup 3 ctx'.ignored_low_fee_tickets_msa ≡ (
        if has 3 two_added
        then none
        else or_else
            (lookup 3 pool.added_low_fee_tickets_msa)
            (lookup 3 pool.ignored_low_fee_tickets_msa)))
    × (ctx'.added_low_fee_tickets_msa ≡ two_added)
update_ticket_data-lookup_example =
    update_ticket_data-lookup pool two_added 3 (unfold lookup in (refl, tt))
      (unfold lookup in (refl, tt))
