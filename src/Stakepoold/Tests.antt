-- ===== src/Stakepoold/Tests.antt =====
-- The start of the daemon and its new tickets at the small pool.
use hxstakepool.Prelude.{
  ℕ, String, true, false, [], ◌∷◌, some, ◌≡◌, refl, inl, inr, arith, nat_beq, nat_eq, string_eq,
  Bool-cases, subst, sym, ◌∙◌,
}
use hxstakepool.Prelude.Words.{add64, sub64, lt64}
use hxstakepool.Prelude.Hex.{decode_string}
use hxstakepool.Prelude.Result.{ok}
use hxstakepool.GoMap.{lookup, put, has}
use hxstakepool.Stakepoold.Context.{Hash, AppContext, NewTicketsForBlock}
use hxstakepool.Stakepoold.Rpc.{reply, Transaction}
use hxstakepool.Stakepoold.Fees.{
  is_odd, commitments_in, values_out, pays_fee, evaluate_stake_pool_ticket, msg_tx_from_hex,
}
use hxstakepool.Stakepoold.Startup.{
  Loaded, wallet_get_tickets, load_tickets, load_details, load_detail, attempt, ticket_height,
  load_by_fee,
}
use hxstakepool.Stakepoold.Startup.Laws.{Justified, wallet_get_tickets-Justified}
use hxstakepool.Stakepoold.Startup.Disjoint.{wallet_get_tickets-disjoint}
use hxstakepool.Stakepoold.Example.{
  ticket_tx, rules, transaction, wallet_transaction, hash_from_str, wallet, node, pool,
}

accepted : evaluate_stake_pool_ticket rules pool (ticket_tx 10) 40 "DcUser" ≡ ok true
unfolding evaluate_stake_pool_ticket pays_fee commitments_in values_out is_odd lookup add64 sub64
    lt64
accepted = refl

refused : evaluate_stake_pool_ticket rules pool (ticket_tx 3) 40 "DcUser" ≡ ok false
unfolding evaluate_stake_pool_ticket pays_fee commitments_in values_out is_odd lookup add64 sub64
    lt64
refused = refl

-- A block with the tickets 1 and 2.
abbrev block : NewTicketsForBlock
block = record { block_hash = 50; block_height = 40; new_tickets = 1 ∷ 2 ∷ [] }

abbrev pool_after : AppContext
pool_after = record pool { live_tickets_msa = (3, "DcUser") ∷ (1, "DcUser") ∷ (2, "DcUser") ∷ [] }

abbrev loaded : Loaded
loaded = record {
  ignored = (2, "DcUser") ∷ [];
  live = (1, "DcUser") ∷ (3, "DcUser") ∷ [];
  heights = (50, 40) ∷ [];
}

wallet_get_tickets_test : wallet_get_tickets rules wallet node pool ≡ ok loaded
unfolding wallet_get_tickets load_tickets load_details load_detail attempt ticket_height load_by_fee
    put lookup evaluate_stake_pool_ticket pays_fee commitments_in values_out is_odd add64 sub64 lt64
    msg_tx_from_hex decode_string
wallet_get_tickets_test = refl

wallet_get_tickets-Justified_example : Justified rules wallet node pool 1
wallet_get_tickets-Justified_example =
    wallet_get_tickets-Justified rules wallet node pool loaded 1 wallet_get_tickets_test
      (unfold lookup in refl)

named :
    (id hex : String) (n t u : ℕ) (gt : Transaction)
    → nat_beq t n ≡ true
    → gt ≡ transaction id hex
    → hash_from_str gt.tx_id ≡ some u
    → hash_from_str id ≡ some n
    → u ≡ t
named id hex n t u gt same e f g =
    let found : hash_from_str id ≡ some u = subst (λ x. hash_from_str x.tx_id ≡ some u) e f in
    let k : some u ≡ some n = sym found ∙ g in ground (arith, k, same)

own_id :
    (t u : Hash) (gt : Transaction)
    → wallet_transaction t ≡ reply gt
    → hash_from_str gt.tx_id ≡ some u
    → u ≡ t
own_id t u gt e f = elim (Bool-cases (nat_beq t 1)) [
  | inl one ↦ named "one" "0a" 1 t u gt one (ground (arith, e, one)) f refl
  | inr not_one ↦ elim (Bool-cases (nat_beq t 2)) [
    | inl two ↦ named "two" "03" 2 t u gt two (ground (arith, e, not_one, two)) f refl
    | inr not_two ↦ elim (Bool-cases (nat_beq t 3)) [
      | inl three ↦
          named "three" "03" 3 t u gt three (ground (arith, e, not_one, not_two, three)) f refl
      | inr not_three ↦ absurd (ground (arith, e, not_one, not_two, not_three))
    ]
  ]
]

wallet_get_tickets-disjoint_example : has 1 loaded.ignored ≡ false
wallet_get_tickets-disjoint_example =
    wallet_get_tickets-disjoint rules wallet node pool own_id (1 ∷ 2 ∷ 3 ∷ []) loaded 1 refl
      (refl, (refl, (refl, tt))) wallet_get_tickets_test (unfold lookup in refl)
