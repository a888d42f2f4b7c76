-- ===== src/Stakepoold/NewTickets/Fees.antt =====
-- What the verdict on a fee decides when a block brings a ticket: nothing.
use hxstakepool.Prelude.{
  ℕ, String, true, false, List, [], ◌∷◌, ◌++◌, map, some, ◌≡◌, ◌≢◌, arith, string_eq, nat_eq,
}
use mathlib.Core.List.{map-append}
use text.Mathlib.TextEquality.{eq_iff}
use hxstakepool.Prelude.Words.{uint32}
use hxstakepool.Prelude.Result.{ok}
use hxstakepool.GoMap.{put, put_all, has}
use hxstakepool.GoMap.Laws.{lookup-put, lookup-put_all}
use hxstakepool.Stakepoold.Context.{Hash, AppContext, TicketMetadata}
use hxstakepool.Stakepoold.Rpc.{Wallet, Transaction, reply}
use hxstakepool.Stakepoold.Fees.{TxRules, MsgTx, evaluate_stake_pool_ticket, msg_tx_from_hex}
use hxstakepool.Stakepoold.GetTicket.{getticket, first_of_user}
use hxstakepool.Stakepoold.GetTicket.Laws.{getticket-ticket}
use hxstakepool.Stakepoold.NewTickets.{
  NewTickets, judge_new_ticket, skip, judged, sort_new_tickets, commit_new_tickets, no_tickets,
  new_metadata, process_new_tickets,
}
use hxstakepool.Stakepoold.NewTickets.Laws.{process_new_tickets-Sound}

module _ (r : TxRules) (ctx : AppContext) (height : ℕ) where
  sort_new_tickets-keeps :
      (ns : List TicketMetadata) (acc found : NewTickets) (t : Hash)
      → sort_new_tickets r ctx height ns acc ≡ ok found
      → has t acc.live ≡ true
      → has t found.live ≡ true
  unfolding sort_new_tickets
  sort_new_tickets-keeps [] acc found t h l = ground arith
  sort_new_tickets-keeps (n ∷ ns) acc found t h l = ground (
    arith,
    lookup-put n.ticket t n.msa acc.live,
    sort_new_tickets-keeps ns acc found t,
    sort_new_tickets-keeps ns (record acc { live = put n.ticket n.msa acc.live }) found t,
    sort_new_tickets-keeps ns
        (record { ignored = put n.ticket n.msa acc.ignored; live = put n.ticket n.msa acc.live })
        found t,
  )

  sort_new_tickets-live :
      (before after : List TicketMetadata) (n : TicketMetadata) (acc found : NewTickets)
      → sort_new_tickets r ctx height (before ++ n ∷ after) acc ≡ ok found
      → judge_new_ticket r ctx height n ≢ skip
      → has n.ticket found.live ≡ true
  unfolding sort_new_tickets
  sort_new_tickets-live [] after n acc found h j = ground (
    arith,
    lookup-put n.ticket n.ticket n.msa acc.live,
    sort_new_tickets-keeps after (record acc { live = put n.ticket n.msa acc.live }) found n.ticket,
    sort_new_tickets-keeps after
        (record { ignored = put n.ticket n.msa acc.ignored; live = put n.ticket n.msa acc.live })
        found n.ticket,
  )
  sort_new_tickets-live (b ∷ before) after n acc found h j = ground (
    arith,
    sort_new_tickets-live before after n acc found,
    sort_new_tickets-live before after n (record acc { live = put b.ticket b.msa acc.live }) found,
    sort_new_tickets-live before after n
        (record { ignored = put b.ticket b.msa acc.ignored; live = put b.ticket b.msa acc.live })
        found,
  )

module _ (r : TxRules) (w : Wallet) (ctx : AppContext) (height : ℕ) (t : Hash) {res : Transaction}
    {msa addr : String} {tx : MsgTx} (known : w.get_transaction t ≡ reply res)
    (ours : first_of_user ctx.user_voting_config res.details ≡ some msa) (nonempty : msa ≢ "")
    (decodes : r.decode_address msa ≡ some addr) (parses : msg_tx_from_hex r res.hex ≡ some tx)
    (rejected : evaluate_stake_pool_ticket r ctx tx (uint32 height) addr ≡ ok false) where
  judge_rejected :
      judge_new_ticket r ctx height (getticket w ctx.user_voting_config (new_metadata t)) ≡ judged
  unfolding judge_new_ticket getticket
  judge_rejected = ground (arith, known, ours, decodes, parses, rejected, eq_iff msa "")

  -- A user's ticket of a block whose fee was judged too low becomes live all the same.
  pub process_new_tickets_rejected :
      (block_hash : Hash) (before after : List Hash) (ctx' : AppContext)
      → process_new_tickets r w ctx (record {
        block_hash = block_hash;
        block_height = height;
        new_tickets = before ++ t ∷ after;
      })
        ≡ ok ctx'
      → has t ctx'.live_tickets_msa ≡ true
  process_new_tickets_rejected block_hash before after ctx' h =
      let (found, es, s, e) = process_new_tickets-Sound r w ctx ctx' _ h in
      let live =
        sort_new_tickets-live r ctx height (map look before) (map look after) (look t) no_tickets
          found (rw map-append at es) (λ x. ground (arith, judge_rejected)) in
      rw e (
        unfold commit_new_tickets in
        ground (
          arith,
          live,
          getticket-ticket w ctx.user_voting_config (new_metadata t),
          lookup-put_all t found.live ctx.live_tickets_msa s.live_IsMap,
        ))
    where
      look : Hash → TicketMetadata
      look h = getticket w ctx.user_voting_config (new_metadata h)

  -- Where it is the only ticket of its block, it does not get on the list of ignored tickets.
  pub process_new_tickets_rejected-ignored :
      (block_hash : Hash)
      → process_new_tickets r w ctx
          (record { block_hash = block_hash; block_height = height; new_tickets = t ∷ [] })
        ≡ ok (record ctx { live_tickets_msa = put t msa ctx.live_tickets_msa })
  unfolding process_new_tickets sort_new_tickets commit_new_tickets put_all put
  process_new_tickets_rejected-ignored block_hash =
      ground
        (arith, judge_rejected, getticket-ticket w ctx.user_voting_config (new_metadata t), msa_lem)
    where
      msa_lem : (getticket w ctx.user_voting_config (new_metadata t)).msa ≡ msa
      msa_lem = unfold getticket in ground (arith, known, ours)
