-- ===== src/Stakepoold/Winning.antt =====
-- `vote` and `processWinningTickets` of backend/stakepoold/server.go. The goroutines of `vote` write
-- each to its own `ticketMetadata`, and are joined before the winners are counted.
pub mod Laws
mod Tests
use text.Mathlib.Text.{starts_with}
use hxstakepool.Prelude.{
  ℕ, ◌+◌, String, Bool, true, false, not, List, [], ◌∷◌, ◌++◌, map, Option, none, some, ◌==◌,
  nat_eq, string_eq, if◌then◌else◌, nat_beq,
}
use hxstakepool.Prelude.Hex.{decode_string}
use hxstakepool.Prelude.Result.{Result, ok, err, panic, ◌>>=◌}
use hxstakepool.GoMap.{GoMap, lookup}
use hxstakepool.Stakepoold.Context.{
  Hash, Error, rpc, decode_hex, from_bytes, AppContext, UserVotingConfig, VotingConfig,
  WinningTicketsForBlock, TicketMetadata, unset,
}
use hxstakepool.Stakepoold.Rpc.{Wallet, Node, reply, failure}

-- The settings of `msa`: the defaults for an unknown user, and the default bits for a user whose
-- settings are for another vote version.
unfoldable pub vote_config : AppContext → String → UserVotingConfig
vote_config ctx msa = elim (lookup msa ctx.user_voting_config) [
  | none ↦ record {
    userid = 0;
    multi_sig_address = msa;
    vote_bits = ctx.voting_config.vote_bits;
    vote_bits_version = ctx.voting_config.vote_version;
  }
  | some vote_cfg ↦
      if not (nat_beq vote_cfg.vote_bits_version ctx.voting_config.vote_version)
      then record vote_cfg { vote_bits = ctx.voting_config.vote_bits }
      else vote_cfg
]

abbrev pub winner : AppContext → Hash → String → TicketMetadata
winner ctx ticket msa = record {
  ticket = ticket;
  ticket_type = unset;
  spent = false;
  msa = msa;
  hex = "";
  config = vote_config ctx msa;
  txid = none;
  err = none;
}

-- The loop over `wt.winningTickets`: the winners that the pool manages. In a test run a ticket that
-- it does not manage panics.
unfoldable pub collect_winners :
    AppContext → List Hash → List TicketMetadata → Result Error (List TicketMetadata)
collect_winners ctx [] winners = ok winners
collect_winners ctx (ticket ∷ tickets) winners = elim (lookup ticket ctx.live_tickets_msa) [
  | none ↦ elim ctx.testing [ true ↦ panic | false ↦ collect_winners ctx tickets winners ]
  | some msa ↦ collect_winners ctx tickets (winners ++ winner ctx ticket msa ∷ [])
]

module _ (w : Wallet) (node : Node) where
  -- `vote`, which sets `err` and `txid`.
  unfoldable pub vote : VotingConfig → Hash → ℕ → TicketMetadata → TicketMetadata
  vote defaults block_hash block_height m =
      elim (w.generate_vote block_hash block_height m.ticket m.config.vote_bits
        defaults.vote_bits_extended) [
          | failure e ↦ record m { err = some (rpc e) }
          | reply hex ↦ elim (hex == "") [
            | true ↦ record m { err = none }
            | false ↦ elim (decode_string hex) [
              | none ↦ record m { err = some decode_hex }
              | some buf ↦ elim (node.from_bytes buf) [
                | none ↦ record m { err = some from_bytes }
                | some new_tx ↦ elim (node.send_raw_transaction new_tx) [
                  | failure e ↦ record m { err = some (rpc e) }
                  | reply tx ↦ record m { err = none; txid = some tx }
                ]
              ]
            ]
          ]
        ]

  unfoldable pub vote_all :
      AppContext → WinningTicketsForBlock → List TicketMetadata → List TicketMetadata
  unfolding vote
  vote_all ctx wt winners =
      if ctx.testing
      then winners
      else map (vote ctx.voting_config wt.block_hash wt.block_height) winners

  -- What the handler does before it logs.
  unfoldable pub process_winning_tickets :
      AppContext → WinningTicketsForBlock → Result Error (List TicketMetadata)
  unfolding vote_all collect_winners
  process_winning_tickets ctx wt = do
    winners ← collect_winners ctx wt.winning_tickets []
    ok (vote_all ctx wt winners)

-- `votedCount`, `dupeCount` and `errorCount`.
pub record Tally : Type 0 where
  pub voted : ℕ
  pub dupes : ℕ
  pub errors : ℕ

abbrev pub err_duplicate_vote : String
err_duplicate_vote = "-32603: already have transaction "

-- The errors that the daemon itself returns do not begin so.
abbrev pub is_duplicate : Error → Bool
is_duplicate (rpc text) = starts_with text err_duplicate_vote
is_duplicate _ = false

unfoldable pub count_votes : List TicketMetadata → Tally → Tally
count_votes [] t = t
count_votes (w ∷ ws) t = elim w.err [
  | none ↦ count_votes ws (record t { voted = t.voted + 1 })
  | some e ↦ elim (is_duplicate e) [
    | true ↦ count_votes ws (record t { dupes = t.dupes + 1 })
    | false ↦ count_votes ws (record t { errors = t.errors + 1 })
  ]
]
