-- ===== src/Stakepoold/Winning/Laws.antt =====
-- Who votes, with which bits, and how the votes are counted.
use hxstakepool.Prelude.{
  ℕ, ◌+◌, String, List, [], ◌∷◌, none, some, ◌==◌, nat_eq, string_eq, nat_beq, ◌≡◌, arith, length,
  ◌⊎◌, inl, inr, Option-cases, Bool-cases, ◌≢◌,
}
use text.Mathlib.TextEquality.{eq_iff}
use hxstakepool.Prelude.Hex.{decode_string}
use hxstakepool.GoMap.{lookup}
use hxstakepool.Stakepoold.Context.{
  Hash, AppContext, UserVotingConfig, VotingConfig, TicketMetadata,
}
use hxstakepool.Stakepoold.Rpc.{Wallet, Node, reply, Reply-cases}
use hxstakepool.Stakepoold.Winning.{vote_config, winner, vote, Tally, count_votes}

-- The tickets that the pool manages, with their addresses, in the block's order.
abbrev pub managed : AppContext → List Hash → List (Hash × String)
managed ctx [] = []
managed ctx (t ∷ ts) = elim (lookup t ctx.live_tickets_msa) [
  | none ↦ managed ctx ts
  | some msa ↦ (t, msa) ∷ managed ctx ts
]

abbrev pub winner_of : AppContext → Hash × String → TicketMetadata
winner_of ctx (t, msa) = winner ctx t msa

-- The bits that are voted are the user's where the user is known and set them for the wallet's vote
-- version, and the wallet's defaults in every other case.
pub vote_config-bits :
    (ctx : AppContext) (msa : String)
    → ((c : UserVotingConfig) × (lookup msa ctx.user_voting_config ≡ some c)
        × (c.vote_bits_version ≡ ctx.voting_config.vote_version)
        × (vote_config ctx msa ≡ c))
      ⊎ (((c : UserVotingConfig)
            → lookup msa ctx.user_voting_config ≡ some c
            → c.vote_bits_version ≢ ctx.voting_config.vote_version)
          × ((vote_config ctx msa).vote_bits ≡ ctx.voting_config.vote_bits))
unfolding vote_config
vote_config-bits ctx msa = elim (Option-cases (lookup msa ctx.user_voting_config)) [
  | inl e ↦ inr (λ c e'. absurd (ground arith), ground (arith, e))
  | inr (c, e) ↦ elim (Bool-cases (nat_beq c.vote_bits_version ctx.voting_config.vote_version)) [
    | inl same ↦ inl (c, e, ground arith, ground (arith, e, same))
    | inr other ↦ inr (λ c' e'. ground arith, ground (arith, e, other))
  ]
]

-- Every winner is counted once: as voted, as a duplicate or as an error.
count_votes-total :
    (ws : List TicketMetadata) (t : Tally)
    → let u = count_votes ws t in
      u.voted + u.dupes + u.errors ≡ t.voted + t.dupes + t.errors + length ws
unfolding count_votes
count_votes-total [] t = omega arith
count_votes-total (w ∷ ws) t = ground (
  arith,
  count_votes-total ws (record t { voted = t.voted + 1 }),
  count_votes-total ws (record t { dupes = t.dupes + 1 }),
  count_votes-total ws (record t { errors = t.errors + 1 }),
)

-- A winner without an error has a transaction that the node took, or the wallet returned an empty
-- vote, and nothing was sent.
pub vote-err :
    (w : Wallet) (node : Node) (defaults : VotingConfig) (block_hash : Hash) (height : ℕ)
    (m : TicketMetadata)
    → m.txid ≡ none
    → (vote w node defaults block_hash height m).err ≡ none
    → ((raw : List ℕ) × (tx : Hash) × (node.send_raw_transaction raw ≡ reply tx)
        × ((vote w node defaults block_hash height m).txid ≡ some tx))
      ⊎ ((w.generate_vote block_hash height m.ticket m.config.vote_bits defaults.vote_bits_extended
            ≡ reply "")
          × ((vote w node defaults block_hash height m).txid ≡ none))
unfolding vote
vote-err w node defaults block_hash height m fresh h =
    elim (Reply-cases
      (w.generate_vote block_hash height m.ticket m.config.vote_bits defaults.vote_bits_extended)) [
        | inr (e, no_vote) ↦ absurd (ground (arith, no_vote))
        | inl (hex, voted) ↦ elim (Bool-cases (hex == "")) [
          | inl empty ↦ inr (ground (arith, voted, eq_iff hex ""), ground (arith, voted, empty))
          | inr full ↦ elim (Option-cases (decode_string hex)) [
            | inl e ↦ absurd (ground (arith, voted, full, e))
            | inr (buf, eb) ↦ elim (Option-cases (node.from_bytes buf)) [
              | inl e ↦ absurd (ground (arith, voted, full, eb, e))
              | inr (raw, er) ↦ elim (Reply-cases (node.send_raw_transaction raw)) [
                | inl (tx, sent) ↦ inl (raw, tx, sent, ground (arith, voted, full, eb, er, sent))
                | inr (e, lost) ↦ absurd (ground (arith, voted, full, eb, er, lost))
              ]
            ]
          ]
        ]
      ]
