-- ===== src/Stakepoold/Start/Refresh.antt =====
-- The refresh of the tickets ends where a round passes without a block.
use hxstakepool.Prelude.{
  ℕ, zero, suc, ◌≤◌, ◌<◌, true, some, nat_beq_iff, ◌≡◌, refl, arith, Bool-cases, inl, inr,
}
use hxstakepool.Prelude.Result.{ok}
use hxstakepool.Stakepoold.Context.{Hash, AppContext}
use hxstakepool.Stakepoold.Fees.{TxRules}
use hxstakepool.Stakepoold.Startup.{Loaded, wallet_get_tickets}
use hxstakepool.Stakepoold.Start.{Round, refreshed, same_block, with_tickets, refresh}

-- The two states differ in the lists of live and ignored tickets only.
abbrev pub SameSettings : AppContext → AppContext → Type 0
SameSettings c ctx =
    record c {
      ignored_low_fee_tickets_msa = ctx.ignored_low_fee_tickets_msa;
      live_tickets_msa = ctx.live_tickets_msa;
    }
    ≡ ctx

module _ (r : TxRules) where
  -- The node gives the best block before and after, and the wallet its tickets, whatever the lists hold.
  abbrev pub Answers : Round → Type 0
  Answers round =
      ((c : AppContext) → (l : Loaded) × (wallet_get_tickets r round.wallet round.node c ≡ ok l))
      × ((current : Hash × ℕ) × (round.before ≡ some current))
      × ((later : Hash × ℕ) × (round.after ≡ some later))

  -- No block came in between.
  abbrev pub Quiet : Round → Type 0
  Quiet round = (round.before ≡ round.after)

  -- The state has the tickets that the wallet gave in a quiet round, one of the first `count`.
  abbrev pub FromQuiet : (count : ℕ) → (ℕ → Round) → (ctx after : AppContext) → Type 0
  FromQuiet count rounds ctx after =
      (i : ℕ) × (c : AppContext) × (l : Loaded) × (i < count)
      × SameSettings c ctx
      × Quiet (rounds i)
      × (wallet_get_tickets r (rounds i).wallet (rounds i).node c ≡ ok l)
      × (after ≡ with_tickets c l)

  same_block_sound : (a b : Hash × ℕ) → same_block a b ≡ true → a ≡ b
  same_block_sound (h, n) (h2, n2) e = ground (arith, e, nat_beq_iff h h2, nat_beq_iff n n2)

  same_block_refl : (a : Hash × ℕ) → same_block a a ≡ true
  same_block_refl (h, n) = ground (arith, nat_beq_iff h h, nat_beq_iff n n)

  -- Where all rounds up to the round `k` are answered and no block comes in during that one, the refresh
  -- ends after at most `k + 1` rounds, with the settings unchanged and with the tickets that the wallet
  -- gave in a round during which no block came in.
  pub refresh-FromQuiet :
      (k : ℕ) (rounds : ℕ → Round) (ctx : AppContext)
      → ((i : ℕ) → i ≤ k → Answers (rounds i))
      → Quiet (rounds k)
      → (after : AppContext) × (refresh r (suc k) rounds ctx ≡ refreshed after)
        × FromQuiet (suc k) rounds ctx after
  unfolding refresh
  refresh-FromQuiet zero rounds ctx answers quiet =
      let (loads, (current, at), (later, at2)) = answers 0 (omega arith) in
      let (l, is) = loads ctx in
      let same : current ≡ later = ground (arith, at, at2, quiet) in
      (
        with_tickets ctx l,
        ground (arith, at, at2, is, same, same_block_refl later),
        (0, ctx, l, omega arith, refl, quiet, is, refl),
      )
  refresh-FromQuiet (suc k) rounds ctx answers quiet =
      let (loads, (current, at), (later, at2)) = answers 0 (omega arith) in
      let (l, is) = loads ctx in
      let next = with_tickets ctx l in
      elim (Bool-cases (same_block current later)) [
        | inl same ↦
            let one = same_block_sound current later same in
            (
              next,
              ground (arith, at, at2, is, same),
              (0, ctx, l, omega arith, refl, ground (arith, at, at2, one), is, refl),
            )
        | inr moved ↦
            let (after, e, (i, c, l2, low, settings, quiet2, is2, built)) =
              refresh-FromQuiet k (λ j. rounds (suc j)) next
                (λ j low. answers (suc j) (omega (arith, low))) quiet in
            (
              after,
              ground (arith, at, at2, is, moved, e),
              (suc i, c, l2, omega (arith, low), ground (arith, settings), quiet2, is2, built),
            )
      ]
