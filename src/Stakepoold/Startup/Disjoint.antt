-- ===== src/Stakepoold/Startup/Disjoint.antt =====
-- No ticket is both live and ignored after the start.
use hxstakepool.Prelude.{
  String, true, false, List, [], ◌∷◌, some, nat_eq, ◌≡◌, arith, nat_beq_iff, subst, sym, inl, inr,
}
use hxstakepool.Prelude.Result.{ok, Result-cases}
use hxstakepool.GoMap.{put, lookup, has}
use hxstakepool.GoMap.Laws.{lookup-put, elem}
use hxstakepool.Stakepoold.Context.{Hash, AppContext}
use hxstakepool.Stakepoold.Rpc.{Wallet, Node, Transaction, reply, Reply-cases}
use hxstakepool.Stakepoold.Fees.{TxRules}
use hxstakepool.Stakepoold.Startup.{Loaded, load_details, load_tickets, wallet_get_tickets}
use hxstakepool.Stakepoold.Startup.Laws.{load_details-Q}

abbrev pub Distinct : List Hash → Type 0
Distinct [] = Unit
Distinct (t ∷ ts) = (elem t ts ≡ false) × Distinct ts

-- No ticket is in both maps, and none of those still to come is in either.
pub record Split (rest : List Hash) (acc : Loaded) : Type 0 where
  pub disjoint : (t : Hash) → has t acc.live ≡ true → has t acc.ignored ≡ false
  pub fresh_live : (t : Hash) → has t acc.live ≡ true → elem t rest ≡ false
  pub fresh_ignored : (t : Hash) → has t acc.ignored ≡ true → elem t rest ≡ false

module _ (ts : List Hash) (t : Hash) (distinct : elem t ts ≡ false) (acc : Loaded) where
  Split-tail : Split (t ∷ ts) acc → Split ts acc
  Split-tail s = record {
    disjoint = s.disjoint;
    fresh_live = λ u h. ground (arith, s.fresh_live u h);
    fresh_ignored = λ u h. ground (arith, s.fresh_ignored u h);
  }

  Split-ignored :
      (msa : String)
      → Split (t ∷ ts) acc
      → Split ts (record acc { ignored = put t msa acc.ignored })
  Split-ignored msa s = record {
    disjoint = λ u h.
        ground (
          arith,
          s.disjoint u h,
          s.fresh_live u h,
          lookup-put t u msa acc.ignored,
          nat_beq_iff t u,
        );
    fresh_live = λ u h. ground (arith, s.fresh_live u h);
    fresh_ignored =
        λ u h. ground (arith, s.fresh_ignored u, lookup-put t u msa acc.ignored, nat_beq_iff t u);
  }

  Split-live :
      (msa : String) → Split (t ∷ ts) acc → Split ts (record acc { live = put t msa acc.live })
  Split-live msa s = record {
    disjoint = λ u h.
        ground
          (arith, s.disjoint u, s.fresh_ignored u, lookup-put t u msa acc.live, nat_beq_iff t u);
    fresh_live =
        λ u h. ground (arith, s.fresh_live u, lookup-put t u msa acc.live, nat_beq_iff t u);
    fresh_ignored = λ u h. ground (arith, s.fresh_ignored u h);
  }

module _ (r : TxRules) (w : Wallet) (node : Node) (ctx : AppContext)
    -- What the wallet returns for a ticket has the ticket's own hash.
    (own_id : (t u : Hash) (gt : Transaction)
      → w.get_transaction t ≡ reply gt
      → node.new_hash_from_str gt.tx_id ≡ some u
      → u ≡ t) where
  load_tickets-Split :
      (tickets : List Hash) (acc acc' : Loaded)
      → Distinct tickets
      → Split tickets acc
      → load_tickets r w node ctx tickets acc ≡ ok acc'
      → Split [] acc'
  unfolding load_tickets
  load_tickets-Split [] acc acc' d s h =
      let same : acc ≡ acc' = ground arith in subst (Split []) same s
  load_tickets-Split (t ∷ tickets) acc acc' d s h = elim (Reply-cases (w.get_transaction t)) [
    | inr (_, lost) ↦
        load_tickets-Split tickets acc acc' d.1 (Split-tail tickets t d.0 acc s)
          (ground (arith, lost))
    | inl (gt, got) ↦ elim (Result-cases (load_details r w node ctx gt gt.details acc)) [
      | inl (acc'', e) ↦
          load_tickets-Split tickets acc'' acc' d.1
            (load_details-Q r w node ctx (λ _ _. Unit {0}) (Split (t ∷ tickets)) (Split tickets) gt
              (λ _ _ _. tt) (λ _ _ _ _ _. tt)
              (λ a _ _ _ x. record {
                disjoint = x.disjoint;
                fresh_live = x.fresh_live;
                fresh_ignored = x.fresh_ignored;
              })
              (λ a x. Split-tail tickets t d.0 a x)
              (λ a u msa eu x.
                let own = own_id t u gt got eu in
                subst (λ v. Split tickets (record a { ignored = put v msa a.ignored })) (sym own)
                  (Split-ignored tickets t d.0 a msa x))
              (λ a u msa eu _ x.
                let own = own_id t u gt got eu in
                subst (λ v. Split tickets (record a { live = put v msa a.live })) (sym own)
                  (Split-live tickets t d.0 a msa x))
              acc acc'' s e)
            (ground (arith, got, e))
      | inr (inl (_, e)) ↦ absurd (ground (arith, got, e))
      | inr (inr e) ↦ absurd (ground (arith, got, e))
    ]
  ]

  -- Where the wallet lists each ticket once, no ticket is both live and ignored after the start.
  pub wallet_get_tickets-disjoint :
      (tickets : List Hash) (loaded : Loaded) (t : Hash)
      → w.get_tickets ≡ reply tickets
      → Distinct tickets
      → wallet_get_tickets r w node ctx ≡ ok loaded
      → has t loaded.live ≡ true
      → has t loaded.ignored ≡ false
  unfolding wallet_get_tickets
  wallet_get_tickets-disjoint tickets loaded t got d h =
      (load_tickets-Split tickets (record { ignored = []; live = []; heights = [] }) loaded d
          (record {
            disjoint = λ u e. unfold lookup in cc;
            fresh_live = λ u e. unfold lookup in cc;
            fresh_ignored = λ u e. unfold lookup in cc;
          })
          (ground (arith, got))).disjoint
        t
