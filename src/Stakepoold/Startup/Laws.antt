-- ===== src/Stakepoold/Startup/Laws.antt =====
-- How the tickets of the wallet are sorted.
use hxstakepool.Prelude.{
  ℕ, String, Bool, true, false, List, [], ◌∷◌, Option, none, some, nat_eq, string_eq, ◌≡◌, refl,
  arith, ◌⊎◌, inl, inr, Option-cases, Bool-cases, nat_beq, nat_beq_iff, subst, if◌then◌else◌,
  Member,
}
use hxstakepool.Prelude.Words.{uint32}
use hxstakepool.Prelude.Result.{ok, Result-cases}
use hxstakepool.GoMap.{put, lookup, has}
use hxstakepool.GoMap.Laws.{lookup-put}
use hxstakepool.Stakepoold.Context.{Hash, AppContext, UserVotingConfig}
use hxstakepool.Stakepoold.Rpc.{Wallet, Node, Transaction, reply, Reply-cases}
use hxstakepool.Stakepoold.Fees.{TxRules, MsgTx, evaluate_stake_pool_ticket, msg_tx_from_hex}
use hxstakepool.Stakepoold.Startup.{
  Loaded, Round, next, stored, boom, ticket_height, load_by_fee, load_detail, attempt, load_details,
  load_tickets, wallet_get_tickets,
}

module _ (r : TxRules) (w : Wallet) (node : Node) (ctx : AppContext) where
  -- The transaction has the ticket's hash, and an administrator added the ticket, or the transaction
  -- passes the check of the fee for a user whose address is among its details, at the height of its
  -- block.
  abbrev pub Pays : (AtHeight : Hash → ℕ → Type 0) → Transaction → Hash → Type 0
  Pays AtHeight gt t =
      (has t ctx.added_low_fee_tickets_msa ≡ true)
      ⊎ ((address : String) × (user : UserVotingConfig) × (addr : String) × (tx : MsgTx)
          × (block : Hash) × (height : ℕ) × Member address gt.details
          × (lookup address ctx.user_voting_config ≡ some user)
          × (r.decode_address address ≡ some addr)
          × (node.new_hash_from_str gt.tx_id ≡ some t)
          × (msg_tx_from_hex r gt.hex ≡ some tx)
          × (node.new_hash_from_str gt.block_hash ≡ some block)
          × AtHeight block height
          × (evaluate_stake_pool_ticket r ctx tx height addr ≡ ok true))

  -- The height that the node names for a block, cut to 32 bits.
  abbrev pub BoughtAt : Hash → ℕ → Type 0
  BoughtAt block height =
      (header : ℕ) × (node.get_block_header block ≡ reply header) × (height ≡ uint32 header)

  -- Why a ticket may vote: an administrator added it, or a transaction that the wallet gives pays its
  -- fee.
  abbrev pub Justified : Hash → Type 0
  Justified t =
      (asked : Hash) × (gt : Transaction) × (w.get_transaction asked ≡ reply gt)
      × (node.new_hash_from_str gt.tx_id ≡ some t)
      × Pays BoughtAt gt t

  -- A round that goes on keeps `P`, and one that stores its ticket ends in `Q`.
  abbrev pub Keeps : (P Q : Loaded → Type 0) → Round → Type 0
  Keeps P Q (next acc) = P acc
  Keeps P Q (stored acc) = Q acc
  Keeps P Q boom = Unit

  module _ (AtHeight : Hash → ℕ → Type 0) (P Q : Loaded → Type 0) (gt : Transaction)
      (asked_node : (block : Hash) (header : ℕ)
        → node.get_block_header block ≡ reply header
        → AtHeight block (uint32 header))
      (known : (acc : Loaded) (block : Hash) (height : ℕ)
        → P acc
        → lookup block acc.heights ≡ some height
        → AtHeight block height)
      (remember : (acc : Loaded) (block : Hash) (height : ℕ)
        → AtHeight block height
        → P acc
        → P (record acc { heights = put block height acc.heights }))
      (done : (acc : Loaded) → P acc → Q acc)
      (ignore : (acc : Loaded) (t : Hash) (msa : String)
        → node.new_hash_from_str gt.tx_id ≡ some t
        → P acc
        → Q (record acc { ignored = put t msa acc.ignored }))
      (admit : (acc : Loaded) (t : Hash) (msa : String)
        → node.new_hash_from_str gt.tx_id ≡ some t
        → Pays AtHeight gt t
        → P acc
        → Q (record acc { live = put t msa acc.live })) where
    load_by_fee-Keeps :
        (acc : Loaded) (t : Hash) (msa addr : String) (tx : MsgTx) (height : ℕ)
        → node.new_hash_from_str gt.tx_id ≡ some t
        → (evaluate_stake_pool_ticket r ctx tx height addr ≡ ok true → Pays AtHeight gt t)
        → P acc
        → Keeps P Q (load_by_fee r w node ctx t msa tx addr height acc)
    unfolding load_by_fee
    load_by_fee-Keeps acc t msa addr tx height et pays p =
        elim (Result-cases (evaluate_stake_pool_ticket r ctx tx height addr)) [
          | inl (true, e) ↦ rw (e, load_by_fee) (admit acc t msa et (pays e) p)
          | inl (false, e) ↦ rw (e, load_by_fee) (ignore acc t msa et p)
          | inr (inl (_, e)) ↦ rw (e, load_by_fee) (ignore acc t msa et p)
          | inr (inr e) ↦ rw (e, load_by_fee) tt
        ]

    ticket_height-P :
        (acc acc' : Loaded) (block : Hash) (height : ℕ)
        → ticket_height r w node ctx acc block ≡ some (height, acc')
        → P acc
        → P acc' × AtHeight block height
    unfolding ticket_height
    ticket_height-P acc acc' block height h p = elim (Option-cases (lookup block acc.heights)) [
      | inr (cached, e) ↦
          let same : acc ≡ acc' = ground (arith, e) in
          let at : cached ≡ height = ground (arith, e) in
          (subst P same p, subst (AtHeight block) at (known acc block cached p e))
      | inl e ↦ elim (Reply-cases (node.get_block_header block)) [
        | inr (_, lost) ↦ absurd (ground (arith, e, lost))
        | inl (header, got) ↦
            let new : record acc { heights = put block (uint32 header) acc.heights } ≡ acc' =
              ground (arith, e, got) in
            let at : uint32 header ≡ height = ground (arith, e, got) in
            let holds = asked_node block header got in
            (
              subst P new (remember acc block (uint32 header) holds p),
              subst (AtHeight block) at holds,
            )
      ]
    ]

    attempt-Keeps :
        {A : Type 0} (o : Option A) (acc : Loaded) (k : A → Round)
        → P acc
        → ((a : A) → o ≡ some a → Keeps P Q (k a))
        → Keeps P Q (attempt o acc k)
    unfolding attempt
    attempt-Keeps none acc k p h = p
    attempt-Keeps (some a) acc k p h = h a refl

    if-Keeps :
        (b : Bool) (x y : Round)
        → (b ≡ true → Keeps P Q x)
        → Keeps P Q y
        → Keeps P Q (if b then x else y)
    if-Keeps true x y hx hy = hx refl
    if-Keeps false x y hx hy = hy

    load_detail-Keeps :
        (address : String) (acc : Loaded)
        → Member address gt.details
        → P acc
        → Keeps P Q (load_detail r w node ctx gt address acc)
    unfolding load_detail
    load_detail-Keeps address acc m p = attempt-Keeps {A = UserVotingConfig} _ acc _ p λ user eu.
        attempt-Keeps _ acc _ p λ addr ea. attempt-Keeps _ acc _ p λ t et.
          if-Keeps _ _ _ (λ added. admit acc t user.multi_sig_address et (inl added) p)
            (attempt-Keeps _ acc _ p λ tx ex. attempt-Keeps _ acc _ p λ block eb.
              attempt-Keeps {A = ℕ × Loaded} _ acc _ p λ found ef.
                (let (p2, at) = ticket_height-P acc found.1 block found.0 ef p in
                  load_by_fee-Keeps found.1 t user.multi_sig_address addr tx found.0 et
                    (λ e.
                      inr (address, user, addr, tx, block, found.0, m, eu, ea, et, ex, eb, at, e))
                    p2))

    load_rest-Q :
        (details : List String) (acc acc' : Loaded)
        → ((a : String) → Member a details → Member a gt.details)
        → P acc
        → load_details r w node ctx gt details acc ≡ ok acc'
        → Q acc'
    unfolding load_details
    load_rest-Q [] acc acc' within p h =
        let same : acc ≡ acc' = ground arith in subst Q same (done acc p)
    load_rest-Q (a ∷ details) acc acc' within p h =
        (elim (load_detail r w node ctx gt a acc)
            as (λ v. load_detail r w node ctx gt a acc ≡ v → Keeps P Q v → Q acc') [
              | next acc'' ↦ λ e k.
                  load_rest-Q details acc'' acc' (λ b m. within b (inr m)) k (ground (arith, e))
              | stored acc'' ↦ λ e k. let same : acc'' ≡ acc' = ground (arith, e) in subst Q same k
              | boom ↦ λ e k. absurd (ground (arith, e))
            ])
          refl (load_detail-Keeps a acc (within a (inl refl)) p)

    pub load_details-Q :
        (acc acc' : Loaded) → P acc → load_details r w node ctx gt gt.details acc ≡ ok acc' → Q acc'
    load_details-Q acc acc' p h = load_rest-Q gt.details acc acc' (λ a m. m) p h

  -- Every live ticket is justified, and the heights that are remembered are the node's.
  abbrev AllJustified : Loaded → Type 0
  AllJustified acc =
      ((t : Hash) → has t acc.live ≡ true → Justified t)
      × ((block : Hash) (height : ℕ)
          → lookup block acc.heights ≡ some height
          → BoughtAt block height)

  admit-AllJustified :
      (acc : Loaded) (u : Hash) (msa : String)
      → Justified u
      → AllJustified acc
      → AllJustified (record acc { live = put u msa acc.live })
  admit-AllJustified acc u msa j (a, heights) = (
    λ v h. elim (Bool-cases (nat_beq u v)) [
      | inl same ↦ let e : u ≡ v = (nat_beq_iff u v).0 same in subst Justified e j
      | inr other ↦ a v (ground (arith, lookup-put u v msa acc.live, other))
    ],
    heights,
  )

  remember-AllJustified :
      (acc : Loaded) (block : Hash) (height : ℕ)
      → BoughtAt block height
      → AllJustified acc
      → AllJustified (record acc { heights = put block height acc.heights })
  remember-AllJustified acc block height at (a, heights) = (
    a,
    λ other h e. elim (Bool-cases (nat_beq block other)) [
      | inl same ↦
          let is : block ≡ other = (nat_beq_iff block other).0 same in
          let is2 : height ≡ h =
            ground (arith, e, same, lookup-put block other height acc.heights) in
          subst (λ x. BoughtAt other x) is2 (subst (λ x. BoughtAt x height) is at)
      | inr differ ↦
          heights other h (ground (arith, e, differ, lookup-put block other height acc.heights))
    ],
  )

  load_tickets-AllJustified :
      (tickets : List Hash) (acc acc' : Loaded)
      → AllJustified acc
      → load_tickets r w node ctx tickets acc ≡ ok acc'
      → AllJustified acc'
  unfolding load_tickets
  load_tickets-AllJustified [] acc acc' a h =
      let same : acc ≡ acc' = ground arith in subst AllJustified same a
  load_tickets-AllJustified (t ∷ tickets) acc acc' a h = elim (Reply-cases (w.get_transaction t)) [
    | inr (_, lost) ↦ load_tickets-AllJustified tickets acc acc' a (ground (arith, lost))
    | inl (gt, got) ↦ elim (Result-cases (load_details r w node ctx gt gt.details acc)) [
      | inl (acc'', e) ↦
          load_tickets-AllJustified tickets acc'' acc'
            (load_details-Q BoughtAt AllJustified AllJustified gt
              (λ block header node_says. (header, node_says, refl)) (λ b block h x. x.1 block h)
              remember-AllJustified (λ _ x. x) (λ _ _ _ _ x. x)
              (λ b u msa id pays x. admit-AllJustified b u msa (t, gt, got, id, pays) x) acc acc'' a
              e)
            (ground (arith, got, e))
      | inr (inl (_, e)) ↦ absurd (ground (arith, got, e))
      | inr (inr e) ↦ absurd (ground (arith, got, e))
    ]
  ]

  -- Every ticket that is live at the start was added by an administrator and has a transaction in the
  -- wallet, or its transaction, as the wallet gives it, passes the check of the fee for a user whose
  -- address is among its details, at the height that the node names for its block.
  pub wallet_get_tickets-Justified :
      (loaded : Loaded) (t : Hash)
      → wallet_get_tickets r w node ctx ≡ ok loaded
      → has t loaded.live ≡ true
      → Justified t
  unfolding wallet_get_tickets
  wallet_get_tickets-Justified loaded t h = elim (Reply-cases w.get_tickets) [
    | inr (_, lost) ↦ absurd (ground (arith, lost))
    | inl (tickets, got) ↦
        (load_tickets-AllJustified tickets (record { ignored = []; live = []; heights = [] }) loaded
            (λ u e. unfold lookup in cc, λ u x e. absurd (unfold lookup in cc))
            (ground (arith, got))).0
          t
  ]
