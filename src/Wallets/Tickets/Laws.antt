-- ===== src/Wallets/Tickets/Laws.antt =====
-- What the request for a user's tickets returns, and which tickets it adds to which wallets.
use hxstakepool.Prelude.{
  ℕ, suc, ◌+◌, ◌≤◌, ◌≢◌, String, string_eq, ◌==◌, ==_iff, true, false, List, [], ◌∷◌, Option, none,
  some, if◌then◌else◌, nat_beq, length, get_elem?, ◌≡◌, refl, arith, All, Member, inl, inr,
  Bool-cases, Option-cases, All-append, subst,
}
use hxstakepool.Prelude.Result.{ok, err, panic, Result-cases}
use hxstakepool.Wallets.Types.{
  Answer, answer, fails, client_disconnect, Server, PoolTicket, UserInfoResult,
}
use hxstakepool.Wallets.Poll.{poll}
use hxstakepool.Wallets.Poll.Laws.{heard_from, IsFine, poll-ok}
use hxstakepool.Wallets.Tickets.{
  SyncCalls, Added, then_added, add_missing, sync_invalid, sync_valid, sync_from, sync_each, zip,
  sync_tickets, stake_pool_user_info_fn, check_for_syncness, all_in_sync, in_sync_with,
  fetch_transaction,
}

module _ {Hash Tx : Type 0} (calls : SyncCalls Hash Tx) (servers : List Server) where
  -- A request for a user's tickets that returns was answered by at least `min_servers` wallets and
  -- refused by none, and returns the answer of the first that gave one, whether the wallets were in
  -- sync or not.
  pub stake_pool_user_info_fn-ok :
      (min_servers : ℕ) (ask : ℕ → Answer UserInfoResult) {r : Option UserInfoResult}
      → (stake_pool_user_info_fn calls servers min_servers ask).1 ≡ ok r
      → All (IsFine ask) servers
        × (min_servers ≤ length (heard_from ask servers))
        × (r ≡ get_elem? (heard_from ask servers) 0)
  unfolding stake_pool_user_info_fn
  stake_pool_user_info_fn-ok min_servers ask {r} e =
      elim (Option-cases (poll ask servers).failure) [
        | inr (x, p) ↦ absurd (ground (arith, e, p))
        | inl p ↦
            let (fine, count, head) = poll-ok ask servers p in
            let cases = Result-cases (sync_tickets calls servers (poll ask servers).answers).1 in
            (fine, ground (arith, e, p, count), ground (arith, e, p, head, cases))
      ]

  abbrev pub Slot : Type 0
  Slot = Server × Option UserInfoResult

  -- A ticket that the wallet at one place of the list holds as valid, and the wallet at another place, the
  -- one that it is added to, as invalid.
  abbrev pub Justified : List Slot → ℕ × String → Type 0
  Justified slots (server, t) =
      (i : ℕ) × (j : ℕ) × (s : ℕ) × (a : UserInfoResult) × (v : PoolTicket) × (b : UserInfoResult)
      × (i ≢ j)
      × (get_elem? slots i ≡ some (some s, some a))
      × Member v a.tickets
      × (v.ticket ≡ t)
      × (get_elem? slots j ≡ some (some server, some b))
      × Member t b.invalid_tickets

  -- The list `rest` stands in `slots` from index `k` on.
  abbrev StandsFrom : List Slot → ℕ → List Slot → Type 0
  StandsFrom slots k rest = (n : ℕ) → get_elem? slots (k + n) ≡ get_elem? rest n

  StandsFrom-tail :
      (slots : List Slot) (k : ℕ) (x : Slot) (rest : List Slot)
      → StandsFrom slots k (x ∷ rest)
      → StandsFrom slots (suc k) rest
  StandsFrom-tail slots k x rest from n = ground (arith, from (suc n))

  then_added-All :
      (P : ℕ × String → Type 0) (a b : Added) → All P a.0 → All P b.0 → All P (then_added a b).0
  then_added-All P (done, ok u) b p q = All-append P done b.0 p q
  then_added-All P (done, err e) b p q = p
  then_added-All P (done, panic) b p q = p

  add_missing-All :
      (P : ℕ × String → Type 0) (j : ℕ) (ticket : String)
      → P (j, ticket)
      → All P (add_missing calls servers j ticket).0
  unfolding add_missing
  add_missing-All P j ticket p = elim (Option-cases (calls.new_hash_from_str ticket)) [
    | inl e ↦ ground (arith, e)
    | inr (hash, e) ↦
        elim (Result-cases (fetch_transaction (λ s. calls.get_raw_transaction s hash) servers)) [
          | inl (tx, f) ↦ ground (arith, e, f, p, Option-cases (calls.add_ticket j tx))
          | inr f ↦ ground (arith, e, f)
        ]
  ]

  sync_invalid-All :
      (P : ℕ × String → Type 0) (j : ℕ) (ticket : String) (invalid : List String)
      → (Member ticket invalid → P (j, ticket))
      → All P (sync_invalid calls servers j ticket invalid).0
  unfolding sync_invalid
  sync_invalid-All P j ticket [] p = tt
  sync_invalid-All P j ticket (x ∷ rest) p =
      let others = sync_invalid-All P j ticket rest (λ m. p (inr m)) in
      (elim (ticket == x)
          as (λ v.
            (ticket == x) ≡ v
            → All P
                (if v
                  then then_added (add_missing calls servers j ticket)
                      (sync_invalid calls servers j ticket rest)
                  else sync_invalid calls servers j ticket rest).0) [
                    | true ↦ λ e.
                        then_added-All P (add_missing calls servers j ticket)
                          (sync_invalid calls servers j ticket rest)
                          (add_missing-All P j ticket (p (inl ((==_iff ticket x).0 e)))) others
                    | false ↦ λ e. others
                  ])
        refl

  sync_valid-All :
      (P : ℕ × String → Type 0) (j : ℕ) (target : Option UserInfoResult) (tickets : List PoolTicket)
      → ((b : UserInfoResult) (v : PoolTicket)
          → target ≡ some b
          → Member v tickets
          → Member v.ticket b.invalid_tickets
          → P (j, v.ticket))
      → All P (sync_valid calls servers j target tickets).0
  unfolding sync_valid
  sync_valid-All P j target [] p = tt
  sync_valid-All P j none (v ∷ rest) p = tt
  sync_valid-All P j (some b) (v ∷ rest) p =
      then_added-All P (sync_invalid calls servers j v.ticket b.invalid_tickets)
        (sync_valid calls servers j (some b) rest)
        (sync_invalid-All P j v.ticket b.invalid_tickets (p b v refl (inl refl)))
        (sync_valid-All P j (some b) rest (λ c w e m. p c w e (inr m)))

  from_source :
      (slots : List Slot) (i j s t : ℕ) (source target : Option UserInfoResult)
      → i ≢ j
      → get_elem? slots i ≡ some (some s, source)
      → get_elem? slots j ≡ some (some t, target)
      → (a : UserInfoResult) → source ≡ some a
      → All (Justified slots) (sync_valid calls servers t target a.tickets).0
  from_source slots i j s t source target differ here there a e =
      sync_valid-All (Justified slots) t target a.tickets (λ b v f m n. (
        i,
        j,
        s,
        a,
        v,
        b,
        differ,
        subst (λ o. get_elem? slots i ≡ some (some s, o)) e here,
        m,
        refl,
        subst (λ o. get_elem? slots j ≡ some (some t, o)) f there,
        n,
      ))

  sync_from-All :
      (slots : List Slot) (i : ℕ) (s : ℕ) (source : Option UserInfoResult) (j : ℕ)
      (rest : List Slot)
      → get_elem? slots i ≡ some (some s, source)
      → StandsFrom slots j rest
      → All (Justified slots) (sync_from calls servers i source j rest).0
  unfolding sync_from
  sync_from-All slots i s source j [] here from = tt
  sync_from-All slots i s source j ((none, target) ∷ rest) here from =
      sync_from-All slots i s source (suc j) rest here
        (StandsFrom-tail slots j (none, target) rest from)
  sync_from-All slots i s source j ((some t, target) ∷ rest) here from =
      let others =
        sync_from-All slots i s source (suc j) rest here
          (StandsFrom-tail slots j (some t, target) rest from) in
      let there : get_elem? slots j ≡ some (some t, target) = ground (arith, from 0) in
      elim (Option-cases source) [
        | inl e ↦ elim (Bool-cases (nat_beq i j)) [
          | inl same ↦ rw same others
          | inr other ↦ rw (other, e) tt
        ]
        | inr (a, e) ↦ elim (Bool-cases (nat_beq i j)) [
          | inl same ↦ rw same others
          | inr other ↦
              let differ : i ≢ j = λ is. absurd (ground (arith, other, is)) in
              let added = from_source slots i j s t source target differ here there a e in
              rw (other, e)
                (then_added-All (Justified slots) (sync_valid calls servers t target a.tickets)
                  (sync_from calls servers i source (suc j) rest) added others)
        ]
      ]

  sync_each-All :
      (slots : List Slot) (i : ℕ) (rest : List Slot)
      → StandsFrom slots i rest
      → All (Justified slots) (sync_each calls servers slots i rest).0
  unfolding sync_each
  sync_each-All slots i [] from = tt
  sync_each-All slots i ((none, source) ∷ rest) from =
      sync_each-All slots (suc i) rest (StandsFrom-tail slots i (none, source) rest from)
  sync_each-All slots i ((some s, source) ∷ rest) from =
      then_added-All (Justified slots) (sync_from calls servers i source 0 slots)
        (sync_each calls servers slots (suc i) rest)
        (sync_from-All slots i s source 0 slots (ground (arith, from 0)) (λ n. ground arith))
        (sync_each-All slots (suc i) rest (StandsFrom-tail slots i (some s, source) rest from))

  -- `syncTickets` adds a ticket to a wallet only where that wallet answered with the ticket among the
  -- invalid ones and a wallet at another place answered with it among the valid ones.
  pub sync_tickets-Justified :
      (spuirs : List (Option UserInfoResult))
      → All (Justified (zip servers spuirs)) (sync_tickets calls servers spuirs).0
  unfolding sync_tickets
  sync_tickets-Justified spuirs =
      let slots = zip servers spuirs in sync_each-All slots 0 slots (λ n. ground arith)

-- A wallet that lost its connection, before two that answer and are not in sync, takes the program
-- down: `syncTickets` reads the answer that it did not give.
pub stake_pool_user_info_fn_panic :
    {Hash Tx : Type 0} (calls : SyncCalls Hash Tx) (min_servers : ℕ)
    (ask : ℕ → Answer UserInfoResult) (i j k : ℕ) (a b : UserInfoResult)
    → min_servers ≤ 2
    → ask i ≡ fails client_disconnect
    → ask j ≡ answer a
    → ask k ≡ answer b
    → (length a.tickets ≡ length b.tickets → ⊥)
    → (stake_pool_user_info_fn calls (some i ∷ some j ∷ some k ∷ []) min_servers ask).1 ≡ panic
unfolding stake_pool_user_info_fn poll sync_tickets sync_each sync_from check_for_syncness
    all_in_sync in_sync_with
stake_pool_user_info_fn_panic calls min_servers ask i j k a b le p q r differ =
    ground (arith, le, p, q, r, differ)
