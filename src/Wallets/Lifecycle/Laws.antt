-- ===== src/Wallets/Lifecycle/Laws.antt =====
-- How many handlers run, and what `IsStopped` and `CheckServers` say.
use hxstakepool.Prelude.{
  ℕ, zero, suc, ◌+◌, ◌≤◌, ◌<◌, ◌^◌, true, List, [], ◌∷◌, none, some, if◌then◌else◌, nat_beq, ◌≡◌,
  refl, ◌↔◌, arith, get_elem?, inl, inr, ap, subst, nat_beq_iff, Bool-cases,
}
use hxstakepool.Prelude.Result.{Result, ok, Result-cases}
use hxstakepool.Wallets.Types.{RpcError, Server, WalletInfoResult}
use hxstakepool.Wallets.Lifecycle.{
  Manager, new_manager, start, stop, is_stopped, disconnect_wallet_rpc, reconnect_wallet_rpc,
  check_each, check_servers,
}

-- The manager after calls of `Start`.
abbrev pub starts : ℕ → Manager → Manager
starts zero w = w
starts (suc n) w = start (starts n w)

abbrev pub stops : ℕ → Manager → Manager
stops zero w = w
stops (suc n) w = stop (stops n w)

starts_lem :
    (n : ℕ)
    → n < 2 ^ 32
    → ((starts n new_manager).started ≡ n)
      × ((starts n new_manager).handlers ≡ (if nat_beq n 0 then 0 else 1))
      × ((starts n new_manager).shutdown ≡ 0)
      × ((starts n new_manager).quit_closed ≡ 0)
unfolding start
starts_lem zero h = (refl, refl, refl, refl)
starts_lem (suc n) h = ground (arith, h, starts_lem n (omega (arith, h)))

stops_lem :
    (n : ℕ) (w : Manager)
    → n < 2 ^ 32
    → w.shutdown ≡ 0
    → ((stops n w).shutdown ≡ n)
      × ((stops n w).quit_closed ≡ w.quit_closed + (if nat_beq n 0 then 0 else 1))
unfolding stop
stops_lem zero w h z = ground (arith, z)
stops_lem (suc n) w h z = ground (arith, h, stops_lem n w (omega (arith, h)) z)

-- However often `Start` is called, up to the wrap-around of its counter, exactly one goroutine runs
-- the handler; however often `Stop` is called, `quit` is closed once.
pub starts-stops-once :
    (n m : ℕ)
    → n + 1 < 2 ^ 32
    → m + 1 < 2 ^ 32
    → ((starts (n + 1) new_manager).handlers ≡ 1)
      × ((stops (m + 1) (starts (n + 1) new_manager)).quit_closed ≡ 1)
starts-stops-once n m h k =
    let (_, one, running, unclosed) = starts_lem (n + 1) h in
    let (_, closed) = stops_lem (m + 1) (starts (n + 1) new_manager) k running in
    (ground (arith, one), ground (arith, closed, unclosed))

-- A manager that was stopped says so only until `Stop` is called again.
pub is_stopped_iff : (n : ℕ) → n < 2 ^ 32 → (is_stopped (stops n new_manager) ≡ true) ↔ (n ≡ 1)
unfolding is_stopped
is_stopped_iff n h = ground (arith, stops_lem n new_manager h refl)

cons_others :
    {i : ℕ} (s : Server) (back servers : List Server)
    → ((j : ℕ) → (j ≡ i → ⊥) → get_elem? back j ≡ get_elem? servers j)
    → (j : ℕ) → (j ≡ suc i → ⊥)
    → get_elem? (s ∷ back) j ≡ get_elem? (s ∷ servers) j
cons_others s back servers o zero d = refl
cons_others s back servers o (suc j) d = o j (λ e. d (ap suc e))

-- A wallet that was disconnected and is connected again stands in its slot, and the other slots are
-- as before.
pub disconnect-reconnect :
    (i c : ℕ) (servers : List Server) {s : Server}
    → get_elem? servers i ≡ some s
    → (gone : List Server) × (back : List Server) × (disconnect_wallet_rpc i servers ≡ ok gone)
      × (reconnect_wallet_rpc i (some c) gone ≡ ok (back, true))
      × (get_elem? back i ≡ some (some c))
      × ((j : ℕ) → (j ≡ i → ⊥) → get_elem? back j ≡ get_elem? servers j)
unfolding disconnect_wallet_rpc reconnect_wallet_rpc
disconnect-reconnect i c [] e = absurd cc
disconnect-reconnect zero c (s ∷ servers) e =
    (none ∷ servers, some c ∷ servers, refl, refl, refl, others)
  where
    others : (j : ℕ) → (j ≡ 0 → ⊥) → get_elem? (some c ∷ servers) j ≡ get_elem? (s ∷ servers) j
    others zero d = absurd (d refl)
    others (suc j) d = refl
disconnect-reconnect (suc i) c (s ∷ servers) e =
    let (gone, back, p, q, r, o) = disconnect-reconnect i c servers e in
    (s ∷ gone, s ∷ back, ground (arith, p), ground (arith, q), r, cons_others s back servers o)

-- A wallet that answers, is connected to its daemon and is unlocked.
abbrev pub IsServing : (ℕ → Result RpcError WalletInfoResult) → ℕ → Type 0
IsServing info i =
    (w : WalletInfoResult) × (info i ≡ ok w) × (w.daemon_connected ≡ true) × (w.unlocked ≡ true)

check_each-IsServing :
    (info : ℕ → Result RpcError WalletInfoResult) (i left : ℕ)
    → check_each info i left ≡ ok tt
    → (k : ℕ) → i ≤ k
    → k < i + left
    → IsServing info k
unfolding check_each
check_each-IsServing info i zero e k low high = absurd omega (arith, low, high)
check_each-IsServing info i (suc left) e k low high = elim (Result-cases (info i)) [
  | inl (w, p) ↦
      let (q, r, rest) : (w.daemon_connected ≡ true)
          × (w.unlocked ≡ true)
          × (check_each info (i + 1) left ≡ ok tt) =
        ground (arith, e, p, Bool-cases w.daemon_connected, Bool-cases w.unlocked) in
      elim (Bool-cases (nat_beq i k)) [
        | inl same ↦ subst (IsServing info) ((nat_beq_iff i k).0 same) (w, p, q, r)
        | inr other ↦
            check_each-IsServing info (i + 1) left rest k (ground (arith, low, other))
              (omega (arith, high))
      ]
  | inr p ↦ absurd (ground (arith, e, p))
]

IsServing-check_each :
    (info : ℕ → Result RpcError WalletInfoResult) (i left : ℕ)
    → ((k : ℕ) → i ≤ k → k < i + left → IsServing info k)
    → check_each info i left ≡ ok tt
unfolding check_each
IsServing-check_each info i zero all = refl
IsServing-check_each info i (suc left) all =
    let (w, p, q, r) = all i (omega arith) (omega arith) in
    ground (
      arith,
      p,
      q,
      r,
      IsServing-check_each info (i + 1) left
          (λ k low high. all k (omega (arith, low)) (omega (arith, high))),
    )

-- `CheckServers` succeeds exactly where there is a server and every one answers, is connected to its
-- daemon and is unlocked.
pub check_servers_iff :
    (info : ℕ → Result RpcError WalletInfoResult) (servers_len : ℕ)
    → (check_servers info servers_len ≡ ok tt)
      ↔ ((1 ≤ servers_len) × ((k : ℕ) → k < servers_len → IsServing info k))
unfolding check_servers
check_servers_iff info servers_len = elim (Bool-cases (nat_beq servers_len 0)) [
  | inl none_there ↦ (
    λ e. absurd (ground (arith, e, none_there)),
    λ (one, _). absurd (ground (arith, one, none_there)),
  )
  | inr there ↦ (
    λ e. (
      ground (arith, there),
      λ k high.
          check_each-IsServing info 0 servers_len (ground (arith, e, there)) k (omega arith)
            (omega (arith, high)),
    ),
    λ (_, all). ground (
      arith,
      there,
      IsServing-check_each info 0 servers_len (λ k low high. all k (omega (arith, high))),
    ),
  )
]
