-- ===== src/Wallets/Queries/Laws.antt =====
-- When the readiness check ahead of a request lets it through, and when it takes the program down.
use hxstakepool.Prelude.{
  ℕ, ◌+◌, ◌≤◌, Bool, true, false, not, ◌&&◌, List, [], ◌∷◌, none, some, ◌≡◌, refl, ◌↔◌, arith, All,
  length, inl, inr, Bool-cases, Option-cases,
}
use hxstakepool.Prelude.Result.{Result, ok, panic}
use hxstakepool.GoMap.{is_some}
use hxstakepool.Wallets.Types.{Answer, Answer-cases, is_down, Server, SvrError, WalletInfoResult}
use hxstakepool.Wallets.Poll.{poll}
use hxstakepool.Wallets.Poll.Laws.{heard_from, IsFine, IsFine-poll, poll-ok}
use hxstakepool.Wallets.Queries.{check_wallets, connected_fn, connected, after_connected}

abbrev pub is_ready : WalletInfoResult → Bool
is_ready w = w.daemon_connected && w.unlocked

abbrev pub all_ready : List WalletInfoResult → Bool
all_ready [] = true
all_ready (w ∷ rest) = is_ready w && all_ready rest

module _ (info : ℕ → Answer WalletInfoResult) where
  check_wallets-ready :
      (i : ℕ) (servers : List Server)
      → (poll info servers).failure ≡ none
      → is_some (check_wallets i (poll info servers).answers)
        ≡ not (all_ready (heard_from info servers))
  unfolding poll check_wallets
  check_wallets-ready i [] e = refl
  check_wallets-ready i (none ∷ servers) e = check_wallets-ready (i + 1) servers e
  check_wallets-ready i (some s ∷ servers) e = elim (Answer-cases (info s)) [
    | inl (w, p) ↦ ground (
      arith,
      e,
      p,
      Bool-cases w.daemon_connected,
      Bool-cases w.unlocked,
      check_wallets-ready (i + 1) servers (ground (arith, e, p)),
    )
    | inr (x, p) ↦ elim (Bool-cases (is_down x)) [
      | inl d ↦
          ground (arith, e, p, d, check_wallets-ready (i + 1) servers (ground (arith, e, p, d)))
      | inr d ↦ absurd (ground (arith, e, p, d))
    ]
  ]

  -- The readiness check panics exactly where no wallet refuses, at least `min_servers` answer, and one
  -- of those that answer is not connected to its daemon or is locked.
  pub connected_panic_iff :
      (min_servers : ℕ) (servers : List Server)
      → (connected min_servers info servers ≡ panic) ↔ (
          All (IsFine info) servers
          × (min_servers ≤ length (heard_from info servers))
          × (all_ready (heard_from info servers) ≡ false))
  unfolding connected connected_fn
  connected_panic_iff min_servers servers = (
    λ e. elim (Option-cases (poll info servers).failure) [
      | inr (x, p) ↦ absurd (ground (arith, e, p))
      | inl p ↦
          let (fine, count, head) = poll-ok info servers p in
          let checked = check_wallets-ready 0 servers p in
          (
            fine,
            ground (arith, e, p, count),
            ground (
              arith,
              e,
              p,
              count,
              checked,
              Option-cases (check_wallets 0 (poll info servers).answers),
            ),
          )
    ],
    λ (fine, enough, unready).
        let p = IsFine-poll info servers fine in
        let (_, count, _) = poll-ok info servers p in
        ground (
          arith,
          p,
          count,
          enough,
          unready,
          check_wallets-ready 0 servers p,
          Option-cases (check_wallets 0 (poll info servers).answers),
        ),
  )

  -- A request behind the readiness check that returns a value ran with no wallet that refuses, with
  -- at least `min_servers` that answer, and with all of these connected and unlocked; the value is the
  -- request's own.
  pub after_connected_ok :
      {A : Type 0} (min_servers : ℕ) (servers : List Server) (rest : Result SvrError A) {a : A}
      → after_connected (connected min_servers info servers) rest ≡ ok a
      → All (IsFine info) servers
        × (min_servers ≤ length (heard_from info servers))
        × (all_ready (heard_from info servers) ≡ true)
        × (rest ≡ ok a)
  unfolding connected connected_fn after_connected
  after_connected_ok min_servers servers rest e = elim (Option-cases (poll info servers).failure) [
    | inr (x, p) ↦ absurd (ground (arith, e, p))
    | inl p ↦
        let (fine, count, head) = poll-ok info servers p in
        let checked = check_wallets-ready 0 servers p in
        let cases = Option-cases (check_wallets 0 (poll info servers).answers) in
        (
          fine,
          ground (arith, e, p, count),
          ground (arith, e, p, count, checked, cases),
          ground (arith, e, p, count, cases),
        )
  ]
