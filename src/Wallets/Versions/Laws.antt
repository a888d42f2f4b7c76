-- ===== src/Wallets/Versions/Laws.antt =====
-- What a vote version that is returned says of the wallets.
use hxstakepool.Prelude.{
  ℕ, suc, List, [], ◌∷◌, none, some, nat_beq, ◌≡◌, refl, arith, Member, inl, inr, Bool-cases, subst,
}
use hxstakepool.Prelude.Result.{ok, Result-cases}
use hxstakepool.GoMap.{GoMap}
use hxstakepool.Wallets.Types.{Answer, answer, Answer-cases, Server, WalletInfoResult}
use hxstakepool.Wallets.Versions.{
  get_wallet_vote_version, wallet_vote_versions, same_versions, check_wallets_vote_version,
}

same_versions-from :
    (last v last_server : ℕ) (versions : GoMap ℕ ℕ)
    → same_versions (some last) last_server versions ≡ ok v
    → (last ≡ v) × ((j x : ℕ) → Member (j, x) versions → x ≡ v)
unfolding same_versions
same_versions-from last v last_server [] e = (ground (arith, e), λ j x m. elim m [ ])
same_versions-from last v last_server ((i, y) ∷ versions) e = elim (Bool-cases (nat_beq y last)) [
  | inr other ↦ absurd (ground (arith, e, other))
  | inl same ↦
      let (p, all) = same_versions-from last v i versions (ground (arith, e, same)) in
      (p, λ j x m. elim m [ inl here ↦ ground (arith, here, same, p) | inr later ↦ all j x later ])
]

same_versions-all :
    (v : ℕ) (versions : GoMap ℕ ℕ)
    → same_versions none 0 versions ≡ ok v
    → (j x : ℕ) → Member (j, x) versions
    → x ≡ v
unfolding same_versions
same_versions-all v [] e j x m = elim m [ ]
same_versions-all v ((i, y) ∷ versions) e j x (inl here) =
    let (p, _) = same_versions-from y v i versions e in ground (arith, here, p)
same_versions-all v ((i, y) ∷ versions) e j x (inr later) =
    (same_versions-from y v i versions e).1 j x later

module _ (info : ℕ → Answer WalletInfoResult) where
  wallet_vote_versions-Member :
      (i : ℕ) (servers : List Server) (versions : GoMap ℕ ℕ) (s : ℕ)
      → wallet_vote_versions info i servers ≡ ok versions
      → Member (some s) servers
      → (w : WalletInfoResult) × (j : ℕ) × (info s ≡ answer w) × Member (j, w.vote_version) versions
  unfolding wallet_vote_versions get_wallet_vote_version
  wallet_vote_versions-Member i [] versions s e m = elim m [ ]
  wallet_vote_versions-Member i (none ∷ servers) versions s e (inl no_one) = absurd cc
  wallet_vote_versions-Member i (none ∷ servers) versions s e (inr m) =
      wallet_vote_versions-Member (suc i) servers versions s e m
  wallet_vote_versions-Member i (some t ∷ servers) versions s e m = elim (Answer-cases (info t)) [
    | inr (x, f) ↦ absurd (ground (arith, e, f))
    | inl (w, f) ↦ elim (Result-cases (wallet_vote_versions info (suc i) servers)) [
      | inr g ↦ absurd (ground (arith, e, f, g))
      | inl (rest, g) ↦
          let all : (i, w.vote_version) ∷ rest ≡ versions = ground (arith, e, f, g) in
          elim m [
            | inl same ↦
                let alike : t ≡ s = ground (arith, same) in
                (
                  w,
                  i,
                  subst (λ x. info x ≡ answer w) alike f,
                  subst (λ x. Member (i, w.vote_version) x) all (inl refl),
                )
            | inr later ↦
                let (u, j, h, n) = wallet_vote_versions-Member (suc i) servers rest s g later in
                (u, j, h, subst (λ x. Member (j, u.vote_version) x) all (inr n))
          ]
    ]
  ]

  -- A vote version that is returned is that of every wallet that is there, in whatever order the map
  -- of the versions is visited.
  pub check_wallets_vote_version-all :
      (visit : GoMap ℕ ℕ → GoMap ℕ ℕ)
      (visits : (m : GoMap ℕ ℕ) (x : ℕ × ℕ) → Member x m → Member x (visit m))
      (servers : List Server) (v s : ℕ)
      → check_wallets_vote_version visit info servers ≡ ok v
      → Member (some s) servers
      → (w : WalletInfoResult) × (info s ≡ answer w) × (w.vote_version ≡ v)
  unfolding check_wallets_vote_version
  check_wallets_vote_version-all visit visits servers v s e m =
      elim (Result-cases (wallet_vote_versions info 0 servers)) [
        | inr f ↦ absurd (ground (arith, e, f))
        | inl (versions, f) ↦
            let (w, j, g, n) = wallet_vote_versions-Member 0 servers versions s f m in
            (
              w,
              g,
              same_versions-all v (visit versions) (ground (arith, e, f)) j w.vote_version
                  (visits versions (j, w.vote_version) n),
            )
      ]
