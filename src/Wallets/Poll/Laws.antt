-- ===== src/Wallets/Poll/Laws.antt =====
-- What a request that succeeds says of the wallets.
use hxstakepool.Prelude.{
  ℕ, ◌≤◌, String, Bool, true, List, [], ◌∷◌, map, Option, none, some, ◌≡◌, refl, arith, All, length,
  get_elem?, ◌⊎◌, inl, inr, Bool-cases, Option-cases, ◌==◌, string_eq, ==_iff, subst, sym,
}
use hxstakepool.Prelude.Result.{ok}
use hxstakepool.Wallets.Types.{Answer, answer, fails, Answer-cases, RpcError, is_down, Server}
use hxstakepool.Wallets.Poll.{poll, neighbours_agree, first_answer, ask_all}

module _ {A : Type 0} (ask : ℕ → Answer A) where
  -- The answers that reach the caller: those of the wallets that are there and connected.
  abbrev pub heard_from : List Server → List A
  heard_from [] = []
  heard_from (none ∷ servers) = heard_from servers
  heard_from (some s ∷ servers) = elim (ask s) [
    | answer a ↦ a ∷ heard_from servers
    | fails e ↦ heard_from servers
  ]

  -- A wallet is absent, has answered, or is down.
  abbrev pub IsFine : Server → Type 0
  IsFine none = Unit
  IsFine (some s) =
      ((a : A) × (ask s ≡ answer a)) ⊎ ((e : RpcError) × (ask s ≡ fails e) × (is_down e ≡ true))

  -- A wallet that is there and has answered.
  abbrev pub Answers : Server → Type 0
  Answers none = ⊥
  Answers (some s) = (a : A) × (ask s ≡ answer a)

  pub poll-ok :
      (servers : List Server)
      → (poll ask servers).failure ≡ none
      → All IsFine servers
        × ((poll ask servers).connect_count ≡ length (heard_from servers))
        × (first_answer (poll ask servers).answers ≡ get_elem? (heard_from servers) 0)
  unfolding poll first_answer
  poll-ok [] e = (tt, refl, refl)
  poll-ok (none ∷ servers) e =
      let (fine, count, head) = poll-ok servers e in ((tt, fine), count, head)
  poll-ok (some s ∷ servers) e = elim (Answer-cases (ask s)) [
    | inl (a, p) ↦
        let (fine, count, head) = poll-ok servers (ground (arith, e, p)) in
        ((inl (a, p), fine), ground (arith, p, count), ground (arith, p))
    | inr (x, p) ↦ elim (Bool-cases (is_down x)) [
      | inl d ↦
          let (fine, count, head) = poll-ok servers (ground (arith, e, p, d)) in
          ((inr (x, p, d), fine), ground (arith, p, d, count), ground (arith, p, d, head))
      | inr d ↦ absurd (ground (arith, e, p, d))
    ]
  ]

  pub IsFine-poll : (servers : List Server) → All IsFine servers → (poll ask servers).failure ≡ none
  unfolding poll
  IsFine-poll [] fine = refl
  IsFine-poll (none ∷ servers) (_, fine) = IsFine-poll servers fine
  IsFine-poll (some s ∷ servers) (inl (a, p), fine) = ground (arith, p, IsFine-poll servers fine)
  IsFine-poll (some s ∷ servers) (inr (e, p, d), fine) =
      ground (arith, p, d, IsFine-poll servers fine)

  -- The answers of wallets that all answer.
  poll-Answers :
      (servers : List Server)
      → All Answers servers
      → ((poll ask servers).failure ≡ none)
        × ((poll ask servers).answers ≡ map some (heard_from servers))
  unfolding poll
  poll-Answers [] _ = (refl, refl)
  poll-Answers (none ∷ servers) (no_one, _) = absurd no_one
  poll-Answers (some s ∷ servers) ((a, p), all) =
      let (e, q) = poll-Answers servers all in (ground (arith, p, e), ground (arith, p, q))

module _ {A : Type 0} where
  -- A request that succeeds was answered by at least `min_servers` wallets and refused by none: every
  -- wallet is absent, down or has answered, and the result is the answer of the first that did.
  pub ask_all-ok :
      (min_servers : ℕ) (same : A → A → Bool) (ask : ℕ → Answer A) (servers : List Server)
      {r : Option A}
      → ask_all min_servers same ask servers ≡ ok r
      → All (IsFine ask) servers
        × (min_servers ≤ length (heard_from ask servers))
        × (r ≡ get_elem? (heard_from ask servers) 0)
  unfolding ask_all
  ask_all-ok min_servers same ask servers {r} e = elim (Option-cases (poll ask servers).failure) [
    | inr (x, p) ↦ absurd (ground (arith, e, p))
    | inl p ↦
        let (fine, count, head) = poll-ok ask servers p in
        (
          fine,
          ground (arith, e, p, count),
          ground (arith, e, p, head, Bool-cases (neighbours_agree same (poll ask servers).answers)),
        )
  ]

  -- Neighbours that agree on a text all have the text of the first.
  neighbours_agree-All :
      (key : A → String) (a : A) (rest : List A)
      → neighbours_agree (λ x y. key x == key y) (map some (a ∷ rest)) ≡ true
      → All (λ x. key x ≡ key a) (a ∷ rest)
  unfolding neighbours_agree
  neighbours_agree-All key a [] e = (refl, tt)
  neighbours_agree-All key a (b ∷ rest) e =
      let same : key a ≡ key b = (==_iff (key a) (key b)).0 (ground (arith, e)) in
      let others = neighbours_agree-All key b rest (ground (arith, e)) in
      (refl, subst (λ k. All (λ x. key x ≡ k) (b ∷ rest)) (sym same) others)

  agree-first :
      (key : A → String) (l : List A) {a : A}
      → neighbours_agree (λ x y. key x == key y) (map some l) ≡ true
      → first_answer (map some l) ≡ some a
      → All (λ x. key x ≡ key a) l
  unfolding first_answer
  agree-first key [] agree first = tt
  agree-first key (b ∷ rest) {a} agree first =
      let same : b ≡ a = cc in
      subst (λ c. All (λ x. key x ≡ key c) (b ∷ rest)) same (neighbours_agree-All key b rest agree)

  -- Where all wallets answer, a request whose answers are compared by a text returns only where the
  -- answers of all of them have the same text as the answer that it returns.
  pub ask_all-agree :
      (min_servers : ℕ) (key : A → String) (ask : ℕ → Answer A) (servers : List Server) {a : A}
      → All (Answers ask) servers
      → ask_all min_servers (λ x y. key x == key y) ask servers ≡ ok (some a)
      → All (λ x. key x ≡ key a) (heard_from ask servers)
  unfolding ask_all
  ask_all-agree min_servers key ask servers {a} all e =
      let (p, q) = poll-Answers ask servers all in
      let same : A → A → Bool = λ x y. key x == key y in
      let agree : neighbours_agree same (poll ask servers).answers ≡ true =
        ground (arith, e, p, Bool-cases (neighbours_agree same (poll ask servers).answers)) in
      agree-first key (heard_from ask servers) (ground (arith, q, agree))
        (ground (arith, e, p, q, agree))
