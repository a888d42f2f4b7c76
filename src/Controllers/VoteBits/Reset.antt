-- ===== src/Controllers/VoteBits/Reset.antt =====
-- What a check and reset of one user leaves: settings for the wallets' vote version with valid bits.
use hxstakepool.Prelude.{
  ℕ, ◌<◌, ◌^◌, string_eq, nat_eq, Bool, true, false, List, some, if◌then◌else◌, nat_beq, ◌==◌, ◌≡◌,
  ◌≢◌, refl, ◌⊎◌, inl, inr, arith, Bool-cases, subst, sym, ◌∙◌, nat_beq_iff,
}
use hxstakepool.Prelude.Words.{uint16, uint32}
use hxstakepool.GoMap.{GoMap, lookup}
use hxstakepool.GoMap.Laws.{lookup-put}
use hxstakepool.Grpc.Client.{DbUser}
use hxstakepool.Controllers.VoteBits.{
  Deployment, is_valid_vote_bits, get_agendas, Users, update_vote_bits_by_id,
  update_vote_bits_version_by_id, reset_user,
}

module _ (deployments : GoMap ℕ (List Deployment)) (vote_version : ℕ) where
  -- The settings of a user are for the wallets' vote version, and valid for its agendas.
  abbrev pub IsCurrent : DbUser → Type 0
  IsCurrent user =
      (uint32 user.vote_bits_version ≡ vote_version)
      × (is_valid_vote_bits (get_agendas deployments vote_version) (uint16 user.vote_bits) ≡ true)

module _ (update_works : ℕ → Bool) (deployments : GoMap ℕ (List Deployment)) (vote_version : ℕ)
    (small : vote_version < 2 ^ 32) where
  default-valid : (agendas : List Deployment) → is_valid_vote_bits agendas 1 ≡ true
  unfolding is_valid_vote_bits
  default-valid agendas = refl

  -- An update stores the row with its new field, or fails and changes nothing.
  abbrev Stores : Users → ℕ → DbUser → Users × Bool → Type 0
  Stores db id new updated =
      ((updated.1 ≡ true)
        × ((j : ℕ) → lookup j updated.0 ≡ (if id == j then some new else lookup j db)))
      ⊎ ((updated.1 ≡ false) × (updated.0 ≡ db))

  update_vote_bits_by_id-Stores :
      (db : Users) (id bits : ℕ) (user : DbUser)
      → lookup id db ≡ some user
      → Stores db id
          (record user { vote_bits = bits })
          (update_vote_bits_by_id update_works db id bits)
  unfolding update_vote_bits_by_id
  update_vote_bits_by_id-Stores db id bits user there = elim (Bool-cases (update_works id)) [
    | inl works ↦ inl (
      ground (arith, there, works),
      λ j. ground (arith, there, works, lookup-put id j (record user { vote_bits = bits }) db),
    )
    | inr fails ↦ inr (ground (arith, there, fails), ground (arith, there, fails))
  ]

  update_vote_bits_version_by_id-Stores :
      (db : Users) (id version : ℕ) (user : DbUser)
      → lookup id db ≡ some user
      → Stores db id
          (record user { vote_bits_version = version })
          (update_vote_bits_version_by_id update_works db id version)
  unfolding update_vote_bits_version_by_id
  update_vote_bits_version_by_id-Stores db id version user there =
      elim (Bool-cases (update_works id)) [
        | inl works ↦ inl (
          ground (arith, there, works),
          λ j. ground (
            arith,
            there,
            works,
            lookup-put id j (record user { vote_bits_version = version }) db,
          ),
        )
        | inr fails ↦ inr (ground (arith, there, fails), ground (arith, there, fails))
      ]

  -- A round that ends without an error leaves its row current, and the other rows as they were.
  abbrev pub Resets : Users → ℕ → Users × Bool → Type 0
  Resets db id updated =
      (updated.1 ≡ true
        → (u : DbUser) → lookup id updated.0 ≡ some u
        → IsCurrent deployments vote_version u)
      × ((j : ℕ) → j ≢ id → lookup j updated.0 ≡ lookup j db)

  Stores-Resets :
      (db : Users) (id : ℕ) (new : DbUser) (updated : Users × Bool)
      → IsCurrent deployments vote_version new
      → Stores db id new updated
      → Resets db id updated
  Stores-Resets db id new updated current (inl (fine, stored)) = (
    λ _ u e.
        (let same : new ≡ u = ground (arith, e, stored id, nat_beq_iff id id) in
          subst (IsCurrent deployments vote_version) same current),
    λ j other. ground (arith, other, stored j, nat_beq_iff id j),
  )
  Stores-Resets db id new updated current (inr (failed, same)) =
      (λ fine u e. absurd cc, λ j other. ground (arith, same))

  Resets-after :
      (db db2 : Users) (id : ℕ) (updated : Users × Bool)
      → ((j : ℕ) → j ≢ id → lookup j db2 ≡ lookup j db)
      → Resets db2 id updated
      → Resets db id updated
  Resets-after db db2 id updated before (current, others) =
      (current, λ j other. others j other ∙ before j other)

  -- The branch for another vote version.
  reset_version-Resets :
      (db : Users) (userid : ℕ) (user : DbUser)
      → lookup userid db ≡ some user
      → nat_beq (uint32 user.vote_bits_version) vote_version ≡ false
      → Resets db userid (reset_user update_works deployments vote_version db userid user)
  unfolding reset_user
  reset_version-Resets db userid user there old =
      let new : DbUser = record user { vote_bits_version = vote_version } in
      let first = update_vote_bits_version_by_id update_works db userid vote_version in
      let this_version : uint32 vote_version ≡ vote_version = omega (arith, small) in
      elim (update_vote_bits_version_by_id-Stores db userid vote_version user there) [
        | inr (failed, unchanged) ↦
            let e : reset_user update_works deployments vote_version db userid user
                ≡ (first.0, false) =
              ground (arith, old, failed) in
            subst (Resets db userid) (sym e)
              (λ fine u f. absurd cc, λ j other. ground (arith, unchanged))
        | inl (fine, stored) ↦ elim (Bool-cases (nat_beq (uint16 user.vote_bits) 1)) [
          | inl one ↦
              let e : reset_user update_works deployments vote_version db userid user
                  ≡ (first.0, true) =
                ground (arith, old, fine, one) in
              let bits : uint16 user.vote_bits ≡ 1 = (nat_beq_iff _ 1).0 one in
              subst (Resets db userid) (sym e) (
                Stores-Resets db userid new (first.0, true)
                  (this_version, rw (bits) (default-valid (get_agendas deployments vote_version)))
                  (inl (refl, stored)))
          | inr many ↦
              let e : reset_user update_works deployments vote_version db userid user
                  ≡ update_vote_bits_by_id update_works first.0 userid 1 =
                ground (arith, old, fine, many) in
              let second =
                update_vote_bits_by_id-Stores first.0 userid 1 new
                  (ground (arith, stored userid, nat_beq_iff userid userid)) in
              subst (Resets db userid) (sym e) (
                Resets-after db first.0 userid
                  (update_vote_bits_by_id update_works first.0 userid 1)
                  (λ j other. ground (arith, other, stored j, nat_beq_iff userid j))
                  (Stores-Resets first.0 userid (record new { vote_bits = 1 })
                    (update_vote_bits_by_id update_works first.0 userid 1)
                    (this_version, default-valid (get_agendas deployments vote_version)) second))
        ]
      ]

  pub reset_user-Resets :
      (db : Users) (userid : ℕ) (user : DbUser)
      → lookup userid db ≡ some user
      → Resets db userid (reset_user update_works deployments vote_version db userid user)
  unfolding reset_user
  reset_user-Resets db userid user there =
      let reset = reset_user update_works deployments vote_version db userid user in
      elim (Bool-cases (nat_beq (uint32 user.vote_bits_version) vote_version)) [
        | inr old ↦ reset_version-Resets db userid user there old
        | inl same ↦
            let version : uint32 user.vote_bits_version ≡ vote_version =
              (nat_beq_iff _ vote_version).0 same in
            elim (Bool-cases
              (is_valid_vote_bits (get_agendas deployments vote_version) (uint16 user.vote_bits))) [
                | inl valid ↦
                    let e : reset ≡ (db, true) = ground (arith, same, valid) in
                    subst (Resets db userid) (sym e) (
                      λ _ u f.
                          (let alike : user ≡ u = ground (arith, f, there) in
                            subst (IsCurrent deployments vote_version) alike (version, valid)),
                      λ j other. refl,
                    )
                | inr invalid ↦
                    let e : reset ≡ update_vote_bits_by_id update_works db userid 1 =
                      ground (arith, same, invalid) in
                    subst (Resets db userid) (sym e) (
                      Stores-Resets db userid (record user { vote_bits = 1 })
                        (update_vote_bits_by_id update_works db userid 1)
                        (version, default-valid (get_agendas deployments vote_version))
                        (update_vote_bits_by_id-Stores db userid 1 user there))
              ]
      ]
