-- ===== src/Controllers/VoteBits/Sweep.antt =====
-- What a check and reset of all users leaves.
use hxstakepool.Prelude.{
  ℕ, ◌+◌, ◌≤◌, ◌<◌, ◌^◌, string_eq, nat_eq, Bool, true, false, List, [], some, zero, suc, nat_beq,
  ◌==◌, ◌≡◌, ◌≢◌, refl, ◌⊎◌, inl, inr, arith, Bool-cases, Option-cases, subst, sym, ◌∙◌,
  nat_beq_iff, ==_iff,
}
use hxstakepool.GoMap.{IsMap, GoMap, lookup, put}
use hxstakepool.GoMap.Laws.{put-IsMap, lookup-put}
use hxstakepool.Grpc.Client.{DbUser}
use hxstakepool.Controllers.VoteBits.{
  Deployment, Users, reset_user, reset_users, users_with_address, check_and_reset_user_vote_bits,
}
use hxstakepool.Controllers.VoteBits.Reset.{IsCurrent, reset_user-Resets}

module _ (update_works : ℕ → Bool) (deployments : GoMap ℕ (List Deployment)) (vote_version : ℕ)
    (small : vote_version < 2 ^ 32) where
  -- A sweep without an error leaves the rows in its range current; it leaves those before as they were.
  abbrev Sweeps : (userid left : ℕ) → Users → Users × Bool → Type 0
  Sweeps userid left db after =
      (after.1 ≡ true
        → (j : ℕ) (u : DbUser) → userid ≤ j
        → j < userid + left
        → lookup j after.0 ≡ some u
        → IsCurrent deployments vote_version u)
      × ((j : ℕ) → j < userid → lookup j after.0 ≡ lookup j db)

  Sweeps-step :
      (userid left : ℕ) (db db2 : Users) (after : Users × Bool)
      → ((u : DbUser) → lookup userid db2 ≡ some u → IsCurrent deployments vote_version u)
      → ((j : ℕ) → j ≢ userid → lookup j db2 ≡ lookup j db)
      → Sweeps (userid + 1) left db2 after
      → Sweeps userid (suc left) db after
  Sweeps-step userid left db db2 after row others (later, before) = (
    λ fine j u low high e. elim (Bool-cases (nat_beq userid j)) [
      | inl same ↦
          let alike : userid ≡ j = (nat_beq_iff userid j).0 same in
          row u (ground (arith, e, alike, before userid (omega arith)))
      | inr other ↦ later fine j u (ground (arith, low, other)) (omega (arith, high)) e
    ],
    λ j h. before j (omega (arith, h)) ∙ others j (ground (arith, h)),
  )

  reset_users-Sweeps :
      (userid left : ℕ) (db : Users)
      → Sweeps userid left db (reset_users update_works deployments vote_version userid left db)
  unfolding reset_users
  reset_users-Sweeps userid zero db =
      (λ _ j u low high e. absurd omega (arith, low, high), λ j h. refl)
  reset_users-Sweeps userid (suc left) db =
      let all = reset_users update_works deployments vote_version userid (suc left) db in
      elim (Option-cases (lookup userid db)) [
        | inl missing ↦
            let e : all ≡ reset_users update_works deployments vote_version (userid + 1) left db =
              ground (arith, missing) in
            subst (Sweeps userid (suc left) db) (sym e) (
              Sweeps-step userid left db db _ (λ u f. absurd (ground (arith, missing, f)))
                (λ j other. refl) (reset_users-Sweeps (userid + 1) left db))
        | inr (user, there) ↦
            let step = reset_user update_works deployments vote_version db userid user in
            let (current, others) =
              reset_user-Resets update_works deployments vote_version small db userid user there in
            elim (Bool-cases step.1) [
              | inl fine ↦
                  let e : all
                      ≡ reset_users update_works deployments vote_version (userid + 1) left step.0 =
                    ground (arith, there, fine) in
                  subst (Sweeps userid (suc left) db) (sym e) (
                    Sweeps-step userid left db step.0 _ (current fine) others
                      (reset_users-Sweeps (userid + 1) left step.0))
              | inr failed ↦
                  let e : all ≡ (step.0, false) = ground (arith, there, failed) in
                  subst (Sweeps userid (suc left) db) (sym e)
                    (λ fine j u low high f. absurd cc, λ j h. others j (ground (arith, h)))
            ]
      ]

  users_with_address-lookup :
      (userid left : ℕ) (db acc : Users) (j : ℕ) (u : DbUser)
      → lookup j (users_with_address update_works deployments vote_version userid left db acc)
        ≡ some u
      → (lookup j acc ≡ some u)
        ⊎ ((userid ≤ j) × (j < userid + left) × (lookup j db ≡ some u) × (u.multi_sig_address ≢ ""))
  unfolding users_with_address
  users_with_address-lookup userid zero db acc j u e = inl e
  users_with_address-lookup userid (suc left) db acc j u e =
      elim (Option-cases (lookup userid db)) [
        | inl missing ↦
            elim (users_with_address-lookup (userid + 1) left db acc j u
              (ground (arith, e, missing))) [
                | inl old ↦ inl old
                | inr (low, high, f, address) ↦
                    inr (omega (arith, low), omega (arith, high), f, address)
              ]
        | inr (user, there) ↦ elim (Bool-cases (user.multi_sig_address == "")) [
          | inl nameless ↦
              elim (users_with_address-lookup (userid + 1) left db acc j u
                (ground (arith, e, there, nameless))) [
                  | inl old ↦ inl old
                  | inr (low, high, f, address) ↦
                      inr (omega (arith, low), omega (arith, high), f, address)
                ]
          | inr named ↦
              elim (users_with_address-lookup (userid + 1) left db (put userid user acc) j u
                (ground (arith, e, there, named))) [
                  | inl old ↦ ground (
                    arith,
                    old,
                    there,
                    named,
                    lookup-put userid j user acc,
                    nat_beq_iff userid j,
                    ==_iff user.multi_sig_address "",
                  )
                  | inr (low, high, f, address) ↦
                      inr (omega (arith, low), omega (arith, high), f, address)
                ]
        ]
      ]

  -- A user that a check and reset without an error returns is one of the table's, with an address, and
  -- has settings for the wallets' vote version, valid for its agendas.
  pub check_and_reset_user_vote_bits_sound :
      (user_max : ℕ) (db : Users) {all_users : Users} (j : ℕ) (u : DbUser)
      → let after =
          check_and_reset_user_vote_bits update_works deployments vote_version user_max db in
        after.1 ≡ some all_users
        → lookup j all_users ≡ some u
        → (lookup j after.0 ≡ some u)
          × (u.multi_sig_address ≢ "")
          × IsCurrent deployments vote_version u
  unfolding check_and_reset_user_vote_bits
  check_and_reset_user_vote_bits_sound user_max db {all_users} j u e f =
      let swept = reset_users update_works deployments vote_version 1 user_max db in
      let (fine, same) : (swept.1 ≡ true)
          × (users_with_address update_works deployments vote_version 1 user_max swept.0 []
              ≡ all_users) =
        ground (arith, e, Bool-cases swept.1) in
      elim (users_with_address-lookup 1 user_max swept.0 [] j u (ground (arith, f, same))) [
        | inl nothing ↦ absurd (unfold lookup in cc)
        | inr (low, high, there, address) ↦ (
          ground (arith, fine, there),
          address,
          (reset_users-Sweeps 1 user_max db).0 fine j u low high there,
        )
      ]

  users_with_address-IsMap :
      (userid left : ℕ) (db acc : Users)
      → IsMap acc
      → IsMap (users_with_address update_works deployments vote_version userid left db acc)
  unfolding users_with_address
  users_with_address-IsMap userid zero db acc once = once
  users_with_address-IsMap userid (suc left) db acc once =
      let next : Users → Users =
        users_with_address update_works deployments vote_version (userid + 1) left db in
      let all = users_with_address update_works deployments vote_version userid (suc left) db acc in
      elim (Option-cases (lookup userid db)) [
        | inl missing ↦
            let e : all ≡ next acc = ground (arith, missing) in
            subst IsMap (sym e) (users_with_address-IsMap (userid + 1) left db acc once)
        | inr (user, there) ↦ elim (Bool-cases (user.multi_sig_address == "")) [
          | inl nameless ↦
              let e : all ≡ next acc = ground (arith, there, nameless) in
              subst IsMap (sym e) (users_with_address-IsMap (userid + 1) left db acc once)
          | inr named ↦
              let e : all ≡ next (put userid user acc) = ground (arith, there, named) in
              subst IsMap (sym e) (
                users_with_address-IsMap (userid + 1) left db (put userid user acc)
                  (put-IsMap userid user acc once))
        ]
      ]

  pub check_and_reset_user_vote_bits-IsMap :
      (user_max : ℕ) (db : Users) {all_users : Users}
      → (check_and_reset_user_vote_bits update_works deployments vote_version user_max db).1
        ≡ some all_users
      → IsMap all_users
  unfolding check_and_reset_user_vote_bits
  check_and_reset_user_vote_bits-IsMap user_max db {all_users} e =
      let swept = reset_users update_works deployments vote_version 1 user_max db in
      let same : users_with_address update_works deployments vote_version 1 user_max swept.0 []
          ≡ all_users =
        ground (arith, e, Bool-cases swept.1) in
      subst IsMap same (users_with_address-IsMap 1 user_max swept.0 [] tt)
