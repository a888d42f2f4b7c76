-- ===== src/Controllers/VoteBits/Listed.antt =====
-- Who is among the users that a check and reset returns, and who stays as before.
use hxstakepool.Prelude.{
  ℕ, zero, suc, ◌+◌, ◌≤◌, ◌<◌, ◌^◌, ◌∙◌, subst, string_eq, nat_eq, nat_beq, nat_beq_iff, Bool, true,
  List, some, ◌==◌, ==_iff, ◌≡◌, ◌≢◌, refl, arith, inl, inr, Bool-cases, Option-cases,
}
use hxstakepool.Prelude.Words.{uint32}
use hxstakepool.GoMap.{GoMap, lookup, put}
use hxstakepool.GoMap.Laws.{lookup-put}
use hxstakepool.Grpc.Client.{DbUser}
use hxstakepool.Controllers.VoteBits.{
  Deployment, Users, users_with_address, reset_user, reset_users,
}
use hxstakepool.Controllers.VoteBits.Reset.{IsCurrent, reset_user-Resets}

module _ (update_works : ℕ → Bool) (deployments : GoMap ℕ (List Deployment))
    (vote_version : ℕ) where
  -- The users from `userid` on leave those before alone.
  users_with_address-before :
      (userid left : ℕ) (db acc : Users) (j : ℕ)
      → j < userid
      → lookup j (users_with_address update_works deployments vote_version userid left db acc)
        ≡ lookup j acc
  unfolding users_with_address
  users_with_address-before userid zero db acc j low = refl
  users_with_address-before userid (suc left) db acc j low =
      let rest = users_with_address-before (userid + 1) left db in
      let low2 : j < userid + 1 = omega (arith, low) in
      elim (Option-cases (lookup userid db)) [
        | inl missing ↦ ground (arith, missing, rest acc j low2)
        | inr (user, there) ↦ ground (
          arith,
          low,
          there,
          rest acc j low2,
          rest (put userid user acc) j low2,
          lookup-put userid j user acc,
          Bool-cases (user.multi_sig_address == ""),
        )
      ]

  -- A user in the range who has an address is among them.
  pub users_with_address_complete :
      (userid left : ℕ) (db acc : Users) (j : ℕ) (u : DbUser)
      → userid ≤ j
      → j < userid + left
      → lookup j db ≡ some u
      → u.multi_sig_address ≢ ""
      → lookup j (users_with_address update_works deployments vote_version userid left db acc)
        ≡ some u
  unfolding users_with_address
  users_with_address_complete userid zero db acc j u low high there named =
      absurd omega (arith, low, high)
  users_with_address_complete userid (suc left) db acc j u low high there named =
      elim (Bool-cases (nat_beq userid j)) [
        | inl same ↦
            let is : userid ≡ j = (nat_beq_iff userid j).0 same in
            let at : lookup userid db ≡ some u = ground (arith, there, is) in
            ground (
              arith,
              at,
              same,
              named,
              is,
              ==_iff u.multi_sig_address "",
              lookup-put userid j u acc,
              users_with_address-before (userid + 1) left db (put userid u acc) j
                  (omega (arith, is)),
            )
        | inr other ↦
            let low2 : userid + 1 ≤ j = ground (arith, low, other) in
            let high2 : j < userid + 1 + left = omega (arith, high) in
            let rest = λ (acc2 : Users).
              users_with_address_complete (userid + 1) left db acc2 j u low2 high2 there named in
            elim (Option-cases (lookup userid db)) [
              | inl missing ↦ ground (arith, missing, rest acc)
              | inr (user, row) ↦ ground (
                arith,
                row,
                rest acc,
                rest (put userid user acc),
                Bool-cases (user.multi_sig_address == ""),
              )
            ]
      ]

  module _ (small : vote_version < 2 ^ 32) where
    reset_user-current :
        (db : Users) (uid : ℕ) (user : DbUser)
        → IsCurrent deployments vote_version user
        → reset_user update_works deployments vote_version db uid user ≡ (db, true)
    unfolding reset_user
    reset_user-current db uid user (version, valid) =
        ground (arith, valid, (nat_beq_iff (uint32 user.vote_bits_version) vote_version).1 version)

    -- A row whose settings are current stays as it is.
    pub reset_users-keeps :
        (userid left : ℕ) (db : Users) (j : ℕ) (u : DbUser)
        → IsCurrent deployments vote_version u
        → lookup j db ≡ some u
        → lookup j (reset_users update_works deployments vote_version userid left db).0 ≡ some u
    unfolding reset_users
    reset_users-keeps userid zero db j u current there = there
    reset_users-keeps userid (suc left) db j u current there =
        let rest = reset_users-keeps (userid + 1) left in
        elim (Option-cases (lookup userid db)) [
          | inl missing ↦ ground (arith, missing, rest db j u current there)
          | inr (user, row) ↦
              let step = reset_user update_works deployments vote_version db userid user in
              let others =
                (reset_user-Resets update_works deployments vote_version small db userid user
                  row).1 in
              let kept : lookup j step.0 ≡ some u = elim (Bool-cases (nat_beq j userid)) [
                | inr differ ↦ others j (λ e. ground (arith, e, differ)) ∙ there
                | inl same ↦
                    let is : j ≡ userid = (nat_beq_iff j userid).0 same in
                    let one : u ≡ user = ground (arith, row, there, is) in
                    let e =
                      reset_user-current db userid user
                        (subst (IsCurrent deployments vote_version) one current) in
                    ground (arith, e, there)
              ] in
              ground (arith, row, kept, rest step.0 j u current kept, Bool-cases step.1)
        ]
