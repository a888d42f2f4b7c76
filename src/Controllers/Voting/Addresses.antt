-- ===== src/Controllers/Voting/Addresses.antt =====
-- The addresses of the users through a check and reset, and who is pushed to the daemons.
use hxstakepool.Prelude.{
  ℕ, zero, suc, ◌+◌, string_eq, nat_eq, nat_beq, nat_beq_iff, Bool, List, some, ◌≡◌, refl, ◌∙◌, sym,
  subst, arith, inl, inr, Bool-cases, Option-cases,
}
use hxstakepool.Prelude.Words.{uint16, uint32}
use hxstakepool.GoMap.{GoMap, lookup, put}
use hxstakepool.GoMap.Laws.{lookup-put}
use hxstakepool.Grpc.Client.{DbUser}
use hxstakepool.Controllers.VoteBits.{
  Deployment, is_valid_vote_bits, get_agendas, Users, update_vote_bits_by_id,
  update_vote_bits_version_by_id, reset_user, reset_users,
}

-- Each row of the second table is one of the first with the same address.
abbrev pub KeepsAddresses : Users → Users → Type 0
KeepsAddresses db db2 =
    (j : ℕ) (u : DbUser)
    → lookup j db2 ≡ some u
    → (old : DbUser) × (lookup j db ≡ some old) × (old.multi_sig_address ≡ u.multi_sig_address)

same-KeepsAddresses : (db : Users) → KeepsAddresses db db
same-KeepsAddresses db j u e = (u, e, refl)

pub trans-KeepsAddresses :
    (a b c : Users) → KeepsAddresses a b → KeepsAddresses b c → KeepsAddresses a c
trans-KeepsAddresses a b c ab bc j u e =
    let (v, f, same) = bc j u e in let (w, g, same2) = ab j v f in (w, g, same2 ∙ same)

put-KeepsAddresses :
    (db : Users) (id : ℕ) (old new : DbUser)
    → lookup id db ≡ some old
    → old.multi_sig_address ≡ new.multi_sig_address
    → KeepsAddresses db (put id new db)
put-KeepsAddresses db id old new there same j u e = elim (Bool-cases (nat_beq id j)) [
  | inl is ↦ (
    old,
    ground (arith, there, nat_beq_iff id j, is),
    ground (arith, e, same, is, lookup-put id j new db),
  )
  | inr other ↦ (u, ground (arith, e, other, lookup-put id j new db), refl)
]

module _ (update_works : ℕ → Bool) where
  pub update_vote_bits_by_id-KeepsAddresses :
      (db : Users) (id bits : ℕ)
      → KeepsAddresses db (update_vote_bits_by_id update_works db id bits).0
  unfolding update_vote_bits_by_id
  update_vote_bits_by_id-KeepsAddresses db id bits =
      let after = (update_vote_bits_by_id update_works db id bits).0 in
      elim (Option-cases (lookup id db)) [
        | inl missing ↦
            let e : after ≡ db = ground (arith, missing) in
            subst (KeepsAddresses db) (sym e) (same-KeepsAddresses db)
        | inr (user, there) ↦ elim (Bool-cases (update_works id)) [
          | inl works ↦
              let new : DbUser = record user { vote_bits = bits } in
              let e : after ≡ put id new db = ground (arith, there, works) in
              subst (KeepsAddresses db) (sym e) (put-KeepsAddresses db id user new there refl)
          | inr fails ↦
              let e : after ≡ db = ground (arith, there, fails) in
              subst (KeepsAddresses db) (sym e) (same-KeepsAddresses db)
        ]
      ]

  update_vote_bits_version_by_id-KeepsAddresses :
      (db : Users) (id version : ℕ)
      → KeepsAddresses db (update_vote_bits_version_by_id update_works db id version).0
  unfolding update_vote_bits_version_by_id
  update_vote_bits_version_by_id-KeepsAddresses db id version =
      let after = (update_vote_bits_version_by_id update_works db id version).0 in
      elim (Option-cases (lookup id db)) [
        | inl missing ↦
            let e : after ≡ db = ground (arith, missing) in
            subst (KeepsAddresses db) (sym e) (same-KeepsAddresses db)
        | inr (user, there) ↦ elim (Bool-cases (update_works id)) [
          | inl works ↦
              let new : DbUser = record user { vote_bits_version = version } in
              let e : after ≡ put id new db = ground (arith, there, works) in
              subst (KeepsAddresses db) (sym e) (put-KeepsAddresses db id user new there refl)
          | inr fails ↦
              let e : after ≡ db = ground (arith, there, fails) in
              subst (KeepsAddresses db) (sym e) (same-KeepsAddresses db)
        ]
      ]

  module _ (deployments : GoMap ℕ (List Deployment)) (vote_version : ℕ) where
    reset_user-KeepsAddresses :
        (db : Users) (id : ℕ) (user : DbUser)
        → KeepsAddresses db (reset_user update_works deployments vote_version db id user).0
    unfolding reset_user
    reset_user-KeepsAddresses db id user =
        let first = update_vote_bits_version_by_id update_works db id vote_version in
        let one = update_vote_bits_version_by_id-KeepsAddresses db id vote_version in
        let two = update_vote_bits_by_id-KeepsAddresses first.0 id 1 in
        let three = update_vote_bits_by_id-KeepsAddresses db id 1 in
        let after = (reset_user update_works deployments vote_version db id user).0 in
        elim (Bool-cases (nat_beq (uint32 user.vote_bits_version) vote_version)) [
          | inr old ↦ elim (Bool-cases first.1) [
            | inr fails ↦
                let e : after ≡ first.0 = ground (arith, old, fails) in
                subst (KeepsAddresses db) (sym e) one
            | inl works ↦ elim (Bool-cases (nat_beq (uint16 user.vote_bits) 1)) [
              | inl default ↦
                  let e : after ≡ first.0 = ground (arith, old, works, default) in
                  subst (KeepsAddresses db) (sym e) one
              | inr chosen ↦
                  let e : after ≡ (update_vote_bits_by_id update_works first.0 id 1).0 =
                    ground (arith, old, works, chosen) in
                  subst (KeepsAddresses db) (sym e) (trans-KeepsAddresses db first.0 _ one two)
            ]
          ]
          | inl same ↦
              elim (Bool-cases (
                is_valid_vote_bits (get_agendas deployments vote_version)
                  (uint16 user.vote_bits))) [
                    | inl valid ↦
                        let e : after ≡ db = ground (arith, same, valid) in
                        subst (KeepsAddresses db) (sym e) (same-KeepsAddresses db)
                    | inr invalid ↦
                        let e : after ≡ (update_vote_bits_by_id update_works db id 1).0 =
                          ground (arith, same, invalid) in
                        subst (KeepsAddresses db) (sym e) three
                  ]
        ]

    pub reset_users-KeepsAddresses :
        (userid left : ℕ) (db : Users)
        → KeepsAddresses db (reset_users update_works deployments vote_version userid left db).0
    unfolding reset_users
    reset_users-KeepsAddresses userid zero db = same-KeepsAddresses db
    reset_users-KeepsAddresses userid (suc left) db =
        let after = (reset_users update_works deployments vote_version userid (suc left) db).0 in
        let next : Users → Users =
          λ table. (reset_users update_works deployments vote_version (userid + 1) left table).0 in
        elim (Option-cases (lookup userid db)) [
          | inl missing ↦
              let e : after ≡ next db = ground (arith, missing) in
              subst (KeepsAddresses db) (sym e) (reset_users-KeepsAddresses (userid + 1) left db)
          | inr (user, there) ↦
              let step = reset_user update_works deployments vote_version db userid user in
              let one = reset_user-KeepsAddresses db userid user in
              elim (Bool-cases step.1) [
                | inl fine ↦
                    let e : after ≡ next step.0 = ground (arith, there, fine) in
                    subst (KeepsAddresses db) (sym e) (
                      trans-KeepsAddresses db step.0 (next step.0) one
                        (reset_users-KeepsAddresses (userid + 1) left step.0))
                | inr failed ↦
                    let e : after ≡ step.0 = ground (arith, there, failed) in
                    subst (KeepsAddresses db) (sym e) one
              ]
        ]
