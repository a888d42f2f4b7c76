-- ===== src/Controllers/Admin/Laws.antt =====
-- Who may change the added tickets, and what the two actions do to the table.
use hxstakepool.Prelude.{
  ℕ, String, string_eq, nat_eq, true, List, [], ◌∷◌, some, ◌==◌, ◌≡◌, ◌≢◌, ◌↔◌, ◌⊎◌, refl, sym,
  arith, inl, inr, Member, Bool-cases, Option-cases,
}
use hxstakepool.Controllers.Admin.{
  AdminSite, AdminRequest, Pool, unauthorized, string_slice_contains, get_client_ip, is_admin,
  connections_of, stakepoold_get_ignored, daemons_of, add_each, delete_query, push_tickets,
  post_add, post_remove, admin_tickets_post,
}

pub List-cases : {A : Type 0} (l : List A) → (l ≡ []) ⊎ ((x : A) × (rest : List A) × (l ≡ x ∷ rest))
List-cases [] = inl refl
List-cases (x ∷ rest) = inr (x, rest, refl)

string_slice_contains_iff :
    (s : List String) (e : String) → (string_slice_contains s e ≡ true) ↔ Member e s
unfolding string_slice_contains
string_slice_contains_iff [] e = (λ h. absurd (ground (arith, h)), λ m. elim m [ ])
string_slice_contains_iff (a ∷ s) e =
    let (to, from) = string_slice_contains_iff s e in
    (
      λ h. elim (Bool-cases (a == e)) [
        | inl same ↦ inl (sym ((string_eq.beq_iff a e).0 same))
        | inr other ↦ inr (to (ground (arith, h, other)))
      ],
      λ m. elim m [
        | inl same ↦ ground (arith, string_eq.beq_iff a e, same)
        | inr more ↦ ground (arith, from more, Bool-cases (a == e))
      ],
    )

module _ (s : AdminSite) (r : AdminRequest) where
  -- The session is that of a user who is listed, and the request comes from an address that is.
  abbrev pub IsAdmin : Type 0
  IsAdmin =
      (uid : ℕ) × (r.session ≡ some uid)
      × Member (get_client_ip s r) s.admin_ips
      × Member (s.itoa uid) s.admin_user_ids

  pub is_admin_iff : (is_admin s r ≡ true) ↔ IsAdmin
  unfolding is_admin
  is_admin_iff =
      let ip = string_slice_contains_iff s.admin_ips (get_client_ip s r) in
      (
        λ h. elim (Option-cases r.session) [
          | inl out ↦ absurd (ground (arith, h, out))
          | inr (uid, is) ↦
              let user = string_slice_contains_iff s.admin_user_ids (s.itoa uid) in
              let ip_in : string_slice_contains s.admin_ips (get_client_ip s r) ≡ true = ground (
                arith,
                h,
                is,
                Bool-cases (string_slice_contains s.admin_ips (get_client_ip s r)),
              ) in
              let user_in : string_slice_contains s.admin_user_ids (s.itoa uid) ≡ true = ground (
                arith,
                h,
                is,
                ip_in,
                Bool-cases (string_slice_contains s.admin_user_ids (s.itoa uid)),
              ) in
              (uid, is, ip.0 ip_in, user.0 user_in)
        ],
        λ (uid, is, m, m2).
            ground
              (arith, is, ip.1 m, (string_slice_contains_iff s.admin_user_ids (s.itoa uid)).1 m2),
      )

  post_add-status : (uid : ℕ) (p : Pool) → (post_add s r uid p).status ≢ unauthorized
  unfolding post_add push_tickets
  post_add-status uid p e =
      let got = stakepoold_get_ignored s p.lines ([], true) in
      let added = add_each s r uid got.1.0 r.tickets p.low_fee_tickets in
      absurd (ground (arith, e, Bool-cases got.1.1, Option-cases added.1))

  post_remove-status : (p : Pool) → (post_remove s r p).status ≢ unauthorized
  unfolding post_remove push_tickets
  post_remove-status p e =
      absurd (ground (arith, e, Option-cases (s.exec (delete_query s r.tickets) p.low_fee_tickets)))

  admin_answered :
      (p : Pool) (uid : ℕ)
      → is_admin s r ≡ true
      → r.session ≡ some uid
      → (admin_tickets_post s r p).status ≢ unauthorized
  unfolding admin_tickets_post
  admin_answered p uid admin is e = absurd (
      ground (
        arith,
        admin,
        is,
        e,
        List-cases r.tickets,
        Bool-cases r.parsed,
        Bool-cases (r.action == "Add"),
        Bool-cases (r.action == "Remove"),
        post_add-status uid p,
        post_remove-status p,
      ))

  -- A request is answered as unauthorized exactly where it is not an administrator's, and then the
  -- table, the users and the daemons stay as they are.
  pub admin_tickets_post-IsAdmin :
      (p : Pool)
      → (((admin_tickets_post s r p).status ≡ unauthorized) ↔ (¬ IsAdmin))
        × ((¬ IsAdmin)
            → ((admin_tickets_post s r p).low_fee_tickets ≡ p.low_fee_tickets)
              × ((admin_tickets_post s r p).users ≡ p.users)
              × ((admin_tickets_post s r p).daemons ≡ daemons_of s (connections_of s p.lines)))
  unfolding admin_tickets_post
  admin_tickets_post-IsAdmin p = elim (Bool-cases (is_admin s r)) [
    | inr other ↦
        let not_admin : ¬ IsAdmin = λ a. absurd (ground (arith, other, is_admin_iff.1 a)) in
        ((λ _. not_admin, λ _. ground (arith, other)), λ _. ground (arith, other))
    | inl admin ↦
        let (uid, is, m, m2) = is_admin_iff.0 admin in
        let answered : (admin_tickets_post s r p).status ≢ unauthorized =
          λ e. admin_answered p uid admin is e in
        (
          (λ e. absurd (answered e), λ none_is. absurd (none_is (uid, is, m, m2))),
          λ none_is. absurd (none_is (uid, is, m, m2)),
        )
  ]
