-- ===== src/Wallets/Scripts/Laws.antt =====
-- What a synchronisation that ends without an error has done.
use hxstakepool.Prelude.{
  ℕ, true, List, [], ◌∷◌, ◌++◌, none, some, nat_eq, ◌==◌, ==_refl, ◌≡◌, refl, arith, ◌||◌, Member,
  ◌⊎◌, inl, inr, Bool-cases, Option-cases, map, subst,
}
use hxstakepool.GoMap.{lookup, put, has}
use hxstakepool.GoMap.Laws.{lookup-put, elem}
use hxstakepool.Wallets.Types.{answer}
use hxstakepool.Wallets.Scripts.{
  ScriptHeight, ScriptUser, Wallets, Call, imported, Scripts, scripts_of_db, import_missing,
}

-- Calls that the later ones only follow.
pub Member-append : {A : Type 0} (x : A) (xs ys : List A) → Member x xs → Member x (xs ++ ys)
Member-append x [] ys m = elim m [ ]
Member-append x (y ∷ xs) ys (inl e) = inl e
Member-append x (y ∷ xs) ys (inr m) = inr (Member-append x xs ys m)

pub append-Member : {A : Type 0} (x : A) (xs ys : List A) → Member x ys → Member x (xs ++ ys)
append-Member x [] ys m = m
append-Member x (y ∷ xs) ys m = inr (append-Member x xs ys m)

module _ {Tx : Type 0} (w : Wallets Tx) where
  -- Wallet `s` was asked to import a script with the hash `h`.
  abbrev pub WasImported : List Call → ℕ → ℕ → Type 0
  WasImported calls s h = (v : ScriptHeight) × Member (imported s v) calls × (w.hash_h v.script ≡ h)

  -- Each entry of the map stands at the hash of its script.
  abbrev pub Keyed : Scripts → Type 0
  Keyed [] = Unit
  Keyed ((h, v) ∷ all) = (w.hash_h v.script ≡ h) × Keyed all

  pub import_missing-WasImported :
      (s : ℕ) (own all : Scripts) (h : ℕ)
      → Keyed all
      → has h all ≡ true
      → (import_missing w s own all).1 ≡ none
      → (has h own ≡ true) ⊎ WasImported (import_missing w s own all).0 s h
  unfolding import_missing lookup
  import_missing-WasImported s own [] h keyed there e = absurd cc
  import_missing-WasImported s own ((k, v) ∷ all) h (key, keyed) there e =
      elim (Bool-cases (has k own)) [
        | inl old ↦ elim (Bool-cases (k == h)) [
          | inl same ↦ inl (ground (arith, old, same))
          | inr other ↦
              let later =
                import_missing-WasImported s own all h keyed (ground (arith, there, other))
                  (ground (arith, e, old)) in
              ground (arith, old, later)
        ]
        | inr new ↦ elim (Option-cases (w.import_script_rescan_from s v)) [
          | inr (x, failed) ↦ absurd (ground (arith, e, new, failed))
          | inl done ↦ elim (Bool-cases (k == h)) [
            | inl same ↦ inr (v, ground (arith, new, done), ground (arith, key, same))
            | inr other ↦
                elim (import_missing-WasImported s own all h keyed (ground (arith, there, other))
                  (ground (arith, e, new, done))) [
                    | inl old ↦ inl old
                    | inr (u, m, q) ↦ inr (u, ground (arith, new, done, m), q)
                  ]
          ]
        ]
      ]

  -- The scripts that a wallet lists, by their hashes.
  abbrev pub Lists : ℕ → ℕ → Type 0
  Lists s h =
      (scripts : List (List ℕ)) × (w.list_scripts s ≡ answer scripts)
      × (elem h (map w.hash_h scripts) ≡ true)

  pub put-Keyed :
      (v : ScriptHeight) (all : Scripts) → Keyed all → Keyed (put (w.hash_h v.script) v all)
  unfolding put
  put-Keyed v [] keyed = (refl, tt)
  put-Keyed v ((k, u) ∷ all) (key, keyed) = elim (Bool-cases (k == w.hash_h v.script)) [
    | inl same ↦ ground (arith, same, keyed)
    | inr other ↦ ground (arith, other, key, put-Keyed v all keyed)
  ]

  pub has-put :
      (k h : ℕ) (v : ScriptHeight) (all : Scripts) → has h (put k v all) ≡ (k == h || has h all)
  has-put k h v all = ground (arith, lookup-put k h v all)

  pub scripts_of_db-has :
      (users : List ScriptUser) (acc : Scripts) (h : ℕ)
      → Keyed acc
      → Keyed (scripts_of_db w users acc)
        × (has h acc ≡ true → has h (scripts_of_db w users acc) ≡ true)
  unfolding scripts_of_db
  scripts_of_db-has [] acc h keyed = (keyed, λ there. there)
  scripts_of_db-has (u ∷ users) acc h keyed = elim (Option-cases u.multi_sig_script) [
    | inl e ↦ rw e (scripts_of_db-has users acc h keyed)
    | inr (script, e) ↦
        let v : ScriptHeight = record { script = script; height = u.height_registered } in
        let (k, keeps) =
          scripts_of_db-has users (put (w.hash_h script) v acc) h (put-Keyed v acc keyed) in
        rw e (k, λ there. keeps (ground (arith, there, has-put (w.hash_h script) h v acc)))
  ]

  pub scripts_of_db-Member :
      (users : List ScriptUser) (acc : Scripts) (u : ScriptUser) (script : List ℕ)
      → Keyed acc
      → Member u users
      → u.multi_sig_script ≡ some script
      → has (w.hash_h script) (scripts_of_db w users acc) ≡ true
  unfolding scripts_of_db
  scripts_of_db-Member [] acc u script keyed m e = elim m [ ]
  scripts_of_db-Member (x ∷ users) acc u script keyed (inl same) e =
      let h = w.hash_h script in
      let v : ScriptHeight = record { script = script; height = x.height_registered } in
      let here : x.multi_sig_script ≡ some script =
        subst (λ y. y.multi_sig_script ≡ some script) same e in
      rw here (
        (scripts_of_db-has users (put h v acc) h (put-Keyed v acc keyed)).1
          (ground (arith, has-put h h v acc, ==_refl h)))
  scripts_of_db-Member (x ∷ users) acc u script keyed (inr m) e =
      elim (Option-cases x.multi_sig_script) [
        | inl f ↦ rw f (scripts_of_db-Member users acc u script keyed m e)
        | inr (other, f) ↦
            let v : ScriptHeight = record { script = other; height = x.height_registered } in
            rw f (
              scripts_of_db-Member users (put (w.hash_h other) v acc) u script
                (put-Keyed v acc keyed) m e)
      ]
