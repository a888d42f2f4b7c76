-- ===== src/Wallets/Import/Laws.antt =====
-- When a script counts as imported.
use hxstakepool.Prelude.{
  ℕ, String, List, [], ◌∷◌, Option, none, some, ◌≡◌, ◌≢◌, refl, ◌↔◌, arith, All, Option-cases, inl,
  inr,
}
use hxstakepool.Prelude.Result.{ok}
use hxstakepool.Wallets.Types.{Server}
use hxstakepool.Wallets.Import.{import_errors, compare_errors, first_error, import_script_fn}

module _ (import_at : ℕ → Option String) where
  -- A wallet that is not there, or one that imports the script.
  abbrev pub Imports : Server → Type 0
  Imports none = Unit
  Imports (some s) = import_at s ≡ none

  compare_errors-nil : (l : List (Option String)) → All (λ e. e ≡ none) l → compare_errors l ≡ none
  unfolding compare_errors
  compare_errors-nil [] all = refl
  compare_errors-nil (none ∷ []) all = refl
  compare_errors-nil (some e ∷ []) all = refl
  compare_errors-nil (none ∷ none ∷ rest) (_, all) = compare_errors-nil (none ∷ rest) all
  compare_errors-nil (none ∷ some e ∷ rest) (_, (p, _)) = absurd cc
  compare_errors-nil (some e ∷ f ∷ rest) (p, _) = absurd cc

  nil-compare_errors :
      (rest : List (Option String))
      → compare_errors (none ∷ rest) ≡ none
      → All (λ e. e ≡ none) (none ∷ rest)
  unfolding compare_errors
  nil-compare_errors [] h = (refl, tt)
  nil-compare_errors (none ∷ rest) h = (refl, nil-compare_errors rest h)
  nil-compare_errors (some e ∷ rest) h = absurd cc

  Imports-import_errors :
      (servers : List Server)
      → All Imports servers ↔ All (λ e. e ≡ none) (import_errors import_at servers)
  Imports-import_errors [] = (λ h. h, λ h. h)
  Imports-import_errors (none ∷ servers) =
      let (f, g) = Imports-import_errors servers in (λ (_, h). (refl, f h), λ (_, h). (tt, g h))
  Imports-import_errors (some s ∷ servers) =
      let (f, g) = Imports-import_errors servers in (λ (p, h). (p, f h), λ (p, h). (p, g h))

  first_error-All :
      (l : List (Option String))
      → compare_errors l ≡ none
      → first_error l ≡ ok tt
      → All (λ e. e ≡ none) l
  first_error-All [] h f = tt
  first_error-All (none ∷ rest) h f = nil-compare_errors rest h
  first_error-All (some e ∷ rest) h f = absurd cc

  first_error-nil :
      (l : List (Option String)) → l ≢ [] → All (λ e. e ≡ none) l → first_error l ≡ ok tt
  first_error-nil [] some_one all = absurd (some_one refl)
  first_error-nil (none ∷ rest) some_one all = refl
  first_error-nil (some e ∷ rest) some_one (p, _) = absurd cc

  nonempty : (servers : List Server) → servers ≢ [] → import_errors import_at servers ≢ []
  nonempty [] someone = λ _. someone refl
  nonempty (none ∷ servers) someone = λ e. absurd cc
  nonempty (some s ∷ servers) someone = λ e. absurd cc

  no_server :
      (servers : List Server)
      → servers ≡ []
      → first_error (import_errors import_at servers) ≡ ok tt
      → ⊥
  no_server [] nobody first = absurd cc
  no_server (s ∷ servers) nobody first = absurd cc

  -- The import of a script succeeds exactly where there is a server and every wallet that is there
  -- imports the script: one that fails makes it fail, whichever it is and whatever the others say.
  pub import_script_fn_iff :
      (servers : List Server)
      → (import_script_fn import_at servers ≡ ok tt) ↔ ((servers ≢ []) × All Imports servers)
  unfolding import_script_fn
  import_script_fn_iff servers =
      let errors = import_errors import_at servers in
      let (to, from) = Imports-import_errors servers in
      (
        λ e. elim (Option-cases (compare_errors errors)) [
          | inl p ↦
              let first : first_error errors ≡ ok tt = ground (arith, e, p) in
              (λ nobody. no_server servers nobody first, from (first_error-All errors p first))
          | inr (x, p) ↦ absurd (ground (arith, e, p))
        ],
        λ (someone, imported).
            let all = to imported in
            ground (
              arith,
              compare_errors-nil errors all,
              first_error-nil errors (nonempty servers someone) all,
            ),
      )
