-- ===== src/Stakepoold/Saved/LastSeen.antt =====
-- The last file of a kind in a listing, which `loadData` reads.
use hxstakepool.Prelude.{
  ◌<◌, true, false, [], ◌∷◌, Option, none, some, if◌then◌else◌, ◌==◌, ◌≡◌, ◌≢◌, refl, subst, arith,
  inl, inr, All, length, nat_beq, Bool-cases,
}
use hxstakepool.Stakepoold.Saved.Names.{Name, name_eq, less, same_name_iff, less_trans}
use hxstakepool.Stakepoold.Saved.{
  DataKind, Contents, Directory, create, remove, is_saved_as, files_to_prune, last_seen,
}
use hxstakepool.Stakepoold.Saved.Listing.{After, Sorted, All-map}

module _ (kind : DataKind) (version : Name) where
  abbrev pub IsOther : Name × Contents → Type 0
  IsOther file = is_saved_as kind version file.0 ≡ false

  -- A file of the kind does not come after the name.
  abbrev pub NotLater : Name → Name × Contents → Type 0
  NotLater name file = (is_saved_as kind version file.0 ≡ true) → less name file.0 ≡ false

  last_seen-none :
      (files : Directory) (seen : Option Name)
      → All IsOther files
      → last_seen kind version files seen ≡ seen
  unfolding last_seen
  last_seen-none [] seen all = refl
  last_seen-none ((name, c) ∷ files) seen (other, all) =
      ground (arith, other, last_seen-none files seen all)

  later_others :
      (name : Name) (files : Directory)
      → All (After name) files
      → All (NotLater name) files
      → All IsOther files
  later_others name [] after not_later = tt
  later_others name ((n, c) ∷ files) (a, after) (l, not_later) = (
    elim (Bool-cases (is_saved_as kind version n)) [
      | inl saved ↦ absurd (ground (arith, a, l saved))
      | inr other ↦ other
    ],
    later_others name files after not_later,
  )

  -- A file of another kind makes no difference.
  pub last_seen-create_other :
      (name : Name) (c : Contents) (files : Directory) (seen : Option Name)
      → is_saved_as kind version name ≡ false
      → last_seen kind version (create name c files) seen ≡ last_seen kind version files seen
  unfolding last_seen create
  last_seen-create_other name c [] seen other = ground (arith, other)
  last_seen-create_other name c ((n, d) ∷ files) seen other =
      let seen2 = if is_saved_as kind version n then some n else seen in
      ground (
        arith,
        other,
        same_name_iff n name,
        last_seen-create_other name c files seen2 other,
        Bool-cases (n == name),
        Bool-cases (less name n),
      )

  -- A new file of the kind is the last one, unless there is a later one.
  pub last_seen-create :
      (name : Name) (c : Contents) (files : Directory) (seen : Option Name)
      → is_saved_as kind version name ≡ true
      → Sorted files
      → All (NotLater name) files
      → last_seen kind version (create name c files) seen ≡ some name
  unfolding last_seen create
  last_seen-create name c [] seen saved sorted not_later = ground (arith, saved)
  last_seen-create name c ((n, d) ∷ files) seen saved (all, sorted) (l, not_later) =
      let seen2 = if is_saved_as kind version n then some n else seen in
      elim (Bool-cases (n == name)) [
        | inl same ↦
            let is = (same_name_iff n name).0 same in
            let after = subst (λ m. All (After m) files) is all in
            let others = later_others name files after not_later in
            ground (arith, saved, same, last_seen-none files (some name) others)
        | inr differ ↦ elim (Bool-cases (less name n)) [
          | inl first ↦
              let after = All-map files (λ file h. less_trans name n file.0 first h) all in
              let others = later_others name ((n, d) ∷ files) (first, after) (l, not_later) in
              ground
                (arith, saved, differ, first, others.0, last_seen-none files (some name) others.1)
          | inr later ↦
              ground
                (arith, differ, later, last_seen-create name c files seen2 saved sorted not_later)
        ]
      ]

  last_seen-skip :
      (x y : Name) (files : Directory) (seen : Option Name)
      → last_seen kind version files (some x) ≡ some y
      → x ≢ y
      → last_seen kind version files seen ≡ some y
  unfolding last_seen
  last_seen-skip x y [] seen e differ = absurd (ground (arith, e, differ))
  last_seen-skip x y ((n, c) ∷ files) seen e differ =
      elim (Bool-cases (is_saved_as kind version n)) [
        | inl saved ↦ ground (arith, saved, e)
        | inr other ↦ ground (arith, other, e, last_seen-skip x y files seen, differ)
      ]

  last_seen-some : (x : Name) (files : Directory) → last_seen kind version files (some x) ≢ none
  unfolding last_seen
  last_seen-some x [] e = absurd (ground (arith, e))
  last_seen-some x ((n, c) ∷ files) e = elim (Bool-cases (is_saved_as kind version n)) [
    | inl saved ↦ last_seen-some n files (ground (arith, saved, e))
    | inr other ↦ last_seen-some x files (ground (arith, other, e))
  ]

  -- Where another file is removed, the last one is the same.
  pub last_seen-remove :
      (x y : Name) (files : Directory) (seen : Option Name)
      → last_seen kind version files seen ≡ some y
      → x ≢ y
      → last_seen kind version (remove x files) seen ≡ some y
  unfolding last_seen remove
  last_seen-remove x y [] seen e differ = e
  last_seen-remove x y ((n, c) ∷ files) seen e differ =
      let seen2 = if is_saved_as kind version n then some n else seen in
      let rest = last_seen-remove x y files seen2 e differ in
      elim (Bool-cases (n == x)) [
        | inr kept ↦ ground (arith, kept, rest)
        | inl gone ↦
            let is = (same_name_iff n x).0 gone in
            elim (Bool-cases (is_saved_as kind version n)) [
              | inr other ↦ ground (arith, gone, other, rest)
              | inl saved ↦
                  ground
                    (arith, gone, saved, rest, is, differ, last_seen-skip x y (remove x files) seen)
            ]
      ]

  pub last_seen-remove-none :
      (x : Name) (files : Directory)
      → last_seen kind version files none ≡ none
      → last_seen kind version (remove x files) none ≡ none
  unfolding last_seen remove
  last_seen-remove-none x [] e = refl
  last_seen-remove-none x ((n, c) ∷ files) e = elim (Bool-cases (is_saved_as kind version n)) [
    | inl saved ↦ absurd (last_seen-some n files (ground (arith, saved, e)))
    | inr other ↦
        let rest = last_seen-remove-none x files (ground (arith, other, e)) in
        ground (arith, other, rest, Bool-cases (n == x))
  ]

  pub last_seen_sound :
      (y : Name) (files : Directory) (seen : Option Name)
      → ((x : Name) → seen ≡ some x → is_saved_as kind version x ≡ true)
      → last_seen kind version files seen ≡ some y
      → is_saved_as kind version y ≡ true
  unfolding last_seen
  last_seen_sound y [] seen fits e = fits y e
  last_seen_sound y ((n, c) ∷ files) seen fits e = elim (Bool-cases (is_saved_as kind version n)) [
    | inl saved ↦
        last_seen_sound y files (some n) (λ x h. ground (arith, h, saved))
          (ground (arith, saved, e))
    | inr other ↦ last_seen_sound y files seen fits (ground (arith, other, e))
  ]

  last_seen-no_names :
      (files : Directory) (seen : Option Name)
      → length (files_to_prune kind version files) ≡ 0
      → last_seen kind version files seen ≡ seen
  unfolding last_seen files_to_prune
  last_seen-no_names [] seen e = refl
  last_seen-no_names ((n, c) ∷ files) seen e = elim (Bool-cases (is_saved_as kind version n)) [
    | inl saved ↦ absurd (ground (arith, saved, e))
    | inr other ↦ ground (arith, other, e, last_seen-no_names files seen)
  ]

  -- What holds of all files holds of the last of the kind.
  pub last_seen-All :
      (P : Name × Contents → Type 0) (Q : Name → Type 0) (files : Directory) (seen : Option Name)
      (y : Name)
      → ((file : Name × Contents) → P file → Q file.0)
      → All P files
      → 0 < length (files_to_prune kind version files)
      → last_seen kind version files seen ≡ some y
      → Q y
  unfolding last_seen files_to_prune
  last_seen-All P Q [] seen y f all some_name e = absurd omega (arith, some_name)
  last_seen-All P Q ((n, c) ∷ files) seen y f (p, all) some_name e =
      let rest = length (files_to_prune kind version files) in
      elim (Bool-cases (is_saved_as kind version n)) [
        | inr other ↦
            last_seen-All P Q files seen y f all (ground (arith, other, some_name))
              (ground (arith, other, e))
        | inl saved ↦
            let e2 : last_seen kind version files (some n) ≡ some y = ground (arith, saved, e) in
            elim (Bool-cases (nat_beq 0 rest)) [
              | inl empty ↦
                  let is : n ≡ y = ground (arith, e2, empty, last_seen-no_names files (some n)) in
                  subst Q is (f (n, c) p)
              | inr more ↦ last_seen-All P Q files (some n) y f all (ground (arith, more)) e2
            ]
      ]
