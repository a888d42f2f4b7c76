-- ===== src/Stakepoold/Saved/Pruned.antt =====
-- `pruneData` and what `loadData` reads after it.
use hxstakepool.Prelude.{
  ℕ, zero, suc, ◌<◌, true, false, List, [], ◌∷◌, map, Option, none, some, if◌then◌else◌, ◌≡◌, ◌≢◌,
  refl, sym, subst, arith, inl, inr, length, Bool-cases, nat_beq_iff,
}
use hxstakepool.GoMap.{lookup}
use hxstakepool.Stakepoold.Saved.Names.{
  Name, name_eq, less, same_name_iff, less_irrefl, to_lower, has_prefix,
}
use hxstakepool.Stakepoold.Saved.{
  DataKind, added_low_fee_tickets, live_tickets, user_voting_config, other_kind, Directory, Os,
  get_data_names, filename_prefix, remove, is_saved_as, files_to_prune, last_seen, remove_first,
}
use hxstakepool.Stakepoold.Saved.Listing.{After, Sorted, lookup-remove}
use hxstakepool.Stakepoold.Saved.LastSeen.{last_seen-remove, last_seen-remove-none, last_seen-All}

has_prefix-head :
    (c d : ℕ) (p q name : Name)
    → has_prefix (c ∷ p) name ≡ true
    → has_prefix (d ∷ q) name ≡ true
    → c ≡ d
unfolding has_prefix
has_prefix-head c d p q [] e f = absurd (ground (arith, e))
has_prefix-head c d p q (x ∷ name) e f = ground (arith, e, f, nat_beq_iff c x, nat_beq_iff d x)

is_saved_as-has_prefix :
    (kind : DataKind) (version name : Name)
    → is_saved_as kind version name ≡ true
    → has_prefix (map to_lower (filename_prefix kind)) name ≡ true
unfolding is_saved_as
is_saved_as-has_prefix kind version name e = ground (arith, e)

-- No file is of two kinds.
pub is_saved_as-one :
    (kind other : DataKind) {v w : Name} (name : Name)
    → get_data_names kind ≡ some v
    → get_data_names other ≡ some w
    → is_saved_as kind v name ≡ true
    → is_saved_as other w name ≡ true
    → kind ≡ other
unfolding to_lower
is_saved_as-one kind other {v} {w} name known known2 e f =
    let p = is_saved_as-has_prefix kind v name e in
    let q = is_saved_as-has_prefix other w name f in one kind other p q known known2
  where
    one :
        (kind other : DataKind) {v w : Name}
        → has_prefix (map to_lower (filename_prefix kind)) name ≡ true
        → has_prefix (map to_lower (filename_prefix other)) name ≡ true
        → get_data_names kind ≡ some v
        → get_data_names other ≡ some w
        → kind ≡ other
    one added_low_fee_tickets added_low_fee_tickets p q k l = refl
    one live_tickets live_tickets p q k l = refl
    one user_voting_config user_voting_config p q k l = refl
    one added_low_fee_tickets live_tickets p q k l =
        absurd omega (arith, has_prefix-head 97 108 _ _ name p q)
    one added_low_fee_tickets user_voting_config p q k l =
        absurd omega (arith, has_prefix-head 97 117 _ _ name p q)
    one live_tickets added_low_fee_tickets p q k l =
        absurd omega (arith, has_prefix-head 108 97 _ _ name p q)
    one live_tickets user_voting_config p q k l =
        absurd omega (arith, has_prefix-head 108 117 _ _ name p q)
    one user_voting_config added_low_fee_tickets p q k l =
        absurd omega (arith, has_prefix-head 117 97 _ _ name p q)
    one user_voting_config live_tickets p q k l =
        absurd omega (arith, has_prefix-head 117 108 _ _ name p q)
    one (other_kind s) other p q k l = absurd (ground (arith, k))
    one kind (other_kind s) p q k l = absurd (ground (arith, l))

-- The first names of a list, as many as are removed, are not the one that is loaded.
abbrev pub Spared : Option Name → ℕ → List Name → Type 0
Spared loaded zero names = Unit
Spared loaded (suc count) [] = Unit
Spared loaded (suc count) (x ∷ names) =
    ((y : Name) → loaded ≡ some y → x ≢ y) × Spared loaded count names

pub Spared-none : (count : ℕ) (names : List Name) → Spared none count names
Spared-none zero names = tt
Spared-none (suc count) [] = tt
Spared-none (suc count) (x ∷ names) = (λ y e. absurd cc, Spared-none count names)

-- `loadData` finds the same file, with the same contents.
abbrev pub Loads : DataKind → Name → Option Name → Directory → Directory → Type 0
Loads kind version loaded before files =
    (last_seen kind version files none ≡ loaded)
    × ((y : Name) → loaded ≡ some y → lookup y files ≡ lookup y before)

module _ (kind : DataKind) (version : Name) where
  remove-Loads :
      (loaded : Option Name) (x : Name) (before files : Directory)
      → ((y : Name) → loaded ≡ some y → x ≢ y)
      → Loads kind version loaded before files
      → Loads kind version loaded before (remove x files)
  remove-Loads none x before files differ (found, same) =
      (last_seen-remove-none kind version x files found, λ y e. absurd cc)
  remove-Loads (some y) x before files differ (found, same) = (
    last_seen-remove kind version x y files none found (differ y refl),
    λ z e. ground (arith, same z e, differ z e, same_name_iff x z, lookup-remove x z files),
  )

  pub remove_first-Loads :
      (os : Os) (loaded : Option Name) (count : ℕ) (names : List Name) (before files : Directory)
      → Spared loaded count names
      → Loads kind version loaded before files
      → Loads kind version loaded before (remove_first os count names files)
  unfolding remove_first
  remove_first-Loads os loaded zero names before files spared loads = loads
  remove_first-Loads os loaded (suc count) [] before files spared loads = loads
  remove_first-Loads os loaded (suc count) (x ∷ names) before files (differ, spared) loads =
      let next = if os.remove_works x then remove x files else files in
      let after : Loads kind version loaded before next = elim (Bool-cases (os.remove_works x)) [
        | inl works ↦
            let e : next ≡ remove x files = ground (arith, works) in
            subst (Loads kind version loaded before) (sym e)
              (remove-Loads loaded x before files differ loads)
        | inr fails ↦
            let e : next ≡ files = ground (arith, fails) in
            subst (Loads kind version loaded before) (sym e) loads
      ] in
      remove_first-Loads os loaded count names before next spared after

  -- The last file of a kind comes after those that are removed.
  pub files_to_prune-Spared :
      (y : Name) (count : ℕ) (files : Directory) (seen : Option Name)
      → Sorted files
      → count < length (files_to_prune kind version files)
      → last_seen kind version files seen ≡ some y
      → Spared (some y) count (files_to_prune kind version files)
  unfolding files_to_prune last_seen
  files_to_prune-Spared y zero files seen sorted more e = tt
  files_to_prune-Spared y (suc count) [] seen sorted more e = tt
  files_to_prune-Spared y (suc count) ((n, c) ∷ files) seen (all, sorted) more e =
      let names = files_to_prune kind version files in
      elim (Bool-cases (is_saved_as kind version n)) [
        | inr other ↦
            let is : files_to_prune kind version ((n, c) ∷ files) ≡ names = ground (arith, other) in
            subst (Spared (some y) (suc count)) (sym is) (
              files_to_prune-Spared y (suc count) files seen sorted (ground (arith, other, more))
                (ground (arith, other, e)))
        | inl saved ↦
            let is : files_to_prune kind version ((n, c) ∷ files) ≡ n ∷ names =
              ground (arith, saved) in
            let e2 : last_seen kind version files (some n) ≡ some y = ground (arith, saved, e) in
            let more2 : count < length names = ground (arith, saved, more) in
            let later : less n y ≡ true =
              last_seen-All kind version (After n) (λ x. less n x ≡ true) files (some n) y
                (λ file h. h) all (omega (arith, more2)) e2 in
            subst (Spared (some y) (suc count)) (sym is) (
              λ z f g. ground (arith, f, g, later, less_irrefl n),
              files_to_prune-Spared y count files (some n) sorted more2 e2,
            )
      ]

  -- A file that is not of the kind is not removed with it.
  pub other-Spared :
      (y : Name) (count : ℕ) (files : Directory)
      → is_saved_as kind version y ≡ false
      → Spared (some y) count (files_to_prune kind version files)
  unfolding files_to_prune
  other-Spared y zero files not_saved = tt
  other-Spared y (suc count) [] not_saved = tt
  other-Spared y (suc count) ((n, c) ∷ files) not_saved =
      let names = files_to_prune kind version files in
      elim (Bool-cases (is_saved_as kind version n)) [
        | inr other ↦
            let is : files_to_prune kind version ((n, c) ∷ files) ≡ names = ground (arith, other) in
            subst (Spared (some y) (suc count)) (sym is)
              (other-Spared y (suc count) files not_saved)
        | inl saved ↦
            let is : files_to_prune kind version ((n, c) ∷ files) ≡ n ∷ names =
              ground (arith, saved) in
            subst (Spared (some y) (suc count)) (sym is) (
              λ z f g. ground (arith, f, g, saved, not_saved),
              other-Spared y count files not_saved,
            )
      ]
