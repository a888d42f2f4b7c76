-- ===== src/Stakepoold/Saved/Listing.antt =====
-- Directories whose listing is in order, as that of `ioutil.ReadDir` is, after a file is created or
-- removed, and the last file of a kind in them.
use hxstakepool.Prelude.{
  true, [], ◌∷◌, none, some, if◌then◌else◌, ◌==◌, ◌≡◌, refl, sym, subst, arith, inl, inr, All,
  Bool-cases,
}
use hxstakepool.GoMap.{lookup}
use hxstakepool.Stakepoold.Saved.Names.{Name, name_eq, less, same_name_iff, less_trans, less_total}
use hxstakepool.Stakepoold.Saved.{Contents, Directory, create, remove}

abbrev pub After : Name → Name × Contents → Type 0
After name file = less name file.0 ≡ true

abbrev pub Sorted : Directory → Type 0
Sorted [] = Unit
Sorted (file ∷ files) = All (After file.0) files × Sorted files

pub All-map :
    {P Q : Name × Contents → Type 0} (files : Directory)
    → ((file : Name × Contents) → P file → Q file)
    → All P files
    → All Q files
All-map [] f all = tt
All-map (file ∷ files) f (p, all) = (f file p, All-map files f all)

pub create-All :
    (P : Name × Contents → Type 0) (name : Name) (c : Contents) (files : Directory)
    → P (name, c)
    → All P files
    → All P (create name c files)
unfolding create
create-All P name c [] p all = (p, tt)
create-All P name c ((other, d) ∷ files) p (q, all) = elim (Bool-cases (other == name)) [
  | inl same ↦
      let e : create name c ((other, d) ∷ files) ≡ (name, c) ∷ files = ground (arith, same) in
      subst (All P) (sym e) (p, all)
  | inr differ ↦ elim (Bool-cases (less name other)) [
    | inl first ↦
        let e : create name c ((other, d) ∷ files) ≡ (name, c) ∷ (other, d) ∷ files =
          ground (arith, differ, first) in
        subst (All P) (sym e) (p, (q, all))
    | inr later ↦
        let e : create name c ((other, d) ∷ files) ≡ (other, d) ∷ create name c files =
          ground (arith, differ, later) in
        subst (All P) (sym e) (q, create-All P name c files p all)
  ]
]

-- A file that comes before the first one of the listing comes before all.
All-After :
    (name : Name) (other : Name) (files : Directory)
    → less name other ≡ true
    → All (After other) files
    → All (After name) files
All-After name other files first all =
    All-map files (λ file h. less_trans name other file.0 first h) all

pub create-Sorted :
    (name : Name) (c : Contents) (files : Directory) → Sorted files → Sorted (create name c files)
unfolding create
create-Sorted name c [] sorted = (tt, tt)
create-Sorted name c ((other, d) ∷ files) (all, sorted) = elim (Bool-cases (other == name)) [
  | inl same ↦
      let is = (same_name_iff other name).0 same in
      let e : create name c ((other, d) ∷ files) ≡ (name, c) ∷ files = ground (arith, same) in
      subst Sorted (sym e) (subst (λ n. All (After n) files) is all, sorted)
  | inr differ ↦ elim (Bool-cases (less name other)) [
    | inl first ↦
        let e : create name c ((other, d) ∷ files) ≡ (name, c) ∷ (other, d) ∷ files =
          ground (arith, differ, first) in
        subst Sorted (sym e) ((first, All-After name other files first all), (all, sorted))
    | inr later ↦
        let e : create name c ((other, d) ∷ files) ≡ (other, d) ∷ create name c files =
          ground (arith, differ, later) in
        subst Sorted (sym e) (
          create-All (After other) name c files (less_total name other differ later) all,
          create-Sorted name c files sorted,
        )
  ]
]

pub lookup-create :
    (name j : Name) (c : Contents) (files : Directory)
    → lookup j (create name c files) ≡ (if name == j then some c else lookup j files)
unfolding lookup create
lookup-create name j c [] = refl
lookup-create name j c ((other, d) ∷ files) = ground (
  arith,
  same_name_iff name j,
  same_name_iff other name,
  same_name_iff other j,
  lookup-create name j c files,
)

pub lookup-remove :
    (name j : Name) (files : Directory)
    → lookup j (remove name files) ≡ (if name == j then none else lookup j files)
unfolding lookup remove
lookup-remove name j [] = ground arith
lookup-remove name j ((other, d) ∷ files) = ground (
  arith,
  same_name_iff name j,
  same_name_iff other name,
  same_name_iff other j,
  lookup-remove name j files,
)

pub remove-All :
    (P : Name × Contents → Type 0) (name : Name) (files : Directory)
    → All P files
    → All P (remove name files)
unfolding remove
remove-All P name [] all = tt
remove-All P name ((other, d) ∷ files) (p, all) = elim (Bool-cases (other == name)) [
  | inl same ↦
      let e : remove name ((other, d) ∷ files) ≡ remove name files = ground (arith, same) in
      subst (All P) (sym e) (remove-All P name files all)
  | inr differ ↦
      let e : remove name ((other, d) ∷ files) ≡ (other, d) ∷ remove name files =
        ground (arith, differ) in
      subst (All P) (sym e) (p, remove-All P name files all)
]

pub remove-Sorted : (name : Name) (files : Directory) → Sorted files → Sorted (remove name files)
unfolding remove
remove-Sorted name [] sorted = tt
remove-Sorted name ((other, d) ∷ files) (all, sorted) = elim (Bool-cases (other == name)) [
  | inl same ↦
      let e : remove name ((other, d) ∷ files) ≡ remove name files = ground (arith, same) in
      subst Sorted (sym e) (remove-Sorted name files sorted)
  | inr differ ↦
      let e : remove name ((other, d) ∷ files) ≡ (other, d) ∷ remove name files =
        ground (arith, differ) in
      subst Sorted (sym e)
        (remove-All (After other) name files all, remove-Sorted name files sorted)
]
