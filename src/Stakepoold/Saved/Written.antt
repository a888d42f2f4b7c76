-- ===== src/Stakepoold/Saved/Written.antt =====
-- `saveData`: the files of each kind after it.
use hxstakepool.Prelude.{
  true, false, ◌&&◌, ◌++◌, map, none, some, ◌≡◌, refl, ◌∙◌, sym, subst, arith, All,
}
use mathlib.Core.List.{append_assoc}
use hxstakepool.Prelude.Hex.{codes}
use hxstakepool.GoMap.{lookup}
use hxstakepool.Stakepoold.Context.{AppContext}
use hxstakepool.Stakepoold.Saved.Names.{
  Name, name_eq, same_name_iff, to_lower, has_prefix, contains, has_suffix, has_prefix-append,
  contains-append, has_suffix-append, map-append,
}
use hxstakepool.Stakepoold.Saved.{
  DataKind, added_low_fee_tickets, live_tickets, user_voting_config, other_kind, Contents,
  Directory, Os, get_data_names, filename_prefix, create, is_saved_as, last_seen, to_save,
  dest_filename,
}
use hxstakepool.Stakepoold.Saved.Listing.{Sorted, create-All, create-Sorted, lookup-create}
use hxstakepool.Stakepoold.Saved.LastSeen.{NotLater, last_seen-create, last_seen-create_other}

lower_numbers : {version : Name} → codes "1.0.0" ≡ version → map to_lower version ≡ version
unfolding to_lower
lower_numbers e = subst (λ v. map to_lower v ≡ v) e refl

lower_version :
    (kind : DataKind) {version : Name}
    → get_data_names kind ≡ some version
    → map to_lower version ≡ version
lower_version added_low_fee_tickets known = lower_numbers (ground (arith, known))
lower_version live_tickets known = lower_numbers (ground (arith, known))
lower_version user_voting_config known = lower_numbers (ground (arith, known))
lower_version (other_kind name) known = absurd (ground (arith, known))

lower_gob : map to_lower (codes ".gob") ≡ codes ".gob"
unfolding to_lower
lower_gob = refl

-- The name under which a kind is saved is one that `loadData` looks for.
pub dest_filename-is_saved_as :
    (kind : DataKind) (date : Name) {version : Name}
    → get_data_names kind ≡ some version
    → is_saved_as kind version (dest_filename kind date version) ≡ true
unfolding is_saved_as
dest_filename-is_saved_as kind date {version} known =
    let p = map to_lower (filename_prefix kind) in
    let a = map to_lower (codes "-" ++ (date ++ codes "-")) in
    let g = codes ".gob" in
    let tail : map to_lower (version ++ g) ≡ version ++ g =
      cc (map-append to_lower version g, lower_version kind known, lower_gob) in
    let e : dest_filename kind date version ≡ p ++ (a ++ (version ++ g)) = cc (
      map-append to_lower (filename_prefix kind)
          ((codes "-" ++ (date ++ codes "-")) ++ (version ++ g)),
      map-append to_lower (codes "-" ++ (date ++ codes "-")) (version ++ g),
      tail,
    ) in
    let first : has_prefix p (p ++ (a ++ (version ++ g))) ≡ true =
      has_prefix-append p (a ++ (version ++ g)) in
    let middle : contains version (p ++ (a ++ (version ++ g))) ≡ true =
      subst (λ n. contains version n ≡ true) (append_assoc p a (version ++ g))
        (contains-append version (p ++ a) g) in
    let last : has_suffix g (p ++ (a ++ (version ++ g))) ≡ true =
      subst (λ n. has_suffix g n ≡ true)
        (append_assoc (p ++ a) version g ∙ append_assoc p a (version ++ g))
        (has_suffix-append g ((p ++ a) ++ version)) in
    subst (λ n. (has_prefix p n && contains version n && has_suffix g n) ≡ true) (sym e)
      (ground (arith, first, middle, last))

-- To write a file of a kind, in a directory that is there.
module _ (os : Os) (data_path : Name) (lower : map to_lower data_path ≡ data_path)
    (ctx : AppContext) (kind : DataKind) {version : Name}
    (known : get_data_names kind ≡ some version) {c : Contents}
    (saved : to_save ctx kind ≡ some c) where
  abbrev pub dest : Name
  dest = dest_filename kind (os.date kind) version

  -- No file of the kind comes after the new one.
  abbrev pub Ready : Directory → Type 0
  Ready files = Sorted files × All (NotLater kind version dest) files

  abbrev pub Written : Directory → Type 0
  Written files = (last_seen kind version files none ≡ some dest) × (lookup dest files ≡ some c)

  pub create-Ready :
      (name : Name) (d : Contents) (files : Directory)
      → NotLater kind version dest (name, d)
      → Ready files
      → Ready (create name d files)
  create-Ready name d files not_later (sorted, all) = (
    create-Sorted name d files sorted,
    create-All (NotLater kind version dest) name d files not_later all,
  )

  pub create-Written : (files : Directory) → Ready files → Written (create dest c files)
  create-Written files (sorted, all) = (
    last_seen-create kind version dest c files none
        (dest_filename-is_saved_as kind (os.date kind) known) sorted all,
    ground (arith, lookup-create dest dest c files, same_name_iff dest dest),
  )

  pub other-Written :
      (name : Name) (d : Contents) (files : Directory)
      → is_saved_as kind version name ≡ false
      → Written files
      → Written (create name d files)
  other-Written name d files other (found, held) =
      let mine = dest_filename-is_saved_as kind (os.date kind) known in
      (
        last_seen-create_other kind version name d files none other ∙ found,
        ground (arith, held, lookup-create name dest d files, same_name_iff name dest, other, mine),
      )
