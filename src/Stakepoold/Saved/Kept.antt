-- ===== src/Stakepoold/Saved/Kept.antt =====
-- `pruneData` keeps the files that `loadData` reads.
use hxstakepool.Prelude.{
  ℕ, zero, suc, ◌-◌, ◌<◌, List, [], ◌∷◌, Option, none, some, if◌then◌else◌, ◌≡◌, refl, ◌∙◌, sym,
  subst, arith, inl, inr, length, leb, Bool-cases, Option-cases,
}
use hxstakepool.GoMap.{lookup, put}
use hxstakepool.GoMap.Laws.{lookup-put}
use hxstakepool.Stakepoold.Context.{AppContext}
use hxstakepool.Stakepoold.Saved.Names.{Name, name_eq}
use hxstakepool.Stakepoold.Saved.{
  DataKind, Directory, Disk, Os, get_data_names, remove, is_saved_as, files_to_prune, last_seen,
  remove_first, prune_kind, prune_kinds, prune_data, load_data,
}
use hxstakepool.Stakepoold.Saved.Listing.{Sorted, remove-Sorted}
use hxstakepool.Stakepoold.Saved.LastSeen.{last_seen_sound}
use hxstakepool.Stakepoold.Saved.Pruned.{
  is_saved_as-one, Spared, Spared-none, Loads, remove_first-Loads, files_to_prune-Spared,
  other-Spared,
}

remove_first-Sorted :
    (os : Os) (count : ℕ) (names : List Name) (files : Directory)
    → Sorted files
    → Sorted (remove_first os count names files)
unfolding remove_first
remove_first-Sorted os zero names files sorted = sorted
remove_first-Sorted os (suc count) [] files sorted = sorted
remove_first-Sorted os (suc count) (x ∷ names) files sorted =
    let next = if os.remove_works x then remove x files else files in
    let after : Sorted next =
      ground (arith, sorted, remove-Sorted x files sorted, Bool-cases (os.remove_works x)) in
    remove_first-Sorted os count names next after

module _ (os : Os) where
  prune_kind-Sorted :
      (kind : DataKind) (version : Name) (files : Directory)
      → Sorted files
      → Sorted (prune_kind os kind version files)
  unfolding prune_kind
  prune_kind-Sorted kind version files sorted =
      let names = files_to_prune kind version files in
      let count = length names - 10 in
      ground (
        arith,
        sorted,
        remove_first-Sorted os count names files sorted,
        Bool-cases (leb (length names) 10),
      )

  module _ (kind : DataKind) {version : Name} (known : get_data_names kind ≡ some version) where
    names-Spared :
        (other : DataKind) {w : Name} (y : Name) (count : ℕ) (files : Directory)
        → get_data_names other ≡ some w
        → Sorted files
        → last_seen kind version files none ≡ some y
        → count < length (files_to_prune other w files)
        → Spared (some y) count (files_to_prune other w files)
    names-Spared other {w} y count files known2 sorted found more =
        elim (Bool-cases (is_saved_as other w y)) [
          | inr differ ↦ other-Spared other w y count files differ
          | inl saved ↦
              let fits =
                last_seen_sound kind version y files none (λ x h. absurd (ground (arith, h)))
                  found in
              let one : kind ≡ other = is_saved_as-one kind other y known known2 fits saved in
              let two : version ≡ w =
                ground (arith, known2, subst (λ k. get_data_names k ≡ some version) one known) in
              files_to_prune-Spared other w y count files none sorted more (
                subst (λ v. last_seen other v files none ≡ some y) two
                  (subst (λ k. last_seen k version files none ≡ some y) one found))
        ]

    prune_kind-Loads :
        (other : DataKind) {w : Name} (loaded : Option Name) (before files : Directory)
        → get_data_names other ≡ some w
        → Sorted files
        → Loads kind version loaded before files
        → Loads kind version loaded before (prune_kind os other w files)
    unfolding prune_kind
    prune_kind-Loads other {w} loaded before files known2 sorted loads =
        let names = files_to_prune other w files in
        let count = length names - 10 in
        elim (Bool-cases (leb (length names) 10)) [
          | inl few ↦
              let e : prune_kind os other w files ≡ files = ground (arith, few) in
              subst (Loads kind version loaded before) (sym e) loads
          | inr many ↦
              let e : prune_kind os other w files ≡ remove_first os count names files =
                ground (arith, many) in
              let spared : Spared loaded count names = elim (Option-cases loaded) [
                | inl nothing ↦
                    subst (λ l. Spared l count names) (sym nothing) (Spared-none count names)
                | inr (y, is) ↦
                    subst (λ l. Spared l count names) (sym is)
                      (names-Spared other y count files known2 sorted (loads.0 ∙ is)
                        (ground (arith, many)))
              ] in
              subst (Loads kind version loaded before) (sym e)
                (remove_first-Loads kind version os loaded count names before files spared loads)
        ]

    prune_kinds-Loads :
        (kinds : List DataKind) (loaded : Option Name) (before files : Directory)
        → Sorted files
        → Loads kind version loaded before files
        → Loads kind version loaded before (prune_kinds os kinds files)
    unfolding prune_kinds
    prune_kinds-Loads [] loaded before files sorted loads = loads
    prune_kinds-Loads (other ∷ kinds) loaded before files sorted loads =
        elim (Option-cases (get_data_names other)) [
          | inl unknown ↦
              let e : prune_kinds os (other ∷ kinds) files ≡ prune_kinds os kinds files =
                ground (arith, unknown) in
              subst (Loads kind version loaded before) (sym e)
                (prune_kinds-Loads kinds loaded before files sorted loads)
          | inr (w, known2) ↦
              let next = prune_kind os other w files in
              let e : prune_kinds os (other ∷ kinds) files ≡ prune_kinds os kinds next =
                ground (arith, known2) in
              subst (Loads kind version loaded before) (sym e) (
                prune_kinds-Loads kinds loaded before next (prune_kind-Sorted other w files sorted)
                  (prune_kind-Loads other loaded before files known2 sorted loads))
        ]

    -- To load is to find the last file and its contents.
    load_data-Loads :
        (data_path : Name) (disk disk2 : Disk) (before files : Directory) (ctx : AppContext)
        → lookup data_path disk ≡ some before
        → lookup data_path disk2 ≡ some files
        → Loads kind version (last_seen kind version before none) before files
        → load_data os data_path disk2 kind ctx ≡ load_data os data_path disk kind ctx
    unfolding load_data
    load_data-Loads data_path disk disk2 before files ctx at at2 (found, same) =
        elim (Option-cases (last_seen kind version before none)) [
          | inl nothing ↦
              ground (arith, known, at, at2, found, nothing, Bool-cases os.read_dir_works)
          | inr (y, is) ↦ ground (
            arith,
            known,
            at,
            at2,
            found,
            is,
            same y is,
            Bool-cases os.read_dir_works,
            Bool-cases (os.open_works y),
            Option-cases (lookup y before),
          )
        ]

    -- Where the listing of the data path is in order, each kind of data is loaded after `pruneData`, of
    -- whatever order of the names and whichever removals fail, as it would have been before.
    pub prune_data-load_data :
        (kinds : List DataKind) (data_path : Name) (disk : Disk) {files : Directory}
        (ctx : AppContext)
        → lookup data_path disk ≡ some files
        → Sorted files
        → load_data os data_path (prune_data os kinds data_path disk).0 kind ctx
          ≡ load_data os data_path disk kind ctx
    unfolding prune_data
    prune_data-load_data kinds data_path disk {files} ctx at sorted =
        let pruned = prune_kinds os kinds files in
        let disk2 = put data_path pruned disk in
        elim (Bool-cases os.read_dir_works) [
          | inr fails ↦ ground (arith, at, fails)
          | inl works ↦
              let e : (prune_data os kinds data_path disk).0 ≡ disk2 = ground (arith, at, works) in
              let at2 : lookup data_path disk2 ≡ some pruned = ground (
                arith,
                lookup-put data_path data_path pruned disk,
                name_eq.beq_iff data_path data_path,
              ) in
              let loads =
                prune_kinds-Loads kinds (last_seen kind version files none) files files sorted
                  (refl, λ y h. refl) in
              subst (λ d. load_data os data_path d kind ctx ≡ load_data os data_path disk kind ctx)
                (sym e) (load_data-Loads data_path disk disk2 files pruned ctx at at2 loads)
        ]
