-- ===== src/Stakepoold/Saved/Steps.antt =====
-- `saveData`: what its rounds do to the directory, in whatever order they come.
use hxstakepool.Prelude.{
  Bool, true, false, List, [], ◌∷◌, map, some, if◌then◌else◌, ◌≡◌, ◌⊎◌, refl, sym, subst, arith,
  inl, inr, Member, Bool-cases, Option-cases,
}
use hxstakepool.GoMap.{lookup}
use hxstakepool.GoMap.Laws.{lookup-put}
use hxstakepool.Stakepoold.Context.{AppContext}
use hxstakepool.Stakepoold.Saved.Names.{Name, name_eq, to_lower, less_irrefl}
use hxstakepool.Stakepoold.Saved.{
  DataKind, Contents, truncated, Directory, Disk, Os, get_data_names, create, is_saved_as, to_save,
  dest_filename, save_kind, save_data,
}
use hxstakepool.Stakepoold.Saved.Pruned.{is_saved_as-one}
use hxstakepool.Stakepoold.Saved.Written.{
  dest_filename-is_saved_as, dest, Ready, Written, create-Ready, create-Written, other-Written,
}

module _ (os : Os) (data_path : Name) (lower : map to_lower data_path ≡ data_path)
    (ctx : AppContext) where
  -- A round writes one file, or it leaves the directory alone.
  save_kind-lookup :
      (other : DataKind) (w : Name) (disk : Disk) {files : Directory}
      → lookup data_path disk ≡ some files
      → let disk2 = save_kind os data_path ctx other w disk in
        (lookup data_path disk2 ≡ some files)
        ⊎ ((d : Contents) × (lookup data_path disk2
              ≡ some (create (dest_filename other (os.date other) w) d files)))
  unfolding save_kind
  save_kind-lookup other w disk {files} at =
      let name = dest_filename other (os.date other) w in
      elim (Option-cases (to_save ctx other)) [
        | inl skipped ↦ inl (ground (arith, skipped, at))
        | inr (c, filled) ↦
            let d = if os.write_works name then c else truncated in
            elim (Bool-cases (os.create_works name)) [
              | inl works ↦
                  let after = lookup-put data_path data_path (create name d files) disk in
                  inr (
                    d,
                    ground (
                      arith,
                      filled,
                      at,
                      lower,
                      works,
                      after,
                      name_eq.beq_iff data_path data_path,
                    ),
                  )
              | inr fails ↦ inl (ground (arith, filled, at, lower, fails))
            ]
      ]

  module _ (kind : DataKind) {version : Name} (known : get_data_names kind ≡ some version)
      {c : Contents} (saved : to_save ctx kind ≡ some c)
      (creates : os.create_works (dest_filename kind (os.date kind) version) ≡ true)
      (writes : os.write_works (dest_filename kind (os.date kind) version) ≡ true) where
    save_kind-own :
        (disk : Disk) {files : Directory}
        → lookup data_path disk ≡ some files
        → lookup data_path (save_kind os data_path ctx kind version disk)
          ≡ some (create (dest os data_path lower ctx kind known saved) c files)
    unfolding save_kind
    save_kind-own disk {files} at =
        let name = dest os data_path lower ctx kind known saved in
        ground (
          arith,
          saved,
          at,
          lower,
          creates,
          writes,
          lookup-put data_path data_path (create name c files) disk,
          name_eq.beq_iff data_path data_path,
        )

    abbrev pub IsReady : Directory → Type 0
    IsReady = Ready os data_path lower ctx kind known saved

    abbrev pub IsWritten : Directory → Type 0
    IsWritten = Written os data_path lower ctx kind known saved

    -- The directory after a step; `done` where the kind's file is written.
    abbrev pub Reached : (done : Bool) → Disk → Type 0
    Reached done disk =
        (files : Directory) × (lookup data_path disk ≡ some files)
        × IsReady files
        × (done ≡ true → IsWritten files)

    own-Reached :
        (disk : Disk)
        → Reached false disk
        → Reached true (save_kind os data_path ctx kind version disk)
    own-Reached disk (files, at, ready, _) =
        let name = dest os data_path lower ctx kind known saved in
        (
          create name c files,
          save_kind-own disk at,
          create-Ready os data_path lower ctx kind known saved name c files (λ _. less_irrefl name)
              ready,
          λ _. create-Written os data_path lower ctx kind known saved files ready,
        )

    step-Reached :
        (done : Bool) (other : DataKind) {w : Name} (disk : Disk)
        → get_data_names other ≡ some w
        → Reached done disk
        → Reached done (save_kind os data_path ctx other w disk)
    step-Reached done other {w} disk known2 (files, at, ready, written) =
        let name = dest_filename other (os.date other) w in
        elim (Bool-cases (is_saved_as kind version name)) [
          | inl mine ↦
              let one : kind ≡ other =
                is_saved_as-one kind other name known known2 mine
                  (dest_filename-is_saved_as other (os.date other) known2) in
              let two : version ≡ w =
                ground (arith, known2, subst (λ k. get_data_names k ≡ some version) one known) in
              let (files2, at2, ready2, written2) =
                own-Reached disk (files, at, ready, λ e. absurd cc) in
              (
                files2,
                subst
                    (λ v. lookup data_path (save_kind os data_path ctx other v disk) ≡ some files2)
                    two
                    (subst
                      (λ k.
                        lookup data_path (save_kind os data_path ctx k version disk) ≡ some files2)
                      one at2),
                ready2,
                λ _. written2 refl,
              )
          | inr differ ↦ elim (save_kind-lookup other w disk at) [
            | inl same ↦ (files, same, ready, written)
            | inr (d, at2) ↦ (
              create name d files,
              at2,
              create-Ready os data_path lower ctx kind known saved name d files
                  (λ mine. absurd (ground (arith, mine, differ))) ready,
              λ e.
                  other-Written os data_path lower ctx kind known saved name d files differ
                    (written e),
            )
          ]
        ]

    save_data-kept :
        (done : Bool) (kinds : List DataKind) (disk : Disk)
        → Reached done disk
        → Reached done (save_data os kinds data_path ctx disk)
    unfolding save_data
    save_data-kept done [] disk reached = reached
    save_data-kept done (other ∷ kinds) disk reached =
        let after = save_data os (other ∷ kinds) data_path ctx disk in
        elim (Option-cases (get_data_names other)) [
          | inl unknown ↦
              let e : after ≡ save_data os kinds data_path ctx disk = ground (arith, unknown) in
              subst (Reached done) (sym e) (save_data-kept done kinds disk reached)
          | inr (w, known2) ↦
              let next = save_kind os data_path ctx other w disk in
              let e : after ≡ save_data os kinds data_path ctx next = ground (arith, known2) in
              subst (Reached done) (sym e)
                (save_data-kept done kinds next (step-Reached done other disk known2 reached))
        ]

    pub save_data-Reached :
        (kinds : List DataKind) (disk : Disk)
        → Member kind kinds
        → Reached false disk
        → Reached true (save_data os kinds data_path ctx disk)
    unfolding save_data
    save_data-Reached [] disk m reached = elim m [ ]
    save_data-Reached (other ∷ kinds) disk m reached =
        let after = save_data os (other ∷ kinds) data_path ctx disk in
        elim m [
          | inl here ↦
              let next = save_kind os data_path ctx kind version disk in
              let e : after ≡ save_data os kinds data_path ctx next = ground (arith, known, here) in
              subst (Reached true) (sym e)
                (save_data-kept true kinds next (own-Reached disk reached))
          | inr there ↦ elim (Option-cases (get_data_names other)) [
            | inl unknown ↦
                let e : after ≡ save_data os kinds data_path ctx disk = ground (arith, unknown) in
                subst (Reached true) (sym e) (save_data-Reached kinds disk there reached)
            | inr (w, known2) ↦
                let next = save_kind os data_path ctx other w disk in
                let e : after ≡ save_data os kinds data_path ctx next = ground (arith, known2) in
                subst (Reached true) (sym e) (
                  save_data-Reached kinds next there (step-Reached false other disk known2 reached))
          ]
        ]
