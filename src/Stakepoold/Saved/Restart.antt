-- ===== src/Stakepoold/Saved/Restart.antt =====
-- What is loaded at a start after a run that saved its maps.
use hxstakepool.Prelude.{
  String, Bool, true, List, [], ◌∷◌, map, Option, none, some, ◌≡◌, refl, ◌∙◌, sym, subst, arith,
  All, Member, string_eq, nat_eq, Eq,
}
use hxstakepool.GoMap.{GoMap, lookup, put_all, IsMap}
use hxstakepool.GoMap.Laws.{or_else, lookup-put_all}
use hxstakepool.Stakepoold.Context.{Hash, AppContext}
use hxstakepool.Stakepoold.Saved.Names.{Name, name_eq, to_lower}
use hxstakepool.Stakepoold.Saved.{
  DataKind, added_low_fee_tickets, live_tickets, user_voting_config, other_kind, Contents,
  Directory, Disk, Os, get_data_names, to_save, if_filled, dest_filename, save_data, decode,
  load_data, prune_data,
}
use hxstakepool.Stakepoold.Saved.Listing.{Sorted}
use hxstakepool.Stakepoold.Saved.LastSeen.{NotLater}
use hxstakepool.Stakepoold.Saved.Kept.{prune_data-load_data}
use hxstakepool.Stakepoold.Saved.Steps.{Reached, save_data-Reached}

-- The map of a kind has each key once, as every Go map.
abbrev pub HasMap : DataKind → AppContext → Type 0
HasMap added_low_fee_tickets ctx = IsMap ctx.added_low_fee_tickets_msa
HasMap live_tickets ctx = IsMap ctx.live_tickets_msa
HasMap user_voting_config ctx = IsMap ctx.user_voting_config
HasMap (other_kind name) ctx = Unit

abbrev pub IsEmpty : DataKind → AppContext → Type 0
IsEmpty added_low_fee_tickets ctx = ctx.added_low_fee_tickets_msa ≡ []
IsEmpty live_tickets ctx = ctx.live_tickets_msa ≡ []
IsEmpty user_voting_config ctx = ctx.user_voting_config ≡ []
IsEmpty (other_kind name) ctx = Unit

-- The two states hold the same under each key of the kind's map.
abbrev pub Agree : DataKind → AppContext → AppContext → Type 0
Agree added_low_fee_tickets ctx after =
    (j : Hash) → lookup j after.added_low_fee_tickets_msa ≡ lookup j ctx.added_low_fee_tickets_msa
Agree live_tickets ctx after =
    (j : Hash) → lookup j after.live_tickets_msa ≡ lookup j ctx.live_tickets_msa
Agree user_voting_config ctx after =
    (j : String) → lookup j after.user_voting_config ≡ lookup j ctx.user_voting_config
Agree (other_kind name) ctx after = Unit

if_filled-some :
    {A : Type 0} (as_contents : List A → Contents) (xs : List A) {c : Contents}
    → if_filled as_contents xs ≡ some c
    → c ≡ as_contents xs
if_filled-some as_contents [] e = absurd (ground (arith, e))
if_filled-some as_contents (x ∷ xs) e = ground (arith, e)

or_else-none : {A : Type 0} (o : Option A) → or_else o none ≡ o
or_else-none none = refl
or_else-none (some a) = refl

put_all-fresh :
    {K V : Type 0} ⦃e : Eq K⦄ (from into : GoMap K V) (j : K)
    → into ≡ []
    → IsMap from
    → lookup j (put_all from into) ≡ lookup j from
unfolding lookup
put_all-fresh from into j fresh once =
    subst (λ m. lookup j (put_all from m) ≡ lookup j from) (sym fresh)
      (lookup-put_all j from [] once ∙ or_else-none (lookup j from))

decode-Agree :
    (kind : DataKind) (ctx started : AppContext) {version : Name} {c : Contents}
    → get_data_names kind ≡ some version
    → to_save ctx kind ≡ some c
    → HasMap kind ctx
    → IsEmpty kind started
    → (after : AppContext) × (decode kind c started ≡ some after) × Agree kind ctx after
unfolding decode
decode-Agree added_low_fee_tickets ctx started known saved once fresh =
    let from = ctx.added_low_fee_tickets_msa in
    let is = if_filled-some Contents.tickets from saved in
    let m = put_all from started.added_low_fee_tickets_msa in
    (
      record started { added_low_fee_tickets_msa = m },
      ground (arith, is),
      λ j. put_all-fresh from _ j fresh once,
    )
decode-Agree live_tickets ctx started known saved once fresh =
    let from = ctx.live_tickets_msa in
    let is = if_filled-some Contents.tickets from saved in
    let m = put_all from started.live_tickets_msa in
    (
      record started { live_tickets_msa = m },
      ground (arith, is),
      λ j. put_all-fresh from _ j fresh once,
    )
decode-Agree user_voting_config ctx started known saved once fresh =
    let from = ctx.user_voting_config in
    let is = if_filled-some Contents.configs from saved in
    let m = put_all from started.user_voting_config in
    (
      record started { user_voting_config = m },
      ground (arith, is),
      λ j. put_all-fresh from _ j fresh once,
    )
decode-Agree (other_kind name) ctx started known saved once fresh = absurd (ground (arith, known))

module _ (os os2 : Os) (data_path : Name) (lower : map to_lower data_path ≡ data_path)
    (ctx started : AppContext) (kind : DataKind) {version : Name}
    (known : get_data_names kind ≡ some version) {c : Contents}
    (saved : to_save ctx kind ≡ some c) where
  -- Where a run saves its maps in a data path without capitals, its map of a kind is not empty, and the
  -- file of the kind can be created, written, listed and opened and comes after all older ones of the
  -- kind, then the next start, which prunes the files and loads the kind into an empty map, has no error
  -- and finds under each key what the run had there.
  pub save_data-Agree :
      (kinds pruned : List DataKind) (disk : Disk) {files : Directory}
      → let name = dest_filename kind (os.date kind) version in
        os.create_works name ≡ true
        → os.write_works name ≡ true
        → os2.read_dir_works ≡ true
        → os2.open_works name ≡ true
        → lookup data_path disk ≡ some files
        → Sorted files
        → All (NotLater kind version name) files
        → Member kind kinds
        → HasMap kind ctx
        → IsEmpty kind started
        → let after =
            load_data os2 data_path
              (prune_data os2 pruned data_path (save_data os kinds data_path ctx disk)).0
              kind
              started in
          (after.1 ≡ true) × Agree kind ctx after.0
  unfolding load_data
  save_data-Agree kinds pruned disk {files} creates writes reads opens at sorted not_later m once
        fresh =
      let name = dest_filename kind (os.date kind) version in
      let disk2 = save_data os kinds data_path ctx disk in
      let (files2, at2, ready, written) : Reached os data_path lower ctx kind known saved creates
          writes true disk2 =
        save_data-Reached os data_path lower ctx kind known saved creates writes kinds disk m
          (files, at, (sorted, not_later), λ e. absurd cc) in
      let (found, held) = written refl in
      let (after, is, agree) = decode-Agree kind ctx started known saved once fresh in
      let e : load_data os2 data_path disk2 kind started ≡ (after, true) =
        ground (arith, known, at2, reads, opens, found, held, is) in
      let e2 = prune_data-load_data os2 kind known pruned data_path disk2 started at2 ready.0 ∙ e in
      subst (λ (r : AppContext × Bool). (r.1 ≡ true) × Agree kind ctx r.0) (sym e2) (refl, agree)
