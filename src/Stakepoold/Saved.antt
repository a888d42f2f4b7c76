-- ===== src/Stakepoold/Saved.antt =====
-- The files in which the daemon keeps its maps from one run to the next: `getDataNames`, `pruneData`,
-- `loadData` and `saveData` of backend/stakepoold/server.go, with the start's use of them. A gob file
-- holds the map that was encoded; to decode it adds its entries to the map that is there.
pub mod Names
pub mod Listing
pub mod LastSeen
pub mod Pruned
pub mod Kept
pub mod Written
pub mod Steps
pub mod Restart
mod Tests
use hxstakepool.Prelude.{
  ℕ, zero, suc, ◌+◌, ◌-◌, String, Bool, true, false, not, ◌&&◌, List, [], ◌∷◌, ◌++◌, map, Option,
  none, some, if◌then◌else◌, ◌==◌, leb, length, string_eq, nat_eq,
}
use hxstakepool.Prelude.Hex.{codes}
use hxstakepool.GoMap.{GoMap, lookup, put, put_all}
use hxstakepool.Stakepoold.Context.{Hash, UserVotingConfig, AppContext}
use Names.{Name, name_eq, less, to_lower, has_prefix, contains, has_suffix}

-- The fields of `saveFileSchema` without its version, and any other text.
pub data DataKind : Type 0 where
  added_low_fee_tickets live_tickets user_voting_config : DataKind
  other_kind : String → DataKind

abbrev pub filename_prefix : DataKind → Name
filename_prefix added_low_fee_tickets = codes "AddedLowFeeTickets"
filename_prefix live_tickets = codes "LiveTickets"
filename_prefix user_voting_config = codes "UserVotingConfig"
filename_prefix (other_kind name) = codes name

-- `getDataNames`: the version under each name.
abbrev pub get_data_names : DataKind → Option Name
get_data_names added_low_fee_tickets = some (codes "1.0.0")
get_data_names live_tickets = some (codes "1.0.0")
get_data_names user_voting_config = some (codes "1.0.0")
get_data_names (other_kind name) = none

abbrev pub save_files_to_keep : ℕ
save_files_to_keep = 10

-- What a file holds; `truncated` is a file that no map can be decoded from.
pub data Contents : Type 0 where
  tickets : GoMap Hash String → Contents
  configs : GoMap String UserVotingConfig → Contents
  truncated : Contents

-- A directory, in the order of its listing.
abbrev pub Directory : Type 0
Directory = GoMap Name Contents

-- The directories that are there, by their paths.
abbrev pub Disk : Type 0
Disk = GoMap Name Directory

-- What the operating system decides, and the time of `saveData` for each kind, as text.
pub record Os : Type 0 where
  pub read_dir_works : Bool
  pub open_works : Name → Bool
  pub create_works : Name → Bool
  pub write_works : Name → Bool
  pub remove_works : Name → Bool
  pub date : DataKind → Name

-- `os.Create` in a directory: the file is put at its place in the listing, and is empty.
unfoldable pub create : Name → Contents → Directory → Directory
unfolding less
create name c [] = (name, c) ∷ []
create name c ((other, d) ∷ files) =
    if other == name
    then (name, c) ∷ files
    else if less name other
    then (name, c) ∷ (other, d) ∷ files
    else (other, d) ∷ create name c files

-- `os.Remove`
unfoldable pub remove : Name → Directory → Directory
remove name [] = []
remove name ((other, d) ∷ files) =
    let rest = remove name files in if other == name then rest else (other, d) ∷ rest

-- The test that the loops over the listing share.
unfoldable pub is_saved_as : DataKind → (version name : Name) → Bool
is_saved_as kind version name =
    has_prefix (map to_lower (filename_prefix kind)) name
    && contains version name
    && has_suffix (codes ".gob") name

-- The loop that fills `filesToPrune`.
unfoldable pub files_to_prune : DataKind → (version : Name) → Directory → List Name
files_to_prune kind version [] = []
files_to_prune kind version ((name, c) ∷ files) =
    let rest = files_to_prune kind version files in
    if is_saved_as kind version name then name ∷ rest else rest

-- The loop over `filesToPrune`, which ends after `count` rounds.
unfoldable pub remove_first : Os → (count : ℕ) → List Name → Directory → Directory
remove_first os zero names files = files
remove_first os (suc count) [] files = files
remove_first os (suc count) (name ∷ names) files =
    remove_first os count names (if os.remove_works name then remove name files else files)

-- One round of the loop over the names.
unfoldable pub prune_kind : Os → DataKind → Name → Directory → Directory
prune_kind os kind version files =
    let names = files_to_prune kind version files in
    if leb (length names) save_files_to_keep
    then files
    else remove_first os (length names - save_files_to_keep) names files

-- The loop over the names, in the order in which the map gives them.
unfoldable pub prune_kinds : Os → List DataKind → Directory → Directory
prune_kinds os [] files = files
prune_kinds os (kind ∷ kinds) files = elim (get_data_names kind) [
  | none ↦ prune_kinds os kinds files
  | some version ↦ prune_kinds os kinds (prune_kind os kind version files)
]

-- The disk, and whether there was no error.
unfoldable pub prune_data : Os → List DataKind → (data_path : Name) → Disk → Disk × Bool
prune_data os kinds data_path disk = elim (lookup data_path disk) [
  | none ↦ (disk, false)
  | some files ↦
      if os.read_dir_works
      then (put data_path (prune_kinds os kinds files) disk, true)
      else (disk, false)
]

-- The loop over the listing, with `lastseen`.
unfoldable pub last_seen : DataKind → (version : Name) → Directory → Option Name → Option Name
last_seen kind version [] seen = seen
last_seen kind version ((name, c) ∷ files) seen =
    last_seen kind version files (if is_saved_as kind version name then some name else seen)

abbrev pub decode_tickets : Contents → GoMap Hash String → Option (GoMap Hash String)
decode_tickets (tickets saved) held = some (put_all saved held)
decode_tickets (configs saved) held = none
decode_tickets truncated held = none

abbrev pub decode_configs :
    Contents → GoMap String UserVotingConfig → Option (GoMap String UserVotingConfig)
decode_configs (configs saved) held = some (put_all saved held)
decode_configs (tickets saved) held = none
decode_configs truncated held = none

-- The switch on the kind, after the file was opened.
unfoldable pub decode : DataKind → Contents → AppContext → Option AppContext
decode added_low_fee_tickets c ctx = elim (decode_tickets c ctx.added_low_fee_tickets_msa) [
  | none ↦ none
  | some m ↦ some (record ctx { added_low_fee_tickets_msa = m })
]
decode live_tickets c ctx = elim (decode_tickets c ctx.live_tickets_msa) [
  | none ↦ none
  | some m ↦ some (record ctx { live_tickets_msa = m })
]
decode user_voting_config c ctx = elim (decode_configs c ctx.user_voting_config) [
  | none ↦ none
  | some m ↦ some (record ctx { user_voting_config = m })
]
decode (other_kind name) c ctx = some ctx

-- The state, and whether there was no error.
unfoldable pub load_data :
    Os → (data_path : Name) → Disk → DataKind → AppContext → AppContext × Bool
load_data os data_path disk kind ctx = elim (get_data_names kind) [
  | none ↦ (ctx, false)
  | some version ↦ elim (lookup data_path disk) [
    | none ↦ (ctx, false)
    | some files ↦
        if not os.read_dir_works then (ctx, false) else elim (last_seen kind version files none) [
          | none ↦ (ctx, true)
          | some name ↦
              if not (os.open_works name) then (ctx, false) else elim (lookup name files) [
                | none ↦ (ctx, false)
                | some c ↦ elim (decode kind c ctx) [
                  | none ↦ (ctx, false)
                  | some ctx2 ↦ (ctx2, true)
                ]
              ]
        ]
  ]
]

abbrev pub if_filled {ℓ} : {A : Type ℓ} → (List A → Contents) → List A → Option Contents
if_filled as_contents [] = none
if_filled as_contents (x ∷ xs) = some (as_contents (x ∷ xs))

-- What is saved of a kind, nothing where it is skipped.
abbrev pub to_save : AppContext → DataKind → Option Contents
to_save ctx added_low_fee_tickets = if_filled tickets ctx.added_low_fee_tickets_msa
to_save ctx live_tickets = if_filled tickets ctx.live_tickets_msa
to_save ctx user_voting_config = if_filled configs ctx.user_voting_config
to_save ctx (other_kind name) = none

-- `dataFilenameTemplate`, with its three words replaced and then in lower case.
abbrev pub dest_filename : DataKind → (date version : Name) → Name
dest_filename kind date version =
    map to_lower
      (filename_prefix kind ++ ((codes "-" ++ (date ++ codes "-")) ++ (version ++ codes ".gob")))

-- One round of the loop, with the path that is in lower case as the name is.
unfoldable pub save_kind : Os → (data_path : Name) → AppContext → DataKind → Name → Disk → Disk
save_kind os data_path ctx kind version disk =
    let name = dest_filename kind (os.date kind) version in
    let dir = map to_lower data_path in
    elim (to_save ctx kind) [
      | none ↦ disk
      | some c ↦ elim (lookup dir disk) [
        | none ↦ disk
        | some files ↦
            if not (os.create_works name)
            then disk
            else put dir (create name (if os.write_works name then c else truncated) files) disk
      ]
    ]

unfoldable pub save_data : Os → List DataKind → (data_path : Name) → AppContext → Disk → Disk
save_data os [] data_path ctx disk = disk
save_data os (kind ∷ kinds) data_path ctx disk = elim (get_data_names kind) [
  | none ↦ save_data os kinds data_path ctx disk
  | some version ↦ save_data os kinds data_path ctx (save_kind os data_path ctx kind version disk)
]
