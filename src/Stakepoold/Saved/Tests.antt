-- ===== src/Stakepoold/Saved/Tests.antt =====
-- A data path with one older file.
use hxstakepool.Prelude.{string_eq, nat_eq, true, false, List, [], ◌∷◌, ◌≡◌, refl, inl, inr}
use hxstakepool.Prelude.Hex.{codes}
use hxstakepool.GoMap.{lookup, put, put_all}
use hxstakepool.Stakepoold.Context.{AppContext}
use hxstakepool.Stakepoold.Saved.Names.{
  Name, name_eq, less, to_lower, has_prefix, contains, has_suffix,
}
use hxstakepool.Stakepoold.Saved.{
  DataKind, added_low_fee_tickets, live_tickets, user_voting_config, tickets, Directory, Disk, Os,
  is_saved_as, last_seen, save_data, decode, load_data, prune_data,
}
use hxstakepool.Stakepoold.Saved.Kept.{prune_data-load_data}
use hxstakepool.Stakepoold.Saved.Restart.{Agree, save_data-Agree}

abbrev date : Name
date = codes "2018_02_03_04_05_06"

abbrev os : Os
os = record {
  read_dir_works = true;
  open_works = λ name. true;
  create_works = λ name. true;
  write_works = λ name. true;
  remove_works = λ name. true;
  date = λ kind. date;
}

abbrev old_name : Name
old_name = codes "livetickets-2018_01_02_03_04_05-1.0.0.gob"

abbrev files : Directory
files = (old_name, tickets ((7, "DcOld") ∷ [])) ∷ []

abbrev data_path : Name
data_path = codes "/data"

abbrev disk : Disk
disk = (data_path, files) ∷ []

abbrev kinds : List DataKind
kinds = user_voting_config ∷ live_tickets ∷ added_low_fee_tickets ∷ []

abbrev started : AppContext
started = record {
  added_low_fee_tickets_msa = [];
  ignored_low_fee_tickets_msa = [];
  live_tickets_msa = [];
  user_voting_config = [];
  fee_addrs = [];
  pool_fees = 5;
  voting_config = record { vote_bits = 1; vote_version = 4; vote_bits_extended = "" };
  testing = false;
}

abbrev ctx : AppContext
ctx = record started { live_tickets_msa = (8, "DcOne") ∷ (9, "DcTwo") ∷ [] }

-- The older file is read where there is no newer one.
loads_old :
    (load_data os data_path disk live_tickets started).0.live_tickets_msa ≡ (7, "DcOld") ∷ []
unfolding load_data lookup last_seen is_saved_as has_prefix contains has_suffix to_lower decode put
    put_all
loads_old = refl

prune_data-load_data_example :
    load_data os data_path (prune_data os kinds data_path disk).0 live_tickets started
    ≡ load_data os data_path disk live_tickets started
prune_data-load_data_example =
    prune_data-load_data os live_tickets {version = codes "1.0.0"} refl kinds data_path disk
      {files = files} started (unfold lookup in refl) (tt, tt)

save_data-Agree_example :
    let after =
      load_data os data_path
        (prune_data os kinds data_path (save_data os kinds data_path ctx disk)).0
        live_tickets
        started in
    (after.1 ≡ true) × Agree live_tickets ctx after.0
save_data-Agree_example =
    save_data-Agree os os data_path (unfold to_lower in refl) ctx started live_tickets
      {version = codes "1.0.0"} refl {c = tickets ctx.live_tickets_msa} refl kinds kinds disk
      {files = files} refl refl refl refl (unfold lookup in refl) (tt, tt)
      (unfold less to_lower in (λ _. refl, tt)) (inr (inl refl))
      (unfold lookup in (refl, (refl, tt))) refl
