-- ===== src/Wallets/Scripts/Tests.antt =====
-- Two wallets, of which the second lacks the script of the first and the one of the database.
use hxstakepool.Prelude.{
  ℕ, true, List, [], ◌∷◌, none, some, if◌then◌else◌, nat_beq, refl, ◌⊎◌, inl, inr, length,
}
use hxstakepool.GoMap.{put, lookup, put_all}
use hxstakepool.Wallets.Types.{answer, Server}
use hxstakepool.Wallets.Lifecycle.{check_if_wallet_connected}
use hxstakepool.Wallets.Tickets.{fetch_transaction}
use hxstakepool.Wallets.Scripts.{
  ScriptUser, Wallets, wallet_svrs_sync, check_connected, sync_indices, scripts_of_db,
  scripts_of_wallets, scripts_of_wallet, sync_wallets, import_all, import_missing, sync_all_tickets,
  tickets_of_wallets, add_all, add_tickets,
}
use hxstakepool.Wallets.Scripts.Laws.{Lists, WasImported}
use hxstakepool.Wallets.Scripts.Complete.{wallet_svrs_sync_complete}

-- A hash is the length of its script.
abbrev wallets : Wallets ℕ
wallets = record {
  hash_h = length;
  wallet_info = λ s.
      answer (record { daemon_connected = true; unlocked = true; voting = true; vote_version = 4 });
  account_sync_address_index = λ s. none;
  list_scripts = λ s. if nat_beq s 1 then answer ((5 ∷ []) ∷ []) else answer [];
  import_script_rescan_from = λ s v. none;
  get_tickets = λ s. if nat_beq s 1 then answer (7 ∷ []) else answer [];
  get_raw_transaction = λ s h. some h;
  add_ticket = λ s tx. none;
}

abbrev servers : List Server
servers = some 1 ∷ some 2 ∷ []

abbrev users : List ScriptUser
users =
    record { multi_sig_script = none; height_registered = 3 }
    ∷ record { multi_sig_script = some (8 ∷ 9 ∷ []); height_registered = 4 }
    ∷ []

wallet_svrs_sync_complete_example :
    Lists wallets 2 1 ⊎ WasImported wallets (wallet_svrs_sync wallets servers users).0 2 1
wallet_svrs_sync_complete_example =
    wallet_svrs_sync_complete wallets servers users 2 1 (λ e. absurd cc)
      (unfold wallet_svrs_sync check_connected check_if_wallet_connected sync_indices scripts_of_db
          scripts_of_wallets scripts_of_wallet sync_wallets import_all import_missing
          sync_all_tickets tickets_of_wallets add_all add_tickets fetch_transaction put lookup
          put_all in
        refl)
      (inr (inl refl)) (inr (1, inl refl, ((5 ∷ []) ∷ [], refl, refl)))
