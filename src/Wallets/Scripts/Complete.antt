-- ===== src/Wallets/Scripts/Complete.antt =====
-- After a synchronisation without an error each wallet has every script.
use hxstakepool.Prelude.{
  ℕ, true, List, [], ◌∷◌, ◌++◌, Option, none, some, if◌then◌else◌, nat_eq, ◌==◌, ◌≡◌, ◌≢◌, refl,
  arith, Member, ◌⊎◌, inl, inr, Bool-cases, Option-cases, map, length, subst, sym,
}
use hxstakepool.Prelude.Result.{ok, Result-cases}
use hxstakepool.GoMap.{lookup, put, has}
use hxstakepool.GoMap.Laws.{elem}
use hxstakepool.Wallets.Types.{answer, Answer-cases, Server, SvrError}
use hxstakepool.Wallets.Scripts.{
  ScriptHeight, ScriptUser, Wallets, Call, imported, Scripts, scripts_or_nil, then_call,
  scripts_of_db, scripts_of_wallet, scripts_of_wallets, import_missing, import_all, sync_wallets,
  wallet_svrs_sync, check_connected, sync_indices,
}
use hxstakepool.Wallets.Scripts.Laws.{
  Member-append, append-Member, WasImported, Keyed, Lists, import_missing-WasImported, has-put,
  put-Keyed, scripts_of_db-has, scripts_of_db-Member,
}

module _ {Tx : Type 0} (w : Wallets Tx) where
  -- What one wallet adds to the two maps.
  record OneWallet (scripts : List (List ℕ)) (own all own' all' : Scripts) : Type 0 where
    keyed : Keyed w all'
    kept : (h : ℕ) → has h all ≡ true → has h all' ≡ true
    reached : (h : ℕ) → elem h (map w.hash_h scripts) ≡ true → has h all' ≡ true
    listed :
        (h : ℕ) → has h own' ≡ true → (has h own ≡ true) ⊎ (elem h (map w.hash_h scripts) ≡ true)

  scripts_of_wallet-OneWallet :
      (scripts : List (List ℕ)) (own all : Scripts)
      → Keyed w all
      → let maps = scripts_of_wallet w scripts (own, all) in OneWallet scripts own all maps.0 maps.1
  unfolding scripts_of_wallet
  scripts_of_wallet-OneWallet [] own all keyed = record {
    keyed = keyed;
    kept = λ h m. m;
    reached = λ h e. absurd cc;
    listed = λ h m. inl m;
  }
  scripts_of_wallet-OneWallet (script ∷ rest) own all keyed =
      let k = w.hash_h script in
      let v : ScriptHeight = record { script = script; height = 0 } in
      let all1 = if has k all then all else put k v all in
      let keyed1 : Keyed w all1 = ground (arith, keyed, put-Keyed w v all keyed) in
      let later = scripts_of_wallet-OneWallet rest (put k v own) all1 keyed1 in
      record {
        keyed = later.keyed;
        kept = λ h m. later.kept h (ground (arith, m, has-put w k h v all));
        reached = λ h e. elim (Bool-cases (k == h)) [
          | inl same ↦ later.kept h (ground (arith, same, has-put w k h v all))
          | inr other ↦ later.reached h (ground (arith, e, other))
        ];
        listed = λ h m. elim (later.listed h m) [
          | inl old ↦ ground (arith, old, has-put w k h v own)
          | inr new ↦ inr (ground (arith, new))
        ];
      }

  -- The maps of the wallets that are there hold scripts that these list.
  abbrev Listed : List Server → List (Option Scripts) → Type 0
  Listed [] per_server = Unit
  Listed (s ∷ servers) [] = ⊥
  Listed (none ∷ servers) (own ∷ per_server) = Listed servers per_server
  Listed (some s ∷ servers) (own ∷ per_server) =
      ((h : ℕ) → has h (scripts_or_nil own) ≡ true → Lists w s h) × Listed servers per_server

  -- What all wallets add to the maps.
  record AllWallets (servers : List Server) (all : Scripts) (per_server : List (Option Scripts))
      (all' : Scripts) : Type 0 where
    keyed : Keyed w all'
    kept : (h : ℕ) → has h all ≡ true → has h all' ≡ true
    reached : (s h : ℕ) → Member (some s) servers → Lists w s h → has h all' ≡ true
    listed : Listed servers per_server

  own_listed :
      (t : ℕ) (scripts : List (List ℕ)) (own : Scripts)
      → w.list_scripts t ≡ answer scripts
      → ((h : ℕ)
          → has h own ≡ true
          → (has {V = ScriptHeight} h [] ≡ true) ⊎ (elem h (map w.hash_h scripts) ≡ true))
      → (h : ℕ) → has h own ≡ true
      → Lists w t h
  unfolding lookup
  own_listed t scripts own a listed h m = elim (listed h m) [
    | inl nothing ↦ absurd cc
    | inr e ↦ (scripts, a, e)
  ]

  scripts_of_wallets-AllWallets :
      (servers : List Server) (all all' : Scripts) (per_server : List (Option Scripts))
      → Keyed w all
      → scripts_of_wallets w servers all ≡ ok (per_server, all')
      → AllWallets servers all per_server all'
  unfolding scripts_of_wallets
  scripts_of_wallets-AllWallets [] all all' per_server keyed e =
      let (p, q) : (per_server ≡ []) × (all' ≡ all) = ground (arith, e) in
      record {
        keyed = subst (Keyed w) (sym q) keyed;
        kept = λ h m. ground (arith, q, m);
        reached = λ s h m l. elim m [ ];
        listed = tt;
      }
  scripts_of_wallets-AllWallets (none ∷ servers) all all' per_server keyed e =
      elim (Result-cases (scripts_of_wallets w servers all)) [
        | inr f ↦ absurd (ground (arith, e, f))
        | inl ((per, all2), f) ↦
            let later =
              scripts_of_wallets-AllWallets servers all all' per keyed (ground (arith, e, f)) in
            record {
              keyed = later.keyed;
              kept = later.kept;
              reached =
                  λ s h m l. elim m [ inl no_one ↦ absurd cc | inr m ↦ later.reached s h m l ];
              listed =
                  (let p : per_server ≡ none ∷ per = ground (arith, e, f) in
                    subst (Listed (none ∷ servers)) (sym p) later.listed);
            }
      ]
  scripts_of_wallets-AllWallets (some t ∷ servers) all all' per_server keyed e =
      elim (Answer-cases (w.list_scripts t)) [
        | inr (x, a) ↦ absurd (ground (arith, e, a))
        | inl (scripts, a) ↦
            let maps = scripts_of_wallet w scripts ([], all) in
            let one = scripts_of_wallet-OneWallet scripts [] all keyed in
            elim (Result-cases (scripts_of_wallets w servers maps.1)) [
              | inr f ↦ absurd (ground (arith, e, a, f))
              | inl ((per, all2), f) ↦
                  let later =
                    scripts_of_wallets-AllWallets servers maps.1 all' per one.keyed
                      (ground (arith, e, a, f)) in
                  record {
                    keyed = later.keyed;
                    kept = λ h m. later.kept h (one.kept h m);
                    reached = λ s h m l. elim m [
                      | inl same ↦
                          let (ts, la, el) : Lists w t h =
                            subst (λ x. Lists w x h) (ground (arith, same)) l in
                          let alike : ts ≡ scripts = cc in
                          later.kept h
                            (one.reached h (subst (λ x. elem h (map w.hash_h x) ≡ true) alike el))
                      | inr m ↦ later.reached s h m l
                    ];
                    listed =
                        (let p : per_server ≡ some maps.0 ∷ per = ground (arith, e, a, f) in
                          subst (Listed (some t ∷ servers)) (sym p)
                            (own_listed t scripts maps.0 a one.listed, later.listed));
                  }
            ]
      ]

  import_all-WasImported :
      (servers : List Server) (per_server : List (Option Scripts)) (all : Scripts) (s h : ℕ)
      → Listed servers per_server
      → Keyed w all
      → has h all ≡ true
      → (import_all w servers per_server all).1 ≡ none
      → Member (some s) servers
      → Lists w s h ⊎ WasImported w (import_all w servers per_server all).0 s h
  unfolding import_all
  import_all-WasImported [] per_server all s h listed keyed there e m = elim m [ ]
  import_all-WasImported (t ∷ servers) [] all s h listed keyed there e m = absurd listed
  import_all-WasImported (none ∷ servers) (own ∷ per_server) all s h listed keyed there e m =
      elim m [
        | inl no_one ↦ absurd cc
        | inr m ↦ import_all-WasImported servers per_server all s h listed keyed there e m
      ]
  import_all-WasImported (some t ∷ servers) (own ∷ per_server) all s h (here, listed) keyed there e
        m =
      let first = import_missing w t (scripts_or_nil own) all in
      let rest = import_all w servers per_server all in
      let (fine, e2, calls) : (first.1 ≡ none)
          × (rest.1 ≡ none)
          × ((then_call first rest).0 ≡ first.0 ++ rest.0) =
        then_call-none first rest e in
      elim m [
        | inl same ↦
            let alike : t ≡ s = ground (arith, same) in
            elim (import_missing-WasImported w t (scripts_or_nil own) all h keyed there fine) [
              | inl old ↦ inl (subst (λ x. Lists w x h) alike (here h old))
              | inr (v, i, k) ↦ inr (
                v,
                ground (
                  arith,
                  calls,
                  alike,
                  Member-append (imported s v) first.0 rest.0
                      (subst (λ x. Member (imported x v) first.0) alike i),
                ),
                k,
              )
            ]
        | inr m ↦ elim (import_all-WasImported servers per_server all s h listed keyed there e2 m) [
          | inl old ↦ inl old
          | inr (v, i, k) ↦
              inr (v, ground (arith, calls, append-Member (imported s v) first.0 rest.0 i), k)
        ]
      ]
    where
      then_call-none :
          (a b : List Call × Option SvrError)
          → (then_call a b).1 ≡ none
          → (a.1 ≡ none) × (b.1 ≡ none) × ((then_call a b).0 ≡ a.0 ++ b.0)
      then_call-none (calls, none) b e = (refl, e, refl)
      then_call-none (calls, some x) b e = absurd cc

  -- A script that the database or a wallet has, by its hash.
  abbrev pub IsKnown : List Server → List ScriptUser → ℕ → Type 0
  IsKnown servers users h =
      ((u : ScriptUser) × (script : List ℕ) × Member u users
        × (u.multi_sig_script ≡ some script)
        × (w.hash_h script ≡ h))
      ⊎ ((t : ℕ) × Member (some t) servers × Lists w t h)

  known-has :
      (servers : List Server) (users : List ScriptUser) (per_server : List (Option Scripts))
      (all : Scripts) (h : ℕ)
      → AllWallets servers (scripts_of_db w users []) per_server all
      → IsKnown servers users h
      → has h all ≡ true
  known-has servers users per_server all h found (inl (u, script, m, e, k)) = found.kept h (
      subst (λ x. has x (scripts_of_db w users []) ≡ true) k
        (scripts_of_db-Member w users [] u script tt m e))
  known-has servers users per_server all h found (inr (t, m, l)) = found.reached t h m l

  then_call-Member :
      (c : Call) (a b : List Call × Option SvrError) → Member c a.0 → Member c (then_call a b).0
  then_call-Member c (calls, none) b m = Member-append c calls b.0 m
  then_call-Member c (calls, some e) b m = m

  sync_wallets-calls :
      (servers : List Server) (per_server : List (Option Scripts)) (all : Scripts) (s h : ℕ)
      → (sync_wallets w servers per_server all).1 ≡ none
      → ((import_all w servers per_server all).1 ≡ none)
        × (WasImported w (import_all w servers per_server all).0 s h
            → WasImported w (sync_wallets w servers per_server all).0 s h)
  unfolding sync_wallets
  sync_wallets-calls servers per_server all s h e =
      elim (Option-cases (import_all w servers per_server all).1) [
        | inr (x, f) ↦ absurd (ground (arith, e, f))
        | inl f ↦ (
          f,
          λ (v, m, k).
              (v, then_call-Member (imported s v) (import_all w servers per_server all) _ m, k),
        )
      ]

  -- After a synchronisation of several wallets that ends without an error, each wallet that is there
  -- has every script that decodes in the database and every script that any of the wallets lists: it
  -- listed a script with that hash itself, or it imported one.
  pub wallet_svrs_sync_complete :
      (servers : List Server) (users : List ScriptUser) (s h : ℕ)
      → length servers ≢ 1
      → (wallet_svrs_sync w servers users).1 ≡ none
      → Member (some s) servers
      → IsKnown servers users h
      → Lists w s h ⊎ WasImported w (wallet_svrs_sync w servers users).0 s h
  unfolding wallet_svrs_sync
  wallet_svrs_sync_complete servers users s h several e m known =
      elim (Option-cases (check_connected w 0 servers)) [
        | inr (x, c) ↦ absurd (ground (arith, several, e, c))
        | inl c ↦ elim (Option-cases (sync_indices w servers)) [
          | inr (x, i) ↦ absurd (ground (arith, several, e, c, i))
          | inl i ↦ elim (Result-cases (scripts_of_wallets w servers (scripts_of_db w users []))) [
            | inr f ↦ absurd (ground (arith, several, e, c, i, f))
            | inl ((per_server, all), f) ↦
                let (keyed, _) = scripts_of_db-has w users [] h tt in
                let found =
                  scripts_of_wallets-AllWallets servers (scripts_of_db w users []) all per_server
                    keyed f in
                let (imports, calls) =
                  sync_wallets-calls servers per_server all s h
                    (ground (arith, several, e, c, i, f)) in
                elim (import_all-WasImported servers per_server all s h found.listed found.keyed
                  (known-has servers users per_server all h found known) imports m) [
                    | inl old ↦ inl old
                    | inr new ↦
                        let (v, n, k) = calls new in inr (v, ground (arith, several, c, i, f, n), k)
                  ]
          ]
        ]
      ]
