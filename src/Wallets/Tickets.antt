-- ===== src/Wallets/Tickets.antt =====
-- `stakePoolUserInfoFn` with `checkForSyncness`, `syncTickets` and `fetchTransaction`, and
-- `GetUnspentUserTickets` (controllers/hcclient.go).
pub mod Laws
pub mod Syncness
use hxstakepool.Prelude.{
  ℕ, zero, suc, ◌+◌, String, string_eq, ◌==◌, Bool, true, false, not, ◌&&◌, List, [], ◌∷◌, ◌++◌,
  Option, none, some, if◌then◌else◌, ltb, nat_beq, length, get_elem?,
}
use hxstakepool.Prelude.Result.{Result, ok, err, panic, ◌>>=◌}
use hxstakepool.Wallets.Types.{
  Answer, answer, fails, RpcError, Server, SvrError, rpc, too_few, no_transaction, bad_hash,
  PoolTicket, UserInfoResult,
}
use hxstakepool.Wallets.Poll.{Polled, poll, first_answer}

-- `takeFirstResponse`: the loop calls the client of every slot, the nil ones too, so `ask` answers for
-- slots. `e` is `resp.err` so far.
unfoldable pub take_first :
    {A : Type 0}
    → (Server → Result RpcError A)
    → List Server
    → Option SvrError
    → Result SvrError (Option A)
take_first ask [] none = ok none
take_first ask [] (some e) = err e
take_first ask (s ∷ servers) e = elim (ask s) [
  | ok a ↦ ok (some a)
  | err x ↦ take_first ask servers (some (rpc x))
  | panic ↦ panic
]

-- The loop of `checkForSyncness` over `k`, from index `k` on, for the answer `a` at index `i`.
unfoldable pub in_sync_with :
    (i : ℕ) → UserInfoResult → (k : ℕ) → List (Option UserInfoResult) → Bool
in_sync_with i a k [] = true
in_sync_with i a k (none ∷ rest) = in_sync_with i a (suc k) rest
in_sync_with i a k (some b ∷ rest) =
    let others = in_sync_with i a (suc k) rest in
    if nat_beq i k
    then others
    else if not (nat_beq (length a.tickets) (length b.tickets))
    then false
    else if not (nat_beq (length a.invalid_tickets) (length b.invalid_tickets))
    then false
    else others

-- The loop over `i`.
unfoldable pub all_in_sync :
    List (Option UserInfoResult) → (i : ℕ) → List (Option UserInfoResult) → Bool
unfolding in_sync_with
all_in_sync spuirs i [] = true
all_in_sync spuirs i (none ∷ rest) = all_in_sync spuirs (suc i) rest
all_in_sync spuirs i (some a ∷ rest) = in_sync_with i a 0 spuirs && all_in_sync spuirs (suc i) rest

unfoldable pub check_for_syncness : List (Option UserInfoResult) → Bool
unfolding all_in_sync
check_for_syncness spuirs = all_in_sync spuirs 0 spuirs

-- `fetchTransaction`: the first wallet that has the transaction.
unfoldable pub fetch_transaction :
    {Tx : Type 0} → (ℕ → Option Tx) → List Server → Result SvrError Tx
fetch_transaction get [] = err no_transaction
fetch_transaction get (none ∷ servers) = fetch_transaction get servers
fetch_transaction get (some s ∷ servers) = elim (get s) [
  | some tx ↦ ok tx
  | none ↦ fetch_transaction get servers
]

-- What `syncTickets` calls: `chainhash.NewHashFromStr`, `GetRawTransaction` and `AddTicket`.
pub record SyncCalls (Hash Tx : Type 0) : Type 0 where
  pub new_hash_from_str : String → Option Hash
  pub get_raw_transaction : ℕ → Hash → Option Tx
  pub add_ticket : ℕ → Tx → Option RpcError

-- The wallets and tickets that were added, and how the loops went on.
abbrev pub Added : Type 0
Added = List (ℕ × String) × Result SvrError (Unit {0})

abbrev pub then_added : Added → Added → Added
then_added (done, ok u) rest = (done ++ rest.0, rest.1)
then_added (done, err e) rest = (done, err e)
then_added (done, panic) rest = (done, panic)

abbrev pub nothing_added : Added
nothing_added = ([], ok tt)

-- The slots with their answers.
abbrev pub zip : List Server → List (Option UserInfoResult) → List (Server × Option UserInfoResult)
zip [] answers = []
zip servers [] = []
zip (s ∷ servers) (a ∷ answers) = (s, a) ∷ zip servers answers

module _ {Hash Tx : Type 0} (calls : SyncCalls Hash Tx) (servers : List Server) where
  unfoldable pub add_missing : (j : ℕ) → String → Added
  unfolding fetch_transaction
  add_missing j ticket = elim (calls.new_hash_from_str ticket) [
    | none ↦ ([], err bad_hash)
    | some hash ↦ elim (fetch_transaction (λ s. calls.get_raw_transaction s hash) servers) [
      | err e ↦ ([], err e)
      | panic ↦ ([], panic)
      | ok tx ↦ elim (calls.add_ticket j tx) [
        | some e ↦ ([], err (rpc e))
        | none ↦ ((j, ticket) ∷ [], ok tt)
      ]
    ]
  ]

  -- `for _, invalidTicket := range spuirs[j].InvalidTickets`
  unfoldable pub sync_invalid : (j : ℕ) → String → List String → Added
  unfolding add_missing
  sync_invalid j ticket [] = nothing_added
  sync_invalid j ticket (invalid ∷ rest) =
      let others = sync_invalid j ticket rest in
      if ticket == invalid then then_added (add_missing j ticket) others else others

  -- `for _, validTicket := range spuirs[i].Tickets`; `spuirs[j]` is read for each of them.
  unfoldable pub sync_valid : (j : ℕ) → Option UserInfoResult → List PoolTicket → Added
  unfolding sync_invalid
  sync_valid j target [] = nothing_added
  sync_valid j none (valid ∷ rest) = ([], panic)
  sync_valid j (some b) (valid ∷ rest) =
      then_added (sync_invalid j valid.ticket b.invalid_tickets) (sync_valid j (some b) rest)

  -- The loop over `j`, for the wallet at index `i` whose answer is `source`.
  unfoldable pub sync_from :
      (i : ℕ) → Option UserInfoResult → (j : ℕ) → List (Server × Option UserInfoResult) → Added
  unfolding sync_valid
  sync_from i source j [] = nothing_added
  sync_from i source j ((none, _) ∷ rest) = sync_from i source (suc j) rest
  sync_from i source j ((some s, target) ∷ rest) =
      let others = sync_from i source (suc j) rest in
      if nat_beq i j then others else elim source [
        | none ↦ ([], panic)
        | some a ↦ then_added (sync_valid s target a.tickets) others
      ]

  -- The loop over `i`.
  unfoldable pub sync_each :
      List (Server × Option UserInfoResult)
      → (i : ℕ) → List (Server × Option UserInfoResult)
      → Added
  unfolding sync_from
  sync_each slots i [] = nothing_added
  sync_each slots i ((none, _) ∷ rest) = sync_each slots (suc i) rest
  sync_each slots i ((some s, source) ∷ rest) =
      then_added (sync_from i source 0 slots) (sync_each slots (suc i) rest)

  unfoldable pub sync_tickets : List (Option UserInfoResult) → Added
  unfolding sync_each
  sync_tickets spuirs = let slots = zip servers spuirs in sync_each slots 0 slots

  -- The case without `takeFirstResponse`. The caller drops the error of `syncTickets`.
  unfoldable pub stake_pool_user_info_fn :
      ℕ → (ℕ → Answer UserInfoResult) → List (ℕ × String) × Result SvrError (Option UserInfoResult)
  unfolding poll check_for_syncness sync_tickets first_answer
  stake_pool_user_info_fn min_servers ask =
      let p = poll ask servers in
      elim p.failure [
        | some e ↦ ([], err e)
        | none ↦
            if ltb p.connect_count min_servers
            then ([], err (too_few p.connect_count min_servers))
            else if check_for_syncness p.answers
            then ([], ok (first_answer p.answers))
            else (let (added, outcome) = sync_tickets p.answers in
                elim outcome [
                  | ok _ ↦ (added, ok (first_answer p.answers))
                  | err _ ↦ (added, ok (first_answer p.answers))
                  | panic ↦ (added, panic)
                ])
      ]

-- The loop of `GetUnspentUserTickets`; a hash that does not parse ends it, beside those before it.
unfoldable pub live_hashes :
    {Hash : Type 0} → (String → Option Hash) → List PoolTicket → List Hash × Option SvrError
live_hashes parse [] = ([], none)
live_hashes parse (t ∷ rest) =
    let (hashes, e) = live_hashes parse rest in
    if t.status == "live"
    then elim (parse t.ticket) [ none ↦ ([], some bad_hash) | some h ↦ (h ∷ hashes, e) ]
    else (hashes, e)

-- `spui.Tickets` of a nil answer panics.
unfoldable pub get_unspent_user_tickets :
    {Hash : Type 0}
    → (String → Option Hash)
    → Result SvrError (Option UserInfoResult)
    → Result SvrError (List Hash × Option SvrError)
unfolding live_hashes
get_unspent_user_tickets parse (err e) = err e
get_unspent_user_tickets parse panic = panic
get_unspent_user_tickets parse (ok none) = panic
get_unspent_user_tickets parse (ok (some info)) = ok (live_hashes parse info.tickets)
