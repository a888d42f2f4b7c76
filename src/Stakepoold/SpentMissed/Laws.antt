-- ===== src/Stakepoold/SpentMissed/Laws.antt =====
-- Which tickets a block takes off the lists.
use hxstakepool.Prelude.{
  String, Bool, ◌||◌, ◌&&◌, not, List, [], ◌∷◌, ◌++◌, map, none, ◌≡◌, refl, arith, ◌==◌, nat_eq,
  string_eq, if◌then◌else◌, some, false, inl, inr, Bool-cases, Option-cases, ap, sym, ◌∙◌,
}
use hxstakepool.GoMap.{GoMap, lookup, has, delete_all}
use hxstakepool.GoMap.Laws.{lookup-delete_all, elem}
use hxstakepool.Stakepoold.Context.{Hash, AppContext, SpentMissedTicketsForBlock}
use hxstakepool.Stakepoold.Rpc.{Wallet, reply, failure, Reply-cases}
use hxstakepool.Stakepoold.GetTicket.{first_of_user, getticket}
use hxstakepool.Stakepoold.GetTicket.Laws.{getticket-ticket, getticket-err}
use hxstakepool.Stakepoold.SpentMissed.{
  SpentMissed, spent_missed_metadata, classify, classify_all, none_found,
  process_spent_missed_tickets,
}

module _ (w : Wallet) (ctx : AppContext) where
  -- One of the addresses is a user's.
  abbrev pub of_user : List String → Bool
  of_user [] = false
  of_user (address ∷ details) = has address ctx.user_voting_config || of_user details

  -- The wallet gives the ticket's transaction, and one of its addresses is a user's.
  abbrev pub is_ours : Hash → Bool
  is_ours t = elim (w.get_transaction t) [ failure _ ↦ false | reply res ↦ of_user res.details ]

  -- The block's tickets that are the pool's, whether spent or missed.
  abbrev pub ours : List (Hash × Bool) → List Hash
  ours [] = []
  ours ((t, spent) ∷ ts) = if is_ours t then t ∷ ours ts else ours ts

  first_of_user-of_user :
      (details : List String)
      → has "" ctx.user_voting_config ≡ false
      → elim (first_of_user ctx.user_voting_config details) [
        | none ↦ false
        | some address ↦ not (address == "")
      ]
        ≡ of_user details
  unfolding first_of_user
  first_of_user-of_user [] nameless = refl
  first_of_user-of_user (address ∷ details) nameless = ground (
    arith,
    nameless,
    string_eq.beq_iff address "",
    first_of_user-of_user details nameless,
    Bool-cases (has address ctx.user_voting_config),
  )

  -- A ticket that is looked up gets an address exactly where it is the pool's.
  getticket-is_ours :
      (x : Hash × Bool)
      → has "" ctx.user_voting_config ≡ false
      → not ((getticket w ctx.user_voting_config (spent_missed_metadata x)).msa == "") ≡ is_ours x.0
  unfolding getticket
  getticket-is_ours (t, spent) nameless =
      let n = getticket w ctx.user_voting_config (spent_missed_metadata (t, spent)) in
      let named : String → Bool = λ m. not (m == "") in
      elim (Reply-cases (w.get_transaction t)) [
        | inr (_, lost) ↦
            let e : n.msa ≡ "" = ground (arith, lost) in
            let unknown : is_ours t ≡ false = ground (arith, lost) in ap named e ∙ sym unknown
        | inl (res, got) ↦
            let first = first_of_user-of_user res.details nameless in
            let is : is_ours t ≡ of_user res.details = ground (arith, got) in
            elim (Option-cases (first_of_user ctx.user_voting_config res.details)) [
              | inl nobody ↦
                  let e : n.msa ≡ "" = ground (arith, got, nobody) in
                  let none_is : of_user res.details ≡ false = ground (arith, first, nobody) in
                  ap named e ∙ sym (is ∙ none_is)
              | inr (address, somebody) ↦
                  let e : n.msa ≡ address = ground (arith, got, somebody) in
                  let one_is : of_user res.details ≡ named address =
                    ground (arith, first, somebody) in
                  ap named e ∙ sym (is ∙ one_is)
            ]
      ]

  elem-append : (t : Hash) (xs ys : List Hash) → elem t (xs ++ ys) ≡ (elem t xs || elem t ys)
  elem-append t [] ys = refl
  elem-append t (x ∷ xs) ys = ground (arith, elem-append t xs ys)

  abbrev in_either : Hash → SpentMissed → Bool
  in_either t found = elem t found.missed || elem t found.spent

  classify-elem :
      (t : Hash) (x : Hash × Bool) (acc : SpentMissed)
      → has "" ctx.user_voting_config ≡ false
      → in_either t (classify (getticket w ctx.user_voting_config (spent_missed_metadata x)) acc)
        ≡ (in_either t acc || (is_ours x.0 && x.0 == t))
  unfolding classify
  classify-elem t x acc nameless = ground (
    arith,
    getticket-is_ours x nameless,
    getticket-ticket w ctx.user_voting_config (spent_missed_metadata x),
    getticket-err w ctx.user_voting_config (spent_missed_metadata x),
    elem-append t acc.missed (x.0 ∷ []),
    elem-append t acc.spent (x.0 ∷ []),
  )

  classify_all-elem :
      (t : Hash) (ts : List (Hash × Bool)) (acc : SpentMissed)
      → has "" ctx.user_voting_config ≡ false
      → in_either t (
          classify_all
            (map (λ t. getticket w ctx.user_voting_config (spent_missed_metadata t)) ts)
            acc)
        ≡ (in_either t acc || elem t (ours ts))
  unfolding classify_all
  classify_all-elem t [] acc nameless = ground arith
  classify_all-elem t (x ∷ ts) acc nameless =
      let acc' = classify (getticket w ctx.user_voting_config (spent_missed_metadata x)) acc in
      ground (arith, classify_all-elem t ts acc' nameless, classify-elem t x acc nameless)

  delete_both :
      (t : Hash) (found : SpentMissed) (m : GoMap Hash String)
      → lookup t (delete_all found.spent (delete_all found.missed m))
        ≡ (if in_either t found then none else lookup t m)
  delete_both t found m = ground (
    arith,
    lookup-delete_all t found.spent (delete_all found.missed m),
    lookup-delete_all t found.missed m,
  )

  -- Where no user has the empty address, a block takes off the live and the ignored list, of the tickets
  -- that it reports as spent or missed, those whose transaction the wallet gives with a user's address
  -- among its details, and leaves every other ticket as it was.
  pub process_spent_missed_tickets-lookup :
      (smt : SpentMissedTicketsForBlock) (t : Hash)
      → has "" ctx.user_voting_config ≡ false
      → let ctx' = process_spent_missed_tickets w ctx smt in
        (lookup t ctx'.live_tickets_msa
          ≡ (if elem t (ours smt.sm_tickets) then none else lookup t ctx.live_tickets_msa))
        × (lookup t ctx'.ignored_low_fee_tickets_msa ≡ (
            if elem t (ours smt.sm_tickets)
            then none
            else lookup t ctx.ignored_low_fee_tickets_msa))
  unfolding process_spent_missed_tickets
  process_spent_missed_tickets-lookup smt t nameless =
      let found =
        classify_all
          (map (λ t. getticket w ctx.user_voting_config (spent_missed_metadata t)) smt.sm_tickets)
          none_found in
      let split = classify_all-elem t smt.sm_tickets none_found nameless in
      (
        ground (arith, split, delete_both t found ctx.live_tickets_msa),
        ground (arith, split, delete_both t found ctx.ignored_low_fee_tickets_msa),
      )
