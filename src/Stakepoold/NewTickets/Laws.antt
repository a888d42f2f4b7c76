-- ===== src/Stakepoold/NewTickets/Laws.antt =====
-- What a block of new tickets does to the daemon's maps.
use hxstakepool.Prelude.{
  ℕ, String, true, List, [], ◌∷◌, map, some, ◌≡◌, ◌≢◌, refl, arith, ◌⊎◌, inl, inr, string_eq,
  nat_eq, nat_beq_iff, subst, All,
}
use text.Mathlib.TextEquality.{eq_iff}
use hxstakepool.Prelude.Result.{ok, >>=-ok}
use hxstakepool.GoMap.{GoMap, put, has, lookup, IsMap}
use hxstakepool.GoMap.Laws.{lookup-put, put-IsMap}
use hxstakepool.Stakepoold.Context.{
  Hash, AppContext, UserVotingConfig, NewTicketsForBlock, TicketMetadata,
}
use hxstakepool.Stakepoold.Rpc.{Wallet}
use hxstakepool.Stakepoold.Fees.{TxRules}
use hxstakepool.Stakepoold.GetTicket.{getticket}
use hxstakepool.Stakepoold.GetTicket.Laws.{getticket-msa}
use hxstakepool.Stakepoold.NewTickets.{
  NewTickets, judge_new_ticket, skip, judged, failed, boom, sort_new_tickets, commit_new_tickets,
  no_tickets, new_metadata, process_new_tickets,
}

-- The tickets of a map are those of users of `users`.
abbrev pub AllOf : GoMap String UserVotingConfig → GoMap Hash String → Type 0
AllOf users m = (t : Hash) (msa : String) → lookup t m ≡ some msa → has msa users ≡ true

-- The maps of a state are Go maps.
pub record HasMaps (ctx : AppContext) : Type 0 where
  pub ignored_IsMap : IsMap ctx.ignored_low_fee_tickets_msa
  pub live_IsMap : IsMap ctx.live_tickets_msa

-- What holds of the maps that the sorting builds.
pub record Sound (users : GoMap String UserVotingConfig) (found : NewTickets) : Type 0 where
  pub ignored_IsMap : IsMap found.ignored
  pub live_IsMap : IsMap found.live
  pub live_users : AllOf users found.live
  -- Whatever is newly ignored is newly live too.
  pub ignored_live : (t : Hash) → has t found.ignored ≡ true → has t found.live ≡ true

module _ (r : TxRules) (ctx : AppContext) (height : ℕ) (users : GoMap String UserVotingConfig) where
  -- A ticket that was looked up: it has no address, or a user's.
  abbrev pub LookedUp : TicketMetadata → Type 0
  LookedUp n = (n.msa ≡ "") ⊎ (has n.msa users ≡ true)

  judge-users :
      (n : TicketMetadata)
      → LookedUp n
      → judge_new_ticket r ctx height n ≢ skip
      → has n.msa users ≡ true
  unfolding judge_new_ticket
  judge-users n (inl e) h = absurd (ground (arith, eq_iff n.msa ""))
  judge-users n (inr e) h = e

  put-AllOf :
      (t : Hash) (a : String) (m : GoMap Hash String)
      → has a users ≡ true
      → AllOf users m
      → AllOf users (put t a m)
  put-AllOf t a m h al u msa e = ground (arith, lookup-put t u a m, al u msa)

  live-Sound :
      (t : Hash) (a : String) (acc : NewTickets)
      → has a users ≡ true
      → Sound users acc
      → Sound users (record acc { live = put t a acc.live })
  live-Sound t a acc h s = record {
    ignored_IsMap = s.ignored_IsMap;
    live_IsMap = put-IsMap t a acc.live s.live_IsMap;
    live_users = put-AllOf t a acc.live h s.live_users;
    ignored_live = λ u i. ground (arith, lookup-put t u a acc.live, s.ignored_live u i);
  }

  ignored-Sound :
      (t : Hash) (a : String) (acc : NewTickets)
      → has t acc.live ≡ true
      → Sound users acc
      → Sound users (record acc { ignored = put t a acc.ignored })
  ignored-Sound t a acc h s = record {
    ignored_IsMap = put-IsMap t a acc.ignored s.ignored_IsMap;
    live_IsMap = s.live_IsMap;
    live_users = s.live_users;
    ignored_live =
        λ u i. ground (arith, lookup-put t u a acc.ignored, s.ignored_live u, nat_beq_iff t u);
  }

  has-put_self : (t : Hash) (a : String) (m : GoMap Hash String) → has t (put t a m) ≡ true
  has-put_self t a m = ground (arith, lookup-put t t a m)

  sort_new_tickets-Sound :
      (ns : List TicketMetadata) (acc found : NewTickets)
      → All LookedUp ns
      → Sound users acc
      → sort_new_tickets r ctx height ns acc ≡ ok found
      → Sound users found
  unfolding sort_new_tickets
  sort_new_tickets-Sound [] acc found l s h =
      let e : acc ≡ found = ground arith in subst (Sound users) e s
  sort_new_tickets-Sound (n ∷ ns) acc found l s h =
      (elim (judge_new_ticket r ctx height n)
          as (λ v. judge_new_ticket r ctx height n ≡ v → Sound users found) [
            | skip ↦ λ e. sort_new_tickets-Sound ns acc found l.1 s (ground (arith, e))
            | judged ↦
                λ e. sort_new_tickets-Sound ns _ found l.1 (with_live (λ x. cc)) (ground (arith, e))
            | failed ↦ λ e.
                sort_new_tickets-Sound ns _ found l.1
                  (ignored-Sound n.ticket n.msa _ (has-put_self n.ticket n.msa acc.live)
                    (with_live (λ x. cc)))
                  (ground (arith, e))
            | boom ↦ λ e. absurd (ground (arith, e))
          ])
        refl
    where
      with_live :
          judge_new_ticket r ctx height n ≢ skip
          → Sound users (record acc { live = put n.ticket n.msa acc.live })
      with_live j = live-Sound n.ticket n.msa acc (judge-users n l.0 j) s

LookedUp-getticket :
    (w : Wallet) (users : GoMap String UserVotingConfig) (hs : List Hash)
    → All
        (λ n. (n.msa ≡ "") ⊎ (has n.msa users ≡ true))
        (map (λ h. getticket w users (new_metadata h)) hs)
LookedUp-getticket w users [] = tt
LookedUp-getticket w users (h ∷ hs) =
    (getticket-msa w users (new_metadata h), LookedUp-getticket w users hs)

no_tickets-Sound : (users : GoMap String UserVotingConfig) → Sound users no_tickets
unfolding lookup
no_tickets-Sound users = record {
  ignored_IsMap = tt;
  live_IsMap = tt;
  live_users = λ t msa e. cc;
  ignored_live = λ t e. cc;
}

-- The sorting that a block starts with finds tickets of users alone.
pub process_new_tickets-Sound :
    (r : TxRules) (w : Wallet) (ctx ctx' : AppContext) (nt : NewTicketsForBlock)
    → process_new_tickets r w ctx nt ≡ ok ctx'
    → (found : NewTickets) × (sort_new_tickets r ctx nt.block_height
          (map (λ h. getticket w ctx.user_voting_config (new_metadata h)) nt.new_tickets)
          no_tickets
        ≡ ok found)
      × Sound ctx.user_voting_config found
      × (ctx' ≡ commit_new_tickets ctx found)
unfolding process_new_tickets
process_new_tickets-Sound r w ctx ctx' nt h =
    let (found, eq, e) =
      >>=-ok
        (sort_new_tickets r ctx nt.block_height
          (map (λ h. getticket w ctx.user_voting_config (new_metadata h)) nt.new_tickets)
          no_tickets)
        _ h in
    (
      found,
      e,
      sort_new_tickets-Sound r ctx nt.block_height ctx.user_voting_config _ no_tickets found
          (LookedUp-getticket w ctx.user_voting_config nt.new_tickets)
          (no_tickets-Sound ctx.user_voting_config) e,
      ground arith,
    )

-- From `ctx` to `ctx'` tickets of users may become live, and none ceases to be; a ticket whose entry
-- among the ignored has changed is live; the rest of the state stays.
pub record Gained (ctx ctx' : AppContext) : Type 0 where
  pub live_kept :
      (t : Hash) → has t ctx.live_tickets_msa ≡ true → has t ctx'.live_tickets_msa ≡ true
  pub live_users :
      (t : Hash) (msa : String)
      → lookup t ctx'.live_tickets_msa ≡ some msa
      → (lookup t ctx.live_tickets_msa ≡ some msa) ⊎ (has msa ctx.user_voting_config ≡ true)
  pub ignored_live :
      (t : Hash)
      → (lookup t ctx'.ignored_low_fee_tickets_msa ≡ lookup t ctx.ignored_low_fee_tickets_msa)
        ⊎ (has t ctx'.live_tickets_msa ≡ true)
  pub added : ctx'.added_low_fee_tickets_msa ≡ ctx.added_low_fee_tickets_msa
  pub users : ctx'.user_voting_config ≡ ctx.user_voting_config
  -- The two lists are all that may differ.
  pub rest :
      record ctx {
        ignored_low_fee_tickets_msa = ctx'.ignored_low_fee_tickets_msa;
        live_tickets_msa = ctx'.live_tickets_msa;
      }
      ≡ ctx'
