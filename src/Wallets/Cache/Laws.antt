-- ===== src/Wallets/Cache/Laws.antt =====
-- What the caches of `walletSvrManager` hold, and for how long.
use hxstakepool.Prelude.{
  ℕ, ◌+◌, ◌-◌, ◌≤◌, ◌<◌, String, string_eq, List, [], ◌∷◌, Option, none, ltb, ◌≡◌, refl, subst,
  Member, ◌⊎◌, inl, inr, arith, All, Bool-cases, Option-cases, ◌==◌, ==_refl,
}
use hxstakepool.Prelude.Result.{Result, ok, err, Result-cases}
use hxstakepool.GoMap.{lookup, put}
use hxstakepool.GoMap.Laws.{lookup-put}
use hxstakepool.Wallets.Types.{SvrError, StakeInfoResult}
use hxstakepool.Wallets.Cache.{
  GetTicketsCacheData, TicketsCache, ask_tickets, tickets_for_address, StakeInfoCache,
  get_stake_info, cache_timer_get_tickets, cache_timer_stake_info, after_requests,
}

module _ {A : Type 0} where
  -- No entry of the cache holds tickets.
  abbrev pub IsBlank : TicketsCache A → Type 0
  IsBlank cache = All (λ entry. entry.1.res ≡ none) cache

  put-IsBlank :
      (address : String) (c : GetTicketsCacheData A) (cache : TicketsCache A)
      → c.res ≡ none
      → IsBlank cache
      → IsBlank (put address c cache)
  unfolding put
  put-IsBlank address c [] r blank = (r, tt)
  put-IsBlank address c ((k, v) ∷ cache) r (p, blank) = elim (Bool-cases (k == address)) [
    | inl e ↦ ground (arith, e, r, blank)
    | inr e ↦ ground (arith, e, p, put-IsBlank address c cache r blank)
  ]

  -- From a cache without tickets, which is how the program starts, a request leaves a cache without
  -- tickets: whatever the wallets answer, no answer of theirs is ever stored.
  pub tickets_for_address-IsBlank :
      (address : String) (now : ℕ) (response : Result SvrError (Option A)) (cache : TicketsCache A)
      → IsBlank cache
      → IsBlank (tickets_for_address address now response cache).0
  unfolding tickets_for_address ask_tickets
  tickets_for_address-IsBlank address now response cache blank =
      elim (Option-cases (lookup address cache)) [
        | inl p ↦ elim (Result-cases response) [
          | inl (r, q) ↦ ground (arith, p, q, blank)
          | inr (inl (e, q)) ↦ ground (
            arith,
            p,
            q,
            put-IsBlank address (record { res = none; timer = now }) cache refl blank,
          )
          | inr (inr q) ↦ ground (arith, p, q, blank)
        ]
        | inr (c, p) ↦ elim (Result-cases response) [
          | inl (r, q) ↦ ground (arith, p, q, blank)
          | inr (inl (e, q)) ↦ ground (
            arith,
            p,
            q,
            blank,
            put-IsBlank address (record { res = none; timer = now }) cache refl blank,
          )
          | inr (inr q) ↦ ground (arith, p, q, blank)
        ]
      ]

  -- After a request that the wallets answer with an error, a second one for the same address within
  -- `cache_timer_get_tickets` does not ask them: it returns no tickets and no error.
  pub tickets_for_address_masked :
      (address : String) (now later : ℕ) (e : SvrError) (response : Result SvrError (Option A))
      (cache : TicketsCache A)
      → lookup address cache ≡ none
      → later < now + cache_timer_get_tickets
      → (tickets_for_address address later response
          (tickets_for_address address now (err e) cache).0).1
        ≡ ok none
  unfolding tickets_for_address ask_tickets
  tickets_for_address_masked address now later e response cache new soon = ground (
    arith,
    new,
    soon,
    lookup-put address address (record { res = none; timer = now }) cache,
    ==_refl address,
  )

module _ (start : StakeInfoCache) where
  -- The requests come when the timer with which the program starts is over.
  abbrev pub Later : List (ℕ × Result SvrError (Option StakeInfoResult)) → Type 0
  Later past =
      All (λ request. start.cached_stake_info_timer + cache_timer_stake_info ≤ request.0) past

  after_requests-Member :
      (past : List (ℕ × Result SvrError (Option StakeInfoResult)))
      → (after_requests past start ≡ start)
        ⊎ Member
            (
              (after_requests past start).cached_stake_info_timer,
              ok (after_requests past start).cached_stake_info,
            )
            past
  unfolding after_requests get_stake_info
  after_requests-Member [] = inl refl
  after_requests-Member ((now, response) ∷ past) = elim (Result-cases response) [
    | inl (r, q) ↦ ground (arith, q, after_requests-Member past)
    | inr (inl (e, q)) ↦ ground (arith, q, after_requests-Member past)
    | inr (inr q) ↦ ground (arith, q, after_requests-Member past)
  ]

  -- What `getStakeInfo` returns is never stale: it is what the wallets answer now, or what they
  -- answered to an earlier request less than five minutes before.
  pub get_stake_info-fresh :
      (past : List (ℕ × Result SvrError (Option StakeInfoResult))) (now : ℕ)
      (response : Result SvrError (Option StakeInfoResult)) {r : Option StakeInfoResult}
      → start.cached_stake_info_timer + cache_timer_stake_info ≤ now
      → (get_stake_info now response (after_requests past start)).1 ≡ ok r
      → (response ≡ ok r) ⊎ ((t : ℕ) × Member (t, ok r) past × (now < t + cache_timer_stake_info))
  unfolding get_stake_info
  get_stake_info-fresh past now response {r} later e = elim (after_requests-Member past) [
    | inl p ↦ inl (ground (arith, later, e, p, Result-cases response))
    | inr p ↦
        let cache = after_requests past start in
        elim (Bool-cases (ltb (now - cache.cached_stake_info_timer) cache_timer_stake_info)) [
          | inl fresh ↦
              let stored : cache.cached_stake_info ≡ r = ground (arith, e, fresh) in
              inr (
                cache.cached_stake_info_timer,
                subst (λ x. Member (cache.cached_stake_info_timer, ok x) past) stored p,
                ground (arith, fresh),
              )
          | inr over ↦ inl (ground (arith, e, over, Result-cases response))
        ]
  ]
