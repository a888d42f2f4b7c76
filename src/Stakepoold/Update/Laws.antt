-- ===== src/Stakepoold/Update/Laws.antt =====
-- What an update of the added tickets leaves in each map.
use hxstakepool.Prelude.{
  String, [], ◌∷◌, none, some, if◌then◌else◌, nat_eq, nat_beq_iff, ◌≡◌, refl, arith,
}
use hxstakepool.GoMap.{GoMap, has, put, delete, lookup, IsMap}
use hxstakepool.GoMap.Laws.{lookup-put, lookup-delete, or_else}
use hxstakepool.Stakepoold.Context.{Hash, AppContext}
use hxstakepool.Stakepoold.Update.{apply_added, restore_ignored, update_ticket_data}

apply_added-live :
    (t : Hash) (added : GoMap Hash String) (ctx : AppContext)
    → IsMap added
    → lookup t (apply_added added ctx).live_tickets_msa
      ≡ or_else (lookup t added) (lookup t ctx.live_tickets_msa)
unfolding apply_added lookup
apply_added-live t [] ctx m = refl
apply_added-live t ((h, msa) ∷ added) ctx m = ground (
  arith,
  nat_beq_iff h t,
  lookup-put h t msa ctx.live_tickets_msa,
  apply_added-live t added
      (record ctx {
        ignored_low_fee_tickets_msa = delete h ctx.ignored_low_fee_tickets_msa;
        live_tickets_msa = put h msa ctx.live_tickets_msa;
      })
      m.1,
)

apply_added-ignored :
    (t : Hash) (added : GoMap Hash String) (ctx : AppContext)
    → lookup t (apply_added added ctx).ignored_low_fee_tickets_msa
      ≡ (if has t added then none else lookup t ctx.ignored_low_fee_tickets_msa)
unfolding apply_added lookup
apply_added-ignored t [] ctx = refl
apply_added-ignored t ((h, msa) ∷ added) ctx = ground (
  arith,
  nat_beq_iff h t,
  lookup-delete h t ctx.ignored_low_fee_tickets_msa,
  apply_added-ignored t added (record ctx {
    ignored_low_fee_tickets_msa = delete h ctx.ignored_low_fee_tickets_msa;
    live_tickets_msa = put h msa ctx.live_tickets_msa;
  }),
)

restore_ignored-lookup :
    (t : Hash) (added old ignored : GoMap Hash String)
    → IsMap old
    → lookup t (restore_ignored added old ignored)
      ≡ (if has t added then lookup t ignored else or_else (lookup t old) (lookup t ignored))
unfolding restore_ignored lookup
restore_ignored-lookup t added [] ignored m = ground arith
restore_ignored-lookup t added ((h, msa) ∷ old) ignored m = ground (
  arith,
  nat_beq_iff h t,
  lookup-put h t msa ignored,
  restore_ignored-lookup t added old ignored m.1,
  restore_ignored-lookup t added old (put h msa ignored) m.1,
)

-- After an update to `added`, in whatever order the maps are visited: a ticket is live at its new
-- address if it is in `added`, and as before if not; it is ignored if it was added before and is
-- no more, at its old address, is not ignored if it is in `added`, and is as before if neither.
pub update_ticket_data-lookup :
    (ctx : AppContext) (added : GoMap Hash String) (t : Hash)
    → IsMap added
    → IsMap ctx.added_low_fee_tickets_msa
    → let ctx' = update_ticket_data ctx added in
      (lookup t ctx'.live_tickets_msa ≡ or_else (lookup t added) (lookup t ctx.live_tickets_msa))
      × (lookup t ctx'.ignored_low_fee_tickets_msa ≡ (
          if has t added
          then none
          else or_else
              (lookup t ctx.added_low_fee_tickets_msa)
              (lookup t ctx.ignored_low_fee_tickets_msa)))
      × (ctx'.added_low_fee_tickets_msa ≡ added)
unfolding update_ticket_data
update_ticket_data-lookup ctx added t ma mo = (
  apply_added-live t added ctx ma,
  ground (
    arith,
    apply_added-ignored t added ctx,
    restore_ignored-lookup t added ctx.added_low_fee_tickets_msa
        (apply_added added ctx).ignored_low_fee_tickets_msa mo,
  ),
  refl,
)

pub update_ticket_data-added :
    (ctx : AppContext) (added : GoMap Hash String)
    → (update_ticket_data ctx added).added_low_fee_tickets_msa ≡ added
unfolding update_ticket_data
update_ticket_data-added ctx added = refl

-- A ticket that is taken off the added tickets while it is live stays live beside going back on the
-- ignored list.
pub update_ticket_data_removed :
    (ctx : AppContext) (added : GoMap Hash String) (t : Hash) (msa addr : String)
    → IsMap added
    → IsMap ctx.added_low_fee_tickets_msa
    → lookup t ctx.added_low_fee_tickets_msa ≡ some msa
    → lookup t ctx.live_tickets_msa ≡ some addr
    → lookup t added ≡ none
    → (lookup t (update_ticket_data ctx added).live_tickets_msa ≡ some addr)
      × (lookup t (update_ticket_data ctx added).ignored_low_fee_tickets_msa ≡ some msa)
update_ticket_data_removed ctx added t msa addr ma mo was live gone =
    let after = update_ticket_data-lookup ctx added t ma mo in
    (ground (arith, after), ground (arith, after))
