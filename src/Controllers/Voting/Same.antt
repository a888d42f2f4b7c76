-- ===== src/Controllers/Voting/Same.antt =====
-- The form and the API, side by side.
use hxstakepool.Prelude.{
  ℕ, String, string_eq, nat_eq, Bool, List, Option, some, ◌≡◌, ◌↔◌, arith, inl, inr, Bool-cases,
  Option-cases,
}
use hxstakepool.Prelude.Words.{uint16}
use hxstakepool.Prelude.Hex.{codes}
use hxstakepool.GoMap.{GoMap, lookup}
use hxstakepool.Stakepoold.Context.{Hash}
use hxstakepool.Grpc.Messages.{HashBytes}
use hxstakepool.Controllers.VoteBits.{
  Deployment, is_valid_vote_bits, get_agendas, Users, update_vote_bits_by_id,
}
use hxstakepool.Controllers.UpdateAll.{Connection}
use hxstakepool.Controllers.Voting.{
  voting_success, answered, atoi, generate, voting_post, api_voting,
}

module _ (b : HashBytes) (new_hash_from_str : String → Option Hash) (update_works : ℕ → Bool)
    (deployments : GoMap ℕ (List Deployment)) (vote_version user_max : ℕ) where
  -- A form whose choices make some vote bits, and an API call with a number that is cut to the same bits,
  -- have the same effect for a user: the same table, the same daemons, and both succeed or neither does.
  pub voting_post-api_voting :
      (uid : ℕ) (agenda : ℕ → String) (vote_bits : String) (number bits : ℕ) (db : Users)
      (connections : List Connection)
      → generate agenda 0 (get_agendas deployments vote_version) 1 ≡ some bits
      → atoi (codes vote_bits) ≡ some number
      → uint16 number ≡ bits
      → let form =
          voting_post b new_hash_from_str update_works deployments vote_version user_max
            (some uid)
            agenda
            db
            connections in
        let api =
          api_voting b new_hash_from_str update_works deployments vote_version user_max
            (some uid)
            vote_bits
            db
            connections in
        (form.table ≡ api.table)
        × (form.daemons ≡ api.daemons)
        × ((form.answer ≡ voting_success "successfully updated voting preferences")
            ↔ (api.answer ≡ answered "successfully updated voting preferences"))
  unfolding voting_post api_voting
  voting_post-api_voting uid agenda vote_bits number bits db connections made read cut =
      let saved = update_vote_bits_by_id update_works db uid bits in
      elim (Option-cases (lookup uid db)) [
        | inl absent ↦ ground (
          arith,
          made,
          read,
          cut,
          absent,
          Bool-cases (is_valid_vote_bits (get_agendas deployments vote_version) bits),
        )
        | inr (user, there) ↦ ground (
          arith,
          made,
          read,
          cut,
          there,
          Bool-cases saved.1,
          Bool-cases (is_valid_vote_bits (get_agendas deployments vote_version) bits),
        )
      ]
