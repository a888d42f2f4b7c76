-- ===== src/Controllers/VoteBits/Tests.antt =====
-- The vote bits of two users under one agenda.
use Prim.Native.Nat.{bit_and}
use hxstakepool.Prelude.{
  ℕ, true, List, [], ◌∷◌, some, ◌≡◌, ◌≢◌, refl, ◌↔◌, ◌⊎◌, arith, Member, string_eq, nat_eq,
}
use hxstakepool.GoMap.{GoMap, lookup}
use hxstakepool.Grpc.Client.{DbUser}
use hxstakepool.Controllers.VoteBits.{
  Deployment, and_not, choose, agendas_used, is_valid_vote_bits, Users,
}
use hxstakepool.Controllers.VoteBits.Valid.{ChoosesAll, bits_of, is_valid_vote_bits_iff}
use hxstakepool.Controllers.VoteBits.Choices.{
  choices_for_agendas, choices_for_agendas-is_valid_vote_bits,
}

-- Abstain, no and yes, in the second and the third bit.
abbrev agenda : Deployment
agenda = record { mask = 6; choices = 0 ∷ 2 ∷ 4 ∷ [] }

abbrev deployments : GoMap ℕ (List Deployment)
deployments = (4, agenda ∷ []) ∷ []

is_valid_vote_bits_iff_example : (is_valid_vote_bits (agenda ∷ []) 5 ≡ true) ↔ (
    (◌≡◌ {A = ℕ} 5 1)
    ⊎ ((bit_and 5 1 ≢ 0) × ChoosesAll 5 (agenda ∷ []) × (and_not 5 (bits_of 1 (agenda ∷ [])) ≡ 0)))
is_valid_vote_bits_iff_example = is_valid_vote_bits_iff (agenda ∷ []) 5

choices_for_agendas-is_valid_vote_bits_example :
    (lookup 0 (choices_for_agendas (agenda ∷ []) 5) ≡ some 4) × Member 4 agenda.choices
choices_for_agendas-is_valid_vote_bits_example =
    choices_for_agendas-is_valid_vote_bits (agenda ∷ []) 5 0 {d = agenda}
      (unfold is_valid_vote_bits agendas_used choose in refl) (omega arith) refl

abbrev user : ℕ → ℕ → DbUser
user bits version = record {
  multi_sig_address = "DcUser";
  vote_bits = bits;
  vote_bits_version = version;
}

-- The first user chose under an older version, the second wrongly; the id between is free.
abbrev users : Users
users = (1, user 5 3) ∷ (3, user 7 4) ∷ []

abbrev users_after : Users
users_after = (1, user 1 4) ∷ (3, user 1 4) ∷ []
