-- ===== src/Controllers/VoteBits/Valid.antt =====
-- Which vote bits are valid.
use Prim.Native.Nat.{bit_and, bit_or}
use hxstakepool.Prelude.{
  ℕ, string_eq, nat_eq, Bool, true, false, List, [], ◌∷◌, some, if◌then◌else◌, nat_beq, ◌≡◌, ◌≢◌,
  refl, ◌↔◌, ◌⊎◌, inl, inr, arith, All, Member, Bool-cases, Option-cases, nat_beq_iff,
}
use hxstakepool.Controllers.VoteBits.{Deployment, and_not, choose, agendas_used, is_valid_vote_bits}

-- The bits that the choices of the agendas use, with those given.
abbrev pub or_all : ℕ → List ℕ → ℕ
or_all used [] = used
or_all used (bits ∷ choices) = or_all (bit_or used bits) choices

abbrev pub bits_of : ℕ → List Deployment → ℕ
bits_of used [] = used
bits_of used (d ∷ deployments) = bits_of (or_all used d.choices) deployments

-- The vote bits choose, for each agenda, one of its choices.
abbrev pub ChoosesAll : ℕ → List Deployment → Type 0
ChoosesAll bits deployments = All (λ d. Member (bit_and bits d.mask) d.choices) deployments

choose-lem :
    (masked : ℕ) (choices : List ℕ) (used : ℕ) (valid : Bool)
    → ((choose masked choices (used, valid)).0 ≡ or_all used choices)
      × (((choose masked choices (used, valid)).1 ≡ true)
          ↔ ((valid ≡ true) ⊎ Member masked choices))
unfolding choose
choose-lem masked [] used valid =
    (refl, (λ e. inl e, λ o. elim o [ inl e ↦ e | inr m ↦ elim m [ ] ]))
choose-lem masked (bits ∷ choices) used valid =
    let (used_eq, (to, from)) =
      choose-lem masked choices (bit_or used bits) (if nat_beq masked bits then true else valid) in
    (
      used_eq,
      (
        λ e. elim (to e) [
          | inr m ↦ inr (inr m)
          | inl v ↦ elim (Bool-cases (nat_beq masked bits)) [
            | inl same ↦ inr (inl ((nat_beq_iff masked bits).0 same))
            | inr other ↦ inl (ground (arith, v, other))
          ]
        ],
        λ o. elim o [
          | inl v ↦ from (inl (ground (arith, v)))
          | inr (inl same) ↦ from (inl (ground (arith, same)))
          | inr (inr m) ↦ from (inr m)
        ],
      ),
    )

agendas_used_iff :
    (bits : ℕ) (deployments : List Deployment) (used : ℕ) {result : ℕ}
    → (agendas_used bits deployments used ≡ some result)
      ↔ (ChoosesAll bits deployments × (bits_of used deployments ≡ result))
unfolding agendas_used
agendas_used_iff bits [] used = (λ e. (tt, ground (arith, e)), λ (_, e). ground (arith, e))
agendas_used_iff bits (d ∷ deployments) used {result} =
    let found = choose (bit_and bits d.mask) d.choices (used, false) in
    let (used_eq, (to, from)) = choose-lem (bit_and bits d.mask) d.choices used false in
    let (after, before) =
      agendas_used_iff bits deployments (or_all used d.choices) {result = result} in
    (
      λ e. elim (Bool-cases found.1) [
        | inr invalid ↦ absurd (ground (arith, e, invalid))
        | inl valid ↦
            let (rest, same) = after (ground (arith, e, valid, used_eq)) in
            ((elim (to valid) [ inl wrong ↦ absurd cc | inr m ↦ m ], rest), same)
      ],
      λ ((m, rest), same). ground (arith, from (inr m), used_eq, before (rest, same)),
    )

-- Vote bits are valid exactly where they are 1, or where the lowest bit is set, they choose one of the
-- choices of each agenda, and every bit that is set is the lowest or one that a choice uses.
pub is_valid_vote_bits_iff :
    (deployments : List Deployment) (bits : ℕ)
    → (is_valid_vote_bits deployments bits ≡ true) ↔ (
        (bits ≡ 1)
        ⊎ ((bit_and bits 1 ≢ 0)
            × ChoosesAll bits deployments
            × (and_not bits (bits_of 1 deployments) ≡ 0)))
unfolding is_valid_vote_bits
is_valid_vote_bits_iff deployments bits =
    let cases = Option-cases (agendas_used bits deployments 1) in
    (
      λ e. elim cases [
        | inl f ↦ ground (arith, e, f)
        | inr (result, f) ↦
            let (all, same) = (agendas_used_iff bits deployments 1).0 f in
            ground (arith, e, f, all, same)
      ],
      λ o. elim o [
        | inl one ↦ ground (arith, one)
        | inr (odd, all, none_left) ↦ ground (
          arith,
          odd,
          none_left,
          (agendas_used_iff bits deployments 1 {result = bits_of 1 deployments}).1 (all, refl),
        )
      ],
    )
