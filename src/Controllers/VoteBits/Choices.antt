-- ===== src/Controllers/VoteBits/Choices.antt =====
-- `choicesForAgendas` of controllers/main.go: the choices that the voting page shows as selected.
use Prim.Native.Nat.{bit_and}
use hxstakepool.Prelude.{
  ℕ, zero, suc, ◌+◌, string_eq, nat_eq, Bool, true, false, not, List, [], ◌∷◌, some, if◌then◌else◌,
  nat_beq, ◌==◌, ◌≡◌, ◌≢◌, refl, ◌∙◌, subst, arith, inl, inr, ltb, Bool-cases, nat_beq_iff, Member,
  get_elem?,
}
use hxstakepool.GoMap.{GoMap, lookup, put}
use hxstakepool.GoMap.Laws.{lookup-put}
use hxstakepool.Controllers.VoteBits.{Deployment, is_valid_vote_bits}
use hxstakepool.Controllers.VoteBits.Valid.{ChoosesAll, is_valid_vote_bits_iff}

-- The loop over the choices of the agenda `i`: `choicesSelected` and `valid`.
unfoldable pub select_choice : (i masked : ℕ) → List ℕ → GoMap ℕ ℕ × Bool → GoMap ℕ ℕ × Bool
select_choice i masked [] found = found
select_choice i masked (bits ∷ choices) (selected, valid) =
    select_choice i masked choices
      (if nat_beq masked bits then (put i bits selected, true) else (selected, valid))

-- One round of the loop over the agendas.
unfoldable pub select_agenda : (user_vote_bits i : ℕ) → Deployment → GoMap ℕ ℕ → GoMap ℕ ℕ
select_agenda user_vote_bits i d selected =
    let (selected2, valid) =
      select_choice i (bit_and user_vote_bits d.mask) d.choices (selected, false) in
    if not valid then put i 0 selected2 else selected2

-- The loop over the agendas, from the index `i` on.
unfoldable pub select_all : (user_vote_bits i : ℕ) → List Deployment → GoMap ℕ ℕ → GoMap ℕ ℕ
select_all user_vote_bits i [] selected = selected
select_all user_vote_bits i (d ∷ deployments) selected =
    select_all user_vote_bits (i + 1) deployments (select_agenda user_vote_bits i d selected)

abbrev pub choices_for_agendas : List Deployment → (user_vote_bits : ℕ) → GoMap ℕ ℕ
choices_for_agendas deployments user_vote_bits = select_all user_vote_bits 0 deployments []

-- Other agendas keep their choice.
select_choice-other :
    (i j masked : ℕ) (choices : List ℕ) (selected : GoMap ℕ ℕ) (valid : Bool)
    → ((i == j) ≡ false)
    → lookup j (select_choice i masked choices (selected, valid)).0 ≡ lookup j selected
unfolding select_choice
select_choice-other i j masked [] selected valid other = refl
select_choice-other i j masked (bits ∷ choices) selected valid other =
    elim (Bool-cases (nat_beq masked bits)) [
      | inl same ↦ ground (
        arith,
        same,
        other,
        select_choice-other i j masked choices (put i bits selected) true other,
        lookup-put i j bits selected,
      )
      | inr differ ↦
          ground (arith, differ, select_choice-other i j masked choices selected valid other)
    ]

-- A choice that is selected stays selected.
select_choice-kept :
    (i masked : ℕ) (choices : List ℕ) (selected : GoMap ℕ ℕ)
    → (lookup i selected ≡ some masked)
    → (lookup i (select_choice i masked choices (selected, true)).0 ≡ some masked)
      × ((select_choice i masked choices (selected, true)).1 ≡ true)
unfolding select_choice
select_choice-kept i masked [] selected held = (held, refl)
select_choice-kept i masked (bits ∷ choices) selected held =
    elim (Bool-cases (nat_beq masked bits)) [
      | inl same ↦
          let bits_eq = (nat_beq_iff masked bits).0 same in
          let held2 : lookup i (put i bits selected) ≡ some masked =
            ground (arith, lookup-put i i bits selected, bits_eq, nat_eq.beq_iff i i) in
          ground (arith, same, select_choice-kept i masked choices (put i bits selected) held2)
      | inr differ ↦ ground (arith, differ, select_choice-kept i masked choices selected held)
    ]

select_choice-found :
    (i masked : ℕ) (choices : List ℕ) (selected : GoMap ℕ ℕ) (valid : Bool)
    → Member masked choices
    → (lookup i (select_choice i masked choices (selected, valid)).0 ≡ some masked)
      × ((select_choice i masked choices (selected, valid)).1 ≡ true)
unfolding select_choice
select_choice-found i masked [] selected valid m = elim m [ ]
select_choice-found i masked (bits ∷ choices) selected valid m =
    elim (Bool-cases (nat_beq masked bits)) [
      | inl same ↦
          let bits_eq = (nat_beq_iff masked bits).0 same in
          let held : lookup i (put i bits selected) ≡ some masked =
            ground (arith, lookup-put i i bits selected, bits_eq, nat_eq.beq_iff i i) in
          ground (arith, same, select_choice-kept i masked choices (put i bits selected) held)
      | inr differ ↦ elim m [
        | inl here ↦ absurd (ground (arith, differ, here, nat_beq_iff masked bits))
        | inr there ↦
            ground (arith, differ, select_choice-found i masked choices selected valid there)
      ]
    ]

select_agenda-other :
    (bits i j : ℕ) (d : Deployment) (selected : GoMap ℕ ℕ)
    → ((i == j) ≡ false)
    → lookup j (select_agenda bits i d selected) ≡ lookup j selected
unfolding select_agenda
select_agenda-other bits i j d selected other =
    let found = select_choice i (bit_and bits d.mask) d.choices (selected, false) in
    let kept = select_choice-other i j (bit_and bits d.mask) d.choices selected false other in
    elim (Bool-cases found.1) [
      | inl valid ↦ ground (arith, valid, kept)
      | inr invalid ↦ ground (arith, invalid, kept, other, lookup-put i j 0 found.0)
    ]

select_agenda-found :
    (bits i : ℕ) (d : Deployment) (selected : GoMap ℕ ℕ)
    → Member (bit_and bits d.mask) d.choices
    → lookup i (select_agenda bits i d selected) ≡ some (bit_and bits d.mask)
unfolding select_agenda
select_agenda-found bits i d selected m =
    let (held, valid) = select_choice-found i (bit_and bits d.mask) d.choices selected false m in
    ground (arith, held, valid)

-- The agendas from `i` on leave those before alone.
select_all-before :
    (bits i j : ℕ) (deployments : List Deployment) (selected : GoMap ℕ ℕ)
    → (ltb j i ≡ true)
    → lookup j (select_all bits i deployments selected) ≡ lookup j selected
unfolding select_all
select_all-before bits i j [] selected less = refl
select_all-before bits i j (d ∷ deployments) selected less =
    let other : (i == j) ≡ false = ground (arith, less, nat_eq.beq_iff i j) in
    let less2 : ltb j (i + 1) ≡ true = ground (arith, less) in
    let after = select_agenda bits i d selected in
    select_all-before bits (i + 1) j deployments after less2
    ∙ select_agenda-other bits i j d selected other

select_all-lookup :
    (bits i k : ℕ) (deployments : List Deployment) (selected : GoMap ℕ ℕ) {d : Deployment}
    → ChoosesAll bits deployments
    → (get_elem? deployments k ≡ some d)
    → (lookup (i + k) (select_all bits i deployments selected) ≡ some (bit_and bits d.mask))
      × Member (bit_and bits d.mask) d.choices
unfolding select_all
select_all-lookup bits i k [] selected all at = absurd (ground (arith, at))
select_all-lookup bits i zero (d ∷ deployments) selected {d = e} (m, all) at =
    let less : ltb i (i + 1) ≡ true = ground arith in
    let after = select_agenda bits i d selected in
    let shown =
      select_all-before bits (i + 1) i deployments after less
      ∙ select_agenda-found bits i d selected m in
    let same : d ≡ e = ground (arith, at) in
    let shown_at : lookup (i + 0) (select_all bits (i + 1) deployments after)
        ≡ some (bit_and bits d.mask) =
      subst (λ n. lookup n (select_all bits (i + 1) deployments after) ≡ some (bit_and bits d.mask))
        (omega arith) shown in
    subst
      (λ a.
        (lookup (i + 0) (select_all bits (i + 1) deployments after) ≡ some (bit_and bits a.mask))
        × Member (bit_and bits a.mask) a.choices)
      same (shown_at, m)
select_all-lookup bits i (suc k) (d ∷ deployments) selected {d = e} (m, all) at =
    let after = select_agenda bits i d selected in
    let (shown, m2) = select_all-lookup bits (i + 1) k deployments after all at in
    (
      subst (λ n. lookup n (select_all bits (i + 1) deployments after) ≡ some (bit_and bits e.mask))
          (omega arith) shown,
      m2,
    )

-- Where the vote bits are valid and not 1, the page shows for each agenda of the list, under the
-- agenda's index, the user's vote bits under the agenda's mask, and that is one of its choices.
pub choices_for_agendas-is_valid_vote_bits :
    (deployments : List Deployment) (bits k : ℕ) {d : Deployment}
    → (is_valid_vote_bits deployments bits ≡ true)
    → (bits ≢ 1)
    → (get_elem? deployments k ≡ some d)
    → (lookup k (choices_for_agendas deployments bits) ≡ some (bit_and bits d.mask))
      × Member (bit_and bits d.mask) d.choices
choices_for_agendas-is_valid_vote_bits deployments bits k {d} valid several at =
    elim ((is_valid_vote_bits_iff deployments bits).0 valid) [
      | inl one ↦ absurd (several one)
      | inr (odd, all, none_left) ↦
          let (shown, m) = select_all-lookup bits 0 k deployments [] all at in
          (
            subst
                (λ n. lookup n (choices_for_agendas deployments bits) ≡ some (bit_and bits d.mask))
                (omega arith) shown,
            m,
          )
    ]
