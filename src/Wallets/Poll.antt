-- ===== src/Wallets/Poll.antt =====
-- The loops that the cases of `executeInSequence` share (controllers/hcclient.go): ask every wallet,
-- compare neighbours, take the first answer.
pub mod Laws
use hxstakepool.Prelude.{
  ℕ, ◌+◌, Bool, true, false, ◌&&◌, List, [], ◌∷◌, map, Option, none, some, if◌then◌else◌, ltb,
}
use hxstakepool.Prelude.Result.{Result, ok, err}
use hxstakepool.Wallets.Types.{
  Answer, answer, fails, is_down, Server, SvrError, rpc, too_few, non_equivalent,
}

-- What the loop over the servers leaves: the slice of answers, `connectCount`, and the error with
-- which it returned early.
pub record Polled (A : Type 0) : Type 0 where
  pub answers : List (Option A)
  pub connect_count : ℕ
  pub failure : Option SvrError

abbrev pub absent : {A : Type 0} → Polled A → Polled A
absent p = record p { answers = none ∷ p.answers }

abbrev pub heard : {A : Type 0} → A → Polled A → Polled A
heard a p = record p { answers = some a ∷ p.answers; connect_count = p.connect_count + 1 }

unfoldable pub poll : {A : Type 0} → (ℕ → Answer A) → List Server → Polled A
poll ask [] = record { answers = []; connect_count = 0; failure = none }
poll ask (none ∷ servers) = absent (poll ask servers)
poll ask (some s ∷ servers) = elim (ask s) [
  | answer a ↦ heard a (poll ask servers)
  | fails e ↦ elim (is_down e) [
    | true ↦ absent (poll ask servers)
    | false ↦ record {
      answers = none ∷ map (λ _. none) servers;
      connect_count = 0;
      failure = some (rpc e);
    }
  ]
]

abbrev pub agree_pair : {A : Type 0} → (A → A → Bool) → Option A → Option A → Bool
agree_pair same (some a) (some b) = same a b
agree_pair same _ _ = true

-- The loop that compares each answer with the next.
unfoldable pub neighbours_agree : {A : Type 0} → (A → A → Bool) → List (Option A) → Bool
neighbours_agree same [] = true
neighbours_agree same (x ∷ []) = true
neighbours_agree same (x ∷ y ∷ rest) = agree_pair same x y && neighbours_agree same (y ∷ rest)

-- The loop that breaks at the first answer.
unfoldable pub first_answer : {A : Type 0} → List (Option A) → Option A
first_answer [] = none
first_answer (none ∷ rest) = first_answer rest
first_answer (some a ∷ rest) = some a

-- A case of `executeInSequence`: nothing beside no error where no wallet had to answer.
unfoldable pub ask_all :
    {A : Type 0}
    → (min_servers : ℕ) → (A → A → Bool)
    → (ℕ → Answer A)
    → List Server
    → Result SvrError (Option A)
unfolding poll neighbours_agree first_answer
ask_all min_servers same ask servers =
    let p = poll ask servers in
    elim p.failure [
      | some e ↦ err e
      | none ↦
          if ltb p.connect_count min_servers
          then err (too_few p.connect_count min_servers)
          else if neighbours_agree same p.answers
          then ok (first_answer p.answers)
          else err non_equivalent
    ]
