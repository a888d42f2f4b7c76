-- ===== src/Wallets/Tickets/Syncness.antt =====
-- When `checkForSyncness` finds the wallets in sync.
use hxstakepool.Prelude.{
  ℕ, suc, ◌+◌, true, List, [], ◌∷◌, Option, none, some, nat_beq, length, get_elem?, ◌≡◌, refl, ◌↔◌,
  arith, All, inl, inr, Bool-cases, ap,
}
use hxstakepool.Wallets.Types.{UserInfoResult}
use hxstakepool.Wallets.Tickets.{in_sync_with, all_in_sync, check_for_syncness}

-- The answers of the wallets that gave one.
abbrev pub present : List (Option UserInfoResult) → List UserInfoResult
present [] = []
present (none ∷ rest) = present rest
present (some a ∷ rest) = a ∷ present rest

-- As many valid tickets, and as many invalid ones.
abbrev pub SameCounts : UserInfoResult → UserInfoResult → Type 0
SameCounts a b =
    (length a.tickets ≡ length b.tickets) × (length a.invalid_tickets ≡ length b.invalid_tickets)

-- The list `rest` stands in `spuirs` from index `k` on.
abbrev pub From : List (Option UserInfoResult) → ℕ → List (Option UserInfoResult) → Type 0
From spuirs k rest = (n : ℕ) → get_elem? spuirs (k + n) ≡ get_elem? rest n

From-tail :
    (spuirs : List (Option UserInfoResult)) (k : ℕ) (x : Option UserInfoResult)
    (rest : List (Option UserInfoResult))
    → From spuirs k (x ∷ rest)
    → From spuirs (suc k) rest
From-tail spuirs k x rest from n = ground (arith, from (suc n))

in_sync_with_iff :
    (spuirs : List (Option UserInfoResult)) (i : ℕ) (a : UserInfoResult) (k : ℕ)
    (rest : List (Option UserInfoResult))
    → get_elem? spuirs i ≡ some (some a)
    → From spuirs k rest
    → (in_sync_with i a k rest ≡ true) ↔ All (SameCounts a) (present rest)
unfolding in_sync_with
in_sync_with_iff spuirs i a k [] at from = (λ _. tt, λ _. refl)
in_sync_with_iff spuirs i a k (none ∷ rest) at from =
    in_sync_with_iff spuirs i a (suc k) rest at (From-tail spuirs k none rest from)
in_sync_with_iff spuirs i a k (some b ∷ rest) at from =
    let (to, back) =
      in_sync_with_iff spuirs i a (suc k) rest at (From-tail spuirs k (some b) rest from) in
    elim (Bool-cases (nat_beq i k)) [
      | inl same ↦
          let it : a ≡ b = ground (arith, at, same, from 0) in
          (
            λ e. (
              (ap (λ x. length x.tickets) it, ap (λ x. length x.invalid_tickets) it),
              to (ground (arith, e, same)),
            ),
            λ (_, all). ground (arith, same, back all),
          )
      | inr other ↦ (
        λ e. (ground (arith, e, other), to (ground (arith, e, other))),
        λ ((p, q), all). ground (arith, other, p, q, back all),
      )
    ]

all_in_sync_iff :
    (spuirs : List (Option UserInfoResult)) (i : ℕ) (rest : List (Option UserInfoResult))
    → From spuirs i rest
    → (all_in_sync spuirs i rest ≡ true)
      ↔ All (λ a. All (SameCounts a) (present spuirs)) (present rest)
unfolding all_in_sync
all_in_sync_iff spuirs i [] from = (λ _. tt, λ _. refl)
all_in_sync_iff spuirs i (none ∷ rest) from =
    all_in_sync_iff spuirs (suc i) rest (From-tail spuirs i none rest from)
all_in_sync_iff spuirs i (some a ∷ rest) from =
    let (to, back) = all_in_sync_iff spuirs (suc i) rest (From-tail spuirs i (some a) rest from) in
    let (first, from_first) =
      in_sync_with_iff spuirs i a 0 spuirs (ground (arith, from 0)) (λ n. ground arith) in
    (
      λ e. (first (ground (arith, e)), to (ground (arith, e))),
      λ (one, all). ground (arith, from_first one, back all),
    )

-- The wallets count as in sync exactly where every two of those that answered have as many valid and
-- as many invalid tickets as each other, whichever tickets these are.
pub check_for_syncness_iff :
    (spuirs : List (Option UserInfoResult))
    → (check_for_syncness spuirs ≡ true)
      ↔ All (λ a. All (SameCounts a) (present spuirs)) (present spuirs)
unfolding check_for_syncness
check_for_syncness_iff spuirs = all_in_sync_iff spuirs 0 spuirs (λ n. ground arith)
