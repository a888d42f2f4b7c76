-- ===== src/Stakepoold/FeeAddresses/Laws.antt =====
-- Which addresses are derived, and when the derivation ends.
use hxstakepool.Prelude.{
  ℕ, zero, suc, ◌+◌, ◌<◌, ◌≤◌, String, Bool, true, false, List, [], ◌∷◌, ◌++◌, none, some, ◌≡◌,
  refl, arith, ◌∙◌, string_eq, map, ◌||◌,
}
use native.Mathlib.Decide.{dec_lt}
use mathlib.Core.List.{append_assoc, append-nil}
use text.Mathlib.TextEquality.{eq_iff}
use hxstakepool.Prelude.Words.{uint32}
use hxstakepool.Prelude.Result.{ok}
use hxstakepool.GoMap.{GoMap, put_all, has, lookup, put}
use hxstakepool.GoMap.Laws.{lookup-put, elem}
use hxstakepool.Keys.{KeyChain, key, invalid_child}
use hxstakepool.Stakepoold.FeeAddresses.{
  fee_addrs_end, addr_type, derive_loop, derive_child_addresses, addr_map, calculate_fee_addresses,
}

-- `addr i ∷ … ∷ addr (i + n - 1) ∷ []`
abbrev pub addresses_from : (ℕ → String) → ℕ → ℕ → List String
addresses_from addr i zero = []
addresses_from addr i (suc n) = addr i ∷ addresses_from addr (i + 1) n

module _ (k : KeyChain) (parent start_index : ℕ) (addr : ℕ → String) where
  -- Child `i` of the branch exists and has address `addr i`.
  abbrev pub Derives : ℕ → Type 0
  Derives i =
      (child : ℕ) × (k.child parent (uint32 (start_index + i)) ≡ key child)
      × (k.address child (addr_type k parent) ≡ some (addr i))

  derive_loop-ok :
      (fuel i n count : ℕ) (acc : List String)
      → n < fuel
      → i + n ≡ count
      → ((j : ℕ) → j < count → Derives j)
      → derive_loop k fuel parent start_index count i acc
        ≡ some (ok (acc ++ addresses_from addr i n))
  unfolding derive_loop
  derive_loop-ok zero i n count acc h e d = elim h [ ]
  derive_loop-ok (suc fuel) i zero count acc h e d = ground (arith, append-nil acc)
  derive_loop-ok (suc fuel) i (suc n) count acc h e d =
      let (child, ec, ea) = d i (omega arith) in
      ground (
        arith,
        ec,
        ea,
        derive_loop-ok fuel (i + 1) n count (acc ++ addr i ∷ []) (omega arith) (omega arith) d,
        append_assoc acc (addr i ∷ []) (addresses_from addr (i + 1) n),
      )

  -- If each child in the range exists, `count + 1` rounds give exactly their addresses, in order.
  pub derive_child_addresses-ok :
      (fuel count : ℕ)
      → count < fuel
      → ((j : ℕ) → j < count → Derives j)
      → derive_child_addresses k fuel parent start_index count
        ≡ some (ok (addresses_from addr 0 count))
  unfolding derive_child_addresses
  derive_child_addresses-ok fuel count h d = derive_loop-ok fuel 0 count count [] h (omega arith) d

  derive_loop-stuck :
      (fuel i count bad : ℕ) (acc : List String)
      → i ≤ bad
      → bad < count
      → ((j : ℕ) → j < bad → Derives j)
      → k.child parent (uint32 (start_index + bad)) ≡ invalid_child
      → derive_loop k fuel parent start_index count i acc ≡ none
  unfolding derive_loop
  derive_loop-stuck zero i count bad acc h hb d e = refl
  derive_loop-stuck (suc fuel) i count bad acc h hb d e = elim (dec_lt i bad) [
    | yes before ↦
        let (child, ec, ea) = d i before in
        ground (
          arith,
          ec,
          ea,
          derive_loop-stuck fuel (i + 1) count bad (acc ++ addr i ∷ []) (omega arith) hb d e,
        )
    | no after ↦
        let here : i ≡ bad = omega arith in
        ground (arith, here, e, derive_loop-stuck fuel i count bad acc h hb d e)
  ]

  -- An invalid child in the range, with no other error before it, and the loop never ends: whatever
  -- the fuel, it runs out.
  pub derive_child_addresses-stuck :
      (fuel count bad : ℕ)
      → bad < count
      → ((j : ℕ) → j < bad → Derives j)
      → k.child parent (uint32 (start_index + bad)) ≡ invalid_child
      → derive_child_addresses k fuel parent start_index count ≡ none
  unfolding derive_child_addresses
  derive_child_addresses-stuck fuel count bad hb d e =
      derive_loop-stuck fuel 0 count bad [] (omega arith) hb d e

-- The set of addresses that `addr_map` makes.
has-addr_map :
    (a : String) (addrs : List String) (m : GoMap String (Unit {0}))
    → has a (put_all (map (λ x. (x, tt)) addrs) m) ≡ (elem a addrs || has a m)
unfolding put_all
has-addr_map a [] m = refl
has-addr_map a (x ∷ addrs) m =
    ground (arith, has-addr_map a addrs (put x tt m), lookup-put x a tt m)

or_false : (b : Bool) → (b || false) ≡ b
or_false true = refl
or_false false = refl

elem-addresses_from :
    (addr : ℕ → String) (i n j : ℕ) → j < n → elem (addr (i + j)) (addresses_from addr i n) ≡ true
elem-addresses_from addr i zero j h = elim h [ ]
elem-addresses_from addr i (suc n) zero h = ground (arith, eq_iff (addr i) (addr (i + 0)))
elem-addresses_from addr i (suc n) (suc j) h =
    let there = elem-addresses_from addr (i + 1) n j (omega arith) in
    let same : i + 1 + j ≡ i + suc j = omega arith in ground (arith, rw same at there)

pub elem-addresses :
    (addr : ℕ → String) (n j : ℕ) → j < n → elem (addr j) (addresses_from addr 0 n) ≡ true
elem-addresses addr n j h =
    let same : 0 + j ≡ j = omega arith in rw same at (elem-addresses_from addr 0 n j h)

-- A valid key of the right network, each of whose first 10000 external children exists and has an
-- address, gives the set of exactly these addresses, where there is fuel for one round more than that.
pub calculate_fee_addresses-ok :
    (k : KeyChain) (addr : ℕ → String) (fuel : ℕ) (xpub : String) (acct branch : ℕ)
    → fee_addrs_end < fuel
    → k.new_key_from_string xpub ≡ some acct
    → k.is_for_net acct ≡ true
    → k.child acct k.external_branch ≡ key branch
    → ((j : ℕ) → j < fee_addrs_end → Derives k branch 0 addr j)
    → (m : GoMap String (Unit {0})) × (calculate_fee_addresses k fuel xpub ≡ some (ok m))
      × ((a : String) → has a m ≡ elem a (addresses_from addr 0 fee_addrs_end))
unfolding calculate_fee_addresses
calculate_fee_addresses-ok k addr fuel xpub acct branch h ek en eb d = (
  addr_map (addresses_from addr 0 fee_addrs_end),
  ground (arith, derive_child_addresses-ok k branch 0 addr fuel fee_addrs_end h d),
  λ a.
      unfold addr_map lookup in
      has-addr_map a (addresses_from addr 0 fee_addrs_end) [] ∙ or_false _,
)
