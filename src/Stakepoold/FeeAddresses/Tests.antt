-- ===== src/Stakepoold/FeeAddresses/Tests.antt =====
-- The fee addresses of two small key chains.
use hxstakepool.Prelude.{
  ℕ, zero, suc, ◌+◌, ◌<◌, String, true, some, if◌then◌else◌, ◌≡◌, refl, arith, nat_beq, nat_eq,
  string_eq,
}
use hxstakepool.Prelude.Words.{uint32}
use hxstakepool.Prelude.Result.{ok}
use hxstakepool.GoMap.{GoMap, has}
use hxstakepool.GoMap.Laws.{elem}
use hxstakepool.Keys.{KeyChain, key, invalid_child}
use hxstakepool.Stakepoold.FeeAddresses.{fee_addrs_end, calculate_fee_addresses}
use hxstakepool.Stakepoold.FeeAddresses.Laws.{Derives, addresses_from, calculate_fee_addresses-ok}

-- Key 1 is the account, key 2 its branch, and child `i` of the branch is key `i`.
abbrev name_of : ℕ → String
name_of i = if nat_beq i 0 then "DsFee" else "DsNext"

abbrev keys : KeyChain
keys = record {
  new_key_from_string = λ xpub. some 1;
  is_for_net = λ k. true;
  child = λ k i. if nat_beq k 1 then key 2 else key i;
  get_alg_type = λ k. 4;
  address = λ k type. some (name_of k);
  external_branch = 0;
}

derives : (j : ℕ) → Derives keys 2 0 (λ i. name_of (uint32 (0 + i))) j
derives j = (uint32 (0 + j), refl, refl)

calculate_fee_addresses-ok_example :
    (m : GoMap String (Unit {0})) × (calculate_fee_addresses keys 10001 "xpub" ≡ some (ok m))
    × ((a : String)
        → has a m ≡ elem a (addresses_from (λ i. name_of (uint32 (0 + i))) 0 fee_addrs_end))
calculate_fee_addresses-ok_example =
    calculate_fee_addresses-ok keys (λ i. name_of (uint32 (0 + i))) 10001 "xpub" 1 2 (omega arith)
      refl refl refl (λ j h. derives j)

-- The second child of the branch does not exist.
abbrev gap : KeyChain
gap = record keys {
  child = λ k i. if nat_beq k 1 then key 2 else if nat_beq i 1 then invalid_child else key i;
}

gap-Derives : (j : ℕ) → j < 1 → Derives gap 2 0 name_of j
gap-Derives zero h = (0, refl, refl)
gap-Derives (suc j) h = absurd omega (arith, h)
