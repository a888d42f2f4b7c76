-- ===== src/Controllers/Tests.antt =====
-- The addresses of the users at a small key chain.
use hxstakepool.Prelude.{
  ℕ, ◌+◌, ◌<◌, String, true, some, if◌then◌else◌, nat_beq, string_eq, ◌≡◌, refl, arith,
}
use hxstakepool.Prelude.Words.{uint32}
use hxstakepool.Prelude.Result.{ok}
use hxstakepool.GoMap.{GoMap, has}
use hxstakepool.Keys.{KeyChain, key}
use hxstakepool.Stakepoold.FeeAddresses.{calculate_fee_addresses}
use hxstakepool.Stakepoold.FeeAddresses.Laws.{Derives}
use hxstakepool.Controllers.UserAddresses.{max_users, fee_address_for_user_id}
use hxstakepool.Controllers.UserAddresses.Laws.{fee_address-calculate_fee_addresses}

-- Key 1 is the account, key 2 its branch, and child `i` of the branch is key `i`.
abbrev name_of : ℕ → String
name_of i = if nat_beq i 0 then "DsFirst" else "DsNext"

abbrev keys : KeyChain
keys = record {
  new_key_from_string = λ xpub. some 1;
  is_for_net = λ k. true;
  child = λ k i. if nat_beq k 1 then key 2 else key i;
  get_alg_type = λ k. 4;
  address = λ k type. some (name_of k);
  external_branch = 0;
}

derives : (j : ℕ) → j < max_users → Derives keys 2 0 (λ i. name_of (uint32 (0 + i))) j
derives j h = (uint32 (0 + j), refl, refl)

fee_address-calculate_fee_addresses_example :
    (m : GoMap String (Unit {0})) × (a : String) × (calculate_fee_addresses keys 10001 "xpub"
      ≡ some (ok m))
    × (fee_address_for_user_id keys 1 7 ≡ ok a)
    × (has a m ≡ true)
fee_address-calculate_fee_addresses_example =
    fee_address-calculate_fee_addresses keys (λ i. name_of (uint32 (0 + i))) 1 2 refl derives
      (λ parent i child e. refl) 10001 7 "xpub" (omega arith) (omega arith) refl refl
