-- ===== src/Stakepoold/FeeAddresses.antt =====
-- `calculateFeeAddresses` and `deriveChildAddresses` of backend/stakepoold/server.go.
pub mod Laws
mod Tests
use hxstakepool.Prelude.{
  ℕ, zero, suc, ◌+◌, String, Bool, true, false, List, [], ◌∷◌, ◌++◌, Option, none, some,
  if◌then◌else◌, ltb, nat_beq, string_eq, map,
}
use hxstakepool.Prelude.Words.{uint32}
use hxstakepool.Prelude.Result.{Result, ok, err, panic}
use hxstakepool.GoMap.{GoMap, put_all}
use hxstakepool.Keys.{
  KeyChain, KeyError, Derivation, key, invalid_child, failed, bad_key, wrong_network, bad_child,
  bad_address,
}

-- `if key.GetAlgType() == 4 { addrType = 1 }`
abbrev pub addr_type : KeyChain → ℕ → ℕ
addr_type k parent = if nat_beq (k.get_alg_type parent) 4 then 1 else 0

-- `addrMap[addrs[i].EncodeAddress()] = struct{}{}` for each address.
unfoldable pub addr_map : List String → GoMap String (Unit {0})
addr_map addrs = put_all (map (λ addr. (addr, tt)) addrs) []

abbrev to_map :
    Option (Result KeyError (List String)) → Option (Result KeyError (GoMap String (Unit {0})))
unfolding addr_map
to_map none = none
to_map (some (ok addrs)) = some (ok (addr_map addrs))
to_map (some (err e)) = some (err e)
to_map (some panic) = some panic

-- `end` of `calculateFeeAddresses`.
abbrev pub fee_addrs_end : ℕ
fee_addrs_end = 10000

module _ (k : KeyChain) where
  -- The loop of `deriveChildAddresses`, each round of which takes fuel; `none` means that the
  -- fuel ran out. A round that meets an invalid child goes on with the same `i`.
  unfoldable pub derive_loop :
      ℕ → (parent start_index count i : ℕ) → List String → Option (Result KeyError (List String))
  derive_loop zero parent start_index count i addresses = none
  derive_loop (suc fuel) parent start_index count i addresses = elim (ltb i count) [
    | false ↦ some (ok addresses)
    | true ↦ elim (k.child parent (uint32 (start_index + i))) [
      | invalid_child ↦ derive_loop fuel parent start_index count i addresses
      | failed ↦ some (err bad_child)
      | key child ↦ elim (k.address child (addr_type k parent)) [
        | none ↦ some (err bad_address)
        | some addr ↦ derive_loop fuel parent start_index count (i + 1) (addresses ++ addr ∷ [])
      ]
    ]
  ]

  unfoldable pub derive_child_addresses :
      ℕ → (parent start_index count : ℕ) → Option (Result KeyError (List String))
  unfolding derive_loop
  derive_child_addresses fuel parent start_index count =
      derive_loop fuel parent start_index count 0 []

  unfoldable pub calculate_fee_addresses :
      ℕ → String → Option (Result KeyError (GoMap String (Unit {0})))
  unfolding derive_child_addresses addr_map
  calculate_fee_addresses fuel xpub = elim (k.new_key_from_string xpub) [
    | none ↦ some (err bad_key)
    | some acct_key ↦ elim (k.is_for_net acct_key) [
      | false ↦ some (err wrong_network)
      | true ↦ elim (k.child acct_key k.external_branch) [
        | invalid_child ↦ some (err bad_child)
        | failed ↦ some (err bad_child)
        | key branch_key ↦ to_map (derive_child_addresses fuel branch_key 0 fee_addrs_end)
      ]
    ]
  ]
