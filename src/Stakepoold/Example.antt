-- ===== src/Stakepoold/Example.antt =====
-- A small pool for the tests: one user, a wallet with three tickets, of which the second pays no fee,
-- and a node.
use hxstakepool.Prelude.{
  ℕ, String, false, List, [], ◌∷◌, Option, none, some, if◌then◌else◌, nat_beq, nat_eq, string_eq,
  ◌==◌,
}
use hxstakepool.Stakepoold.Context.{AppContext, UserVotingConfig}
use hxstakepool.Stakepoold.Rpc.{Reply, reply, failure, Transaction, Wallet, Node}
use hxstakepool.Stakepoold.Fees.{MsgTx, TxRules}

-- A script is the amount of a commitment and the number of an address.
abbrev pub amount_of : List ℕ → Option ℕ
amount_of [] = none
amount_of (amount ∷ rest) = some amount

abbrev pub address_of : List ℕ → Option String
address_of (amount ∷ number ∷ []) = if nat_beq number 7 then some "DsFee" else some "DsOther"
address_of _ = none

abbrev pub ticket_tx : ℕ → MsgTx
ticket_tx amount = record {
  tx_out =
      record { value = 100; pk_script = [] }
      ∷ record { value = 0; pk_script = amount ∷ 7 ∷ [] }
      ∷ record { value = 0; pk_script = [] }
      ∷ record { value = 0; pk_script = 95 ∷ 8 ∷ [] }
      ∷ [];
}

-- The byte of a transaction is the amount of its fee.
abbrev pub rules : TxRules
rules = record {
  addr_from_commitment = address_of;
  amount_from_commitment = amount_of;
  stake_pool_ticket_fee = λ value fees height rate. 5;
  deserialize =
      λ bytes. elim (amount_of bytes) [ none ↦ none | some amount ↦ some (ticket_tx amount) ];
  decode_address = λ a. some a;
}

abbrev pub transaction : String → String → Transaction
transaction id hex = record {
  details = "DsElse" ∷ "DcUser" ∷ [];
  hex = hex;
  tx_id = id;
  block_hash = "block";
}

abbrev pub wallet_transaction : ℕ → Reply Transaction
wallet_transaction t =
    if nat_beq t 1
    then reply (transaction "one" "0a")
    else if nat_beq t 2
    then reply (transaction "two" "03")
    else if nat_beq t 3
    then reply (transaction "three" "03")
    else failure "no such ticket"

abbrev pub hash_from_str : String → Option ℕ
hash_from_str s =
    if s == "one"
    then some 1
    else if s == "two"
    then some 2
    else if s == "three"
    then some 3
    else if s == "block"
    then some 50
    else none

abbrev pub wallet : Wallet
wallet = record {
  get_transaction = wallet_transaction;
  get_tickets = reply (1 ∷ 2 ∷ 3 ∷ []);
  generate_vote = λ block height ticket bits extended. reply "0a0b";
}

abbrev pub node : Node
node = record {
  from_bytes = λ bytes. some bytes;
  send_raw_transaction = λ bytes. reply 900;
  get_block_header = λ block. reply 40;
  new_hash_from_str = hash_from_str;
}

abbrev pub user : UserVotingConfig
user = record { userid = 1; multi_sig_address = "DcUser"; vote_bits = 5; vote_bits_version = 4 }

-- The administrator added ticket 3.
abbrev pub pool : AppContext
pool = record {
  added_low_fee_tickets_msa = (3, "DcUser") ∷ [];
  ignored_low_fee_tickets_msa = [];
  live_tickets_msa = (3, "DcUser") ∷ [];
  user_voting_config = ("DcUser", user) ∷ [];
  fee_addrs = ("DsFee", tt) ∷ [];
  pool_fees = 5;
  voting_config = record { vote_bits = 1; vote_version = 4; vote_bits_extended = "05000000" };
  testing = false;
}
