-- ===== src/Tests/WireTests.antt =====
-- Structures of the protocol with concrete fields.
use coin_vault.Common.{
  Bytes, big_endian, uint_to_vch, ℕ, ◌≡◌, refl, ◌≢◌, List, [], ◌∷◌, ◌++◌, reverse, arith, ◌>>=◌,
  too_small, fault, err, ok,
}
use coin_vault.Wire.VarInt
use coin_vault.Wire.OutPoint
use coin_vault.Wire.OutPoint.{OutPoint}
use coin_vault.Wire.TxIn
use coin_vault.Wire.TxIn.{TxIn}
use coin_vault.Wire.TxOut
use coin_vault.Wire.TxOut.{TxOut}
use coin_vault.Wire.Transaction
use coin_vault.Wire.Transaction.{Transaction}
use coin_vault.Wire.Transaction.RoundTrip.{transaction_round_trip, length-transaction}
use coin_vault.Wire.Transaction.Scripts.{set_script_sig, set_script_sig-fault}
use coin_vault.Wire.BlockHeader
use coin_vault.Wire.BlockHeader.{BlockHeader}
use coin_vault.Wire.Block
use coin_vault.Wire.Block.{CoinBlock}
use coin_vault.Wire.Block.RoundTrip.{block_round_trip}
use coin_vault.Wire.Headers
use coin_vault.Wire.Headers.{headers_round_trip}
use coin_vault.Wire.Locator
use coin_vault.Wire.Locator.{Locator}
use coin_vault.Wire.Locator.GetBlocks
use coin_vault.Wire.Locator.GetHeaders

-- A hash of 32 bytes that begins with `b`.
abbrev hash_of : ℕ → Bytes
hash_of b =
    b ∷ 2 ∷ 3 ∷ 4 ∷ 5 ∷ 6 ∷ 7 ∷ 8 ∷ 9 ∷ 10 ∷ 11 ∷ 12 ∷ 13 ∷ 14 ∷ 15 ∷ 16 ∷ 1 ∷ 2 ∷ 3 ∷ 4 ∷ 5 ∷ 6 ∷ 7
    ∷ 8 ∷ 9 ∷ 10 ∷ 11 ∷ 12 ∷ 13 ∷ 14 ∷ 15 ∷ 16 ∷ []

abbrev out : OutPoint
out = record { hash = hash_of 7; index = 258 }

out-IsValid : OutPoint.IsValid out
out-IsValid = record { hash_size = refl; index_range = omega arith }

abbrev spend : TxIn
spend = record { previous_out = out; script_sig = 1 ∷ 2 ∷ 3 ∷ []; sequence = 0xffffffff }

spend-IsValid : TxIn.IsValid spend
spend-IsValid = record {
  out_valid = out-IsValid;
  size_range = omega arith;
  sequence_range = omega arith;
}

abbrev pay : TxOut
pay = record { value = 5000000000; script_pub_key = 0x51 ∷ [] }

pay-IsValid : TxOut.IsValid pay
pay-IsValid = record { value_range = omega arith; script_range = omega arith }

abbrev tx : Transaction
tx = record { version = 1; inputs = spend ∷ []; outputs = pay ∷ pay ∷ []; lock_time = 17 }

tx-IsValid : Transaction.RoundTrip.IsValid tx
unfolding Transaction.get_size TxIn.get_size TxOut.get_size VarInt.get_size
tx-IsValid = record {
  version_range = omega arith;
  inputs_valid = (spend-IsValid, tt);
  outputs_valid = (pay-IsValid, (pay-IsValid, tt));
  lock_time_range = omega arith;
  size_range = omega arith;
}

abbrev header : BlockHeader
header = record {
  version = 2;
  prev_block_hash = hash_of 1;
  merkle_root = hash_of 2;
  timestamp = 1231006505;
  bits = 0x1d00ffff;
  nonce = 2083236893;
}

header-IsValid : BlockHeader.IsValid header
header-IsValid = record {
  version_range = omega arith;
  prev_size = refl;
  root_size = refl;
  timestamp_range = omega arith;
  bits_range = omega arith;
  nonce_range = omega arith;
}

abbrev locator : List Bytes → Locator
locator hashes = record { version = 70001; block_locator_hashes = hashes; hash_stop = hash_of 0 }

locator-IsValid : Locator.IsValid (locator (hash_of 9 ∷ []))
unfolding Locator.get_size VarInt.get_size
locator-IsValid = record {
  version_range = omega arith;
  hashes_valid = (refl, tt);
  stop_size = refl;
  size_range = omega arith;
}

no_locator-IsValid : Locator.IsValid (locator [])
unfolding Locator.get_size VarInt.get_size
no_locator-IsValid = record {
  version_range = omega arith;
  hashes_valid = tt;
  stop_size = refl;
  size_range = omega arith;
}

varint_round_trip_example :
    VarInt.set_serialized (VarInt.get_serialized 70000 ++ (3 ∷ [])) ≡ ok 70000
varint_round_trip_example = VarInt.varint_round_trip 70000 (3 ∷ []) (omega arith)

tx_in_cut_example :
    TxIn.set_serialized
      (OutPoint.get_serialized out ++ (VarInt.get_serialized 4 ++ (1 ∷ 2 ∷ 3 ∷ 4 ∷ [])))
    ≡ fault
tx_in_cut_example = TxIn.tx_in_cut out (1 ∷ 2 ∷ 3 ∷ 4 ∷ []) out-IsValid (omega arith) (omega arith)

tx_out_wrap_example :
    TxOut.set_serialized
      (uint_to_vch 8 5 big_endian ++ (VarInt.get_serialized 0xfffffffffffffff0 ++ (1 ∷ [])))
    ≡ fault
tx_out_wrap_example =
    TxOut.tx_out_wrap 5 0xfffffffffffffff0 (1 ∷ []) (omega arith) (omega arith) (omega arith)
      (omega arith)

transaction_round_trip_example :
    Transaction.set_serialized (Transaction.get_serialized tx ++ (1 ∷ [])) ≡ ok tx
transaction_round_trip_example = transaction_round_trip tx (1 ∷ []) tx-IsValid

block_header_round_trip_example :
    BlockHeader.set_serialized (BlockHeader.get_serialized header ++ (1 ∷ [])) ≡ ok header
block_header_round_trip_example = BlockHeader.block_header_round_trip header (1 ∷ []) header-IsValid

get_blocks_round_trip_example :
    (Locator.get_serialized (locator (hash_of 9 ∷ [])) >>= λ bytes.
    Locator.GetBlocks.set_serialized (bytes ++ (1 ∷ [])))
    ≡ ok (locator (hash_of 9 ∷ []))
get_blocks_round_trip_example =
    Locator.GetBlocks.get_blocks_round_trip (locator (hash_of 9 ∷ [])) (1 ∷ []) locator-IsValid
      (omega arith)

get_blocks_no_hash_example :
    (Locator.get_serialized (locator []) >>= Locator.GetBlocks.set_serialized) ≡ err too_small
get_blocks_no_hash_example =
    Locator.GetBlocks.get_blocks_no_hash (locator []) no_locator-IsValid refl

get_headers-ne-written_example :
    (Locator.get_serialized (locator (hash_of 9 ∷ [])) >>= Locator.GetHeaders.set_serialized)
    ≢ ok (locator (hash_of 9 ∷ []))
get_headers-ne-written_example =
    Locator.GetHeaders.get_headers-ne-written (locator (hash_of 9 ∷ [])) locator-IsValid
      (omega arith) (λ e. absurd (omega (arith, e)))

abbrev no_inputs : Transaction
no_inputs = record tx { inputs = [] }

set_script_sig-fault_example : set_script_sig 3 (9 ∷ []) no_inputs ≡ fault
set_script_sig-fault_example = set_script_sig-fault 3 (9 ∷ []) no_inputs (omega arith) refl

-- A hash that depends on nothing.
abbrev one_hash : Bytes → Bytes
one_hash bytes = hash_of 3

abbrev block : CoinBlock
block = record {
  block_header = record header { merkle_root = reverse (hash_of 3) };
  txs = tx ∷ tx ∷ [];
}

block-IsValid : Block.RoundTrip.IsValid block
unfolding Block.get_size Transaction.get_size TxIn.get_size TxOut.get_size VarInt.get_size
block-IsValid = record {
  header_valid = record {
    version_range = omega arith;
    prev_size = refl;
    root_size = refl;
    timestamp_range = omega arith;
    bits_range = omega arith;
    nonce_range = omega arith;
  };
  txs_valid = (tx-IsValid, (tx-IsValid, tt));
  size_range = omega arith;
}

block_round_trip_example :
    Block.set_serialized one_hash
      (record block { txs = [] })
      (Block.get_serialized block ++ (5 ∷ []))
    ≡ ok block
unfolding Block.is_valid_merkle_root Block.get_size Transaction.get_size TxIn.get_size
    TxOut.get_size VarInt.get_size
block_round_trip_example =
    block_round_trip one_hash block (record block { txs = [] }) (5 ∷ []) block-IsValid (omega arith)

headers_round_trip_example :
    Headers.set_serialized
      (Headers.get_serialized (record { headers = header ∷ header ∷ [] }) ++ (5 ∷ []))
    ≡ ok (record { headers = header ∷ header ∷ [] })
unfolding Headers.get_size VarInt.get_size
headers_round_trip_example =
    headers_round_trip (record { headers = header ∷ header ∷ [] }) (5 ∷ [])
      (header-IsValid, (header-IsValid, tt)) (omega arith)
