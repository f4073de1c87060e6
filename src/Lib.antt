-- ===== src/Lib.antt =====
-- CoinVault: the serialized structures, scripts, Merkle trees and block tree of its Bitcoin
-- libraries.
--
-- CoinVault is a wallet. Its libraries deps/CoinCore (structures of the network protocol, Merkle
-- trees, keys) and deps/CoinQ (scripts, block chain, peers) carry the logic that this library
-- models. Peers exchange serialized structures; transactions hold scripts; blocks and partial
-- Merkle trees hold the hashes of transactions.
--
-- Common: vectors of bytes (a list of numbers), the integers of deps/CoinCore/src/numericdata.h,
-- and the outcome of a call: a value, a thrown exception (err), undefined behaviour such as a read
-- past the end of a vector (fault), or a loop of the model without fuel (stuck, which the theorems
-- on loops exclude).
-- Wire: classes of deps/CoinCore/src/CoinNodeData.h and CoinNodeData.cpp. VarInt, OutPoint, TxIn,
-- TxOut, Transaction and BlockHeader (CoinBlockHeader) have one file each, with get_size,
-- get_serialized and set_serialized for getSize, getSerialized and setSerialized; Codec is the
-- interface that the structures share (CoinNodeStructure) with the laws that a sequence of them
-- needs, and Transaction is its client; Transaction/Scripts models clearScriptSigs, setScriptSig
-- and getTotalSent. Block models CoinBlock over the header, the transactions and Merkle.Tree, and
-- Headers HeadersMessage. Locator, with its children GetBlocks and GetHeaders, stands for
-- GetBlocksMessage and GetHeadersMessage.
-- Script: deps/CoinQ/src/CoinQ_script.h and CoinQ_script.cpp. PushData models opPushData and
-- getDataLength, Payee getScriptPubKeyPayee, Object class Script: make for its constructor from a
-- policy, txinscript and txoutscript for the scripts that it writes, Parse for its constructor
-- from an input script, Signatures for sigsneeded, missingsigs, addSig, clearSigs and mergesigs,
-- with its children Laws for how many signatures are present and Added for the slot that addSig
-- fills.
-- Merkle: deps/CoinCore/src/MerkleTree.h and MerkleTree.cpp. Tree models MerkleTree::getRoot;
-- Partial models PartialMerkleTree, build being the recursive setUncompressed and rebuild the
-- recursive setCompressed; its child Flags models getFlags and the unpacking of flags, and
-- Compressed the setCompressed that a message calls; Nodes, RoundTrip, Roots and Levels hold the
-- lemmas that join them with MerkleTree::getRoot.
-- Chain: deps/CoinQ/src/CoinQ_blocks.h and CoinQ_blocks.cpp, class CoinQBlockTreeMem. Headers
-- holds its state (maps as association lists, a pointer to a header as the header's key, what the
-- signals tell as a list), BestChain setBestChain and unsetBestChain, Insert setGenesisBlock,
-- insertHeader and clear, Delete deleteHeader, Lookup getLocatorHashes, and Work getTarget and
-- getWork of CoinBlockHeader. The headers are those of Wire.
-- Vault: deps/CoinDB/src/Schema.h, Schema.cpp and Vault.cpp. Inputs, Outputs and Blocks model the
-- classes TxIn, TxOut and BlockHeader of the schema with their conversions from and to the
-- structures of Wire; Tx models class Tx (set_coin_core, set_raw and set for the three forms of
-- set, update_status for updateStatus), with children for its round trip, updateStatus and its
-- life as a relation of steps; Keychain models class Keychain; Scripts models SigningScript and
-- the part of AccountBin that counts scripts; Pool models refillAccountBinPool_unwrapped,
-- issueAccountBinSigningScript_unwrapped and the switch of insertTx_unwrapped on the status of a
-- script, with children Rows, Gaps, Refill, Relabel and Issue for what each does to the rows of a
-- bin, and Reach for what holds through all of them; Insert models insertTx_unwrapped for a
-- transaction that is stored already, with children Scripts for the scripts of its inputs and Laws
-- for the whole, Arrivals for a new one, with children Spending for what the inputs change, Links
-- for what the rest leaves alone, Outputs for the outputs of a new transaction, Connected for the
-- store that it is added to and Insertion for the whole; DeleteTx models deleteTx_unwrapped, with
-- children Counts for the outputs that an input spends, Steps for each of its steps and Chains for
-- the recursion; Entry joins them to insertTx and deleteTx, with children Stored for what another
-- copy of a stored transaction leaves alone and Reach for every sequence of such calls; CreateTx
-- models createTx_unwrapped; Ledger models insertMerkleBlock_unwrapped,
-- deleteMerkleBlock_unwrapped and updateConfirmations_unwrapped, with children Links for the chain
-- of the stored blocks, Confirmations for the transactions that they confirm, Updates for later
-- confirmations and Reach for what holds through all that arrives. The input scripts are read by
-- the parser of Script. A table of the database is a list of rows; notifications and the writing
-- of rows are left out, and a change of an object that a transaction of the database undoes is not
-- seen, since an exception gives no state.
-- Bloom: class BloomFilter of deps/CoinCore/src/BloomFilter.h and BloomFilter.cpp, its MurmurHash3
-- included; Membership is about what has been inserted.
-- Base58: deps/CoinCore/src/Base58Check.h, with the conversions of deps/CoinCore/src/BigInt.h that
-- it calls. Numbers is the interface of OpenSSL's big numbers, Alphabet holds the alphabets of
-- deps/CoinCore/src/encodings.h, Digits is about numbers in base 58, RoundTrip about encoding and
-- decoding, Short about strings of few characters.
-- Tests: the theorems on concrete data.
--
-- Machine integers wrap where the source computes in them: u32 for uint and uint32_t, u64 for
-- uint64_t. The lists of a class are lists, and a call that changes an object returns the changed
-- record.
-- Fuel: the loop over an input script has one unit more than the script has bytes, and each turn
-- moves on by a byte at least; the loop over a redeem script has as many units as it has bytes;
-- the loop of getLocatorHashes has one unit more than the best height; the other walks over a
-- block tree have a bound that the caller chooses, since one of them need not end, and the theorem
-- on insertHeader holds for every bound with which it returns; the levels of a Merkle tree are no
-- more than its hashes; a count of leaves has at most 32 binary digits; a number has fewer digits
-- in base 58 than its value and one; the recursion of deleteTx_unwrapped goes to a later
-- transaction each time, so the number of keys given out bounds it.
-- Parameters: the hash functions sha256_2 and ripemd160 after sha256, which come from OpenSSL, the
-- hash of a header and the number of its proof of work, what uninitialised members hold, the big
-- numbers of OpenSSL, and the floating-point products of a bloom filter; for the vault also class
-- HDKeychain with the keys that it derives, the unlocking of chain codes, the lookup of a signing
-- script with the switch on its status, and the shuffle of outputs. Of the hash functions nothing
-- is assumed but, for Base58Check, that a hash has 32 bytes; the theorem on payments assumes that
-- the shuffle keeps the sum of the outputs, and those on the pool that the keychains derive enough
-- keys for the indices up to a limit below 2^32 and that unlocking succeeds.
--
-- Not modelled: printing and JSON, the other messages of the protocol, the lookups of headers by
-- height and time, hierarchical keys, the accounts of the vault, its database, networking, the
-- graphical wallet, and the copies of other projects under deps.
pub mod Common
pub mod Wire
pub mod Script
pub mod Merkle
pub mod Tests
pub mod Chain
pub mod Vault
pub mod Bloom
pub mod Base58
