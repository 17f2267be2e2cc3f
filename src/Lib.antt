-- ===== src/Lib.antt =====
-- A verification library for energiminer, a miner of the Energi cryptocurrency.
--
-- The program connects to a mining pool, gets work from it, lets miners search for nonces, and
-- sends the solutions back. `PoolManager` owns the list of pools and decides which of them the
-- client connects to; `StratumClient` speaks the pool's protocol and calls the manager back when
-- it is connected, has work, or has the answer to a solution. `MinePlant` hands the work to
-- the miners, each of which is a `Worker` with a thread. Targets and difficulties are 256-bit numbers
-- (`arith_uint256`).
--
-- Which file models what:
--   ArithUint, ArithUint/*  primitives/arith_uint256.h and .cpp. A number is the list of its 32-bit
--     words, lowest first; `value` is the number it stands for. operator+= is `add`, operator*= is
--     `multiply` and, of a uint32_t, `scale`; operator/= is `divide`; CompareTo is `compare_to`.
--     A 64-bit intermediate keeps its wrap-around.
--   PoolUri, PoolUri/*  protocol/PoolURI.h and .cpp: the endpoint's record, its scheme and its
--     setters; `new_uri` is the constructor and `url_decode` is `urlDecode`.
--   PoolManager, PoolManager/*  protocol/PoolManager.h and .cpp. One turn of the loop of `trun` is
--     `round`; what the client and the farm answer is a `View`, what they are told is a list of
--     `Action`s in the order of the calls. An index past the end of the list is `none`.
--   Work  primitives/work.h: the comparison and the reset of work.
--   Stratum, Stratum/*  protocol/stratum/StratumClient.h and .cpp and protocol/PoolClient.h. The
--     members are the record `Client`; a handler is an `Act`, which changes the record and leaves
--     `Effect`s. `handle` runs the handler of an `Event`, `run_events` a sequence of them at any
--     times and in any order, each as a whole. `process_response` is `processResponse`,
--     `timer_elapsed` is `workloop_timer_elapsed`, `submit_solution` is `submitSolution`.
--   Worker, Worker/*  primitives/worker.h and .cpp. Each atomic operation of the thread and of
--     `startWorking`, `stopWorking` and the destructor is a `Step`; the mutex `x_work` is the `call`.
--   Miner, Miner/*  nrgcore/miner.h and .cpp, and `MiningPause` of common/common.h.
--   MinePlant, MinePlant/*  nrgcore/mineplant.h and .cpp: the plant over its miners.
--   CpuMiner, CpuMiner/*  energiminer/CpuMiner.cpp: the inner loop of `trun`; `below n` says that
--     the hash of the work with the nonce `n` is below its target.
--   Getwork, Getwork/*  protocol/getwork/GetworkClient.h and .cpp: each call and each round of `trun`
--     is a step of a client, which gives the client's callbacks and calls as a list of events.
--   Merkle, Merkle/*  primitives/merkle.cpp: `merkle_computation` is `MerkleComputation`, with one
--     record for what a walk up the levels changes and one for the loop over the leaves.
--   Base64, Base64/*, Base32, Base32/*  common/utilstrencodings.cpp: EncodeBase64, DecodeBase64,
--     EncodeBase32 and DecodeBase32; a loop's `mode` is an argument that its clauses match.
--   Serialize, Serialize/*  common/serialize.h: the integers, WriteCompactSize and ReadCompactSize,
--     WriteVarInt and ReadVarInt; a stream is the list of the bytes that are left in it.
--   Hex, Hex/*  common/utilstrencodings.h and .cpp: HexStr, ParseHex and IsHex.
--   Common, Common/*  numbers, lists, texts and tests that the others share.
--
-- Loops are structural recursions on the words, the list of answers or the list of events, and need
-- no fuel: the search of a miner is a recursion on what its two conditions answer; the loop of
-- division counts down the shift, as the source does. Three have fuel: the loops of
-- `MerkleComputation` over the bits of its 32-bit counter, 32 rounds, which are enough up to 2 ^ 31
-- leaves; those of WriteVarInt and GetSizeOfVarInt, 10 rounds, which are the places of the array
-- `tmp` and enough for 64 bits; and the decimal digits of a port in Getwork, one more round than
-- the number, which has at most as many digits.
--
-- Not modelled: handlers of the Stratum client that overlap, sockets, TLS, name resolution and JSON
-- (libraries; their answers are arguments), logging, the GPU miners and hardware monitors (vendor
-- libraries), the proof-of-work hash and its files, transactions and the serialization of classes.
-- Threads show as the steps of a worker, as the answers in a `View`, and as what the conditions of
-- the search answer.
pub mod ArithUint
pub mod Base32
pub mod Base64
pub mod Common
pub mod CpuMiner
pub mod Getwork
pub mod Hex
pub mod Merkle
pub mod MinePlant
pub mod Miner
pub mod PoolManager
pub mod PoolUri
pub mod Serialize
pub mod Stratum
pub mod Work
pub mod Worker
