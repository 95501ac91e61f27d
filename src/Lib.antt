-- ===== src/Lib.antt =====
-- Smaran (samurai): an authenticated store that answers queries on the past of its accounts. Each update
-- of an account archives the old balance as a leaf of a segment tree with a KZG commitment; the trees of a
-- layer have their roots and commitments as leaves of the layer above. A range query opens the nodes of
-- the trees that cover its versions. The key transparency servers keep keys of users in place of balances.
--
-- Prelude, Prelude/: lists, Boolean tests and maps that all modules use.
-- Bytes: big-endian numbers and copying into a slice, as encoding/binary and math/big document them.
-- Node: internal/tree/helpers.go and its twin internal/kt/tree/helpers.go, the numbering of tree nodes.
-- Balance: internal/tree/balance.go, the states of an account and their binary forms.
-- Query: internal/kt/proof/proof.go, whose planning functions internal/proof/proof.go repeats. Geometry has
--   the sizes of the trees, Nodes findCoveringNodes, Ranges findRangeCoveringCommitments, Interpolate
--   FindNodesToInterpolate, Dependencies addDepencencyCommitments, Queue its queue (helpers.go), Versions
--   the search of versions by blocks. The number of layers, tree.MaxLayer, is an argument: 4 in internal/tree, 1 in internal/kt/tree.
--   Complete puts the trees and the nodes of a query together.
-- Account: internal/kt/tree/types.go, AccountInfo with UpdateInMemory, AddLeafNode and UpdateLXTree. Curve
--   has the operations of gnark-crypto as parameters and the group laws as hypotheses; Sums, Climb,
--   Committed and Updates lead from the sum of a commitment to the invariant of an account; Stored has
--   Update, Save and CalculateFinalCommitment with the writes to the database as a list, and Bulk the loop
--   of UpdateBulk in internal/tree/types.go.
-- Rebuild: internal/kt/proof/rebuild.go, ProofSegmentTree with Update and UpdateLayerX.
-- Meta: internal/merkle/meta/meta.go, the metadata of the Merkle baseline over a database with laws.
-- Dataset: internal/dataset, the segment files from which the ingesters read blocks. Writer has writer.go, Reader
--   and Iterate reader.go with ensureSegment of helpers.go, over a file system and variable-length numbers
--   that are parameters with laws. Segment says what the files hold, Decode and Reading how it is read,
--   Cached, Order, Jump and Whole compare IterateRange with a loop over blocks, Accepted is about a disk without errors,
--   Restart about a new writer.
-- Keys: internal/verkle/keys/keys.go, the tree keys of accounts and the form of their balances in the tree.
-- Optiks: internal/kt/optiks.go. Trie has go-ethereum's trie and RLP as parameters; Key makeTrieKey, Prefix
--   computeCommonProofPrefix, Update the state with Put, applyUpdates and GetCommitment, Query Get.
-- Samurai: internal/kt/samurai.go. Apply has Put, applyUpdates and GetCommitment, Proofs has Get with
--   GetTreeMaps and GetProofRangeInMemory; Accounts and First have their theorems, and Orders is about the
--   orders in which the workers may run the updates.
-- Verkle: internal/verklekzg/tree, the 256-ary trie of the Verkle-KZG baseline. Verkle has the nodes (node.go),
--   Serialize their binary form (serialize.go), Trie has Get, Insert and Delete with the loading of stubs
--   (tree.go). The codec of the points is a parameter with laws. Sound says when the stubs of a trie can be
--   loaded, Chain is about splitLeaf, Updated about a change below a node, Refines about whole runs, and
--   Loaded about a trie of which no node has to be loaded.
--   Flush has BatchSerialize and Dirty the dirty paths (internal/verklekzg/ingest/dirty.go),
--   Store the versions of the nodes (internal/verklekzg/store/nodestore.go) over an ordered database with laws.
--   Commit has the incremental commitments, given the group laws and the subtraction of the field as parameters.
--   Ingest has internal/verklekzg/ingest/ingest.go: the entries of a block (Ingest), the loop over the dataset
--   (Loop); Entries and Balances read the balances back, Loaded is about a trie of which no node has to be
--   loaded, Blocks about a whole block, Resume about a restart.
-- The modules Runs hold concrete runs, and the modules Sample a small trie and a small group for them.
--
-- Integers: a Go int and a uint64 are natural numbers; counters that the code increments and the middle of
-- the binary search wrap at 2 ^ 64, where that is written. findCoveringNodes halves by way of float64, which
-- rounds from 2 ^ 53 on (Query.Nodes.to_float). A method that holds the mutex is one step. A panic is `none` or `panic`.
-- Fuel: covering_loop, search_loop, ancestors_loop, walk_loop, rebuild_loop and dependency_loop run on
-- fuel that is at least the number of rounds: the end of the range, the length of the interval, the index
-- of the node, the number of commitments times that of the layers. Get, Insert and Delete of the trie run on
-- the 31 levels below its root. iterate_loop and
-- visit_blocks run on the number of blocks that remain and a little more. The theorems show that the fuel
-- does not run out.
--
-- Not modelled: the polynomial arithmetic and pairings (internal/crypto), proof verification, the database
-- records (internal/tree/persistence.go, internal/storage), the loops of the other ingesters, the go-verkle baseline,
-- the rest of the Merkle and the Verkle-KZG baselines, gRPC, commands and benchmarks. The workers of the
-- Samurai server take turns, in any order of their updates: two that write one account at once, which
-- happens where two users have one address, are not modelled.
pub mod Prelude
pub mod Bytes
pub mod Node
pub mod Balance
pub mod Query
pub mod Account
pub mod Rebuild
pub mod Meta
pub mod Dataset
pub mod Keys
pub mod Optiks
pub mod Samurai
pub mod Verkle
