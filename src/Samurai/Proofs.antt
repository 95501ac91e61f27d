-- ===== src/Samurai/Proofs.antt =====
-- Get, getResult, GetTreeMaps and GetProofRangeInMemory.
use smaran.Prelude.{
  ℕ, zero, suc, ◌+◌, ◌-◌, ◌/◌, Bool, true, false, ◌&&◌, ◌||◌, not, Option, some, none, map,
}
use smaran.Prelude.{List, [], ◌∷◌, length, leb, ◌==◌, if◌then◌else◌, value_or}
use mathlib.Core.Option
use smaran.Bytes.{be_bytes}
use smaran.Balance.{HistoricalBalance, marshal_historical}
use smaran.Account.{AccountInfo, BatchTree}
use smaran.Query.Geometry.{batch_size}
use smaran.Query.Ranges.{BlockRange, RangeCommitment}
use smaran.Query.Interpolate.{find_nodes_to_interpolate}
use smaran.Query.Dependencies.{find_commitments_covering_range}
use smaran.Optiks.Key.{make_samurai_trie_key}
use smaran.Optiks.Query.{Outcome, answer, error, panic}
use smaran.Samurai.{Services, SamuraiKtServer}
use smaran.Samurai.Apply.{flush}

-- lxRequiredBatchIdxs[layer]
unfoldable pub required_idxs : ℕ → List RangeCommitment → List ℕ
required_idxs layer [] = []
required_idxs layer (r ∷ rs) =
    let rest = required_idxs layer rs in if r.layer == layer then r.idx ∷ rest else rest

unfoldable pub contains : List ℕ → ℕ → Bool
contains [] i = false
contains (j ∷ js) i = j == i || contains js i

unfoldable pub in_versions : ℕ → ℕ → List HistoricalBalance → List HistoricalBalance
in_versions first last [] = []
in_versions first last (hb ∷ hbs) =
    let rest = in_versions first last hbs in
    if leb first hb.current.version && leb hb.current.version last then hb ∷ rest else rest

-- A map with keys "layer:idx".
abbrev pub TreeMap : Type 0
TreeMap = ℕ → ℕ → Option BatchTree

abbrev pub insert_tree : ℕ → ℕ → BatchTree → TreeMap → TreeMap
insert_tree layer idx t m l i = if layer == l && idx == i then some t else m l i

-- The loop over the layers for one balance; `is_final` is `i == numHistorical-1`.
unfoldable pub note_layers : ℕ → ℕ → (ℕ → List ℕ) → (ℕ → BatchTree) → Bool → ℕ → TreeMap → TreeMap
unfolding contains
note_layers zero layer required trees is_final version m = m
note_layers (suc rounds) layer required trees is_final version m =
    let size = batch_size layer in
    let is_last = is_final || not ((version + 1) / size == version / size) in
    note_layers rounds (layer + 1) required trees is_final version (
      if is_last && contains (required layer) (version / size)
      then insert_tree layer (version / size) (trees (layer - 1)) m
      else m)

unfoldable pub note_trees :
    ℕ → (ℕ → List ℕ) → (ℕ → BatchTree) → List HistoricalBalance → TreeMap → TreeMap
unfolding note_layers
note_trees max_layer required trees [] m = m
note_trees max_layer required trees (hb ∷ hbs) m =
    note_trees max_layer required trees hbs
      (note_layers max_layer 1 required trees (length hbs == 0) hb.current.version m)

module _ (sv : Services) where
  unfoldable pub get_tree_maps :
      ℕ → AccountInfo sv.crypto → (ℕ → List ℕ) → ℕ → ℕ → TreeMap × List HistoricalBalance
  unfolding note_trees in_versions
  get_tree_maps max_layer ai required first last = (
    note_trees max_layer required ai.current_lx_batch_tree ai.historical_balances (λ l i. none),
    in_versions first last ai.historical_balances,
  )

  pub record RangeProof : Type 0 where
    pub idx : ℕ
    pub layer : ℕ
    pub commitment : sv.crypto.Point
    pub proof : sv.crypto.Point
    pub block_range : Option BlockRange
    pub dependent_commitments : List ℕ

  -- One round of the loop over the commitments; `none` is a panic, also that of a missing tree.
  unfoldable pub range_proof : AccountInfo sv.crypto → TreeMap → RangeCommitment → Option RangeProof
  range_proof ai trees r = Option.bind (find_nodes_to_interpolate r true) (λ nodes.
      Option.map
        (λ t. record {
          idx = r.idx;
          layer = r.layer;
          commitment = ai.current_lx_batch_commitment (r.layer - 1);
          proof = sv.open_nodes t nodes;
          block_range = r.block_range;
          dependent_commitments = r.dependent_commitments;
        })
        (trees r.layer r.idx))

  unfoldable pub range_proofs :
      AccountInfo sv.crypto → TreeMap → List RangeCommitment → Option (List RangeProof)
  unfolding range_proof
  range_proofs ai trees [] = some []
  range_proofs ai trees (r ∷ rs) =
      let rest = range_proofs ai trees rs in
      Option.bind (range_proof ai trees r) (λ p. Option.map (◌∷◌ p) rest)

  -- The account that was looked up, and whether it is there.
  unfoldable pub account_proofs :
      ℕ → ℕ → ℕ → Option (AccountInfo sv.crypto) → Option (List RangeProof × List HistoricalBalance)
  unfolding get_tree_maps range_proofs required_idxs
  account_proofs max_layer first last none = some ([], [])
  account_proofs max_layer first last (some ai) =
      Option.bind (find_commitments_covering_range max_layer first last) (λ required.
        let (trees, hbs) =
          get_tree_maps max_layer ai (λ layer. required_idxs layer required) first last in
        Option.map (λ proofs. (proofs, hbs)) (range_proofs ai trees required))

  unfoldable pub get_proof_range_in_memory :
      ℕ → SamuraiKtServer sv → List ℕ → ℕ → ℕ → Option (List RangeProof × List HistoricalBalance)
  unfolding account_proofs
  get_proof_range_in_memory max_layer s account first last =
      account_proofs max_layer first last (s.samurai_accounts account)

  -- The proofs keep their points, which the code puts in as bytes.
  pub record SamuraiQueryResult : Type 0 where
    pub value : Option (List ℕ)
    pub current_version : ℕ
    pub mpt_proof : List (List ℕ)
    pub commitment_hash : List ℕ
    pub samurai_proofs : List RangeProof
    pub historical_balances : List (List ℕ)

  -- The end of the part for a user with versions, with what GetProofRangeInMemory returned.
  unfoldable pub with_proofs :
      Option (List ℕ)
      → ℕ
      → List (List ℕ)
      → AccountInfo sv.crypto
      → Option (List RangeProof × List HistoricalBalance)
      → Outcome SamuraiQueryResult
  with_proofs value n mpt_proof ai none = panic
  with_proofs value n mpt_proof ai (some (proofs, hbs)) = answer (record {
    value = value;
    current_version = n;
    mpt_proof = mpt_proof;
    commitment_hash = be_bytes 32 (sv.crypto.commitment_to_hash (ai.current_lx_batch_commitment 0));
    samurai_proofs = proofs;
    historical_balances = map marshal_historical hbs;
  })

  -- With the version, the trie proof and the account that getResult looked up.
  unfoldable pub user_result :
      SamuraiKtServer sv
      → List ℕ
      → ℕ
      → Option (List (List ℕ))
      → Option (AccountInfo sv.crypto)
      → Outcome SamuraiQueryResult
  unfolding get_proof_range_in_memory with_proofs
  user_result s user n none found = error
  user_result s user zero (some mpt_proof) found = answer (record {
    value = s.current_key user;
    current_version = 0;
    mpt_proof = mpt_proof;
    commitment_hash = [];
    samurai_proofs = [];
    historical_balances = [];
  })
  user_result s user (suc k) (some mpt_proof) none = error
  user_result s user (suc k) (some mpt_proof) (some ai) =
      with_proofs (s.current_key user) (suc k) mpt_proof ai
        (get_proof_range_in_memory 1 s (sv.bytes_to_address user) 0 (suc k - 1))

  unfoldable pub get_result : SamuraiKtServer sv → List ℕ → Outcome SamuraiQueryResult
  unfolding user_result make_samurai_trie_key
  get_result s user =
      user_result s user (value_or 0 (s.current_version user))
        (sv.lib.prove s.mpt (make_samurai_trie_key user))
        (s.samurai_accounts (sv.bytes_to_address user))

  unfoldable pub get :
      SamuraiKtServer sv → List ℕ → Outcome (SamuraiQueryResult × SamuraiKtServer sv)
  unfolding flush get_result
  get s user = elim (flush sv s) [
    | none ↦ panic
    | some t ↦ elim (get_result t user) [ answer r ↦ answer (r, t) | error ↦ error | panic ↦ panic ]
  ]
