-- ===== src/Rebuild/Same.antt =====
-- The rebuilt trees and those of UpdateLXTree.
use smaran.Prelude.{if◌then◌else◌, ltb, ℕ}
use smaran.Account.{AccountInfo, put_commit_hash}
use smaran.Account.Curve.{Crypto}

module _ (c : Crypto) where
  -- The account once the commitment hash of the layer below is stored.
  abbrev ready : ℕ → ℕ → ℕ → AccountInfo c → AccountInfo c
  ready idx lower layer a = if ltb 1 layer then put_commit_hash c idx lower layer a else a
