-- ===== src/Examples/Stores.antt =====
-- The theorems on the store, at the small network.
use distributed_p2p_ledger.Base.{
  ◌≤◌, ◌≡◌, refl, ◌⊎◌, arith, All, true, [], ◌∷◌, Bytes, length, has, ◌==ₛ◌, ==ₛ_refl, ap, ◌+◌, pos,
  Option, some, none, Result, ok, err, invalid_chain_file, if◌then◌else◌,
}
use distributed_p2p_ledger.Models.Chain.{encode_chain, better_chain}
use distributed_p2p_ledger.Storage.{Store, clone_chain, add_block, replace_chain}
use distributed_p2p_ledger.Storage.ChainFile.{Disk, save_unlocked, max_chain_bytes}
use distributed_p2p_ledger.Storage.Save.{AllSucceed, save_unlocked_atomic}
use distributed_p2p_ledger.Storage.Invariant.{IsLedgerChain, IsValidStore}
use distributed_p2p_ledger.Storage.Append.{add_block-IsValidStore}
use distributed_p2p_ledger.Storage.Replace.{Replaced, replace_chain-ok}
use distributed_p2p_ledger.Storage.Start.{Decoder, StartFaults, new_file_chain_storage}
use distributed_p2p_ledger.Storage.Restart.{start-IsValidStore, restart}
use distributed_p2p_ledger.Examples.{noon, genesis, mined, all_well, genesis_store}
use distributed_p2p_ledger.Examples.Runs.{
  no_rename, genesis_store-IsValidStore, genesis_store-IsSaved, replace_succeeds,
}

add_block-IsValidStore_example : IsValidStore noon (add_block noon all_well mined genesis_store).1
add_block-IsValidStore_example =
    add_block-IsValidStore noon all_well mined genesis_store (omega arith)
      genesis_store-IsValidStore

replace_chain-ok_example :
    IsLedgerChain noon (pos 1) (clone_chain (genesis ∷ mined ∷ []))
    × (better_chain (clone_chain (genesis ∷ mined ∷ [])) genesis_store.chain ≡ true)
    × AllSucceed all_well
    × (length (encode_chain (clone_chain (genesis ∷ mined ∷ []))) ≤ max_chain_bytes)
    × Replaced
        (clone_chain (genesis ∷ mined ∷ []))
        genesis_store
        (replace_chain noon all_well (genesis ∷ mined ∷ []) genesis_store).1
replace_chain-ok_example =
    replace_chain-ok noon all_well (genesis ∷ mined ∷ []) genesis_store replace_succeeds

save_unlocked_atomic_example :
    All
      (λ (f : Option Bytes). (f ≡ none) ⊎ (f ≡ some (encode_chain (genesis ∷ []))))
      (save_unlocked no_rename
        (genesis ∷ [])
        (record { file = none; temp = none; seen = [] })).1.seen
save_unlocked_atomic_example =
    save_unlocked_atomic no_rename (genesis ∷ []) (record { file = none; temp = none; seen = [] })

-- A decoder that reads the JSON of the genesis block's chain.
abbrev genesis_decoder : Decoder
genesis_decoder = record {
  decode = λ raw.
      if raw ==ₛ encode_chain (genesis ∷ []) then ok (genesis ∷ []) else err invalid_chain_file;
  at_end = λ raw. true;
}

abbrev starts_well : StartFaults
starts_well = record { stat = true; read = true; mkdir = true; save = all_well }

-- A start one hour later.
restart_example :
    (t : Store) × (new_file_chain_storage
        (noon + 3600)
        genesis_decoder
        (pos 1 ∷ [])
        starts_well
        genesis_store.disk
      ≡ (ok t, genesis_store.disk))
    × (t.chain ≡ genesis ∷ [])
    × (t.difficulty ≡ pos 1)
    × ((k : Bytes) → has t.tx_ids k ≡ has genesis_store.tx_ids k)
restart_example =
    restart noon (noon + 3600) genesis_decoder starts_well genesis_store (omega arith)
      genesis_store-IsValidStore genesis_store-IsSaved
      (record { decode = rw (==ₛ_refl (encode_chain (genesis ∷ []))) refl; at_end = refl }) refl
      refl

start-IsValidStore_example : IsValidStore (noon + 3600) restart_example.0
start-IsValidStore_example =
    start-IsValidStore (noon + 3600) genesis_decoder (pos 1 ∷ []) starts_well genesis_store.disk
      (ap (λ (r : Result Store × Disk). r.0) restart_example.1)
