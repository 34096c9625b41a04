-- ===== src/Base/Errors.antt =====
-- Errors as values. Go's `error` result is a `Result Unit`: nil is `ok tt`.
use Prim.Native.Nat.{ℕ}
use mathlib.Core.Path.{◌≡◌, refl}
use mathlib.Core.Logic.{◌⊎◌, inl, inr}
use mathlib.Core.Bool.{Bool, true, false}
use distributed_p2p_ledger.Base.ByteStrings.{Bytes}

-- One constructor for each error that the code makes or passes on.
pub data Error : Type 0 where
  -- internal/models
  invalid_id invalid_data invalid_timestamp : Error
  invalid_difficulty incompatible_block invalid_block_index invalid_block_timestamp : Error
  invalid_block_size invalid_block_hash no_proof_of_work : Error
  duplicate_in_block : Bytes → Error
  invalid_chain_length invalid_genesis : Error
  -- "block %d: %w"
  in_block : ℕ → Error → Error
  not_following_parent : ℕ → Error
  duplicate_in_chain : Bytes → Error
  -- internal/mempool: ErrDuplicate, ErrFull
  duplicate full : Error
  -- internal/storage: ErrNotBetter, ErrStaleBlock
  not_better stale_block timestamp_precedes_parent : Error
  already_confirmed : Bytes → Error
  chain_too_large io_failure : Error
  invalid_chain_file : Error
  -- "load chain: %w"
  load_chain : Error → Error
  trailing_data : Error
  -- internal/miner: ErrTipChanged, ctx.Err()
  tip_changed nonce_space_exhausted canceled : Error
  -- Gossip_Engine and internal/node
  read_peers too_many_peers bad_status response_too_large : Error
  invalid_peer_url : Bytes → Error
  help_requested invalid_flags positional_arguments invalid_bind invalid_port : Error
  not_an_integer invalid_mining_interval invalid_sync_interval invalid_address : Error
  -- "initialize chain: %w"
  initialize_chain : Error → Error
  unhealthy_status : ℕ → Error
  no_response port_in_use serve_failed server_closed shutdown_timed_out : Error
  invalid_json trailing_response : Error
  -- a run-time panic: an index out of range
  panic : Error

-- The error is the last result of a Go function: nil where there is a value.
pub data Result {ℓ} (A : Type ℓ) : Type ℓ where
  err : Error → Result A
  ok : A → Result A

-- `err == nil`
abbrev pub is_ok {ℓ} : {A : Type ℓ} → Result A → Bool
is_ok (err e) = false
is_ok (ok a) = true

-- `if err != nil { return err }`, with the value that there is otherwise, and without one.
infixl 5 ◌>>=◌ ◌>>◌
abbrev pub ◌>>=◌ {ℓ κ} : {A : Type ℓ} {B : Type κ} → Result A → (A → Result B) → Result B
err e >>= continue = err e
ok a >>= continue = continue a

abbrev pub ◌>>◌ {κ} : {B : Type κ} (first : Result (Unit {0})) → Result B → Result B
first >> rest = first >>= λ nothing. rest

-- `if test { return e }`
abbrev pub reject : Bool → Error → Result (Unit {0})
reject true e = err e
reject false e = ok tt

-- fmt.Errorf with %w
abbrev pub wrap {ℓ} : {A : Type ℓ} → (Error → Error) → Result A → Result A
wrap f (ok a) = ok a
wrap f (err e) = err (f e)

pub Result-cases {ℓ} :
    {A : Type ℓ} (r : Result A) → ((a : A) × (r ≡ ok a)) ⊎ ((e : Error) × (r ≡ err e))
Result-cases (ok a) = inl (a, refl)
Result-cases (err e) = inr (e, refl)

pub >>=-eq-ok {ℓ κ} :
    {A : Type ℓ} {B : Type κ} (first : Result A) (rest : A → Result B) {out : B}
    → (first >>= rest) ≡ ok out
    → (a : A) × (first ≡ ok a) × (rest a ≡ ok out)
>>=-eq-ok (err e) rest h = cc
>>=-eq-ok (ok a) rest h = (a, refl, h)

pub reject-ok : (b : Bool) (e : Error) → reject b e ≡ ok tt → b ≡ false
reject-ok true e h = cc
reject-ok false e h = refl

pub wrap-ok {ℓ} :
    {A : Type ℓ} (f : Error → Error) (r : Result A) {a : A} → wrap f r ≡ ok a → r ≡ ok a
wrap-ok f (ok a) h = h
wrap-ok f (err e) h = cc
