-- ===== src/Models/Transaction.antt =====
-- internal/models/transactions.go
use distributed_p2p_ledger.Base.{
  ℕ, List, ◌≤◌, ◌≡◌, ◌≢◌, ◌↔◌, refl, Bool, true, false, not, ◌&&◌, ◌||◌, [], ◌∷◌, ◌++◌, Bytes,
  codes, length, ltb, ◌==ₛ◌, eq_of_==ₛ, ==ₛ_refl, ==ₛ_iff, arith, ℤ, pos, leb_ℤ, ◌<ℤ◌, ◌==ℤ◌,
  ==ℤ_iff, invalid_id, invalid_data, invalid_timestamp, Result, ok, ◌>>◌, reject,
}
use distributed_p2p_ledger.Text.{valid_string, trim_space}
use distributed_p2p_ledger.Json.{encode_string, encode_int}

abbrev pub max_transaction_id_bytes : ℕ
max_transaction_id_bytes = 128

abbrev pub max_transaction_data_bytes : ℕ
max_transaction_data_bytes = 4096

pub record Transaction : Type 0 where
  pub id : Bytes
  pub data_text : Bytes
  pub timestamp : ℤ

-- strings.TrimSpace(s) == "" || len(s) > limit || !utf8.ValidString(s)
unfoldable pub bad_text : Bytes → ℕ → Bool
bad_text s limit = (trim_space s ==ₛ []) || ltb limit (length s) || not (valid_string s)

unfoldable pub validate_transaction : Transaction → Result (Unit {0})
validate_transaction tx = do
  reject (bad_text tx.id max_transaction_id_bytes) invalid_id
  reject (bad_text tx.data_text max_transaction_data_bytes) invalid_data
  reject (leb_ℤ tx.timestamp (pos 0)) invalid_timestamp

-- What json.Marshal writes for a transaction.
unfoldable pub encode_transaction : Transaction → Bytes
encode_transaction tx =
    codes "{\"id\":"
    ++ encode_string tx.id
    ++ codes ",\"data\":"
    ++ encode_string tx.data_text
    ++ codes ",\"timestamp\":"
    ++ encode_int tx.timestamp
    ++ codes "}"

-- `==` on transactions, as reflect.DeepEqual compares them.
unfoldable pub same_transaction : Transaction → Transaction → Bool
same_transaction a b =
    (a.id ==ₛ b.id) && (a.data_text ==ₛ b.data_text) && (a.timestamp ==ℤ b.timestamp)

pub same_transaction_iff : (a b : Transaction) → (same_transaction a b ≡ true) ↔ (a ≡ b)
unfolding same_transaction
same_transaction_iff a b = (
  ground (
    arith,
    eq_of_==ₛ a.id b.id,
    eq_of_==ₛ a.data_text b.data_text,
    (==ℤ_iff a.timestamp b.timestamp).0,
  ),
  λ e. rw e (
      ground
        (arith, ==ₛ_refl b.id, ==ₛ_refl b.data_text, (==ℤ_iff b.timestamp b.timestamp).1 refl)),
)

-- A text that the ledger takes: it has more than white space, is valid UTF-8 and within its limit.
pub record IsText (s : Bytes) (limit : ℕ) : Type 0 where
  pub shown : trim_space s ≢ []
  pub short : length s ≤ limit
  pub valid : valid_string s ≡ true

pub record IsValidTransaction (tx : Transaction) : Type 0 where
  pub id_text : IsText tx.id max_transaction_id_bytes
  pub data_text : IsText tx.data_text max_transaction_data_bytes
  pub dated : pos 0 <ℤ tx.timestamp

bad_text_iff : (s : Bytes) (limit : ℕ) → (bad_text s limit ≡ false) ↔ IsText s limit
unfolding bad_text
bad_text_iff s limit = (
  λ h. record {
    shown = λ e. ground (arith, (==ₛ_iff (trim_space s) []).1 e);
    short = ground arith;
    valid = ground arith;
  },
  λ t. ground (
    arith,
    t.short,
    t.valid,
    λ (e : (trim_space s ==ₛ []) ≡ true). t.shown ((==ₛ_iff (trim_space s) []).0 e),
  ),
)

-- `ValidateTransaction` accepts exactly the transactions both of whose texts have more than white
-- space, are valid UTF-8 and within their limits, and whose timestamp is positive.
pub validate_transaction_iff :
    (tx : Transaction) → (validate_transaction tx ≡ ok tt) ↔ IsValidTransaction tx
unfolding validate_transaction
validate_transaction_iff tx = (
  λ h. record {
    id_text = (bad_text_iff tx.id max_transaction_id_bytes).0 (ground arith);
    data_text = (bad_text_iff tx.data_text max_transaction_data_bytes).0 (ground arith);
    dated = ground arith;
  },
  λ v. ground (
    arith,
    (bad_text_iff tx.id max_transaction_id_bytes).1 v.id_text,
    (bad_text_iff tx.data_text max_transaction_data_bytes).1 v.data_text,
    v.dated,
  ),
)

-- The IDs of transactions, in order.
abbrev pub tx_ids : List Transaction → List Bytes
tx_ids [] = []
tx_ids (tx ∷ txs) = tx.id ∷ tx_ids txs
