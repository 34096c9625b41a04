-- ===== src/Api/Sizes.antt =====
-- The size of a relayed transaction, and what `decode` takes.
use distributed_p2p_ledger.Base.{
  ◌+◌, ◌*◌, ◌^◌, ◌≤◌, ◌≡◌, length, length-append, arith, ok, pos, ◌<ℤ◌, ◌++◌, codes,
}
use distributed_p2p_ledger.Json.{encode_string, encode_int}
use distributed_p2p_ledger.Json.Bounds.{length-encode_string, length-encode_int}
use distributed_p2p_ledger.Models.Transaction.{
  Transaction, encode_transaction, validate_transaction, validate_transaction_iff, IsText,
}
use distributed_p2p_ledger.Api.{max_request_bytes}

length-encode_transaction :
    (tx : Transaction)
    → length (encode_transaction tx)
      ≡ 28
        + length (encode_string tx.id)
        + length (encode_string tx.data_text)
        + length (encode_int tx.timestamp)
unfolding encode_transaction
length-encode_transaction tx =
    let named = encode_string tx.id ++ codes ",\"data\":" in
    let texts = named ++ encode_string tx.data_text in
    let stamped = texts ++ codes ",\"timestamp\":" in
    omega (
      arith,
      length-append (encode_string tx.id) (codes ",\"data\":"),
      length-append named (encode_string tx.data_text),
      length-append texts (codes ",\"timestamp\":"),
      length-append stamped (encode_int tx.timestamp),
      length-append (stamped ++ encode_int tx.timestamp) (codes "}"),
    )

-- The JSON of a transaction that `ValidateTransaction` accepts, with an int64 as its timestamp,
-- is so short that 41 of them fit into the limit of a request's body.
pub validate_transaction-fits :
    (tx : Transaction)
    → validate_transaction tx ≡ ok tt
    → tx.timestamp <ℤ pos (2 ^ 63)
    → 41 * length (encode_transaction tx) ≤ max_request_bytes
validate_transaction-fits tx h int64 =
    let v = (validate_transaction_iff tx).0 h in
    omega (
      arith,
      length-encode_transaction tx,
      length-encode_string tx.id,
      length-encode_string tx.data_text,
      length-encode_int tx.timestamp v.dated int64,
      IsText.short v.id_text,
      IsText.short v.data_text,
    )
