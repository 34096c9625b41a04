-- ===== src/Models/Block/Hash.antt =====
-- The form of a block's hash, and the fixture of internal/testdata/protocol-v1.json.
use distributed_p2p_ledger.Base.{◌≡◌, refl, [], ◌∷◌, Bytes, codes, length, arith, pos}
use distributed_p2p_ledger.Sha.{sum256, encode_to_string, length-sum256, length-encode_to_string}
use distributed_p2p_ledger.Json.{encode_int, encode_nat, encode_string, encode_slice}
use distributed_p2p_ledger.Models.Block.{Block, calculate_hash, encode_header, create_genesis_block}

pub length-calculate_hash : (b : Block) → length (calculate_hash b) ≡ 64
unfolding calculate_hash
length-calculate_hash b =
    omega
      (arith, length-encode_to_string (sum256 (encode_header b)), length-sum256 (encode_header b))

-- `Hash` is not a field of the header.
pub calculate_hash-set_hash :
    (b : Block) (h : Bytes) → calculate_hash (record b { hash = h }) ≡ calculate_hash b
unfolding calculate_hash encode_header
calculate_hash-set_hash b h = refl

genesis_fixture :
    (create_genesis_block (pos 2 ∷ [])).hash
    ≡ codes "5468d8e8677378cb867c1216274e3c3c245226365298b1129f30d8ecd149c82f"
unfolding create_genesis_block calculate_hash encode_header encode_int encode_nat encode_string
    encode_slice sum256 encode_to_string
genesis_fixture = refl
