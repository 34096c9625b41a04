-- ===== src/Gossip/Http.antt =====
-- `get`: one request of a sync, from the peer's response to a value.
use distributed_p2p_ledger.Base.{
  ℕ, ◌+◌, ◌*◌, ◌^◌, ◌≤◌, ◌≡◌, ◌↔◌, refl, sym, ap, ◌∙◌, zero, suc, Bool, true, false, not, List, [],
  ◌∷◌, Bytes, length, take, ltb, leb, ◌&&◌, length-take, ◌==◌, arith, Option, none, some, Result,
  ok, err, ◌>>=◌, ◌>>◌, >>=-eq-ok, reject, bad_status, response_too_large, no_response, io_failure,
  invalid_json, trailing_response,
}
use distributed_p2p_ledger.Json.{JsonDecoder}
use distributed_p2p_ledger.Storage.ChainFile.{max_chain_bytes}

-- A response: its status, the bytes of its body, and whether reading them broke off.
pub record Response : Type 0 where
  pub status : ℕ
  pub body : Bytes
  pub broken : Bool

abbrev pub max_response_bytes : ℕ
max_response_bytes = max_chain_bytes

-- 5 << 20, for a pool.
abbrev pub max_pool_bytes : ℕ
max_pool_bytes = 5 * 2 ^ 20

-- io.ReadAll of a limit and one byte more, which sees no failure behind that.
unfoldable pub read_limited : ℕ → Response → Result Bytes
read_limited limit r = do
  reject (r.broken && leb (length r.body) limit) io_failure
  let raw = take (limit + 1) r.body
  reject (ltb limit (length raw)) response_too_large
  ok raw

unfoldable pub decode_response : {A : Type 0} → JsonDecoder A → Bytes → Result A
decode_response json raw = elim (json.first raw) [
  | none ↦ err invalid_json
  | some value ↦ elim (json.at_end raw) [ true ↦ ok value | false ↦ err trailing_response ]
]

-- Without a response, no request could be made or it failed.
unfoldable pub get : {A : Type 0} → JsonDecoder A → ℕ → Option Response → Result A
get json limit none = err no_response
get json limit (some r) = do
  reject (not (r.status == 200)) (bad_status)
  raw ← read_limited limit r
  decode_response json raw

take_all : {A : Type 0} (n : ℕ) (xs : List A) → length xs ≤ n → take n xs ≡ xs
take_all zero [] h = refl
take_all zero (x ∷ xs) h = absurd (omega (arith, h))
take_all (suc n) [] h = refl
take_all {A = A} (suc n) (x ∷ xs) h = ap (λ (l : List A). x ∷ l) (take_all n xs (omega (arith, h)))

module _ {A : Type 0} (json : JsonDecoder A) (limit : ℕ) where
  read_limited_iff :
      (r : Response) (raw : Bytes)
      → (read_limited limit r ≡ ok raw)
        ↔ ((r.broken ≡ false) × (length r.body ≤ limit) × (r.body ≡ raw))
  unfolding read_limited
  read_limited_iff r raw = (
    λ h.
        let short : length r.body ≤ limit = ground (arith, length-take (limit + 1) r.body) in
        (
          ground arith,
          short,
          sym (take_all (limit + 1) r.body (omega (arith, short))) ∙ ground arith,
        ),
    λ h.
        let (whole, short, same) = h in
        rw (take_all (limit + 1) r.body (omega (arith, short))) (ground arith),
  )

  decode_response_iff :
      (raw : Bytes) (value : A)
      → (decode_response json raw ≡ ok value)
        ↔ ((json.first raw ≡ some value) × (json.at_end raw ≡ true))
  unfolding decode_response
  decode_response_iff raw value = (λ h. ground arith, λ h. ground arith)

  get-decodes :
      (r : Response) (value : A)
      → r.status ≡ 200
      → r.broken ≡ false
      → length r.body ≤ limit
      → json.first r.body ≡ some value
      → json.at_end r.body ≡ true
      → get json limit (some r) ≡ ok value
  unfolding get
  get-decodes r value code whole short first end =
      rw
        (
          (read_limited_iff r r.body).1 (whole, short, refl),
          (decode_response_iff r.body value).1 (first, end),
          code,
        )
        refl

  -- `get` returns a value exactly if there is a response, its status is 200, reading its body did
  -- not break off, the body is within the limit and begins with the JSON of that value, and
  -- nothing follows it.
  pub get-ok_iff :
      (answer : Option Response) (value : A)
      → (get json limit answer ≡ ok value) ↔ (
          (r : Response) × (answer ≡ some r)
          × (r.status ≡ 200)
          × (r.broken ≡ false)
          × (length r.body ≤ limit)
          × (json.first r.body ≡ some value)
          × (json.at_end r.body ≡ true))
  unfolding get
  get-ok_iff none value = (λ h. absurd (ground arith), λ h. absurd (ground arith))
  get-ok_iff (some r) value = (
    λ h.
        let (_, code, h₁) = >>=-eq-ok (reject (not (r.status == 200)) bad_status) _ h in
        let (raw, got, h₂) = >>=-eq-ok (read_limited limit r) _ h₁ in
        let (whole, short, same) = (read_limited_iff r raw).0 got in
        let (first, end) = (decode_response_iff raw value).0 h₂ in
        (
          r,
          refl,
          ground arith,
          whole,
          short,
          ap json.first same ∙ first,
          ap json.at_end same ∙ end,
        ),
    λ h.
        let (q, there, code, whole, short, first, end) = h in
        let same : q ≡ r = cc in
        get-decodes r value (ap (λ (x : Response). x.status) (sym same) ∙ code)
          (ap (λ (x : Response). x.broken) (sym same) ∙ whole) (rw (← same) short)
          (ap (λ (x : Response). json.first x.body) (sym same) ∙ first)
          (ap (λ (x : Response). json.at_end x.body) (sym same) ∙ end),
  )
