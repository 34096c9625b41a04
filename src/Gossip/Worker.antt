-- ===== src/Gossip/Worker.antt =====
-- The worker's attempts to send one job. What http.NewRequest and the HTTP client answer is an argument,
-- and so is whether the context ends during a wait.
use distributed_p2p_ledger.Base.{
  ℕ, zero, suc, ◌+◌, ◌-◌, ◌*◌, ◌^◌, ◌≤◌, ◌≡◌, refl, inl, inr, Bool, Bool-cases, true, false, not,
  ◌&&◌, ◌||◌, List, [], ◌∷◌, take, leb, ltb, ◌==◌, arith, if◌then◌else◌,
}

-- An attempt: no request can be made, no response comes, or one with a status code.
pub data Attempt : Type 0 where
  no_request : Attempt
  no_response : Attempt
  response : ℕ → Attempt

-- The sending is over: 2xx, or 4xx other than 429.
abbrev pub is_final : ℕ → Bool
is_final code = leb 200 code && ltb code 300 || leb 400 code && ltb code 500 && not (code == 429)

pub data End : Type 0 where
  finished : End
  canceled_in_wait : End

-- How many requests were sent, the waits between them in milliseconds, and how it ended.
pub record Delivery : Type 0 where
  pub sent : ℕ
  pub waits : List ℕ
  pub end : End

abbrev pub max_attempts : ℕ
max_attempts = 3

-- Does the loop break after this attempt?
abbrev pub breaks : Attempt → Bool
breaks no_request = true
breaks no_response = false
breaks (response code) = is_final code

abbrev pub requests : Attempt → ℕ
requests no_request = 0
requests no_response = 1
requests (response code) = 1

-- The loop from attempt number `attempt` on, of which `left` are left.
unfoldable pub send_from : (ℕ → Attempt) → (ℕ → Bool) → ℕ → ℕ → Delivery
send_from attempts stops zero attempt = record { sent = 0; waits = []; end = finished }
send_from attempts stops (suc left) attempt =
    let n = requests (attempts attempt) in
    elim (breaks (attempts attempt) || attempt == 2) [
      | true ↦ record { sent = n; waits = []; end = finished }
      | false ↦ elim (stops attempt) [
        | true ↦ record { sent = n; waits = []; end = canceled_in_wait }
        | false ↦
            let rest = send_from attempts stops left (suc attempt) in
            record { sent = n + rest.sent; waits = 2 ^ attempt * 100 ∷ rest.waits; end = rest.end }
      ]
    ]

unfoldable pub send_job : (ℕ → Attempt) → (ℕ → Bool) → Delivery
unfolding send_from
send_job attempts stops = send_from attempts stops max_attempts 0

-- The number of attempts until the first that breaks off, of three.
abbrev pub tries : (ℕ → Attempt) → ℕ
tries attempts = if breaks (attempts 0) then 1 else if breaks (attempts 1) then 2 else 3

requests-one : (a : Attempt) → breaks a ≡ false → requests a ≡ 1
requests-one no_request h = absurd (ground arith)
requests-one no_response h = refl
requests-one (response code) h = refl

requests-le : (a : Attempt) → requests a ≤ 1
requests-le no_request = omega arith
requests-le no_response = omega arith
requests-le (response code) = omega arith

module _ (attempts : ℕ → Attempt) (stops : ℕ → Bool) where
  -- A job is sent at most three times.
  pub send_job_bound : (send_job attempts stops).sent ≤ 3
  unfolding send_job send_from
  send_job_bound =
      ground (arith, requests-le (attempts 0), requests-le (attempts 1), requests-le (attempts 2))

  -- If the context does not end during a wait, the worker tries a job until an attempt gets 2xx,
  -- or 4xx other than 429, or no request can be made, and at most three times, with waits of 100
  -- and 200 milliseconds between the attempts; the requests sent are as many as the attempts, or
  -- one less.
  pub send_job_lem :
      stops 0 ≡ false
      → stops 1 ≡ false
      → ((send_job attempts stops).end ≡ finished)
        × ((send_job attempts stops).waits ≡ take (tries attempts - 1) (100 ∷ 200 ∷ []))
        × (tries attempts ≤ suc (send_job attempts stops).sent)
        × ((send_job attempts stops).sent ≤ tries attempts)
  unfolding send_job send_from
  send_job_lem go₀ go₁ = elim (Bool-cases (breaks (attempts 0))) [
    | inl b ↦ ground (arith, requests-le (attempts 0))
    | inr b ↦ elim (Bool-cases (breaks (attempts 1))) [
      | inl b' ↦ ground (arith, requests-one (attempts 0) b, requests-le (attempts 1))
      | inr b' ↦ ground (
        arith,
        requests-one (attempts 0) b,
        requests-one (attempts 1) b',
        requests-le (attempts 2),
      )
    ]
  ]
