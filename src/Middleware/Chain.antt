-- ===== src/Middleware/Chain.antt =====
-- Chains of middleware (pkg/middleware/middleware.go), with the loop of the chain of decorators.
use goshield_bootcamp.Middleware.Retry.{retry, client_status-retry}
use goshield_bootcamp.Middleware.Http.{IsFinal, IsHttp, Middleware, Http, Handler}
use goshield_bootcamp.Base.Go.{returned, Duration}
use goshield_bootcamp.Base.Int.{pos}
use goshield_bootcamp.Resilience.Chain.{chain, chain_order}
use goshield_bootcamp.Base.{All, ℕ, ◌≡◌, List, [], ◌∷◌}

module _ {ℓ κ} {R : Type ℓ} {S : Type κ} where
  -- `Chain`
  unfoldable pub chain_middleware : List (Middleware R S) → Middleware R S
  unfolding chain
  chain_middleware middlewares next = chain middlewares next

-- In a chain that begins with Retry, with any number of retries from 0 on, the client sees the
-- status that the rest of the chain serves it at the first attempt, where that returns and its
-- headers are final, whatever the further attempts answer.
pub client_status-retry_chain {ℓ κ} :
    {R : Type ℓ} {S : Type κ} (http : Http) (sleep : Duration → S → S)
    → IsHttp http
    → (max_retries : ℕ) (backoff : Duration) (rest : List (Middleware R S)) (next : Handler R S)
      (r : R) (s s' : S)
    → All IsFinal (chain_middleware rest next r s).events
    → (chain_middleware rest next r s).exit ≡ returned tt s'
    → http.client_status
        (chain_middleware (retry http sleep (pos max_retries) backoff ∷ rest) next r s).events
      ≡ http.client_status (chain_middleware rest next r s).events
unfolding chain_middleware
client_status-retry_chain http sleep h max backoff rest next r s s' f e =
    rw ((chain_order (retry http sleep (pos max) backoff) rest [] next).0)
      (client_status-retry http sleep h max backoff (chain rest next) r s s' f e)
