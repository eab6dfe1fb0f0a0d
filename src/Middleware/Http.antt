-- ===== src/Middleware/Http.antt =====
-- Handlers (pkg/middleware/middleware.go). A handler is given by what it does to the writer that it
-- is passed, call by call, and to the state of the program; it does not look at what the writer
-- answers. net/http is a parameter.
use Prim.Native.String.{String}
use goshield_bootcamp.Base.Go.{Exit}
use goshield_bootcamp.Base.{◌≤◌, ℕ, ◌≡◌, List, [], ◌∷◌}

-- A call of the writer: `WriteHeader(code)` or `Write(b)`.
pub data Event : Type 0 where
  header : ℕ → Event
  body : List ℕ → Event

pub record Served {ℓ} (S : Type ℓ) : Type ℓ where
  pub events : List Event
  pub exit : Exit S (Unit {0})

abbrev pub Handler {ℓ κ} : Type ℓ → Type κ → Type (ℓ ⊔ κ)
Handler R S = R → S → Served S

abbrev pub Middleware {ℓ κ} : Type ℓ → Type κ → Type (ℓ ⊔ κ)
Middleware R S = Handler R S → Handler R S

-- What net/http does: the status that a client sees of the calls of a writer, and the calls that
-- `http.Error(w, message, code)` makes.
pub record Http : Type 0 where
  pub client_status : List Event → ℕ
  pub error : String → ℕ → List Event

-- A header of the class 1xx is interim and fixes nothing; any other is final.
abbrev pub IsFinal : Event → Type 0
IsFinal (header code) = 200 ≤ code
IsFinal (body b) = Unit

-- As net/http documents: a final header that comes first fixes the status, a write that comes first
-- makes it 200, and so does a return without a call; `http.Error` begins with the header.
pub record IsHttp (http : Http) : Type 0 where
  pub silent : http.client_status [] ≡ 200
  pub by_header :
      (code : ℕ) (es : List Event) → 200 ≤ code → http.client_status (header code ∷ es) ≡ code
  pub by_body : (b : List ℕ) (es : List Event) → http.client_status (body b ∷ es) ≡ 200
  pub by_error :
      (message : String) (code : ℕ)
      → (es : List Event) × (http.error message code ≡ header code ∷ es)
