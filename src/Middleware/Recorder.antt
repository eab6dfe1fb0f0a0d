-- ===== src/Middleware/Recorder.antt =====
-- The response recorder (pkg/middleware/middleware.go), between a handler and its writer.
use goshield_bootcamp.Middleware.Http.{IsFinal, Event, header, body, Http, IsHttp}
use goshield_bootcamp.Base.{
  All, ℕ, Bool, true, false, ◌≡◌, refl, List, [], ◌∷◌, ◌++◌, arith, if◌then◌else◌,
}

pub record ResponseRecorder : Type 0 where
  pub status_code : ℕ
  pub written : Bool

-- `&responseRecorder{ResponseWriter: w, statusCode: http.StatusOK}`
abbrev pub new_recorder : ResponseRecorder
new_recorder = record { status_code = 200; written = false }

-- `WriteHeader` and `Write`, each with the calls that it passes on to the writer.
unfoldable pub receive_event : Event → ResponseRecorder → ResponseRecorder × List Event
receive_event (header code) rec =
    if rec.written
    then (rec, [])
    else (record { status_code = code; written = true }, header code ∷ [])
receive_event (body b) rec =
    (if rec.written then rec else record { status_code = 200; written = true }, body b ∷ [])

-- The calls of a handler in turn.
unfoldable pub record_all : List Event → ResponseRecorder → ResponseRecorder × List Event
unfolding receive_event
record_all [] rec = (rec, [])
record_all (e ∷ es) rec =
    let (rec', passed) = receive_event e rec in
    let (final, rest) = record_all es rec' in (final, passed ++ rest)

-- A written recorder keeps its status.
pub record_all-written :
    (es : List Event) (code : ℕ)
    → (record_all es (record { status_code = code; written = true })).0
      ≡ record { status_code = code; written = true }
unfolding record_all
record_all-written [] code = refl
record_all-written (header c ∷ es) code = record_all-written es code
record_all-written (body b ∷ es) code = record_all-written es code

-- The status that a recorder holds after a handler whose headers are final is the one that a client
-- sees, both of the calls that the handler made and of those that the recorder passed on.
pub record_all-client_status :
    (http : Http)
    → IsHttp http
    → (es : List Event) → All IsFinal es
    → ((record_all es new_recorder).0.status_code ≡ http.client_status es)
      × (http.client_status (record_all es new_recorder).1 ≡ http.client_status es)
unfolding record_all
record_all-client_status http h [] f = ground (arith, h.silent)
record_all-client_status http h (header code ∷ es) (f, f') = ground (
  arith,
  record_all-written es code,
  h.by_header code es f,
  h.by_header code (record_all es (record { status_code = code; written = true })).1 f,
)
record_all-client_status http h (body b ∷ es) f = ground (
  arith,
  record_all-written es 200,
  h.by_body b es,
  h.by_body b (record_all es (record { status_code = 200; written = true })).1,
)

-- A handler that calls its writer with a final header or a body has fixed the status, whatever is
-- written after it.
pub client_status-append :
    (http : Http)
    → IsHttp http
    → (e : Event) (es rest : List Event) → IsFinal e
    → http.client_status ((record_all (e ∷ es) new_recorder).1 ++ rest)
      ≡ http.client_status (e ∷ es)
unfolding record_all
client_status-append http h (header code) es rest f = ground (
  arith,
  h.by_header code es f,
  h.by_header code ((record_all es (record { status_code = code; written = true })).1 ++ rest) f,
)
client_status-append http h (body b) es rest f = ground (
  arith,
  h.by_body b es,
  h.by_body b ((record_all es (record { status_code = 200; written = true })).1 ++ rest),
)
