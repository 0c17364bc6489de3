-- ===== src/Telemetry/Failure.antt =====
-- platform/api/src/telemetry/telemetry.service.ts: the status of a response whose writes failed.
-- A failure is what the code reads of it: the name, the code and the SQLSTATE under it, which
-- are there only on an `Error`.
use lengentic.Base.{
  ℕ, Bool, true, false, ◌&&◌, ◌||◌, Option, none, some, List, [], ◌∷◌, any, leb, not, if◌then◌else◌,
  ◌==◌,
}
use lengentic.Base.Text.{Text, text, text_eq}

pub data Failure : Type 0 where
  not_an_error : Failure
  an_error : Text → Option Text → Option Text → Failure

pub data HttpStatus : Type 0 where
  service_unavailable internal_server_error : HttpStatus

abbrev known_dependency_unavailable_codes : List Text
known_dependency_unavailable_codes =
    text "ECONNREFUSED" ∷ text "P2021" ∷ text "P2022" ∷ text "P2024" ∷ text "P2028" ∷ []

abbrev retryable_raw_query_sqlstates : List Text
retryable_raw_query_sqlstates = text "57014" ∷ []

abbrev prisma_error_names : List Text
prisma_error_names =
    text "PrismaClientKnownRequestError"
    ∷ text "PrismaClientUnknownRequestError"
    ∷ text "PrismaClientInitializationError"
    ∷ text "PrismaClientRustPanicError"
    ∷ []

abbrev is_digit : ℕ → Bool
is_digit c = leb 48 c && leb c 57

-- `/^P10\d\d$/`.
abbrev is_p10 : Text → Bool
is_p10 (p ∷ a ∷ b ∷ c ∷ d ∷ []) =
    ((p == 80) && ((a == 49) && (b == 48))) && (is_digit c && is_digit d)
is_p10 _ = false

abbrev is_retryable_state : Option Text → Bool
is_retryable_state none = false
is_retryable_state (some state) = any (text_eq state) retryable_raw_query_sqlstates

abbrev is_unavailable_code : Option Text → Option Text → Bool
is_unavailable_code none state = false
is_unavailable_code (some code) state =
    if text_eq code (text "P2010")
    then is_retryable_state state
    else any (text_eq code) known_dependency_unavailable_codes || is_p10 code

unfoldable pub is_known_dependency_unavailable : Failure → Bool
is_known_dependency_unavailable not_an_error = false
is_known_dependency_unavailable (an_error name code state) =
    if not (any (text_eq name) prisma_error_names)
    then false
    else if not (text_eq name (text "PrismaClientKnownRequestError"))
    then true
    else is_unavailable_code code state

abbrev pub classify_persistence_failure : Failure → HttpStatus
unfolding is_known_dependency_unavailable
classify_persistence_failure failure =
    if is_known_dependency_unavailable failure then service_unavailable else internal_server_error
