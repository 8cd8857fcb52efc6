-- ===== src/Tests/Access.antt =====
-- Runs of the routes on the database in memory.
use package.text.Mathlib.Text.{◌==◌ as str_eq}
use gb_522_l7o.Prelude.{
  List, ℕ, zero, suc, Bool-cases, inl, inr, ◌≤◌, ◌≡◌, refl, subst, Bool, true, false, none, some,
  [], ◌∷◌, length, get_elem?, if◌then◌else◌, arith, ◌⊎◌,
}
use gb_522_l7o.Prelude.Int.{pos}
use Prim.Native.String.{String}
use mathlib.Core.Option.{some-injective}
use gb_522_l7o.Strings.{is_digit, trim_space, after_prefix, parse_uint, parse_digits, byte_length}
use gb_522_l7o.Errors.{external, ok, err}
use gb_522_l7o.Float.Fixed.{Fixed, fixed_float}
use gb_522_l7o.Database.{◌>>=◌, pure, on_error, now, yield_to_others, transaction}
use gb_522_l7o.Audit.{audit, create_audit, is_blank}
use gb_522_l7o.Auth.{find_by_id, token_claims, parse}
use gb_522_l7o.Cases.Repository as CaseRepository
use gb_522_l7o.Cases.Service.{load_case, close, close_case}
use gb_522_l7o.Middleware.RateLimiter.{new_rate_limiter}
use gb_522_l7o.Http.{
  Binding, Library, Program, Server, Context, Handler, answer_ok, reply, bind, id_param, actor,
}
use gb_522_l7o.Http.Middleware.{
  request_id, choose_request_id, access_log, bearer, authenticate, permit, cors, hex_encode,
}
use gb_522_l7o.Http.Handlers
use gb_522_l7o.Http.Router.{Endpoint, chain, register, serve}
use gb_522_l7o.Http.Router as Router
use gb_522_l7o.Http.Access.{IsAuthorized, identified, serve-IsAuthorized}
use gb_522_l7o.Http.Admitted.{IsHandled, serve-IsHandled}
use gb_522_l7o.Http.Admitted.Chain.{is_limited}
use gb_522_l7o.Http.Audited.{serve-HasAudit}
use gb_522_l7o.Http.Audited.Steps.{HasAudit, carries_data}
use gb_522_l7o.Http.Refused.{turns_away, may_enter, serve-refuses}
use gb_522_l7o.Http.Logged.{IsLogged, serve-IsLogged}
use gb_522_l7o.Http.Inputs.{
  IsIdText, SameForm, IsIdSource, choose_request_id-IsPresent, id_param-cases,
}
use gb_522_l7o.Cases.Rows.{RowsEvolve}
use gb_522_l7o.Http.Requests.{
  Request, serve_requests, serve_requests-RowsEvolve, serve_requests-closed,
}
use gb_522_l7o.Constants.{closed}
use gb_522_l7o.Tests.Store.{store, store-IsUserEnv, store-IsCaseEnv, store-IsAuditEnv}
use gb_522_l7o.Tests.Tokens.{crypto, crypto-IsJwt, service, staffed}
use gb_522_l7o.Tests.Workflow.{close_request, case_in}

abbrev unread : {A : Type 0} → Binding A
unread = record { decode = λ s. err (external "EOF"); validate = λ a. none }

-- Random bytes of a die that always shows the same.
abbrev bytes_of : ℕ → List ℕ
bytes_of zero = []
bytes_of (suc n) = 171 ∷ bytes_of n

abbrev pub library : Library Fixed
library = record {
  login = unread;
  create_route = unread;
  update_route = unread;
  set_baseline = unread;
  import_trace = unread;
  detect_events = unread;
  review_event = unread;
  create_case = unread;
  analyze_case = unread;
  confirm_case = unread;
  close_case = record { decode = λ s. ok close_request; validate = λ a. none };
  parse_time = λ s. none;
  random_bytes = λ size t. some (bytes_of size);
  format_timestamp = λ layout t. layout;
  written_size = λ a. pos 0;
  format_duration = λ t. "0s";
  decode_differences = λ j. ok [];
}

abbrev pub program : Program Fixed
program = record {
  env = store;
  library = library;
  crypto = crypto;
  auth = service;
  upper_rune = λ c. c;
  max_points = pos 20000;
  origins = "http://localhost:18522" ∷ [];
}

abbrev pub server : Server Fixed
server = record {
  world = staffed;
  access_lines = [];
  login_limiter = new_rate_limiter (pos 30) 60_000_000_000 100;
  import_limiter = new_rate_limiter (pos 40) 60_000_000_000 100;
  analyze_limiter = new_rate_limiter (pos 60) 60_000_000_000 100;
}

abbrev pub closing : Context
closing = record {
  method = "POST";
  id = "5";
  query = λ key. "";
  header = λ name. if str_eq name "Authorization" then "Bearer tok" else "";
  path = "/api/v1/cases/5/close";
  body = "{}";
  client_ip = "127.0.0.1";
  request_id = "";
  user_id = none;
  username = none;
  role = none;
}

closed_answer :
    (serve program (Router.case_audit_routes Router.close_case) closing server).0.status ≡ 200
unfolding serve register chain Router.register_case_audit_routes request_id choose_request_id
    access_log cors authenticate permit bearer trim_space after_prefix parse token_claims find_by_id
    ◌>>=◌ pure on_error yield_to_others Handlers.close_case id_param parse_uint parse_digits bind
    reply answer_ok actor close load_case close_case now transaction CaseRepository.get
    CaseRepository.transition create_audit audit is_blank hex_encode
closed_answer = refl

closed_data :
    carries_data (serve program (Router.case_audit_routes Router.close_case) closing server).0
    ≡ true
unfolding serve register chain Router.register_case_audit_routes request_id choose_request_id
    access_log cors authenticate permit bearer trim_space after_prefix parse token_claims find_by_id
    ◌>>=◌ pure on_error yield_to_others Handlers.close_case id_param parse_uint parse_digits bind
    reply answer_ok actor close load_case close_case now transaction CaseRepository.get
    CaseRepository.transition create_audit audit is_blank hex_encode
closed_data = refl

serve-HasAudit_example :
    HasAudit program "case.closed" closing server
      (serve program (Router.case_audit_routes Router.close_case) closing server).1
serve-HasAudit_example =
    serve-HasAudit program store-IsAuditEnv (Router.case_audit_routes Router.close_case)
      "case.closed" closing server refl closed_data

serve-IsLogged_example :
    let r = serve program (Router.case_audit_routes Router.close_case) closing server in
    IsLogged closing server r.0 r.1
serve-IsLogged_example =
    serve-IsLogged program (Router.case_audit_routes Router.close_case) closing server

serve-IsAuthorized_example :
    IsAuthorized program (Router.case_audit_routes Router.close_case) closing server
serve-IsAuthorized_example =
    serve-IsAuthorized program (Router.case_audit_routes Router.close_case) closing server refl refl
      crypto-IsJwt store-IsUserEnv (ground (arith, closed_answer))

not_let_in : may_enter program (Router.case_audit_routes Router.create_case) closing server ≡ false
unfolding bearer trim_space after_prefix parse token_claims find_by_id ◌>>=◌ pure on_error
    yield_to_others
not_let_in = refl

serve-refuses_example :
    (turns_away (serve program (Router.case_audit_routes Router.create_case) closing server).0
      ≡ true)
    × ((waited : Bool) × ((serve program
            (Router.case_audit_routes Router.create_case)
            closing
            server).1.world
          ≡ (if waited then store.others staffed else staffed)))
serve-refuses_example =
    serve-refuses program (Router.case_audit_routes Router.create_case) closing server refl refl
      not_let_in

let_in : may_enter program (Router.case_audit_routes Router.close_case) closing server ≡ true
unfolding bearer trim_space after_prefix parse token_claims find_by_id ◌>>=◌ pure on_error
    yield_to_others
let_in = refl

serve-IsHandled_example :
    IsHandled program
      (Router.case_audit_routes Router.close_case)
      (identified program closing server)
      server
      (serve program (Router.case_audit_routes Router.close_case) closing server).0
      (serve program (Router.case_audit_routes Router.close_case) closing server).1
    ⊎ ((is_limited (Router.case_audit_routes Router.close_case) ≡ true)
        × ((serve program (Router.case_audit_routes Router.close_case) closing server).0.status
            ≡ 429))
serve-IsHandled_example =
    serve-IsHandled program (Router.case_audit_routes Router.close_case) closing server refl refl
      let_in

abbrev get_case : ℕ → Handler Fixed
get_case id c = Handlers.list_routes program (record c { query = λ key. "" })

id_param-cases_example :
    ((n : ℕ) × IsIdText closing.id n
      × (id_param get_case closing server ≡ get_case n closing server))
    ⊎ (((n : ℕ) → ¬ IsIdText closing.id n)
        × ((id_param get_case closing server).0.status ≡ 400)
        × ((id_param get_case closing server).1 ≡ server))
id_param-cases_example = id_param-cases get_case closing server

length-bytes_of : (n : ℕ) → length (bytes_of n) ≡ n
length-bytes_of zero = refl
length-bytes_of (suc n) = omega (arith, length-bytes_of n)

SameForm-refl : (s : String) → SameForm s s
SameForm-refl String.[] = tt
SameForm-refl (String.◌∷◌ c s) = elim (Bool-cases (is_digit c)) [
  | inl one ↦ (rw one refl, SameForm-refl s)
  | inr other ↦ (rw other refl, SameForm-refl s)
]

library-IsIdSource : IsIdSource library
library-IsIdSource = record {
  bytes = λ size t raw h.
      let same : bytes_of size ≡ raw = some-injective _ _ h in
      subst (λ l. length l ≡ size) same (length-bytes_of size);
  stamp = λ fields t all. SameForm-refl _;
}

choose_request_id-IsPresent_example :
    (is_blank (choose_request_id program " " 5) ≡ false)
    × (byte_length (choose_request_id program " " 5) ≤ 80)
choose_request_id-IsPresent_example = choose_request_id-IsPresent program " " 5 library-IsIdSource

-- The case is closed, and then somebody tries to close it again.
abbrev twice : List (Request Fixed)
twice =
    record {
      program = program;
      endpoint = Router.case_audit_routes Router.close_case;
      context = closing;
    }
    ∷ record {
      program = program;
      endpoint = Router.case_audit_routes Router.close_case;
      context = closing;
    }
    ∷ []

serve_requests-RowsEvolve_example :
    RowsEvolve staffed.cases (serve_requests twice server).world.cases
serve_requests-RowsEvolve_example =
    serve_requests-RowsEvolve twice server (store-IsCaseEnv, (store-IsCaseEnv, tt))

abbrev closed_server : Server Fixed
closed_server = record server { world = record staffed { cases = case_in closed 5 ∷ [] } }

serve_requests-closed_example :
    get_elem? (serve_requests twice closed_server).world.cases 0 ≡ some (case_in closed 5)
serve_requests-closed_example =
    serve_requests-closed twice closed_server 0 (case_in closed 5)
      (store-IsCaseEnv, (store-IsCaseEnv, tt)) refl refl
