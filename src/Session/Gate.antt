-- ===== src/Session/Gate.antt =====
-- The checks of the coordinator's endpoint (`ServeHTTP` of dev-agent/exec_worker.go).
use provider_infrastructure.Prelude.{ℕ, ◌≡◌, inl, inr, true, Bool-cases, Option-cases, some, arith}
use provider_infrastructure.Text.{Text, codes, text_eq}
use provider_infrastructure.Text.Laws.{text_eq_iff}
use provider_infrastructure.Session.{ExecResult, WorkerRequest}
use provider_infrastructure.Session.Disk.{http, Result, err, Env}
use provider_infrastructure.Session.Coordinator.{Coordinator}
use provider_infrastructure.Session.Requests.{HttpRequest, perform, serve, validate_worker_identity}

-- A request passed every check of the endpoint.
pub record IsAdmitted (token : Text) (r : HttpRequest) (req : WorkerRequest) : Type 0 where
  pub path : r.path ≡ codes "/exec"
  pub method : r.method ≡ codes "POST"
  pub authorized : r.control_token ≡ token
  pub body : r.body ≡ some req
  pub single : r.single ≡ true
  pub identity : validate_worker_identity req ≡ true

pub data ServeOutcome (token : Text) (env : Env) (r : HttpRequest) (w : Coordinator)
    (out : Result ExecResult × Coordinator) : Type 0 where
  rejected : (status : ℕ) → out ≡ (err (http status), w) → ServeOutcome token env r w out
  performed :
      (req : WorkerRequest)
      → IsAdmitted token r req
      → out ≡ perform env req.action req w
      → ServeOutcome token env r w out

-- A request to the endpoint is rejected with a status and changes nothing, or has the path, method,
-- control token, single body and identity that are required and is performed.
pub serve-outcome :
    (token : Text) (env : Env) (r : HttpRequest) (w : Coordinator)
    → ServeOutcome token env r w (serve token env r w)
unfolding serve
serve-outcome token env r w = elim (Bool-cases (text_eq r.path (codes "/exec"))) [
  | inr other ↦ rejected 404 (ground arith)
  | inl path ↦ elim (Bool-cases (text_eq r.method (codes "POST"))) [
    | inr other ↦ rejected 405 (ground arith)
    | inl method ↦ elim (Bool-cases (text_eq r.control_token token)) [
      | inr other ↦ rejected 401 (ground arith)
      | inl authorized ↦ elim (Option-cases r.body) [
        | inl undecoded ↦ rejected 400 (ground arith)
        | inr (req, body) ↦ elim (Bool-cases r.single) [
          | inr more ↦ rejected 400 (ground arith)
          | inl single ↦ elim (Bool-cases (validate_worker_identity req)) [
            | inr bad ↦ rejected 400 (ground arith)
            | inl identity ↦
                performed req
                  (record {
                    path = (text_eq_iff _ _).0 path;
                    method = (text_eq_iff _ _).0 method;
                    authorized = (text_eq_iff _ _).0 authorized;
                    body = body;
                    single = single;
                    identity = identity;
                  })
                  (ground arith)
          ]
        ]
      ]
    ]
  ]
]
