-- ===== src/Resolver.antt =====
-- The data-plane resolver (dataplane/resolver.go): which Service and which Secret of the runtime
-- cluster a verb of an instance reaches, and by which methods.
pub mod Confinement
pub mod Methods
use provider_infrastructure.Prelude.{
  Bool, true, false, not, ◌&&◌, ◌||◌, List, [], ◌∷◌, Option, none, some, any, if◌then◌else◌,
}
use provider_infrastructure.Text.{Text, codes, text_eq, is_empty, trim_space, split, cut_prefix}

-- `TemplateDataPlaneEndpoint`
pub record Endpoint : Type 0 where
  pub from_status : Bool
  pub service_path : Text
  pub port : Text
  pub upstream_path : Text
  pub methods : List Text
  pub stream : Bool
  pub upgrade : Bool

-- A map from names to endpoints.
abbrev pub Endpoints : Type 0
Endpoints = List (Text × Endpoint)

-- `TemplateDataPlane`; of a component only its endpoints are read here.
pub record Contract : Type 0 where
  pub runtime_namespace_path : Text
  pub token_secret_path : Text
  pub endpoints : Endpoints
  pub components : List (Text × Endpoints)

-- `ResolvedTarget`
pub record Target : Type 0 where
  pub from_status : Bool
  pub service_namespace : Text
  pub service_name : Text
  pub service_port : Text
  pub upstream_path : Text
  pub stream : Bool
  pub upgrade : Bool
  pub token_secret_namespace : Text
  pub token_secret_name : Text

-- `ResolvedTarget{FromStatus: true}`
abbrev pub status_target : Target
status_target = record {
  from_status = true;
  service_namespace = [];
  service_name = [];
  service_port = [];
  upstream_path = [];
  stream = false;
  upgrade = false;
  token_secret_namespace = [];
  token_secret_name = [];
}

-- `objectRef`
pub record ObjectRef : Type 0 where
  pub namespace : Text
  pub name : Text

-- The errors of the resolver, by their cause.
pub data ResolveError : Type 0 where
  no_contract no_instance unknown_component unknown_verb no_sync_endpoint : ResolveError
  no_service_path no_port no_expected_namespace no_namespace wrong_namespace : ResolveError
  empty_path malformed_path wrong_type absent_ref unnamed_ref foreign_ref : ResolveError

pub data Resolved {ℓ} (A : Type ℓ) : Type ℓ where
  found : A → Resolved A
  failed : ResolveError → Resolved A

infixl 5 ◌>>=◌
abbrev pub ◌>>=◌ {ℓ κ} : {A : Type ℓ} {B : Type κ} → Resolved A → (A → Resolved B) → Resolved B
found a >>= f = f a
failed e >>= f = failed e

abbrev pub or_fail {ℓ} : {A : Type ℓ} → Option A → ResolveError → Resolved A
or_fail (some a) e = found a
or_fail none e = failed e

-- The entry of a map at a key.
unfoldable pub entry {ℓ} : {A : Type ℓ} → Text → List (Text × A) → Option A
entry key [] = none
entry key ((k, a) ∷ es) = if text_eq k key then some a else entry key es

-- `splitPath`
unfoldable pub split_path : Text → Resolved (List Text)
split_path path =
    if is_empty (trim_space path)
    then failed empty_path
    else if any (λ part. is_empty (trim_space part)) (split (trim_space path) b'.')
    then failed malformed_path
    else found (split (trim_space path) b'.')

-- `normalizeUpstreamPath`
unfoldable pub normalize_upstream_path : Text → Text
normalize_upstream_path p =
    if is_empty (trim_space p) then codes "/" else elim (cut_prefix (trim_space p) (codes "/")) [
      | none ↦ b'/' ∷ trim_space p
      | some _ ↦ trim_space p
    ]

-- The checks of `refInNamespace` on the reference that it read.
unfoldable pub confine : Text → ObjectRef → Resolved ObjectRef
confine runtime_namespace ref =
    if is_empty ref.name
    then failed unnamed_ref
    else if is_empty ref.namespace
    then found (record ref { namespace = runtime_namespace })
    else if not (text_eq ref.namespace runtime_namespace)
    then failed foreign_ref
    else found ref

-- The target at a Service, before the Secret is added.
abbrev pub service_target : Endpoint → ObjectRef → Target
service_target endpoint service = record {
  from_status = false;
  service_namespace = service.namespace;
  service_name = service.name;
  service_port = trim_space endpoint.port;
  upstream_path = normalize_upstream_path endpoint.upstream_path;
  stream = endpoint.stream;
  upgrade = endpoint.upgrade;
  token_secret_namespace = [];
  token_secret_name = [];
}

-- The test `!ok || endpoint.FromStatus` of `resolveComponentSyncTarget`.
abbrev pub sync_endpoint : Option Endpoint → Resolved Endpoint
sync_endpoint none = failed no_sync_endpoint
sync_endpoint (some endpoint) =
    if endpoint.from_status then failed no_sync_endpoint else found endpoint

-- An instance is of the type `Instance`; `unstructured.NestedString` is `nested_string` and
-- `unstructured.NestedStringMap` is `nested_string_map`. They return none for an error; a string
-- that is absent is the empty one, and a map gives the empty string at a key that it has not.
module _ (Instance : Type 0) (nested_string : Instance → List Text → Option Text)
    (nested_string_map : Instance → List Text → Option (Option (Text → Text))) where
  -- `nestedString`
  unfoldable pub read_string : Instance → Text → Resolved Text
  read_string obj path = do
    fields ← split_path path
    v ← or_fail (nested_string obj fields) wrong_type
    found (trim_space v)

  -- `nestedRef`
  unfoldable pub read_ref : Instance → Text → Resolved ObjectRef
  read_ref obj path = do
    fields ← split_path path
    value ← or_fail (nested_string_map obj fields) wrong_type
    m ← or_fail value absent_ref
    found (record {
      namespace = trim_space (m (codes "namespace"));
      name = trim_space (m (codes "name"));
    })

  -- `refInNamespace`
  unfoldable pub ref_in_namespace : Instance → Text → Text → Resolved ObjectRef
  unfolding read_ref confine
  ref_in_namespace obj path runtime_namespace = do
    ref ← read_ref obj path
    confine runtime_namespace ref

  -- `ValidateRuntimeNamespace`
  unfoldable pub validate_runtime_namespace :
      Option Contract → Option Instance → Text → Resolved (Unit {0})
  unfolding read_string
  validate_runtime_namespace none obj expected = failed no_contract
  validate_runtime_namespace (some contract) none expected = failed no_instance
  validate_runtime_namespace (some contract) (some obj) expected =
      if is_empty (trim_space expected) then failed no_expected_namespace else (do
        actual ← read_string obj contract.runtime_namespace_path
        if is_empty actual
            then failed no_namespace
            else if not (text_eq actual (trim_space expected))
            then failed wrong_namespace
            else found tt)

  -- `ResolveServiceReference`, on a contract and an instance that are there.
  unfoldable pub resolve_service_reference : Contract → Instance → Text → Resolved ObjectRef
  unfolding read_string ref_in_namespace
  resolve_service_reference contract obj service_path = do
    runtime_namespace ← read_string obj contract.runtime_namespace_path
    if is_empty runtime_namespace
        then failed no_namespace
        else if is_empty (trim_space service_path)
        then failed no_service_path
        else ref_in_namespace obj service_path runtime_namespace

  -- The end of `resolveEndpoint`, which adds the Secret of the control token.
  unfoldable pub add_secret : Contract → Instance → Target → Resolved Target
  unfolding read_string ref_in_namespace
  add_secret contract obj target =
      if is_empty (trim_space contract.token_secret_path) then found target else (do
        runtime_namespace ← read_string obj contract.runtime_namespace_path
        secret ← ref_in_namespace obj (trim_space contract.token_secret_path) runtime_namespace
        found (record target {
          token_secret_namespace = secret.namespace;
          token_secret_name = secret.name;
        }))

  -- `resolveEndpoint`
  unfoldable pub resolve_endpoint : Contract → Instance → Endpoint → Resolved Target
  resolve_endpoint contract obj endpoint =
      if endpoint.from_status
      then found status_target
      else if is_empty (trim_space endpoint.service_path)
      then failed no_service_path
      else if is_empty (trim_space endpoint.port)
      then failed no_port
      else (do
        service ← resolve_service_reference contract obj endpoint.service_path
        add_secret contract obj (service_target endpoint service))

  -- `Resolve`
  unfoldable pub resolve : Option Contract → Option Instance → Text → Resolved Target
  unfolding resolve_endpoint
  resolve none obj verb = failed no_contract
  resolve (some contract) none verb = failed no_instance
  resolve (some contract) (some obj) verb = do
    endpoint ← or_fail (entry verb contract.endpoints) unknown_verb
    resolve_endpoint contract obj endpoint

  -- `ResolveComponent`
  unfoldable pub resolve_component :
      Option Contract → Option Instance → Text → Text → Resolved Target
  unfolding resolve_endpoint
  resolve_component none obj component verb = failed no_contract
  resolve_component (some contract) none component verb = failed no_instance
  resolve_component (some contract) (some obj) component verb = do
    endpoints ← or_fail (entry component contract.components) unknown_component
    endpoint ← or_fail (entry verb endpoints) unknown_verb
    resolve_endpoint contract obj endpoint

  -- `resolveComponentSyncTarget`
  unfoldable pub resolve_sync_target : Option Contract → Option Instance → Text → Resolved Target
  unfolding resolve_endpoint
  resolve_sync_target none obj component = failed no_contract
  resolve_sync_target (some contract) none component = failed no_instance
  resolve_sync_target (some contract) (some obj) component = do
    endpoints ← or_fail (entry component contract.components) unknown_component
    endpoint ← sync_endpoint (entry (codes "sync") endpoints)
    target ← resolve_endpoint contract obj endpoint
    found (record target { stream = false; upgrade = false })

  -- `ResolveComponentExecTarget`
  unfoldable pub resolve_exec_target : Option Contract → Option Instance → Text → Resolved Target
  unfolding resolve_sync_target
  resolve_exec_target contract obj component = do
    target ← resolve_sync_target contract obj component
    found (record target { upstream_path = codes "/exec"; service_port = codes "exec" })

  -- `ResolveComponentStatusTarget`
  unfoldable pub resolve_status_target : Option Contract → Option Instance → Text → Resolved Target
  unfolding resolve_sync_target
  resolve_status_target contract obj component = do
    target ← resolve_sync_target contract obj component
    found (record target { upstream_path = codes "/status" })

-- `strings.ToUpper` is `to_upper`.
module _ (to_upper : Text → Text) where
  -- `endpointMethodAllowed`, on the methods of the endpoint.
  unfoldable pub methods_allow : List Text → Text → Bool
  methods_allow [] method = text_eq (to_upper (trim_space method)) (codes "GET")
  methods_allow (m ∷ ms) method =
      any (λ n. text_eq (to_upper (trim_space n)) (to_upper (trim_space method))) (m ∷ ms)

  abbrev pub allowed_at : Option Endpoint → Text → Bool
  allowed_at none method = false
  allowed_at (some endpoint) method = methods_allow endpoint.methods method

  -- `MethodAllowed`
  unfoldable pub method_allowed : Option Contract → Text → Text → Bool
  unfolding methods_allow
  method_allowed none verb method = false
  method_allowed (some contract) verb method = allowed_at (entry verb contract.endpoints) method

  -- `ComponentMethodAllowed`
  unfoldable pub component_method_allowed : Option Contract → Text → Text → Text → Bool
  unfolding methods_allow
  component_method_allowed none component verb method = false
  component_method_allowed (some contract) component verb method =
      elim (entry component contract.components) [
        | none ↦ false
        | some endpoints ↦ allowed_at (entry verb endpoints) method
      ]
