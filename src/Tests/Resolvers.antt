-- ===== src/Tests/Resolvers.antt =====
-- The properties of the resolver on a concrete contract and instance.
use provider_infrastructure.Prelude.{
  ◌≡◌, refl, false, true, List, [], ◌∷◌, ◌++◌, Option, some, if◌then◌else◌,
}
use provider_infrastructure.Text.{Text, codes, text_eq, trim_space, split, join, cut_prefix}
use provider_infrastructure.Resolver.{
  Endpoint, Contract, Target, found, failed, foreign_ref, entry, split_path,
  normalize_upstream_path, resolve_service_reference, add_secret, resolve_endpoint,
  validate_runtime_namespace, resolve, resolve_component, resolve_exec_target,
}
use provider_infrastructure.Resolver.Confinement.{
  IsProxied, Reaches, resolve-Reaches, resolve_exec_target-IsProxied,
}

-- A stand-in for an instance: the string at a dot-path.
abbrev Instance : Type 0
Instance = Text → Text

abbrev nested_string : Instance → List Text → Option Text
nested_string obj fields = some (obj (join fields b'.'))

abbrev nested_string_map : Instance → List Text → Option (Option (Text → Text))
nested_string_map obj fields = some (some (λ key. obj (join fields b'.' ++ (b'.' ∷ key))))

-- It publishes a namespace, and a Service and a Secret by their names.
abbrev published : Instance
published path =
    if text_eq path (codes "status.namespace")
    then codes "ns1"
    else if text_eq path (codes "status.control.name")
    then codes "control"
    else if text_eq path (codes "status.token.name")
    then codes "token"
    else []

-- Another one, whose Service is said to be in another namespace.
abbrev forged : Instance
forged path =
    if text_eq path (codes "status.control.namespace") then codes "ns2" else published path

abbrev sync : Endpoint
sync = record {
  from_status = false;
  service_path = codes "status.control";
  port = codes "http";
  upstream_path = codes "sync";
  methods = codes "POST" ∷ [];
  stream = true;
  upgrade = false;
}

abbrev contract : Contract
contract = record {
  runtime_namespace_path = codes "status.namespace";
  token_secret_path = codes "status.token";
  endpoints = (codes "sync", sync) ∷ [];
  components = (codes "web", (codes "sync", sync) ∷ []) ∷ [];
}

abbrev target : Target
target = record {
  from_status = false;
  service_namespace = codes "ns1";
  service_name = codes "control";
  service_port = codes "http";
  upstream_path = codes "/sync";
  stream = true;
  upgrade = false;
  token_secret_namespace = codes "ns1";
  token_secret_name = codes "token";
}

abbrev exec_target : Target
exec_target = record target {
  service_port = codes "exec";
  upstream_path = codes "/exec";
  stream = false;
}

validated :
    validate_runtime_namespace Instance nested_string nested_string_map
      (some contract)
      (some published)
      (codes "ns1")
    ≡ found tt
unfolding validate_runtime_namespace split_path trim_space split join text_eq
validated = refl

resolved :
    resolve Instance nested_string nested_string_map (some contract) (some published) (codes "sync")
    ≡ found target
unfolding resolve entry text_eq resolve_endpoint resolve_service_reference add_secret split_path
    trim_space split join normalize_upstream_path cut_prefix
resolved = refl

forged_refused :
    resolve Instance nested_string nested_string_map (some contract) (some forged) (codes "sync")
    ≡ failed foreign_ref
unfolding resolve entry text_eq resolve_endpoint resolve_service_reference add_secret split_path
    trim_space split join normalize_upstream_path cut_prefix
forged_refused = refl

resolved_component :
    resolve_component Instance nested_string nested_string_map
      (some contract)
      (some published)
      (codes "web")
      (codes "sync")
    ≡ found target
unfolding resolve_component entry text_eq resolve_endpoint resolve_service_reference add_secret
    split_path trim_space split join normalize_upstream_path cut_prefix
resolved_component = refl

resolved_exec :
    resolve_exec_target Instance nested_string nested_string_map
      (some contract)
      (some published)
      (codes "web")
    ≡ found exec_target
unfolding resolve_exec_target entry text_eq resolve_endpoint resolve_service_reference add_secret
    split_path trim_space split join normalize_upstream_path cut_prefix
resolved_exec = refl

resolve-Reaches_example : Reaches (trim_space (codes "ns1")) target
resolve-Reaches_example =
    resolve-Reaches Instance nested_string nested_string_map (some contract) (some published)
      (codes "sync") (codes "ns1") target validated resolved

resolve_exec_target-IsProxied_example :
    IsProxied (trim_space (codes "ns1")) exec_target
    × (exec_target.service_port ≡ codes "exec")
    × (exec_target.upstream_path ≡ codes "/exec")
resolve_exec_target-IsProxied_example =
    resolve_exec_target-IsProxied Instance nested_string nested_string_map (some contract)
      (some published) (codes "web") (codes "ns1") exec_target validated resolved_exec

-- A stand-in for the upper case, which is right for texts in upper case.
abbrev to_upper : Text → Text
to_upper t = t
