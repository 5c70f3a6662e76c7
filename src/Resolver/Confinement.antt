-- ===== src/Resolver/Confinement.antt =====
-- Whatever a verb resolves to lies in the runtime namespace of the instance (dataplane/resolver.go).
use mathlib.Core.Path.{subst}
use provider_infrastructure.Prelude.{
  ◌≡◌, refl, sym, ap, ◌∙◌, ◌⊎◌, inl, inr, false, Bool-cases, Option-cases, List, [], Option, none,
  some, arith,
}
use provider_infrastructure.Text.{Text, codes, text_eq, is_empty, trim_space}
use provider_infrastructure.Text.Laws.{text_eq_iff}
use provider_infrastructure.Resolver.{
  Endpoint, Contract, Target, ObjectRef, ResolveError, Resolved, found, failed, status_target,
  entry, sync_endpoint, read_string, read_ref, confine, ref_in_namespace,
  validate_runtime_namespace, resolve_service_reference, service_target, add_secret,
  resolve_endpoint, resolve, resolve_component, resolve_sync_target, resolve_exec_target,
}

-- A reference to a named object of the namespace.
abbrev pub IsIn : Text → ObjectRef → Type 0
IsIn namespace ref = (ref.namespace ≡ namespace) × (is_empty ref.name ≡ false)

-- The Service, and the Secret where there is one, are named objects of the namespace.
pub record IsConfined (namespace : Text) (t : Target) : Type 0 where
  pub service : (t.service_namespace ≡ namespace) × (is_empty t.service_name ≡ false)
  pub secret :
      ((t.token_secret_namespace ≡ []) × (t.token_secret_name ≡ []))
      ⊎ ((t.token_secret_namespace ≡ namespace) × (is_empty t.token_secret_name ≡ false))

-- A Service, and no answer from the status, in the namespace.
abbrev pub IsProxied : Text → Target → Type 0
IsProxied namespace t = (t.from_status ≡ false) × IsConfined namespace t

-- A target in the namespace, or one with no Service and no Secret.
pub data Reaches (namespace : Text) (t : Target) : Type 0 where
  status : t ≡ status_target → Reaches namespace t
  proxied : IsProxied namespace t → Reaches namespace t

pub Resolved-cases {ℓ} :
    {A : Type ℓ} (r : Resolved A)
    → ((a : A) × (r ≡ found a)) ⊎ ((e : ResolveError) × (r ≡ failed e))
Resolved-cases (found a) = inl (a, refl)
Resolved-cases (failed e) = inr (e, refl)

found_injective {ℓ} : {A : Type ℓ} {a b : A} → found a ≡ found b → a ≡ b
found_injective {a} e = ap (λ r. elim r [ found c ↦ c | failed _ ↦ a ]) e

confine-IsIn :
    (namespace : Text) (ref r : ObjectRef) → confine namespace ref ≡ found r → IsIn namespace r
unfolding confine
confine-IsIn namespace ref r h = elim (Bool-cases (is_empty ref.name)) [
  | inl unnamed ↦ cc (rw unnamed at h)
  | inr named ↦ elim (Bool-cases (is_empty ref.namespace)) [
    | inl absent ↦ subst (IsIn namespace) (found_injective (sym (ground arith) ∙ h)) (refl, named)
    | inr given ↦ elim (Bool-cases (text_eq ref.namespace namespace)) [
      | inr other ↦ cc (rw (named, given, other) at h)
      | inl same ↦
          subst (IsIn namespace) (found_injective (sym (ground arith) ∙ h))
            ((text_eq_iff ref.namespace namespace).0 same, named)
    ]
  ]
]

sync_endpoint-proxy :
    (o : Option Endpoint) (endpoint : Endpoint)
    → sync_endpoint o ≡ found endpoint
    → endpoint.from_status ≡ false
sync_endpoint-proxy none endpoint h = cc h
sync_endpoint-proxy (some e) endpoint h = elim (Bool-cases e.from_status) [
  | inl from_status ↦ cc (rw from_status at h)
  | inr proxy ↦
      subst (λ (x : Endpoint). x.from_status ≡ false) (found_injective (rw proxy at h)) refl
]

-- A target that differs in other fields.
keep-IsProxied :
    (namespace : Text) (t u : Target)
    → u.from_status ≡ t.from_status
    → u.service_namespace ≡ t.service_namespace
    → u.service_name ≡ t.service_name
    → u.token_secret_namespace ≡ t.token_secret_namespace
    → u.token_secret_name ≡ t.token_secret_name
    → IsProxied namespace t
    → IsProxied namespace u
keep-IsProxied namespace t u a b c d e (proxy, inside) = (
  a ∙ proxy,
  record {
    service = (b ∙ inside.service.0, ap is_empty c ∙ inside.service.1);
    secret = elim inside.secret [
      | inl (n, m) ↦ inl (d ∙ n, e ∙ m)
      | inr (n, m) ↦ inr (d ∙ n, ap is_empty e ∙ m)
    ];
  },
)

module _ (Instance : Type 0) (nested_string : Instance → List Text → Option Text)
    (nested_string_map : Instance → List Text → Option (Option (Text → Text))) where
  ref_in_namespace-IsIn :
      (obj : Instance) (path namespace : Text) (r : ObjectRef)
      → ref_in_namespace Instance nested_string nested_string_map obj path namespace ≡ found r
      → IsIn namespace r
  unfolding ref_in_namespace
  ref_in_namespace-IsIn obj path namespace r h =
      elim (Resolved-cases (read_ref Instance nested_string nested_string_map obj path)) [
        | inr (e, failure) ↦ cc (rw failure at h)
        | inl (ref, read) ↦ confine-IsIn namespace ref r (rw read at h)
      ]

  -- What a service reference and the Secret are confined to: the namespace that the instance publishes.
  resolve_service_reference-IsIn :
      (contract : Contract) (obj : Instance) (path namespace : Text) (r : ObjectRef)
      → read_string Instance nested_string nested_string_map obj contract.runtime_namespace_path
        ≡ found namespace
      → resolve_service_reference Instance nested_string nested_string_map contract obj path
        ≡ found r
      → IsIn namespace r
  unfolding resolve_service_reference
  resolve_service_reference-IsIn contract obj path namespace r read h =
      elim (Bool-cases (is_empty namespace)) [
        | inl empty ↦ cc (rw (read, empty) at h)
        | inr named ↦ elim (Bool-cases (is_empty (trim_space path))) [
          | inl no_path ↦ cc (rw (read, named, no_path) at h)
          | inr path_given ↦
              ref_in_namespace-IsIn obj path namespace r (rw (read, named, path_given) at h)
        ]
      ]

  add_secret-IsProxied :
      (contract : Contract) (obj : Instance) (endpoint : Endpoint) (service : ObjectRef)
      (namespace : Text) (t : Target)
      → read_string Instance nested_string nested_string_map obj contract.runtime_namespace_path
        ≡ found namespace
      → IsIn namespace service
      → add_secret Instance nested_string nested_string_map contract obj
          (service_target endpoint service)
        ≡ found t
      → IsProxied namespace t
  unfolding add_secret
  add_secret-IsProxied contract obj endpoint service namespace t read inside h =
      elim (Bool-cases (is_empty (trim_space contract.token_secret_path))) [
        | inl none_given ↦
            subst (IsProxied namespace) (found_injective (rw none_given at h))
              (refl, (record { service = inside; secret = inl (refl, refl) }))
        | inr given ↦
            elim (Resolved-cases (
              ref_in_namespace Instance nested_string nested_string_map obj
                (trim_space contract.token_secret_path) namespace)) [
                  | inr (e, failure) ↦ cc (rw (given, read, failure) at h)
                  | inl (secret, is_read) ↦
                      subst (IsProxied namespace) (found_injective (rw (given, read, is_read) at h))
                        (
                          refl,
                          (record {
                            service = inside;
                            secret = inr (
                                ref_in_namespace-IsIn obj (trim_space contract.token_secret_path)
                                  namespace secret is_read);
                          }),
                        )
                ]
      ]

  resolve_endpoint-IsProxied :
      (contract : Contract) (obj : Instance) (endpoint : Endpoint) (namespace : Text) (t : Target)
      → endpoint.from_status ≡ false
      → read_string Instance nested_string nested_string_map obj contract.runtime_namespace_path
        ≡ found namespace
      → resolve_endpoint Instance nested_string nested_string_map contract obj endpoint ≡ found t
      → IsProxied namespace t
  unfolding resolve_endpoint
  resolve_endpoint-IsProxied contract obj endpoint namespace t proxy read h =
      elim (Bool-cases (is_empty (trim_space endpoint.service_path))) [
        | inl no_path ↦ cc (rw (proxy, no_path) at h)
        | inr path ↦ elim (Bool-cases (is_empty (trim_space endpoint.port))) [
          | inl no_port ↦ cc (rw (proxy, path, no_port) at h)
          | inr port ↦
              elim (Resolved-cases (
                resolve_service_reference Instance nested_string nested_string_map contract obj
                  endpoint.service_path)) [
                    | inr (e, failure) ↦ cc (rw (proxy, path, port, failure) at h)
                    | inl (service, is_read) ↦
                        add_secret-IsProxied contract obj endpoint service namespace t read
                          (resolve_service_reference-IsIn contract obj endpoint.service_path
                            namespace service read is_read)
                          (rw (proxy, path, port, is_read) at h)
                  ]
        ]
      ]

  -- An endpoint reaches only the namespace that the instance publishes.
  resolve_endpoint-Reaches :
      (contract : Contract) (obj : Instance) (endpoint : Endpoint) (namespace : Text) (t : Target)
      → read_string Instance nested_string nested_string_map obj contract.runtime_namespace_path
        ≡ found namespace
      → resolve_endpoint Instance nested_string nested_string_map contract obj endpoint ≡ found t
      → Reaches namespace t
  unfolding resolve_endpoint
  resolve_endpoint-Reaches contract obj endpoint namespace t read h =
      elim (Bool-cases endpoint.from_status) [
        | inl from_status ↦ status (sym (found_injective (rw from_status at h)))
        | inr proxy ↦
            proxied (resolve_endpoint-IsProxied contract obj endpoint namespace t proxy read h)
      ]

  -- The namespace that a validated instance publishes is the expected one.
  pub validate-namespace :
      (contract : Contract) (obj : Instance) (expected : Text)
      → validate_runtime_namespace Instance nested_string nested_string_map
          (some contract)
          (some obj)
          expected
        ≡ found tt
      → (read_string Instance nested_string nested_string_map obj contract.runtime_namespace_path
          ≡ found (trim_space expected))
        × (is_empty (trim_space expected) ≡ false)
  unfolding validate_runtime_namespace
  validate-namespace contract obj expected h = elim (Bool-cases (is_empty (trim_space expected))) [
    | inl empty ↦ cc (rw empty at h)
    | inr named ↦
        elim (Resolved-cases (
          read_string Instance nested_string nested_string_map obj
            contract.runtime_namespace_path)) [
              | inr (e, failure) ↦ cc (rw (named, failure) at h)
              | inl (actual, read) ↦ elim (Bool-cases (is_empty actual)) [
                | inl absent ↦ cc (rw (named, read, absent) at h)
                | inr given ↦ elim (Bool-cases (text_eq actual (trim_space expected))) [
                  | inr other ↦ cc (rw (named, read, given, other) at h)
                  | inl same ↦
                      (read ∙ ap found ((text_eq_iff actual (trim_space expected)).0 same), named)
                ]
              ]
            ]
  ]

  -- Where the namespace that an instance publishes was validated against the expected one, a verb
  -- of the instance that resolves reaches only a named Service, and a named Secret if any, of the
  -- expected namespace, or the status of the instance.
  pub resolve-Reaches :
      (contract : Option Contract) (obj : Option Instance) (verb expected : Text) (t : Target)
      → validate_runtime_namespace Instance nested_string nested_string_map contract obj expected
        ≡ found tt
      → resolve Instance nested_string nested_string_map contract obj verb ≡ found t
      → Reaches (trim_space expected) t
  unfolding resolve
  resolve-Reaches none obj verb expected t valid h = cc h
  resolve-Reaches (some contract) none verb expected t valid h = cc h
  resolve-Reaches (some contract) (some obj) verb expected t valid h =
      elim (Option-cases (entry verb contract.endpoints)) [
        | inl unknown ↦ cc (rw unknown at h)
        | inr (endpoint, known) ↦
            resolve_endpoint-Reaches contract obj endpoint (trim_space expected) t
              (validate-namespace contract obj expected valid).0 (rw known at h)
      ]

  -- Where the published namespace was validated against the expected one, a verb of a component
  -- that resolves reaches only a named Service, and a named Secret if any, of the expected
  -- namespace, or the status of the instance.
  pub resolve_component-Reaches :
      (contract : Option Contract) (obj : Option Instance) (component verb expected : Text)
      (t : Target)
      → validate_runtime_namespace Instance nested_string nested_string_map contract obj expected
        ≡ found tt
      → resolve_component Instance nested_string nested_string_map contract obj component verb
        ≡ found t
      → Reaches (trim_space expected) t
  unfolding resolve_component
  resolve_component-Reaches none obj component verb expected t valid h = cc h
  resolve_component-Reaches (some contract) none component verb expected t valid h = cc h
  resolve_component-Reaches (some contract) (some obj) component verb expected t valid h =
      elim (Option-cases (entry component contract.components)) [
        | inl unknown ↦ cc (rw unknown at h)
        | inr (endpoints, known) ↦ elim (Option-cases (entry verb endpoints)) [
          | inl no_verb ↦ cc (rw (known, no_verb) at h)
          | inr (endpoint, is_verb) ↦
              resolve_endpoint-Reaches contract obj endpoint (trim_space expected) t
                (validate-namespace contract obj expected valid).0 (rw (known, is_verb) at h)
        ]
      ]

  resolve_sync_target-IsProxied :
      (contract : Option Contract) (obj : Option Instance) (component expected : Text) (t : Target)
      → validate_runtime_namespace Instance nested_string nested_string_map contract obj expected
        ≡ found tt
      → resolve_sync_target Instance nested_string nested_string_map contract obj component
        ≡ found t
      → IsProxied (trim_space expected) t
  unfolding resolve_sync_target
  resolve_sync_target-IsProxied none obj component expected t valid h = cc h
  resolve_sync_target-IsProxied (some contract) none component expected t valid h = cc h
  resolve_sync_target-IsProxied (some contract) (some obj) component expected t valid h =
      elim (Option-cases (entry component contract.components)) [
        | inl unknown ↦ cc (rw unknown at h)
        | inr (endpoints, known) ↦
            elim (Resolved-cases (sync_endpoint (entry (codes "sync") endpoints))) [
              | inr (e, no_sync) ↦ cc (rw (known, no_sync) at h)
              | inl (endpoint, is_sync) ↦
                  elim (Resolved-cases (
                    resolve_endpoint Instance nested_string nested_string_map contract obj
                      endpoint)) [
                        | inr (e, failure) ↦ cc (rw (known, is_sync, failure) at h)
                        | inl (target, is_target) ↦
                            subst (IsProxied (trim_space expected))
                              (found_injective (rw (known, is_sync, is_target) at h))
                              (keep-IsProxied (trim_space expected) target _ refl refl refl refl
                                refl
                                (resolve_endpoint-IsProxied contract obj endpoint
                                  (trim_space expected) target
                                  (sync_endpoint-proxy (entry (codes "sync") endpoints) endpoint
                                    is_sync)
                                  (validate-namespace contract obj expected valid).0 is_target))
                      ]
            ]
      ]

  -- Where the published namespace was validated against the expected one, an exec target that
  -- resolves is a named Service of the expected namespace at the port exec and the path /exec, with
  -- a named Secret of that namespace if any.
  pub resolve_exec_target-IsProxied :
      (contract : Option Contract) (obj : Option Instance) (component expected : Text) (t : Target)
      → validate_runtime_namespace Instance nested_string nested_string_map contract obj expected
        ≡ found tt
      → resolve_exec_target Instance nested_string nested_string_map contract obj component
        ≡ found t
      → IsProxied (trim_space expected) t
        × (t.service_port ≡ codes "exec")
        × (t.upstream_path ≡ codes "/exec")
  unfolding resolve_exec_target
  resolve_exec_target-IsProxied contract obj component expected t valid h =
      elim (Resolved-cases
        (resolve_sync_target Instance nested_string nested_string_map contract obj component)) [
          | inr (e, failure) ↦ cc (rw failure at h)
          | inl (synced, is_synced) ↦
              subst
                (λ u.
                  IsProxied (trim_space expected) u
                  × (u.service_port ≡ codes "exec")
                  × (u.upstream_path ≡ codes "/exec"))
                (found_injective (rw is_synced at h))
                (
                  keep-IsProxied (trim_space expected) synced _ refl refl refl refl refl (
                      resolve_sync_target-IsProxied contract obj component expected synced valid
                        is_synced),
                  refl,
                  refl,
                )
        ]
