-- ===== src/Resolver/Methods.antt =====
-- Which methods a verb permits (dataplane/resolver.go).
use provider_infrastructure.Prelude.{
  ◌≡◌, ◌↔◌, ◌⊎◌, inl, inr, refl, true, Bool-cases, List, [], ◌∷◌, any, arith,
}
use provider_infrastructure.Text.{Text, codes, text_eq, trim_space}
use provider_infrastructure.Text.Laws.{text_eq_iff}
use provider_infrastructure.Resolver.{methods_allow}

module _ (to_upper : Text → Text) where
  -- A method of the list that is the method after trimming and in upper case.
  pub data Lists (method : Text) : List Text → Type 0 where
    lists_here :
        {m : Text} {ms : List Text}
        → to_upper (trim_space m) ≡ to_upper (trim_space method)
        → Lists method (m ∷ ms)
    lists_later : {m : Text} {ms : List Text} → Lists method ms → Lists method (m ∷ ms)

  any-Lists :
      (method : Text) (ms : List Text)
      → any (λ n. text_eq (to_upper (trim_space n)) (to_upper (trim_space method))) ms ≡ true
      → Lists method ms
  any-Lists method [] h = cc h
  any-Lists method (m ∷ ms) h =
      elim (Bool-cases (text_eq (to_upper (trim_space m)) (to_upper (trim_space method)))) [
        | inl same ↦ lists_here ((text_eq_iff _ _).0 same)
        | inr differs ↦ lists_later (any-Lists method ms (rw differs at h))
      ]

  Lists-any :
      (method : Text) (ms : List Text)
      → Lists method ms
      → any (λ n. text_eq (to_upper (trim_space n)) (to_upper (trim_space method))) ms ≡ true
  Lists-any method [] h = elim h [ ]
  Lists-any method (m ∷ ms) (lists_here e) = ground (arith, (text_eq_iff _ _).1 e)
  Lists-any method (m ∷ ms) (lists_later h) = ground (arith, Lists-any method ms h)

  listed_only :
      (method : Text) (m : Text) (ms : List Text)
      → (((m ∷ ms) ≡ []) × (to_upper (trim_space method) ≡ codes "GET")) ⊎ Lists method (m ∷ ms)
      → Lists method (m ∷ ms)
  listed_only method m ms (inl (e, g)) = cc e
  listed_only method m ms (inr h) = h

  get_only :
      (method : Text)
      → ((◌≡◌ {A = List Text} [] []) × (to_upper (trim_space method) ≡ codes "GET"))
        ⊎ Lists method []
      → to_upper (trim_space method) ≡ codes "GET"
  get_only method (inl (e, g)) = g
  get_only method (inr h) = elim h [ ]

  -- An endpoint with no methods permits GET only; any other permits exactly the methods that it
  -- lists, up to surrounding space and case.
  pub methods_allow_iff :
      (methods : List Text) (method : Text)
      → (methods_allow to_upper methods method ≡ true)
        ↔ (((methods ≡ []) × (to_upper (trim_space method) ≡ codes "GET")) ⊎ Lists method methods)
  unfolding methods_allow
  methods_allow_iff [] method =
      ((λ h. inl (refl, (text_eq_iff _ _).0 h)), λ k. (text_eq_iff _ _).1 (get_only method k))
  methods_allow_iff (m ∷ ms) method = (
    (λ h. inr (any-Lists method (m ∷ ms) h)),
    λ k. Lists-any method (m ∷ ms) (listed_only method m ms k),
  )
