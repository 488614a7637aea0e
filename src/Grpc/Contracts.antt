-- ===== src/Grpc/Contracts.antt =====
-- grpc/contract.go: the services that a contract declares are at the paths that clients call.
use effect_golang_web.Common.{
  ◌≡◌, refl, sym, ap, ap₂, subst, map, ◌∙◌, ◌↔◌, inl, inr, false, Option, none, some, List, [], ◌∷◌,
  ◌++◌, Text, codes, Result, ok, ◌>>=◌, ok-injective, some-injective, ==_iff, has_code, Bool-cases,
  arith, >>=-eq-ok, append_assoc,
}
use effect_golang_web.Path.{is_empty}
use effect_golang_web.Grpc.{
  GrpcFault, ProcedureDeclaration, ProtoProcedure, procedure_path, cut_prefix, bare_of,
  bare_service_name, proto_procedure, proto_procedures, unless_faulty,
}

cut_prefix_sound : (s prefix rest : Text) → cut_prefix s prefix ≡ some rest → s ≡ prefix ++ rest
unfolding cut_prefix
cut_prefix_sound s [] rest h = some-injective h
cut_prefix_sound [] (d ∷ prefix) rest h = cc
cut_prefix_sound (c ∷ s) (d ∷ prefix) rest h = ground (arith, cut_prefix_sound s prefix rest)

cut_prefix_complete : (prefix rest : Text) → cut_prefix (prefix ++ rest) prefix ≡ some rest
unfolding cut_prefix
cut_prefix_complete [] rest = refl
cut_prefix_complete (d ∷ prefix) rest = rw ((==_iff d d).1 refl) (cut_prefix_complete prefix rest)

-- A name of one part.
abbrev pub IsBare : Text → Type 0
IsBare bare = (is_empty bare ≡ false) × (has_code b'.' bare ≡ false)

module _ {X : Type 0} where
  bare_of-ok :
      (package_name service bare : Text) (found : Option Text)
      → bare_of {X = X} package_name service found ≡ ok bare
      → (found ≡ some bare) × IsBare bare
  bare_of-ok package_name service bare none h = cc
  bare_of-ok package_name service bare (some rest) h = elim (Bool-cases (is_empty rest)) [
    | inl empty ↦ ground (arith)
    | inr full ↦ elim (Bool-cases (has_code b'.' rest)) [
      | inl dotted ↦ ground (arith)
      | inr plain ↦
          let same = ok-injective {E = GrpcFault X} (rw (full, plain) at h) in
          (
            ap some same,
            (
              subst (λ b. is_empty b ≡ false) same full,
              subst (λ b. has_code b'.' b ≡ false) same plain,
            ),
          )
    ]
  ]

  -- A service has a bare name in a package exactly if it is called by the name of the package, a dot and
  -- that name, which has a character and no dot.
  pub bare_service_name_iff :
      (package_name service bare : Text)
      → (bare_service_name {X = X} package_name service ≡ ok bare)
        ↔ ((service ≡ (package_name ++ codes ".") ++ bare) × IsBare bare)
  unfolding bare_service_name
  bare_service_name_iff package_name service bare = (
    λ h.
        let (found, is_bare) =
          bare_of-ok package_name service bare (cut_prefix service (package_name ++ codes ".")) h in
        (cut_prefix_sound service (package_name ++ codes ".") bare found, is_bare),
    λ h. rw (h.0, cut_prefix_complete (package_name ++ codes ".") bare, h.1.0, h.1.1) refl,
  )

module _ {Shape X : Type 0} where
  -- The path of a procedure as its declaration calls it.
  abbrev pub declared_path : ProcedureDeclaration Shape X → Text
  declared_path declared = procedure_path declared.service declared.method

-- The path that gRPC gives a method of a service: a slash, the package, a dot, the service, a slash
-- and the method. It is what a client calls that is generated of the contract.
abbrev pub generated_path : {Shape : Type 0} → Text → ProtoProcedure Shape → Text
generated_path package_name procedure =
    codes "/" ++ package_name ++ codes "." ++ procedure.service ++ codes "/" ++ procedure.method

full_path :
    (package_name bare method : Text)
    → codes "/" ++ package_name ++ codes "." ++ bare ++ codes "/" ++ method
      ≡ procedure_path ((package_name ++ codes ".") ++ bare) method
full_path package_name bare method =
    ap (λ t. b'/' ∷ t) (append_assoc ((package_name ++ codes ".") ++ bare) (codes "/") method)

module _ {X : Type 0} where
  unless_faulty-ok :
      {A : Type 0} (mistake : Option (GrpcFault X)) (next : Result (GrpcFault X) A) (a : A)
      → unless_faulty mistake next ≡ ok a
      → next ≡ ok a
  unless_faulty-ok none next a h = h
  unless_faulty-ok (some mistake) next a h = cc

module _ {Shape X : Type 0} where
  -- A client that is generated of a contract calls the procedures at the paths at which they are
  -- served, in the order in which they were given.
  pub proto_procedures_lem :
      (package_name : Text) (procedures : List (ProcedureDeclaration Shape X))
      (made : List (ProtoProcedure Shape))
      → proto_procedures package_name procedures ≡ ok made
      → map (generated_path package_name) made ≡ map declared_path procedures
  unfolding proto_procedures proto_procedure
  proto_procedures_lem package_name [] made h =
      ap (map (generated_path package_name)) (sym (ok-injective {E = GrpcFault X} h))
  proto_procedures_lem package_name (declared ∷ procedures) made h =
      let (bare, first, after) =
        >>=-eq-ok (unless_faulty declared.fault (bare_service_name package_name declared.service))
          (λ bare.
            proto_procedures package_name procedures
            >>= (λ rest. ok (proto_procedure declared bare ∷ rest)))
          h in
      let (rest, second, same) =
        >>=-eq-ok (proto_procedures package_name procedures)
          (λ rest. ok (proto_procedure declared bare ∷ rest)) after in
      let read =
        unless_faulty-ok declared.fault (bare_service_name package_name declared.service) bare
          first in
      ap (map (generated_path package_name)) (sym (ok-injective {E = GrpcFault X} same))
      ∙ ap₂ (λ p ps. p ∷ ps)
          (full_path package_name bare declared.method
            ∙ ap (λ s. procedure_path s declared.method)
                (sym ((bare_service_name_iff package_name declared.service bare).0 read).0))
          (proto_procedures_lem package_name procedures rest second)
