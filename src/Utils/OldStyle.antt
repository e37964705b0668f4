-- ===== src/Utils/OldStyle.antt =====
-- A class made compatible, and the old style of its methods.
use agent_client_protocol_py.Base.{
  ◌≡◌, ◌≢◌, refl, ◌∙◌, ap, nat_eq, true, Option, none, some, List, [], ◌∷◌, ◌++◌, contains,
  Bool-cases, inl, inr,
}
use agent_client_protocol_py.Base.Dict.{Dict, lookup, lookup-insert_ne, lookup-insert_self}
use agent_client_protocol_py.Base.Lists.{All}
use agent_client_protocol_py.Utils.Names.{to_camel_case, underscore}
use agent_client_protocol_py.Utils.Compat.{
  Name, Instance, Model, Attribute, name_eq, one_parameter, legacy_kwargs, make_legacy_func,
  make_compatible, compatible_class, make_compatible_func-make_legacy_func,
}

-- A name that a round for another one leaves as it is.
abbrev pub Spares : Name → Name → Type 0
Spares k attr = (k ≢ attr) × (k ≢ to_camel_case attr)

module _ {V R : Type 0} where
  lookup-make_compatible :
      (k attr : Name) (cls : Dict Name (Attribute V R))
      → Spares k attr
      → lookup k (make_compatible attr cls) ≡ lookup k cls
  unfolding make_compatible
  lookup-make_compatible k attr cls (other, other_camel) = go (lookup attr cls) refl
    where
      rewraps :
          (old : Attribute V R) (m : Option (Model V))
          → lookup attr cls ≡ some old
          → old.model ≡ m
          → lookup k (make_compatible attr cls) ≡ lookup k cls
      rewraps old none e e' = rw (make_compatible, e, e') refl
      rewraps old (some model) e e' = elim (Bool-cases (contains attr underscore)) [
        | inl named ↦
            rw (make_compatible, e, e', named)
              (lookup-insert_ne k (to_camel_case attr) _ cls other_camel)
        | inr plain ↦ rw (make_compatible, e, e', plain) (lookup-insert_ne k attr _ cls other)
      ]

      go :
          (o : Option (Attribute V R))
          → lookup attr cls ≡ o
          → lookup k (make_compatible attr cls) ≡ lookup k cls
      go none e = rw (make_compatible, e) refl
      go (some old) e = rewraps old old.model e refl

  lookup-compatible_class :
      (k : Name) (attrs : List Name) (cls : Dict Name (Attribute V R))
      → All (Spares k) attrs
      → lookup k (compatible_class attrs cls) ≡ lookup k cls
  unfolding compatible_class
  lookup-compatible_class k [] cls h = refl
  lookup-compatible_class k (attr ∷ attrs) cls (spares, h) =
      lookup-compatible_class k attrs (make_compatible attr cls) h
      ∙ lookup-make_compatible k attr cls spares

  compatible_class-append :
      (before after : List Name) (cls : Dict Name (Attribute V R))
      → compatible_class (before ++ after) cls
        ≡ compatible_class after (compatible_class before cls)
  unfolding compatible_class
  compatible_class-append [] after cls = refl
  compatible_class-append (attr ∷ before) after cls =
      compatible_class-append before after (make_compatible attr cls)

  abbrev wrapped_old : Attribute V R → Model V → Attribute V R
  wrapped_old old model = record old { func = make_legacy_func old.func model }

  make_compatible_named :
      (attr : Name) (old : Attribute V R) (model : Model V) (cls : Dict Name (Attribute V R))
      → lookup attr cls ≡ some old
      → old.model ≡ some model
      → contains attr underscore ≡ true
      → attr ≢ to_camel_case attr
      → (lookup (to_camel_case attr) (make_compatible attr cls) ≡ some (wrapped_old old model))
        × (lookup attr (make_compatible attr cls) ≡ some old)
  unfolding make_compatible
  make_compatible_named attr old model cls found marked named differs = (
    simp (make_compatible, found, marked, named) (lookup-insert_self (to_camel_case attr) _ cls),
    simp (make_compatible, found, marked, named)
        (lookup-insert_ne attr (to_camel_case attr) _ cls differs ∙ found),
  )

  -- In a class that is made compatible, a method whose name has an underscore and that a model marks
  -- is there under its camel case too, if the other names and their camel cases differ from both:
  -- called there with an instance of the model as the only parameter, it does what the method
  -- does with the instance's keywords. The method itself stays as it was.
  pub compatible_class-legacy_kwargs :
      (before after : List Name) (attr : Name) (cls : Dict Name (Attribute V R))
      (old : Attribute V R) (model : Model V) (args : List V) (kwargs : Dict Name V) (params : V)
      (instance_of : Instance V)
      → lookup attr cls ≡ some old
      → old.model ≡ some model
      → contains attr underscore ≡ true
      → attr ≢ to_camel_case attr
      → All (Spares attr) before
      → All (Spares attr) after
      → All (Spares (to_camel_case attr)) after
      → one_parameter args kwargs ≡ some params
      → model.as_instance params ≡ some instance_of
      → let made = compatible_class (before ++ (attr ∷ after)) cls in
        (new : Attribute V R) × (lookup (to_camel_case attr) made ≡ some new)
        × (new.func args kwargs ≡ old.func [] (legacy_kwargs model instance_of))
        × (lookup attr made ≡ some old)
  unfolding compatible_class
  compatible_class-legacy_kwargs before after attr cls old model args kwargs params instance_of
        found marked named differs free_before free_after free_camel given known =
      let cls' = compatible_class before cls in
      let whole = compatible_class-append before (attr ∷ after) cls in
      let found' = lookup-compatible_class attr before cls free_before ∙ found in
      let (camel, kept) = make_compatible_named attr old model cls' found' marked named differs in
      let (_, legacy, _) =
        make_compatible_func-make_legacy_func old.func model args kwargs params instance_of attr
          given known in
      (
        wrapped_old old model,
        ap (lookup (to_camel_case attr)) whole
            ∙ lookup-compatible_class (to_camel_case attr) after (make_compatible attr cls')
                free_camel
            ∙ camel,
        legacy,
        ap (lookup attr) whole
            ∙ lookup-compatible_class attr after (make_compatible attr cls') free_after
            ∙ kept,
      )
