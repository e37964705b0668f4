-- ===== src/Scripts/Resolved.antt =====
-- The refs of src/scripts/gen_all.py: `resolve_ref` gives a ref, and a ref for itself.
use Prim.Native.String.append
use Prim.Native.Char.{Char}
use agent_client_protocol_py.Base.{
  ◌≡◌, ◌≢◌, refl, ap, String, ◌<>◌, string_eq, Bool, true, false, Option, none, some, if◌then◌else◌,
  ◌==◌, arith,
}
use agent_client_protocol_py.Transports.Prefix.{starts_with}
use agent_client_protocol_py.Scripts.Refs.{resolve_version, resolve_ref}

append_assoc : (a b c : String) → (a <> b) <> c ≡ a <> (b <> c)
append_assoc String.[] b c = rw (append.nil, append.nil) refl
append_assoc (String.◌∷◌ x a) b c =
    rw (append.cons x a, append.cons x (a <> b), append.cons x a)
      (ap (λ t. String.◌∷◌ x t) (append_assoc a b c))

starts_with-append : (start rest : String) → starts_with start (start <> rest) ≡ true
unfolding starts_with
starts_with-append String.[] rest = refl
starts_with-append (String.◌∷◌ c start) rest =
    rw (append.cons c start) (ground (arith, starts_with-append start rest))

starts_with-append_two :
    (start more rest : String) → starts_with start ((start <> more) <> rest) ≡ true
starts_with-append_two start more rest =
    rw (append_assoc start more rest) (starts_with-append start (more <> rest))

starts_with-branch :
    (here versioned : Bool) (version tag head : String)
    → starts_with "refs/" version ≡ here
    → starts_with "refs/" tag ≡ true
    → starts_with "refs/" head ≡ true
    → starts_with "refs/" (if here then version else if versioned then tag else head) ≡ true
starts_with-branch true versioned version tag head h t e = h
starts_with-branch false true version tag head h t e = t
starts_with-branch false false version tag head h t e = e

main_refs : starts_with "refs/" "refs/heads/main" ≡ true
unfolding starts_with string_eq
main_refs = refl

cons_differs : (c : Char) (text : String) → String.◌∷◌ c text ≢ ""
cons_differs c text h = cc

differs-false : (s t : String) → s ≢ t → (s == t) ≡ false
differs-false s t h = ground (arith, h)

pub nonempty : (text : String) → starts_with "refs/" text ≡ true → (text == "") ≡ false
nonempty String.[] h = unfold starts_with in cc
nonempty (String.◌∷◌ c text) h = differs-false _ _ (cons_differs c text)

starts_with-main :
    (here : Bool) (text : String)
    → starts_with "refs/" text ≡ true
    → starts_with "refs/" (if here then "refs/heads/main" else text) ≡ true
starts_with-main true text h = main_refs
starts_with-main false text h = h

module _ (is_version : String → Bool) (lower : String → String) where
  resolve_version-refs :
      (version : String) → starts_with "refs/" (resolve_version is_version lower version) ≡ true
  resolve_version-refs version =
      unfold resolve_version in
      starts_with-branch (starts_with "refs/" version) (is_version version) version _ _ refl
        (starts_with-append_two "refs/" "tags/" _) (starts_with-append_two "refs/" "heads/" version)

  pub resolve_ref-refs :
      (version : Option String) → starts_with "refs/" (resolve_ref is_version lower version) ≡ true
  resolve_ref-refs none = unfold resolve_ref in main_refs
  resolve_ref-refs (some version) =
      unfold resolve_ref in starts_with-main (version == "") _ (resolve_version-refs version)

  resolve_ref_fixed :
      (ref : String)
      → starts_with "refs/" ref ≡ true
      → resolve_ref is_version lower (some ref) ≡ ref
  resolve_ref_fixed ref h = unfold resolve_ref resolve_version in ground (arith, h, nonempty ref h)

  pub resolve_ref_again :
      (version : Option String)
      → resolve_ref is_version lower (some (resolve_ref is_version lower version))
        ≡ resolve_ref is_version lower version
  resolve_ref_again version = resolve_ref_fixed _ (resolve_ref-refs version)
