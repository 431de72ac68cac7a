-- ===== src/Secrets/Scope.antt =====
-- Which secrets a plugin gets.
use vulpes_core.Base.{
  String, ◌≡◌, refl, true, List, [], arith, eq_iff, some, inl, inr, ok, Result-cases, Option-cases,
  Bool-cases, subst, ok-injective,
}
use vulpes_core.Base.Dict.{Dict, lookup, insert, lookup-insert, lookup-nil}
use vulpes_core.Base.Value.{
  Value, Items, Fields, null, bool, int, float, str, arr, obj, no_items, item, no_fields, entry,
}
use vulpes_core.Secrets.Defs.{
  SecretProvider, permits, is_secret_ref, trim_space, resolve_text, resolve_value, resolve_items,
  resolve_fields, resolve_plugin_secrets,
}

module _ (permitted : List String) (p : SecretProvider) where
  -- Every secret is one that the plugin may have, with the value that the provider gives for it.
  pub record Scoped (secrets : Dict String) : Type 0 where
    pub at :
        (name v : String)
        → lookup name secrets ≡ some v
        → (permits permitted name ≡ true) × (p name ≡ ok v)

  Scoped-insert :
      (name v : String) (secrets : Dict String)
      → permits permitted name ≡ true
      → p name ≡ ok v
      → Scoped secrets
      → Scoped (insert name v secrets)
  Scoped-insert name v secrets may got h = record {
    at = λ j. λ w.
        λ there. ground (arith, lookup-insert j name v secrets, eq_iff name j, h.at j w, may, got);
  }

  resolve_text-Scoped :
      (x : String) (secrets : Dict String) {out : Value × Dict String}
      → Scoped secrets
      → resolve_text permitted p x secrets ≡ ok out
      → Scoped out.1
  unfolding resolve_text
  resolve_text-Scoped x secrets {out} h done = elim (Option-cases (is_secret_ref (trim_space x))) [
    | inl e ↦ let same : secrets ≡ out.1 = ground arith in subst Scoped same h
    | inr (name, e) ↦ elim (Bool-cases (permits permitted name)) [
      | inr refused ↦ ground arith
      | inl may ↦ elim (Result-cases (p name)) [
        | inl (m, f) ↦ ground arith
        | inr (v, f) ↦
            let same : insert name v secrets ≡ out.1 = ground arith in
            subst Scoped same (Scoped-insert name v secrets may f h)
      ]
    ]
  ]

  mutual
    unfolding resolve_value

    resolve_value-Scoped :
        (x : Value) (secrets : Dict String) {out : Value × Dict String}
        → Scoped secrets
        → resolve_value permitted p x secrets ≡ ok out
        → Scoped out.1
    resolve_value-Scoped null secrets {out} h done = subst (λ r. Scoped r.1) (ok-injective done) h
    resolve_value-Scoped (bool b) secrets {out} h done =
        subst (λ r. Scoped r.1) (ok-injective done) h
    resolve_value-Scoped (int n) secrets {out} h done =
        subst (λ r. Scoped r.1) (ok-injective done) h
    resolve_value-Scoped (float n) secrets {out} h done =
        subst (λ r. Scoped r.1) (ok-injective done) h
    resolve_value-Scoped (str x) secrets {out} h done =
        resolve_text-Scoped x secrets {out = out} h done
    resolve_value-Scoped (arr xs) secrets {out} h done =
        elim (Result-cases (resolve_items permitted p xs secrets)) [
          | inl (e, bad) ↦ ground arith
          | inr (r, good) ↦
              let same : r.1 ≡ out.1 = ground arith in
              subst Scoped same (resolve_items-Scoped xs secrets {out = r} h good)
        ]
    resolve_value-Scoped (obj fs) secrets {out} h done =
        elim (Result-cases (resolve_fields permitted p fs secrets)) [
          | inl (e, bad) ↦ ground arith
          | inr (r, good) ↦
              let same : r.1 ≡ out.1 = ground arith in
              subst Scoped same (resolve_fields-Scoped fs secrets {out = r} h good)
        ]

    resolve_items-Scoped :
        (xs : Items) (secrets : Dict String) {out : Items × Dict String}
        → Scoped secrets
        → resolve_items permitted p xs secrets ≡ ok out
        → Scoped out.1
    resolve_items-Scoped no_items secrets {out} h done =
        subst (λ r. Scoped r.1) (ok-injective done) h
    resolve_items-Scoped (item x xs) secrets {out} h done =
        elim (Result-cases (resolve_value permitted p x secrets)) [
          | inl (e, bad) ↦ ground arith
          | inr (first, good) ↦ elim (Result-cases (resolve_items permitted p xs first.1)) [
            | inl (e, bad) ↦ ground arith
            | inr (rest, fine) ↦
                let same : rest.1 ≡ out.1 = ground arith in
                let k = resolve_value-Scoped x secrets {out = first} h good in
                subst Scoped same (resolve_items-Scoped xs first.1 {out = rest} k fine)
          ]
        ]

    resolve_fields-Scoped :
        (fs : Fields) (secrets : Dict String) {out : Fields × Dict String}
        → Scoped secrets
        → resolve_fields permitted p fs secrets ≡ ok out
        → Scoped out.1
    resolve_fields-Scoped no_fields secrets {out} h done =
        subst (λ r. Scoped r.1) (ok-injective done) h
    resolve_fields-Scoped (entry k x fs) secrets {out} h done =
        elim (Result-cases (resolve_value permitted p x secrets)) [
          | inl (e, bad) ↦ ground arith
          | inr (first, good) ↦ elim (Result-cases (resolve_fields permitted p fs first.1)) [
            | inl (e, bad) ↦ ground arith
            | inr (rest, fine) ↦
                let same : rest.1 ≡ out.1 = ground arith in
                let s = resolve_value-Scoped x secrets {out = first} h good in
                subst Scoped same (resolve_fields-Scoped fs first.1 {out = rest} s fine)
          ]
        ]

  -- The secrets handed to a plugin are all among those it is permitted, and each is what the
  -- provider gives for its name.
  pub resolve_plugin_secrets-Scoped :
      (config : Fields) {out : Fields × Dict String}
      → resolve_plugin_secrets permitted p config ≡ ok out
      → (name v : String) → lookup name out.1 ≡ some v
      → (permits permitted name ≡ true) × (p name ≡ ok v)
  unfolding resolve_plugin_secrets
  resolve_plugin_secrets-Scoped config {out} done =
      let nothing : Scoped [] = record {
        at = λ name. λ v. λ there. ground (arith, lookup-nil {V = String} name);
      } in
      (resolve_fields-Scoped config [] {out = out} nothing done).at

-- Both give the same for the secrets that are permitted.
abbrev pub AgreeOn : List String → SecretProvider → SecretProvider → Type 0
AgreeOn permitted p q = (name : String) → permits permitted name ≡ true → p name ≡ q name

module _ (permitted : List String) (p q : SecretProvider) (agree : AgreeOn permitted p q) where
  resolve_text_agree :
      (x : String) (secrets : Dict String)
      → resolve_text permitted p x secrets ≡ resolve_text permitted q x secrets
  unfolding resolve_text
  resolve_text_agree x secrets = elim (Option-cases (is_secret_ref (trim_space x))) [
    | inl e ↦ ground arith
    | inr (name, e) ↦ elim (Bool-cases (permits permitted name)) [
      | inr refused ↦ ground arith
      | inl may ↦ ground (arith, agree name)
    ]
  ]

  mutual
    unfolding resolve_value

    resolve_value_agree :
        (x : Value) (secrets : Dict String)
        → resolve_value permitted p x secrets ≡ resolve_value permitted q x secrets
    resolve_value_agree null secrets = refl
    resolve_value_agree (bool b) secrets = refl
    resolve_value_agree (int n) secrets = refl
    resolve_value_agree (float n) secrets = refl
    resolve_value_agree (str x) secrets = resolve_text_agree x secrets
    resolve_value_agree (arr xs) secrets = ground (arith, resolve_items_agree xs secrets)
    resolve_value_agree (obj fs) secrets = ground (arith, resolve_fields_agree fs secrets)

    resolve_items_agree :
        (xs : Items) (secrets : Dict String)
        → resolve_items permitted p xs secrets ≡ resolve_items permitted q xs secrets
    resolve_items_agree no_items secrets = refl
    resolve_items_agree (item x xs) secrets =
        elim (Result-cases (resolve_value permitted q x secrets)) [
          | inl (e, bad) ↦ ground (arith, resolve_value_agree x secrets, bad)
          | inr (first, good) ↦
              ground (arith, resolve_value_agree x secrets, good, resolve_items_agree xs first.1)
        ]

    resolve_fields_agree :
        (fs : Fields) (secrets : Dict String)
        → resolve_fields permitted p fs secrets ≡ resolve_fields permitted q fs secrets
    resolve_fields_agree no_fields secrets = refl
    resolve_fields_agree (entry k x fs) secrets =
        elim (Result-cases (resolve_value permitted q x secrets)) [
          | inl (e, bad) ↦ ground (arith, resolve_value_agree x secrets, bad)
          | inr (first, good) ↦
              ground (arith, resolve_value_agree x secrets, good, resolve_fields_agree fs first.1)
        ]

  -- What a plugin gets, the error included, depends on the secrets it is permitted and on no
  -- others: two providers that agree on those give the same outcome.
  pub resolve_plugin_secrets_agree :
      (config : Fields)
      → resolve_plugin_secrets permitted p config ≡ resolve_plugin_secrets permitted q config
  unfolding resolve_plugin_secrets
  resolve_plugin_secrets_agree config = resolve_fields_agree config []
