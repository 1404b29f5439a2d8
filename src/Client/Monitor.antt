-- ===== src/Client/Monitor.antt =====
-- mesh/src/client/client_impl.rs: the task that watches the ingress for a new instance. If its URL
-- cannot be parsed, the task panics before its first request.
use anywhere_mesh.Base.{
  Text, text_eq, ◌==◌, Option, none, some, Bool, true, false, List, [], ◌∷◌, ◌≡◌, ◌≢◌, ◌↔◌, refl,
  sym, ◌∙◌, arith, Member, inl, inr, Bool-cases, Option-cases, ℕ, if◌then◌else◌, ==→eq,
}

-- What a request of the health page comes to: no answer, a body that breaks off, or a body.
pub data Poll : Type 0 where
  failed broken_body : Poll
  answered : List ℕ → Poll

-- `instance_id` is serde_json's parser and the lookup of the text under "instance_id".
module _ (instance_id : List ℕ → Option Text) where
  unfoldable pub instance_of : Poll → Option Text
  instance_of failed = none
  instance_of broken_body = none
  instance_of (answered body) = instance_id body

  -- Whether the task signals a reconnect.
  unfoldable pub watch : Option Text → List Poll → Bool
  unfolding instance_of
  watch last [] = false
  watch last (p ∷ ps) = elim (instance_of p) [
    | none ↦ watch last ps
    | some id ↦ elim last [
      | none ↦ watch (some id) ps
      | some prev ↦ let rest = watch (some prev) ps in if prev == id then rest else true
    ]
  ]

  -- The instances that the answers name.
  unfoldable pub instances : List Poll → List Text
  unfolding instance_of
  instances [] = []
  instances (p ∷ ps) = elim (instance_of p) [ none ↦ instances ps | some id ↦ id ∷ instances ps ]

  instances-none :
      (p : Poll) (ps : List Poll) → instance_of p ≡ none → instances (p ∷ ps) ≡ instances ps
  unfolding instances
  instances-none p ps e = rw (e, instances) refl

  instances-some :
      (p : Poll) (ps : List Poll) (id : Text)
      → instance_of p ≡ some id
      → instances (p ∷ ps) ≡ id ∷ instances ps
  unfolding instances
  instances-some p ps id e = rw (e, instances) refl

  other_named :
      (x : Text) (ps : List Poll)
      → watch (some x) ps ≡ true
      → (b : Text) × Member b (instances ps) × (x ≢ b)
  unfolding watch
  other_named x [] h = absurd (ground arith)
  other_named x (p ∷ ps) h = elim (Option-cases (instance_of p)) [
    | inl e ↦ rw (instances-none p ps e) (other_named x ps (rw (e, watch) at h))
    | inr (id, e) ↦ elim (Bool-cases (x == id)) [
      | inl same ↦
          let (b, m, other) = other_named x ps (rw same at (rw (e, watch) at h)) in
          rw (instances-some p ps id e) (b, inr m, other)
      | inr differs ↦
          rw (instances-some p ps id e) (id, inl refl, λ same. ground (arith, text_eq.eq_iff x id))
    ]
  ]

  other_seen :
      (x b : Text) (ps : List Poll) → Member b (instances ps) → x ≢ b → watch (some x) ps ≡ true
  unfolding watch instances
  other_seen x b [] m other = absurd m
  other_seen x b (p ∷ ps) m other = elim (Option-cases (instance_of p)) [
    | inl e ↦ rw (e, watch) (other_seen x b ps (rw (instances-none p ps e) at m) other)
    | inr (id, e) ↦
        let m' = rw (instances-some p ps id e) at m in
        rw (e, watch) (ground (arith, text_eq.eq_iff x id, other_seen x b ps, m'))
  ]

  -- Two of the answers name different instances.
  abbrev pub HasChanged : List Poll → Type 0
  HasChanged ps =
      (a : Text) × (b : Text) × Member a (instances ps) × Member b (instances ps) × (a ≢ b)

  watch-HasChanged : (ps : List Poll) → watch none ps ≡ true → HasChanged ps
  unfolding watch
  watch-HasChanged [] h = absurd (ground arith)
  watch-HasChanged (p ∷ ps) h = elim (Option-cases (instance_of p)) [
    | inl e ↦ rw (instances-none p ps e) (watch-HasChanged ps (rw (e, watch) at h))
    | inr (id, e) ↦
        let (b, m, other) = other_named id ps (rw (e, watch) at h) in
        rw (instances-some p ps id e) (id, b, inl refl, inr m, other)
  ]

  other_than :
      (id a b : Text) (ps : List Poll)
      → Member a (id ∷ instances ps)
      → Member b (id ∷ instances ps)
      → a ≢ b
      → watch (some id) ps ≡ true
  other_than id a b ps (inl ea) (inl eb) other = absurd (other (ea ∙ sym eb))
  other_than id a b ps (inl ea) (inr mb) other = other_seen id b ps mb (rw ea at other)
  other_than id a b ps (inr ma) mb other = elim (Bool-cases (id == a)) [
    | inl same ↦ second mb (==→eq id a same)
    | inr differs ↦ other_seen id a ps ma (λ same. ground (arith, text_eq.eq_iff id a))
  ]
    where
      second : Member b (id ∷ instances ps) → id ≡ a → watch (some id) ps ≡ true
      second (inl eb) same = absurd (other (sym same ∙ sym eb))
      second (inr mb') same = other_seen id b ps mb' (λ e. other (sym same ∙ e))

  HasChanged-watch : (ps : List Poll) → HasChanged ps → watch none ps ≡ true
  unfolding watch instances
  HasChanged-watch [] (a, b, ma, mb, other) = absurd ma
  HasChanged-watch (p ∷ ps) (a, b, ma, mb, other) = elim (Option-cases (instance_of p)) [
    | inl e ↦
        rw (e, watch)
          (HasChanged-watch ps
            (a, b, rw (instances-none p ps e) at ma, rw (instances-none p ps e) at mb, other))
    | inr (id, e) ↦
        rw (e, watch)
          (other_than id a b ps (rw (instances-some p ps id e) at ma)
            (rw (instances-some p ps id e) at mb) other)
  ]

  -- The task signals a reconnect exactly when two of the answers name different instances.
  pub watch_iff : (ps : List Poll) → (watch none ps ≡ true) ↔ HasChanged ps
  watch_iff ps = (watch-HasChanged ps, HasChanged-watch ps)
