-- ===== src/Common/Routing/Hosts.antt =====
-- What a matched host means.
use anywhere_mesh.Base.{
  Text, ends_with→append, ends_with-append, ◌≡◌, ◌⊎◌, inl, inr, none, some, Bool, true, false, ap,
  nat_beq_iff, ◌≢◌, List, [], ◌∷◌, ◌++◌, arith, nat_beq, ◌==◌, text_eq, Bool-cases, Option-cases,
  find_first, find_first-some, find_first-none, Member, All, text_beq_iff,
}
use anywhere_mesh.Common.Types.{ServiceRegistration}
use anywhere_mesh.Common.Routing.{wildcard_matches, match_host_to_service}

-- The pattern is a star and a suffix of the host.
abbrev pub IsWildcardFor : Text → Text → Type 0
IsWildcardFor host pattern =
    (front suffix : Text) × (pattern ≡ b'*' ∷ suffix) × (host ≡ front ++ suffix)

-- A registration names the host, or a wildcard for it.
abbrev pub Serves : Text → ServiceRegistration → Type 0
Serves host r = (r.host ≡ host) ⊎ IsWildcardFor host r.host

pub wildcard_matches→ :
    (host pattern : Text) → wildcard_matches host pattern ≡ true → IsWildcardFor host pattern
unfolding wildcard_matches
wildcard_matches→ host [] h = cc
wildcard_matches→ host (c ∷ pattern) h = elim (Bool-cases (nat_beq c b'*')) [
  | inl e ↦
      let (front, split) = ends_with→append host pattern (rw e at h) in
      (front, pattern, ap (λ k. k ∷ pattern) ((nat_beq_iff c b'*').0 e), split)
  | inr e ↦ cc (rw e at h)
]

pub →wildcard_matches :
    (host pattern : Text) → IsWildcardFor host pattern → wildcard_matches host pattern ≡ true
unfolding wildcard_matches
→wildcard_matches host pattern (front, suffix, p, e) = rw (p, e) (ends_with-append front suffix)

All-map :
    {P Q : ServiceRegistration → Type 0} (regs : List ServiceRegistration)
    → ((r : ServiceRegistration) → P r → Q r)
    → All P regs
    → All Q regs
All-map [] f h = tt
All-map (r ∷ regs) f h = (f r h.0, All-map regs f h.1)

All-both :
    {P Q R : ServiceRegistration → Type 0} (regs : List ServiceRegistration)
    → ((r : ServiceRegistration) → P r → Q r → R r)
    → All P regs
    → All Q regs
    → All R regs
All-both [] f h k = tt
All-both (r ∷ regs) f h k = (f r h.0 k.0, All-both regs f h.1 k.1)

not_exact : (host : Text) (r : ServiceRegistration) → (r.host == host) ≡ false → r.host ≢ host
not_exact host r h e = cc ((text_beq_iff r.host host).1 e)

not_wildcard :
    (host : Text) (r : ServiceRegistration)
    → wildcard_matches host r.host ≡ false
    → ¬ IsWildcardFor host r.host
not_wildcard host r h w = cc (→wildcard_matches host r.host w)

module _ (host : Text) (regs : List ServiceRegistration) where
  abbrev exact : ServiceRegistration → Bool
  exact r = r.host == host

  abbrev wild : ServiceRegistration → Bool
  wild r = wildcard_matches host r.host

  -- A matched registration is one of the list and serves the host, by its name or by a wildcard;
  -- a wildcard is taken only if no registration of the list has the host itself.
  pub match_host_to_service-Serves :
      (r : ServiceRegistration)
      → match_host_to_service host regs ≡ some r
      → Member r regs × Serves host r × ((r.host ≡ host) ⊎ All (λ q. q.host ≢ host) regs)
  unfolding match_host_to_service
  match_host_to_service-Serves r h = elim (Option-cases (find_first exact regs)) [
    | inl missed ↦
        let (passes, among) =
          find_first-some wild regs r (rw (missed, match_host_to_service) at h) in
        (
          among,
          inr (wildcard_matches→ host r.host passes),
          inr (All-map regs (not_exact host) (find_first-none exact regs missed)),
        )
    | inr (q, found) ↦
        let same : q ≡ r = ground arith in
        let (passes, among) = find_first-some exact regs r (ground arith) in
        let named : r.host ≡ host = (text_beq_iff r.host host).0 passes in
        (among, inl named, inl named)
  ]

  -- No answer means that no registration of the list serves the host.
  pub match_host_to_service-none :
      match_host_to_service host regs ≡ none → All (λ q. ¬ Serves host q) regs
  unfolding match_host_to_service
  match_host_to_service-none h = elim (Option-cases (find_first exact regs)) [
    | inl missed ↦
        All-both regs (λ r. neither r) (find_first-none exact regs missed)
          (find_first-none wild regs (rw (missed, match_host_to_service) at h))
    | inr (q, found) ↦ absurd (ground arith)
  ]
    where
      neither :
          (r : ServiceRegistration)
          → (r.host == host) ≡ false
          → wildcard_matches host r.host ≡ false
          → ¬ Serves host r
      neither r e w (inl named) = not_exact host r e named
      neither r e w (inr wildcard) = not_wildcard host r w wildcard
