-- ===== src/Server/Router/Cache.antt =====
-- The host cache, and what a lookup finds.
use anywhere_mesh.Base.{
  ◌+◌, ◌-◌, ◌<◌, ◌≡◌, ◌≢◌, ◌⊎◌, ◌≤◌, All, ◌↔◌, Text, HashMap, get-insert_self, values, none, some,
  List, [], ◌∷◌, text_eq, text_beq_iff, arith, inl, inr, Option-cases, filter, filter→member,
  member→filter, Member, Bool, ◌==◌, ◌++◌, refl, sym, ◌∙◌, find_first, find_first-exists,
  find_first-some, true, lt→ltb,
}
use anywhere_mesh.Common.Types.{Uuid, SystemTime, ServiceRegistration, ConnectionInfo}
use anywhere_mesh.Common.Routing.{is_healthy, match_host_to_service, select_healthy_instance}
use anywhere_mesh.Common.Routing.Hosts.{
  IsWildcardFor, Serves, match_host_to_service-Serves, match_host_to_service-none,
}
use anywhere_mesh.Common.Routing.Health.{IsAlive, IsAlive→is_healthy}
use anywhere_mesh.Server.Error.{ok}
use anywhere_mesh.Server.Registry.{Registry}
use anywhere_mesh.Server.Router.{DefaultRouter, cache_hit, cache_fresh, serves_alone, put_cache}
use anywhere_mesh.Server.Router.Route.{find_matching_services}

the_one :
    (host : Text) (g q : ServiceRegistration)
    → Member q (g ∷ []) × Serves host q × ((q.host ≡ host) ⊎ All (λ p. p.host ≢ host) (g ∷ []))
    → Serves host g
the_one host g q (inl same, w, _) = rw same at w
the_one host g q (inr no_more, w, _) = absurd no_more

pub serves_alone-Serves :
    (host : Text) (g : ServiceRegistration) → serves_alone host g ≡ true → Serves host g
unfolding serves_alone
serves_alone-Serves host g h = elim (Option-cases (match_host_to_service host (g ∷ []))) [
  | inl e ↦ cc (rw (e, serves_alone) at h)
  | inr (q, e) ↦ the_one host g q (match_host_to_service-Serves host (g ∷ []) q e)
]

pub Serves→serves_alone :
    (host : Text) (g : ServiceRegistration) → Serves host g → serves_alone host g ≡ true
unfolding serves_alone
Serves→serves_alone host g w = elim (Option-cases (match_host_to_service host (g ∷ []))) [
  | inl e ↦ absurd ((match_host_to_service-none host (g ∷ []) e).0 w)
  | inr (q, e) ↦ rw (e, serves_alone)
]

hit-put_cache :
    (later stored : SystemTime) (host : Text) (found : List ServiceRegistration) (r : DefaultRouter)
    → stored ≤ later
    → later < stored + r.cache_ttl
    → cache_hit later host (put_cache host found stored r) ≡ some found
unfolding cache_hit cache_fresh put_cache
hit-put_cache later stored host found r p h =
    rw
      (
        get-insert_self host (record { services = found; timestamp = stored }) r.host_service_cache,
        cache_hit,
      )
      (rw (lt→ltb (later - stored) r.cache_ttl (omega arith)))

module _ {S : Type 0} (registry : Registry S) where
  -- A lookup that misses the cache finds exactly the registrations that serve the host by their
  -- name or by a wildcard, and changes nothing of the router but its cache.
  pub find_matching_services-Serves :
      (asked stored : SystemTime) (host : Text) (s : S) (r : DefaultRouter)
      (registrations : HashMap Uuid ServiceRegistration)
      → cache_hit asked host r ≡ none
      → registry.get_all_registrations s ≡ ok registrations
      → (found : List ServiceRegistration) × (find_matching_services registry asked stored host s r
          ≡ (put_cache host found stored r, ok found))
        × ((g : ServiceRegistration)
            → Member g found ↔ (Member g (values registrations) × Serves host g))
  unfolding find_matching_services
  find_matching_services-Serves asked stored host s r registrations missed read = (
    filter (serves_alone host) (values registrations),
    rw (missed, read, find_matching_services),
    λ g. (
      (λ m.
          let (among, passes) = filter→member (serves_alone host) (values registrations) g m in
          (among, serves_alone-Serves host g passes)),
      λ (among, w).
          member→filter (serves_alone host) (values registrations) g among
            (Serves→serves_alone host g w),
    ),
  )

  pub find_hit :
      (asked stored : SystemTime) (host : Text) (s : S) (r : DefaultRouter)
      (services : List ServiceRegistration)
      → cache_hit asked host r ≡ some services
      → find_matching_services registry asked stored host s r ≡ (r, ok services)
  unfolding find_matching_services
  find_hit asked stored host s r services hit = rw (hit, find_matching_services)

  -- A lookup that missed the cache decides the lookups of the same host until the TTL has passed:
  -- they answer the same services, none included, whatever the registry then holds.
  pub find_matching_services_cached :
      (asked stored : SystemTime) (host : Text) (s : S) (r : DefaultRouter)
      (registrations : HashMap Uuid ServiceRegistration)
      → cache_hit asked host r ≡ none
      → registry.get_all_registrations s ≡ ok registrations
      → (later stored' : SystemTime) (s' : S) → stored ≤ later
      → later < stored + r.cache_ttl
      → let first = find_matching_services registry asked stored host s r in
        find_matching_services registry later stored' host s' first.0 ≡ first
  find_matching_services_cached asked stored host s r registrations missed read later stored' s' p
        h =
      let (found, first, _) =
        find_matching_services-Serves asked stored host s r registrations missed read in
      rw first (
        find_hit later stored' host s' (put_cache host found stored r) found
          (hit-put_cache later stored host found r p h))

first_behind :
    (p q : ServiceRegistration → Bool) (w : ServiceRegistration)
    (before rest : List ServiceRegistration)
    → find_first p (filter q before) ≡ none
    → q w ≡ true
    → p w ≡ true
    → find_first p (filter q (before ++ (w ∷ rest))) ≡ some w
first_behind p q w [] rest h hq hp = ground arith
first_behind p q w (g ∷ before) rest h hq hp = ground (arith, first_behind p q w before rest)

-- With a live wildcard registration for the host behind registrations of which the router would
-- choose none, the router's filter and selection choose the wildcard, wherever among the
-- registrations one of the very host is, although `match_host_to_service` chooses one of the very
-- host.
pub wildcard_shadows_exact :
    (now : SystemTime) (host : Text) (w e : ServiceRegistration)
    (before rest : List ServiceRegistration) (connections : HashMap Uuid ConnectionInfo)
    → IsWildcardFor host w.host
    → w.host ≢ host
    → e.host ≡ host
    → Member e (before ++ (w ∷ rest))
    → IsAlive now connections w
    → select_healthy_instance now (filter (serves_alone host) before) connections ≡ none
    → (select_healthy_instance now (filter (serves_alone host) (before ++ (w ∷ rest))) connections
        ≡ some w)
      × ((q : ServiceRegistration) × (match_host_to_service host (before ++ (w ∷ rest)) ≡ some q)
          × (q.host ≡ host)
          × (q.host ≢ w.host))
unfolding select_healthy_instance match_host_to_service
wildcard_shadows_exact now host w e before rest connections wild differs exact among alive passed =
    let of_host : ServiceRegistration → Bool = λ r. r.host == host in
    let (q, found) =
      find_first-exists of_host (before ++ (w ∷ rest)) e among
        ((text_beq_iff e.host host).1 exact) in
    let (passes, _) = find_first-some of_host (before ++ (w ∷ rest)) q found in
    (
      first_behind (is_healthy now connections) (serves_alone host) w before rest passed
          (Serves→serves_alone host w (inr wild)) (IsAlive→is_healthy now connections w alive),
      (
        q,
        rw (found, match_host_to_service) refl,
        (text_beq_iff q.host host).0 passes,
        λ same. differs (sym same ∙ (text_beq_iff q.host host).0 passes),
      ),
    )
