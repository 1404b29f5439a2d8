-- ===== src/TestApp/Environment.antt =====
-- test-app/src/main.rs: which variables of its environment the sample service shows.
use anywhere_mesh.Base.{
  Text, get, insert, filter, any, find, find-first, find→split, take, drop, length, ◌+◌, Member,
  Option, none, some, Bool, true, false, not, List, [], ◌∷◌, ◌++◌, ◌≡◌, ◌∙◌, ◌↔◌, refl, inl, inr,
  arith, Bool-cases, Option-cases, if◌then◌else◌, ◌==◌, text_eq, get-insert, ==_refl, ==→eq,
}
use anywhere_mesh.Common.Types.{TextMap}
use anywhere_mesh.TestApp.{
  AppState, info, environment, Host, sensitive_keywords, contains_text, is_sensitive, collect_into,
  get_filtered_environment,
}
use anywhere_mesh.TestApp.Pages.{json, Sleep}
use anywhere_mesh.TestApp.Routes.{
  Handler, get_index, get_health, get_info, get_echo, get_time, get_headers, get_environment,
  get_stress, get_websocket, AppRequest, Matched, Matched-cases, routes, matched, Outcome, page,
  Axum, call, app,
}

contains_text→append :
    (s p : Text) → contains_text s p ≡ true → (front rest : Text) × (s ≡ front ++ (p ++ rest))
unfolding contains_text
contains_text→append s p h = elim (Option-cases (find s p)) [
  | inl e ↦ cc (rw (e, contains_text) at h)
  | inr (i, e) ↦ (take i s, drop (i + length p) s, find→split s p i e)
]

contains_text-append : (front p rest : Text) → contains_text (front ++ (p ++ rest)) p ≡ true
unfolding contains_text
contains_text-append front p rest = let (i, e, _) = find-first front p rest in rw (e, contains_text)

any→member :
    (p : Text → Bool) (xs : List Text) → any p xs ≡ true → (x : Text) × Member x xs × (p x ≡ true)
any→member p [] h = cc
any→member p (x ∷ xs) h = elim (Bool-cases (p x)) [
  | inl e ↦ (x, inl refl, e)
  | inr e ↦ let (y, m, py) = any→member p xs (rw e at h) in (y, inr m, py)
]

member→any :
    (p : Text → Bool) (xs : List Text) (x : Text) → Member x xs → p x ≡ true → any p xs ≡ true
member→any p [] x m h = absurd m
member→any p (y ∷ xs) x (inl same) h = ground arith
member→any p (y ∷ xs) x (inr m) h = ground (arith, member→any p xs x m h)

-- The value of the last pair with a name.
abbrev pub last_of : Text → List (Text × Text) → Option Text
last_of k [] = none
last_of k ((j, v) ∷ pairs) = elim (last_of k pairs) [
  | some w ↦ some w
  | none ↦ if j == k then some v else none
]

get-collect_into :
    (k : Text) (m : TextMap) (pairs : List (Text × Text))
    → get k (collect_into m pairs) ≡ (elim (last_of k pairs) [ some w ↦ some w | none ↦ get k m ])
unfolding collect_into
get-collect_into k m [] = refl
get-collect_into k m ((j, v) ∷ pairs) =
    ground (arith, get-collect_into k (insert j v m) pairs, get-insert j k v m)

module _ (host : Host) where
  -- The name of a variable, in upper case, has one of the keywords in it.
  abbrev pub IsSensitive : Text → Type 0
  IsSensitive k =
      (keyword front rest : Text) × Member keyword sensitive_keywords
      × (host.to_uppercase k ≡ front ++ (keyword ++ rest))

  is_sensitive→IsSensitive : (k : Text) → is_sensitive host k ≡ true → IsSensitive k
  unfolding is_sensitive
  is_sensitive→IsSensitive k h =
      let (w, m, found) = any→member (contains_text (host.to_uppercase k)) sensitive_keywords h in
      let (front, rest, e) = contains_text→append (host.to_uppercase k) w found in
      (w, front, rest, m, e)

  IsSensitive→is_sensitive : (k : Text) → IsSensitive k → is_sensitive host k ≡ true
  unfolding is_sensitive
  IsSensitive→is_sensitive k (w, front, rest, m, e) =
      member→any (contains_text (host.to_uppercase k)) sensitive_keywords w m
        (rw e (contains_text-append front w rest))

  last_of-filter :
      (k : Text) (vars : List (Text × Text))
      → last_of k (filter (λ (j, v). not (is_sensitive host j)) vars)
        ≡ (if is_sensitive host k then none else last_of k vars)
  last_of-filter k [] = ground arith
  last_of-filter k ((j, v) ∷ vars) = elim (Bool-cases (j == k)) [
    | inl same ↦
        let e : j ≡ k = ==→eq j k same in rw e (ground (arith, last_of-filter k vars, ==_refl k))
    | inr other ↦ ground (arith, last_of-filter k vars)
  ]

  get_filtered_environment_lem :
      (k : Text)
      → get k (get_filtered_environment host)
        ≡ (if is_sensitive host k then none else last_of k host.vars)
  unfolding get_filtered_environment get
  get_filtered_environment_lem k = ground (
    arith,
    last_of-filter k host.vars,
    get-collect_into k [] (filter (λ (p : Text × Text). not (is_sensitive host p.0)) host.vars),
  )

  shown : (k : Text) → ¬ IsSensitive k → get k (get_filtered_environment host) ≡ last_of k host.vars
  shown k open_name = elim (Bool-cases (is_sensitive host k)) [
    | inl e ↦ absurd (open_name (is_sensitive→IsSensitive k e))
    | inr e ↦ rw (get_filtered_environment_lem k) (rw e)
  ]

-- The variables that an answer shows.
abbrev pub environment_of : Outcome → TextMap
environment_of (page (json status (info i))) = i.environment
environment_of (page (json status (environment e))) = e.environment
environment_of _ = []

-- Whether a handler shows the variables.
abbrev pub shows_environment : Handler → Bool
shows_environment get_info = true
shows_environment get_environment = true
shows_environment _ = false

abbrev pub shows : Matched → Bool
shows (matched h captured) = shows_environment h
shows _ = false

module _ (axum : Axum) (sleep : Sleep) (state : AppState) (req : AppRequest)
    (host later : Host) where
  call-environment :
      (h : Handler) (captured : List Text) (k : Text)
      → get k (environment_of (call axum sleep state h captured req host later))
        ≡ (if shows_environment h then get k (get_filtered_environment host) else none)
  unfolding call get
  call-environment get_index captured k = ground arith
  call-environment get_health captured k = refl
  call-environment get_info captured k = refl
  call-environment get_echo captured k = ground arith
  call-environment get_time captured k = refl
  call-environment get_headers captured k = refl
  call-environment get_environment captured k = refl
  call-environment get_stress captured k = ground arith
  call-environment get_websocket captured k = ground arith

  only :
      (h : Handler) (captured : List Text) (k v : Text)
      → get k (environment_of (call axum sleep state h captured req host later)) ≡ some v
      → (shows_environment h ≡ true) × (last_of k host.vars ≡ some v) × (¬ IsSensitive host k)
  only h captured k v found = elim (Bool-cases (is_sensitive host k)) [
    | inl e ↦ ground (arith, e, call-environment h captured k, get_filtered_environment_lem host k)
    | inr e ↦ (
      ground (arith, call-environment h captured k),
      ground (arith, e, call-environment h captured k, get_filtered_environment_lem host k),
      λ s. ground (arith, e, IsSensitive→is_sensitive host k s),
    )
  ]

  shows_all :
      (h : Handler) (captured : List Text) (k : Text)
      → shows_environment h ≡ true
      → ¬ IsSensitive host k
      → get k (environment_of (call axum sleep state h captured req host later))
        ≡ last_of k host.vars
  shows_all h captured k shows open_name =
      rw (call-environment h captured k) (rw shows (shown host k open_name))

  abbrev found : Matched
  found = axum.match_route routes req.method req.path

  -- Whatever the request is, an answer shows a variable exactly if the router finds the handler of
  -- /api/info or of /api/environment, the variable is the last one of its name, and the name in
  -- upper case has none of the five keywords in it.
  pub app-shows_iff :
      (k v : Text)
      → (get k (environment_of (app axum sleep state req host later)) ≡ some v)
        ↔ ((shows found ≡ true) × (last_of k host.vars ≡ some v) × (¬ IsSensitive host k))
  unfolding app get
  app-shows_iff k v = elim (Matched-cases found) [
    | inl (h, captured, e) ↦
        rw (e, app)
          (
            λ some_v. only h captured k v some_v,
            λ (shows_it, last, open_name). shows_all h captured k shows_it open_name ∙ last,
          )
    | inr (inl e) ↦ rw (e, app) (λ h. cc, λ h. cc (h.0))
    | inr (inr e) ↦ rw (e, app) (λ h. cc, λ h. cc (h.0))
  ]
