-- ===== src/Server/Handlers/Headers.antt =====
-- Which headers of a request reach the agent.
use anywhere_mesh.Base.{
  Text, codes, get, ℕ, insert, text_beq, get-insert, lowercase, Option, none, some, List, [], ◌∷◌,
  ◌==◌, text_eq, text_beq_iff, if◌then◌else◌, ◌≡◌, ap, ◌∙◌, arith, inl, inr, Bool-cases,
}
use anywhere_mesh.Common.Types.{Uuid, TextMap}
use anywhere_mesh.Server.Http.{HeaderValue, HttpRequest}
use anywhere_mesh.Server.Handlers.{
  is_listed, filter_headers, filter_proxy_headers, proxy_request_of,
}

-- The last readable value of a header, or `before` if there is none.
unfoldable pub last_value : Text → List (Text × HeaderValue) → Option Text → Option Text
last_value k [] before = before
last_value k ((name, none) ∷ headers) before = last_value k headers before
last_value k ((name, some value) ∷ headers) before =
    last_value k headers (if lowercase name == k then some value else before)

-- What a collected map may hold under a name.
abbrev kept : Text → Option Text → Option Text
kept k value = if is_listed k then value else none

collect_one :
    (k n value : Text) (filtered : TextMap) (before : Option Text)
    → get k filtered ≡ kept k before
    → get k (if is_listed n then insert n value filtered else filtered)
      ≡ kept k (if n == k then some value else before)
collect_one k n value filtered before h = elim (Bool-cases (text_beq n k)) [
  | inl e ↦
      let same : n ≡ k = (text_beq_iff n k).0 e in
      let listed : is_listed n ≡ is_listed k = ap is_listed same in
      ground (arith, get-insert n k value filtered)
  | inr e ↦ ground (arith, get-insert n k value filtered)
]

filter_headers_lem :
    (k : Text) (headers : List (Text × HeaderValue)) (filtered : TextMap) (before : Option Text)
    → get k filtered ≡ kept k before
    → get k (filter_headers headers filtered) ≡ kept k (last_value k headers before)
unfolding filter_headers last_value
filter_headers_lem k [] filtered before h = h
filter_headers_lem k ((name, none) ∷ headers) filtered before h =
    filter_headers_lem k headers filtered before h
filter_headers_lem k ((name, some value) ∷ headers) filtered before h =
    filter_headers_lem k headers _ _ (collect_one k (lowercase name) value filtered before h)

nothing_kept : (k : Text) → none ≡ kept k none
nothing_kept k = ground arith

-- The agent is told `https` for `x-forwarded-proto`, and of every other name the last readable value
-- if the name is on the whitelist, in lower case, and nothing else.
pub proxy_request_of-headers :
    (id : Uuid) (req : HttpRequest) (body : List ℕ) (k : Text)
    → get k (proxy_request_of id req body).headers ≡ (
        if codes "x-forwarded-proto" == k
        then some (codes "https")
        else if is_listed k
        then last_value k req.headers none
        else none)
unfolding proxy_request_of filter_proxy_headers get
proxy_request_of-headers id req body k =
    get-insert (codes "x-forwarded-proto") k (codes "https") (filter_headers req.headers [])
    ∙ ap (λ o. if codes "x-forwarded-proto" == k then some (codes "https") else o)
        (filter_headers_lem k req.headers [] none (nothing_kept k))
