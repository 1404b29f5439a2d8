-- ===== src/Server/Auth/Identity.antt =====
-- Where a validated identity comes from.
use anywhere_mesh.Base.{
  ℕ, ◌+◌, ◌≤◌, ◌<◌, Text, codes, find, contains, length, take, drop, starts_with, ◌≡◌, refl, ap,
  sym, ◌∙◌, Option, none, some, true, false, ◌&&◌, length-append, [], ◌∷◌, ◌++◌, arith, inl, inr,
  Bool-cases, Option-cases, find-first, ltb, drop-append, nat_beq_iff,
}
use mathlib.Core.List.{append_assoc}
use anywhere_mesh.Common.Auth.{IamAuthRequest, IamIdentity}
use anywhere_mesh.Server.Auth.{
  DefaultAuthService, StsAnswer, bad_url, unreachable, answered, open_tag, close_tag,
  extract_xml_field, is_role_allowed, judge, judge_answer, validate_with_sts, authenticate,
  accepted,
}

find_start : (part rest : Text) → find (part ++ rest) part ≡ some 0
find_start part rest = let (pos, found, early) = find-first [] part rest in ground arith

-- A text with no `c` before a text that begins with `c`.
find_clean :
    (c : ℕ) (gap part rest : Text)
    → contains c gap ≡ false
    → find (gap ++ ((c ∷ part) ++ rest)) (c ∷ part) ≡ some (length gap)
unfolding contains find starts_with
find_clean c [] part rest h = find_start (c ∷ part) rest
find_clean c (d ∷ gap) part rest h =
    ground (arith, find_clean c gap part rest, nat_beq_iff c d, nat_beq_iff d c)

-- What the service answered from: a success of the whole exchange.
pub record IsValidated (service : DefaultAuthService) (url : Text) (identity : IamIdentity)
    : Type 0 where
  pub status : ℕ
  pub body : Text
  pub answer : service.http_get url ≡ answered status body
  pub success_status : (200 ≤ status) × (status < 300)
  pub arn : extract_xml_field body (codes "Arn") ≡ some identity.arn
  pub account : extract_xml_field body (codes "Account") ≡ some identity.account_id
  pub user : extract_xml_field body (codes "UserId") ≡ some identity.user_id
  pub allowed : is_role_allowed service identity.arn ≡ true

judge-success :
    (service : DefaultAuthService) (arn account user_id : Option Text)
    → (judge service arn account user_id).success ≡ true
    → (i : IamIdentity) × (judge service arn account user_id
        ≡ accepted i.arn i.account_id i.user_id)
      × (arn ≡ some i.arn)
      × (account ≡ some i.account_id)
      × (user_id ≡ some i.user_id)
      × (is_role_allowed service i.arn ≡ true)
unfolding judge
judge-success service (some arn) (some account) (some user_id) h = (
  record {
    arn = arn;
    account_id = account;
    user_id = user_id;
    principal_type = codes "AssumedRole";
  },
  ground arith,
  refl,
  refl,
  refl,
  ground arith,
)
judge-success service (some arn) (some account) none h = absurd (ground arith)
judge-success service (some arn) none user_id h = absurd (ground arith)
judge-success service none account user_id h = absurd (ground arith)

judge_answer-success :
    (service : DefaultAuthService) (url : Text) (a : StsAnswer)
    → service.http_get url ≡ a
    → (judge_answer service a).success ≡ true
    → (i : IamIdentity) × (judge_answer service a ≡ accepted i.arn i.account_id i.user_id)
      × IsValidated service url i
unfolding judge_answer
judge_answer-success service url (bad_url e) q h = absurd (ground arith)
judge_answer-success service url (unreachable e) q h = absurd (ground arith)
judge_answer-success service url (answered status body) q h =
    elim (Bool-cases (ltb 199 status && ltb status 300)) [
      | inr e ↦ absurd (ground arith)
      | inl e ↦
          let (i, same, arn, account, user, allowed) =
            judge-success service (extract_xml_field body (codes "Arn"))
              (extract_xml_field body (codes "Account")) (extract_xml_field body (codes "UserId"))
              (rw (e, judge_answer) at h) in
          (
            i,
            rw (e, judge_answer) same,
            record {
              status = status;
              body = body;
              answer = q;
              success_status = (ground arith, ground arith);
              arn = arn;
              account = account;
              user = user;
              allowed = allowed;
            },
          )
    ]

-- A service that does not skip the validation reports success only for a request that carries a
-- presigned URL whose answer has a success status and names an allowed identity; the response then
-- names this identity.
pub authenticate-success :
    (service : DefaultAuthService) (request : IamAuthRequest)
    → service.skip_validation ≡ false
    → (authenticate service request).success ≡ true
    → (url : Text) × (i : IamIdentity) × (request.presigned_url ≡ some url)
      × (authenticate service request ≡ accepted i.arn i.account_id i.user_id)
      × IsValidated service url i
unfolding authenticate validate_with_sts
authenticate-success service request checks h = elim (Option-cases request.presigned_url) [
  | inl e ↦ absurd (ground arith)
  | inr (url, e) ↦
      let (i, same, valid) =
        judge_answer-success service url (service.http_get url) refl (ground arith) in
      (url, i, e, ground arith, valid)
]

extract_xml_field_at :
    (xml tag rest : Text) (at ends : ℕ)
    → find xml (open_tag tag) ≡ some at
    → drop (at + length (open_tag tag)) xml ≡ rest
    → find rest (close_tag tag) ≡ some ends
    → extract_xml_field xml tag ≡ some (take ends rest)
unfolding extract_xml_field
extract_xml_field_at xml tag rest at ends opened dropped closed =
    rw (opened, extract_xml_field) (rw dropped (rw closed (ap (λ t. some (take ends t)) dropped)))

take-append : (p rest : Text) → take (length p) (p ++ rest) ≡ p
take-append [] rest = refl
take-append (c ∷ p) rest = ap (λ t. c ∷ t) (take-append p rest)

drop-both : (p q rest : Text) → drop (length p + length q) (p ++ (q ++ rest)) ≡ rest
drop-both p q rest =
    ap (λ n. drop n (p ++ (q ++ rest))) (sym (length-append p q))
    ∙ ap (λ t. drop (length (p ++ q)) t) (sym (append_assoc p q rest))
    ∙ drop-append (p ++ q) rest

-- A field whose value has no `<`, in a document with no `<` before its opening tag, is extracted.
pub extract_xml_field-reads :
    (front tag value back : Text)
    → contains b'<' front ≡ false
    → contains b'<' value ≡ false
    → extract_xml_field (front ++ (open_tag tag ++ (value ++ (close_tag tag ++ back)))) tag
      ≡ some value
extract_xml_field-reads front tag value back f v =
    let opened = find_clean b'<' front (tag ++ codes ">") (value ++ (close_tag tag ++ back)) f in
    let closed = find_clean b'<' value (codes "/" ++ (tag ++ codes ">")) back v in
    extract_xml_field_at _ tag (value ++ (close_tag tag ++ back)) (length front) (length value)
      opened (drop-both front (open_tag tag) (value ++ (close_tag tag ++ back))) closed
    ∙ ap (λ t. some t) (take-append value (close_tag tag ++ back))

-- A service that does not skip the validation accepts an answer with a success status that names
-- an allowed identity, for whatever URL the request carries.
pub authenticate-accepts :
    (service : DefaultAuthService) (request : IamAuthRequest) (url : Text) (identity : IamIdentity)
    → service.skip_validation ≡ false
    → request.presigned_url ≡ some url
    → IsValidated service url identity
    → authenticate service request ≡ accepted identity.arn identity.account_id identity.user_id
unfolding authenticate validate_with_sts judge_answer judge
authenticate-accepts service request url identity checks carries v =
    let status : (ltb 199 v.status && ltb v.status 300) ≡ true =
      ground (arith, v.success_status.0, v.success_status.1) in
    rw (checks, authenticate)
      (rw carries (
        rw v.answer
          (rw (status, judge_answer) (rw (v.arn, v.account, v.user, judge) (rw v.allowed)))))
