-- ===== src/ControlPlane/Jenkins/Crumb.antt =====
-- The requests of `_post_with_crumb` of control_plane/clients/jenkins.py.
use jenkins_qemu_provisioner.Prelude.{
  String, ◌≡◌, ◌↔◌, refl, sym, subst, ap, ◌∙◌, List, [], ◌∷◌, Dict, concat, arith, nat_eq,
  string_eq,
}
use jenkins_qemu_provisioner.Json.{Json}
use jenkins_qemu_provisioner.ControlPlane.World.{Exn, Result, ok, raised}
use jenkins_qemu_provisioner.ControlPlane.Jenkins.{
  Request, Response, Exchange, send_request, required_key, crumb_headers, pure, ◌>>=◌, fetch_crumb,
  post_with_crumb, payload_of,
}

-- No request is made.
IsSilent : {A : Type 0} → Exchange A → Type 0
IsSilent m = (past : List Request) → (m past).1 ≡ past

module _ {A B : Type 0} where
  bind_silent :
      (f : A → Exchange B) (p : Result A × List Request)
      → ((a : A) → IsSilent (f a))
      → (elim p.0 as (λ _. Result B × List Request) [
        | ok a ↦ f a p.1
        | raised e ↦ (raised e, p.1)
      ]).1
        ≡ p.1
  unfolding IsSilent
  bind_silent f (ok a, past) h = h a past
  bind_silent f (raised e, past) h = refl

  bind-IsSilent :
      (m : Exchange A) (f : A → Exchange B)
      → IsSilent m
      → ((a : A) → IsSilent (f a))
      → IsSilent (m >>= f)
  unfolding IsSilent
  bind-IsSilent m f h k past = bind_silent f (m past) k ∙ h past

payload_of-IsSilent : (r : Response) → IsSilent (payload_of r)
unfolding IsSilent
payload_of-IsSilent r past = ground arith

required_key-IsSilent :
    (key message : String) (d : Dict Json) → IsSilent (required_key key message d)
unfolding IsSilent
required_key-IsSilent key message d past = ground arith

-- The headers for what `_fetch_crumb` comes to: the crumb under its field, or none.
abbrev pub headers_for : Result (String × String) → Dict String
headers_for (ok (field, crumb)) = (field, crumb) ∷ []
headers_for (raised e) = []

caught :
    (p : Result (String × String) × List Request)
    → let q = elim p.0 as (λ _. Result (Dict String) × List Request) [
      | ok crumb ↦ (ok (crumb ∷ []), p.1)
      | raised e ↦ (raised e, p.1)
    ] in
      elim q.0 as (λ _. Result (Dict String) × List Request) [
        | ok a ↦ (ok a, q.1)
        | raised e ↦ (ok [], q.1)
      ]
      ≡ (ok (headers_for p.0), p.1)
caught (ok (field, crumb), past) = refl
caught (raised e, past) = refl

-- The request of `_fetch_crumb`.
abbrev pub crumb_request : String → Request
crumb_request base_url = record {
  method = "GET";
  url = concat (base_url ∷ "/crumbIssuer/api/json" ∷ []);
  headers = [];
  form = [];
}

module _ (strip : String → String) (send : List Request → Request → Result Response)
    (base_url : String) where
  abbrev crumb_value : Dict Json → String → Exchange (String × String)
  crumb_value payload field =
      required_key "crumb" "jenkins crumb value missing" payload >>= λ value. pure (field, value)

  abbrev crumb_of : Dict Json → Exchange (String × String)
  crumb_of payload =
      required_key "crumbRequestField" "jenkins crumb request field missing" payload
      >>= crumb_value payload

  abbrev read_crumb : Response → Exchange (String × String)
  read_crumb response = payload_of response >>= crumb_of

  crumb_value-IsSilent :
      (payload : Dict Json) (field : String) → IsSilent (crumb_value payload field)
  unfolding IsSilent
  crumb_value-IsSilent payload field =
      bind-IsSilent (required_key "crumb" "jenkins crumb value missing" payload)
        (λ value. pure (field, value))
        (required_key-IsSilent "crumb" "jenkins crumb value missing" payload) (λ _ past. refl)

  crumb_of-IsSilent : (payload : Dict Json) → IsSilent (crumb_of payload)
  crumb_of-IsSilent payload =
      bind-IsSilent (required_key "crumbRequestField" "jenkins crumb request field missing" payload)
        (crumb_value payload)
        (required_key-IsSilent "crumbRequestField" "jenkins crumb request field missing" payload)
        (crumb_value-IsSilent payload)

  fetched :
      (past : List Request)
      → (fetch_crumb strip send base_url past).1 ≡ crumb_request base_url ∷ past
  unfolding fetch_crumb IsSilent
  fetched past =
      bind_silent read_crumb (send past (crumb_request base_url), crumb_request base_url ∷ past)
        (λ response.
          bind-IsSilent (payload_of response) crumb_of (payload_of-IsSilent response)
            crumb_of-IsSilent)

  headed :
      (past : List Request)
      → crumb_headers strip send base_url past
        ≡ (ok (headers_for (fetch_crumb strip send base_url past).0), crumb_request base_url ∷ past)
  unfolding crumb_headers
  headed past =
      caught (fetch_crumb strip send base_url past)
      ∙ ap (λ x. (ok (headers_for (fetch_crumb strip send base_url past).0), x)) (fetched past)

  abbrev post_with : String → Dict String → Dict String → Exchange (Unit {0})
  post_with url form headers =
      send_request strip send base_url "POST" url headers form >>= λ _. pure tt

  abbrev post_from :
      String → Dict String → Result (Dict String) × List Request → Result (Unit {0}) × List Request
  post_from url form p = elim p.0 as (λ _. Result (Unit {0}) × List Request) [
    | ok headers ↦ post_with url form headers p.1
    | raised e ↦ (raised e, p.1)
  ]

  -- The request is sent, and what it raises is raised.
  IsPosted :
      String → Dict String → Dict String → List Request → Result (Unit {0}) × List Request → Type 0
  IsPosted url form headers past p =
      let sent : Request = record { method = "POST"; url = url; headers = headers; form = form } in
      (p.1 ≡ sent ∷ past) × ((e : Exn) → (p.0 ≡ raised e) ↔ (send past sent ≡ raised e))

  post_with-IsPosted :
      (url : String) (form headers : Dict String) (past : List Request)
      → IsPosted url form headers past (post_with url form headers past)
  unfolding IsPosted
  post_with-IsPosted url form headers past = (ground arith, λ e. ground arith)

  -- A request that changes Jenkins is passed on once, with the crumb. `_post_with_crumb` first calls
  -- `request_with_retry` once for the crumb. Then it calls it once for the request with its form, with
  -- the crumb under its field as the only header if `_fetch_crumb` returns them, and with none if it
  -- raises; and it raises exactly what that call raises.
  pub post_with_crumb_once :
      (url : String) (form : Dict String) (past : List Request)
      → let (r, now) = post_with_crumb strip send base_url url form past in
        let sent : Request = record {
          method = "POST";
          url = url;
          headers = headers_for (fetch_crumb strip send base_url past).0;
          form = form;
        } in
        (now ≡ sent ∷ crumb_request base_url ∷ past)
        × ((e : Exn) → (r ≡ raised e) ↔ (send (crumb_request base_url ∷ past) sent ≡ raised e))
  unfolding post_with_crumb IsPosted
  post_with_crumb_once url form past =
      let headers = headers_for (fetch_crumb strip send base_url past).0 in
      subst (λ p. IsPosted url form headers (crumb_request base_url ∷ past) (post_from url form p))
        (sym (headed past)) (post_with-IsPosted url form headers (crumb_request base_url ∷ past))
