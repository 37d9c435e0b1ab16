-- ===== src/ControlPlane/Jenkins.antt =====
-- The Jenkins client of control_plane/clients/jenkins.py: its requests, and what it reads of the
-- answers. What `request_with_retry` comes to, a response or an exception, is a parameter, which may
-- depend on the requests before; so is Python's `str.strip`. JSON that is not an object, where the
-- source reads a key of it, raises.
pub mod Texts
pub mod Queue
pub mod Crumb
pub mod Laws
use jenkins_qemu_provisioner.Prelude.{
  ℕ, String, Bool, true, false, not, ◌&&◌, ◌++◌, Option, none, some, List, [], ◌∷◌, Dict, lookup,
  concat, truthy, ◌==◌, nat_eq, string_eq, if◌then◌else◌,
}
use jenkins_qemu_provisioner.Json.{
  Json, null, bool, num, real, str, arr, obj, to_list, to_dict, fields,
}
use jenkins_qemu_provisioner.ControlPlane.World.{
  RequestFailure, Exn, request_failure, error, Result, ok, raised, QueueSnapshot, NodeRuntimeStatus,
}
use jenkins_qemu_provisioner.ControlPlane.Jenkins.Texts.{
  text_key, dict_of, is_true, is_false, without_query, ends_with_slash, after_first, before_first,
}
use jenkins_qemu_provisioner.ControlPlane.Jenkins.Queue.{snapshot_of}

-- A request, with the headers and the form that are given for it.
pub record Request : Type 0 where
  pub method : String
  pub url : String
  pub headers : Dict String
  pub form : Dict String

-- A response: its text, and its JSON, where the text is JSON.
pub record Response : Type 0 where
  pub text : String
  pub json : Option Json

-- An action of the client, with the requests so far, newest first.
abbrev pub Exchange : Type 0 → Type 0
Exchange A = List Request → Result A × List Request

abbrev pub pure : {A : Type 0} → A → Exchange A
pure a past = (ok a, past)

abbrev pub raise : {A : Type 0} → Exn → Exchange A
raise e past = (raised e, past)

infixl 5 ◌>>=◌
abbrev pub ◌>>=◌ : {A B : Type 0} → Exchange A → (A → Exchange B) → Exchange B
◌>>=◌ m f past =
    let (r, past') = m past in elim r [ ok a ↦ f a past' | raised e ↦ (raised e, past') ]

-- `try: m except Exception as exc: handler(exc)`
abbrev pub catch : {A : Type 0} → Exchange A → (Exn → Exchange A) → Exchange A
catch m handler past =
    let (r, past') = m past in elim r [ ok a ↦ (ok a, past') | raised e ↦ handler e past' ]

-- `response.json()`, where its keys are read
abbrev pub payload_of : Response → Exchange (Dict Json)
payload_of r = elim r.json [
  | none ↦ raise (error "not JSON")
  | some j ↦ elim (dict_of (some j)) [ none ↦ raise (error "not an object") | some d ↦ pure d ]
]

-- the text of a key that is neither missing nor empty, or the error
abbrev pub required_key : String → String → Dict Json → Exchange String
required_key key message d = elim (text_key key d) [
  | none ↦ raise (error message)
  | some s ↦ pure s
]

module _ (strip : String → String) (send : List Request → Request → Result Response)
    (base_url : String) where
  -- `request_with_retry(self.client, method, url, self.retry, ...)`
  abbrev pub send_request : String → String → Dict String → Dict String → Exchange Response
  send_request method url headers form past =
      let r : Request = record { method = method; url = url; headers = headers; form = form } in
      (send past r, r ∷ past)

  abbrev pub get : String → Exchange Response
  get url = send_request "GET" url [] []

  unfoldable pub queue_snapshot : Exchange QueueSnapshot
  unfolding snapshot_of
  queue_snapshot = do
    response ← get (concat (base_url ∷ "/queue/api/json?depth=2" ∷ []))
    body ← payload_of response
    λ past. (snapshot_of strip body, past)

  -- `_fetch_crumb`
  unfoldable pub fetch_crumb : Exchange (String × String)
  fetch_crumb = do
    response ← get (concat (base_url ∷ "/crumbIssuer/api/json" ∷ []))
    payload ← payload_of response
    field ← required_key "crumbRequestField" "jenkins crumb request field missing" payload
    value ← required_key "crumb" "jenkins crumb value missing" payload
    pure (field, value)

  -- the headers of `_post_with_crumb`; its callers give none
  unfoldable pub crumb_headers : Exchange (Dict String)
  unfolding fetch_crumb
  crumb_headers = catch (fetch_crumb >>= λ crumb. pure (crumb ∷ [])) (λ _. pure [])

  -- `_post_with_crumb`
  unfoldable pub post_with_crumb : String → Dict String → Exchange (Unit {0})
  unfolding crumb_headers
  post_with_crumb url form = do
    headers ← crumb_headers
    response ← send_request "POST" url headers form
    pure tt

  -- The definition of a node, as the source dumps it: `dumps` is `json.dumps`.
  abbrev pub node_definition : String → String → Bool → Json
  node_definition node_name label use_websocket = obj (
      fields (
        ("name", str node_name)
        ∷ ("nodeDescription", str "ephemeral vm node")
        ∷ ("numExecutors", str "1")
        ∷ ("remoteFS", str "/home/jenkins")
        ∷ ("labelString", str label)
        ∷ ("mode", str "EXCLUSIVE")
        ∷ (
          "launcher",
          obj (
              fields (
                ("stapler-class", str "hudson.slaves.JNLPLauncher")
                ∷ ("$class", str "hudson.slaves.JNLPLauncher")
                ∷ ("webSocket", bool use_websocket)
                ∷ [])),
        )
        ∷ (
          "retentionStrategy",
          obj (
              fields (
                ("stapler-class", str "hudson.slaves.RetentionStrategy$Always")
                ∷ ("$class", str "hudson.slaves.RetentionStrategy$Always")
                ∷ [])),
        )
        ∷ ("nodeProperties", obj (fields (("stapler-class-bag", str "true") ∷ [])))
        ∷ []))

  unfoldable pub create_ephemeral_node :
      (Json → String) → String → String → Bool → Exchange (Unit {0})
  unfolding post_with_crumb
  create_ephemeral_node dumps node_name label use_websocket =
      post_with_crumb (concat (base_url ∷ "/computer/doCreateItem" ∷ [])) (
        ("name", node_name)
        ∷ ("type", "hudson.slaves.DumbSlave$DescriptorImpl")
        ∷ ("json", dumps (node_definition node_name label use_websocket))
        ∷ [])

  unfoldable pub delete_node : String → Exchange (Unit {0})
  unfolding post_with_crumb
  delete_node node_name =
      post_with_crumb (concat (base_url ∷ "/computer/" ∷ node_name ∷ "/doDelete" ∷ [])) []

  abbrev computer : String → String → String
  computer node_name rest = concat (base_url ∷ "/computer/" ∷ node_name ∷ rest ∷ [])

  -- the secret between the tags of the first argument
  abbrev argument_of : String → Option String
  argument_of text = elim (after_first "<argument>" text) [
    | none ↦ none
    | some rest ↦ before_first "</argument>" rest
  ]

  -- the fallback of `get_inbound_secret`
  secret_of_jnlp : String → Exchange String
  secret_of_jnlp node_name = do
    response ← get (computer node_name "/slave-agent.jnlp")
    elim (argument_of response.text) [
      | none ↦ raise (error (concat ("could not parse inbound secret for node " ∷ node_name ∷ [])))
      | some secret ↦ pure secret
    ]

  -- the first way of `get_inbound_secret`
  secret_of_api : String → Exchange (Option String)
  secret_of_api node_name = do
    response ← get (computer node_name "/api/json?tree=jnlpMac")
    payload ← payload_of response
    pure (text_key "jnlpMac" payload)

  unfoldable pub get_inbound_secret : String → Exchange String
  unfolding secret_of_api secret_of_jnlp
  get_inbound_secret node_name = do
    found ← catch (secret_of_api node_name) (λ _. pure none)
    elim found [ none ↦ secret_of_jnlp node_name | some token ↦ pure token ]

  unfoldable pub is_node_connected : String → Exchange Bool
  is_node_connected node_name = do
    response ← get (computer node_name "/api/json")
    body ← payload_of response
    pure (is_false (lookup "offline" body))

  unfoldable pub node_runtime_status : String → Exchange NodeRuntimeStatus
  node_runtime_status node_name = do
    response ← get (computer node_name "/api/json?tree=offline,idle")
    body ← payload_of response
    let connected = is_false (lookup "offline" body)
    pure (record { connected = connected; busy = connected && not (is_true (lookup "idle" body)) })

  -- the URL of the build that an entry of a list of executors runs
  abbrev build_url_of : Json → Option String
  build_url_of entry = elim (dict_of (some entry)) [
    | none ↦ none
    | some e ↦ elim (dict_of (lookup "currentExecutable" e)) [
      | none ↦ none
      | some current ↦ text_key "url" current
    ]
  ]

  -- the inner loop of `node_current_build_url`
  first_url : List Json → Option String
  first_url [] = none
  first_url (entry ∷ entries) =
      let rest = first_url entries in elim (build_url_of entry) [ none ↦ rest | some u ↦ some u ]

  abbrev list_of : Option Json → List Json
  list_of none = []
  list_of (some (arr xs)) = to_list xs
  list_of (some _) = []

  unfoldable pub node_current_build_url : String → Exchange (Option String)
  unfolding first_url
  node_current_build_url node_name = do
    response ← get (
        computer node_name
          "/api/json?tree=offline,executors[currentExecutable[url]],oneOffExecutors[currentExecutable[url]]")
    body ← payload_of response
    pure (elim (first_url (list_of (lookup "executors" body))) [
      | some u ↦ some u
      | none ↦ first_url (list_of (lookup "oneOffExecutors" body))
    ])

  -- `_build_api_json_url`
  unfoldable pub build_api_json_url : String → String
  unfolding without_query ends_with_slash
  build_api_json_url build_url =
      let root = without_query build_url in
      concat (
        (if ends_with_slash root then root else concat (root ∷ "/" ∷ []))
        ∷ "api/json?tree=building,result"
        ∷ [])

  -- `except RequestFailure`, for the answer to the request
  abbrev pub is_missing_build : Exn → Bool
  is_missing_build (request_failure f) = elim f.status_code [
    | none ↦ false
    | some code ↦ code == 404
  ]
  is_missing_build _ = false

  unfoldable pub is_build_running : String → Exchange Bool
  unfolding build_api_json_url
  is_build_running build_url =
      catch (get (build_api_json_url build_url) >>= λ r. pure (some r))
        (λ e. if is_missing_build e then pure none else raise e)
      >>= λ found. elim found [
        | none ↦ pure false
        | some response ↦
            payload_of response >>= λ payload. pure (is_true (lookup "building" payload))
      ]
