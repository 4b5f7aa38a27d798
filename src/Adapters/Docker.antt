-- ===== src/Adapters/Docker.antt =====
-- The state of a container in internal/adapters/docker/docker.go. The locked client's Get, the
-- decoding of JSON, the printing of a date and the identifiers are arguments.
pub mod First
mod Tests
use homelab_evidence_mcp.Prelude.{
  ℕ, ◌+◌, ◌⊎◌, inl, inr, Bool, false, true, not, ◌||◌, List, [], ◌∷◌, ◌++◌, Option, none, some,
  Text, ascii, text_beq, nat_eq, ◌==◌, ltb, length, take, drop, any, if◌then◌else◌,
}
use homelab_evidence_mcp.Prelude.Int.{ℤ, pos, leb_ℤ}
use homelab_evidence_mcp.Prelude.Table.{Table, lookup}
use homelab_evidence_mcp.Redaction.Search.{has_prefix, contains}
use homelab_evidence_mcp.Redaction.Engine.{Engine, apply_and_truncate}
use homelab_evidence_mcp.Http.Client.{Library, Response, GetError, collection_time}
use homelab_evidence_mcp.Evidence.{
  Time, Item, Severity, info, warning, error, unknown, Value, text, flag, texts, SourceKind, Kind,
  Freshness,
}
use homelab_evidence_mcp.Evidence.Age.{compute_freshness}

pub record ContainerSummary : Type 0 where
  pub names : List Text
  pub image : Text
  pub state : Text
  pub status : Text
  pub labels : Table Text
  pub created : ℤ

pub data DockerError : Type 0 where
  get_failed : GetError → DockerError
  http_status : ℕ → DockerError
  invalid_json expected_array : DockerError

pub record Outside (Regexp : Type 0) : Type 0 where
  pub lib : Library
  pub compile : Text → Option Regexp
  pub find_all : Regexp → Text → List (ℕ × ℕ)
  pub engine : Option (Engine Regexp)
  pub get : Text → GetError ⊎ (Response × Text)
  -- The list that a body holds: `none` for an error, `some none` for null.
  pub unmarshal : Text → Option (Option (List ContainerSummary))
  pub format_date : ℤ → Text
  pub new_id : Text

-- A text that is cleaned and cut, the number of redactions and whether it was cut.
abbrev pub Cleaned : Type 0 → Type 0
Cleaned A = A × ℕ × Bool

abbrev pub list_path : Text
list_path = ascii "/containers/json?all=true"

-- strings.TrimPrefix
abbrev pub trim_prefix : Text → Text → Text
trim_prefix s p = if has_prefix s p then drop (length p) s else s

-- The label of a key of the allowlist.
unfoldable pub safe_label : Table Text → Text → Text
safe_label labels key = elim (lookup key labels) [ none ↦ [] | some v ↦ v ]

unfoldable pub state_severity : Text → Severity
state_severity state =
    if text_beq state (ascii "running")
    then info
    else if text_beq state (ascii "restarting")
    then warning
    else if text_beq state (ascii "exited") || text_beq state (ascii "dead")
    then error
    else if text_beq state (ascii "paused") || text_beq state (ascii "created")
    then warning
    else unknown

-- The summary before it is cleaned; three states show the status too.
unfoldable pub raw_summary : Text → Text → Text → Text
raw_summary name state status =
    let plain = ascii "docker container " ++ (name ++ (ascii " state=" ++ state)) in
    if text_beq state (ascii "restarting")
      || (text_beq state (ascii "exited") || text_beq state (ascii "dead"))
    then plain ++ (ascii " (" ++ (status ++ ascii ")"))
    else plain

module _ {Regexp : Type 0} (o : Outside Regexp) where
  abbrev pub clean : Text → ℤ → Cleaned Text
  clean = apply_and_truncate o.compile o.find_all o.engine

  unfoldable pub normalize_name : Text → Text
  normalize_name n = o.lib.to_lower (trim_prefix (o.lib.trim_space n) (ascii "/"))

  -- The loop over the names of a container.
  abbrev pub is_named : Text → ContainerSummary → Bool
  is_named want c = any (λ n. text_beq (normalize_name n) want) c.names

  unfoldable pub find_loop : Text → List ContainerSummary → Option ContainerSummary
  find_loop want [] = none
  find_loop want (c ∷ rest) =
      let later = find_loop want rest in if is_named want c then some c else later

  unfoldable pub find_container : List ContainerSummary → Text → Option ContainerSummary
  unfolding find_loop
  find_container cs want = find_loop (normalize_name want) cs

  unfoldable pub primary_name : List Text → Text
  unfolding normalize_name
  primary_name [] = []
  primary_name (n ∷ rest) = normalize_name n

  -- The loop of `cleanNames`.
  unfoldable pub clean_each : List Text → Cleaned (List Text)
  unfolding normalize_name
  clean_each [] = ([], 0, false)
  clean_each (name ∷ rest) =
      let (short, n, cut) = clean (normalize_name name) (pos 128) in
      let (later, more, cut_later) = clean_each rest in (short ∷ later, n + more, cut || cut_later)

  unfoldable pub clean_names : List Text → Cleaned (List Text)
  unfolding clean_each
  clean_names names =
      let (out, redactions, cut) = clean_each (take 32 names) in
      (out, redactions, ltb 32 (length names) || cut)

  unfoldable pub health_from_status : Text → Text
  health_from_status status =
      let ls = o.lib.to_lower status in
      if contains ls (ascii "(healthy)")
      then ascii "healthy"
      else if contains ls (ascii "(unhealthy)")
      then ascii "unhealthy"
      else if contains ls (ascii "(health: starting)")
      then ascii "starting"
      else []

  -- A label under the name of its attribute, when there is one.
  unfoldable pub label_attribute : Text → Text → Cleaned (List (Text × Value))
  label_attribute name [] = ([], 0, false)
  label_attribute name (c ∷ rest) =
      let (short, n, cut) = clean (c ∷ rest) (pos 128) in ((name, text short) ∷ [], n, cut)

  unfoldable pub severity_of : Text → Text → Severity
  unfolding state_severity health_from_status
  severity_of state status =
      if text_beq (health_from_status status) (ascii "unhealthy")
      then error
      else state_severity state

  unfoldable pub item_from : Text → ContainerSummary → Time → Time → Item
  unfolding primary_name clean_names health_from_status label_attribute severity_of raw_summary
      safe_label
  item_from service_id ct observed_at retrieved_at =
      let state = o.lib.to_lower (o.lib.trim_space ct.state) in
      let primary = primary_name ct.names in
      let health = health_from_status ct.status in
      let (name, n1, cut1) = clean primary (pos 256) in
      let (state_clean, n2, cut2) = clean state (pos 64) in
      let (status_clean, n3, cut3) = clean ct.status (pos 256) in
      let (image_clean, n4, cut4) = clean ct.image (pos 256) in
      let (names, n5, cut5) = clean_names ct.names in
      let (service, n6, cut6) =
        label_attribute (ascii "compose_service")
          (safe_label ct.labels (ascii "com.docker.compose.service")) in
      let (project, n7, cut7) =
        label_attribute (ascii "compose_project")
          (safe_label ct.labels (ascii "com.docker.compose.project")) in
      let (sum, n8, cut8) = clean (raw_summary primary state ct.status) (pos 512) in
      record {
        id = o.new_id;
        service_id = service_id;
        source = SourceKind.docker;
        source_id = name;
        kind = Kind.container_state;
        observed_at = observed_at;
        retrieved_at = retrieved_at;
        window_start = none;
        window_end = none;
        summary = sum;
        severity = severity_of state ct.status;
        attributes =
            (ascii "container_name", text name)
            ∷ (ascii "names", texts names)
            ∷ (ascii "state", text state_clean)
            ∷ (ascii "status", text status_clean)
            ∷ (ascii "image", text image_clean)
            ∷ (ascii "found", flag true)
            ∷ (ascii "snapshot", flag true)
            ∷ ((if text_beq health [] then [] else (ascii "health", text health) ∷ [])
                ++ (service
                    ++ (project
                        ++ (if leb_ℤ ct.created (pos 0)
                            then []
                            else (ascii "created_at", text (o.format_date ct.created)) ∷ []))));
        truncated = cut1 || (cut2 || (cut3 || (cut4 || (cut5 || (cut6 || (cut7 || cut8))))));
        redactions_applied = n1 + n2 + n3 + n4 + n5 + n6 + n7 + n8;
        freshness = compute_freshness observed_at retrieved_at;
        order = 0;
      }

  -- `list`, with the time of its answer.
  unfoldable pub list_containers : Time → DockerError ⊎ (List ContainerSummary × Time)
  list_containers fallback = elim (o.get list_path) [
    | inl e ↦ inl (get_failed e)
    | inr (resp, body) ↦
        if not (resp.status == 200)
        then inl (http_status resp.status)
        else elim (o.unmarshal body) [
          | none ↦ inl invalid_json
          | some none ↦ inl expected_array
          | some (some cs) ↦ inr (cs, collection_time o.lib (some resp) fallback)
        ]
  ]

  -- The item that says that no container has the name.
  unfoldable pub not_found : Text → Text → Time → Time → Item
  not_found service_id container_name observed_at retrieved_at =
      let (clean_name, redactions, cut) = clean container_name (pos 256) in
      record {
        id = o.new_id;
        service_id = service_id;
        source = SourceKind.docker;
        source_id = clean_name;
        kind = Kind.container_state;
        observed_at = observed_at;
        retrieved_at = retrieved_at;
        window_start = none;
        window_end = none;
        summary = ascii "docker container not found in list";
        severity = unknown;
        attributes = (ascii "container_name", text clean_name) ∷ (ascii "found", flag false) ∷ [];
        truncated = cut;
        redactions_applied = redactions;
        freshness = Freshness.missing;
        order = 0;
      }

  unfoldable pub status : Text → Text → Time → DockerError ⊎ Item
  unfolding list_containers find_container not_found item_from
  status service_id container_name retrieved_at = elim (list_containers retrieved_at) [
    | inl e ↦ inl e
    | inr (cs, observed_at) ↦ elim (find_container cs container_name) [
      | none ↦ inr (not_found service_id container_name observed_at retrieved_at)
      | some ct ↦ inr (item_from service_id ct observed_at retrieved_at)
    ]
  ]

  -- `Evidence`
  unfoldable pub current_evidence : Text → Text → Time → DockerError ⊎ List Item
  unfolding status
  current_evidence service_id container_name retrieved_at =
      elim (status service_id container_name retrieved_at) [ inl e ↦ inl e | inr a ↦ inr (a ∷ []) ]
