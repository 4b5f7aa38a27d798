-- ===== src/Adapters/Docker/Tests.antt =====
-- The state of a container in a list of two, and the theorems on it.
use homelab_evidence_mcp.Prelude.{
  ◌≡◌, refl, inr, [], ◌∷◌, none, some, Text, ascii, text_beq, List, ◌⊎◌, ◌++◌,
}
use homelab_evidence_mcp.Prelude.Int.{pos}
use homelab_evidence_mcp.Prelude.Table.{Table, lookup}
use homelab_evidence_mcp.Redaction.Search.{has_prefix, index, contains}
use homelab_evidence_mcp.Evidence.{error}
use homelab_evidence_mcp.Http.Client.{collection_time}
use homelab_evidence_mcp.Config.Example.{library}
use homelab_evidence_mcp.Adapters.Docker.{
  ContainerSummary, Outside, normalize_name, find_loop, find_container, safe_label, state_severity,
  health_from_status, severity_of, item_from, list_containers, not_found, status,
}
use homelab_evidence_mcp.Adapters.Docker.First.{NoneNamed, IsFirst, status_lem, item_from-labels}

program : Unit {0}
unfolding text_beq lookup has_prefix index contains collection_time normalize_name find_loop
    find_container safe_label state_severity health_from_status severity_of item_from
    list_containers status
program = tt

abbrev labels : Table Text
labels = (ascii "com.docker.compose.service", ascii "web") ∷ []

abbrev container : Text → ContainerSummary
container name = record {
  names = (ascii "/" ++ name) ∷ [];
  image = ascii "nginx";
  state = ascii "running";
  status = ascii "up 2 hours (unhealthy)";
  labels = labels;
  created = pos 1000;
}

abbrev containers : List ContainerSummary
containers = container (ascii "db") ∷ container (ascii "web") ∷ []

abbrev outside : Outside Text
outside = record {
  lib = library;
  compile = λ s. some s;
  find_all = λ re s. [];
  engine = none;
  get = λ p. inr (record { status = 200; headers = [] }, ascii "[1]");
  unmarshal = λ s. some (some containers);
  format_date = λ n. ascii "1970-01-01T00:16:40Z";
  new_id = ascii "ev_1";
}

list_run : list_containers outside 100 ≡ inr (containers, 100)
unfolding program
list_run = refl

found :
    status outside (ascii "nas") (ascii "web") 100
    ≡ inr (item_from outside (ascii "nas") (container (ascii "web")) 100 100)
unfolding program
found = refl

-- A container that runs but is not healthy has the severity of an error.
unhealthy : (item_from outside (ascii "nas") (container (ascii "web")) 100 100).severity ≡ error
unfolding program
unhealthy = refl

status_lem_example :
    (NoneNamed outside (normalize_name outside (ascii "web")) containers
      × (status outside (ascii "nas") (ascii "web") 100
          ≡ inr (not_found outside (ascii "nas") (ascii "web") 100 100)))
    ⊎ ((ct : ContainerSummary) × (IsFirst outside
            (normalize_name outside (ascii "web"))
            containers
            ct
          × (status outside (ascii "nas") (ascii "web") 100
              ≡ inr (item_from outside (ascii "nas") ct 100 100))))
status_lem_example = status_lem outside (ascii "nas") (ascii "web") 100 100 containers list_run

-- With a label that holds a secret.
abbrev more_labels : Table Text
more_labels = (ascii "token", ascii "abc") ∷ labels

same_service :
    safe_label labels (ascii "com.docker.compose.service")
    ≡ safe_label more_labels (ascii "com.docker.compose.service")
unfolding program
same_service = refl

same_project :
    safe_label labels (ascii "com.docker.compose.project")
    ≡ safe_label more_labels (ascii "com.docker.compose.project")
unfolding program
same_project = refl

item_from-labels_example :
    item_from outside (ascii "nas") (container (ascii "web")) 100 100
    ≡ item_from outside
        (ascii "nas")
        (record (container (ascii "web")) { labels = more_labels })
        100
        100
item_from-labels_example =
    item_from-labels outside (ascii "nas") (container (ascii "web")) more_labels 100 100
      same_service same_project
