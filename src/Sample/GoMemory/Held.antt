-- ===== src/Sample/GoMemory/Held.antt =====
-- A memory that holds a WordPress object, in which two maps share a cell, and its value.
use operator_wordpress.Base.{true, none, some, List, [], ◌∷◌}
use operator_wordpress.Base.Int.{pos}
use operator_wordpress.Kube.Meta.{Condition}
use operator_wordpress.Api.{WordPressStatus, empty_internal}
use operator_wordpress.DeepCopy.Structs.{
  InternalDatabaseStruct, SpecStruct, StatusStruct, WordPressStruct,
}
use operator_wordpress.DeepCopy.Read.{TypedWordPress, WordPressList}
use operator_wordpress.Sample.{kube}
use operator_wordpress.Sample.Objects.{fresh, spec as fresh_spec, internal_database, scaling}
use operator_wordpress.Sample.GoMemory.{
  types, Cell, library, text, map_entries, condition_structs, internal, status, wordpress,
  wordpresses, wordpress_list,
}

abbrev pub ready : Condition kube
ready = record { type = "Ready"; status = "True"; reason = "Ready"; message = ""; rest = none }

abbrev pub status_struct : StatusStruct
status_struct = record {
  observed_generation = pos 1;
  phase = "Ready";
  url = "";
  replicas = pos 1;
  ready_replicas = pos 1;
  database_host = "";
  conditions = some 3;
}

-- The selector of the database's node and the annotations of the ingress are one map.
abbrev pub internal_struct : InternalDatabaseStruct types
internal_struct = record {
  image = "";
  image_pull_policy = "";
  storage_size = "";
  storage_class_name = some 1;
  resources = tt;
  root_password_secret = none;
  node_selector = some 0;
  tolerations = none;
  affinity = none;
}

abbrev pub spec_struct : SpecStruct types
spec_struct = record {
  image = "";
  image_pull_policy = "";
  image_pull_secrets = none;
  replicas = none;
  resources = tt;
  site_url = "";
  env = none;
  database = record {
    mode = "Internal";
    name = "wordpress";
    user = "wordpress";
    table_prefix = "wp_";
    internal = some 2;
    external = none;
  };
  service = record { type = ""; port = pos 0; node_port = pos 0; annotations = none };
  ingress = record {
    enabled = true;
    ingress_class_name = none;
    host = "blog.example.com";
    tls_secret_name = "";
    annotations = some 0;
  };
  persistence = record {
    enabled = true;
    size = "";
    storage_class_name = none;
    access_modes = none;
  };
  autoscaling = scaling;
  pod_annotations = none;
  pod_labels = none;
  node_selector = none;
  tolerations = none;
  affinity = none;
  max_unavailable = none;
  max_surge = none;
}

abbrev pub wordpress_struct : WordPressStruct types
wordpress_struct = record {
  type_meta = "WordPress";
  metadata = fresh.metadata;
  spec = spec_struct;
  status = status_struct;
}

abbrev pub go_memory : List Cell
go_memory =
    map_entries (("disk", "ssd") ∷ [])
    ∷ text "fast"
    ∷ internal internal_struct
    ∷ condition_structs (ready ∷ [])
    ∷ wordpress wordpress_struct
    ∷ wordpresses (wordpress_struct ∷ [])
    ∷ wordpress_list record { type_meta = "WordPressList"; metadata = ""; items = some 5 }
    ∷ status status_struct
    ∷ []

-- What that memory holds.
abbrev pub held_status : WordPressStatus kube
held_status = record {
  observed_generation = pos 1;
  phase = "Ready";
  url = "";
  replicas = pos 1;
  ready_replicas = pos 1;
  database_host = "";
  conditions = ready ∷ [];
}

abbrev pub held : TypedWordPress kube types
held = record {
  type_meta = "WordPress";
  object = record {
    metadata = fresh.metadata;
    spec = record fresh_spec {
      pod_labels = none;
      ingress = record fresh_spec.ingress { annotations = some (("disk", "ssd") ∷ []) };
      database = record internal_database {
        internal = some record (empty_internal kube) {
          storage_class_name = some "fast";
          node_selector = some (("disk", "ssd") ∷ []);
        };
      };
    };
    status = held_status;
  };
}

abbrev pub held_list : WordPressList library
held_list = record { type_meta = "WordPressList"; metadata = ""; items = some (held ∷ []) }
