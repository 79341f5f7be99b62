-- ===== src/Sample/Objects.antt =====
-- Concrete objects for the tests.
use operator_wordpress.Base.{true, none, some, [], ◌∷◌}
use operator_wordpress.Base.Int.{pos}
use operator_wordpress.Kube.Meta.{NamespacedName, new_meta}
use operator_wordpress.Api.{
  WordPress, WordPressSpec, DatabaseSpec, AutoscalingSpec, ExternalDatabaseSpec, empty_internal,
}
use operator_wordpress.Names.{wordpress_finalizer}
use operator_wordpress.Cluster.Action.{State}
use operator_wordpress.Sample.{kube}
use operator_wordpress.Sample.Memory.{World, memory}

abbrev pub key : NamespacedName
key = record { namespace = "default"; name = "blog" }

abbrev pub internal_database : DatabaseSpec kube
internal_database = record {
  mode = "Internal";
  name = "wordpress";
  user = "wordpress";
  table_prefix = "wp_";
  internal = some (empty_internal kube);
  external = none;
}

abbrev pub outside : ExternalDatabaseSpec
outside = record {
  host = "db.example.com";
  port = pos 3306;
  password_secret = record { name = "db"; key = "password" };
}

abbrev pub scaling : AutoscalingSpec
scaling = record {
  enabled = true;
  min_replicas = pos 1;
  max_replicas = pos 5;
  target_cpu_utilization_percentage = pos 80;
}

abbrev pub spec : WordPressSpec kube
spec = record {
  image = "";
  image_pull_policy = "";
  image_pull_secrets = tt;
  replicas = none;
  resources = tt;
  site_url = "";
  env = [];
  database = internal_database;
  service = record { type = ""; port = pos 0; node_port = pos 0; annotations = none };
  ingress = record {
    enabled = true;
    ingress_class_name = none;
    host = "blog.example.com";
    tls_secret_name = "";
    annotations = none;
  };
  persistence = record { enabled = true; size = ""; storage_class_name = none; access_modes = [] };
  autoscaling = scaling;
  pod_annotations = none;
  pod_labels = some (("team", "web") ∷ []);
  node_selector = none;
  tolerations = tt;
  affinity = none;
  max_unavailable = none;
  max_surge = none;
}

-- A new object, without the finalizer.
abbrev pub fresh : WordPress kube
fresh = record {
  metadata = record (new_meta {K = kube} "blog" "default" none none) { generation = pos 1 };
  spec = spec;
  status = record {
    observed_generation = pos 0;
    phase = "";
    url = "";
    replicas = pos 0;
    ready_replicas = pos 0;
    database_host = "";
    conditions = [];
  };
}

abbrev pub blog : WordPress kube
blog = record fresh { metadata = record fresh.metadata { finalizers = wordpress_finalizer ∷ [] } }

abbrev pub doomed : WordPress kube
doomed = record blog { metadata = record blog.metadata { deletion_timestamp = true } }

abbrev pub remote : WordPress kube
remote = record blog {
  spec = record spec {
    database = record internal_database { mode = "External"; external = some outside };
  };
}

-- Its spec is not valid.
abbrev pub broken : WordPress kube
broken = record blog {
  spec = record spec { database = record internal_database { mode = "External" } };
}

-- A cluster that holds one object.
abbrev pub holding : WordPress kube → World
holding wp = record {
  wordpresses = wp ∷ [];
  secrets = [];
  services = [];
  stateful_sets = [];
  deployments = [];
  claims = [];
  ingresses = [];
  autoscalers = [];
}

abbrev pub state : WordPress kube → State memory
state wp = record { wp = wp; world = holding wp; log = [] }
