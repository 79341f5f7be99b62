-- ===== src/Names.antt =====
-- internal/controller/names.go: names of the owned objects, their labels, and map merging.
pub mod Laws
use operator_wordpress.Base.{String, ◌<>◌, List, [], ◌∷◌, some}
use operator_wordpress.Base.StringMap.{StringMap, Entries, insert, entries}
use operator_wordpress.Kube.{Kube}
use operator_wordpress.Api.{WordPress}

abbrev pub label_managed_by : String
label_managed_by = "app.kubernetes.io/managed-by"

abbrev pub label_instance : String
label_instance = "app.kubernetes.io/instance"

abbrev pub label_name : String
label_name = "app.kubernetes.io/name"

abbrev pub label_component : String
label_component = "app.kubernetes.io/component"

abbrev pub label_part_of : String
label_part_of = "app.kubernetes.io/part-of"

abbrev pub manager_name : String
manager_name = "wordpress-operator"

abbrev pub component_wordpress : String
component_wordpress = "wordpress"

abbrev pub component_mysql : String
component_mysql = "mysql"

abbrev pub wordpress_finalizer : String
wordpress_finalizer = "wordpresses.apps.kubesphere.ai/finalizer"

abbrev pub retain_data_annotation : String
retain_data_annotation = "wordpresses.apps.kubesphere.ai/retain-data"

-- A map literal, and the loops of `mergeStringMaps`: each entry is written in turn.
unfoldable pub write_all : Entries → Entries → Entries
unfolding insert
write_all [] out = out
write_all ((k, v) ∷ rest) out = write_all rest (insert k v out)

unfoldable pub merge_into : List StringMap → Entries → Entries
unfolding write_all entries
merge_into [] out = out
merge_into (o ∷ os) out = merge_into os (write_all (entries o) out)

unfoldable pub merge_string_maps : StringMap → List StringMap → StringMap
unfolding merge_into
merge_string_maps src overrides = some (merge_into overrides (write_all (entries src) []))

module _ {K : Kube} where
  unfoldable pub wp_name : WordPress K → String
  wp_name wp = wp.metadata.name

  unfoldable pub db_service_name : WordPress K → String
  db_service_name wp = wp.metadata.name <> "-mysql"

  unfoldable pub db_stateful_set_name : WordPress K → String
  db_stateful_set_name wp = wp.metadata.name <> "-mysql"

  unfoldable pub db_secret_name : WordPress K → String
  db_secret_name wp = wp.metadata.name <> "-mysql-credentials"

  unfoldable pub wp_pvc_name : WordPress K → String
  wp_pvc_name wp = wp.metadata.name <> "-content"

  unfoldable pub hpa_name : WordPress K → String
  hpa_name wp = wp.metadata.name <> "-hpa"

  unfoldable pub common_labels : WordPress K → String → StringMap
  unfolding write_all
  common_labels wp component = some (
      write_all
        ((label_name, "wordpress")
          ∷ (label_instance, wp.metadata.name)
          ∷ (label_component, component)
          ∷ (label_managed_by, manager_name)
          ∷ (label_part_of, "wordpress-operator")
          ∷ [])
        [])

  unfoldable pub selector_labels : WordPress K → String → StringMap
  unfolding write_all
  selector_labels wp component = some (
      write_all
        ((label_name, "wordpress")
          ∷ (label_instance, wp.metadata.name)
          ∷ (label_component, component)
          ∷ [])
        [])
