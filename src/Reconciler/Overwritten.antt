-- ===== src/Reconciler/Overwritten.antt =====
-- Two objects whose Services have the same key: internal/controller/names.go gives the database
-- Service of one the name of the site Service of the other, and applyService does not look at owners.
use operator_wordpress.Base.{String, ◌<>◌, ◌≡◌, ◌≢◌, refl, sym, ap, ◌∙◌, some, ◌∷◌, inl, inr}
use operator_wordpress.Base.StringMap.{get, entries, insert}
use operator_wordpress.Kube.{Kube}
use operator_wordpress.Kube.Meta.{object_key}
use operator_wordpress.Kube.Network.{Service}
use operator_wordpress.Kube.Outcome.{ok}
use operator_wordpress.Api.{WordPress}
use operator_wordpress.Names.{
  selector_labels, write_all, component_wordpress, component_mysql, label_component, wp_name,
  db_service_name,
}
use operator_wordpress.Database.{build_mysql_headless_service}
use operator_wordpress.Resources.{build_wordpress_service}
use operator_wordpress.Cluster.{Cluster, service}
use operator_wordpress.Cluster.Action
use operator_wordpress.Cluster.Action.{State, updated, ◌>>=◌}
use operator_wordpress.Reconciler.Service.{service_patch, apply_service}
use operator_wordpress.Reconciler.Settled.{apply_service_to_found}

module _ {K : Kube} where
  component_of :
      (wp : WordPress K) (component : String)
      → get label_component (entries (selector_labels wp component)) ≡ some component
  unfolding selector_labels write_all get entries insert
  component_of wp component = refl

  selectors_differ :
      (a b : WordPress K)
      → selector_labels b component_wordpress ≢ selector_labels a component_mysql
  selectors_differ a b e =
      let same : some component_wordpress ≡ some component_mysql =
        sym (component_of b component_wordpress)
        ∙ (ap (λ m. get label_component (entries m)) e ∙ component_of a component_mysql) in
      cc

  same_key :
      (a b : WordPress K)
      → b.metadata.namespace ≡ a.metadata.namespace
      → b.metadata.name ≡ a.metadata.name <> "-mysql"
      → object_key (build_wordpress_service b).metadata
        ≡ object_key (build_mysql_headless_service a).metadata
  unfolding build_wordpress_service build_mysql_headless_service wp_name db_service_name
  same_key a b m n = cc

module _ {K : Kube} (C : Cluster K) where
  -- Let `b` be in the namespace of `a` and have the name of `a` followed by "-mysql". Where
  -- applyService, run for the site Service of `b`, finds a Service under its key that selects the
  -- MySQL pods of `a`, it updates that Service, under the key of the database Service of `a`, so that it
  -- selects the pods of `b` and no longer those of `a`.
  pub database_service_overwritten :
      (a b : WordPress K) (existing : Service K) (s : State C)
      → b.metadata.namespace ≡ a.metadata.namespace
      → b.metadata.name ≡ a.metadata.name <> "-mysql"
      → (C.get service (object_key (build_wordpress_service b).metadata) s.world).0 ≡ ok existing
      → object_key existing.metadata ≡ object_key (build_wordpress_service b).metadata
      → existing.spec.selector ≡ (build_mysql_headless_service a).spec.selector
      → (sent : Service K) × ((apply_service C (build_wordpress_service b) s).1.log
          ≡ updated service sent ∷ s.log)
        × (object_key sent.metadata ≡ object_key (build_mysql_headless_service a).metadata)
        × (sent.spec.selector ≡ selector_labels b component_wordpress)
        × (sent.spec.selector ≢ (build_mysql_headless_service a).spec.selector)
  unfolding apply_service service_patch ◌>>=◌ Action.get build_wordpress_service
      build_mysql_headless_service
  database_service_overwritten a b existing s m n found keyed selects =
      let desired = build_wordpress_service b in
      let patch = service_patch existing desired in
      let s' : State C = record s {
        world = (C.get service (object_key desired.metadata) s.world).1;
      } in
      elim (apply_service_to_found C s' desired existing) [
        | inl (same, idle) ↦
            absurd (selectors_differ a b (ap (λ (x : Service K). x.spec.selector) same ∙ selects))
        | inr (differs, sent) ↦
            (patch, rw found sent, keyed ∙ same_key a b m n, refl, selectors_differ a b)
      ]
