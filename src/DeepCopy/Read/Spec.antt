-- ===== src/DeepCopy/Read/Spec.antt =====
-- The value of a spec, from those of its parts.
use mathlib.Core.Option
use operator_wordpress.Base.{Option, List}
use operator_wordpress.Base.Int.{ℤ}
use operator_wordpress.Base.StringMap.{StringMap}
use operator_wordpress.Kube.{Kube}
use operator_wordpress.Kube.Pods.{EnvVar}
use operator_wordpress.Api.{
  IngressConfig, ServiceConfig, PersistenceSpec, DatabaseSpec, WordPressSpec,
}
use operator_wordpress.DeepCopy.Heap.{Reference}
use operator_wordpress.DeepCopy.Copier.{Copier, flat, pointer, slice, string_map, Both, ◌&◌, ◌⊗◌}
use operator_wordpress.DeepCopy.Structs.{
  Types, Library, Cells, IngressStruct, ServiceStruct, PersistenceStruct, DatabaseStruct,
  SpecStruct,
}
use operator_wordpress.DeepCopy.Copies.{copy_spec}
use operator_wordpress.DeepCopy.Read.Parts.{
  or_empty, database_copier, service_copier, ingress_copier, persistence_copier,
}

module _ {K : Kube} {T : Types} {L : Library K T} (C : Cells L) where
  abbrev pub spec_split :
      SpecStruct T
      → Both Reference (
          Both Reference (
            Both T.ResourcesStruct (
              Both Reference (
                Both DatabaseStruct (
                  Both ServiceStruct (
                    Both IngressStruct (
                      Both PersistenceStruct (
                        Both Reference (
                          Both Reference (
                            Both Reference
                              (Both Reference (Both Reference (Both Reference Reference)))))))))))))
  spec_split s =
      s.image_pull_secrets & s.replicas & s.resources & s.env & s.database & s.service & s.ingress
      & s.persistence & s.pod_annotations & s.pod_labels & s.node_selector & s.tolerations
      & s.affinity & s.max_unavailable & s.max_surge

  abbrev pub spec_join :
      SpecStruct T
      → Both Reference (
          Both Reference (
            Both T.ResourcesStruct (
              Both Reference (
                Both DatabaseStruct (
                  Both ServiceStruct (
                    Both IngressStruct (
                      Both PersistenceStruct (
                        Both Reference (
                          Both Reference (
                            Both Reference
                              (Both Reference (Both Reference (Both Reference Reference)))))))))))))
      → SpecStruct T
  spec_join s
        (image_pull_secrets & replicas & resources & env & database & service & ingress
          & persistence & pod_annotations & pod_labels & node_selector & tolerations & affinity
          & max_unavailable & max_surge) =
      record s {
        image_pull_secrets = image_pull_secrets;
        replicas = replicas;
        resources = resources;
        env = env;
        database = database;
        service = service;
        ingress = ingress;
        persistence = persistence;
        pod_annotations = pod_annotations;
        pod_labels = pod_labels;
        node_selector = node_selector;
        tolerations = tolerations;
        affinity = affinity;
        max_unavailable = max_unavailable;
        max_surge = max_surge;
      }

  abbrev pub spec_value :
      SpecStruct T
      → Both (Option (List T.LocalObjectReference)) (
          Both (Option ℤ) (
            Both K.Resources (
              Both (Option (List (EnvVar K))) (
                Both (DatabaseSpec K) (
                  Both ServiceConfig (
                    Both IngressConfig (
                      Both PersistenceSpec (
                        Both StringMap (
                          Both StringMap (
                            Both StringMap (
                              Both (Option (List L.Toleration)) (
                                Both
                                  (Option K.Affinity)
                                  (Both (Option K.IntOrString) (Option K.IntOrString))))))))))))))
      → WordPressSpec K
  spec_value s
        (image_pull_secrets & replicas & resources & env & database & service & ingress
          & persistence & pod_annotations & pod_labels & node_selector & tolerations & affinity
          & max_unavailable & max_surge) =
      record {
        image = s.image;
        image_pull_policy = s.image_pull_policy;
        image_pull_secrets = L.pull_secrets_value image_pull_secrets;
        replicas = replicas;
        resources = resources;
        site_url = s.site_url;
        env = or_empty env;
        database = database;
        service = service;
        ingress = ingress;
        persistence = persistence;
        autoscaling = s.autoscaling;
        pod_annotations = pod_annotations;
        pod_labels = pod_labels;
        node_selector = node_selector;
        tolerations = L.tolerations_value tolerations;
        affinity = affinity;
        max_unavailable = max_unavailable;
        max_surge = max_surge;
      }

  abbrev pub spec_fields :
      Copier L.Cell
        (Both Reference (
          Both Reference (
            Both T.ResourcesStruct (
              Both Reference (
                Both DatabaseStruct (
                  Both ServiceStruct (
                    Both IngressStruct (
                      Both PersistenceStruct (
                        Both Reference (
                          Both Reference (
                            Both Reference (
                              Both Reference (Both Reference (Both Reference Reference))))))))))))))
        (Both (Option (List T.LocalObjectReference)) (
          Both (Option ℤ) (
            Both K.Resources (
              Both (Option (List (EnvVar K))) (
                Both (DatabaseSpec K) (
                  Both ServiceConfig (
                    Both IngressConfig (
                      Both PersistenceSpec (
                        Both StringMap (
                          Both StringMap (
                            Both StringMap (
                              Both (Option (List L.Toleration)) (
                                Both
                                  (Option K.Affinity)
                                  (Both (Option K.IntOrString) (Option K.IntOrString)))))))))))))))
  spec_fields =
      slice L.references flat
      ⊗ pointer L.int32 flat
      ⊗ L.resources
      ⊗ slice L.env_vars L.env_var
      ⊗ database_copier C
      ⊗ service_copier C
      ⊗ ingress_copier C
      ⊗ persistence_copier C
      ⊗ string_map L.entries
      ⊗ string_map L.entries
      ⊗ string_map L.entries
      ⊗ slice L.tolerations L.toleration
      ⊗ pointer L.affinity_cell L.affinity
      ⊗ pointer L.int_or_string flat
      ⊗ pointer L.int_or_string flat

  abbrev pub spec_copier : Copier L.Cell (SpecStruct T) (WordPressSpec K)
  spec_copier = record {
    read = λ h s. Option.map (spec_value s) (spec_fields.read h (spec_split s));
    copy = copy_spec C;
  }
