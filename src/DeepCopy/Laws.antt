-- ===== src/DeepCopy/Laws.antt =====
-- Each DeepCopyInto is deep, given that those of the Kubernetes libraries are.
use operator_wordpress.Base.{refl, ◌≡◌, List, Option, String}
use operator_wordpress.Base.Int.{ℤ}
use operator_wordpress.Base.StringMap.{StringMap}
use operator_wordpress.Kube.{Kube}
use operator_wordpress.Kube.Meta.{ObjectMeta, Condition}
use operator_wordpress.Kube.Pods.{EnvVar}
use operator_wordpress.Api.{
  SecretKeyRef, ExternalDatabaseSpec, IngressConfig, ServiceConfig, PersistenceSpec, DatabaseSpec,
  InternalDatabaseSpec, WordPressSpec, WordPressStatus,
}
use operator_wordpress.DeepCopy.Heap.{Reference, pure-bind, bind_assoc}
use operator_wordpress.DeepCopy.Copier.{Both, ◌&◌, copy_both}
use operator_wordpress.DeepCopy.Copier.Laws.{IsDeep}
use operator_wordpress.DeepCopy.Copier.Laws.Structs.{both-IsDeep, struct-IsDeep, flat-IsDeep}
use operator_wordpress.DeepCopy.Copier.Laws.References.{
  pointer-IsDeep, string_map-IsDeep, slice-IsDeep,
}
use operator_wordpress.DeepCopy.Structs.{
  Types, Library, Cells, IngressStruct, ServiceStruct, PersistenceStruct, DatabaseStruct,
  InternalDatabaseStruct, SpecStruct, StatusStruct, WordPressStruct, ListStruct,
}
use operator_wordpress.DeepCopy.Copies.{
  copy_ingress, copy_service, copy_persistence, copy_internal, copy_database, copy_spec,
  copy_status, copy_wordpress, copy_list,
}
use operator_wordpress.DeepCopy.Read.{
  TypedWordPress, ingress_split, ingress_join, ingress_value, ingress_fields, ingress_copier,
  service_split, service_join, service_value, service_fields, service_copier, persistence_split,
  persistence_join, persistence_value, persistence_fields, persistence_copier, internal_split,
  internal_join, internal_value, internal_fields, internal_copier, database_split, database_join,
  database_value, database_fields, database_copier, spec_split, spec_join, spec_value, spec_fields,
  spec_copier, status_split, status_join, status_value, status_fields, status_copier,
  wordpress_split, wordpress_join, wordpress_value, wordpress_fields, wordpress_copier, list_split,
  list_join, list_value, list_fields, list_copier,
}

-- What the generated methods of the Kubernetes libraries are relied on for.
pub record DeepLibrary {K : Kube} {T : Types} (L : Library K T) : Type 0 where
  pub resources_deep : IsDeep L.resources
  pub affinity_deep : IsDeep L.affinity
  pub toleration_deep : IsDeep L.toleration
  pub env_var_deep : IsDeep L.env_var
  pub condition_deep : IsDeep L.condition
  pub object_meta_deep : IsDeep L.object_meta
  pub list_meta_deep : IsDeep L.list_meta

module _ {K : Kube} {T : Types} {L : Library K T} (C : Cells L) (P : DeepLibrary L) where
  ingress-joins :
      (s : IngressStruct) (x : Both Reference Reference) (v : Both (Option String) StringMap)
      → (ingress_split C (ingress_join C s x) ≡ x)
        × (ingress_value C (ingress_join C s x) v ≡ ingress_value C s v)
  ingress-joins s (x & y) (x' & y') = (refl, refl)

  pub ingress-IsDeep : IsDeep (ingress_copier C)
  unfolding copy_ingress copy_both
  ingress-IsDeep =
      struct-IsDeep (ingress_copier C) (ingress_fields C) (ingress_split C) (ingress_join C)
        (ingress_value C) (λ s. simp (bind_assoc, pure-bind) refl) (λ h s. refl) ingress-joins
        (both-IsDeep _ _ (pointer-IsDeep _ _ flat-IsDeep) (string_map-IsDeep _))

  service-joins :
      (s : ServiceStruct) (x : Reference) (v : StringMap)
      → (service_split C (service_join C s x) ≡ x)
        × (service_value C (service_join C s x) v ≡ service_value C s v)
  service-joins s x x' = (refl, refl)

  pub service-IsDeep : IsDeep (service_copier C)
  unfolding copy_service copy_both
  service-IsDeep =
      struct-IsDeep (service_copier C) (service_fields C) (service_split C) (service_join C)
        (service_value C) (λ s. refl) (λ h s. refl) service-joins (string_map-IsDeep _)

  persistence-joins :
      (s : PersistenceStruct) (x : Both Reference Reference)
      (v : Both (Option String) (Option (List String)))
      → (persistence_split C (persistence_join C s x) ≡ x)
        × (persistence_value C (persistence_join C s x) v ≡ persistence_value C s v)
  persistence-joins s (x & y) (x' & y') = (refl, refl)

  pub persistence-IsDeep : IsDeep (persistence_copier C)
  unfolding copy_persistence copy_both
  persistence-IsDeep =
      struct-IsDeep (persistence_copier C) (persistence_fields C) (persistence_split C)
        (persistence_join C) (persistence_value C) (λ s. simp (bind_assoc, pure-bind) refl)
        (λ h s. refl) persistence-joins
        (both-IsDeep _ _ (pointer-IsDeep _ _ flat-IsDeep) (slice-IsDeep _ _ flat-IsDeep))

  internal-joins :
      (s : InternalDatabaseStruct T)
      (x : Both Reference
        (Both T.ResourcesStruct (Both Reference (Both Reference (Both Reference Reference)))))
      (v : Both (Option String) (
        Both K.Resources (
          Both
            (Option SecretKeyRef)
            (Both StringMap (Both (Option (List L.Toleration)) (Option K.Affinity))))))
      → (internal_split C (internal_join C s x) ≡ x)
        × (internal_value C (internal_join C s x) v ≡ internal_value C s v)
  internal-joins s (x & y & z & a & b & c) (x' & y' & z' & a' & b' & c') = (refl, refl)

  pub internal-IsDeep : IsDeep (internal_copier C)
  unfolding copy_internal copy_both
  internal-IsDeep =
      struct-IsDeep (internal_copier C) (internal_fields C) (internal_split C) (internal_join C)
        (internal_value C) (λ s. simp (bind_assoc, pure-bind) refl) (λ h s. refl) internal-joins
        (both-IsDeep _ _ (pointer-IsDeep _ _ flat-IsDeep) (
          both-IsDeep _ _ P.resources_deep (
            both-IsDeep _ _ (pointer-IsDeep _ _ flat-IsDeep) (
              both-IsDeep _ _ (string_map-IsDeep _) (
                both-IsDeep _ _ (slice-IsDeep _ _ P.toleration_deep)
                  (pointer-IsDeep _ _ P.affinity_deep))))))

  database-joins :
      (s : DatabaseStruct) (x : Both Reference Reference)
      (v : Both (Option (InternalDatabaseSpec K)) (Option ExternalDatabaseSpec))
      → (database_split C (database_join C s x) ≡ x)
        × (database_value C (database_join C s x) v ≡ database_value C s v)
  database-joins s (x & y) (x' & y') = (refl, refl)

  pub database-IsDeep : IsDeep (database_copier C)
  unfolding copy_database copy_both
  database-IsDeep =
      struct-IsDeep (database_copier C) (database_fields C) (database_split C) (database_join C)
        (database_value C) (λ s. simp (bind_assoc, pure-bind) refl) (λ h s. refl) database-joins
        (both-IsDeep _ _ (pointer-IsDeep _ _ internal-IsDeep) (pointer-IsDeep _ _ flat-IsDeep))

  spec-joins :
      (s : SpecStruct T)
      (x : Both Reference (
        Both Reference (
          Both T.ResourcesStruct (
            Both Reference (
              Both DatabaseStruct (
                Both ServiceStruct (
                  Both IngressStruct (
                    Both PersistenceStruct (
                      Both Reference (
                        Both Reference (
                          Both Reference
                            (Both Reference (Both Reference (Both Reference Reference))))))))))))))
      (v : Both (Option (List T.LocalObjectReference)) (
        Both (Option ℤ) (
          Both K.Resources (
            Both (Option (List (EnvVar K))) (
              Both (DatabaseSpec K) (
                Both ServiceConfig (
                  Both IngressConfig (
                    Both PersistenceSpec (
                      Both StringMap (
                        Both StringMap (
                          Both StringMap (
                            Both (Option (List L.Toleration)) (
                              Both
                                (Option K.Affinity)
                                (Both (Option K.IntOrString) (Option K.IntOrString)))))))))))))))
      → (spec_split C (spec_join C s x) ≡ x) × (spec_value C (spec_join C s x) v ≡ spec_value C s v)
  spec-joins s (x & y & z & a & b & c & d & e & f & g & h & i & j & k & l)
        (x' & y' & z' & a' & b' & c' & d' & e' & f' & g' & h' & i' & j' & k' & l') =
      (refl, refl)

  pub spec-IsDeep : IsDeep (spec_copier C)
  unfolding copy_spec copy_both
  spec-IsDeep =
      struct-IsDeep (spec_copier C) (spec_fields C) (spec_split C) (spec_join C) (spec_value C)
        (λ s. simp (bind_assoc, pure-bind) refl) (λ h s. refl) spec-joins
        (both-IsDeep _ _ (slice-IsDeep _ _ flat-IsDeep) (
          both-IsDeep _ _ (pointer-IsDeep _ _ flat-IsDeep) (
            both-IsDeep _ _ P.resources_deep (
              both-IsDeep _ _ (slice-IsDeep _ _ P.env_var_deep) (
                both-IsDeep _ _ database-IsDeep (
                  both-IsDeep _ _ service-IsDeep (
                    both-IsDeep _ _ ingress-IsDeep (
                      both-IsDeep _ _ persistence-IsDeep (
                        both-IsDeep _ _ (string_map-IsDeep _) (
                          both-IsDeep _ _ (string_map-IsDeep _) (
                            both-IsDeep _ _ (string_map-IsDeep _) (
                              both-IsDeep _ _ (slice-IsDeep _ _ P.toleration_deep) (
                                both-IsDeep _ _ (pointer-IsDeep _ _ P.affinity_deep) (
                                  both-IsDeep _ _ (pointer-IsDeep _ _ flat-IsDeep)
                                    (pointer-IsDeep _ _ flat-IsDeep)))))))))))))))

  status-joins :
      (s : StatusStruct) (x : Reference) (v : Option (List (Condition K)))
      → (status_split C (status_join C s x) ≡ x)
        × (status_value C (status_join C s x) v ≡ status_value C s v)
  status-joins s x x' = (refl, refl)

  pub status-IsDeep : IsDeep (status_copier C)
  unfolding copy_status copy_both
  status-IsDeep =
      struct-IsDeep (status_copier C) (status_fields C) (status_split C) (status_join C)
        (status_value C) (λ s. refl) (λ h s. refl) status-joins (slice-IsDeep _ _ P.condition_deep)

  wordpress-joins :
      (s : WordPressStruct T) (x : Both T.ObjectMetaStruct (Both (SpecStruct T) StatusStruct))
      (v : Both (ObjectMeta K) (Both (WordPressSpec K) (WordPressStatus K)))
      → (wordpress_split C (wordpress_join C s x) ≡ x)
        × (wordpress_value C (wordpress_join C s x) v ≡ wordpress_value C s v)
  wordpress-joins s (x & y & z) (x' & y' & z') = (refl, refl)

  pub wordpress-IsDeep : IsDeep (wordpress_copier C)
  unfolding copy_wordpress copy_both
  wordpress-IsDeep =
      struct-IsDeep (wordpress_copier C) (wordpress_fields C) (wordpress_split C) (wordpress_join C)
        (wordpress_value C) (λ s. simp (bind_assoc, pure-bind) refl) (λ h s. refl) wordpress-joins
        (both-IsDeep _ _ P.object_meta_deep (both-IsDeep _ _ spec-IsDeep status-IsDeep))

  list-joins :
      (s : ListStruct T) (x : Both T.ListMetaStruct Reference)
      (v : Both L.ListMeta (Option (List (TypedWordPress K T))))
      → (list_split C (list_join C s x) ≡ x) × (list_value C (list_join C s x) v ≡ list_value C s v)
  list-joins s (x & y) (x' & y') = (refl, refl)

  pub list-IsDeep : IsDeep (list_copier C)
  unfolding copy_list copy_both
  list-IsDeep =
      struct-IsDeep (list_copier C) (list_fields C) (list_split C) (list_join C) (list_value C)
        (λ s. simp (bind_assoc, pure-bind) refl) (λ h s. refl) list-joins
        (both-IsDeep _ _ P.list_meta_deep (slice-IsDeep _ _ wordpress-IsDeep))
