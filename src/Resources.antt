-- ===== src/Resources.antt =====
-- internal/controller/resources.go: the objects of the WordPress site itself.
pub mod Deployment
pub mod Laws
use operator_wordpress.Base.{◌==◌, if◌then◌else◌, none, some, [], ◌∷◌, not, ◌&&◌}
use operator_wordpress.Base.Int.{pos, ltb_ℤ}
use operator_wordpress.Kube.{Kube}
use operator_wordpress.Kube.Meta.{new_meta}
use operator_wordpress.Kube.Workloads.{PersistentVolumeClaim, HorizontalPodAutoscaler}
use operator_wordpress.Kube.Network.{Service, Ingress}
use operator_wordpress.Kube.Outcome.{Outcome, done, ◌>>=◌}
use operator_wordpress.Api.{WordPress}
use operator_wordpress.Names.{
  common_labels, selector_labels, component_wordpress, wp_name, wp_pvc_name, hpa_name,
}
use operator_wordpress.Database.Render.{parse_size}

module _ {K : Kube} where
  unfoldable pub build_wordpress_service : WordPress K → Service K
  build_wordpress_service wp =
      let s = wp.spec.service in
      record {
        metadata =
            new_meta (wp_name wp) wp.metadata.namespace (common_labels wp component_wordpress)
              s.annotations;
        spec = record {
          type = s.type;
          cluster_ip = "";
          session_affinity = "";
          selector = selector_labels wp component_wordpress;
          ports = some (
              record {
                name = "http";
                port = s.port;
                target_port = K.from_int (pos 80);
                protocol = "TCP";
                node_port =
                    if s.type == "NodePort" && ltb_ℤ (pos 0) s.node_port
                    then s.node_port
                    else pos 0;
                rest = K.rest;
              }
              ∷ []);
          rest = K.rest;
        };
        rest = K.rest;
      }

  unfoldable pub build_wordpress_pvc : WordPress K → Outcome K (PersistentVolumeClaim K)
  unfolding parse_size
  build_wordpress_pvc wp = do
    q ← parse_size "persistence.size" wp.spec.persistence.size
    done (record {
      metadata =
          new_meta (wp_pvc_name wp) wp.metadata.namespace (common_labels wp component_wordpress)
            none;
      spec = record {
        access_modes = wp.spec.persistence.access_modes;
        storage_class_name = wp.spec.persistence.storage_class_name;
        requests = ("storage", q) ∷ [];
        rest = K.rest;
      };
      rest = K.rest;
    })

  unfoldable pub build_wordpress_ingress : WordPress K → Ingress K
  build_wordpress_ingress wp =
      let i = wp.spec.ingress in
      record {
        metadata =
            new_meta (wp_name wp) wp.metadata.namespace (common_labels wp component_wordpress)
              i.annotations;
        spec = record {
          ingress_class_name = i.ingress_class_name;
          rules =
              record {
                host = i.host;
                http = some (
                    record {
                      path = "/";
                      path_type = some "Prefix";
                      service_name = wp_name wp;
                      service_port = wp.spec.service.port;
                      rest = K.rest;
                    }
                    ∷ []);
              }
              ∷ [];
          tls =
              if not (i.tls_secret_name == "") && not (i.host == "")
              then some (record { hosts = i.host ∷ []; secret_name = i.tls_secret_name } ∷ [])
              else none;
          rest = K.rest;
        };
        rest = K.rest;
      }

  unfoldable pub build_wordpress_hpa : WordPress K → HorizontalPodAutoscaler K
  build_wordpress_hpa wp =
      let a = wp.spec.autoscaling in
      record {
        metadata =
            new_meta (hpa_name wp) wp.metadata.namespace (common_labels wp component_wordpress)
              none;
        spec = record {
          scale_target_ref = record {
            api_version = "apps/v1";
            kind = "Deployment";
            name = wp_name wp;
          };
          min_replicas = some a.min_replicas;
          max_replicas = a.max_replicas;
          metrics =
              record {
                type = "Resource";
                resource = some (record {
                  name = "cpu";
                  target = record {
                    type = "Utilization";
                    average_utilization = some a.target_cpu_utilization_percentage;
                    rest = K.rest;
                  };
                });
                rest = K.rest;
              }
              ∷ [];
          rest = K.rest;
        };
        rest = K.rest;
      }
