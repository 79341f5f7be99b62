-- ===== src/Sample/GoMemory.antt =====
-- Memory as the deep copies see it: the cells of a WordPress object, and its copiers. The structs of
-- the Kubernetes libraries are flat in it, but for a toleration, which is a pointer to a string.
pub mod Held
use operator_wordpress.Base.{String, refl, Option, none, some, List}
use operator_wordpress.Base.Int.{ℤ}
use operator_wordpress.Base.StringMap.{Entries}
use operator_wordpress.Kube.Meta.{ObjectMeta, Condition}
use operator_wordpress.Kube.Pods.{EnvVar}
use operator_wordpress.Api.{SecretKeyRef, ExternalDatabaseSpec, AutoscalingSpec}
use operator_wordpress.DeepCopy.Heap.{Stored, Reference}
use operator_wordpress.DeepCopy.Copier.{flat, pointer}
use operator_wordpress.DeepCopy.Copier.Laws.Structs.{flat-IsDeep}
use operator_wordpress.DeepCopy.Copier.Laws.References.{pointer-IsDeep}
use operator_wordpress.DeepCopy.Structs.{
  Types, Library, Cells, IngressStruct, ServiceStruct, PersistenceStruct, DatabaseStruct,
  InternalDatabaseStruct, SpecStruct, StatusStruct, WordPressStruct, ListStruct,
}
use operator_wordpress.DeepCopy.Laws.{DeepLibrary}
use operator_wordpress.Sample.{kube}

abbrev pub types : Types
types = record {
  TypeMeta = String;
  LocalObjectReference = String;
  ResourcesStruct = Unit;
  AffinityStruct = Unit;
  TolerationStruct = Reference;
  EnvVarStruct = EnvVar kube;
  ConditionStruct = Condition kube;
  ObjectMetaStruct = ObjectMeta kube;
  ListMetaStruct = String;
}

pub data Cell : Type 0 where
  text : String → Cell
  number : ℤ → Cell
  map_entries : Entries → Cell
  affinity_struct : Cell
  texts : List String → Cell
  toleration_structs : List Reference → Cell
  env_vars : List (EnvVar kube) → Cell
  condition_structs : List (Condition kube) → Cell
  secret_key_ref : SecretKeyRef → Cell
  external : ExternalDatabaseSpec → Cell
  autoscaling : AutoscalingSpec → Cell
  ingress : IngressStruct → Cell
  service : ServiceStruct → Cell
  persistence : PersistenceStruct → Cell
  database : DatabaseStruct → Cell
  internal : InternalDatabaseStruct types → Cell
  spec : SpecStruct types → Cell
  status : StatusStruct → Cell
  wordpress : WordPressStruct types → Cell
  wordpresses : List (WordPressStruct types) → Cell
  wordpress_list : ListStruct types → Cell

abbrev pub text_cell : Stored Cell String
text_cell = record {
  into = text;
  from = λ c. elim c [ text a ↦ some a | _ ↦ none ];
  from-into = λ a. refl;
}

abbrev pub library : Library kube types
library = record {
  Cell = Cell;
  Toleration = Option String;
  ListMeta = String;
  resources = flat;
  affinity = flat;
  toleration = pointer text_cell flat;
  env_var = flat;
  condition = flat;
  object_meta = flat;
  list_meta = flat;
  tolerations_value = λ _. tt;
  pull_secrets_value = λ _. tt;
  string = text_cell;
  int32 = record {
    into = number;
    from = λ c. elim c [ number a ↦ some a | _ ↦ none ];
    from-into = λ a. refl;
  };
  int_or_string = record {
    into = number;
    from = λ c. elim c [ number a ↦ some a | _ ↦ none ];
    from-into = λ a. refl;
  };
  entries = record {
    into = map_entries;
    from = λ c. elim c [ map_entries a ↦ some a | _ ↦ none ];
    from-into = λ a. refl;
  };
  affinity_cell = record {
    into = λ a. affinity_struct;
    from = λ c. elim c [ affinity_struct ↦ some tt | _ ↦ none ];
    from-into = λ a. refl;
  };
  access_modes = record {
    into = texts;
    from = λ c. elim c [ texts a ↦ some a | _ ↦ none ];
    from-into = λ a. refl;
  };
  references = record {
    into = texts;
    from = λ c. elim c [ texts a ↦ some a | _ ↦ none ];
    from-into = λ a. refl;
  };
  tolerations = record {
    into = toleration_structs;
    from = λ c. elim c [ toleration_structs a ↦ some a | _ ↦ none ];
    from-into = λ a. refl;
  };
  env_vars = record {
    into = env_vars;
    from = λ c. elim c [ env_vars a ↦ some a | _ ↦ none ];
    from-into = λ a. refl;
  };
  conditions = record {
    into = condition_structs;
    from = λ c. elim c [ condition_structs a ↦ some a | _ ↦ none ];
    from-into = λ a. refl;
  };
}

pub library-Deep : DeepLibrary library
library-Deep = record {
  resources_deep = flat-IsDeep;
  affinity_deep = flat-IsDeep;
  env_var_deep = flat-IsDeep;
  condition_deep = flat-IsDeep;
  object_meta_deep = flat-IsDeep;
  list_meta_deep = flat-IsDeep;
  toleration_deep = pointer-IsDeep text_cell flat flat-IsDeep;
}

abbrev pub cells : Cells library
cells = record {
  secret_key_ref = record {
    into = secret_key_ref;
    from = λ c. elim c [ secret_key_ref a ↦ some a | _ ↦ none ];
    from-into = λ a. refl;
  };
  external = record {
    into = external;
    from = λ c. elim c [ external a ↦ some a | _ ↦ none ];
    from-into = λ a. refl;
  };
  autoscaling = record {
    into = autoscaling;
    from = λ c. elim c [ autoscaling a ↦ some a | _ ↦ none ];
    from-into = λ a. refl;
  };
  ingress = record {
    into = ingress;
    from = λ c. elim c [ ingress a ↦ some a | _ ↦ none ];
    from-into = λ a. refl;
  };
  service = record {
    into = service;
    from = λ c. elim c [ service a ↦ some a | _ ↦ none ];
    from-into = λ a. refl;
  };
  persistence = record {
    into = persistence;
    from = λ c. elim c [ persistence a ↦ some a | _ ↦ none ];
    from-into = λ a. refl;
  };
  database = record {
    into = database;
    from = λ c. elim c [ database a ↦ some a | _ ↦ none ];
    from-into = λ a. refl;
  };
  internal = record {
    into = internal;
    from = λ c. elim c [ internal a ↦ some a | _ ↦ none ];
    from-into = λ a. refl;
  };
  spec = record {
    into = spec;
    from = λ c. elim c [ spec a ↦ some a | _ ↦ none ];
    from-into = λ a. refl;
  };
  status = record {
    into = status;
    from = λ c. elim c [ status a ↦ some a | _ ↦ none ];
    from-into = λ a. refl;
  };
  wordpress = record {
    into = wordpress;
    from = λ c. elim c [ wordpress a ↦ some a | _ ↦ none ];
    from-into = λ a. refl;
  };
  wordpresses = record {
    into = wordpresses;
    from = λ c. elim c [ wordpresses a ↦ some a | _ ↦ none ];
    from-into = λ a. refl;
  };
  wordpress_list = record {
    into = wordpress_list;
    from = λ c. elim c [ wordpress_list a ↦ some a | _ ↦ none ];
    from-into = λ a. refl;
  };
}
