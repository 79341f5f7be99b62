-- ===== src/Names/Laws.antt =====
-- Merged maps, and the labels that a selector asks for.
use operator_wordpress.Base.{
  ◌<>◌, String, ◌==◌, if◌then◌else◌, ◌≡◌, ◌≢◌, refl, ◌↔◌, Option, none, some, List, [], ◌∷◌, arith,
  eq_iff, Bool-cases, inl, inr,
}
use mathlib.Core.Path.{◌∙◌, ap, sym, subst}
use operator_wordpress.Base.StringMap.{StringMap, Entries, get, insert, get-insert, entries}
use operator_wordpress.Kube.{Kube}
use operator_wordpress.Api.{WordPress}
use operator_wordpress.Names.{
  write_all, merge_into, merge_string_maps, common_labels, selector_labels, label_component,
  label_instance, label_managed_by, label_name, wp_name, db_service_name, db_stateful_set_name,
  db_secret_name, wp_pvc_name, hpa_name,
}
use text.Mathlib.TextLemmas.{append_cancel_left, append_cancel_right, append-nil}

-- A key stands once.
abbrev pub IsMap : Entries → Type 0
IsMap [] = Unit
IsMap ((k, v) ∷ m) = (get k m ≡ none) × IsMap m

-- What a map that is written over another gives.
abbrev pub over : Option String → Option String → Option String
over none base = base
over (some v) base = some v

-- The last of the maps that has the key wins.
abbrev pub layered : String → List StringMap → Option String → Option String
layered k [] base = base
layered k (o ∷ os) base = layered k os (over (get k (entries o)) base)

abbrev pub AllMaps : List StringMap → Type 0
AllMaps [] = Unit
AllMaps (o ∷ os) = IsMap (entries o) × AllMaps os

present_over :
    (k j v : String) (es : Entries) (base : Option String)
    → get k es ≡ none
    → over (get j es) (if k == j then some v else base)
      ≡ over (if k == j then some v else get j es) base
present_over k j v es base e = elim (Bool-cases (k == j)) [
  | inl same ↦ simp (same, subst (λ x. get x es ≡ none) ((eq_iff k j).0 same) e)
  | inr differ ↦ rw differ refl
]

get-write_all :
    (j : String) (es out : Entries)
    → IsMap es
    → get j (write_all es out) ≡ over (get j es) (get j out)
unfolding write_all get
get-write_all j [] out m = refl
get-write_all j ((k, v) ∷ es) out (fresh, m) =
    get-write_all j es (insert k v out) m
    ∙ (ap (over (get j es)) (get-insert k j v out) ∙ present_over k j v es (get j out) fresh)

get-merge_into :
    (k : String) (os : List StringMap) (out : Entries)
    → AllMaps os
    → get k (merge_into os out) ≡ layered k os (get k out)
unfolding merge_into
get-merge_into k [] out m = refl
get-merge_into k (o ∷ os) out (m, ms) =
    get-merge_into k os (write_all (entries o) out) ms
    ∙ ap (layered k os) (get-write_all k (entries o) out m)

over-none : (o : Option String) → over o none ≡ o
over-none none = refl
over-none (some v) = refl

-- A key of merged maps has the value of the last map that holds the key, and is missing when none
-- of them does. No map holds a key twice.
pub get-merge_string_maps :
    (k : String) (src : StringMap) (os : List StringMap)
    → IsMap (entries src)
    → AllMaps os
    → get k (entries (merge_string_maps src os)) ≡ layered k os (get k (entries src))
unfolding merge_string_maps entries get
get-merge_string_maps k src os m ms =
    get-merge_into k os (write_all (entries src) []) ms
    ∙ ap (layered k os) (get-write_all k (entries src) [] m ∙ over-none _)

-- Every label of the first map is a label of the second.
abbrev pub Selects : StringMap → StringMap → Type 0
Selects sel labels = (k v : String) → get k (entries sel) ≡ some v → get k (entries labels) ≡ some v

over_kept :
    (o : Option String) (v : String)
    → ((w : String) → o ≡ some w → w ≡ v)
    → over o (some v) ≡ some v
over_kept none v h = refl
over_kept (some w) v h = ap some (h w refl)

over_value : (o : Option String) (v w : String) → over o (some v) ≡ some v → o ≡ some w → w ≡ v
over_value none v w h e = cc
over_value (some x) v w h e = cc

other_label : ◌≢◌ {A = String} label_managed_by label_name
other_label = ground (arith, eq_iff label_managed_by label_name)

module _ {K : Kube} (wp : WordPress K) (component : String) where
  common_labels-IsMap : IsMap (entries (common_labels wp component))
  unfolding common_labels entries get
  common_labels-IsMap = (refl, (refl, (refl, (refl, (refl, tt)))))

  -- The labels of every object contain those that the selector asks for.
  pub selector_labels-Selects-common_labels :
      Selects (selector_labels wp component) (common_labels wp component)
  unfolding common_labels selector_labels get entries
  selector_labels-Selects-common_labels k v e = ground (
    arith,
    eq_iff label_component k,
    eq_iff label_instance k,
    eq_iff label_managed_by k,
    eq_iff label_name k,
    other_label,
  )

  merged_at :
      (pod_labels : StringMap)
      → IsMap (entries pod_labels)
      → (k : String)
      → get k (entries (merge_string_maps (common_labels wp component) (pod_labels ∷ [])))
        ≡ over (get k (entries pod_labels)) (get k (entries (common_labels wp component)))
  merged_at pod_labels m k =
      get-merge_string_maps k (common_labels wp component) (pod_labels ∷ []) common_labels-IsMap
        (m, tt)

  -- The selector matches the pods exactly when no pod label of the user changes the value of
  -- a label that it asks for.
  pub selector_labels-Selects-merged :
      (pod_labels : StringMap)
      → IsMap (entries pod_labels)
      → Selects
          (selector_labels wp component)
          (merge_string_maps (common_labels wp component) (pod_labels ∷ []))
        ↔ ((k v w : String)
            → get k (entries (selector_labels wp component)) ≡ some v
            → get k (entries pod_labels) ≡ some w
            → w ≡ v)
  selector_labels-Selects-merged pod_labels m =
      let held = selector_labels-Selects-common_labels in
      (
        λ sel k v w e u.
            over_value _ v w
              (ap (over _) (sym (held k v e)) ∙ (sym (merged_at pod_labels m k) ∙ sel k v e)) u,
        λ h k v e.
            merged_at pod_labels m k ∙ (ap (over _) (held k v e) ∙ over_kept _ v (λ w. h k v w e)),
      )

suffixed : (s t u : String) → (s <> u ≡ t <> u) ↔ (s ≡ t)
suffixed s t u = (append_cancel_right s t u, λ e. ap (λ x. x <> u) e)

module _ {K : Kube} (a b : WordPress K) where
  -- Two objects have the same name exactly when their Secrets have, or their stateful sets, or
  -- their claims, or their autoscalers.
  pub names_injective :
      ((db_secret_name a ≡ db_secret_name b) ↔ (wp_name a ≡ wp_name b))
      × ((db_stateful_set_name a ≡ db_stateful_set_name b) ↔ (wp_name a ≡ wp_name b))
      × ((wp_pvc_name a ≡ wp_pvc_name b) ↔ (wp_name a ≡ wp_name b))
      × ((hpa_name a ≡ hpa_name b) ↔ (wp_name a ≡ wp_name b))
  unfolding db_secret_name db_stateful_set_name wp_pvc_name hpa_name wp_name
  names_injective = (
    suffixed _ _ "-mysql-credentials",
    suffixed _ _ "-mysql",
    suffixed _ _ "-content",
    suffixed _ _ "-hpa",
  )

module _ {K : Kube} (a : WordPress K) where
  -- The site's Service never has the name of the same object's database Service.
  pub wp_name-ne-db_service_name : wp_name a ≢ db_service_name a
  unfolding wp_name db_service_name
  wp_name-ne-db_service_name e =
      let p : ◌≡◌ {A = String} "" "-mysql" =
        append_cancel_left (wp_name a) "" "-mysql" (append-nil (wp_name a) ∙ e) in
      ground (arith, eq_iff "" "-mysql")
