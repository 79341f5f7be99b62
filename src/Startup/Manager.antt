-- ===== src/Startup/Manager.antt =====
-- cmd/main.go: `init` and `main`; api/v1alpha1/groupversion_info.go; and `SetupWithManager` of
-- internal/controller/wordpress_controller.go.
use operator_wordpress.Base.{ℕ, Option, none, some, [], ◌∷◌, ◌⊎◌, inl, inr}
use operator_wordpress.Cluster.{
  wordpress, deployment, stateful_set, service, secret, claim, ingress, autoscaler,
}
use operator_wordpress.Startup.Library.{
  Runtime, GroupVersion, wordpress_type, wordpress_list_type, Flags, WordPressReconciler,
}
use operator_wordpress.Startup.Options.{flag_vars, default_flags, manager_options}

abbrev pub group_version : GroupVersion
group_version = record { group = "apps.kubesphere.ai"; version = "v1alpha1" }

-- How the process ends: `main` returns, `os.Exit` with a code, or a panic of `utilruntime.Must`.
pub data Exit : Type 0 where
  returned : Exit
  exited : ℕ → Exit
  panicked : Exit

module _ (R : Runtime) where
  abbrev pub Instance : Type 0
  Instance = WordPressReconciler R.Client R.Scheme R.Recorder

  abbrev pub new_scheme_builder : R.SchemeBuilder
  new_scheme_builder = R.new_builder group_version

  -- The builder after the `init` of the resource's types.
  unfoldable pub scheme_builder : R.SchemeBuilder
  scheme_builder = R.register new_scheme_builder (wordpress_type ∷ wordpress_list_type ∷ [])

  -- `utilruntime.Must` on what `AddToScheme` returns: the scheme, or the panic.
  abbrev pub must : Option R.Error × R.Scheme → Option R.Scheme
  must (none, scheme) = some scheme
  must (some e, scheme) = none

  abbrev pub add_types : Option R.Scheme → Option R.Scheme
  add_types none = none
  add_types (some scheme) = must (R.add_to_scheme scheme_builder scheme)

  unfoldable pub init_scheme : Option R.Scheme
  unfolding scheme_builder
  init_scheme = add_types (must (R.add_client_go R.new_scheme))

  abbrev pub recorder_or : R.Manager → Option R.Recorder → R.Recorder
  recorder_or mgr none = R.get_event_recorder_for mgr "wordpress-controller"
  recorder_or mgr (some recorder) = recorder

  -- The chain of the builder, up to `Complete`.
  unfoldable pub watches : R.Manager → R.Builder
  watches mgr = R.named "wordpress" (
      R.owns autoscaler (
        R.owns ingress (
          R.owns claim (
            R.owns secret (
              R.owns service (
                R.owns stateful_set (
                  R.owns deployment (
                    R.for_type wordpress R.generation_changed
                      (R.new_controller_managed_by mgr)))))))))

  unfoldable pub setup_with_manager : Instance → R.Manager → R.World → Option R.Error × R.World
  unfolding watches
  setup_with_manager r mgr v =
      R.complete (watches mgr) (record r { recorder = some (recorder_or mgr r.recorder) }) v

  -- `if err := ...; err != nil { ...; os.Exit(1) }`, and what follows.
  abbrev pub or_exit : Option R.Error × R.World → (R.World → Exit × R.World) → Exit × R.World
  or_exit (none, v) rest = rest v
  or_exit (some e, v) rest = (exited 1, v)

  unfoldable pub run : R.Manager → R.World → Exit × R.World
  unfolding setup_with_manager
  run mgr v =
      let r : Instance = record {
        client = R.get_client mgr;
        scheme = R.get_scheme mgr;
        recorder = none;
      } in
      or_exit (setup_with_manager r mgr v) λ v.
        or_exit (R.add_healthz_check mgr "healthz" R.ping v) λ v.
          or_exit (R.add_readyz_check mgr "readyz" R.ping v)
            λ v. or_exit (R.start mgr v) λ v. (returned, v)

  abbrev pub run_made : (R.Manager ⊎ R.Error) × R.World → Exit × R.World
  run_made (inl mgr, v) = run mgr v
  run_made (inr e, v) = (exited 1, v)

  abbrev pub with_config : R.Scheme → Flags → (R.Config ⊎ ℕ) × R.World → Exit × R.World
  with_config scheme f (inl config, v) =
      run_made (R.new_manager config (manager_options R scheme f) v)
  with_config scheme f (inr code, v) = (exited code, v)

  abbrev pub with_flags : R.Scheme → (Flags ⊎ ℕ) × R.World → Exit × R.World
  with_flags scheme (inl f, v) = with_config scheme f (R.get_config_or_die v)
  with_flags scheme (inr code, v) = (exited code, v)

  abbrev pub main_with : Option R.Scheme → R.World → Exit × R.World
  main_with none v = (panicked, v)
  main_with (some scheme) v = with_flags scheme (R.parse flag_vars default_flags v)

  -- The process: `init`, then `main`.
  unfoldable pub main : R.World → Exit × R.World
  unfolding init_scheme run manager_options
  main v = main_with init_scheme v
