-- ===== src/Sample/Process.antt =====
-- A process whose calls all succeed, each of which is counted.
use operator_wordpress.Base.{ℕ, suc, String, ◌≡◌, Bool, true, none, List, [], ◌∷◌, ◌⊎◌, inl}
use operator_wordpress.Cluster.{Kind}
use operator_wordpress.Startup.Library.{Runtime, Flags}
use operator_wordpress.Startup.Parsing.{Setting, text, switch, set_all, Parses}

abbrev pub given : List Setting
given = text "metrics-cert-path" "/certs" ∷ switch "enable-http2" true ∷ []

abbrev pub process : Runtime
process = record {
  World = ℕ;
  Error = String;
  Scheme = ℕ;
  SchemeBuilder = Unit;
  Manager = Unit;
  Server = Unit;
  Client = Unit;
  Recorder = String;
  Filter = Unit;
  Config = Unit;
  Checker = Unit;
  TlsRest = Unit;
  Builder = List Kind;
  Predicate = Bool;
  new_scheme = 0;
  add_client_go = λ s. (none, suc s);
  new_builder = λ _. tt;
  register = λ b _. b;
  add_to_scheme = λ _ s. (none, suc s);
  parse = λ vars f v. (inl (set_all given vars f), suc v);
  get_config_or_die = λ v. (inl tt, suc v);
  new_webhook_server = λ _. tt;
  with_authentication_and_authorization = tt;
  new_manager = λ _ _ v. (inl tt, suc v);
  get_client = λ _. tt;
  get_scheme = λ _. 2;
  get_event_recorder_for = λ _ name. name;
  ping = tt;
  add_healthz_check = λ _ _ _ v. (none, suc v);
  add_readyz_check = λ _ _ _ v. (none, suc v);
  start = λ _ v. (none, suc v);
  new_controller_managed_by = λ _. [];
  generation_changed = true;
  for_type = λ k _ b. k ∷ b;
  owns = λ k b. k ∷ b;
  named = λ _ b. b;
  complete = λ _ _ v. (none, suc v);
}

pub process-Parses : Parses process (λ _. given)
process-Parses = record { parsed = λ vars f g v e. given_at _ _ e }
  where
    given_at : (f g : Flags) → ◌≡◌ {A = Flags ⊎ ℕ} (inl f) (inl g) → g ≡ f
    given_at f g e = cc
