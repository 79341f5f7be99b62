-- ===== src/Startup/Parsing.antt =====
-- What the command line makes of the flags.
use operator_wordpress.Base.{String, Bool, ◌==◌, ◌≡◌, if◌then◌else◌, List, [], ◌∷◌, inl}
use operator_wordpress.Startup.Library.{Runtime, Flags, Var, string_var, bool_var}

-- A flag on the command line, by its name, and its value.
pub data Setting : Type 0 where
  text : String → String → Setting
  switch : String → Bool → Setting

-- What the package flag documents: a setting changes the variable of the flag that has its name,
-- and the settings take effect in turn.
abbrev pub set_var : Setting → Var → Flags → Flags
set_var (text m v) (string_var n _ change) f = change (λ x. if m == n then v else x) f
set_var (text m v) (bool_var _ _ _) f = f
set_var (switch m b) (string_var _ _ _) f = f
set_var (switch m b) (bool_var n _ change) f = change (λ x. if m == n then b else x) f

abbrev pub set_one : Setting → List Var → Flags → Flags
set_one s [] f = f
set_one s (var ∷ vars) f = set_one s vars (set_var s var f)

abbrev pub set_all : List Setting → List Var → Flags → Flags
set_all [] vars f = f
set_all (s ∷ line) vars f = set_all line vars (set_one s vars f)

pub record Parses (R : Runtime) (command_line : R.World → List Setting) : Type 0 where
  pub parsed :
      (vars : List Var) (f g : Flags) (v : R.World)
      → (R.parse vars f v).0 ≡ inl g
      → g ≡ set_all (command_line v) vars f

-- The last value that the command line gives to a flag, or the default.
abbrev pub last_text : String → String → List Setting → String
last_text n d [] = d
last_text n d (text m v ∷ line) = last_text n (if m == n then v else d) line
last_text n d (switch m b ∷ line) = last_text n d line

abbrev pub last_switch : String → Bool → List Setting → Bool
last_switch n d [] = d
last_switch n d (text m v ∷ line) = last_switch n d line
last_switch n d (switch m b ∷ line) = last_switch n (if m == n then b else d) line

-- Each variable has the value of its own flag, or else the value in `f`.
abbrev Reads : Flags → List Setting → Flags → Type 0
Reads f line g =
    (g.metrics_addr ≡ last_text "metrics-bind-address" f.metrics_addr line)
    × (g.probe_addr ≡ last_text "health-probe-bind-address" f.probe_addr line)
    × (g.enable_leader_election ≡ last_switch "leader-elect" f.enable_leader_election line)
    × (g.secure_metrics ≡ last_switch "metrics-secure" f.secure_metrics line)
    × (g.webhook_cert_path ≡ last_text "webhook-cert-path" f.webhook_cert_path line)
    × (g.webhook_cert_name ≡ last_text "webhook-cert-name" f.webhook_cert_name line)
    × (g.webhook_cert_key ≡ last_text "webhook-cert-key" f.webhook_cert_key line)
    × (g.metrics_cert_path ≡ last_text "metrics-cert-path" f.metrics_cert_path line)
    × (g.metrics_cert_name ≡ last_text "metrics-cert-name" f.metrics_cert_name line)
    × (g.metrics_cert_key ≡ last_text "metrics-cert-key" f.metrics_cert_key line)
    × (g.enable_http2 ≡ last_switch "enable-http2" f.enable_http2 line)
