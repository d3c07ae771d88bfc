-- ===== src/Config/Loaded.antt =====
-- What apps/lsp/src/config.ts guarantees of the settings that it loads.
use smart_c_playground.Prelude.{
  ℕ, ◌≤◌, ◌≡◌, true, not, ◌&&◌, ◌||◌, Option, none, some, String, arith, ltb, if_cases, is_some,
}
use smart_c_playground.Text.{Text, codes, byte_length}
use smart_c_playground.Json.{Number, pos, negsuc, fraction, max_safe_integer}
use smart_c_playground.Web.{or_option, is_text}
use smart_c_playground.Config.{
  ConfigError, Result, ok, thrown, ◌>>=◌, Environment, LspConfig, Platform,
  read_optional_absolute_path, integer_within, read_secret, parse_web_origin, parse_port,
  parse_positive_integer, check_sandbox, load_config,
}

-- What holds of the value of a result, if it has one.
abbrev pub Gives {ℓ κ} : {A : Type ℓ} → (A → Type κ) → Result A → Type κ
Gives P (ok a) = P a
Gives P (thrown e) = Unit

Gives-bind {ℓ κ μ} :
    {A : Type ℓ} {B : Type κ} (P : A → Type μ) (Q : B → Type μ) (r : Result A) (next : A → Result B)
    → Gives P r
    → ((a : A) → P a → Gives Q (next a))
    → Gives Q (r >>= next)
Gives-bind P Q (ok a) next p h = h a p
Gives-bind P Q (thrown e) next p h = tt

abbrev pub IsWithin : ℕ → ℕ → ℕ → Type 0
IsWithin low high n = (low ≤ n) × (n ≤ high)

integer_within-IsWithin :
    (low high : ℕ) (e : ConfigError) (n : Number)
    → Gives (IsWithin low high) (integer_within low high e n)
integer_within-IsWithin low high e (pos n) =
    if_cases (Gives (IsWithin low high)) (ltb n low || ltb high n) (λ _. tt)
      (λ h. ground (arith, h))
integer_within-IsWithin low high e (negsuc n) = tt
integer_within-IsWithin low high e fraction = tt

abbrev pub IsSecret : Text → Type 0
IsSecret secret = 32 ≤ byte_length secret

read_secret-IsSecret :
    (secret : Option Text) (name : String) → Gives IsSecret (read_secret secret name)
unfolding read_secret
read_secret-IsSecret none name = tt
read_secret-IsSecret (some secret) name =
    if_cases (Gives IsSecret) (ltb (byte_length secret) 32) (λ _. tt) (λ h. ground (arith, h))

-- Settings with which the service may run: a port, two secrets, limits of one session at least, and, in
-- production, the paths of the sandbox and of the limiter.
pub record IsSafe (e : Environment) (c : LspConfig) : Type 0 where
  pub port : IsWithin 1 65535 c.port
  pub internal_token : IsSecret c.internal_token
  pub signing_secret : IsSecret c.signing_secret
  pub max_sessions : IsWithin 1 max_safe_integer c.max_sessions
  pub max_sessions_per_visitor : IsWithin 1 max_safe_integer c.max_sessions_per_visitor
  pub max_sessions_per_ip : IsWithin 1 max_safe_integer c.max_sessions_per_ip
  pub sandboxed :
      is_text e.node_env (codes "production") ≡ true
      → (is_some c.clangd_sandbox_path && is_some c.clangd_limiter_path) ≡ true

anything {ℓ} : {A : Type ℓ} (r : Result A) → Gives (λ a. Unit {0}) r
anything (ok a) = tt
anything (thrown e) = tt

module _ (p : Platform) where
  parse_port-IsWithin : (raw : Option Text) → Gives (IsWithin 1 65535) (parse_port p raw)
  unfolding parse_port
  parse_port-IsWithin none = omega arith
  parse_port-IsWithin (some raw) =
      integer_within-IsWithin 1 65535 ConfigError.bad_port (p.number_of raw)

  parse_positive_integer-IsWithin :
      (raw : Option Text) (name : String) (default_value : ℕ)
      → IsWithin 1 max_safe_integer default_value
      → Gives (IsWithin 1 max_safe_integer) (parse_positive_integer p raw name default_value)
  unfolding parse_positive_integer
  parse_positive_integer-IsWithin none name default_value h = h
  parse_positive_integer-IsWithin (some raw) name default_value h =
      integer_within-IsWithin 1 max_safe_integer (ConfigError.bad_integer name) (p.number_of raw)

  abbrev IsSandboxed : Option Text → Option Text → Option Text → Type 0
  IsSandboxed node_env sandbox limiter =
      is_text node_env (codes "production") ≡ true → (is_some sandbox && is_some limiter) ≡ true

  check_sandbox-IsSandboxed :
      (node_env sandbox limiter : Option Text)
      → Gives
          (λ checked. IsSandboxed node_env sandbox limiter)
          (check_sandbox p node_env sandbox limiter)
  unfolding check_sandbox
  check_sandbox-IsSandboxed node_env sandbox limiter =
      if_cases (Gives (λ checked. IsSandboxed node_env sandbox limiter))
        (is_text node_env (codes "production") && (not (is_some sandbox) || not (is_some limiter)))
        (λ _. tt) (λ h q. ground (arith, h, q))

  -- If `load_config` gives settings, the port is from 1 to 65535, both secrets have 32 bytes at
  -- least, the three limits on sessions are from 1 to the greatest safe integer, and in production
  -- both the sandbox and the limiter are set.
  pub load_config-IsSafe : (e : Environment) → Gives (IsSafe e) (load_config p e)
  unfolding load_config
  load_config-IsSafe e =
      Gives-bind _ (IsSafe e)
        (read_optional_absolute_path p e.clangd_sandbox_path "CLANGD_SANDBOX_PATH") _ (anything _)
        (λ sandbox _.
          Gives-bind _ (IsSafe e)
            (read_optional_absolute_path p e.clangd_limiter_path "CLANGD_LIMITER_PATH") _
            (anything _)
            (λ limiter _.
              Gives-bind _ (IsSafe e) (check_sandbox p e.node_env sandbox limiter) _
                (check_sandbox-IsSandboxed e.node_env sandbox limiter)
                (λ _ boxed.
                  Gives-bind _ (IsSafe e) (parse_port p (or_option e.lsp_port e.port)) _
                    (parse_port-IsWithin (or_option e.lsp_port e.port))
                    (λ port port_h.
                      Gives-bind _ (IsSafe e) (parse_web_origin p e.web_origin) _ (anything _)
                        (λ origin _.
                          Gives-bind _ (IsSafe e)
                            (read_secret e.internal_service_token "INTERNAL_SERVICE_TOKEN") _
                            (read_secret-IsSecret e.internal_service_token "INTERNAL_SERVICE_TOKEN")
                            (λ token token_h.
                              Gives-bind _ (IsSafe e)
                                (read_secret e.session_signing_secret "SESSION_SIGNING_SECRET") _
                                (read_secret-IsSecret e.session_signing_secret
                                  "SESSION_SIGNING_SECRET")
                                (λ secret secret_h.
                                  Gives-bind _ (IsSafe e)
                                    (parse_positive_integer p e.lsp_max_sessions "LSP_MAX_SESSIONS"
                                      8)
                                    _
                                    (parse_positive_integer-IsWithin e.lsp_max_sessions
                                      "LSP_MAX_SESSIONS" 8 (omega arith))
                                    (λ sessions sessions_h.
                                      Gives-bind _ (IsSafe e)
                                        (parse_positive_integer p e.lsp_max_sessions_per_visitor
                                          "LSP_MAX_SESSIONS_PER_VISITOR" 1)
                                        _
                                        (parse_positive_integer-IsWithin
                                          e.lsp_max_sessions_per_visitor
                                          "LSP_MAX_SESSIONS_PER_VISITOR" 1 (omega arith))
                                        (λ visitors visitors_h.
                                          Gives-bind _ (IsSafe e)
                                            (parse_positive_integer p e.lsp_max_sessions_per_ip
                                              "LSP_MAX_SESSIONS_PER_IP" 2)
                                            _
                                            (parse_positive_integer-IsWithin
                                              e.lsp_max_sessions_per_ip "LSP_MAX_SESSIONS_PER_IP" 2
                                              (omega arith))
                                            (λ ips ips_h. record {
                                              port = port_h;
                                              internal_token = token_h;
                                              signing_secret = secret_h;
                                              max_sessions = sessions_h;
                                              max_sessions_per_visitor = visitors_h;
                                              max_sessions_per_ip = ips_h;
                                              sandboxed = boxed;
                                            }))))))))))
