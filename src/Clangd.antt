-- ===== src/Clangd.antt =====
-- apps/lsp/src/clangd-process.ts: the command that starts a clangd. Arguments are texts.
pub mod Launch
use smart_c_playground.Prelude.{
  ℕ, zero, suc, ◌+◌, ◌*◌, ◌/◌, ◌%◌, ltb, Bool, true, false, Option, none, some, List, [], ◌∷◌, ◌++◌,
  map, String, get_or, is_some, if◌then◌else◌,
}
use smart_c_playground.Text.{Text, codes}
use smart_c_playground.Text.Decimal.{decimal}
use smart_c_playground.Map.{Map}
use smart_c_playground.Manager.State.{Paths}

-- ClangdProcessOptions
pub record ProcessOptions : Type 0 where
  pub clangd_path : Text
  pub workspace_path : Text
  pub sandbox_path : Option Text
  pub limiter_path : Option Text
  pub clangd_arguments : Option (List Text)
  pub hidden_path_for_smoke_test : Option Text

-- A command with its arguments.
pub record Command : Type 0 where
  pub command : Text
  pub arguments : List Text

-- ClangdProcessSpec, with its options cwd, env and shell.
pub record ProcessSpec : Type 0 where
  pub run : Command
  pub cwd : Text
  pub env : Map Text
  pub shell : Bool

abbrev sandbox_workspace_path : Text
sandbox_workspace_path = codes "/workspace"

abbrev clangd_address_space_bytes : ℕ
clangd_address_space_bytes = 384 * 1024 * 1024

abbrev clangd_cpu_seconds : ℕ
clangd_cpu_seconds = 60

abbrev clangd_max_open_files : ℕ
clangd_max_open_files = 128

abbrev clangd_max_file_bytes : ℕ
clangd_max_file_bytes = 64 * 1024 * 1024

-- createClangdArguments
pub create_clangd_arguments : Text → List Text
create_clangd_arguments workspace_path =
    codes "--background-index=false"
    ∷ codes "--clang-tidy=false"
    ∷ (codes "--compile-commands-dir=" ++ workspace_path)
    ∷ map codes (
        "--completion-style=detailed" ∷ "--enable-config=false" ∷ "--header-insertion=never"
        ∷ "--limit-references=100" ∷ "--limit-results=100" ∷ "-j=1" ∷ "--pch-storage=disk"
        ∷ "--log=error" ∷ [])

-- `${limit}:${limit}` after the name of a limit.
abbrev limit_argument : String → ℕ → Text
limit_argument name value = codes name ++ decimal value ++ codes ":" ++ decimal value

-- createLimitedCommand.
pub create_limited_command : Text → List Text → Option Text → Command
create_limited_command clangd_path clangd_arguments none = record {
  command = clangd_path;
  arguments = clangd_arguments;
}
create_limited_command clangd_path clangd_arguments (some limiter_path) = record {
  command = limiter_path;
  arguments =
      limit_argument "--as=" clangd_address_space_bytes
      ∷ limit_argument "--cpu=" clangd_cpu_seconds
      ∷ limit_argument "--nofile=" clangd_max_open_files
      ∷ limit_argument "--fsize=" clangd_max_file_bytes
      ∷ codes "--core=0:0"
      ∷ codes "--"
      ∷ clangd_path
      ∷ clangd_arguments;
}

-- The command in the sandbox, under the smoke test if a path is to be hidden.
pub sandbox_command : Command → Option Text → List Text
sandbox_command limited none = limited.command ∷ limited.arguments
sandbox_command limited (some hidden_path) =
    codes "/bin/sh"
    ∷ codes "-c"
    ∷ codes "test -w /workspace && test ! -e /proc/1 && test ! -e \"$1\" && shift && exec \"$@\""
    ∷ codes "sandbox-smoke"
    ∷ hidden_path
    ∷ limited.command
    ∷ limited.arguments

-- What createBubblewrapArguments puts before the command.
pub bubblewrap_options : Text → List Text
bubblewrap_options workspace_path =
    map codes (
      "--unshare-user" ∷ "--unshare-pid" ∷ "--unshare-net" ∷ "--unshare-ipc" ∷ "--unshare-uts"
      ∷ "--cap-drop" ∷ "ALL" ∷ "--die-with-parent" ∷ "--new-session" ∷ "--ro-bind" ∷ "/usr" ∷ "/usr"
      ∷ "--ro-bind" ∷ "/bin" ∷ "/bin" ∷ "--ro-bind" ∷ "/lib" ∷ "/lib" ∷ "--ro-bind-try" ∷ "/lib64"
      ∷ "/lib64" ∷ "--ro-bind-try" ∷ "/sbin" ∷ "/sbin" ∷ "--dir" ∷ "/etc" ∷ "--ro-bind-try"
      ∷ "/etc/ld.so.cache" ∷ "/etc/ld.so.cache" ∷ "--ro-bind-try" ∷ "/etc/localtime"
      ∷ "/etc/localtime" ∷ "--dev" ∷ "/dev" ∷ "--dir" ∷ "/proc" ∷ "--tmpfs" ∷ "/tmp" ∷ "--bind"
      ∷ [])
    ++ workspace_path
      ∷ sandbox_workspace_path
      ∷ codes "--chdir"
      ∷ sandbox_workspace_path
      ∷ map codes (
          "--clearenv" ∷ "--setenv" ∷ "PATH"
          ∷ "/usr/local/sbin:/usr/local/bin:/usr/sbin:/usr/bin:/sbin:/bin" ∷ "--setenv" ∷ "HOME"
          ∷ [])
    ++ sandbox_workspace_path
      ∷ codes "--setenv"
      ∷ codes "XDG_CACHE_HOME"
      ∷ (sandbox_workspace_path ++ codes "/.cache")
      ∷ map codes (
          "--setenv" ∷ "TMPDIR" ∷ "/tmp" ∷ "--setenv" ∷ "LANG" ∷ "C.UTF-8" ∷ "--setenv" ∷ "LC_ALL"
          ∷ "C.UTF-8" ∷ "--setenv" ∷ "MALLOC_ARENA_MAX" ∷ "1" ∷ "--" ∷ [])

-- createBubblewrapArguments
pub create_bubblewrap_arguments : Text → Command → Option Text → List Text
unfolding bubblewrap_options sandbox_command
create_bubblewrap_arguments workspace_path limited hidden_path =
    bubblewrap_options workspace_path ++ sandbox_command limited hidden_path

pub in_sandbox : Option Text → Text → Command → Option Text → Command
unfolding create_bubblewrap_arguments
in_sandbox none workspace_path limited hidden_path = limited
in_sandbox (some sandbox_path) workspace_path limited hidden_path = record {
  command = sandbox_path;
  arguments = create_bubblewrap_arguments workspace_path limited hidden_path;
}

module _ (paths : Paths) where
  open paths use {join, resolve}

  -- createClangdEnvironment
  pub create_clangd_environment : Text → Map Text
  create_clangd_environment workspace_path =
      (codes "PATH", codes "/usr/local/sbin:/usr/local/bin:/usr/sbin:/usr/bin:/sbin:/bin")
      ∷ (codes "HOME", workspace_path)
      ∷ (codes "XDG_CACHE_HOME", join workspace_path (codes ".cache"))
      ∷ (codes "TMPDIR", workspace_path)
      ∷ (codes "LANG", codes "C.UTF-8")
      ∷ (codes "LC_ALL", codes "C.UTF-8")
      ∷ (codes "MALLOC_ARENA_MAX", codes "1")
      ∷ []

  -- The workspace as clangd sees it.
  abbrev clangd_workspace_path : ProcessOptions → Text
  clangd_workspace_path o =
      if is_some o.sandbox_path then sandbox_workspace_path else resolve o.workspace_path

  -- The arguments of clangd itself.
  pub own_arguments : ProcessOptions → List Text
  unfolding create_clangd_arguments
  own_arguments o = get_or o.clangd_arguments (create_clangd_arguments (clangd_workspace_path o))

  -- createClangdProcessSpec
  pub create_clangd_process_spec : ProcessOptions → ProcessSpec
  unfolding own_arguments create_limited_command in_sandbox create_clangd_environment
  create_clangd_process_spec o =
      let workspace_path = resolve o.workspace_path in
      record {
        run =
            in_sandbox o.sandbox_path workspace_path
              (create_limited_command o.clangd_path (own_arguments o) o.limiter_path)
              o.hidden_path_for_smoke_test;
        cwd = workspace_path;
        env = create_clangd_environment workspace_path;
        shell = false;
      }
