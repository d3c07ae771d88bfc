-- ===== src/Clangd/Launch.antt =====
-- What the command of apps/lsp/src/clangd-process.ts runs in the end.
use mathlib.Core.List.{append_assoc}
use smart_c_playground.Prelude.{◌≡◌, refl, ap, sym, ◌∙◌, Option, none, some, List, [], ◌∷◌, ◌++◌}
use smart_c_playground.Text.{Text}
use smart_c_playground.Manager.State.{Paths}
use smart_c_playground.Clangd.{
  ProcessOptions, Command, create_limited_command, sandbox_command, bubblewrap_options,
  own_arguments, in_sandbox, create_clangd_process_spec,
}

abbrev pub words : Command → List Text
words c = c.command ∷ c.arguments

-- The words end with those of the inner command.
abbrev pub EndsIn : List Text → List Text → Type 0
EndsIn outer inner = (before : List Text) × (outer ≡ before ++ inner)

EndsIn-trans : (a b c : List Text) → EndsIn a b → EndsIn b c → EndsIn a c
EndsIn-trans a b c (x, p) (y, q) = (x ++ y, p ∙ ap (λ s. x ++ s) q ∙ sym (append_assoc x y c))

limited-EndsIn :
    (path : Text) (arguments : List Text) (limiter : Option Text)
    → EndsIn (words (create_limited_command path arguments limiter)) (path ∷ arguments)
unfolding create_limited_command
limited-EndsIn path arguments none = ([], refl)
limited-EndsIn path arguments (some limiter) = (_ ∷ _ ∷ _ ∷ _ ∷ _ ∷ _ ∷ _ ∷ [], refl)

sandbox_command-EndsIn :
    (limited : Command) (hidden : Option Text)
    → EndsIn (sandbox_command limited hidden) (words limited)
unfolding sandbox_command
sandbox_command-EndsIn limited none = ([], refl)
sandbox_command-EndsIn limited (some hidden) = (_ ∷ _ ∷ _ ∷ _ ∷ _ ∷ [], refl)

in_sandbox-EndsIn :
    (sandbox : Option Text) (workspace : Text) (limited : Command) (hidden : Option Text)
    → EndsIn (words (in_sandbox sandbox workspace limited hidden)) (words limited)
unfolding in_sandbox
in_sandbox-EndsIn none workspace limited hidden = ([], refl)
in_sandbox-EndsIn (some sandbox) workspace limited hidden =
    EndsIn-trans _ (sandbox_command limited hidden) (words limited)
      (sandbox ∷ bubblewrap_options workspace, refl) (sandbox_command-EndsIn limited hidden)

-- With or without a sandbox, a limiter and a smoke test, the command of a clangd with its arguments
-- ends in the path of clangd and clangd's own arguments.
pub create_clangd_process_spec-EndsIn :
    (paths : Paths) (o : ProcessOptions)
    → EndsIn
        (words (create_clangd_process_spec paths o).run)
        (o.clangd_path ∷ own_arguments paths o)
unfolding create_clangd_process_spec
create_clangd_process_spec-EndsIn paths o =
    let limited = create_limited_command o.clangd_path (own_arguments paths o) o.limiter_path in
    EndsIn-trans _ (words limited) _
      (in_sandbox-EndsIn o.sandbox_path (paths.resolve o.workspace_path) limited
        o.hidden_path_for_smoke_test)
      (limited-EndsIn o.clangd_path (own_arguments paths o) o.limiter_path)
