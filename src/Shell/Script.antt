-- ===== src/Shell/Script.antt =====
-- crates/frances-shell/src/proto.rs: the script that runs the user's and reports its end.
use frances.Prelude.{List, [], ◌∷◌, ◌++◌, if◌then◌else◌}
use frances.Text.{Text, codes}
use frances.Shell.{newline, shell_single_quote, is_bash_name}

abbrev line : Text → Text
line t = t ++ newline ∷ []

-- The environment, in the order of its names.
unfoldable pub exports : List (Text × Text) → Text
unfolding shell_single_quote is_bash_name
exports [] = []
exports ((name, value) ∷ env) =
    let rest = exports env in
    if is_bash_name name
    then line (codes "export " ++ name ++ codes "=" ++ shell_single_quote value) ++ rest
    else rest

unfoldable pub wrapper_script : Text → Text → Text → Text → List (Text × Text) → Text → Text
unfolding exports
wrapper_script user_path cwd_path env_path cwd env nonce =
    line (codes "exec 2>&1")
    ++ line (codes "set +e")
    ++ line (codes "__f_teardown() {")
    ++ line (codes "  __f_ec=$?")
    ++ line (codes "  if [ -n \"${__f_done+x}\" ]; then return; fi")
    ++ line (codes "  __f_done=1")
    ++ line (codes "  if [ -n \"${__f_exit_code+x}\" ]; then __f_ec=$__f_exit_code; fi")
    ++ line (codes "  pwd > " ++ shell_single_quote cwd_path)
    ++ line (codes "  env -0 > " ++ shell_single_quote env_path)
    ++ line (codes "  printf '\\n__F_" ++ nonce ++ codes "_%d__\\n' \"$__f_ec\"")
    ++ line (codes "}")
    ++ line (codes "trap __f_teardown EXIT")
    ++ line (codes "cd -- " ++ shell_single_quote cwd ++ codes " || __f_exit_code=$?")
    ++ line (codes "if [ -z \"${__f_exit_code+x}\" ]; then")
    ++ exports env
    ++ line (codes ". " ++ shell_single_quote user_path)
    ++ line (codes "__f_exit_code=$?")
    ++ line (codes "fi")
    ++ line (codes "__f_teardown")
