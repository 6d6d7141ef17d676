-- ===== src/Shell.antt =====
-- libsrc/libcpputils/sysutil.cpp: the class `Shell`, the command that it keeps and where the
-- output goes.
pub mod Redirection
pub mod Execution
pub mod Output
pub mod Termination
mod Tests
use cpp_temp_learn.Prelude.{
  ℕ, suc, ◌==◌, Bool, true, false, List, [], Option, none, some, Bytes, take, drop, find_last_byte,
  ltb, if◌then◌else◌,
}
use cpp_temp_learn.Strings.{trim}

pub record Shell : Type 0 where
  pub command : Bytes
  pub output_path : Bytes
  pub output_lines : List Bytes
  pub error_msg : Bytes
  pub exec_status : Bool
  pub shell_available : Bool

-- `Shell()`, with what `system(NULL)` returns
unfoldable pub new_shell : ℕ → Shell
new_shell available = record {
  command = [];
  output_path = [];
  output_lines = [];
  error_msg = [];
  exec_status = true;
  shell_available = available == 1;
}

-- The test of `updateCommand` on the last '>' and the last '"': the '>' of a redirection.
unfoldable pub redirection : Option ℕ → Option ℕ → Option ℕ
redirection none quot = none
redirection (some found) none = some found
redirection (some found) (some quot) = if ltb quot found then some found else none

unfoldable pub update_command : Shell → Bytes → Shell
unfolding find_last_byte redirection
update_command sh s = elim (redirection (find_last_byte b'>' s) (find_last_byte b'"' s)) [
  | none ↦ record sh { command = trim s; output_path = []; output_lines = [] }
  | some found ↦ record sh {
    command = trim (take found s);
    output_path = trim (drop (suc found) s);
    output_lines = [];
  }
]

-- `Shell(const std::string &)`
unfoldable pub shell_of : ℕ → Bytes → Shell
unfolding new_shell update_command
shell_of available s = update_command (new_shell available) s

unfoldable pub set_out_path : Shell → Bytes → Shell
set_out_path sh s = record sh { output_path = s }
