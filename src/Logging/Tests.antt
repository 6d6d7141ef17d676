-- ===== src/Logging/Tests.antt =====
-- The theorems on the logger at a program that logs into a list.
use cpp_temp_learn.Prelude.{
  ℕ, zero, suc, ◌<◌, ◌≤◌, Bool, true, false, List, [], ◌∷◌, ◌++◌, Option, none, some, ◌≡◌, ◌⊎◌, inl,
  inr, refl, arith, Bytes, codes, length, ◌>>=◌, All, Lacks, c_text, if◌then◌else◌,
}
use cpp_temp_learn.Strings.{split}
use cpp_temp_learn.Logging.{
  LogSeverity, info, warning, fatal, default, Host, Logging, LogFunction, rank, would_log,
  default_aborter,
}
use cpp_temp_learn.FsObject.SmallOs.{Entries, small_os}
use cpp_temp_learn.Logging.Outputs.{PrintOs, get_log_file}
use cpp_temp_learn.Logging.Outputs.LogFile.{Stands, get_log_file-Stands}
use cpp_temp_learn.Logging.Messages.{LogMessageData, complete, destroy_message, abort_if_fatal}
use cpp_temp_learn.Logging.Delivery.{log_all, IsLeft, destroy_message-split, destroy_message-fatal}
use cpp_temp_learn.Logging.Macros.{Place, log_to, plog_to}
use cpp_temp_learn.Logging.Errno.{log_to-plog_to-errno}
use cpp_temp_learn.Logging.Configuration.{init_logging}
use cpp_temp_learn.Logging.Levels.{last_severity, first, init_logging-last_severity}
use cpp_temp_learn.Logging.Kernel.{KernelOs, kernel_logger}
use cpp_temp_learn.Logging.Kernel.Bounds.{text, notice, Sent, kernel_logger-Sent}

-- The lines that were logged, the last one first, and errno.
abbrev Lines : Type 0
Lines = List Bytes × ℕ

abbrev toy : Host Lines
toy = record {
  strerror = λ e. codes "no entry";
  getprogname = codes "prog";
  errno = λ w. w.1;
  set_errno = λ w e. (w.0, e);
  errno_set = λ w e. refl;
}

abbrev keep_line : LogFunction Lines
keep_line id severity tag file line message w = (message ∷ w.0, 9)

abbrev logging : Logging Lines
logging = record {
  logger = keep_line;
  aborter = default_aborter;
  default_tag = none;
  initialized = false;
  minimum = info;
}

abbrev two_lines : LogSeverity → LogMessageData
two_lines severity = record {
  buffer = codes "a" ++ (10 ∷ codes "b");
  file = codes "a.cpp";
  line_number = 7;
  id = default;
  severity = severity;
  tag = none;
  error = some 2;
}

destroy_message-split_example :
    (ps : List Bytes) × (msg : Bytes) × (split (complete toy (two_lines warning)) (10 ∷ [])
      ≡ some ps)
    × (destroy_message toy (two_lines warning) logging ([], 0)
        ≡ abort_if_fatal toy
            (two_lines warning)
            msg
            (some (log_all toy (two_lines warning) ps logging ([], 0))))
    × All (Lacks 10) ps
    × IsLeft toy msg (complete toy (two_lines warning))
unfolding would_log rank
destroy_message-split_example = destroy_message-split toy (two_lines warning) logging ([], 0) refl

destroy_message-fatal_example :
    (ps : List Bytes) × (msg : Bytes) × (split (complete toy (two_lines fatal)) (10 ∷ []) ≡ some ps)
    × IsLeft toy msg (complete toy (two_lines fatal))
    × (destroy_message toy (two_lines fatal) logging ([], 0) ≡ (
        default_aborter (c_text msg) (log_all toy (two_lines fatal) ps logging ([], 0)).1 >>= λ w'.
        some ((log_all toy (two_lines fatal) ps logging ([], 0)).0, w')))
destroy_message-fatal_example = destroy_message-fatal toy (two_lines fatal) logging ([], 0) refl

abbrev here : Place
here = record { file = codes "src/a.cpp"; line = 3; log_tag = none }

log_to-plog_to-errno_example :
    ((s' : Logging Lines) (w' : Lines)
      → log_to toy here default warning (codes "x") logging ([], 4) ≡ some (s', w')
      → toy.errno w' ≡ 4)
    × ((s' : Logging Lines) (w' : Lines)
        → plog_to toy here default warning (codes "x") logging ([], 4) ≡ some (s', w')
        → toy.errno w' ≡ 4)
log_to-plog_to-errno_example =
    log_to-plog_to-errno toy here default warning (codes "x") logging ([], 4)

init_logging-last_severity_example :
    (specs : List Bytes) × (split (codes "*:d *:w") (codes " ") ≡ some specs)
    × (init_logging toy here
          (some (codes "prog"))
          keep_line
          default_aborter
          (some (codes "*:d *:w"))
          logging
          ([], 0)
        ≡ (last_severity info specs >>= λ v.
            some (first toy (some (codes "prog")) keep_line v logging, ([], 0))))
init_logging-last_severity_example =
    init_logging-last_severity toy here (some (codes "prog")) keep_line (codes "*:d *:w") logging
      ([], 0) refl

-- A kernel log as the list of what was written.
abbrev kernel : KernelOs (List Bytes)
kernel = record { open_kmsg = λ w. (w, some 3); writev = λ w fd line. line ∷ w }

abbrev noughts : ℕ → Bytes
noughts zero = []
noughts (suc n) = 0 ∷ noughts n

kernel_logger-Sent_example :
    (line : Bytes) × (kernel_logger kernel
        (some (some 3))
        (noughts 1024)
        warning
        (codes "init")
        (codes "up")
        []
      ≡ some (some (some 3), line ∷ []))
    × Sent
        (text (noughts 1024) (codes "init") (codes "up") warning)
        (notice (noughts 1024) (codes "init") (codes "up") warning)
        line
kernel_logger-Sent_example =
    kernel_logger-Sent (noughts 1024) (codes "init") (codes "up") warning kernel 3 [] refl
      (omega arith) (omega arith)

-- A printer that always opens the file.
abbrev printer : PrintOs Entries
printer = record {
  dirname = λ p. codes "/v/l";
  fopen = λ w p. (w, some 3);
  print = λ w to t. w;
  flush = λ w to. w;
  timestamp = λ w. codes "01-01 00:00:00";
  pid = 1;
  thread_id = 1;
  getprogname = codes "prog";
}

-- Only "/v" is there before.
abbrev sparse : Entries
sparse = (codes "/v", 0x41ff) ∷ []

get_log_file-Stands_example :
    (w1 : Entries) × Stands small_os printer w1 (codes "/v/l/a")
    × (printer.fopen w1 (codes "/v/l/a")
        ≡ ((get_log_file small_os printer (some (codes "/v/l/a")) none sparse).0, some 3))
unfolding get_log_file cpp_temp_learn.Prelude.find_last_byte cpp_temp_learn.Prelude.equal
get_log_file-Stands_example =
    get_log_file-Stands small_os printer (codes "/v/l/a") sparse
      (get_log_file small_os printer (some (codes "/v/l/a")) none sparse).0 3 refl
