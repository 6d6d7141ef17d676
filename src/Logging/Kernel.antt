-- ===== src/Logging/Kernel.antt =====
-- libsrc/libcpputils/logging.cpp: `KernelLogger`.
--
-- `snprintf` is written out as the text that it formats and what it puts into the buffer. Lengths are
-- those of texts that fit in memory, so that nothing wraps around.
pub mod Bounds
use cpp_temp_learn.Prelude.{
  ℕ, ◌-◌, ◌≤◌, Bool, true, false, [], ◌∷◌, ◌++◌, Option, none, some, Bytes, codes, length, take,
  overwrite, ltb, leb, decimal, c_text, if◌then◌else◌,
}
use cpp_temp_learn.Logging.{
  LogSeverity, verbose, debug, info, warning, error, fatal_without_abort, fatal,
}

-- `kLogSeverityToKernelLogLevel`
unfoldable pub kernel_log_level : LogSeverity → ℕ
kernel_log_level verbose = 7
kernel_log_level debug = 7
kernel_log_level info = 6
kernel_log_level warning = 4
kernel_log_level error = 3
kernel_log_level fatal_without_abort = 2
kernel_log_level fatal = 2

-- `sizeof(buf)`
abbrev pub printk_size : ℕ
printk_size = 1024

-- What `snprintf(buf, sizeof(buf), ...)` leaves in the buffer, by the text that is formatted.
unfoldable pub print_into : Bytes → Bytes → Bytes
print_into buf text = overwrite buf 0 (take (printk_size - 1) text ++ 0 ∷ [])

-- "<%d>%s: %s\n"
unfoldable pub kernel_text : ℕ → Bytes → Bytes → Bytes
unfolding decimal c_text
kernel_text level tag msg =
    codes "<"
    ++ (decimal level ++ (codes ">" ++ (c_text tag ++ (codes ": " ++ (c_text msg ++ 10 ∷ [])))))

-- "<%d>%s: %zu-byte message too long for printk\n"
unfoldable pub too_long_text : ℕ → Bytes → ℕ → Bytes
unfolding decimal c_text
too_long_text level tag size =
    codes "<"
    ++ (decimal level
        ++ (codes ">"
            ++ (c_text tag
                ++ (codes ": "
                    ++ (decimal size ++ (codes "-byte message too long for printk" ++ 10 ∷ []))))))

-- The buffer and `size` behind the two calls of `snprintf`.
unfoldable pub format_message : Bytes → ℕ → Bytes → Bytes → Bytes × ℕ
unfolding print_into kernel_text too_long_text
format_message buf level tag msg =
    let text = kernel_text level tag msg in
    let size = length text in
    let notice = too_long_text level tag size in
    if ltb printk_size size
    then (print_into (print_into buf text) notice, length notice)
    else (print_into buf text, size)

-- `open_kmsg` is `OpenKmsg`, and `writev` gets the bytes of the one buffer.
pub record KernelOs (World : Type 0) : Type 0 where
  pub open_kmsg : World → World × Option ℕ
  pub writev : World → ℕ → Bytes → World

module _ {World : Type 0} (os : KernelOs World) where
  open os use {open_kmsg, writev}

  -- The initialization of `klog_fd`, which is none before the first call.
  unfoldable pub open_once : Option (Option ℕ) → World → World × Option ℕ
  open_once none w = open_kmsg w
  open_once (some fd) w = (w, fd)

  -- `KernelLogger`, on what the buffer holds by chance: `klog_fd` and the world, or none where more is
  -- written than the buffer holds.
  unfoldable pub kernel_logger :
      Option (Option ℕ)
      → Bytes
      → LogSeverity
      → Bytes
      → Bytes
      → World
      → Option (Option (Option ℕ) × World)
  unfolding open_once kernel_log_level format_message
  kernel_logger klog_fd buf severity tag msg w =
      let (w', fd) = open_once klog_fd w in
      let (buf', size) = format_message buf (kernel_log_level severity) tag msg in
      elim fd [
        | none ↦ some (some none, w')
        | some f ↦
            if leb size (length buf')
            then some (some (some f), writev w' f (take size buf'))
            else none
      ]
