-- ===== src/Logging/Kernel/Bounds.antt =====
-- libsrc/libcpputils/logging.cpp: how `KernelLogger` stays inside its buffer.
use cpp_temp_learn.Prelude.{
  ℕ, zero, suc, ◌+◌, ◌-◌, ◌*◌, ◌/◌, ◌%◌, ◌^◌, ◌≤◌, ◌<◌, true, false, [], ◌∷◌, ◌++◌, some, ◌≡◌, refl,
  ap, ◌∙◌, inl, inr, ◌⊎◌, arith, Bytes, codes, length, take, drop, length-append, length-take,
  length-overwrite, take-of_length_le, take-append_of_length, append_assoc, ltb, decimal, digits,
  c_text, Bool-cases, ltb→lt, ltb→le, le→leb, ◌==◌, ==_iff,
}
use cpp_temp_learn.Logging.{
  LogSeverity, verbose, debug, info, warning, error, fatal_without_abort, fatal,
}
use cpp_temp_learn.Logging.Kernel.{
  kernel_log_level, printk_size, print_into, kernel_text, too_long_text, format_message, KernelOs,
  kernel_logger,
}

div_lt : (n m : ℕ) → n < 10 * m → n / 10 < m
div_lt n m h = omega (arith, h)

-- A number below a power of ten has at most as many digits as the power says.
length-digits :
    (k fuel n : ℕ) (acc : Bytes)
    → n < 10 ^ (suc k)
    → length (digits fuel n acc) ≤ suc k + length acc
unfolding digits
length-digits k zero n acc h = omega arith
length-digits zero (suc fuel) n acc h = ground (arith, h)
length-digits (suc k) (suc fuel) n acc h =
    let below =
      length-digits k fuel (n / 10) ((b'0' + n % 10) ∷ acc)
        (div_lt n (10 ^ suc k) (omega (arith, h))) in
    ground (arith, below)

length-decimal : (n k : ℕ) → n < 10 ^ (suc k) → length (decimal n) ≤ suc k
unfolding decimal
length-decimal n k h = omega (arith, length-digits k (suc n) n [] h)

length-c_text : (s : Bytes) → length (c_text s) ≤ length s
unfolding c_text
length-c_text [] = omega arith
length-c_text (c ∷ s) = let below = length-c_text s in ground (arith, below)

module _ (buf : Bytes) (room : length buf ≡ printk_size) where
  length-print_into : (text : Bytes) → length (print_into buf text) ≡ printk_size
  unfolding print_into
  length-print_into text =
      let d = take (printk_size - 1) text ++ 0 ∷ [] in
      length-overwrite buf 0 d (
        omega (
          arith,
          room,
          length-append (take (printk_size - 1) text) (0 ∷ []),
          length-take (printk_size - 1) text,
        ))
      ∙ room

  -- A text that is shorter than the buffer stands in it.
  take-print_into :
      (text : Bytes) → length text < printk_size → take (length text) (print_into buf text) ≡ text
  unfolding print_into
  take-print_into text h =
      let rest = drop (0 + length (take (printk_size - 1) text ++ 0 ∷ [])) buf in
      ap (λ t. take (length text) ((t ++ 0 ∷ []) ++ rest))
        (take-of_length_le (printk_size - 1) text (omega (arith, h)))
      ∙ ap (take (length text)) (append_assoc text (0 ∷ []) rest)
      ∙ take-append_of_length text (0 ∷ rest)

  -- Of one that is as long as the buffer the last byte is lost.
  take-print_into-full :
      (text : Bytes)
      → length text ≡ printk_size
      → take printk_size (print_into buf text) ≡ take (printk_size - 1) text ++ 0 ∷ []
  unfolding print_into
  take-print_into-full text h =
      let d = take (printk_size - 1) text ++ 0 ∷ [] in
      let rest = drop (0 + length d) buf in
      let same : printk_size ≡ length d = omega (
        arith,
        h,
        length-append (take (printk_size - 1) text) (0 ∷ []),
        length-take (printk_size - 1) text,
      ) in
      ap (λ (n : ℕ). take n (d ++ rest)) same ∙ take-append_of_length d rest

-- The formats, by the lengths of what they hold.
length-too_long_text :
    (level size : ℕ) (tag : Bytes)
    → level < 10
    → size < 10 ^ 10
    → length (too_long_text level tag size) ≤ length tag + 50
unfolding too_long_text
length-too_long_text level size tag hl hs =
    let d = codes "-byte message too long for printk" ++ 10 ∷ [] in
    let c = decimal size ++ d in
    let b = codes ": " ++ c in
    let a = codes ">" ++ (c_text tag ++ b) in
    omega (
      arith,
      length-append (decimal level) a,
      length-append (c_text tag) b,
      length-append (decimal size) d,
      length-decimal level 0 hl,
      length-decimal size 9 hs,
      length-c_text tag,
    )

length-kernel_text :
    (level : ℕ) (tag msg : Bytes)
    → level < 10
    → length (kernel_text level tag msg) ≤ length tag + length msg + 6
unfolding kernel_text
length-kernel_text level tag msg hl =
    let c = c_text msg ++ 10 ∷ [] in
    let b = codes ": " ++ c in
    let a = codes ">" ++ (c_text tag ++ b) in
    omega (
      arith,
      length-append (decimal level) a,
      length-append (c_text tag) b,
      length-append (c_text msg) (10 ∷ []),
      length-decimal level 0 hl,
      length-c_text tag,
      length-c_text msg,
    )

kernel_log_level-lt : (severity : LogSeverity) → kernel_log_level severity < 10
unfolding kernel_log_level
kernel_log_level-lt verbose = omega arith
kernel_log_level-lt debug = omega arith
kernel_log_level-lt info = omega arith
kernel_log_level-lt warning = omega arith
kernel_log_level-lt error = omega arith
kernel_log_level-lt fatal_without_abort = omega arith
kernel_log_level-lt fatal = omega arith

-- What is sent, by the length of the line that was to be sent.
abbrev pub Sent : Bytes → Bytes → Bytes → Type 0
Sent text notice line =
    ((length text < printk_size) × (line ≡ text))
    ⊎ ((length text ≡ printk_size) × (line ≡ take (printk_size - 1) text ++ 0 ∷ []))
    ⊎ ((printk_size < length text) × (line ≡ notice))

module _ (buf tag msg : Bytes) (severity : LogSeverity) where
  abbrev pub text : Bytes
  text = kernel_text (kernel_log_level severity) tag msg

  abbrev pub notice : Bytes
  notice = too_long_text (kernel_log_level severity) tag (length text)

  format_short :
      ltb printk_size (length text) ≡ false
      → format_message buf (kernel_log_level severity) tag msg ≡ (print_into buf text, length text)
  unfolding format_message
  format_short e = rw (e, format_message) refl

  format_long :
      ltb printk_size (length text) ≡ true
      → format_message buf (kernel_log_level severity) tag msg
        ≡ (print_into (print_into buf text) notice, length notice)
  unfolding format_message
  format_long e = rw (e, format_message) refl

  logger_open :
      {World : Type 0}
      → (os : KernelOs World) (fd : ℕ) (w : World) (buf' : Bytes) (size : ℕ)
      → format_message buf (kernel_log_level severity) tag msg ≡ (buf', size)
      → size ≤ length buf'
      → kernel_logger os (some (some fd)) buf severity tag msg w
        ≡ some (some (some fd), os.writev w fd (take size buf'))
  unfolding kernel_logger
  logger_open os fd w buf' size e h = rw (e, le→leb size (length buf') h) refl

  format_message-Sent :
      length buf ≡ printk_size
      → length tag ≤ 970
      → length msg < 10 ^ 9
      → (buf' : Bytes) × (size : ℕ) × (format_message buf (kernel_log_level severity) tag msg
          ≡ (buf', size))
        × (size ≤ length buf')
        × Sent text notice (take size buf')
  format_message-Sent room ht hm = elim (Bool-cases (ltb printk_size (length text))) [
    | inl e ↦
        let brief : length notice < printk_size = omega (
          arith,
          ht,
          length-too_long_text (kernel_log_level severity) (length text) tag level count,
        ) in
        let once = length-print_into buf room text in
        (
          print_into (print_into buf text) notice,
          length notice,
          format_long e,
          omega (arith, brief, length-print_into (print_into buf text) once notice),
          inr (
              inr (
                ltb→lt printk_size (length text) e,
                take-print_into (print_into buf text) once notice brief,
              )),
        )
    | inr e ↦
        let small : length text ≤ printk_size = ltb→le printk_size (length text) e in
        (
          print_into buf text,
          length text,
          format_short e,
          omega (arith, small, length-print_into buf room text),
          elim (Bool-cases (length text == printk_size)) [
            | inl f ↦
                let full = (==_iff (length text) printk_size).0 f in
                inr (
                  inl (
                    full,
                    ap (λ (n : ℕ). take n (print_into buf text)) full
                        ∙ take-print_into-full buf room text full,
                  ))
            | inr f ↦
                let less : length text < printk_size = ground (arith, small, f) in
                inl (less, take-print_into buf room text less)
          ],
        )
  ]
    where
      level : kernel_log_level severity < 10
      level = kernel_log_level-lt severity

      count : length text < 10 ^ 10
      count = omega (arith, ht, hm, length-kernel_text (kernel_log_level severity) tag msg level)

  -- Once its descriptor is open, `KernelLogger` stays inside its buffer of 1024 bytes where the tag
  -- has at most 970 bytes and the message fewer than 10^9. What it sends is the whole line where that
  -- is shorter than the buffer, the notice where it is longer, and where it is as long as the
  -- buffer, the line with a NUL byte in place of its newline.
  pub kernel_logger-Sent :
      {World : Type 0}
      → (os : KernelOs World) (fd : ℕ) (w : World) → length buf ≡ printk_size
      → length tag ≤ 970
      → length msg < 10 ^ 9
      → (line : Bytes) × (kernel_logger os (some (some fd)) buf severity tag msg w
          ≡ some (some (some fd), os.writev w fd line))
        × Sent text notice line
  kernel_logger-Sent os fd w room ht hm =
      let (buf', size, e, h, sent) = format_message-Sent room ht hm in
      (take size buf', logger_open os fd w buf' size e h, sent)
