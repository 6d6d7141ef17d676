-- ===== src/Uevent/Tests.antt =====
-- The theorem on events at a message that a process sends.
use cpp_temp_learn.Prelude.{true, some, codes}
use cpp_temp_learn.Uevent.{Message, uevent_kernel_recv}
use cpp_temp_learn.Uevent.Kernel.{Judged, uevent_kernel_recv-Judged}

abbrev forged : Message
forged = record {
  count = 3;
  control = some (2, 1000);
  nl_pid = 42;
  nl_groups = 1;
  bytes = codes "add";
}

uevent_kernel_recv-Judged_example :
    Judged true forged (uevent_kernel_recv (codes "...") (some forged) true)
uevent_kernel_recv-Judged_example =
    uevent_kernel_recv-Judged (codes "...") forged true (λ e. absurd cc)
