-- ===== src/Uevent/Kernel.antt =====
-- libsrc/libcutils/uevent.cpp: the messages that `uevent_kernel_recv` lets through.
use cpp_temp_learn.Prelude.{
  ℕ, Bool, true, false, Option, none, some, ◌≡◌, ◌≢◌, refl, sym, ap, ◌∙◌, ◌⊎◌, inl, inr, Bytes,
  length, ◌==◌, ==_iff, Bool-cases,
}
use cpp_temp_learn.Sockets.Local.{zeros}
use cpp_temp_learn.Uevent.{
  scm_credentials, io_error, Message, Uevent, reject, judge_sender, judge_control,
  uevent_kernel_recv,
}

-- The message comes from the kernel, with the credentials of a uid, and from a group if one is asked
-- for.
abbrev pub FromKernel : Bool → Message → ℕ → Type 0
FromKernel require_group m uid =
    (m.control ≡ some (scm_credentials, uid))
    × (m.nl_pid ≡ 0)
    × (require_group ≡ true → m.nl_groups ≢ 0)

-- What a message is let through as, and what is left of one that is rejected.
abbrev pub Accepted : Bool → Message → Uevent → Type 0
Accepted require_group m r =
    (uid : ℕ) × FromKernel require_group m uid
    × (r ≡ record { result = some m.count; errno = none; uid = some uid; buffer = m.bytes })

abbrev pub Rejected : Bool → Message → Uevent → Type 0
Rejected require_group m r =
    ((uid : ℕ) → ¬ (FromKernel require_group m uid))
    × (r.result ≡ none)
    × (r.errno ≡ some io_error)
    × (r.buffer ≡ zeros (length m.bytes))

abbrev pub Judged : Bool → Message → Uevent → Type 0
Judged require_group m r = Accepted require_group m r ⊎ Rejected require_group m r

reject-Judged :
    (require_group : Bool) (uid : Option ℕ) (m : Message)
    → ((u : ℕ) → ¬ (FromKernel require_group m u))
    → Judged require_group m (reject uid m)
unfolding reject
reject-Judged require_group uid m h = inr (h, refl, refl, refl)

sender_other :
    (require_group : Bool) (uid : ℕ) (m : Message)
    → (m.nl_pid == 0) ≡ false
    → judge_sender require_group uid m ≡ reject (some uid) m
unfolding judge_sender
sender_other require_group uid m p = rw (p, judge_sender) refl

sender_unicast :
    (uid : ℕ) (m : Message)
    → (m.nl_pid == 0) ≡ true
    → (m.nl_groups == 0) ≡ true
    → judge_sender true uid m ≡ reject (some uid) m
unfolding judge_sender
sender_unicast uid m p g = rw (p, g, judge_sender) refl

-- A message that is let through.
abbrev pub passed : ℕ → Message → Uevent
passed uid m = record { result = some m.count; errno = none; uid = some uid; buffer = m.bytes }

sender_group :
    (uid : ℕ) (m : Message)
    → (m.nl_pid == 0) ≡ true
    → (m.nl_groups == 0) ≡ false
    → judge_sender true uid m ≡ passed uid m
unfolding judge_sender
sender_group uid m p g = rw (p, g, judge_sender) refl

sender_any :
    (uid : ℕ) (m : Message) → (m.nl_pid == 0) ≡ true → judge_sender false uid m ≡ passed uid m
unfolding judge_sender
sender_any uid m p = rw (p, judge_sender) refl

judge_sender-Judged :
    (require_group : Bool) (uid : ℕ) (m : Message)
    → m.control ≡ some (scm_credentials, uid)
    → Judged require_group m (judge_sender require_group uid m)
judge_sender-Judged require_group uid m e = elim (Bool-cases (m.nl_pid == 0)) [
  | inr p ↦ rw (sender_other require_group uid m p) (
      reject-Judged require_group (some uid) m
        (λ u (c, z, g). absurd (cc (p, (==_iff m.nl_pid 0).1 z))))
  | inl p ↦ grouped require_group ((==_iff m.nl_pid 0).0 p) p
]
  where
    grouped : (b : Bool) → m.nl_pid ≡ 0 → (m.nl_pid == 0) ≡ true → Judged b m (judge_sender b uid m)
    grouped false z p = rw (sender_any uid m p) (inl (uid, (e, z, λ h. absurd (cc h)), refl))
    grouped true z p = elim (Bool-cases (m.nl_groups == 0)) [
      | inl g ↦
          rw (sender_unicast uid m p g)
            (reject-Judged true (some uid) m (λ u (c, z', n). n refl ((==_iff m.nl_groups 0).0 g)))
      | inr g ↦
          rw (sender_group uid m p g)
            (inl (uid, (e, z, λ h k. absurd (cc (g, (==_iff m.nl_groups 0).1 k))), refl))
    ]

control_other :
    (require_group : Bool) (m : Message) (kind uid : ℕ)
    → (kind == scm_credentials) ≡ false
    → judge_control require_group m (some (kind, uid)) ≡ reject none m
unfolding judge_control
control_other require_group m kind uid e = rw (e, judge_control) refl

control_credentials :
    (require_group : Bool) (m : Message) (kind uid : ℕ)
    → (kind == scm_credentials) ≡ true
    → judge_control require_group m (some (kind, uid)) ≡ judge_sender require_group uid m
unfolding judge_control
control_credentials require_group m kind uid e = rw (e, judge_control) refl

judge_control-Judged :
    (require_group : Bool) (m : Message) (c : Option (ℕ × ℕ))
    → m.control ≡ c
    → Judged require_group m (judge_control require_group m c)
judge_control-Judged require_group m none e =
    unfold judge_control in reject-Judged require_group none m (λ u (c, z, g). absurd (cc (e, c)))
judge_control-Judged require_group m (some (kind, uid)) e =
    elim (Bool-cases (kind == scm_credentials)) [
      | inl k ↦ rw (control_credentials require_group m kind uid k) (
          judge_sender-Judged require_group uid m
            (e ∙ ap (λ (n : ℕ). some (n, uid)) ((==_iff kind scm_credentials).0 k)))
      | inr k ↦ rw (control_other require_group m kind uid k) (
          reject-Judged require_group none m (λ u (c, z, g).
            absurd (cc (k, (==_iff kind scm_credentials).1 (ap kind_of (sym e ∙ c))))))
    ]
  where
    kind_of : Option (ℕ × ℕ) → ℕ
    kind_of none = kind
    kind_of (some (n, u)) = n

recv_message :
    (buffer : Bytes) (m : Message) (require_group : Bool)
    → (m.count == 0) ≡ false
    → uevent_kernel_recv buffer (some m) require_group ≡ judge_control require_group m m.control
unfolding uevent_kernel_recv
recv_message buffer m require_group e = rw (e, uevent_kernel_recv) refl

-- A message with bytes in it gets through `uevent_kernel_recv` unchanged, with the uid of its
-- sender, if it has credentials, comes from the kernel, and comes from a group where one is required;
-- any other message is rejected with EIO, and nothing of it is left in the buffer.
pub uevent_kernel_recv-Judged :
    (buffer : Bytes) (m : Message) (require_group : Bool)
    → m.count ≢ 0
    → Judged require_group m (uevent_kernel_recv buffer (some m) require_group)
uevent_kernel_recv-Judged buffer m require_group h = elim (Bool-cases (m.count == 0)) [
  | inl e ↦ absurd (h ((==_iff m.count 0).0 e))
  | inr e ↦
      rw (recv_message buffer m require_group e)
        (judge_control-Judged require_group m m.control refl)
]
