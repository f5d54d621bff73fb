-- ===== src/Scull/Ioctl/Laws.antt =====
-- Who may change what by `scull_ioctl`, and what each command answers.
use linux_device_driver.Common.{
  sym, ap, ◌∙◌, ℕ, ◌≡◌, ◌≢◌, refl, ◌⊎◌, inl, inr, Bool, true, false, none, some, arith,
  Option-cases, Bool-cases, ◌||◌, ◌&&◌, not, ltb, ◌==◌,
}
use linux_device_driver.Kernel.{efault, enotty, ok, err}
use linux_device_driver.Kernel.Clash.{none-ne-some, some_injective}
use linux_device_driver.Scull.Device.{Config}
use linux_device_driver.Scull.Ioctl.{
  Cmd, Request, reset, s_quantum, t_quantum, x_quantum, h_quantum, p_t_size, command, numbered,
  request, same_cmd, User, Answer, int_of, serve, ioctl, magic, max_nr, default_quantum,
  default_qset,
}

-- Each command number is decoded to its own request.
pub request-command : (r : Request) → request (command r) ≡ some r
unfolding request
request-command reset = refl
request-command _ = refl

and_left : (a b : Bool) → (a && b) ≡ true → a ≡ true
and_left a b h = ground arith

and_right : (a b : Bool) → (a && b) ≡ true → b ≡ true
and_right a b h = ground arith

same_cmd-eq : (a b : Cmd) → same_cmd a b ≡ true → a ≡ b
same_cmd-eq a b h = ground arith

-- The `switch` takes a case only where the whole command is the case's.
pub command-request : (c : Cmd) (r : Request) → request c ≡ some r → c ≡ command r
unfolding request
command-request c r e = elim (Option-cases (numbered c.nr)) [
  | inl no_nr ↦ absurd (none-ne-some r (sym (rw (no_nr, request) refl) ∙ e))
  | inr (q, nr) ↦ elim (Bool-cases (same_cmd c (command q))) [
    | inl same ↦
        let found : request c ≡ some q = rw (nr, request) (rw same refl) in
        same_cmd-eq c (command q) same ∙ ap command (some_injective (sym found ∙ e))
    | inr other ↦
        let missed : request c ≡ none = rw (nr, request) (rw other refl) in
        absurd (none-ne-some r (sym missed ∙ e))
  ]
]

-- The parameters that a call leaves to a process with no privilege.
abbrev Unprivileged : Cmd → ℕ → Config → Config → Type 0
Unprivileged c arg g g' =
    (g' ≡ g)
    ⊎ (((c ≡ command reset) × (g' ≡ record g { quantum = default_quantum; qset = default_qset }))
        ⊎ ((c ≡ command p_t_size) × (g' ≡ record g { p_buffer = int_of arg })))

serve-Unprivileged :
    (c : Cmd) (r : Request) (u : User) (arg : ℕ) (g : Config)
    → c ≡ command r
    → u.capable ≡ false
    → Unprivileged c arg g (serve r u arg g).config
unfolding serve
serve-Unprivileged c reset u arg g e h = inr (inl (e, refl))
serve-Unprivileged c p_t_size u arg g e h = inr (inr (e, refl))
serve-Unprivileged c _ u arg g e h = inl (ground arith)

-- How a call ends: refused by the checks before the `switch` or by its `default`, with the
-- parameters as they were, or served.
abbrev Ends : User → Cmd → ℕ → Config → Answer → Type 0
Ends u c arg g a =
    ((a.config ≡ g) × (a.stored ≡ none) × ((a.ret ≡ err enotty) ⊎ (a.ret ≡ err efault)))
    ⊎ ((r : Request) × (c ≡ command r) × (a ≡ serve r u arg g))

ioctl-Ends : (u : User) (c : Cmd) (arg : ℕ) (g : Config) → Ends u c arg g (ioctl u c arg g)
unfolding ioctl
ioctl-Ends u c arg g = elim (Bool-cases (not (c.ty == magic) || ltb max_nr c.nr)) [
  | inl wrong ↦ rw wrong (inl (refl, refl, inl refl))
  | inr right ↦ rw right (elim (Bool-cases ((c.reads || c.writes) && not u.access_ok)) [
    | inl bad ↦ rw bad (inl (refl, refl, inr refl))
    | inr good ↦ rw good (elim (Option-cases (request c)) [
      | inl unknown ↦ rw (unknown, ioctl) (inl (refl, refl, inl refl))
      | inr (r, known) ↦ rw (known, ioctl) (inr (r, command-request c r known, refl))
    ])
  ])
]

-- A process without CAP_SYS_ADMIN changes no parameter of the module, but for two commands that
-- check nothing: the reset to the defaults, and the size of the pipes' buffers.
pub ioctl-Unprivileged :
    (u : User) (c : Cmd) (arg : ℕ) (g : Config)
    → u.capable ≡ false
    → Unprivileged c arg g (ioctl u c arg g).config
ioctl-Unprivileged u c arg g h = elim (ioctl-Ends u c arg g) [
  | inl refused ↦ inl refused.0
  | inr (r, known, served) ↦ rw served (serve-Unprivileged c r u arg g known h)
]

-- A command that is none of the driver's is refused, with `-ENOTTY` or `-EFAULT`, and changes
-- nothing.
pub ioctl_unknown :
    (u : User) (c : Cmd) (arg : ℕ) (g : Config)
    → ((r : Request) → c ≢ command r)
    → let a = ioctl u c arg g in
      (a.config ≡ g) × (a.stored ≡ none) × ((a.ret ≡ err enotty) ⊎ (a.ret ≡ err efault))
ioctl_unknown u c arg g h = elim (ioctl-Ends u c arg g) [
  | inl refused ↦ refused
  | inr (r, known, served) ↦ absurd (h r known)
]

-- The fifteen commands of scull.h pass the checks, and reach their own case.
pub ioctl-command :
    (r : Request) (u : User) (arg : ℕ) (g : Config)
    → u.access_ok ≡ true
    → ioctl u (command r) arg g ≡ serve r u arg g
unfolding ioctl command
ioctl-command reset u arg g h = refl
ioctl-command _ u arg g h = ground arith

-- The commands that give the quantum the value `v`, by the pointer or by the argument.
pub data Sets (u : User) (arg : ℕ) : Request → ℕ → Type 0 where
  by_pointer : {w : ℕ} → u.word ≡ some w → Sets u arg s_quantum (int_of w)
  by_argument : Sets u arg t_quantum (int_of arg)
  by_exchange : {w : ℕ} → u.word ≡ some w → Sets u arg x_quantum (int_of w)
  by_shift : Sets u arg h_quantum (int_of arg)

-- How a setting command hands out the old value: not at all, through the pointer, or as result.
abbrev HandsOut : Request → ℕ → Answer → Type 0
HandsOut x_quantum old a = (a.ret ≡ ok 0) × (a.stored ≡ some old)
HandsOut h_quantum old a = (a.ret ≡ ok old) × (a.stored ≡ none)
HandsOut _ old a = (a.ret ≡ ok 0) × (a.stored ≡ none)

-- Where the user's pointer cannot be read, the two commands that set the quantum through it
-- answer `-EFAULT`, and the quantum is 0 afterwards: it is not kept.
pub fault_zeroes_quantum :
    (u : User) (r : Request) (arg : ℕ) (g : Config)
    → (r ≡ s_quantum) ⊎ (r ≡ x_quantum)
    → u.capable ≡ true
    → u.access_ok ≡ true
    → u.word ≡ none
    → let a = ioctl u (command r) arg g in
      (a.ret ≡ err efault) × (a.config ≡ record g { quantum = 0 })
unfolding serve
fault_zeroes_quantum u r arg g which cap acc bad = rw (ioctl-command r u arg g acc) (by_case which)
  where
    by_case :
        (r ≡ s_quantum) ⊎ (r ≡ x_quantum)
        → ((serve r u arg g).ret ≡ err efault)
          × ((serve r u arg g).config ≡ record g { quantum = 0 })
    by_case (inl e) = rw e (ground arith)
    by_case (inr e) = rw e (ground arith)
