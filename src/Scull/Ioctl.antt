-- ===== src/Scull/Ioctl.antt =====
-- `scull_ioctl` of scull/main.c, and the command numbers of scull/scull.h.
pub mod Laws
use linux_device_driver.Common.{
  ℕ, ◌%◌, ◌^◌, ◌≡◌, Bool, true, false, Option, none, some, ◌&&◌, ◌||◌, not, if◌then◌else◌, ltb,
  ◌==◌,
}
use linux_device_driver.Kernel.{Errno, efault, enotty, eperm, Ret, ok, err}
use linux_device_driver.Scull.Device.{Config}

-- A command as the kernel's `_IOC_TYPE`, `_IOC_NR`, `_IOC_DIR` and `_IOC_SIZE` take it apart.
pub record Cmd : Type 0 where
  pub ty : ℕ
  pub nr : ℕ
  pub reads : Bool
  pub writes : Bool
  pub size : ℕ

abbrev pub magic : ℕ
magic = b'x'

abbrev pub max_nr : ℕ
max_nr = 14

-- The kernel's `_IO`, `_IOW`, `_IOR` and `_IOWR`, the last three for an `int`.
abbrev pub io : ℕ → Cmd
io n = record { ty = magic; nr = n; reads = false; writes = false; size = 0 }

abbrev pub io_w : ℕ → Cmd
io_w n = record { ty = magic; nr = n; reads = false; writes = true; size = 4 }

abbrev pub io_r : ℕ → Cmd
io_r n = record { ty = magic; nr = n; reads = true; writes = false; size = 4 }

abbrev pub io_wr : ℕ → Cmd
io_wr n = record { ty = magic; nr = n; reads = true; writes = true; size = 4 }

-- What is set, told, got, queried, exchanged or shifted.
pub data Request : Type 0 where
  reset : Request
  s_quantum t_quantum g_quantum q_quantum x_quantum h_quantum : Request
  s_qset t_qset g_qset q_qset x_qset h_qset : Request
  p_t_size p_q_size : Request

-- The command numbers of scull.h.
unfoldable pub command : Request → Cmd
command reset = io 0
command s_quantum = io_w 1
command s_qset = io_w 2
command t_quantum = io 3
command t_qset = io 4
command g_quantum = io_r 5
command g_qset = io_r 6
command q_quantum = io 7
command q_qset = io 8
command x_quantum = io_wr 9
command x_qset = io_wr 10
command h_quantum = io 11
command h_qset = io 12
command p_t_size = io 13
command p_q_size = io 14

-- The request with a number, and the comparison of whole commands in the `switch`.
unfoldable pub numbered : ℕ → Option Request
numbered n =
    if n == 0
    then some reset
    else if n == 1
    then some s_quantum
    else if n == 2
    then some s_qset
    else if n == 3
    then some t_quantum
    else if n == 4
    then some t_qset
    else if n == 5
    then some g_quantum
    else if n == 6
    then some g_qset
    else if n == 7
    then some q_quantum
    else if n == 8
    then some q_qset
    else if n == 9
    then some x_quantum
    else if n == 10
    then some x_qset
    else if n == 11
    then some h_quantum
    else if n == 12
    then some h_qset
    else if n == 13
    then some p_t_size
    else if n == 14
    then some p_q_size
    else none

abbrev bool_eq : Bool → Bool → Bool
bool_eq true b = b
bool_eq false b = not b

abbrev pub same_cmd : Cmd → Cmd → Bool
same_cmd a b =
    a.ty == b.ty
    && a.nr == b.nr
    && bool_eq a.reads b.reads
    && bool_eq a.writes b.writes
    && a.size == b.size

unfoldable pub request : Cmd → Option Request
unfolding numbered command
request c = elim (numbered c.nr) [
  | none ↦ none
  | some r ↦ if same_cmd c (command r) then some r else none
]

-- The process and its memory: the capability, `access_ok`, the word that `__get_user` finds (or a
-- fault), and whether `__put_user` succeeds.
pub record User : Type 0 where
  pub capable : Bool
  pub access_ok : Bool
  pub word : Option ℕ
  pub put_ok : Bool

-- The parameters after the call, its result, and the word stored through the pointer. An `int` is
-- its 32-bit pattern.
pub record Answer : Type 0 where
  pub config : Config
  pub ret : Ret
  pub stored : Option ℕ

abbrev pub int_of : ℕ → ℕ
int_of n = n % 2 ^ 32

-- `__get_user(x, p)`: the value that `x` has afterwards, 0 on a fault, and the result.
unfoldable pub get_user : Option ℕ → ℕ × Ret
get_user none = (0, err efault)
get_user (some w) = (int_of w, ok 0)

unfoldable pub put_user : User → ℕ → Ret × Option ℕ
put_user u n = if u.put_ok then (ok 0, some n) else (err efault, none)

abbrev pub deny : Config → Answer
deny g = record { config = g; ret = err eperm; stored = none }

-- `retval = __get_user(x, arg); if (retval == 0) retval = __put_user(old, arg);`
abbrev pub exchange : User → ℕ → ℕ × Ret × Option ℕ
exchange u old =
    let (v, got) = get_user u.word in
    elim got [ ok n ↦ let (r, put) = put_user u old in (v, r, put) | err e ↦ (v, err e, none) ]

abbrev pub default_quantum : ℕ
default_quantum = 4000

abbrev pub default_qset : ℕ
default_qset = 1000

unfoldable pub serve : Request → User → ℕ → Config → Answer
unfolding get_user put_user
serve reset u arg g = record {
  config = record g { quantum = default_quantum; qset = default_qset };
  ret = ok 0;
  stored = none;
}
serve s_quantum u arg g =
    if not u.capable
    then deny g
    else (let (v, r) = get_user u.word in
        record { config = record g { quantum = v }; ret = r; stored = none })
serve t_quantum u arg g =
    if not u.capable
    then deny g
    else record { config = record g { quantum = int_of arg }; ret = ok 0; stored = none }
serve g_quantum u arg g =
    let (r, put) = put_user u g.quantum in record { config = g; ret = r; stored = put }
serve q_quantum u arg g = record { config = g; ret = ok g.quantum; stored = none }
serve x_quantum u arg g =
    if not u.capable
    then deny g
    else (let (v, r, put) = exchange u g.quantum in
        record { config = record g { quantum = v }; ret = r; stored = put })
serve h_quantum u arg g =
    if not u.capable
    then deny g
    else record { config = record g { quantum = int_of arg }; ret = ok g.quantum; stored = none }
serve s_qset u arg g =
    if not u.capable
    then deny g
    else (let (v, r) = get_user u.word in
        record { config = record g { qset = v }; ret = r; stored = none })
serve t_qset u arg g =
    if not u.capable
    then deny g
    else record { config = record g { qset = int_of arg }; ret = ok 0; stored = none }
serve g_qset u arg g =
    let (r, put) = put_user u g.qset in record { config = g; ret = r; stored = put }
serve q_qset u arg g = record { config = g; ret = ok g.qset; stored = none }
serve x_qset u arg g =
    if not u.capable
    then deny g
    else (let (v, r, put) = exchange u g.qset in
        record { config = record g { qset = v }; ret = r; stored = put })
serve h_qset u arg g =
    if not u.capable
    then deny g
    else record { config = record g { qset = int_of arg }; ret = ok g.qset; stored = none }
serve p_t_size u arg g = record {
  config = record g { p_buffer = int_of arg };
  ret = ok 0;
  stored = none;
}
serve p_q_size u arg g = record { config = g; ret = ok g.p_buffer; stored = none }

unfoldable pub ioctl : User → Cmd → ℕ → Config → Answer
unfolding request serve
ioctl u c arg g =
    if not (c.ty == magic) || ltb max_nr c.nr
    then record { config = g; ret = err enotty; stored = none }
    else if (c.reads || c.writes) && not u.access_ok
    then record { config = g; ret = err efault; stored = none }
    else elim (request c) [
      | none ↦ record { config = g; ret = err enotty; stored = none }
      | some r ↦ serve r u arg g
    ]
