-- ===== src/Scullc/Ioctl.antt =====
-- `scullc_ioctl` of scullc/main.c, and the command numbers of scullc/scullc.h. The header lacks
-- SCULLC_IOCRESET, which is a parameter; an `int` is its 32-bit pattern.
pub mod Raise
use linux_device_driver.Common.{
  ℕ, ◌%◌, ◌^◌, Bool, Option, none, some, ◌&&◌, ◌||◌, not, if◌then◌else◌, ltb, ◌==◌,
}
use linux_device_driver.Kernel.{efault, enotty, Ret, ok, err}
use linux_device_driver.Scull.Ioctl.{
  Cmd, Request, reset, s_quantum, t_quantum, g_quantum, q_quantum, x_quantum, h_quantum, s_qset,
  t_qset, g_qset, q_qset, x_qset, h_qset, p_t_size, p_q_size, io, io_w, io_r, io_wr, magic,
  same_cmd, User, int_of, get_user, put_user, exchange,
}
use linux_device_driver.Scullc.{Config}

abbrev pub max_nr : ℕ
max_nr = 12

-- The parameters after the call, its result, and the word stored through the pointer.
pub record Answer : Type 0 where
  pub config : Config
  pub ret : Ret
  pub stored : Option ℕ

-- The defaults of scullc.h.
abbrev pub default_quantum : ℕ
default_quantum = 4000

abbrev pub default_qset : ℕ
default_qset = 500

abbrev set_quantum : Config → ℕ → Config
set_quantum g n = record g { quantum = n }

abbrev set_qset : Config → ℕ → Config
set_qset g n = record g { qset = n }

abbrev answer : Config → Ret → Option ℕ → Answer
answer g r stored = record { config = g; ret = r; stored = stored }

-- The cases of the `switch`; none of them asks who the caller is.
unfoldable pub serve : Request → User → ℕ → Config → Answer
unfolding get_user put_user
serve reset u arg g = answer (set_qset (set_quantum g default_quantum) default_qset) (ok 0) none
serve s_quantum u arg g = let (v, r) = get_user u.word in answer (set_quantum g v) r none
serve t_quantum u arg g = answer (set_quantum g (int_of arg)) (ok 0) none
serve g_quantum u arg g = let (r, put) = put_user u g.quantum in answer g r put
serve q_quantum u arg g = answer g (ok g.quantum) none
serve x_quantum u arg g = let (v, r, put) = exchange u g.quantum in answer (set_quantum g v) r put
serve h_quantum u arg g = answer (set_quantum g (int_of arg)) (ok g.quantum) none
serve s_qset u arg g = let (v, r) = get_user u.word in answer (set_qset g v) r none
serve t_qset u arg g = answer (set_qset g (int_of arg)) (ok 0) none
serve g_qset u arg g = let (r, put) = put_user u g.qset in answer g r put
serve q_qset u arg g = answer g (ok g.qset) none
serve x_qset u arg g = let (v, r, put) = exchange u g.qset in answer (set_qset g v) r put
serve h_qset u arg g = answer (set_qset g (int_of arg)) (ok g.qset) none
serve p_t_size u arg g = answer g (err enotty) none
serve p_q_size u arg g = answer g (err enotty) none

-- The commands of scullc.h, the missing one first; scull's requests on its pipe are none of them.
unfoldable pub scullc_request : Cmd → Cmd → Option Request
scullc_request reset_cmd c =
    if same_cmd c reset_cmd
    then some reset
    else if same_cmd c (io_w 1)
    then some s_quantum
    else if same_cmd c (io 2)
    then some t_quantum
    else if same_cmd c (io_r 3)
    then some g_quantum
    else if same_cmd c (io 4)
    then some q_quantum
    else if same_cmd c (io_wr 5)
    then some x_quantum
    else if same_cmd c (io 6)
    then some h_quantum
    else if same_cmd c (io_w 7)
    then some s_qset
    else if same_cmd c (io 8)
    then some t_qset
    else if same_cmd c (io_r 9)
    then some g_qset
    else if same_cmd c (io 10)
    then some q_qset
    else if same_cmd c (io_wr 11)
    then some x_qset
    else if same_cmd c (io 12)
    then some h_qset
    else none

unfoldable pub scullc_ioctl : (reset_cmd : Cmd) → User → Cmd → ℕ → Config → Answer
scullc_ioctl reset_cmd u c arg g =
    if not (c.ty == magic) || ltb max_nr c.nr
    then answer g (err enotty) none
    else if (c.reads || c.writes) && not u.access_ok
    then answer g (err efault) none
    else elim (scullc_request reset_cmd c) [
      | none ↦ answer g (err enotty) none
      | some r ↦ serve r u arg g
    ]
