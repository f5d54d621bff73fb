-- ===== src/Snull.antt =====
-- The loop-back network driver, snull/snull.c: two interfaces that hand each other's packets over.
-- A section under a spin lock is one step, and an interrupt runs where the driver raises it.
pub mod Pool
pub mod Conserve
mod Tests
use linux_device_driver.Common.{
  ℕ, zero, suc, ◌+◌, ◌*◌, ◌-◌, ◌%◌, ◌^◌, Bool, true, false, Option, none, some, List, [], ◌∷◌, ◌++◌,
  not, ◌&&◌, ◌||◌, if◌then◌else◌, ltb, ◌==◌, length, replicate, take, min, set, get_elem?,
}
use linux_device_driver.Kernel.{
  ebusy, eopnotsupp, einval, Ret, ok, err, Outcome, done, oops, ◌>>=◌, Kernel, Mem, kmalloc, kfree,
}

-- `struct snull_packet`: `second` says which of the two devices it belongs to, and `bytes` are the
-- first `datalen` bytes of its data.
pub record Packet : Type 0 where
  pub second : Bool
  pub bytes : List ℕ

-- `struct snull_priv`, with the bits of its status word, the four counters of its statistics and
-- those of errors and drops, and whether the kernel's queue of the interface is stopped.
pub record Priv : Type 0 where
  pub ppool : List Packet
  pub rx_queue : List Packet
  pub rx_intr : Bool
  pub tx_intr : Bool
  pub rx_int_enabled : Bool
  pub tx_packetlen : ℕ
  pub tx_packets : ℕ
  pub tx_bytes : ℕ
  pub tx_errors : ℕ
  pub rx_packets : ℕ
  pub rx_bytes : ℕ
  pub rx_dropped : ℕ
  pub stopped : Bool

-- `snull_devs`.
pub record Net : Type 0 where
  pub sn0 : Priv
  pub sn1 : Priv

abbrev pub priv : Bool → Net → Priv
priv false n = n.sn0
priv true n = n.sn1

abbrev pub put : Bool → Priv → Net → Net
put false p n = record n { sn0 = p }
put true p n = record n { sn1 = p }

-- `snull_setup_pool`: it stops where memory is refused.
unfoldable pub setup_pool : Kernel → Bool → ℕ → List Packet → Mem → List Packet × Mem
setup_pool k w zero pool m = (pool, m)
setup_pool k w (suc i) pool m =
    let (granted, m') = kmalloc k m in
    let rest = setup_pool k w i (record { second = w; bytes = [] } ∷ pool) m' in
    if granted then rest else (pool, m')

-- `snull_teardown_pool`.
unfoldable pub teardown_pool : List Packet → Mem → Mem
teardown_pool [] m = m
teardown_pool (p ∷ ps) m = teardown_pool ps (kfree m)

-- `snull_get_tx_buffer`: an empty pool is dereferenced.
unfoldable pub get_tx_buffer : Priv → Outcome (Packet × Priv)
get_tx_buffer p = elim p.ppool [
  | [] ↦ oops
  | b ∷ bs ↦ done (b, record p { ppool = bs; stopped = elim bs [ [] ↦ true | _ ∷ _ ↦ p.stopped ] })
]

abbrev pub is_empty : List Packet → Bool
is_empty [] = true
is_empty (b ∷ bs) = false

-- `snull_release_buffer` of a packet, on the device that it belongs to.
unfoldable pub release_buffer : Packet → Net → Net
release_buffer b n =
    let p = priv b.second n in
    put b.second
      (record p {
        ppool = b ∷ p.ppool;
        stopped = if p.stopped && is_empty p.ppool then false else p.stopped;
      })
      n

-- `snull_enqueue_buf` and `snull_dequeue_buf` both work at the head of the list.
unfoldable pub enqueue_buf : Packet → Priv → Priv
enqueue_buf b p = record p { rx_queue = b ∷ p.rx_queue }

unfoldable pub dequeue_buf : Priv → Option Packet × Priv
dequeue_buf p = elim p.rx_queue [ [] ↦ (none, p) | b ∷ bs ↦ (some b, record p { rx_queue = bs }) ]

-- `snull_rx`: whether `dev_alloc_skb` grants a buffer, the bytes passed up, and the counters.
unfoldable pub rx : Bool → Packet → Priv → List (List ℕ) × Priv
rx skb_ok b p =
    if skb_ok
    then (
      b.bytes ∷ [],
      record p { rx_packets = p.rx_packets + 1; rx_bytes = p.rx_bytes + length b.bytes },
    )
    else ([], record p { rx_dropped = p.rx_dropped + 1 })

unfoldable pub rx_if : Bool → Option Packet → Priv → List (List ℕ) × Priv
rx_if skb_ok none p = ([], p)
rx_if skb_ok (some b) p = rx skb_ok b p

unfoldable pub release_if : Option Packet → Net → Net
release_if none n = n
release_if (some b) n = release_buffer b n

-- The transmit half of both interrupt handlers.
abbrev pub tx_done : Priv → Priv
tx_done p = record p { tx_packets = p.tx_packets + 1; tx_bytes = p.tx_bytes + p.tx_packetlen }

-- `snull_regular_interrupt`: the bytes passed up, and the interfaces.
unfoldable pub regular_interrupt : Bool → Bool → Net → List (List ℕ) × Net
regular_interrupt skb_ok w n =
    let p = priv w n in
    let q = record p { rx_intr = false; tx_intr = false } in
    let (pkt, q1) = if p.rx_intr then dequeue_buf q else (none, q) in
    let (up, q2) = rx_if skb_ok pkt q1 in
    let n' = put w (if p.tx_intr then tx_done q2 else q2) n in (up, release_if pkt n')

-- `snull_napi_interrupt`: whether it schedules the poll, and the interfaces.
unfoldable pub napi_interrupt : Bool → Net → Bool × Net
napi_interrupt w n =
    let p = priv w n in
    let q = record p { rx_intr = false; tx_intr = false } in
    let q1 = if p.rx_intr then record q { rx_int_enabled = false } else q in
    (p.rx_intr, put w (if p.tx_intr then tx_done q1 else q1) n)

-- The loop of `snull_poll` over the receive queue; `skb_ok i` answers the i-th request for a
-- buffer. The packets that were passed up, and the interfaces.
unfoldable pub poll_loop : (ℕ → Bool) → Bool → ℕ → ℕ → List Packet → Net → List (List ℕ) × Net
poll_loop skb_ok w i quota [] n = ([], n)
poll_loop skb_ok w i zero (b ∷ bs) n = ([], n)
poll_loop skb_ok w i (suc quota) (b ∷ bs) n =
    let p = record (priv w n) { rx_queue = bs } in
    let n1 = release_buffer b (put w (rx (skb_ok i) b p).1 n) in
    let passed = poll_loop skb_ok w (i + 1) quota bs n1 in
    let dropped = poll_loop skb_ok w (i + 1) (suc quota) bs n1 in
    if skb_ok i then (b.bytes ∷ passed.0, passed.1) else dropped

-- `snull_poll`: its result, what it passed up, what is left of the budget and the quota, and the
-- interfaces.
unfoldable pub poll : (ℕ → Bool) → Bool → ℕ → ℕ → Net → ℕ × List (List ℕ) × ℕ × ℕ × Net
poll skb_ok w budget quota n =
    let (up, n1) = poll_loop skb_ok w 0 (min quota budget) (priv w n).rx_queue n in
    if is_empty (priv w n1).rx_queue
    then (
      0,
      up,
      budget - length up,
      quota - length up,
      put w (record (priv w n1) { rx_int_enabled = true }) n1,
    )
    else (1, up, budget - length up, quota - length up, n1)

-- The bit that the driver flips in a byte.
abbrev pub flip : ℕ → ℕ
flip b = if b % 2 == 0 then b + 1 else b - 1

abbrev pub flip_at : ℕ → List ℕ → List ℕ
flip_at i bs = elim (get_elem? bs i) [ none ↦ bs | some b ↦ set bs i (flip b) ]

-- `ih->ihl`: the low half of the first byte behind the Ethernet header.
abbrev pub ihl : List ℕ → ℕ
ihl buf = elim (get_elem? buf 14) [ none ↦ 0 | some b ↦ b % 16 ]

-- The rewriting of the frame by `snull_hw_tx`: the third bytes of both addresses of the IP header
-- behind the 14 bytes of the Ethernet header; `checksum` is the kernel's, put into the header.
-- `ip_fast_csum` reads as many words from the header on as the frame says, which nothing checks.
unfoldable pub rewrite : (List ℕ → List ℕ) → List ℕ → Outcome (List ℕ)
rewrite checksum buf =
    let flipped = flip_at 32 (flip_at 28 buf) in
    if ltb (length buf) (14 + ihl buf * 4) then oops else done (checksum flipped)

-- The answers to the requests for receive buffers, which handler is installed, and the parameter
-- `lockup`.
pub record Setting : Type 0 where
  pub skb_ok : Bool
  pub use_napi : Bool
  pub lockup : ℕ
  pub checksum : List ℕ → List ℕ

abbrev pub interrupt : Setting → Bool → Net → List (List ℕ) × Net
interrupt s w n =
    if s.use_napi then ([], (napi_interrupt w n).1) else regular_interrupt s.skb_ok w n

-- The second half of `snull_hw_tx`: the sender's side.
unfoldable pub finish_tx : Setting → Bool → ℕ → List (List ℕ) × Net → List (List ℕ) × Net
finish_tx s w len (up, n) =
    let p = record (priv w n) { tx_packetlen = len; tx_intr = true } in
    let lock = not (s.lockup == 0) && ((p.tx_packets + 1) % s.lockup == 0) in
    if lock
    then (up, put w (record p { stopped = true }) n)
    else let r = interrupt s w (put w p n) in (up ++ r.0, r.1)

-- The receiver's side, with a packet taken from the sender's pool.
unfoldable pub hand_over : Setting → Bool → Packet → Net → List (List ℕ) × Net
hand_over s w b n =
    let p = enqueue_buf b (priv (not w) n) in
    if p.rx_int_enabled
    then interrupt s (not w) (put (not w) (record p { rx_intr = true }) n)
    else ([], put (not w) p n)

-- `snull_hw_tx`; the data of a packet has room for ETH_DATA_LEN bytes.
unfoldable pub hw_tx : Setting → Bool → List ℕ → Net → Outcome (List (List ℕ) × Net)
hw_tx s w buf n = if ltb (length buf) 34 then done ([], n) else (do
  sent ← rewrite s.checksum buf
  t ← get_tx_buffer (priv w n)
  if ltb 1500 (length buf)
      then oops
      else done
          (finish_tx s w (length buf) (hand_over s w (record t.0 { bytes = sent }) (put w t.1 n))))

-- The padding of frames shorter than ETH_ZLEN by `snull_tx`.
abbrev pub padded : List ℕ → List ℕ
padded skb = if ltb (length skb) 60 then skb ++ replicate (60 - length skb) 0 else skb

-- `snull_tx`.
unfoldable pub tx : Setting → Bool → List ℕ → Net → Outcome (List (List ℕ) × Net)
tx s w skb n = hw_tx s w (padded skb) n

-- `snull_tx_timeout`.
unfoldable pub tx_timeout : Setting → Bool → Net → List (List ℕ) × Net
tx_timeout s w n =
    let r = interrupt s w (put w (record (priv w n) { rx_intr = false; tx_intr = true }) n) in
    let p = priv w r.1 in
    (r.0, put w (record p { tx_errors = p.tx_errors + 1; stopped = false }) r.1)

-- What `snull_config` asks for and finds.
pub record Ifmap : Type 0 where
  pub base_addr : ℕ
  pub irq : ℕ

-- `snull_config`, with the interface's address and interrupt before and after.
unfoldable pub config : (up : Bool) → (wanted dev : Ifmap) → Ret × Ifmap
config up wanted dev =
    if up
    then (err ebusy, dev)
    else if not (wanted.base_addr == dev.base_addr)
    then (err eopnotsupp, dev)
    else (ok 0, record dev { irq = wanted.irq })

-- `snull_change_mtu`, with the interface's MTU before and after; a negative `int` has the sign bit
-- and is refused like one above 1500.
unfoldable pub change_mtu : (new_mtu mtu : ℕ) → Ret × ℕ
change_mtu new_mtu mtu =
    if ltb new_mtu 68 || ltb 1500 new_mtu then (err einval, mtu) else (ok 0, new_mtu)

-- The addresses of an Ethernet header.
pub record Eth : Type 0 where
  pub h_source : List ℕ
  pub h_dest : List ℕ

-- `snull_header` and `snull_rebuild_header`, for addresses of six bytes.
unfoldable pub header : (dev_addr : List ℕ) → (daddr saddr : Option (List ℕ)) → Eth
header dev_addr daddr saddr = record {
  h_source = elim saddr [ none ↦ dev_addr | some a ↦ a ];
  h_dest = flip_at 5 (elim daddr [ none ↦ dev_addr | some a ↦ a ]);
}

unfoldable pub rebuild_header : (dev_addr : List ℕ) → Eth
rebuild_header dev_addr = record { h_source = dev_addr; h_dest = flip_at 5 dev_addr }

-- `snull_open`: "\0SNUL0", and "\0SNUL1" for the second interface.
unfoldable pub open_addr : Bool → List ℕ
open_addr w = 0 ∷ b'S' ∷ b'N' ∷ b'U' ∷ b'L' ∷ (if w then b'1' else b'0') ∷ []
