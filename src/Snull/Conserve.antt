-- ===== src/Snull/Conserve.antt =====
-- No packet is lost or made: the pools and receive queues hold the same number throughout.
use linux_device_driver.Common.{
  ℕ, zero, suc, ◌+◌, ◌*◌, ◌-◌, ◌%◌, ◌≡◌, ◌≤◌, ◌<◌, Bool, true, false, List, [], ◌∷◌, arith, refl,
  ap, ◌∙◌, length, inl, inr, Bool-cases, Option, none, some, not, if◌then◌else◌, ltb, le→ltb_false,
  length-append, length-replicate, replicate, ◌&&◌, ◌==◌, min,
}
use linux_device_driver.Kernel.{done, Holds}
use linux_device_driver.Snull.{
  Packet, Priv, Net, Setting, priv, put, get_tx_buffer, release_buffer, enqueue_buf, dequeue_buf,
  rx, rx_if, release_if, regular_interrupt, napi_interrupt, interrupt, poll_loop, poll, finish_tx,
  hand_over, hw_tx, tx, is_empty, tx_done, rewrite, ihl, padded, flip_at,
}

-- The packets of an interface, and of both.
abbrev pub held : Priv → ℕ
held p = length p.ppool + length p.rx_queue

abbrev pub packets : Net → ℕ
packets n = held n.sn0 + held n.sn1

-- Changing one interface changes the number by what it changes there.
packets-put :
    (w : Bool) (p : Priv) (n : Net) → packets (put w p n) + held (priv w n) ≡ packets n + held p
packets-put false p n = omega arith
packets-put true p n = omega arith

packets-release_buffer : (b : Packet) (n : Net) → packets (release_buffer b n) ≡ packets n + 1
unfolding release_buffer
packets-release_buffer b n = omega (arith, packets-put b.second _ n)

held-rx : (skb_ok : Bool) (b : Packet) (p : Priv) → held (rx skb_ok b p).1 ≡ held p
unfolding rx
held-rx true b p = refl
held-rx false b p = refl

held-tx_done : (t : Bool) (p : Priv) → held (if t then tx_done p else p) ≡ held p
held-tx_done true p = refl
held-tx_done false p = refl

abbrev weight : Option Packet → ℕ
weight none = 0
weight (some b) = 1

held-rx_if : (skb_ok : Bool) (b : Option Packet) (p : Priv) → held (rx_if skb_ok b p).1 ≡ held p
unfolding rx_if
held-rx_if skb_ok none p = refl
held-rx_if skb_ok (some b) p = held-rx skb_ok b p

packets-release_if : (b : Option Packet) (n : Net) → packets (release_if b n) ≡ packets n + weight b
unfolding release_if
packets-release_if none n = omega arith
packets-release_if (some b) n = packets-release_buffer b n

held-dequeue_buf : (p : Priv) → weight (dequeue_buf p).0 + held (dequeue_buf p).1 ≡ held p
unfolding dequeue_buf
held-dequeue_buf p = go p.rx_queue refl
  where
    go :
        (qs : List Packet)
        → p.rx_queue ≡ qs
        → weight (dequeue_buf p).0 + held (dequeue_buf p).1 ≡ held p
    go [] e = simp (e, dequeue_buf) (omega arith)
    go (b ∷ bs) e = simp (e, dequeue_buf) (omega arith)

-- The common end of a regular interrupt, the packet `b` taken off the queue or none.
handled :
    (skb_ok w t : Bool) (b : Option Packet) (p : Priv) (n : Net)
    → weight b + held p ≡ held (priv w n)
    → packets
        (release_if b (put w (if t then tx_done (rx_if skb_ok b p).1 else (rx_if skb_ok b p).1) n))
      ≡ packets n
handled skb_ok w t b p n e =
    let q = (if t then tx_done (rx_if skb_ok b p).1 else (rx_if skb_ok b p).1) in
    omega (
      arith,
      e,
      packets-release_if b (put w q n),
      packets-put w q n,
      held-tx_done t (rx_if skb_ok b p).1,
      held-rx_if skb_ok b p,
    )

pub packets-regular_interrupt :
    (skb_ok w : Bool) (n : Net) → packets (regular_interrupt skb_ok w n).1 ≡ packets n
unfolding regular_interrupt
packets-regular_interrupt skb_ok w n =
    let q = record (priv w n) { rx_intr = false; tx_intr = false } in
    elim (Bool-cases (priv w n).rx_intr) [
      | inl r ↦ simp r (
          handled skb_ok w (priv w n).tx_intr (dequeue_buf q).0 (dequeue_buf q).1 n
            (held-dequeue_buf q))
      | inr r ↦ simp r (handled skb_ok w (priv w n).tx_intr none q n (omega arith))
    ]

pub packets-napi_interrupt : (w : Bool) (n : Net) → packets (napi_interrupt w n).1 ≡ packets n
unfolding napi_interrupt
packets-napi_interrupt w n =
    let q = record (priv w n) { rx_intr = false; tx_intr = false } in
    let q1 = (if (priv w n).rx_intr then record q { rx_int_enabled = false } else q) in
    omega (
      arith,
      packets-put w (if (priv w n).tx_intr then tx_done q1 else q1) n,
      held-tx_done (priv w n).tx_intr q1,
      same (priv w n).rx_intr q,
    )
  where
    same :
        (r : Bool) (q : Priv) → held (if r then record q { rx_int_enabled = false } else q) ≡ held q
    same true q = refl
    same false q = refl

packets-interrupt : (s : Setting) (w : Bool) (n : Net) → packets (interrupt s w n).1 ≡ packets n
packets-interrupt s w n = elim (Bool-cases s.use_napi) [
  | inl y ↦ rw y (packets-napi_interrupt w n)
  | inr y ↦ rw y (packets-regular_interrupt s.skb_ok w n)
]

packets-put_same :
    (w : Bool) (p : Priv) (n : Net) → held p ≡ held (priv w n) → packets (put w p n) ≡ packets n
packets-put_same w p n e = omega (arith, e, packets-put w p n)

packets-finish_tx :
    (s : Setting) (w : Bool) (len : ℕ) (r : List (List ℕ) × Net)
    → packets (finish_tx s w len r).1 ≡ packets r.1
unfolding finish_tx
packets-finish_tx s w len (up, n) =
    let p = record (priv w n) { tx_packetlen = len; tx_intr = true } in
    elim (Bool-cases (not (s.lockup == 0) && ((p.tx_packets + 1) % s.lockup == 0))) [
      | inl lock ↦ rw lock (packets-put_same w (record p { stopped = true }) n refl)
      | inr free ↦ rw free (packets-interrupt s w (put w p n) ∙ packets-put_same w p n refl)
    ]

-- A packet put into a receive queue, with the interrupt raised or not.
raised :
    (s : Setting) (v x : Bool) (p : Priv) (n : Net)
    → held p ≡ held (priv v n) + 1
    → packets
        (if x then interrupt s v (put v (record p { rx_intr = true }) n) else ([], put v p n)).1
      ≡ packets n + 1
raised s v true p n e =
    packets-interrupt s v (put v (record p { rx_intr = true }) n)
    ∙ omega (arith, e, packets-put v (record p { rx_intr = true }) n)
raised s v false p n e = omega (arith, e, packets-put v p n)

packets-hand_over :
    (s : Setting) (w : Bool) (b : Packet) (n : Net) → packets (hand_over s w b n).1 ≡ packets n + 1
unfolding hand_over enqueue_buf
packets-hand_over s w b n =
    let p = enqueue_buf b (priv (not w) n) in raised s (not w) p.rx_int_enabled p n (omega arith)

get_tx_buffer-done :
    (p : Priv)
    → 0 < length p.ppool
    → (t : Packet × Priv) × (get_tx_buffer p ≡ done t) × (held t.1 + 1 ≡ held p)
unfolding get_tx_buffer
get_tx_buffer-done p some_free = go p.ppool refl
  where
    go :
        (bs : List Packet)
        → p.ppool ≡ bs
        → (t : Packet × Priv) × (get_tx_buffer p ≡ done t) × (held t.1 + 1 ≡ held p)
    go [] e = absurd (omega (arith, some_free, ap length e))
    go (b ∷ bs) e = (
      (b, record p { ppool = bs; stopped = elim bs [ [] ↦ true | _ ∷ _ ↦ p.stopped ] }),
      simp (e, get_tx_buffer) refl,
      omega (arith, ap length e),
    )

hw_tx-packets :
    (s : Setting) (w : Bool) (buf : List ℕ) (n : Net)
    → 34 ≤ length buf
    → length buf ≤ 1500
    → 14 + ihl buf * 4 ≤ length buf
    → 0 < length (priv w n).ppool
    → Holds (λ r. packets r.1 ≡ packets n) (hw_tx s w buf n)
unfolding hw_tx rewrite
hw_tx-packets s w buf n long short header some_free =
    let (t, got, fewer) = get_tx_buffer-done (priv w n) some_free in
    let b = record t.0 { bytes = s.checksum (flip_at 32 (flip_at 28 buf)) } in
    rw
      (
        le→ltb_false (length buf) 34 long,
        le→ltb_false (length buf) (14 + ihl buf * 4) header,
        got,
        le→ltb_false 1500 (length buf) short,
      )
      (packets-finish_tx s w (length buf) (hand_over s w b (put w t.1 n))
        ∙ packets-hand_over s w b (put w t.1 n)
        ∙ omega (arith, fewer, packets-put w t.1 n))

length-padded :
    (skb : List ℕ) → length skb ≤ 1500 → (60 ≤ length (padded skb)) × (length (padded skb) ≤ 1500)
length-padded skb short = elim (Bool-cases (ltb (length skb) 60)) [
  | inl small ↦
      let sum = length-append skb (replicate (60 - length skb) 0) in
      let zeros = length-replicate {A = ℕ} (60 - length skb) 0 in
      rw small (omega (arith, sum, zeros), omega (arith, sum, zeros, short))
  | inr big ↦ rw big (ground arith, short)
]

-- Sending a frame of at most ETH_DATA_LEN bytes, whose IP header lies inside the padded frame by the
-- length that it states, through an interface whose pool is not empty is defined, whichever handler
-- is installed, and the two interfaces together hold as many packets afterwards as before.
pub tx-packets :
    (s : Setting) (w : Bool) (skb : List ℕ) (n : Net)
    → length skb ≤ 1500
    → 14 + ihl (padded skb) * 4 ≤ length (padded skb)
    → 0 < length (priv w n).ppool
    → Holds (λ r. packets r.1 ≡ packets n) (tx s w skb n)
unfolding tx
tx-packets s w skb n short header some_free =
    let (long, fits) = length-padded skb short in
    hw_tx-packets s w (padded skb) n (omega (arith, long)) fits header some_free

queue-put :
    (v w : Bool) (p : Priv) (n : Net)
    → p.rx_queue ≡ (priv v n).rx_queue
    → (priv w (put v p n)).rx_queue ≡ (priv w n).rx_queue
queue-put false false p n e = e
queue-put false true p n e = refl
queue-put true false p n e = refl
queue-put true true p n e = e

queue-release_buffer :
    (b : Packet) (w : Bool) (n : Net) → (priv w (release_buffer b n)).rx_queue ≡ (priv w n).rx_queue
unfolding release_buffer
queue-release_buffer b w n = queue-put b.second w _ n refl

priv-put : (w : Bool) (p : Priv) (n : Net) → (priv w (put w p n)).rx_queue ≡ p.rx_queue
priv-put false p n = refl
priv-put true p n = refl

queue-rx : (ok : Bool) (b : Packet) (p : Priv) → (rx ok b p).1.rx_queue ≡ p.rx_queue
unfolding rx
queue-rx true b p = refl
queue-rx false b p = refl

packets-if :
    (t : Bool) (r q : List (List ℕ) × Net) (m : ℕ)
    → packets r.1 ≡ m
    → packets q.1 ≡ m
    → packets (if t then r else q).1 ≡ m
packets-if true r q m e f = e
packets-if false r q m e f = f

packets-poll_loop :
    (skb_ok : ℕ → Bool) (w : Bool) (i quota : ℕ) (qs : List Packet) (n : Net)
    → (priv w n).rx_queue ≡ qs
    → packets (poll_loop skb_ok w i quota qs n).1 ≡ packets n
unfolding poll_loop
packets-poll_loop skb_ok w i zero [] n e = refl
packets-poll_loop skb_ok w i (suc quota) [] n e = refl
packets-poll_loop skb_ok w i zero (b ∷ bs) n e = refl
packets-poll_loop skb_ok w i (suc quota) (b ∷ bs) n e =
    let p = record (priv w n) { rx_queue = bs } in
    let q = (rx (skb_ok i) b p).1 in
    let n0 = put w q n in
    let n1 = release_buffer b n0 in
    let left : (priv w n1).rx_queue ≡ bs =
      queue-release_buffer b w n0 ∙ priv-put w q n ∙ queue-rx (skb_ok i) b p in
    let same : packets n1 ≡ packets n = omega (
      arith,
      ap length e,
      packets-release_buffer b n0,
      packets-put w q n,
      held-rx (skb_ok i) b p,
    ) in
    packets-if (skb_ok i) _ _ (packets n)
      (packets-poll_loop skb_ok w (i + 1) quota bs n1 left ∙ same)
      (packets-poll_loop skb_ok w (i + 1) (suc quota) bs n1 left ∙ same)

-- A poll, whatever its budget and whichever requests for buffers are granted, leaves the two
-- interfaces together with as many packets as before.
pub poll-packets :
    (skb_ok : ℕ → Bool) (w : Bool) (budget quota : ℕ) (n : Net)
    → packets (poll skb_ok w budget quota n).4 ≡ packets n
unfolding poll
poll-packets skb_ok w budget quota n =
    let r = poll_loop skb_ok w 0 (min quota budget) (priv w n).rx_queue n in
    let whole = packets-poll_loop skb_ok w 0 (min quota budget) (priv w n).rx_queue n refl in
    elim (Bool-cases (is_empty (priv w r.1).rx_queue)) [
      | inl drained ↦
          rw drained
            (packets-put_same w (record (priv w r.1) { rx_int_enabled = true }) r.1 refl ∙ whole)
      | inr more ↦ rw more whole
    ]
