-- ===== src/Chain/AsScull.antt =====
-- The transfers on a list of devices as those of scull/main.c on a list of quantum sets.
use linux_device_driver.Common.{
  ℕ, zero, suc, ◌+◌, ◌^◌, ◌≡◌, ◌<◌, false, Option, none, some, List, [], ◌∷◌, ◌⊎◌, inl, inr, refl,
  ap, arith, if◌then◌else◌, ltb, ◌==◌, length, get_elem?, set, take, replicate, splice,
  length-replicate, Bool-cases, Option-cases,
}
use linux_device_driver.Kernel.{
  ok, err, efault, enomem, Outcome, done, oops, ◌>>=◌, Kernel, Call, Mem, kmalloc,
}
use linux_device_driver.Kernel.Ledger.{Refused}
use linux_device_driver.Scull.Device.{Quantum, Slots, Qset, Place, locate, follow}
use linux_device_driver.Scull.Transfer.{readable, clip, claim_slots, claim_quantum}
use linux_device_driver.Chain.{
  Store, Reply, asked, copy_out, fetch, read_at, put_data, copy_in, store, store_item, write_at,
}
use linux_device_driver.Chain.Walk.{walk-Walked}

-- The allocator, with new blocks cleared.
abbrev pub zeroing : Kernel → Kernel
zeroing k = record k {
  junk = λ n size. replicate size 0;
  length-junk = λ n size. length-replicate {A = ℕ} size 0;
}

pub asked-readable :
    (size f_pos count : ℕ)
    → f_pos < 2 ^ 64
    → count < 2 ^ 64
    → asked size f_pos count ≡ readable size f_pos count
unfolding asked readable
asked-readable size f_pos count hf hc = ground arith

follow-zeroing :
    (k : Kernel) (n : ℕ) (items : List Qset) (m : Mem)
    → follow (zeroing k) n items m ≡ follow k n items m
unfolding follow kmalloc
follow-zeroing k zero [] m = refl
follow-zeroing k zero (q ∷ items) m = refl
follow-zeroing k (suc n) [] m = rw (follow-zeroing k n [] (kmalloc k m).1) refl
follow-zeroing k (suc n) (q ∷ items) m = rw (follow-zeroing k n items m) refl

module _ (quantum : ℕ) where
  abbrev pub as_scull : Store → linux_device_driver.Scull.Device.Dev
  as_scull s = record {
    items = s.array ∷ s.next;
    quantum = quantum;
    qset = s.qset;
    size = s.size;
    access_key = 0;
  }

  abbrev pub reply_as_scull : Reply → linux_device_driver.Scull.Transfer.Reply
  reply_as_scull r = record {
    ret = r.ret;
    out = r.out;
    f_pos = r.f_pos;
    dev = as_scull r.store;
    mem = r.mem;
  }

  abbrev pub run_as_scull : Outcome Reply → Outcome linux_device_driver.Scull.Transfer.Reply
  run_as_scull (done r) = done (reply_as_scull r)
  run_as_scull oops = oops

  copy_out-as_scull :
      (c : Call) (f_pos : ℕ) (p : Place) (count : ℕ) (s : Store) (m : Mem) (b : Quantum)
      → run_as_scull (copy_out quantum c f_pos p count s m b)
        ≡ linux_device_driver.Scull.Transfer.copy_out c f_pos p count (as_scull s) m b
  unfolding copy_out linux_device_driver.Scull.Transfer.copy_out
  copy_out-as_scull c f_pos p count s m b =
      elim (Bool-cases (ltb (length b) (p.q_pos + clip quantum p.q_pos count))) [
        | inl past ↦ rw past refl
        | inr fits ↦ elim (Bool-cases (c.left == 0)) [
          | inl whole ↦ rw (fits, whole) refl
          | inr fault ↦ rw (fits, fault) refl
        ]
      ]

  fetch-as_scull :
      (c : Call) (f_pos : ℕ) (p : Place) (count : ℕ) (s : Store) (m : Mem) (q : Qset)
      → run_as_scull (fetch quantum c f_pos p count s m q)
        ≡ linux_device_driver.Scull.Transfer.fetch c f_pos p count (as_scull s) m q
  unfolding fetch linux_device_driver.Scull.Transfer.fetch
  fetch-as_scull c f_pos p count s m none = refl
  fetch-as_scull c f_pos p count s m (some a) = elim (Option-cases (get_elem? a p.s_pos)) [
    | inl outside ↦ rw outside refl
    | inr (none, e) ↦ rw e refl
    | inr (some b, e) ↦ rw e (copy_out-as_scull c f_pos p count s m b)
  ]

  put_data-as_scull :
      (s : Store) (item : ℕ) (a : Slots)
      → as_scull (put_data s item a)
        ≡ record (as_scull s) { items = set (s.array ∷ s.next) item (some a) }
  unfolding put_data
  put_data-as_scull s zero a = refl
  put_data-as_scull s (suc item) a = refl

  -- A read from the walk on is `scull_read`, unless it is undefined for want of memory.
  pub read_at-as_scull :
      (k : Kernel) (c : Call) (s : Store) (m : Mem) (f_pos count : ℕ) (p : Place)
      → c.interrupted ≡ false
      → locate quantum s.qset f_pos ≡ done p
      → let run = read_at k quantum c s m f_pos p (readable s.size f_pos count) in
        (run_as_scull run
          ≡ linux_device_driver.Scull.Transfer.read (zeroing k) c (as_scull s) m f_pos count)
        ⊎ ((run ≡ oops) × Refused k)
  unfolding read_at linux_device_driver.Scull.Transfer.read
  read_at-as_scull k c s m f_pos count p go found = elim (walk-Walked k p.item s.array s.next m) [
    | inr (e, refused) ↦ inr (rw e refl, refused)
    | inl (next', m', e, f) ↦
        let f' = follow-zeroing k p.item (s.array ∷ s.next) m in
        inl (elim (Option-cases (get_elem? (s.array ∷ next') p.item)) [
          | inl outside ↦ simp go (rw (found, e, f', f, outside) refl)
          | inr (q, at) ↦ simp go (
              rw (found, e, f', f, at)
                (fetch-as_scull c f_pos p (readable s.size f_pos count) (record s { next = next' })
                  m' q))
        ])
  ]

  module _ (k : Kernel) (alloc : Option Quantum → Mem → Outcome (Option Quantum × Mem)) (n : ℕ)
      (c : Call) (buf : List ℕ) (f_pos : ℕ) (p : Place)
      (allocates : (slot : Option Quantum) (m : Mem)
        → alloc slot m ≡ done (claim_quantum (zeroing k) quantum slot m))
      (clipped : n ≡ clip quantum p.q_pos (length buf)) where
    copy_in-as_scull :
        (s : Store) (a : Slots) (m : Mem) (b : Quantum)
        → run_as_scull (copy_in k n c f_pos p buf s a m b)
          ≡ linux_device_driver.Scull.Transfer.copy_in (zeroing k) c f_pos p buf (as_scull s) a m b
    unfolding copy_in linux_device_driver.Scull.Transfer.copy_in
    copy_in-as_scull s a m b =
        let a' = set a p.s_pos (some (splice b p.q_pos (k.copied c.left (take n buf)))) in
        let size = if ltb s.size (f_pos + n) then f_pos + n else s.size in
        let put = put_data-as_scull s p.item a' in
        rw (← clipped) (elim (Bool-cases (ltb (length b) (p.q_pos + n))) [
          | inl past ↦ rw past refl
          | inr fits ↦ elim (Bool-cases (c.left == 0)) [
            | inl whole ↦
                rw (fits, whole)
                  (ap
                    (λ (d : linux_device_driver.Scull.Device.Dev). done (record {
                      ret = ok n;
                      out = [];
                      f_pos = f_pos + n;
                      dev = record d { size = size };
                      mem = m;
                    }))
                    put)
            | inr fault ↦
                rw (fits, fault)
                  (ap
                    (λ d.
                      done (record { ret = err efault; out = []; f_pos = f_pos; dev = d; mem = m }))
                    put)
          ]
        ])

    store-as_scull :
        (s : Store) (m : Mem) (a : Slots)
        → run_as_scull (store k alloc n c f_pos p buf s m a)
          ≡ linux_device_driver.Scull.Transfer.store (zeroing k) c f_pos p buf (as_scull s) m a
    unfolding store linux_device_driver.Scull.Transfer.store
    store-as_scull s m a = elim (Option-cases (get_elem? a p.s_pos)) [
      | inl outside ↦ rw outside refl
      | inr (slot, e) ↦
          let m' = (claim_quantum (zeroing k) quantum slot m).1 in
          elim (Option-cases (claim_quantum (zeroing k) quantum slot m).0) [
            | inl refused ↦
                rw (e, ◌>>=◌, allocates slot m, run_as_scull, refused)
                  (ap
                    (λ d.
                      done
                        (record { ret = err enomem; out = []; f_pos = f_pos; dev = d; mem = m' }))
                    (put_data-as_scull s p.item a))
            | inr (b, granted) ↦
                rw (e, ◌>>=◌, allocates slot m, run_as_scull, granted) (copy_in-as_scull s a m' b)
          ]
    ]

    store_item-as_scull :
        (s : Store) (m : Mem) (q : Qset)
        → run_as_scull (store_item k alloc n c f_pos p buf s m q)
          ≡ linux_device_driver.Scull.Transfer.store_item (zeroing k) c f_pos p buf (as_scull s) m q
    unfolding store_item linux_device_driver.Scull.Transfer.store_item claim_slots kmalloc
    store_item-as_scull s m (some a) = store-as_scull s m a
    store_item-as_scull s m none = elim (Bool-cases (k.grants m.requests)) [
      | inl granted ↦
          rw (run_as_scull, linux_device_driver.Scull.Transfer.store_item, granted)
            (store-as_scull s _ (replicate s.qset none))
      | inr refused ↦ rw (run_as_scull, linux_device_driver.Scull.Transfer.store_item, refused) refl
    ]

    -- A write from the walk on is `scull_write`, with new quanta cleared, if the driver gets quanta
    -- of the right size and clips the count as `scull_write` does.
    pub write_at-as_scull :
        (s : Store) (m : Mem)
        → c.interrupted ≡ false
        → locate quantum s.qset f_pos ≡ done p
        → let run = write_at k alloc n c s m f_pos p buf in
          (run_as_scull run
            ≡ linux_device_driver.Scull.Transfer.write (zeroing k) c (as_scull s) m f_pos buf)
          ⊎ ((run ≡ oops) × Refused k)
    unfolding write_at linux_device_driver.Scull.Transfer.write
    write_at-as_scull s m go found = elim (walk-Walked k p.item s.array s.next m) [
      | inr (e, refused) ↦ inr (rw e refl, refused)
      | inl (next', m', e, f) ↦
          let f' = follow-zeroing k p.item (s.array ∷ s.next) m in
          inl (elim (Option-cases (get_elem? (s.array ∷ next') p.item)) [
            | inl outside ↦ simp go (rw (found, e, f', f, outside) refl)
            | inr (q, at) ↦
                simp go
                  (rw (found, e, f', f, at) (store_item-as_scull (record s { next = next' }) m' q))
          ])
    ]
