-- ===== src/Usb/Probe.antt =====
-- `skel_probe` on every path: what a success leaves, and that a failure gives everything back.
use linux_device_driver.Common.{
  ℕ, ◌+◌, ◌≡◌, ◌≢◌, Bool, true, false, Option, none, some, List, [], ◌∷◌, not, ◌&&◌, ◌⊎◌, inl, inr,
  if◌then◌else◌, ◌==◌, arith, refl, sym, ap, ◌∙◌, Bool-cases, Option-cases,
}
use linux_device_driver.Kernel.{
  Errno, enomem, Ret, ok, err, done, ◌>>=◌, Kernel, Mem, Holds, kmalloc,
}
use linux_device_driver.Kernel.Ledger.{Moves, Balanced, kmalloc_cases}
use linux_device_driver.Kernel.Clash.{true-ne-false}
use linux_device_driver.Usb.Refs.{buffers, put_ref_last}
use linux_device_driver.Usb.{
  Skel, World, Endpoint, is_in, is_bulk, take_out, scan, cleared, skel_probe, put_ref,
}

-- The buffer is there when the endpoint is known, and not before.
abbrev Matched : Skel → Type 0
Matched s = s.bulk_in_buffer ≡ not (s.bulk_in == 0)

-- What the loop over the endpoints leaves of a structure and the allocator's books.
record Scanned (s : Skel) (m : Mem) (r : Bool × Skel × Mem) : Type 0 where
  pub same_kref : r.1.kref ≡ s.kref
  pub allocated : r.2.allocs + buffers s ≡ m.allocs + buffers r.1
  pub freed : r.2.frees ≡ m.frees
  pub matched : r.0 ≡ true → Matched r.1
  pub why : (r.0 ≡ true) ⊎ (r.0 ≡ false)

take_out_lem :
    (e : Endpoint) (s : Skel)
    → ((take_out e s).bulk_in ≡ s.bulk_in)
      × ((take_out e s).bulk_in_buffer ≡ s.bulk_in_buffer)
      × ((take_out e s).kref ≡ s.kref)
unfolding take_out
take_out_lem e s = elim (Bool-cases ((s.bulk_out == 0) && not (is_in e) && is_bulk e)) [
  | inl out ↦ rw out (refl, refl, refl)
  | inr other ↦ rw other (refl, refl, refl)
]

Matched-take_out : (e : Endpoint) (s : Skel) → Matched s → Matched (take_out e s)
Matched-take_out e s v = let (i, b, k) = take_out_lem e s in b ∙ v ∙ ap (λ x. not (x == 0)) (sym i)

buffers-take_out : (e : Endpoint) (s : Skel) → buffers (take_out e s) ≡ buffers s
buffers-take_out e s = ap (λ b. if b then 1 else 0) ((take_out_lem e s).1)

scan-Scanned :
    (k : Kernel) (es : List Endpoint) (s : Skel) (m : Mem) → Matched s → Scanned s m (scan k es s m)
unfolding scan
scan-Scanned k [] s m v = record {
  same_kref = refl;
  allocated = refl;
  freed = refl;
  matched = λ e. v;
  why = inl refl;
}
scan-Scanned k (e ∷ es) s m v = elim (Bool-cases ((s.bulk_in == 0) && is_in e && is_bulk e)) [
  | inr passed ↦
      let r = scan-Scanned k es (take_out e s) m (Matched-take_out e s v) in
      rw passed (record {
        same_kref = r.same_kref ∙ (take_out_lem e s).2;
        allocated = omega (arith, r, buffers-take_out e s);
        freed = r.freed;
        matched = r.matched;
        why = r.why;
      })
  | inl found ↦
      let none_yet : buffers s ≡ 0 = ground (arith, v) in
      elim (kmalloc_cases k m) [
        | inr (refusal, moved, _) ↦
            rw (found, refusal)
              (record {
                same_kref = refl;
                allocated = omega (arith, moved, none_yet);
                freed = omega (arith, moved);
                matched = λ t. absurd (true-ne-false (sym t));
                why = inr refl;
              })
        | inl (granted, moved) ↦
            let t = record s {
              bulk_in_size = e.max_packet;
              bulk_in = e.addr;
              bulk_in_buffer = true;
            } in
            let some_addr : Matched t = ground arith in
            let r =
              scan-Scanned k es (take_out e t) (kmalloc k m).1 (Matched-take_out e t some_addr) in
            rw (found, granted)
              (record {
                same_kref = r.same_kref ∙ (take_out_lem e t).2;
                allocated = omega (arith, r, buffers-take_out e t, moved, none_yet);
                freed = omega (arith, r, moved);
                matched = r.matched;
                why = r.why;
              })
      ]
]

-- What a success leaves: the device bound, with one reference, both endpoints and the buffer.
pub record Bound (w w' : World) : Type 0 where
  pub skel : Skel
  pub there : w'.dev ≡ some skel
  pub one_ref : skel.kref ≡ 1
  pub has_in : skel.bulk_in ≢ 0
  pub has_out : skel.bulk_out ≢ 0
  pub has_buffer : skel.bulk_in_buffer ≡ true
  pub reachable : (w'.intfdata ≡ true) × (w'.minor ≡ true)
  pub got : Moves w.mem w'.mem 2 0
  pub got_udev : w'.udev_refs ≡ w.udev_refs + 1

-- What a failure leaves: nothing that was not there before.
pub record Undone (w w' : World) : Type 0 where
  pub gone : w'.dev ≡ none
  pub unreachable : (w'.intfdata ≡ w.intfdata) × (w'.minor ≡ w.minor)
  pub balanced : Balanced w.mem w'.mem 0 0
  pub same_udev : w'.udev_refs ≡ w.udev_refs

abbrev pub ProbeEnds : World → Ret × World → Type 0
ProbeEnds w r = ((r.0 ≡ ok 0) × Bound w r.1) ⊎ (((e : Errno) × (r.0 ≡ err e)) × Undone w r.1)

-- The error label, reached with the structure filled in so far.
undone :
    (k : Kernel) (s : Skel) (w bound : World) (e : Errno)
    → s.kref ≡ 1
    → bound.dev ≡ some s
    → bound.udev_refs ≡ w.udev_refs + 1
    → bound.intfdata ≡ w.intfdata
    → bound.minor ≡ w.minor
    → Moves w.mem bound.mem (1 + buffers s) 0
    → Holds (ProbeEnds w) (do w' ← put_ref bound; done (err e, w'))
undone k s w bound e one there refs i n moved =
    let (w', dropped, gone, refs', freed, i', n') = put_ref_last s bound one there in
    rw dropped (
      inr (
        (e, refl),
        record {
          gone = gone;
          unreachable = (i' ∙ i, n' ∙ n);
          balanced = record { balance = omega (arith, moved, freed) };
          same_udev = omega (arith, refs, refs');
        },
      ))

-- Whatever endpoints the interface has, whatever the allocator and the USB core answer: probing is
-- defined; it succeeds with the device bound, referenced once, both endpoints known and two blocks
-- allocated, or it fails with every block and reference given back.
pub skel_probe_lem :
    (k : Kernel) (es : List Endpoint) (minor_error : Option Errno) (w : World)
    → w.dev ≡ none
    → Holds (ProbeEnds w) (skel_probe k es minor_error w)
unfolding skel_probe
skel_probe_lem k es minor_error w unbound = elim (kmalloc_cases k w.mem) [
  | inr (refusal, moved, _) ↦ rw refusal (
      inr (
        (enomem, refl),
        record {
          gone = unbound;
          unreachable = (refl, refl);
          balanced = record { balance = omega (arith, moved) };
          same_udev = refl;
        },
      ))
  | inl (granted, moved) ↦
      let m = (kmalloc k w.mem).1 in
      let r = scan-Scanned k es cleared m refl in
      let (whole, s, m') = scan k es cleared m in
      let bound = record w { dev = some s; udev_refs = w.udev_refs + 1; mem = m' } in
      let spent : Moves w.mem m' (1 + buffers s) 0 = omega (arith, r, moved) in
      let fail = λ (e : Errno). undone k s w bound e r.same_kref refl refl refl refl spent in
      elim (Bool-cases (whole && not (s.bulk_in == 0) && not (s.bulk_out == 0))) [
        | inr lacks ↦ rw (granted, lacks) (fail enomem)
        | inl complete ↦
            let buffer : s.bulk_in_buffer ≡ true =
              ground (arith, r.matched (ground (arith, complete)), complete) in
            elim (Option-cases minor_error) [
              | inr (e, why) ↦ rw (granted, complete, why) (fail e)
              | inl fine ↦
                  rw (granted, complete, fine)
                    (inl (
                      refl,
                      record {
                        skel = s;
                        there = refl;
                        one_ref = r.same_kref;
                        has_in = ground (arith, complete);
                        has_out = ground (arith, complete);
                        has_buffer = buffer;
                        reachable = (refl, refl);
                        got = omega (arith, spent, ap {B = ℕ} (λ b. if b then 1 else 0) buffer);
                        got_udev = refl;
                      },
                    ))
            ]
      ]
]
