-- ===== src/Scull/Access/Users.antt =====
-- The devices of one user at a time, sculluid and scullwuid: who is let in while others are there.
use linux_device_driver.Common.{
  ℕ, ◌+◌, ◌^◌, ◌≡◌, ◌≢◌, ◌<◌, ◌⊎◌, inl, inr, true, false, List, [], ◌∷◌, ◌++◌, arith, refl, sym, ap,
  subst, ◌∙◌, not, length, All, none, some, Option, Bool-cases, length-append,
}
use linux_device_driver.Kernel.{Ret, ok, err, ebusy, eagain, erestartsys, done, Mem}
use linux_device_driver.Kernel.Clash.{bind-done, done_injective, ok-ne-err}
use linux_device_driver.Scull.Device.{Config}
use linux_device_driver.Scull.Access.{
  Caller, Statics, Owner, Opened, s_file, Wake, available, refused, grant, u_open, u_release,
  trim_if, w_wait,
}

-- Whom the owner's presence lets in.
abbrev pub Admitted : ℕ → Caller → Type 0
Admitted owner u = (owner ≡ u.uid) ⊎ ((owner ≡ u.euid) ⊎ (u.capable ≡ true))

-- The test of sculluid is that of scullwuid, negated.
pub refused-available : (o : Owner) (u : Caller) → refused o u ≡ not (available o u)
unfolding refused available
refused-available o u = ground arith

available-Admitted :
    (o : Owner) (u : Caller) → available o u ≡ true → o.count ≢ 0 → Admitted o.owner u
unfolding available
available-Admitted o u e some_in = ground arith

-- The processes that have the device open, the last opener first, and the counter and owner.
pub record State : Type 0 where
  pub state : Owner
  pub inside : List Caller

-- An open that succeeded, one that was refused, and a release by any process that has it open.
pub data Step (g : Config) : State → State → Type 0 where
  opens :
      {s : State} (u : Caller) (d : Statics) (m : Mem)
      (r : Ret × Owner × Statics × Option Opened × Mem)
      → length s.inside + 1 < 2 ^ 31
      → u_open g u s.state d m ≡ done r
      → r.0 ≡ ok 0
      → Step g s (record { state = r.1; inside = u ∷ s.inside })
  fails :
      {s : State} (u : Caller) (d : Statics) (m : Mem)
      (r : Ret × Owner × Statics × Option Opened × Mem)
      → u_open g u s.state d m ≡ done r
      → r.0 ≡ err ebusy
      → Step g s (record s { state = r.1 })
  closes :
      {s : State} (before after : List Caller) (u : Caller)
      → s.inside ≡ before ++ u ∷ after
      → Step g s (record { state = u_release s.state; inside = before ++ after })

pub data Reach (g : Config) : State → Type 0 where
  here : (owner : ℕ) → Reach g (record { state = record { count = 0; owner = owner }; inside = [] })
  next : {s t : State} → Reach g s → Step g s t → Reach g t

pub record Inv (s : State) : Type 0 where
  pub counted : s.state.count ≡ length s.inside
  pub few : length s.inside < 2 ^ 31
  pub admitted : All (Admitted s.state.owner) s.inside

u_open-cases :
    (g : Config) (u : Caller) (o : Owner) (d : Statics) (m : Mem)
    (r : Ret × Owner × Statics × Option Opened × Mem)
    → u_open g u o d m ≡ done r
    → ((r.0 ≡ ok 0) × (r.1 ≡ grant o u) × (available o u ≡ true))
      ⊎ ((r.0 ≡ err ebusy) × (r.1 ≡ o) × (available o u ≡ false))
unfolding u_open
u_open-cases g u o d m r e = elim (Bool-cases (available o u)) [
  | inl free ↦
      let (t, _, f) =
        bind-done (trim_if u.write_only g d.s_device m)
          (λ t. done (ok 0, grant o u, record d { s_device = t.0 }, some s_file, t.1))
          (simp (refused-available o u, free) at e) in
      inl (sym (ap (λ t. t.0) (done_injective f)), sym (ap (λ t. t.1) (done_injective f)), free)
  | inr busy ↦
      let f = done_injective (simp (refused-available o u, busy) at e) in
      inr (sym (ap (λ t. t.0) f), sym (ap (λ t. t.1) f), busy)
]

All-join :
    (P : Caller → Type 0) (xs : List Caller) (y : Caller) (ys : List Caller)
    → All P (xs ++ y ∷ ys)
    → All P (xs ++ ys)
All-join P [] y ys h = h.1
All-join P (x ∷ xs) y ys h = (h.0, All-join P xs y ys h.1)

grant-Inv :
    (o : Owner) (u : Caller) (inside : List Caller)
    → Inv (record { state = o; inside = inside })
    → length inside + 1 < 2 ^ 31
    → available o u ≡ true
    → Inv (record { state = grant o u; inside = u ∷ inside })
unfolding grant
grant-Inv o u [] v l free = record {
  counted = omega (arith, v);
  few = l;
  admitted = (ground (arith, v), tt);
}
grant-Inv o u (h ∷ hs) v l free =
    let some_in : o.count ≢ 0 = omega (arith, v) in
    let kept : (grant o u).owner ≡ o.owner = ground arith in
    record {
      counted = omega (arith, v, l);
      few = omega (arith, l);
      admitted =
          subst (λ w. All (Admitted w) (u ∷ h ∷ hs)) (sym kept)
            (available-Admitted o u free some_in, v.admitted);
    }

Step-Inv : {g : Config} {s t : State} → Step g s t → Inv s → Inv t
unfolding u_release
Step-Inv (opens {s} u d m r l e fine) v = elim (u_open-cases _ u s.state d m r e) [
  | inl (_, granted, free) ↦ rw granted (grant-Inv s.state u s.inside v l free)
  | inr (refusal, _, _) ↦ absurd (ok-ne-err (sym fine ∙ refusal))
]
Step-Inv (fails {s} u d m r e why) v = elim (u_open-cases _ u s.state d m r e) [
  | inl (fine, _, _) ↦ absurd (ok-ne-err (sym fine ∙ why))
  | inr (_, same, _) ↦ rw same v
]
Step-Inv (closes {s} before after u e) v = record {
  counted =
      omega (arith, v, ap length e, length-append before (u ∷ after), length-append before after);
  few = omega (arith, v, ap length e, length-append before (u ∷ after), length-append before after);
  admitted =
      All-join (Admitted s.state.owner) before u after
        (subst (All (Admitted s.state.owner)) e v.admitted);
}

Reach-Inv : {g : Config} {s : State} → Reach g s → Inv s
Reach-Inv (here owner) = record { counted = refl; few = omega arith; admitted = tt }
Reach-Inv (next p q) = Step-Inv q (Reach-Inv p)

turned_away_of : (o : Owner) (u : Caller) → ¬ Admitted o.owner u → o.count ≢ 0 → refused o u ≡ true
turned_away_of o u stranger some_in = elim (Bool-cases (available o u)) [
  | inl free ↦ absurd (stranger (available-Admitted o u free some_in))
  | inr busy ↦ refused-available o u ∙ ap not busy
]

-- After any sequence of opens and releases of sculluid, with fewer than 2 ^ 31 open files: the
-- counter is the number of processes inside, each of them is the owner, acts for the owner or is
-- privileged, and a caller that is none of these is refused while anybody is inside.
pub user_exclusive :
    {g : Config} {s : State} (u : Caller)
    → Reach g s
    → (s.state.count ≡ length s.inside)
      × All (Admitted s.state.owner) s.inside
      × (¬ Admitted s.state.owner u → 0 < length s.inside → refused s.state u ≡ true)
user_exclusive {g} {s} u p =
    let v = Reach-Inv p in
    (
      v.counted,
      v.admitted,
      λ stranger some_in. turned_away_of s.state u stranger (omega (arith, v, some_in)),
    )

-- How the wait of scullwuid can end.
pub WaitEnds : Caller → Option (Ret × Owner) → Type 0
WaitEnds u none = u.nonblock ≡ false
WaitEnds u (some a) =
    ((a.0 ≡ ok 0) × (available a.1 u ≡ true))
    ⊎ (((a.0 ≡ err eagain) × (u.nonblock ≡ true) × (available a.1 u ≡ false))
        ⊎ ((a.0 ≡ err erestartsys) × (u.nonblock ≡ false)))

-- However the wait of scullwuid ends: the caller is let in only in a state in which the device is
-- available to it, gets EAGAIN only where the device is not and the caller asked not to wait, and
-- sleeps or is interrupted only when it is willing to wait.
pub w_wait_lem : (u : Caller) (ws : List Wake) (o : Owner) → WaitEnds u (w_wait u ws o)
unfolding w_wait WaitEnds
w_wait_lem u [] o = elim (Bool-cases (available o u)) [
  | inl free ↦ simp free (inl (refl, refl))
  | inr busy ↦ elim (Bool-cases u.nonblock) [
    | inl n ↦ simp (busy, n) (inr (inl (refl, refl, refl)))
    | inr n ↦ simp (busy, n) refl
  ]
]
w_wait_lem u (w ∷ ws) o = elim (Bool-cases (available o u)) [
  | inl free ↦ simp free (inl (refl, refl))
  | inr busy ↦ elim (Bool-cases u.nonblock) [
    | inl n ↦ simp (busy, n) (inr (inl (refl, refl, refl)))
    | inr n ↦ elim (Bool-cases w.signal) [
      | inl sig ↦ simp (busy, n, sig) (inr (inr (refl, refl)))
      | inr quiet ↦ simp (busy, n, quiet) (w_wait_lem u ws w.seen)
    ]
  ]
]
