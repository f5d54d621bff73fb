-- ===== src/Tty/Proc/Window.antt =====
-- What is read of /proc/tty/driver/tiny_tty is a window of one text.
use linux_device_driver.Common.{
  ℕ, zero, suc, ◌+◌, ◌-◌, ◌≡◌, ◌≤◌, ◌<◌, ◌⊎◌, inl, inr, true, false, Option, none, some, List, [],
  ◌∷◌, ◌++◌, ltb, leb, length, take, drop, min, arith, refl, sym, ap, ◌∙◌, Bool-cases,
  length-append, length-drop, take_all, take-append, drop-append, drop-drop, lt→ltb,
}
use mathlib.Core.List.{append-nil, append_assoc}
use linux_device_driver.Kernel.Clash.{true-ne-false}
use linux_device_driver.Tty.Proc.{Printed, print_ports, tiny_read_proc}

-- The whole text behind the heading.
abbrev pub text : List (Option (List ℕ)) → List ℕ
text [] = []
text (none ∷ ports) = text ports
text (some line ∷ ports) = line ++ text ports

drop_all : (n : ℕ) (xs : List ℕ) → length xs ≤ n → drop n xs ≡ []
drop_all zero [] h = refl
drop_all zero (x ∷ xs) h = absurd (omega arith)
drop_all (suc n) [] h = refl
drop_all (suc n) (x ∷ xs) h = drop_all n xs (omega arith)

take-min : (n : ℕ) (xs : List ℕ) → take (min n (length xs)) xs ≡ take n xs
take-min n xs = elim (Bool-cases (leb n (length xs))) [
  | inl few ↦ let is_n : min n (length xs) ≡ n = ground (arith, few) in rw is_n refl
  | inr many ↦
      let is_all : min n (length xs) ≡ length xs = ground (arith, many) in
      rw is_all (take_all (length xs) xs (omega arith) ∙ sym (take_all n xs (ground (arith, many))))
]

take-nil : (n : ℕ) → take {A = ℕ} n [] ≡ []
take-nil zero = refl
take-nil (suc n) = refl

module _ (page_size off count : ℕ) where
  abbrev window : List ℕ → List ℕ
  window s = take count (drop off s)

  -- What stands in the page is the end of the text so far, and the rest of the text is behind the
  -- window, or nothing is left.
  record Shown (whole : List ℕ) (p : Printed) : Type 0 where
    pub so_far : List ℕ
    pub left : List ℕ
    pub parts : whole ≡ so_far ++ left
    pub in_page : p.page ≡ drop p.begin so_far
    pub before : p.begin ≤ off
    pub counted : length p.page + p.begin ≡ length so_far
    pub enough : ((p.eof ≡ true) × (left ≡ [])) ⊎ ((p.eof ≡ false) × (off + count < length so_far))

  print_ports-Shown :
      (ports : List (Option (List ℕ))) (so_far page : List ℕ) (begin : ℕ)
      → page ≡ drop begin so_far
      → begin ≤ off
      → length page + begin ≡ length so_far
      → length so_far + length (text ports) < page_size
      → Shown (so_far ++ text ports) (print_ports page_size off count ports page begin)
  unfolding print_ports
  print_ports-Shown [] so_far page begin shown before counted room = record {
    so_far = so_far;
    left = [];
    parts = refl;
    in_page = shown;
    before = before;
    counted = counted;
    enough = inl (refl, refl);
  }
  print_ports-Shown (none ∷ ports) so_far page begin shown before counted room =
      let fits : ltb (length page) page_size ≡ true = lt→ltb _ _ (omega (arith, counted, room)) in
      rw fits (print_ports-Shown ports so_far page begin shown before counted room)
  print_ports-Shown (some line ∷ ports) so_far page begin shown before counted room =
      let fits : ltb (length page) page_size ≡ true = lt→ltb _ _ (omega (arith, counted, room)) in
      let more = so_far ++ line in
      let joined : so_far ++ (line ++ text ports) ≡ more ++ text ports =
        sym (append_assoc so_far line (text ports)) in
      let sum = length-append page line in
      let sum' = length-append so_far line in
      let total = length-append line (text ports) in
      let shown' : page ++ line ≡ drop begin more =
        ap (λ (xs : List ℕ). xs ++ line) shown
        ∙ sym (drop-append begin so_far line (omega (arith, counted))) in
      let counted' : length (page ++ line) + begin ≡ length more =
        omega (arith, counted, sum, sum') in
      rw (fits, joined)
        (elim (Bool-cases (ltb (off + count) (length (page ++ line) + begin))) [
          | inl past ↦ rw past (record {
            so_far = more;
            left = text ports;
            parts = refl;
            in_page = shown';
            before = before;
            counted = counted';
            enough = inr (refl, ground (arith, past, counted'));
          })
          | inr short ↦ elim (Bool-cases (ltb (length (page ++ line) + begin) off)) [
            | inl skipped ↦
                rw (short, skipped)
                  (print_ports-Shown ports more [] (begin + length (page ++ line))
                    (sym (drop_all (begin + length (page ++ line)) more (omega (arith, counted'))))
                    (ground (arith, skipped)) (omega (arith, counted'))
                    (omega (arith, room, sum', total)))
            | inr reached ↦
                rw (short, reached)
                  (print_ports-Shown ports more (page ++ line) begin shown' before counted'
                    (omega (arith, room, sum', total)))
          ]
        ])

  -- The window does not reach the part that was not printed.
  window_of_printed :
      (whole : List ℕ) (p : Printed) (v : Shown whole p) → window whole ≡ window v.so_far
  window_of_printed whole p v = elim v.enough [
    | inl (ended, nothing) ↦ rw (v.parts, nothing, append-nil v.so_far) refl
    | inr (open_still, beyond) ↦
        let dropped = drop-append off v.so_far v.left (omega (arith, beyond)) in
        let short : count ≤ length (drop off v.so_far) =
          omega (arith, beyond, length-drop off v.so_far) in
        rw (v.parts, dropped) (take-append count (drop off v.so_far) v.left short)
  ]

  -- The bytes that the end of the function cuts out of the page.
  cut :
      (whole : List ℕ) (p : Printed) (v : Shown whole p) (all : ℕ)
      → all ≡ length v.so_far
      → ((leb all off ≡ true → window v.so_far ≡ [])
          × (leb all off ≡ false
              → take (min count (all - off)) (drop (off - p.begin) p.page) ≡ window v.so_far))
  cut whole p v all same = (
    (λ past. rw (drop_all off v.so_far (ground (arith, past, same))) (take-nil count)),
    λ inside.
        let at : p.begin + (off - p.begin) ≡ off = omega (arith, v.before) in
        let rest : all - off ≡ length (drop off v.so_far) =
          omega (arith, same, length-drop off v.so_far) in
        rw (v.in_page, drop-drop p.begin (off - p.begin) v.so_far, at, rest)
          (take-min count (drop off v.so_far)),
  )

  -- A read at an offset delivers exactly the bytes of the text that stand there, `count` at most,
  -- whatever was skipped on the way, if the whole text fits the page; and where the end of the file
  -- is not reported, more of the text is left.
  pub tiny_read_proc-window :
      (heading : List ℕ) (ports : List (Option (List ℕ)))
      → length heading + length (text ports) < page_size
      → let (bytes, eof) = tiny_read_proc page_size off count heading ports in
        (bytes ≡ take count (drop off (heading ++ text ports)))
        × (eof ≡ false → off + count < length (heading ++ text ports))
  unfolding tiny_read_proc
  tiny_read_proc-window heading ports room =
      let v = print_ports-Shown ports heading heading 0 refl (omega arith) (omega arith) room in
      let p = print_ports page_size off count ports heading 0 in
      let whole = heading ++ text ports in
      let (past, inside) = cut whole p v (length p.page + p.begin) v.counted in
      let here = window_of_printed whole p v in
      let more : p.eof ≡ false → off + count < length whole = λ e. elim v.enough [
        | inl ended ↦ absurd (true-ne-false (sym ended.0 ∙ e))
        | inr beyond ↦ rw v.parts (omega (arith, beyond.1, length-append v.so_far v.left))
      ] in
      elim (Bool-cases (leb (length p.page + p.begin) off)) [
        | inl behind ↦ rw behind (sym (here ∙ past behind), more)
        | inr reached ↦ rw reached (inside reached ∙ sym here, more)
      ]
