-- ===== src/Frame/Receive/Refine.antt =====
-- `add` on the buffer carries out `stream_add` on the list of bytes in use.
use cdroid_demo.Common.{
  ℕ, zero, suc, ◌+◌, ◌-◌, ◌≤◌, ◌<◌, ◌≡◌, refl, sym, ap, subst, ◌∙◌, Bool, true, false, ◌&&◌, not,
  List, ◌++◌, Option, none, some, ltb, leb, if◌then◌else◌, take, drop, length, arith, Bool-cases,
  inl, inr, length-append, length-take, length-drop, drop-take, append_assoc, take_all, drop_all,
  take-append_length,
}
use cdroid_demo.Frame.{copy_to, move_down}
use cdroid_demo.Frame.Receive.{
  Received, shift_head, add_len, append_data, find_head, add_loop, mcu_add, mcu_head, mcu_buf_len,
}
use cdroid_demo.Frame.Receive.Stream.{content, placed, Agrees, mcu_resync, mcu_scan-suffix}

-- A buffer of `cap` bytes, not overfull.
pub record IsSized (cap : ℕ) (s : Received) : Type 0 where
  pub allocated : length s.buf ≡ cap
  pub within : s.dlen ≤ cap

module _ (cap head_len : ℕ) (resync : List ℕ → List ℕ × Bool) where
  -- Where no head has been found and enough bytes are there, the list is cut to the next head.
  unfoldable pub realign : List ℕ → Bool → List ℕ × Bool
  realign c found = if not found && ltb head_len (length c) then resync c else (c, found)

  -- The bytes in use, and how many have been taken in.
  unfoldable pub stream_loop : ℕ → List ℕ → Bool → List ℕ → ℕ → List ℕ × ℕ
  stream_loop zero c found rest taken = (c, taken)
  stream_loop (suc fuel) c found rest taken =
      let room = cap - length c in
      let aligned = realign (c ++ take room rest) found in
      let next =
        stream_loop fuel aligned.0 aligned.1 (drop room rest) (taken + length (take room rest)) in
      if ltb (length c) cap && ltb 0 (length rest) then next else (c, taken)

module _ {cap : ℕ} (s : Received) (sized : IsSized cap s) where
  pub length-content : length (content s) ≡ s.dlen
  length-content = omega (arith, length-take s.dlen s.buf, sized.allocated, sized.within)

  pub content-append :
      (src : List ℕ) → s.dlen + length src ≤ cap → content (append_data s src) ≡ content s ++ src
  unfolding append_data copy_to
  content-append src h =
      ap (λ (n : ℕ). take n (content s ++ (src ++ drop (s.dlen + length src) s.buf)))
        (omega (arith, length-append (content s) src, length-content))
      ∙ ap (take (length (content s ++ src))) (sym (append_assoc (content s) src _))
      ∙ take-append_length (content s ++ src) _

  pub append-IsSized : (src : List ℕ) → s.dlen + length src ≤ cap → IsSized cap (append_data s src)
  unfolding append_data copy_to
  append-IsSized src h = record {
    allocated = omega (
      arith,
      length-append (content s) (src ++ drop (s.dlen + length src) s.buf),
      length-append src (drop (s.dlen + length src) s.buf),
      length-drop (s.dlen + length src) s.buf,
      length-content,
      sized.allocated,
    );
    within = h;
  }

  shift_head-suc :
      (j : ℕ)
      → shift_head s (some (suc j))
        ≡ record { buf = move_down s.buf (suc j) (s.dlen - suc j); dlen = s.dlen - suc j }
  unfolding shift_head
  shift_head-suc j = ground arith

  content-shift : (j : Option ℕ) → content (shift_head s j) ≡ placed (content s) j
  unfolding shift_head move_down
  content-shift none = refl
  content-shift (some zero) = refl
  content-shift (some (suc j)) =
      ap content (shift_head-suc j)
      ∙ ap
          (λ (n : ℕ).
            take n (take (s.dlen - suc j) (drop (suc j) s.buf) ++ drop (s.dlen - suc j) s.buf))
          (omega (
            arith,
            length-take (s.dlen - suc j) (drop (suc j) s.buf),
            length-drop (suc j) s.buf,
            sized.allocated,
            sized.within,
          ))
      ∙ take-append_length (take (s.dlen - suc j) (drop (suc j) s.buf)) _
      ∙ sym (drop-take (suc j) s.dlen s.buf)

  shift-IsSized : (j : Option ℕ) → IsSized cap (shift_head s j)
  unfolding shift_head move_down
  shift-IsSized none = record { allocated = sized.allocated; within = omega arith }
  shift-IsSized (some zero) = sized
  shift-IsSized (some (suc j)) = rw (shift_head-suc j) (record {
    allocated = omega (
      arith,
      length-append (take (s.dlen - suc j) (drop (suc j) s.buf)) (drop (s.dlen - suc j) s.buf),
      length-take (s.dlen - suc j) (drop (suc j) s.buf),
      length-drop (suc j) s.buf,
      length-drop (s.dlen - suc j) s.buf,
      sized.allocated,
      sized.within,
    );
    within = omega (arith, sized.within);
  })

module _ (cap head_len : ℕ) (scan : List ℕ → ℕ → Option ℕ × Bool) (resync : List ℕ → List ℕ × Bool)
    (agrees : (dlen : ℕ) (buf : List ℕ)
      → length (take dlen buf) ≡ dlen
      → Agrees (take dlen buf) (scan buf dlen) (resync (take dlen buf))) where
  -- "find head" and `realign` give the same list and the same flag.
  abbrev Same : Received × Bool → List ℕ × Bool → Type 0
  Same r spec = IsSized cap r.0 × (content r.0 ≡ spec.0) × (r.1 ≡ spec.1)

  find_head_enough :
      (s : Received)
      → head_len < s.dlen
      → find_head cap head_len scan s false
        ≡ (shift_head s (scan s.buf s.dlen).0, (scan s.buf s.dlen).1)
  unfolding find_head
  find_head_enough s h = ground arith

  find_head_few :
      (s : Received) → s.dlen ≤ head_len → find_head cap head_len scan s false ≡ (s, false)
  unfolding find_head
  find_head_few s h = ground arith

  find_head-realign :
      (s : Received) (found : Bool)
      → IsSized cap s
      → Same (find_head cap head_len scan s found) (realign cap head_len resync (content s) found)
  unfolding realign
  find_head-realign s true sized = unfold find_head in (sized, refl, refl)
  find_head-realign s false sized = elim (Bool-cases (ltb head_len (length (content s)))) [
    | inl h ↦
        rw (h, find_head_enough s (ground (arith, length-content s sized)))
          (
            shift-IsSized s sized (scan s.buf s.dlen).0,
            content-shift s sized (scan s.buf s.dlen).0
                ∙ (agrees s.dlen s.buf (length-content s sized)).0,
            (agrees s.dlen s.buf (length-content s sized)).1,
          )
    | inr h ↦ rw (h, find_head_few s (ground (arith, length-content s sized))) (sized, refl, refl)
  ]

  -- Copying fills the room with the first bytes of the input.
  add_len-room :
      (s : Received) (rest : List ℕ)
      → IsSized cap s
      → (take (add_len cap s rest) rest ≡ take (cap - s.dlen) rest)
        × (drop (add_len cap s rest) rest ≡ drop (cap - s.dlen) rest)
        × (add_len cap s rest ≡ length (take (cap - s.dlen) rest))
        × (s.dlen + length (take (cap - s.dlen) rest) ≤ cap)
  unfolding add_len
  add_len-room s rest sized = elim (Bool-cases (leb (length rest) (cap - s.dlen))) [
    | inl h ↦
        let fits : length rest ≤ cap - s.dlen = ground arith in
        rw (h, take_all (length rest) rest (omega arith), drop_all (length rest) rest (omega arith))
          (
            sym (take_all (cap - s.dlen) rest fits),
            sym (drop_all (cap - s.dlen) rest fits),
            ap length (sym (take_all (cap - s.dlen) rest fits)),
            omega (arith, length-take (cap - s.dlen) rest, sized.within),
          )
    | inr h ↦
        let over : cap - s.dlen ≤ length rest = ground arith in
        rw h (
          refl,
          refl,
          omega (arith, length-take (cap - s.dlen) rest),
          omega (arith, length-take (cap - s.dlen) rest, sized.within),
        )
  ]

  -- The outcome of the buffer's loop stands for the outcome of the list's.
  abbrev Carries : Received × ℕ → List ℕ × ℕ → Type 0
  Carries r spec = IsSized cap r.0 × (content r.0 ≡ spec.0) × (r.1 ≡ spec.1)

  pub add_loop-stream :
      (fuel : ℕ) (s : Received) (found : Bool) (rest : List ℕ) (rlen : ℕ)
      → IsSized cap s
      → Carries
          (add_loop cap head_len scan fuel s found rest rlen)
          (stream_loop cap head_len resync fuel (content s) found rest rlen)
  unfolding add_loop stream_loop
  add_loop-stream zero s found rest rlen sized = (sized, refl, refl)
  add_loop-stream (suc fuel) s found rest rlen sized =
      elim (Bool-cases (ltb s.dlen cap && ltb 0 (length rest))) [
        | inl h ↦
            rw (length-content s sized, h) (go (add_loop-stream fuel) (add_len-room s rest sized))
        | inr h ↦ rw (length-content s sized, h) (sized, refl, refl)
      ]
    where
      n : ℕ
      n = add_len cap s rest

      s' : Received × Bool
      s' = find_head cap head_len scan (append_data s (take n rest)) found

      c' : List ℕ × Bool
      c' = realign cap head_len resync (content s ++ take (cap - s.dlen) rest) found

      go :
          ((t : Received) (f : Bool) (r : List ℕ) (k : ℕ)
            → IsSized cap t
            → Carries
                (add_loop cap head_len scan fuel t f r k)
                (stream_loop cap head_len resync fuel (content t) f r k))
          → (take n rest ≡ take (cap - s.dlen) rest)
            × (drop n rest ≡ drop (cap - s.dlen) rest)
            × (n ≡ length (take (cap - s.dlen) rest))
            × (s.dlen + length (take (cap - s.dlen) rest) ≤ cap)
          → Carries (add_loop cap head_len scan fuel s'.0 s'.1 (drop n rest) (rlen + n)) (
              stream_loop cap head_len resync fuel c'.0 c'.1
                (drop (cap - s.dlen) rest)
                (rlen + length (take (cap - s.dlen) rest)))
      go ih (taken, left, count, fits) =
          rw (taken, left, count, ← same.1, ← same.2) (ih _ _ (drop (cap - s.dlen) rest) _ same.0)
        where
          src : List ℕ
          src = take (cap - s.dlen) rest

          same : Same (find_head cap head_len scan (append_data s src) found) c'
          same =
              subst
                (λ c.
                  Same (find_head cap head_len scan (append_data s src) found)
                    (realign cap head_len resync c found))
                (content-append s sized src fits)
                (find_head-realign (append_data s src) found (append-IsSized s sized src fits))

-- `MCU2UI::add` on a list: the fuel is one round for each byte.
unfoldable pub mcu_stream_add : List ℕ → List ℕ → List ℕ × ℕ
mcu_stream_add c bf = stream_loop mcu_buf_len 2 mcu_resync (length bf) c false bf 0

-- What `MCU2UI::add` does to a buffer of 32 bytes is `mcu_stream_add` on the bytes in use: the
-- same bytes are in use after it, and as many are taken in. The buffer keeps its size.
pub mcu_add-stream :
    (s : Received) (bf : List ℕ)
    → IsSized mcu_buf_len s
    → IsSized mcu_buf_len (mcu_add s bf).0
      × (content (mcu_add s bf).0 ≡ (mcu_stream_add (content s) bf).0)
      × ((mcu_add s bf).1 ≡ (mcu_stream_add (content s) bf).1)
unfolding mcu_add mcu_stream_add
mcu_add-stream s bf sized =
    add_loop-stream mcu_buf_len 2 mcu_head mcu_resync
      (λ dlen buf full. mcu_scan-suffix dlen buf full dlen 0 (take dlen buf) refl full) (length bf)
      s false bf 0 sized
