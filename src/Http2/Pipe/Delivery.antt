-- ===== src/Http2/Pipe/Delivery.antt =====
-- A pipe over a buffer that is a queue of bytes: what is read is what was written, in order, and the
-- error of `CloseWithError` comes after it.
use fhttp.Base.{
  ℕ, ◌<◌, ◌≡◌, ◌⊎◌, inl, inr, refl, sym, ap, subst, Bool, true, false, Option, none, some, [], ◌++◌,
  Bytes, length, take, drop, ltb, ◌==◌, arith, Bool-cases, length-zero,
}
use fhttp.Http2.Pipe.{PipeBuffer, Pipe, ReadResult, waits, reads, fails, read_pass}

-- What a pipe relies on: the buffer is a queue of bytes.
pub record QueueLaws (pb : PipeBuffer) : Type 1 where
  pub held : pb.Buffer → Bytes
  pub IsGood : pb.Buffer → Type 0
  pub len-held : (b : pb.Buffer) → IsGood b → pb.len b ≡ length (held b)
  pub read-held :
      (b : pb.Buffer) (n : ℕ)
      → IsGood b
      → 0 < length (held b)
      → (b' : pb.Buffer) × (pb.read b n ≡ some (some (take n (held b)), b'))
        × (held b' ≡ drop n (held b))
        × IsGood b'
  pub write-held :
      (b : pb.Buffer) (d : Bytes)
      → IsGood b
      → (b' : pb.Buffer) × (pb.write b d ≡ some b') × (held b' ≡ held b ++ d) × IsGood b'

module _ (pb : PipeBuffer) (laws : QueueLaws pb) where
  open pb use {Buffer}
  open laws use {held, IsGood, len-held, read-held, write-held}

  abbrev pub held_by : Option Buffer → Bytes
  held_by none = []
  held_by (some b) = held b

  abbrev pub IsGoodOption : Option Buffer → Type 0
  IsGoodOption none = Unit
  IsGoodOption (some b) = IsGood b

  -- The buffer is sound and the pipe is not broken.
  abbrev pub IsOpen : Pipe Buffer → Type 0
  IsOpen p = IsGoodOption p.b × (p.break_err ≡ none)

  -- What one pass of `Read` does on a pipe that is not broken.
  abbrev pub ReadPass : Pipe Buffer → ℕ → Pipe Buffer → ReadResult → Type 0
  ReadPass p n p' r =
      ((0 < length (held_by p.b))
        × (r ≡ reads (take n (held_by p.b)))
        × (held_by p'.b ≡ drop n (held_by p.b))
        × (p'.err ≡ p.err))
      ⊎ (((held_by p.b ≡ []) × (p.err ≡ none) × (r ≡ waits) × (p' ≡ p))
          ⊎ ((e : ℕ) × (held_by p.b ≡ [])
              × (p.err ≡ some e)
              × (r ≡ fails e p.read_fn)
              × (p' ≡ record p { read_fn = none; b = none })))

  unbroken : Option Buffer → ℕ → Option ℕ → Option Bool → Option ℕ → Pipe Buffer
  unbroken b u err donec fn = record {
    b = b;
    unread = u;
    err = err;
    break_err = none;
    donec = donec;
    read_fn = fn;
  }

  empty_pass :
      (b : Option Buffer) (u : ℕ) (err : Option ℕ) (donec : Option Bool) (fn : Option ℕ) (n : ℕ)
      → IsGoodOption b
      → held_by b ≡ []
      → (p' : Pipe Buffer) × (r : ReadResult) × (read_pass pb (unbroken b u err donec fn) n
          ≡ some (p', r))
        × ReadPass (unbroken b u err donec fn) n p' r
        × IsOpen p'
  unfolding read_pass unbroken
  empty_pass none u none donec fn n g e =
      (_, _, refl, inr (inl (refl, refl, refl, refl)), (tt, refl))
  empty_pass none u (some x) donec fn n g e =
      (_, _, refl, inr (inr (x, refl, refl, refl, refl)), (tt, refl))
  empty_pass (some b) u none donec fn n g e =
      let z : ltb 0 (pb.len b) ≡ false = ground (arith, len-held b g, ap length e) in
      (_, _, rw z refl, inr (inl (e, refl, refl, refl)), (g, refl))
  empty_pass (some b) u (some x) donec fn n g e =
      let z : ltb 0 (pb.len b) ≡ false = ground (arith, len-held b g, ap length e) in
      (_, _, rw z refl, inr (inr (x, e, refl, refl, refl)), (tt, refl))

  full_pass :
      (b : Buffer) (u : ℕ) (err : Option ℕ) (donec : Option Bool) (fn : Option ℕ) (n : ℕ)
      → IsGood b
      → 0 < length (held b)
      → (p' : Pipe Buffer) × (r : ReadResult) × (read_pass pb (unbroken (some b) u err donec fn) n
          ≡ some (p', r))
        × ReadPass (unbroken (some b) u err donec fn) n p' r
        × IsOpen p'
  unfolding read_pass unbroken
  full_pass b u err donec fn n g h =
      let (b', run, left, g') = read-held b n g h in
      let z : ltb 0 (pb.len b) ≡ true = ground (arith, len-held b g) in
      (
        unbroken (some b') u err donec fn,
        reads (take n (held b)),
        rw (z, run) refl,
        inl (h, refl, left, refl),
        (g', refl),
      )

  -- One pass of `Read` on a pipe that is not broken does not panic: it returns the front of the bytes
  -- that are held; with none held it waits while the pipe is open, and once it is closed it returns
  -- the error of the close and runs its function once.
  pub read_pass-ReadPass :
      (p : Pipe Buffer) (n : ℕ)
      → IsOpen p
      → (p' : Pipe Buffer) × (r : ReadResult) × (read_pass pb p n ≡ some (p', r))
        × ReadPass p n p' r
        × IsOpen p'
  unfolding unbroken
  read_pass-ReadPass p n (g, open_) =
      subst
        (λ k.
          let q : Pipe Buffer = record p { break_err = k } in
          (p' : Pipe Buffer) × (r : ReadResult) × (read_pass pb q n ≡ some (p', r))
          × ReadPass q n p' r
          × IsOpen p')
        (sym open_) (by_buffer p.b g)
    where
      by_buffer :
          (b : Option Buffer)
          → IsGoodOption b
          → let q : Pipe Buffer = unbroken b p.unread p.err p.donec p.read_fn in
            (p' : Pipe Buffer) × (r : ReadResult) × (read_pass pb q n ≡ some (p', r))
            × ReadPass q n p' r
            × IsOpen p'
      by_buffer none g = empty_pass none p.unread p.err p.donec p.read_fn n tt refl
      by_buffer (some b) g = elim (Bool-cases (length (held b) == 0)) [
        | inl z ↦
            empty_pass (some b) p.unread p.err p.donec p.read_fn n g
              (length-zero (held b) (ground arith))
        | inr z ↦ full_pass b p.unread p.err p.donec p.read_fn n g (ground arith)
      ]
