-- ===== src/Http2/Pipe/Trace.antt =====
-- Calls of a pipe in a row, in any order, none of which breaks it.
use fhttp.Base.{
  ℕ, ◌≡◌, refl, sym, ap, subst, ◌∙◌, Bool, Option, none, some, List, [], ◌∷◌, ◌++◌, Bytes, length,
  take, append-nil, append_assoc, take-append-drop, inl, inr,
}
use fhttp.Base.Options.{◌>>=◌}
use fhttp.Http2.Pipe.{
  PipeBuffer, Pipe, WriteResult, written, closed_pipe_write, uninitialized_pipe_write, ReadResult,
  waits, reads, buffer_error, fails, close_read, read_pass, write_pipe, done,
}
use fhttp.Http2.Pipe.Delivery.{
  QueueLaws, held_by, IsGoodOption, IsOpen, ReadPass, read_pass-ReadPass,
}

pub data Call : Type 0 where
  writing : Bytes → Call
  reading : ℕ → Call
  closing : ℕ → Option ℕ → Call
  asking : Call

-- The bytes that a `Write` took, and those that a `Read` returned.
abbrev pub taken_by : WriteResult → Bytes → Bytes
taken_by (written _) d = d
taken_by closed_pipe_write d = []
taken_by uninitialized_pipe_write d = []

abbrev pub returned : ReadResult → Bytes
returned waits = []
returned (reads d) = d
returned buffer_error = []
returned (fails _ _) = []

module _ (pb : PipeBuffer) where
  open pb use {Buffer}

  unfoldable pub after_write :
      Bytes → Option (Pipe Buffer × WriteResult) → Option (Pipe Buffer × Bytes × Bytes)
  after_write d none = none
  after_write d (some (p, r)) = some (p, taken_by r d, [])

  unfoldable pub after_read :
      Option (Pipe Buffer × ReadResult) → Option (Pipe Buffer × Bytes × Bytes)
  after_read none = none
  after_read (some (p, r)) = some (p, [], returned r)

  -- The pipe after a call, the bytes written to it and the bytes read from it.
  unfoldable pub call : Pipe Buffer → Call → Option (Pipe Buffer × Bytes × Bytes)
  unfolding after_write after_read
  call p (writing d) = after_write d (write_pipe pb p d)
  call p (reading n) = after_read (read_pass pb p n)
  call p (closing e fn) = some (close_read p e fn, [], [])
  call p asking = some (done pb p, [], [])

  unfoldable pub calls : Pipe Buffer → List Call → Option (Pipe Buffer × Bytes × Bytes)
  calls p [] = some (p, [], [])
  calls p (c ∷ cs) = call p c >>= λ t. calls t.0 cs >>= λ t'. some (t'.0, t.1 ++ t'.1, t.2 ++ t'.2)

module _ (pb : PipeBuffer) (laws : QueueLaws pb) where
  open pb use {Buffer}
  open laws use {held, IsGood, write-held}

  -- A call that conserves bytes: what was held and is written, is read or is held.
  abbrev pub Conserves : Pipe Buffer → Option (Pipe Buffer × Bytes × Bytes) → Type 0
  Conserves p r =
      (p' : Pipe Buffer) × (i : Bytes) × (o : Bytes) × (r ≡ some (p', i, o))
      × (held_by pb laws p.b ++ i ≡ o ++ held_by pb laws p'.b)
      × IsOpen pb laws p'

  write_pipe-Conserves :
      (b : Option Buffer) (u : ℕ) (err : Option ℕ) (donec : Option Bool) (fn : Option ℕ) (d : Bytes)
      → IsGoodOption pb laws b
      → let p : Pipe Buffer = record {
        b = b;
        unread = u;
        err = err;
        break_err = none;
        donec = donec;
        read_fn = fn;
      } in
        Conserves p (call pb p (writing d))
  unfolding call write_pipe
  write_pipe-Conserves b u (some e) donec fn d g = (_, _, _, refl, append-nil _, (g, refl))
  write_pipe-Conserves none u none donec fn d g = (_, _, _, refl, refl, (tt, refl))
  write_pipe-Conserves (some b) u none donec fn d g =
      let (b', run, more, g') = write-held b d g in
      (
        record {
          b = some b';
          unread = u;
          err = none;
          break_err = none;
          donec = donec;
          read_fn = fn;
        },
        d,
        [],
        ap
            (λ (o : Option Buffer). after_write pb d (elim o [
              | none ↦ none
              | some b' ↦ some (
                record {
                  b = some b';
                  unread = u;
                  err = none;
                  break_err = none;
                  donec = donec;
                  read_fn = fn;
                },
                written (length d),
              )
            ]))
            run,
        sym more,
        (g', refl),
      )

  close_read-Conserves :
      (b : Option Buffer) (u : ℕ) (err : Option ℕ) (donec : Option Bool) (fn : Option ℕ) (e : ℕ)
      (fn' : Option ℕ)
      → IsGoodOption pb laws b
      → let p : Pipe Buffer = record {
        b = b;
        unread = u;
        err = err;
        break_err = none;
        donec = donec;
        read_fn = fn;
      } in
        Conserves p (call pb p (closing e fn'))
  unfolding call close_read
  close_read-Conserves b u none donec fn e fn' g = (_, _, _, refl, append-nil _, (g, refl))
  close_read-Conserves b u (some x) donec fn e fn' g = (_, _, _, refl, append-nil _, (g, refl))

  done-Conserves :
      (b : Option Buffer) (u : ℕ) (err : Option ℕ) (donec : Option Bool) (fn : Option ℕ)
      → IsGoodOption pb laws b
      → let p : Pipe Buffer = record {
        b = b;
        unread = u;
        err = err;
        break_err = none;
        donec = donec;
        read_fn = fn;
      } in
        Conserves p (call pb p asking)
  unfolding call done
  done-Conserves b u err none fn g = (_, _, _, refl, append-nil _, (g, refl))
  done-Conserves b u err (some x) fn g = (_, _, _, refl, append-nil _, (g, refl))

  read_pass-Conserves :
      (p : Pipe Buffer) (n : ℕ) → IsOpen pb laws p → Conserves p (call pb p (reading n))
  unfolding call
  read_pass-Conserves p n h =
      let (p', r, run, pass, h') = read_pass-ReadPass pb laws p n h in
      (p', [], returned r, ap (after_read pb) run, append-nil _ ∙ sym (left p' r pass), h')
    where
      left :
          (p' : Pipe Buffer) (r : ReadResult)
          → ReadPass pb laws p n p' r
          → returned r ++ held_by pb laws p'.b ≡ held_by pb laws p.b
      left p' r (inl (_, is, rest, _)) =
          ap (λ x. returned x ++ held_by pb laws p'.b) is
          ∙ ap (λ x. take n (held_by pb laws p.b) ++ x) rest
          ∙ take-append-drop n (held_by pb laws p.b)
      left p' r (inr (inl (_, _, is, same))) =
          ap (λ x. returned x ++ held_by pb laws p'.b) is
          ∙ ap (λ (q : Pipe Buffer). held_by pb laws q.b) same
      left p' r (inr (inr (e, nothing_held, _, is, same))) =
          ap (λ x. returned x ++ held_by pb laws p'.b) is
          ∙ ap (λ (q : Pipe Buffer). held_by pb laws q.b) same
          ∙ sym nothing_held

  unbroken :
      (p : Pipe Buffer) (c : Call)
      → p.break_err ≡ none
      → (let q : Pipe Buffer = record p { break_err = none } in Conserves q (call pb q c))
      → Conserves p (call pb p c)
  unbroken p c e t =
      subst (λ k. let q : Pipe Buffer = record p { break_err = k } in Conserves q (call pb q c))
        (sym e) t

  call-Conserves : (p : Pipe Buffer) (c : Call) → IsOpen pb laws p → Conserves p (call pb p c)
  call-Conserves p (reading n) h = read_pass-Conserves p n h
  call-Conserves p (writing d) (g, e) =
      unbroken p (writing d) e (write_pipe-Conserves p.b p.unread p.err p.donec p.read_fn d g)
  call-Conserves p (closing x fn) (g, e) =
      unbroken p (closing x fn) e (close_read-Conserves p.b p.unread p.err p.donec p.read_fn x fn g)
  call-Conserves p asking (g, e) =
      unbroken p asking e (done-Conserves p.b p.unread p.err p.donec p.read_fn g)

  -- Calls in a row on a pipe that is not broken do not panic: what was held, followed by what is
  -- written, is what is read, followed by what is held after.
  pub calls-Conserves :
      (p : Pipe Buffer) (cs : List Call) → IsOpen pb laws p → Conserves p (calls pb p cs)
  unfolding calls
  calls-Conserves p [] h = (p, [], [], refl, append-nil _, h)
  calls-Conserves p (c ∷ cs) h =
      let (p1, i1, o1, run1, kept1, h1) = call-Conserves p c h in
      let (p2, i2, o2, run2, kept2, h2) = calls-Conserves p1 cs h1 in
      (
        p2,
        i1 ++ i2,
        o1 ++ o2,
        rw (run1, run2) refl,
        sym (append_assoc (held_by pb laws p.b) i1 i2)
            ∙ ap (λ t. t ++ i2) kept1
            ∙ append_assoc o1 (held_by pb laws p1.b) i2
            ∙ ap (λ t. o1 ++ t) kept2
            ∙ sym (append_assoc o1 o2 (held_by pb laws p2.b)),
        h2,
      )
