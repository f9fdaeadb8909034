-- ===== src/Http2/Pipe/Closed.antt =====
-- A pipe after `CloseWithError`: it takes no bytes any more, keeps its error, and drains.
use fhttp.Base.{
  ℕ, ◌≡◌, refl, sym, ap, subst, ◌∙◌, Bool, Option, none, some, List, [], ◌∷◌, ◌++◌, Bytes,
  append-nil, Bool-cases, inl, inr,
}
use fhttp.Base.Options.{◌>>=◌}
use fhttp.Http2.Pipe.{
  PipeBuffer, Pipe, close_read, read_pass, write_pipe, done, read_buffer, take_from, has_bytes,
}
use fhttp.Http2.Pipe.Delivery.{QueueLaws, held_by, IsOpen}
use fhttp.Http2.Pipe.Trace.{
  Call, writing, reading, closing, asking, call, calls, after_read, calls-Conserves,
}

module _ (pb : PipeBuffer) where
  open pb use {Buffer}

  closed : Option Buffer → ℕ → ℕ → Option ℕ → Option Bool → Option ℕ → Pipe Buffer
  closed b u e brk donec fn = record {
    b = b;
    unread = u;
    err = some e;
    break_err = brk;
    donec = donec;
    read_fn = fn;
  }

  abbrev StaysClosed : ℕ → Option (Pipe Buffer × Bytes × Bytes) → Type 0
  StaysClosed e none = Unit
  StaysClosed e (some (p, i, o)) = (i ≡ []) × (p.err ≡ some e)

  read_buffer-StaysClosed :
      (b : Option Buffer) (u e : ℕ) (donec : Option Bool) (fn : Option ℕ) (n : ℕ)
      → StaysClosed e (after_read pb (read_buffer pb (closed b u e none donec fn) b n))
  unfolding read_buffer take_from after_read closed
  read_buffer-StaysClosed none u e donec fn n = tt
  read_buffer-StaysClosed (some b) u e donec fn n =
      elim (pb.read b n)
        as (λ r. StaysClosed e (
          after_read pb (elim r [
            | none ↦ none
            | some (d, b') ↦ some (take_from pb (closed (some b) u e none donec fn) (b', d))
          ]))) [ none ↦ tt | some (none, b') ↦ (refl, refl) | some (some d, b') ↦ (refl, refl) ]

  call-StaysClosed :
      (b : Option Buffer) (u e : ℕ) (brk : Option ℕ) (donec : Option Bool) (fn : Option ℕ)
      (c : Call)
      → StaysClosed e (call pb (closed b u e brk donec fn) c)
  unfolding call write_pipe read_pass close_read done closed
  call-StaysClosed b u e brk donec fn (writing d) = (refl, refl)
  call-StaysClosed b u e brk donec fn (closing x f) = (refl, refl)
  call-StaysClosed b u e brk none fn asking = (refl, refl)
  call-StaysClosed b u e brk (some x) fn asking = (refl, refl)
  call-StaysClosed b u e (some x) donec fn (reading n) = (refl, refl)
  call-StaysClosed b u e none donec fn (reading n) = elim (Bool-cases (has_bytes pb b)) [
    | inl h ↦ rw h (read_buffer-StaysClosed b u e donec fn n)
    | inr h ↦ rw h (refl, refl)
  ]

  in_turn :
      (e : ℕ) (r : Option (Pipe Buffer × Bytes × Bytes)) (cs : List Call)
      → StaysClosed e r
      → ((p : Pipe Buffer) → p.err ≡ some e → StaysClosed e (calls pb p cs))
      → StaysClosed e (r >>= λ t. calls pb t.0 cs >>= λ t'. some (t'.0, t.1 ++ t'.1, t.2 ++ t'.2))
  in_turn e none cs h k = tt
  in_turn e (some (p, i, o)) cs h k = later (calls pb p cs) (k p h.1)
    where
      later :
          (r : Option (Pipe Buffer × Bytes × Bytes))
          → StaysClosed e r
          → StaysClosed e (r >>= λ t'. some (t'.0, i ++ t'.1, o ++ t'.2))
      later none g = tt
      later (some (q, i', o')) g = (ap (λ t. t ++ i') h.0 ∙ g.0, g.1)

  calls-StaysClosed :
      (cs : List Call) (p : Pipe Buffer) (e : ℕ) → p.err ≡ some e → StaysClosed e (calls pb p cs)
  unfolding calls closed
  calls-StaysClosed [] p e h = (refl, h)
  calls-StaysClosed (c ∷ cs) p e h =
      in_turn e (call pb p c) cs
        (subst (λ k. let q : Pipe Buffer = record p { err = k } in StaysClosed e (call pb q c))
          (sym h) (call-StaysClosed p.b p.unread e p.break_err p.donec p.read_fn c))
        (λ q hq. calls-StaysClosed cs q e hq)

-- After `CloseWithError`, calls in a row on a pipe that is not broken do not panic and take no more
-- bytes: those that the pipe held are the bytes read, followed by those that it holds after; and
-- the error is that of the first close.
pub calls_drain :
    (pb : PipeBuffer) (laws : QueueLaws pb) (p : Pipe pb.Buffer) (cs : List Call) (e : ℕ)
    → IsOpen pb laws p
    → p.err ≡ some e
    → (p' : Pipe pb.Buffer) × (o : Bytes) × (calls pb p cs ≡ some (p', [], o))
      × (held_by pb laws p.b ≡ o ++ held_by pb laws p'.b)
      × (p'.err ≡ some e)
      × IsOpen pb laws p'
calls_drain pb laws p cs e h closed_by =
    let (p', i, o, run, kept, h') = calls-Conserves pb laws p cs h in
    let c : (i ≡ []) × (p'.err ≡ some e) =
      subst (StaysClosed pb e) run (calls-StaysClosed pb cs p e closed_by) in
    (
      p',
      o,
      run ∙ ap (λ x. some (p', x, o)) c.0,
      sym (ap (λ x. held_by pb laws p.b ++ x) c.0 ∙ append-nil _) ∙ kept,
      c.1,
      h',
    )
