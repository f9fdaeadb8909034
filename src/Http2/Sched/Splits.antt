-- ===== src/Http2/Sched/Splits.antt =====
-- What `Consume` and the queue's `consume` of http2/writesched.go do to the bytes and to the flow.
use fhttp.Base.{
  ℕ, ◌+◌, ◌-◌, ◌^◌, ◌<◌, ◌≤◌, ◌≡◌, inl, inr, refl, sym, ◌∙◌, ap, subst, true, false, Option, some,
  [], ◌++◌, Bytes, length, ◌==◌, arith, Bool-cases, lt→ltb, le→ltb, append-nil, take-append-drop,
  length-take,
}
use Prim.Native.Nat.{min}
use native.Mathlib.Nat.{mod-eq_of_lt}
use native.Mathlib.Decide.{dec_lt}
use fhttp.Base.Int32.{ord, signed_ltb}
use fhttp.Http2.Flow.{Flow, available}
use fhttp.Http2.Flow.Windows.{IsFlow, take-available, available-lt}
use fhttp.Http2.Sched.{
  WriteData, WriteFramer, write_data, write_other, FrameWriteRequest, Consumed, nothing, whole,
  parts, allowed, consume_up_to, consume_write, on_stream, consume, first_part, second_part,
  with_flow,
}

unfoldable pub payload_of : WriteFramer → Bytes
payload_of (write_data d) = d.p
payload_of (write_other _) = []

unfoldable pub payload : FrameWriteRequest → Bytes
unfolding payload_of
payload wr = payload_of wr.write

-- What `Consume` on `wr` hands out and what it keeps.
unfoldable pub taken : Consumed → Bytes
taken nothing = []
taken (whole wr) = payload wr
taken (parts a b) = payload a

unfoldable pub kept : FrameWriteRequest → Consumed → Bytes
kept wr nothing = payload wr
kept wr (whole _) = []
kept wr (parts a b) = payload b

-- What `Consume` promises on DATA: `limit` bytes at most, off the front and off the flow.
abbrev pub Splits : FrameWriteRequest → Bytes → Flow → ℕ → Option (Consumed × Flow) → Type 0
Splits wr p f limit r =
    (c : Consumed) × (f' : Flow) × (r ≡ some (c, f'))
    × (taken c ++ kept wr c ≡ p)
    × (length (taken c) ≡ min (length p) limit)
    × (ord (available f') + length (taken c) ≡ ord (available f))
    × IsFlow f'

module _ (wr : FrameWriteRequest) (d : WriteData) (f : Flow) (k : ℕ) (e : wr.write ≡ write_data d)
    (hp : length d.p < 2 ^ 31) (w : IsFlow f) (hk : k < 2 ^ 32)
    (fits : ord k ≤ ord (available f)) where
  parts-Splits :
      (t : (f' : Flow) × (fhttp.Http2.Flow.take f k ≡ some f')
        × (ord (available f') + k ≡ ord (available f))
        × IsFlow f')
      → signed_ltb 0 k ≡ true
      → k < length d.p
      → Splits wr d.p f (ord k - 2 ^ 31) (consume_up_to wr d f k)
  unfolding consume_up_to with_flow taken kept payload payload_of first_part second_part
  parts-Splits t z l = (
    parts (first_part wr d k) (second_part wr d k),
    t.0,
    rw (z, lt→ltb k (length d.p) l, t.1) refl,
    take-append-drop k d.p,
    ground (arith, length-take k d.p),
    ground (arith, length-take k d.p, t.2),
    t.3,
  )

  whole-Splits :
      (t : (f' : Flow) × (fhttp.Http2.Flow.take f (length d.p) ≡ some f')
        × (ord (available f') + length d.p ≡ ord (available f))
        × IsFlow f')
      → signed_ltb 0 k ≡ true
      → length d.p ≤ k
      → Splits wr d.p f (ord k - 2 ^ 31) (consume_up_to wr d f k)
  unfolding consume_up_to with_flow taken kept payload payload_of
  whole-Splits t z l =
      let small : length d.p < 2 ^ 32 = omega arith in
      (
        whole wr,
        t.0,
        rw (z, le→ltb k (length d.p) l, mod-eq_of_lt small, t.1) refl,
        append-nil _ ∙ ap payload_of e,
        ap (λ v. length (payload_of v)) e ∙ ground arith,
        ap (λ v. ord (available t.0) + length (payload_of v)) e ∙ t.2,
        t.3,
      )

  nothing-Splits :
      signed_ltb 0 k ≡ false → Splits wr d.p f (ord k - 2 ^ 31) (consume_up_to wr d f k)
  unfolding consume_up_to taken kept payload payload_of
  nothing-Splits z = (nothing, f, rw z refl, ap payload_of e, ground arith, omega arith, w)

  consume_up_to-Splits : Splits wr d.p f (ord k - 2 ^ 31) (consume_up_to wr d f k)
  consume_up_to-Splits = elim (Bool-cases (signed_ltb 0 k)) [
    | inr z ↦ nothing-Splits z
    | inl z ↦ elim (dec_lt k (length d.p)) [
      | yes l ↦ parts-Splits (take-available f k w (ground arith) fits) z l
      | no l ↦ whole-Splits (take-available f (length d.p) w hp (ground arith)) z (omega arith)
    ]
  ]

empty-Splits :
    (wr : FrameWriteRequest) (d : WriteData) (f : Flow) (limit : ℕ)
    → wr.write ≡ write_data d
    → (length d.p == 0) ≡ true
    → IsFlow f
    → Splits wr d.p f limit (some (whole wr, f))
unfolding taken kept payload payload_of
empty-Splits wr d f limit e z w = (
  whole wr,
  f,
  refl,
  append-nil _ ∙ ap payload_of e,
  ap (λ v. length (payload_of v)) e ∙ ground arith,
  ap (λ v. ord (available f) + length (payload_of v)) e ∙ ground arith,
  w,
)

-- `Consume` on a DATA frame of a stream does not panic: it cuts the data in two, hands out as many
-- bytes as the frame has and the three limits allow, off the front, and takes just as many from
-- what is available.
pub consume-Splits :
    (wr : FrameWriteRequest) (d : WriteData) (id : ℕ) (f : Flow) (m n : ℕ)
    → wr.write ≡ write_data d
    → wr.stream ≡ some id
    → length d.p < 2 ^ 31
    → IsFlow f
    → m < 2 ^ 32
    → n < 2 ^ 32
    → Splits wr d.p f (ord (allowed f m n) - 2 ^ 31) (consume wr f m n)
unfolding consume consume_write on_stream
consume-Splits wr d id f m n e es hp w hm hn =
    let avail = available-lt f w in
    let small : allowed f m n < 2 ^ 32 = ground arith in
    let fits : ord (allowed f m n) ≤ ord (available f) = ground arith in
    subst (λ v. Splits wr d.p f (ord (allowed f m n) - 2 ^ 31) (consume_write v wr f m n)) (sym e)
      (elim (Bool-cases (length d.p == 0)) [
        | inl z ↦ rw z (empty-Splits wr d f _ e z w)
        | inr z ↦ rw z (
            subst (λ s. Splits wr d.p f (ord (allowed f m n) - 2 ^ 31) (on_stream s wr d f m n))
              (sym es) (consume_up_to-Splits wr d f (allowed f m n) e hp w small fits))
      ])
